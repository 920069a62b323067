-- ===== src/Kernel/DataMapping/Tests.antt =====
-- kernel/data_mapping.c on concrete requests.
use bius.Base.{
  length, ℕ, ◌*◌, ◌/◌, ◌-◌, ◌%◌, ◌<◌, ◌≡◌, true, false, Option, none, some, List, [], ◌∷◌, arith,
  refl, Ensures, pos, ◌>>=◌, ltb,
}
use bius.Kernel.{BlkBody}
use bius.RequestType.{unmapped, simple}
use bius.Kernel.DataMapping.{
  Window, zero_page, BioVec, map_data, unmap_data, ptes_per_command, page_size,
}
use bius.Kernel.DataMapping.Views.{bytes_of}
use bius.Kernel.DataMapping.Shows.{IsMappable, ShowsBy}
use bius.Kernel.DataMapping.Writes.{Occupies, map_data-ShowsBy}
use bius.Kernel.DataMapping.Unmap.{IsClear, unmap_data-map_data}
use bius.Kernel.DataMapping.Vm.{Vma, Area, dev_mmap, dev_mmap-mapped, dev_mmap_unmapped}
use bius.Kernel.DataMapping.CopyBack.{copy_in_misaligned_pages, copy_in-simple, copied}

abbrev frame_address : ℕ → ℕ
frame_address pfn = 4096 * pfn

abbrev bytes : ℕ → ℕ
bytes a = a % 251

-- The end of a page, a whole page that follows it, and a part of another page.
abbrev segments : List BioVec
segments =
    record { bv_page = 10; bv_len = 3584; bv_offset = 512 }
    ∷ record { bv_page = 20; bv_len = 4096; bv_offset = 0 }
    ∷ record { bv_page = 30; bv_len = 1000; bv_offset = 24 }
    ∷ []

abbrev body : BlkBody ℕ
body = record { bio = []; map_data = 8680; mapped_size = 0; map_type = unmapped; blk_result = 0 }

abbrev window : Window
window = record {
  vm_start = 40960;
  ptes = λ i. zero_page;
  longs = λ i. 7;
  reserved_pages = λ k o. 9;
}

window_fits : IsMappable frame_address segments window
window_fits = record {
  linear = record { next_page = λ pfn. omega arith };
  valid = (
    record { offset = omega arith; below = omega arith },
    (
      record { offset = omega arith; below = omega arith },
      (record { offset = omega arith; below = omega arith }, tt),
    ),
  );
  few = omega arith;
  pages = omega arith;
  taken = omega arith;
  aligned = refl;
  positive = omega arith;
  small = omega arith;
}

-- Two entries: the first two segments follow each other in the area.
abbrev summary : Option (BlkBody ℕ × Window) → Option (List ℕ)
summary none = none
summary (some (r, w)) = some (
    r.map_data
    ∷ r.mapped_size
    ∷ w.longs 0
    ∷ w.longs 1
    ∷ w.longs 2
    ∷ w.longs 3
    ∷ w.longs 4
    ∷ w.longs 514
    ∷ w.longs 515
    ∷ w.reserved_pages 2 511
    ∷ w.reserved_pages 2 512
    ∷ [])

map_data_runs :
    summary (map_data frame_address bytes true segments body window)
    ≡ some (53248 ∷ 16384 ∷ 41472 ∷ 7680 ∷ 49176 ∷ 1000 ∷ 0 ∷ 40960 ∷ 122880 ∷ 0 ∷ bytes 41472 ∷ [])
unfolding map_data
map_data_runs = refl

map_data-ShowsBy_example :
    Ensures
      (λ q.
        Occupies window q.0 q.1
        × ShowsBy frame_address bytes
            (length segments)
            q.0.map_type
            q.0.map_data
            q.1
            (bytes_of frame_address bytes segments))
      (map_data frame_address bytes true segments body window)
map_data-ShowsBy_example =
    map_data-ShowsBy frame_address bytes segments body window refl window_fits

unmap_data-map_data_example :
    Ensures IsClear
      (map_data frame_address bytes false segments body window >>= λ q. unmap_data q.0 q.1)
unmap_data-map_data_example =
    unmap_data-map_data frame_address bytes false segments body window refl window_fits (λ i. refl)

abbrev area : Area
area = record { vma = none; entries = λ i. none; ptes = λ i. none }

abbrev vma : Vma
vma = record { vm_start = 40960; vm_end = 134262784 }

dev_mmap-mapped_example :
    ((dev_mmap (λ j. true) (λ j. true) vma area).0 ≡ pos 0)
    × ((dev_mmap (λ j. true) (λ j. true) vma area).1.vma ≡ some vma)
    × ((j : ℕ)
        → j < (vma.vm_end - vma.vm_start) / page_size
        → (dev_mmap (λ j. true) (λ j. true) vma area).1.entries j ≡ some zero_page)
    × ((j : ℕ)
        → j < ptes_per_command
        → (dev_mmap (λ j. true) (λ j. true) vma area).1.ptes j ≡ some j)
dev_mmap-mapped_example =
    dev_mmap-mapped (λ j. true) (λ j. true) vma area refl (omega arith) (omega arith) (λ j. refl)
      (λ j. refl)

dev_mmap_unmapped_example :
    ((dev_mmap (λ j. ltb j 5) (λ j. true) vma area).0 ≡ pos 0)
    × ((dev_mmap (λ j. ltb j 5) (λ j. true) vma area).1.vma ≡ some vma)
    × ((j : ℕ) → (dev_mmap (λ j. ltb j 5) (λ j. true) vma area).1.entries j ≡ none)
dev_mmap_unmapped_example =
    dev_mmap_unmapped (λ j. ltb j 5) (λ j. true) vma area 5 refl (omega arith) (omega arith)
      (omega arith) refl

copy_in-simple_example :
    copy_in_misaligned_pages window simple 24 5000 bytes ≡ some (copied window 24 5000 bytes)
copy_in-simple_example =
    copy_in-simple window 24 5000 bytes (omega arith) refl (omega arith) (omega arith)
