-- ===== src/Turn/MappedTests.antt =====
-- A mapped write of two segments, and the storage after it.
use bius.Base.{
  ℕ, [], ◌∷◌, List, Option, none, some, true, arith, refl, Ensures, ◌≡◌, ◌*◌, ◌%◌, length, ◌>>=◌,
}
use bius.Kernel.{BlkBody}
use bius.RequestType.{unmapped}
use bius.Kernel.DataMapping.{Window, BioVec, zero_page, map_data}
use bius.Kernel.DataMapping.Views.{bytes_of}
use bius.Kernel.DataMapping.Shows.{IsMappable}
use bius.Library.{Outcome}
use bius.Library.Dispatch.{handle_blk_command}
use bius.Turn.MappedWrites.{handled, all_stored, handle_blk_command-map_data}
use bius.Turn.MappedList.{entries_at}

abbrev frame_address : ℕ → ℕ
frame_address pfn = 4096 * pfn

abbrev bytes : ℕ → ℕ
bytes a = a % 251

abbrev two_parts : List BioVec
two_parts =
    record { bv_page = 10; bv_len = 3; bv_offset = 512 }
    ∷ record { bv_page = 20; bv_len = 2; bv_offset = 40 }
    ∷ []

abbrev body : BlkBody ℕ
body = record { bio = []; map_data = 5; mapped_size = 0; map_type = unmapped; blk_result = 0 }

abbrev window : Window
window = record {
  vm_start = 40960;
  ptes = λ i. zero_page;
  longs = λ i. 7;
  reserved_pages = λ k o. 9;
}

window_fits : IsMappable frame_address two_parts window
window_fits = record {
  linear = record { next_page = λ pfn. omega arith };
  valid = (
    record { offset = omega arith; below = omega arith },
    (record { offset = omega arith; below = omega arith }, tt),
  );
  few = omega arith;
  pages = omega arith;
  taken = omega arith;
  aligned = refl;
  positive = omega arith;
  small = omega arith;
}

handle_blk_command-map_data_example :
    Ensures
      (λ q.
        handled {Bio = ℕ} frame_address bytes window 3 100 0
          (λ a. 1)
          q
          (length (bytes_of frame_address bytes two_parts))
        ≡ all_stored 100 0 (λ a. 1) (bytes_of frame_address bytes two_parts))
      (map_data frame_address bytes true two_parts body window)
handle_blk_command-map_data_example =
    handle_blk_command-map_data frame_address bytes window 3 100 0 (λ a. 1) two_parts body refl
      window_fits (omega arith) (omega arith)

abbrev cells : Option (Outcome (ℕ → ℕ)) → List ℕ
cells none = []
cells (some r) =
    r.state 99 ∷ r.state 100 ∷ r.state 102 ∷ r.state 103 ∷ r.state 104 ∷ r.state 105 ∷ []

handled_runs :
    (map_data frame_address bytes true two_parts body window >>= λ q.
    some (cells (handled {Bio = ℕ} frame_address bytes window 3 100 0 (λ a. 1) q 5)))
    ≡ some (1 ∷ bytes 41472 ∷ bytes 41474 ∷ bytes 81960 ∷ bytes 81961 ∷ 1 ∷ [])
unfolding map_data handle_blk_command entries_at
handled_runs = refl
