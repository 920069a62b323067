-- ===== src/Kernel/DataMapping.antt =====
-- kernel/data_mapping.c, which CONFIG_BIUS_DATAMAP compiles: `bius_map_data` and `bius_unmap_data`.
-- A page frame has a number; `page_address` gives the kernel's address of a frame, and `memory` is
-- the kernel's memory. The first two reserved pages are arrays of `unsigned long`: `longs` holds both,
-- so that `reserve_mapping_list[i]` is `longs (512 + i)`.
pub mod Grows
pub mod Parts
pub mod Pages
pub mod Segment
pub mod Views
pub mod Entries
pub mod Listing
pub mod Loop
pub mod Shows
pub mod Writes
pub mod Unmap
pub mod Vm
pub mod CopyBack
mod Tests
use bius.Base.{
  ℕ, zero, suc, ◌+◌, ◌-◌, ◌*◌, ◌/◌, ◌%◌, ◌<◌, Bool, true, false, not, ◌&&◌, ◌||◌, Option, none,
  some, List, [], ◌∷◌, ltb, leb, ◌==◌, if◌then◌else◌, ◌>>=◌, u64, u64_mod, sub64, ℤ, pos,
}
use bius.Kernel.{BlkBody}
use bius.Kernel.CharDev.{is_unmapped}
use bius.RequestType.{MapType, unmapped, simple, list}

abbrev pub page_size : ℕ
page_size = 4096

-- BIUS_NUM_RESERVED_PAGES, BIUS_PTES_PER_COMMAND, and the places of two pages.
abbrev pub num_reserved_pages : ℕ
num_reserved_pages = 258

abbrev pub ptes_per_command : ℕ
ptes_per_command = 32768

abbrev pub num_longs : ℕ
num_longs = 1024

abbrev pub reserve_list : ℕ
reserve_list = 512

-- What a page table entry of the user's area maps: the zero page, a frame, or a reserved page.
pub data Pte : Type 0 where
  zero_page : Pte
  data_page : ℕ → Pte
  reserved_page : ℕ → Pte

pub record BioVec : Type 0 where
  pub bv_page : ℕ
  pub bv_len : ℕ
  pub bv_offset : ℕ

-- The part of a connection that the mapping uses: its user area, the entries that `ptes` points to,
-- and its reserved pages.
pub record Window : Type 0 where
  pub vm_start : ℕ
  pub ptes : ℕ → Pte
  pub longs : ℕ → ℕ
  pub reserved_pages : ℕ → ℕ → ℕ

-- The variables of the loop of `bius_map_data`, with the memory that it writes.
pub record Mapping : Type 0 where
  pub ptes : ℕ → Pte
  pub longs : ℕ → ℕ
  pub reserved_pages : ℕ → ℕ → ℕ
  pub list_entry_index : ℕ
  pub next_reserved_page_num : ℕ
  pub user_addr : ℕ
  pub user_page_num : ℕ
  pub segment_end_aligned : Bool

abbrev pub put : {A : Type 0} → (ℕ → A) → ℕ → A → ℕ → A
put f i v j = if j == i then v else f j

-- `set_pte_at` through `ptes[user_page_num]`, and the step to the next page. `none` is an access out
-- of bounds, here and below.
unfoldable pub set_next_pte : Pte → Mapping → Option Mapping
set_next_pte p m =
    if ltb m.user_page_num ptes_per_command
    then some (record m {
      ptes = put m.ptes m.user_page_num p;
      user_addr = u64 (m.user_addr + page_size);
      user_page_num = m.user_page_num + 1;
    })
    else none

-- mapping_list[list_entry_index * 2] = address, the size 0 behind it, and the next index.
unfoldable pub new_entry : ℕ → Mapping → Option Mapping
new_entry address m =
    if ltb (m.list_entry_index * 2 + 1) num_longs
    then some (record m {
      longs = put (put m.longs (m.list_entry_index * 2) address) (m.list_entry_index * 2 + 1) 0;
      list_entry_index = m.list_entry_index + 1;
    })
    else none

-- mapping_list[list_entry_index * 2 - 1] += size.
unfoldable pub add_size : ℕ → Mapping → Option Mapping
add_size size m =
    if ltb 0 m.list_entry_index && ltb (m.list_entry_index * 2 - 1) num_longs
    then some (record m {
      longs =
          put m.longs (m.list_entry_index * 2 - 1)
            (u64 (m.longs (m.list_entry_index * 2 - 1) + size));
    })
    else none

-- The entry of the mapping list that a segment starts or continues.
unfoldable pub add_entry : BioVec → Mapping → Option Mapping
unfolding new_entry add_size
add_entry v m =
    (if not m.segment_end_aligned || not (v.bv_offset == 0)
      then new_entry (u64 (m.user_addr + v.bv_offset)) m
      else some m)
    >>= add_size v.bv_len

module _ (page_address : ℕ → ℕ) (memory : ℕ → ℕ) (is_write : Bool) where
  -- `memset` of a reserved page, and for a write the `memcpy` of `n` bytes at `offset`.
  abbrev pub fresh_page : ℕ → ℕ → ℕ → ℕ → ℕ
  fresh_page address offset n o =
      if is_write && (leb offset o && ltb o (offset + n)) then memory (address + o) else 0

  -- A page of which the segment has only a part is a reserved page, which remembers the data's
  -- address.
  unfoldable pub reserve_page : ℕ → ℕ → ℕ → Mapping → Option Mapping
  unfolding set_next_pte
  reserve_page address offset n m =
      if ltb m.next_reserved_page_num num_reserved_pages
      then set_next_pte (reserved_page m.next_reserved_page_num) (record m {
        reserved_pages =
            put m.reserved_pages m.next_reserved_page_num (fresh_page address offset n);
        longs = put m.longs (reserve_list + m.next_reserved_page_num) address;
        next_reserved_page_num = m.next_reserved_page_num + 1;
      })
      else none

  -- The loop over whole pages: the address and the size that are left. `none` also stands for fuel
  -- that ran out.
  unfoldable pub map_pages : ℕ → ℕ → ℕ → ℕ → Mapping → Option (ℕ × ℕ × Mapping)
  unfolding set_next_pte
  map_pages zero pfn address remain m = none
  map_pages (suc fuel) pfn address remain m =
      let next : Option (ℕ × ℕ × Mapping) =
        (set_next_pte (data_page pfn) m
          >>= map_pages fuel (pfn + 1) (u64 (address + page_size)) (remain - page_size)) in
      if leb page_size remain then next else some (address, remain, m)

  -- The end of a segment that does not fill its page.
  unfoldable pub map_tail : ℕ → ℕ → Mapping → Option Mapping
  unfolding reserve_page
  map_tail address remain m =
      if ltb 0 remain
      then (reserve_page address 0 remain m >>= λ m'.
          some (record m' { segment_end_aligned = false }))
      else some (record m { segment_end_aligned = true })

  unfoldable pub map_rest : ℕ → ℕ → ℕ → Mapping → Option Mapping
  unfolding map_pages map_tail
  map_rest pfn address remain m =
      map_pages (remain / page_size + 1) pfn address remain m >>= λ r. map_tail r.0 r.1 r.2

  -- The start of a segment that is not at the start of its page: `n` bytes of the page.
  unfoldable pub map_head : BioVec → ℕ → Mapping → Option Mapping
  unfolding reserve_page map_rest
  map_head v n m = reserve_page (page_address v.bv_page) v.bv_offset n m >>= λ m'.
      if n == sub64 page_size v.bv_offset
      then map_rest (v.bv_page + 1) (u64 (page_address v.bv_page + page_size)) (v.bv_len - n) m'
      else some (record m' { segment_end_aligned = false })

  unfoldable pub map_pages_of : BioVec → Mapping → Option Mapping
  unfolding map_head map_rest
  map_pages_of v m =
      let room : ℕ = sub64 page_size v.bv_offset in
      if v.bv_offset == 0
      then map_rest v.bv_page (page_address v.bv_page) v.bv_len m
      else map_head v (if ltb room v.bv_len then room else v.bv_len) m

  -- The body of the loop over the segments, and the loop.
  unfoldable pub map_segment : BioVec → Mapping → Option Mapping
  unfolding add_entry map_pages_of
  map_segment v m = add_entry v m >>= map_pages_of v

  unfoldable pub map_segments : List BioVec → Mapping → Option Mapping
  unfolding map_segment
  map_segments [] m = some m
  map_segments (v ∷ vs) m = map_segment v m >>= map_segments vs

-- mapping_list[list_entry_index * 2] = mapping_list[list_entry_index * 2 + 1] = 0.
unfoldable pub end_list : Mapping → Option Mapping
end_list m =
    if ltb (m.list_entry_index * 2 + 1) num_longs
    then some (record m {
      longs = put (put m.longs (m.list_entry_index * 2 + 1) 0) (m.list_entry_index * 2) 0;
    })
    else none

-- The loop of `bius_unmap_data`, from page `i` on.
unfoldable pub clear_ptes : ℕ → ℕ → (ℕ → Pte) → Option (ℕ → Pte)
clear_ptes zero i table = some table
clear_ptes (suc n) i table =
    let next : Option (ℕ → Pte) = clear_ptes n (i + 1) (put table i zero_page) in
    if ltb i ptes_per_command then next else none

-- How the mapping is handed on: the type, `map_data`, and the state.
pub record Handed : Type 0 where
  pub map_type : MapType
  pub map_data : ℕ
  pub mapping : Mapping

-- From `if (list_entry_index > 1)` on. A list ends with a zero address; its page
-- follows the data. The number of the next page is not read any more.
unfoldable pub hand_over : ℕ → Mapping → Option Handed
unfolding set_next_pte end_list
hand_over old m =
    if ltb 1 m.list_entry_index
    then (set_next_pte (reserved_page 0) m >>= end_list >>= λ m'.
        some (record { map_type = list; map_data = m.user_addr; mapping = m' }))
    else (if m.list_entry_index == 1
        then some (record { map_type = simple; map_data = m.longs 0 % page_size; mapping = m })
        else some (record { map_type = unmapped; map_data = old; mapping = m }))

abbrev pub start_mapping : Window → Mapping
start_mapping w = record {
  ptes = w.ptes;
  longs = w.longs;
  reserved_pages = w.reserved_pages;
  list_entry_index = 0;
  next_reserved_page_num = 2;
  user_addr = w.vm_start;
  user_page_num = 0;
  segment_end_aligned = false;
}

module _ {Bio : Type 0} where
  abbrev pub handed_to : BlkBody Bio → Window → Handed → BlkBody Bio × Window
  handed_to r w h = (
    record r {
      map_type = h.map_type;
      map_data = h.map_data;
      mapped_size = u64 (h.mapping.user_addr + u64_mod - w.vm_start);
    },
    record w {
      ptes = h.mapping.ptes;
      longs = h.mapping.longs;
      reserved_pages = h.mapping.reserved_pages;
    },
  )

  -- `bius_map_data` on the segments of the request, whose result is 0 on every path.
  unfoldable pub map_data :
      (ℕ → ℕ) → (ℕ → ℕ) → Bool → List BioVec → BlkBody Bio → Window → Option (BlkBody Bio × Window)
  unfolding map_segments hand_over
  map_data page_address memory is_write segments r w =
      if is_unmapped r.map_type
      then (map_segments page_address memory is_write segments (start_mapping w)
          >>= hand_over r.map_data
          >>= λ h. some (handed_to r w h))
      else some (r, w)

  unfoldable pub unmap_data : BlkBody Bio → Window → Option (BlkBody Bio × Window)
  unfolding clear_ptes
  unmap_data r w =
      if is_unmapped r.map_type
      then some (r, w)
      else (clear_ptes (r.mapped_size / page_size) 0 w.ptes >>= λ table.
          some (record r { map_type = unmapped }, record w { ptes = table }))
