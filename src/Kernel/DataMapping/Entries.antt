-- ===== src/Kernel/DataMapping/Entries.antt =====
-- kernel/data_mapping.c: the entry of the mapping list that a segment starts or continues.
use bius.Base.{
  ℕ, ◌+◌, ◌-◌, ◌*◌, ◌<◌, ◌≤◌, ◌≡◌, Bool, true, false, some, ◌==◌, if◌then◌else◌, not, ◌||◌, ◌⊎◌,
  ◌>>=◌, u64, u64_mod, arith, refl, Ensures, inl, inr, ==-cases, lt→ltb,
}
use bius.Kernel.DataMapping.{Mapping, add_entry, new_entry, add_size, BioVec, num_longs}

-- Only the list is another.
pub record IsSameArea (m m1 : Mapping) : Type 0 where
  pub ptes : m1.ptes ≡ m.ptes
  pub reserved : m1.reserved_pages ≡ m.reserved_pages
  pub next_num : m1.next_reserved_page_num ≡ m.next_reserved_page_num
  pub page_num : m1.user_page_num ≡ m.user_page_num
  pub addr : m1.user_addr ≡ m.user_addr

-- An entry for the segment is added, or the last entry grows by it, which it follows.
pub record IsNew (v : BioVec) (m m1 : Mapping) : Type 0 where
  pub index : m1.list_entry_index ≡ m.list_entry_index + 1
  pub address : m1.longs (m.list_entry_index * 2) ≡ m.user_addr + v.bv_offset
  pub size : m1.longs (m.list_entry_index * 2 + 1) ≡ v.bv_len
  pub before : (j : ℕ) → j < m.list_entry_index * 2 → m1.longs j ≡ m.longs j

pub record IsLonger (v : BioVec) (m m1 : Mapping) : Type 0 where
  pub aligned : m.segment_end_aligned ≡ true
  pub offset : v.bv_offset ≡ 0
  pub index : m1.list_entry_index ≡ m.list_entry_index
  pub size : m1.longs (m.list_entry_index * 2 - 1) ≡ m.longs (m.list_entry_index * 2 - 1) + v.bv_len
  pub before : (j : ℕ) → j < m.list_entry_index * 2 - 1 → m1.longs j ≡ m.longs j

abbrev pub Entered : BioVec → Mapping → Mapping → Type 0
Entered v m m1 = IsSameArea m m1 × (IsNew v m m1 ⊎ IsLonger v m m1)

new_entry-Entered :
    (v : BioVec) (m : Mapping)
    → m.list_entry_index < 256
    → m.user_addr + v.bv_offset < u64_mod
    → v.bv_len < u64_mod
    → Ensures (Entered v m) (new_entry (u64 (m.user_addr + v.bv_offset)) m >>= add_size v.bv_len)
unfolding new_entry add_size
new_entry-Entered v m few a n = rw (lt→ltb (m.list_entry_index * 2 + 1) num_longs (omega arith)) (
    rw
      (
        lt→ltb 0 (m.list_entry_index + 1) (omega arith),
        lt→ltb ((m.list_entry_index + 1) * 2 - 1) num_longs (omega arith),
      )
      (
        record { ptes = refl; reserved = refl; next_num = refl; page_num = refl; addr = refl },
        inl (record {
          index = refl;
          address = ground arith;
          size = ground arith;
          before = λ j h. ground arith;
        }),
      ))

longer_entry-Entered :
    (v : BioVec) (m : Mapping)
    → m.segment_end_aligned ≡ true
    → v.bv_offset ≡ 0
    → 0 < m.list_entry_index
    → m.list_entry_index ≤ 256
    → m.longs (m.list_entry_index * 2 - 1) + v.bv_len < u64_mod
    → Ensures (Entered v m) (add_size v.bv_len m)
unfolding add_size
longer_entry-Entered v m al of pos few n =
    rw
      (lt→ltb 0 m.list_entry_index pos, lt→ltb (m.list_entry_index * 2 - 1) num_longs (omega arith))
      (
        record { ptes = refl; reserved = refl; next_num = refl; page_num = refl; addr = refl },
        inr (record {
          aligned = al;
          offset = of;
          index = refl;
          size = ground arith;
          before = λ j h. ground arith;
        }),
      )

pub add_entry-Entered :
    (v : BioVec) (m : Mapping)
    → m.list_entry_index < 256
    → m.user_addr + v.bv_offset < u64_mod
    → v.bv_len < u64_mod
    → (m.segment_end_aligned ≡ true
        → (0 < m.list_entry_index) × (m.longs (m.list_entry_index * 2 - 1) + v.bv_len < u64_mod))
    → Ensures (Entered v m) (add_entry v m)
unfolding add_entry
add_entry-Entered v m few a n al = by_alignment m.segment_end_aligned refl
  where
    by_alignment :
        (b : Bool)
        → m.segment_end_aligned ≡ b
        → Ensures (Entered v m) (
            (if not b || not (v.bv_offset == 0)
              then new_entry (u64 (m.user_addr + v.bv_offset)) m
              else some m)
            >>= add_size v.bv_len)
    by_alignment false t = new_entry-Entered v m few a n
    by_alignment true t = elim (==-cases v.bv_offset 0) [
      | inl (s, e) ↦ rw s (longer_entry-Entered v m t e (al t).0 (omega arith) (al t).1)
      | inr (s, e) ↦ rw s (new_entry-Entered v m few a n)
    ]
