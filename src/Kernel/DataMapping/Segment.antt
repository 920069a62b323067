-- ===== src/Kernel/DataMapping/Segment.antt =====
-- kernel/data_mapping.c: the whole pages and the parts of pages that one segment maps.
use bius.Base.{
  ℕ, ◌+◌, ◌-◌, ◌*◌, ◌%◌, ◌<◌, ◌≤◌, ◌≡◌, Bool, false, some, ◌==◌, if◌then◌else◌, u64, u64_mod, arith,
  refl, Ensures, inl, inr, ==-cases, Ensures-bind, Ensures-mono, sub64, ◌≢◌,
}
use bius.Kernel.DataMapping.{
  Mapping, page_size, reserve_page, ptes_per_command, map_rest, map_head, map_pages_of, BioVec,
}
use bius.Kernel.DataMapping.Grows.{Grows-trans, Grows-at}
use bius.Kernel.DataMapping.Parts.{pages_for, Part, HasRoom, HasRoom-le, HasRoom-Grows, Grown}
use bius.Kernel.DataMapping.Pages.{IsLinear, reserve_page-Grows, map_rest-Part}

-- The pages of the area that a segment takes, and how many of them are reserved pages.
abbrev pub pages_of : BioVec → ℕ
pages_of v = pages_for (v.bv_offset + v.bv_len)

abbrev pub reserved_of : BioVec → ℕ
reserved_of v =
    if v.bv_offset == 0
    then pages_for (v.bv_len % page_size)
    else 1 + pages_for ((v.bv_len - (page_size - v.bv_offset)) % page_size)

module _ (page_address : ℕ → ℕ) (memory : ℕ → ℕ) (is_write : Bool) (vm_start : ℕ) where
  -- The pages of a segment show its bytes, in their places of the pages.
  abbrev pub Mapped : BioVec → Mapping → Mapping → Type 0
  Mapped v m m' =
      Part page_address memory is_write vm_start m (page_size * m.user_page_num + v.bv_offset)
        (page_address v.bv_page + v.bv_offset) v.bv_len (pages_of v) (reserved_of v) m'

module _ (page_address : ℕ → ℕ) (memory : ℕ → ℕ) (is_write : Bool) (vm_start : ℕ)
    (small : vm_start + page_size * (ptes_per_command + 1) < u64_mod)
    (linear : IsLinear page_address) where
  -- The first page, and then the rest from the start of the next page on.
  head_rest :
      (v : BioVec) (n b : ℕ) (m m1 m2 : Mapping)
      → n ≡ page_size - v.bv_offset
      → n ≤ v.bv_len
      → 0 < v.bv_offset
      → v.bv_offset < page_size
      → b ≡ page_address v.bv_page + page_size
      → Grown page_address memory is_write vm_start m
          (page_size * m.user_page_num + v.bv_offset)
          (page_address v.bv_page + v.bv_offset)
          n
          1
          1
          m1
      → Part page_address memory is_write vm_start m1
          (page_size * m1.user_page_num)
          b
          (v.bv_len - n)
          (pages_for (v.bv_len - n))
          (pages_for ((v.bv_len - n) % page_size))
          m2
      → Mapped page_address memory is_write vm_start v m m2
  head_rest v n b m m1 m2 e le pos lt be g (t, u, w) = (
    Grows-at page_address memory is_write vm_start _ refl refl (omega arith) (omega arith)
        (ground arith)
        (Grows-trans page_address memory is_write vm_start g t (omega (arith, g.page_num))
          (omega arith) (omega (arith, g.page_num))),
    omega (arith, g.page_num),
    λ q. omega (arith, g.page_num, w q),
  )

  map_head-Mapped :
      (v : BioVec) (n : ℕ) (m : Mapping)
      → 0 < v.bv_offset
      → v.bv_offset < page_size
      → n ≤ v.bv_len
      → n ≤ page_size - v.bv_offset
      → (n ≢ page_size - v.bv_offset → n ≡ v.bv_len)
      → page_address v.bv_page + page_size + v.bv_len < u64_mod
      → HasRoom page_address memory is_write vm_start m (pages_of v) (reserved_of v)
      → Ensures
          (Mapped page_address memory is_write vm_start v m)
          (map_head page_address memory is_write v n m)
  unfolding map_head
  map_head-Mapped v n m pos lt le room whole u r =
      Ensures-bind _
        (reserve_page page_address memory is_write (page_address v.bv_page) v.bv_offset n m) _
        (Ensures-mono _ _ _ (λ m1 g. next m1 g)
          (reserve_page-Grows page_address memory is_write vm_start small m (page_address v.bv_page)
            v.bv_offset n (omega arith)
            (HasRoom-le page_address memory is_write vm_start (omega arith) (ground arith) r)))
    where
      next :
          (m1 : Mapping)
          → Grown page_address memory is_write vm_start m
              (page_size * m.user_page_num + v.bv_offset)
              (page_address v.bv_page + v.bv_offset)
              n
              1
              1
              m1
          → Ensures (Mapped page_address memory is_write vm_start v m) (
              if n == sub64 page_size v.bv_offset
              then map_rest page_address memory is_write
                  (v.bv_page + 1)
                  (u64 (page_address v.bv_page + page_size))
                  (v.bv_len - n)
                  m1
              else some (record m1 { segment_end_aligned = false }))
      next m1 g = elim (==-cases n (sub64 page_size v.bv_offset)) [
        | inl (t, e) ↦ rw t (
            Ensures-mono _ _ _
              (λ m2 q.
                head_rest v n (u64 (page_address v.bv_page + page_size)) m m1 m2 (omega arith) le
                  pos lt (omega arith) g q)
              (map_rest-Part page_address memory is_write vm_start small linear (v.bv_page + 1)
                (u64 (page_address v.bv_page + page_size)) (v.bv_len - n) m1
                (omega (arith, linear.next_page v.bv_page)) (omega arith)
                (HasRoom-Grows page_address memory is_write vm_start
                  {more = pages_for (v.bv_len - n)}
                  {others = pages_for ((v.bv_len - n) % page_size)}
                  (HasRoom-le page_address memory is_write vm_start (omega arith) (ground arith) r)
                  g)))
        | inr (t, e) ↦
            let short : n ≡ v.bv_len = whole (omega arith) in
            rw t (
              Grows-at page_address memory is_write vm_start false refl refl (omega arith)
                  (omega arith) (ground arith) g,
              omega (arith, g.page_num),
              λ q. absurd (cc),
            )
      ]

  -- A segment that starts with its page.
  aligned-Mapped :
      (v : BioVec) (m m2 : Mapping)
      → v.bv_offset ≡ 0
      → Part page_address memory is_write vm_start m
          (page_size * m.user_page_num)
          (page_address v.bv_page)
          v.bv_len
          (pages_for v.bv_len)
          (pages_for (v.bv_len % page_size))
          m2
      → Mapped page_address memory is_write vm_start v m m2
  aligned-Mapped v m m2 e (g, h, k) = (
    Grows-at page_address memory is_write vm_start _ (omega arith) (omega arith) (omega arith)
        (omega arith) (ground arith) g,
    omega arith,
    λ q. omega (arith, k q),
  )

  pub map_pages_of-Mapped :
      (v : BioVec) (m : Mapping)
      → v.bv_offset < page_size
      → page_address v.bv_page + page_size + v.bv_len < u64_mod
      → HasRoom page_address memory is_write vm_start m (pages_of v) (reserved_of v)
      → Ensures
          (Mapped page_address memory is_write vm_start v m)
          (map_pages_of page_address memory is_write v m)
  unfolding map_pages_of
  map_pages_of-Mapped v m lt u r = elim (==-cases v.bv_offset 0) [
    | inl (t, e) ↦ rw t (
        Ensures-mono _ _ _ (λ m2 q. aligned-Mapped v m m2 e q)
          (map_rest-Part page_address memory is_write vm_start small linear v.bv_page
            (page_address v.bv_page) v.bv_len m refl (omega arith)
            (HasRoom-le page_address memory is_write vm_start (omega arith) (ground arith) r)))
    | inr (t, e) ↦ rw t (
        map_head-Mapped v _ m (omega arith) lt (ground arith) (ground arith) (λ q. ground arith) u
          r)
  ]
