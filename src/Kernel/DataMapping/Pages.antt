-- ===== src/Kernel/DataMapping/Pages.antt =====
-- kernel/data_mapping.c: the pages that `bius_map_data` adds for one segment.
use bius.Base.{
  ℕ, zero, suc, ◌+◌, ◌-◌, ◌*◌, ◌/◌, ◌%◌, ◌<◌, ◌≤◌, ◌≡◌, Bool, true, false, u64, u64_mod, arith,
  refl, Ensures, ap, ltb-cases, inl, inr, lt→ltb, le→leb, Ensures-bind, Ensures-mono, ==_refl,
  lt→leb,
}
use bius.Kernel.DataMapping.{
  Mapping, data_page, reserved_page, page_size, put, set_next_pte, reserve_page, ptes_per_command,
  num_reserved_pages, reserve_list, map_pages, map_tail, map_rest, fresh_page,
}
use bius.Kernel.DataMapping.Parts.{
  pages_for, Grown, HasRoom, HasRoom-Grows, HasRoom-le, WholePages, WholePages-suc, Part, Part-tail,
}
use bius.Kernel.DataMapping.Grows.{page-Grows, Grows-at, Grows-refl}

-- The frames of the kernel's linear map follow each other, below the end of the address space.
pub record IsLinear (page_address : ℕ → ℕ) : Type 0 where
  pub next_page : (pfn : ℕ) → page_address (pfn + 1) ≡ page_address pfn + page_size

module _ (page_address : ℕ → ℕ) (memory : ℕ → ℕ) (is_write : Bool) (vm_start : ℕ)
    (small : vm_start + page_size * (ptes_per_command + 1) < u64_mod) where
  set_data-Grows :
      (m : Mapping) (pfn a : ℕ)
      → a ≡ page_address pfn
      → HasRoom page_address memory is_write vm_start m 1 0
      → Ensures
          (Grown page_address memory is_write vm_start m
            (page_size * m.user_page_num)
            a
            page_size
            1
            0)
          (set_next_pte (data_page pfn) m)
  unfolding set_next_pte
  set_data-Grows m pfn a e r =
      rw (lt→ltb m.user_page_num ptes_per_command (omega (arith, r.room))) (
        page-Grows page_address memory is_write vm_start (data_page pfn) m _ _ _ _ _ r.low refl
          (omega arith) refl (λ k o h. refl) (λ j h. refl) refl (omega (arith, r.addr, r.room)) tt
          (omega arith) (omega arith) (λ i h w. ap memory (omega arith)))

  pub reserve_page-Grows :
      (m : Mapping) (address offset n : ℕ)
      → offset + n ≤ page_size
      → HasRoom page_address memory is_write vm_start m 1 1
      → Ensures
          (Grown page_address memory is_write vm_start m
            (page_size * m.user_page_num + offset)
            (address + offset)
            n
            1
            1)
          (reserve_page page_address memory is_write address offset n m)
  unfolding reserve_page set_next_pte
  reserve_page-Grows m address offset n le r =
      rw (lt→ltb m.next_reserved_page_num num_reserved_pages (omega (arith, r.spare))) (
        rw (lt→ltb m.user_page_num ptes_per_command (omega (arith, r.room))) (
          page-Grows page_address memory is_write vm_start (reserved_page m.next_reserved_page_num)
            m _ _ _ _ _ r.low refl refl refl (λ k o h. put_other_page k o h)
            (λ j h. put_other_long j h) refl (omega (arith, r.addr, r.room)) (omega arith)
            (omega arith) (omega arith) (λ i h w. shown i h w)))
    where
      put_other_page :
          (k o : ℕ)
          → k < m.next_reserved_page_num
          → put m.reserved_pages m.next_reserved_page_num
              (fresh_page page_address memory is_write address offset n)
              k
              o
            ≡ m.reserved_pages k o
      put_other_page k o h = ground arith

      put_other_long :
          (j : ℕ)
          → j < reserve_list + m.next_reserved_page_num
          → put m.longs (reserve_list + m.next_reserved_page_num) address j ≡ m.longs j
      put_other_long j h = ground arith

      shown :
          (i : ℕ)
          → i < n
          → is_write ≡ true
          → put m.reserved_pages m.next_reserved_page_num
              (fresh_page page_address memory is_write address offset n)
              m.next_reserved_page_num
              ((page_size * m.user_page_num + offset + i) % page_size)
            ≡ memory (address + offset + i)
      shown i h w =
          let e : (page_size * m.user_page_num + offset + i) % page_size ≡ offset + i =
            omega arith in
          let q : address + (offset + i) ≡ address + offset + i = omega arith in
          rw e (
            rw
              (
                ==_refl m.next_reserved_page_num,
                w,
                le→leb offset (offset + i) (omega arith),
                lt→ltb (offset + i) (offset + n) (omega arith),
              )
              (ap memory q))

  map_tail-Part :
      (a n : ℕ) (m : Mapping)
      → n < page_size
      → HasRoom page_address memory is_write vm_start m (pages_for n) (pages_for n)
      → Ensures
          (Part page_address memory is_write vm_start m
            (page_size * m.user_page_num)
            a
            n
            (pages_for n)
            (pages_for n))
          (map_tail page_address memory is_write a n m)
  unfolding map_tail
  map_tail-Part a n m lt r = elim (ltb-cases 0 n) [
    | inl (t, p) ↦ rw t (
        Ensures-bind _ (reserve_page page_address memory is_write a 0 n m) _ (
          Ensures-mono _
            (λ m1.
              Part page_address memory is_write vm_start m (page_size * m.user_page_num) a n
                (pages_for n) (pages_for n) (record m1 { segment_end_aligned = false }))
            _
            (λ m1 g. (
              Grows-at page_address memory is_write vm_start false (omega arith) (omega arith)
                  (omega arith) (omega arith) (omega arith) g,
              omega (arith, g.page_num),
              λ q. absurd (cc),
            ))
            (reserve_page-Grows m a 0 n (omega arith)
              (HasRoom-le page_address memory is_write vm_start (omega arith) (omega arith) r))))
    | inr (t, p) ↦ rw t (
      Grows-at page_address memory is_write vm_start true refl refl (omega arith) (omega arith)
          (omega arith)
          (Grows-refl page_address memory is_write vm_start m (page_size * m.user_page_num) a r.low
            r.addr),
      omega arith,
      λ q. omega arith,
    )
  ]

  module _ (linear : IsLinear page_address) where
    map_pages-WholePages :
        (fuel whole rest pfn a remain : ℕ) (m : Mapping)
        → remain ≡ page_size * whole + rest
        → rest < page_size
        → whole < fuel
        → a ≡ page_address pfn
        → a + remain < u64_mod
        → HasRoom page_address memory is_write vm_start m whole 0
        → Ensures
            (WholePages page_address memory is_write vm_start m a whole rest)
            (map_pages page_address memory is_write fuel pfn a remain m)
    unfolding map_pages
    map_pages-WholePages zero whole rest pfn a remain m e lt f p u r = absurd (omega arith)
    map_pages-WholePages (suc fuel) zero rest pfn a remain m e lt f p u r =
        rw (lt→leb page_size remain (omega arith)) (
          Grows-at page_address memory is_write vm_start _ refl refl (omega arith) refl refl (
              Grows-refl page_address memory is_write vm_start m (page_size * m.user_page_num) a
                r.low r.addr),
          omega arith,
          omega arith,
        )
    map_pages-WholePages (suc fuel) (suc whole) rest pfn a remain m e lt f p u r =
        rw (le→leb page_size remain (omega arith)) (
          Ensures-bind _ (set_next_pte (data_page pfn) m) _ (
            Ensures-mono _ _ _
              (λ m1 g.
                Ensures-mono _ _ _
                  (λ q.
                    WholePages-suc page_address memory is_write vm_start m m1 a
                      (u64 (a + page_size)) whole rest q (omega arith) g)
                  (map_pages-WholePages fuel whole rest (pfn + 1) (u64 (a + page_size))
                    (remain - page_size) m1 (omega arith) lt (omega arith)
                    (omega (arith, linear.next_page pfn)) (omega arith)
                    (HasRoom-Grows page_address memory is_write vm_start {more = whole} {others = 0}
                      (HasRoom-le page_address memory is_write vm_start (omega arith) (omega arith)
                        r)
                      g)))
              (set_data-Grows m pfn a p
                (HasRoom-le page_address memory is_write vm_start (omega arith) (omega arith) r))))

    pub map_rest-Part :
        (pfn a n : ℕ) (m : Mapping)
        → a ≡ page_address pfn
        → a + n < u64_mod
        → HasRoom page_address memory is_write vm_start m (pages_for n) (pages_for (n % page_size))
        → Ensures
            (Part page_address memory is_write vm_start m
              (page_size * m.user_page_num)
              a
              n
              (pages_for n)
              (pages_for (n % page_size)))
            (map_rest page_address memory is_write pfn a n m)
    unfolding map_rest
    map_rest-Part pfn a n m e u r =
        Ensures-bind _ (map_pages page_address memory is_write (n / page_size + 1) pfn a n m) _ (
          Ensures-mono _ _ _
            (λ (q : ℕ × ℕ × Mapping)
                (h : WholePages page_address memory is_write vm_start m a (n / page_size)
                  (n % page_size) q).
              Ensures-mono _ _ _
                (λ m2 t. Part-tail page_address memory is_write vm_start m q.2 m2 a q.0 n q.1 h t)
                (map_tail-Part q.0 q.1 q.2 (omega arith) (
                  HasRoom-Grows page_address memory is_write vm_start {more = pages_for q.1}
                    {others = pages_for q.1}
                    (HasRoom-le page_address memory is_write vm_start (omega arith) (omega arith) r)
                    h.0)))
            (map_pages-WholePages (n / page_size + 1) (n / page_size) (n % page_size) pfn a n m
              (omega arith) (omega arith) (omega arith) e u
              (HasRoom-le page_address memory is_write vm_start (omega arith) (omega arith) r)))
