-- ===== src/Kernel/DataMapping/Vm.antt =====
-- kernel/char_dev.c, `bius_dev_mmap`, and kernel/data_mapping.c, `bius_vm_open` and `bius_vm_close`:
-- the user area of a connection, before anything is mapped.
use bius.Base.{
  ℕ, zero, suc, ◌+◌, ◌-◌, ◌/◌, ◌<◌, ◌≤◌, ◌≡◌, Bool, true, false, Option, none, some, arith, refl,
  sym, ap, ◌∙◌, ltb, if◌then◌else◌, ℤ, pos, negsuc, sub64, ltb-cases, inl, inr, u64_mod, Bool-cases,
  ◌≢◌, le→ltb, subst,
}
use bius.Kernel.DataMapping.{Pte, zero_page, page_size, ptes_per_command, put}
use bius.Kernel.Registry.{max_size_per_command}
use bius.Kernel.DataMapping.Grows.{put_other, put_self}

pub record Vma : Type 0 where
  pub vm_start : ℕ
  pub vm_end : ℕ

-- `entries` is the page table of the area by page, none where nothing is mapped; `ptes i` is the
-- page whose entry `ptes[i]` points to.
pub record Area : Type 0 where
  pub vma : Option Vma
  pub entries : ℕ → Option Pte
  pub ptes : ℕ → Option ℕ

-- `map_page i` and `follow i` say whether `partial_map_pfn` and `follow_pte` succeed at page `i`.
module _ (map_page : ℕ → Bool) (follow : ℕ → Bool) where
  -- zap_vma_ptes.
  unfoldable pub zap : Area → Area
  zap a = record a { entries = λ i. none }

  -- The loop over the pages, from page `i` on, and whether it went through. An area is whole pages.
  unfoldable pub map_zero_pages : ℕ → ℕ → Area → Bool × Area
  map_zero_pages zero i a = (true, a)
  map_zero_pages (suc n) i a =
      let next : Bool × Area =
        map_zero_pages n (i + 1) (record a { entries = put a.entries i (some zero_page) }) in
      if map_page i then next else (false, a)

  -- The loop over `ptes`.
  unfoldable pub follow_ptes : ℕ → ℕ → Area → Bool × Area
  follow_ptes zero i a = (true, a)
  follow_ptes (suc n) i a =
      let next : Bool × Area = follow_ptes n (i + 1) (record a { ptes = put a.ptes i (some i) }) in
      if follow i then next else (false, a)

  abbrev pub or_zap : Bool × Area → (Area → Area) → Area
  or_zap (true, a) k = k a
  or_zap (false, a) k = zap a

  unfoldable pub vm_open : Vma → Area → Area
  vm_open v a =
      or_zap (map_zero_pages ((v.vm_end - v.vm_start) / page_size) 0 a)
        (λ b. or_zap (follow_ptes ptes_per_command 0 b) (λ c. c))

  unfoldable pub dev_mmap_free : Vma → Area → ℤ × Area
  dev_mmap_free v a =
      if ltb (sub64 v.vm_end v.vm_start) max_size_per_command
      then (negsuc 21, a)
      else (pos 0, vm_open v (record a { vma = some v }))

  -- `bius_dev_mmap`: -EBUSY where the connection has an area, -EINVAL where the area is too small.
  unfoldable pub dev_mmap : Vma → Area → ℤ × Area
  unfolding dev_mmap_free
  dev_mmap v a = elim a.vma [ some _ ↦ (negsuc 15, a) | none ↦ dev_mmap_free v a ]

  -- `bius_vm_close`.
  unfoldable pub vm_close : Area → Area
  vm_close a = record a { vma = none }

  -- Pages up to `k` are in place, and the other fields as they were.
  abbrev ZeroTo : ℕ → Area → Area → Type 0
  ZeroTo k a b = (b.vma ≡ a.vma) × ((j : ℕ) → j < k → b.entries j ≡ some zero_page)

  map_zero_pages-ZeroTo :
      (n i : ℕ) (a : Area)
      → ((j : ℕ) → map_page j ≡ true)
      → ((j : ℕ) → j < i → a.entries j ≡ some zero_page)
      → ((map_zero_pages n i a).0 ≡ true) × ZeroTo (i + n) a (map_zero_pages n i a).1
  unfolding map_zero_pages
  map_zero_pages-ZeroTo zero i a ok h = (refl, (refl, λ j l. h j (omega arith)))
  map_zero_pages-ZeroTo (suc n) i a ok h = rw (ok i) (
      add (
        map_zero_pages-ZeroTo n (i + 1) (record a { entries = put a.entries i (some zero_page) }) ok
          new))
    where
      new : (j : ℕ) → j < i + 1 → put a.entries i (some zero_page) j ≡ some zero_page
      new j l = elim (ltb-cases j i) [
        | inl (t, p) ↦ put_other a.entries i (some zero_page) j (λ q. omega arith) ∙ h j p
        | inr (t, p) ↦
            ap (put a.entries i (some zero_page)) (omega arith)
            ∙ put_self a.entries i (some zero_page)
      ]

      add :
          ((map_zero_pages n (i + 1) (record a { entries = put a.entries i (some zero_page) })).0
              ≡ true)
            × ZeroTo
                (i + 1 + n)
                a
                (map_zero_pages n
                  (i + 1)
                  (record a { entries = put a.entries i (some zero_page) })).1
          → ((map_zero_pages n (i + 1) (record a { entries = put a.entries i (some zero_page) })).0
              ≡ true)
            × ZeroTo
                (i + suc n)
                a
                (map_zero_pages n
                  (i + 1)
                  (record a { entries = put a.entries i (some zero_page) })).1
      add (e, (v, z)) = (e, (v, λ j l. z j (omega arith)))

  abbrev PointTo : ℕ → Area → Area → Type 0
  PointTo k a b = (b.vma ≡ a.vma) × (b.entries ≡ a.entries) × ((j : ℕ) → j < k → b.ptes j ≡ some j)

  follow_ptes-PointTo :
      (n i : ℕ) (a : Area)
      → ((j : ℕ) → follow j ≡ true)
      → ((j : ℕ) → j < i → a.ptes j ≡ some j)
      → ((follow_ptes n i a).0 ≡ true) × PointTo (i + n) a (follow_ptes n i a).1
  unfolding follow_ptes
  follow_ptes-PointTo zero i a ok h = (refl, (refl, refl, λ j l. h j (omega arith)))
  follow_ptes-PointTo (suc n) i a ok h =
      rw (ok i)
        (add (follow_ptes-PointTo n (i + 1) (record a { ptes = put a.ptes i (some i) }) ok new))
    where
      new : (j : ℕ) → j < i + 1 → put a.ptes i (some i) j ≡ some j
      new j l = elim (ltb-cases j i) [
        | inl (t, p) ↦ put_other a.ptes i (some i) j (λ q. omega arith) ∙ h j p
        | inr (t, p) ↦
            let e : j ≡ i = omega arith in
            ap (put a.ptes i (some i)) e ∙ put_self a.ptes i (some i) ∙ ap some (sym e)
      ]

      add :
          ((follow_ptes n (i + 1) (record a { ptes = put a.ptes i (some i) })).0 ≡ true)
            × PointTo
                (i + 1 + n)
                a
                (follow_ptes n (i + 1) (record a { ptes = put a.ptes i (some i) })).1
          → ((follow_ptes n (i + 1) (record a { ptes = put a.ptes i (some i) })).0 ≡ true)
            × PointTo
                (i + suc n)
                a
                (follow_ptes n (i + 1) (record a { ptes = put a.ptes i (some i) })).1
      add (e, (v, t, z)) = (e, (v, t, λ j l. z j (omega arith)))

  or_zap_done : (r : Bool × Area) (k : Area → Area) → r.0 ≡ true → or_zap r k ≡ k r.1
  or_zap_done (true, a) k e = refl
  or_zap_done (false, a) k e = absurd (cc)

  or_zap_failed : (r : Bool × Area) (k : Area → Area) → r.0 ≡ false → or_zap r k ≡ zap r.1
  or_zap_failed (true, a) k e = absurd (cc)
  or_zap_failed (false, a) k e = refl

  map_zero_pages_failed :
      (n i k : ℕ) (a : Area)
      → i ≤ k
      → k < i + n
      → map_page k ≡ false
      → ((map_zero_pages n i a).0 ≡ false) × ((map_zero_pages n i a).1.vma ≡ a.vma)
  unfolding map_zero_pages
  map_zero_pages_failed zero i k a h l e = absurd (omega arith)
  map_zero_pages_failed (suc n) i k a h l e = elim (Bool-cases (map_page i)) [
    | inl t ↦
        let later : i ≢ k = λ q. absurd (cc (sym t ∙ ap map_page q ∙ e)) in
        rw t (
          map_zero_pages_failed n (i + 1) k
            (record a { entries = put a.entries i (some zero_page) }) (omega arith) (omega arith) e)
    | inr t ↦ rw t (refl, refl)
  ]

  abbrev OpenedTo : ℕ → ℕ → Area → Area → Type 0
  OpenedTo n k a b =
      (b.vma ≡ a.vma)
      × ((j : ℕ) → j < n → b.entries j ≡ some zero_page)
      × ((j : ℕ) → j < k → b.ptes j ≡ some j)

  both_loops :
      (n k : ℕ) (a : Area)
      → ((j : ℕ) → map_page j ≡ true)
      → ((j : ℕ) → follow j ≡ true)
      → OpenedTo n k a (or_zap (map_zero_pages n 0 a) (λ b. or_zap (follow_ptes k 0 b) (λ c. c)))
  both_loops n k a maps follows =
      let zeros : ((map_zero_pages n 0 a).0 ≡ true) × ZeroTo (0 + n) a (map_zero_pages n 0 a).1 =
        map_zero_pages-ZeroTo n 0 a maps (λ j l. absurd (omega arith)) in
      let points : ((follow_ptes k 0 (map_zero_pages n 0 a).1).0 ≡ true)
          × PointTo (0 + k) (map_zero_pages n 0 a).1 (follow_ptes k 0 (map_zero_pages n 0 a).1).1 =
        follow_ptes-PointTo k 0 (map_zero_pages n 0 a).1 follows (λ j l. absurd (omega arith)) in
      subst (OpenedTo n k a)
        (sym (
          or_zap_done (map_zero_pages n 0 a) (λ b. or_zap (follow_ptes k 0 b) (λ c. c)) zeros.0
          ∙ or_zap_done (follow_ptes k 0 (map_zero_pages n 0 a).1) (λ c. c) points.0))
        (
          points.1.0 ∙ zeros.1.0,
          λ j l. ap (λ f. f j) points.1.1 ∙ zeros.1.1 j (omega arith),
          λ j l. points.1.2 j (omega arith),
        )

  -- Where the connection has no area yet, the new one is large enough and every page can be mapped
  -- and found, bius_dev_mmap returns 0, and the connection has the area, with the zero page in each of its
  -- pages and each of its pointers to entries at the page of its number.
  pub dev_mmap-mapped :
      (v : Vma) (a : Area)
      → a.vma ≡ none
      → v.vm_start + max_size_per_command ≤ v.vm_end
      → v.vm_end < u64_mod
      → ((j : ℕ) → map_page j ≡ true)
      → ((j : ℕ) → follow j ≡ true)
      → ((dev_mmap v a).0 ≡ pos 0)
        × ((dev_mmap v a).1.vma ≡ some v)
        × ((j : ℕ)
            → j < (v.vm_end - v.vm_start) / page_size
            → (dev_mmap v a).1.entries j ≡ some zero_page)
        × ((j : ℕ) → j < ptes_per_command → (dev_mmap v a).1.ptes j ≡ some j)
  unfolding dev_mmap dev_mmap_free vm_open
  dev_mmap-mapped v a free large top maps follows =
      let h : OpenedTo ((v.vm_end - v.vm_start) / page_size) ptes_per_command
          (record a { vma = some v }) (vm_open v (record a { vma = some v })) =
        both_loops ((v.vm_end - v.vm_start) / page_size) ptes_per_command
          (record a { vma = some v }) maps follows in
      rw (free, le→ltb (sub64 v.vm_end v.vm_start) max_size_per_command (omega arith))
        (refl, h.0, h.1, h.2)

  -- Where the connection has no area yet and the new one is large enough, but some page of it cannot
  -- be mapped, bius_dev_mmap returns 0 as well, and the connection has the area, in which nothing is
  -- mapped.
  pub dev_mmap_unmapped :
      (v : Vma) (a : Area) (k : ℕ)
      → a.vma ≡ none
      → v.vm_start + max_size_per_command ≤ v.vm_end
      → v.vm_end < u64_mod
      → k < (v.vm_end - v.vm_start) / page_size
      → map_page k ≡ false
      → ((dev_mmap v a).0 ≡ pos 0)
        × ((dev_mmap v a).1.vma ≡ some v)
        × ((j : ℕ) → (dev_mmap v a).1.entries j ≡ none)
  unfolding dev_mmap dev_mmap_free vm_open zap
  dev_mmap_unmapped v a k free large top inside fails =
      let n : ℕ = (v.vm_end - v.vm_start) / page_size in
      let h : ((map_zero_pages n 0 (record a { vma = some v })).0 ≡ false)
          × ((map_zero_pages n 0 (record a { vma = some v })).1.vma ≡ some v) =
        map_zero_pages_failed n 0 k (record a { vma = some v }) (omega arith) (omega arith) fails in
      let e : vm_open v (record a { vma = some v })
          ≡ zap (map_zero_pages n 0 (record a { vma = some v })).1 =
        or_zap_failed (map_zero_pages n 0 (record a { vma = some v }))
          (λ b. or_zap (follow_ptes ptes_per_command 0 b) (λ c. c)) h.0 in
      rw (free, le→ltb (sub64 v.vm_end v.vm_start) max_size_per_command (omega arith))
        (refl, ap (λ b. b.vma) e ∙ h.1, λ j. ap (λ b. b.entries j) e)
