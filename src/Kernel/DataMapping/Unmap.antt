-- ===== src/Kernel/DataMapping/Unmap.antt =====
-- kernel/data_mapping.c: `bius_unmap_data` after `bius_map_data`.
use bius.Base.{
  length, ℕ, zero, suc, ◌+◌, ◌<◌, ◌≤◌, ◌≡◌, ◌⊎◌, Bool, List, arith, refl, ap, ◌∙◌, Ensures,
  Ensures-mono, Ensures-bind, inl, inr, lt→ltb, some, ◌>>=◌, if◌then◌else◌, ltb-cases, ◌/◌,
}
use bius.Kernel.{BlkBody}
use bius.Kernel.CharDev.{is_unmapped}
use bius.RequestType.{MapType, unmapped, simple, list}
use bius.Kernel.DataMapping.{
  Window, Pte, zero_page, BioVec, ptes_per_command, page_size, put, clear_ptes, map_data,
  unmap_data,
}
use bius.Kernel.DataMapping.Grows.{put_other, put_self}
use bius.Kernel.DataMapping.Views.{bytes_of}
use bius.Kernel.DataMapping.Shows.{IsMapping, IsMappable, map_data-IsMapping}

abbrev Cleared : ℕ → ℕ → (ℕ → Pte) → (ℕ → Pte) → Type 0
Cleared n i old new =
    ((j : ℕ) → i ≤ j → j < i + n → new j ≡ zero_page)
    × ((j : ℕ) → (j < i) ⊎ (i + n ≤ j) → new j ≡ old j)

clear_ptes-Cleared :
    (n i : ℕ) (old : ℕ → Pte)
    → i + n ≤ ptes_per_command
    → Ensures (Cleared n i old) (clear_ptes n i old)
unfolding clear_ptes
clear_ptes-Cleared zero i old h = (λ j a b. absurd (omega arith), λ j a. refl)
clear_ptes-Cleared (suc n) i old h = rw (lt→ltb i ptes_per_command (omega arith)) (
    Ensures-mono (Cleared n (i + 1) (put old i zero_page)) _ _
      (λ new c. (λ j a b. inside new c j a b, λ j a. outside new c j a))
      (clear_ptes-Cleared n (i + 1) (put old i zero_page) (omega arith)))
  where
    inside :
        (new : ℕ → Pte)
        → Cleared n (i + 1) (put old i zero_page) new
        → (j : ℕ) → i ≤ j
        → j < i + suc n
        → new j ≡ zero_page
    inside new c j a b = elim (ltb-cases i j) [
      | inl (t, p) ↦ c.0 j (omega arith) (omega arith)
      | inr (t, p) ↦
          let e : j ≡ i = omega arith in
          c.1 j (inl (omega arith)) ∙ ap (put old i zero_page) e ∙ put_self old i zero_page
    ]

    outside :
        (new : ℕ → Pte)
        → Cleared n (i + 1) (put old i zero_page) new
        → (j : ℕ) → (j < i) ⊎ (i + suc n ≤ j)
        → new j ≡ old j
    outside new c j (inl h) =
        c.1 j (inl (omega arith)) ∙ put_other old i zero_page j (λ q. omega arith)
    outside new c j (inr h) =
        c.1 j (inr (omega arith)) ∙ put_other old i zero_page j (λ q. omega arith)

abbrev pub IsClear : {Bio : Type 0} → BlkBody Bio × Window → Type 0
IsClear q = (q.0.map_type ≡ unmapped) × ((i : ℕ) → q.1.ptes i ≡ zero_page)

module _ {Bio : Type 0} (page_address : ℕ → ℕ) (memory : ℕ → ℕ) (is_write : Bool) where
  unmap_data-IsClear :
      (w w' : Window) (r : BlkBody Bio) (bytes : List ℕ) (most : ℕ)
      → ((i : ℕ) → w.ptes i ≡ zero_page)
      → IsMapping page_address memory is_write w bytes most r w'
      → Ensures IsClear (unmap_data r w')
  unfolding unmap_data
  unmap_data-IsClear w w' r bytes most clear m = by_type r.map_type refl
    where
      unmapping : Ensures IsClear (
          clear_ptes (r.mapped_size / page_size) 0 w'.ptes >>= λ table.
          some (record r { map_type = unmapped }, record w' { ptes = table }))
      unmapping = Ensures-bind _ (clear_ptes (r.mapped_size / page_size) 0 w'.ptes) _ (
          Ensures-mono (Cleared (r.mapped_size / page_size) 0 w'.ptes)
            (λ table. (unmapped ≡ unmapped) × ((i : ℕ) → table i ≡ zero_page)) _
            (λ table c. (
              refl,
              λ i. elim (ltb-cases i m.pages) [
                | inl (t, p) ↦ c.0 i (omega arith) (omega (arith, m.size))
                | inr (t, p) ↦ c.1 i (inr (omega (arith, m.size))) ∙ m.behind i p ∙ clear i
              ],
            ))
            (clear_ptes-Cleared (r.mapped_size / page_size) 0 w'.ptes
              (omega (arith, m.size, m.within))))

      by_type :
          (t : MapType)
          → r.map_type ≡ t
          → Ensures IsClear (
              if is_unmapped t
              then some (r, w')
              else (clear_ptes (r.mapped_size / page_size) 0 w'.ptes >>= λ table.
                  some (record r { map_type = unmapped }, record w' { ptes = table })))
      by_type unmapped e = (e, λ i. m.behind i (omega (arith, m.none_left e)) ∙ clear i)
      by_type simple e = unmapping
      by_type list e = unmapping

  -- Where every entry of the area maps the zero page and the segments fit, mapping a request and
  -- unmapping it returns, and leaves the request unmapped and every entry at the zero page.
  pub unmap_data-map_data :
      (segments : List BioVec) (r : BlkBody Bio) (w : Window)
      → r.map_type ≡ unmapped
      → IsMappable page_address segments w
      → ((i : ℕ) → w.ptes i ≡ zero_page)
      → Ensures IsClear
          (map_data page_address memory is_write segments r w >>= λ q. unmap_data q.0 q.1)
  unmap_data-map_data segments r w free f clear =
      Ensures-bind _ (map_data page_address memory is_write segments r w) _ (
        Ensures-mono _ _ _
          (λ (q : BlkBody Bio × Window)
              (m : IsMapping page_address memory is_write w (bytes_of page_address memory segments)
                (length segments) q.0 q.1).
            unmap_data-IsClear w q.1 q.0 (bytes_of page_address memory segments) (length segments)
              clear m)
          (map_data-IsMapping page_address memory is_write segments r w free f))
