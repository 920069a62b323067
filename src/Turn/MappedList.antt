-- ===== src/Turn/MappedList.antt =====
-- library/libbius.c, `handle_blk_command_with_datamap_list`: the list that it reads through the area
-- of the connection, at the address that the header of the command has.
use bius.Base.{
  ℕ, zero, suc, ◌+◌, ◌-◌, ◌*◌, ◌/◌, ◌%◌, ◌<◌, ◌≡◌, ◌==◌, ◌&&◌, ltb, Option, none, some, List, [],
  ◌∷◌, arith, refl, ap, ◌∙◌, if◌then◌else◌, ◌>>=◌, ==-cases, inl, inr,
}
use bius.RequestType.{MapType, list}
use bius.Kernel.DataMapping.{
  Window, Pte, zero_page, data_page, reserved_page, page_size, reserve_list,
}

-- The number at an offset of the page that an entry maps. Only the first two reserved pages hold
-- numbers, each in eight bytes: elsewhere, but for the zero page, `none`.
abbrev pub long_of : Pte → (ℕ → ℕ) → ℕ → Option ℕ
long_of zero_page l o = some 0
long_of (data_page pfn) l o = none
long_of (reserved_page k) l o =
    if ltb k 2 && (o % 8 == 0) then some (l (reserve_list * k + o / 8)) else none

-- The number that the user reads at an address of the area.
abbrev pub user_long : Window → ℕ → Option ℕ
user_long w a =
    long_of (w.ptes ((a - w.vm_start) / page_size)) w.longs ((a - w.vm_start) % page_size)

-- The pairs from an address on, up to the first zero, where `u` reads the memory; `none` where a
-- read fails.
unfoldable pub entries_at : (ℕ → Option ℕ) → ℕ → ℕ → Option (List (ℕ × ℕ))
entries_at u zero a = none
entries_at u (suc fuel) a = u a >>= λ x.
    let rest : Option (List (ℕ × ℕ)) =
      (u (a + 8) >>= λ y. entries_at u fuel (a + 16) >>= λ r. some ((x, y) ∷ r)) in
    if x == 0 then some [] else rest

-- What the library reads at `mapping_data`, which is a list's place only where the mapping is one.
-- The fuel is one more than the entries that a list can have.
abbrev pub list_at : Window → MapType → ℕ → Option (List (ℕ × ℕ))
list_at w list place = entries_at (user_long w) 257 place
list_at w _ place = some []

abbrev pub entry_list : (ℕ → ℕ) → ℕ → ℕ → List (ℕ × ℕ)
entry_list l i zero = []
entry_list l i (suc k) = (l (i * 2), l (i * 2 + 1)) ∷ entry_list l (i + 1) k

module _ (u : ℕ → Option ℕ) (l : ℕ → ℕ) (d : ℕ)
    (reads : (j : ℕ) → j < 512 → u (d + 8 * j) ≡ some (l j)) where
  entries_at-entry_list :
      (fuel i k : ℕ)
      → k < fuel
      → i + k < 256
      → ((j : ℕ) → j < i + k → 0 < l (j * 2))
      → l ((i + k) * 2) ≡ 0
      → entries_at u fuel (d + 16 * i) ≡ some (entry_list l i k)
  unfolding entries_at
  entries_at-entry_list zero i k h few some_at ends = absurd (omega arith)
  entries_at-entry_list (suc fuel) i zero h few some_at ends =
      let first : u (d + 16 * i) ≡ some (l (i * 2)) =
        ap u (omega arith) ∙ reads (i * 2) (omega arith) in
      let last : l (i * 2) ≡ 0 = ap (λ j. l (j * 2)) (omega arith) ∙ ends in rw (first, last) refl
  entries_at-entry_list (suc fuel) i (suc k) h few some_at ends =
      let first : u (d + 16 * i) ≡ some (l (i * 2)) =
        ap u (omega arith) ∙ reads (i * 2) (omega arith) in
      let second : u (d + 16 * i + 8) ≡ some (l (i * 2 + 1)) =
        ap u (omega arith) ∙ reads (i * 2 + 1) (omega arith) in
      let rest : entries_at u fuel (d + 16 * i + 16) ≡ some (entry_list l (i + 1) k) =
        ap (entries_at u fuel) (omega arith)
        ∙ entries_at-entry_list fuel (i + 1) k (omega arith) (omega arith)
            (λ j q. some_at j (omega arith)) (ap (λ j. l (j * 2)) (omega arith) ∙ ends) in
      elim (==-cases (l (i * 2)) 0) [
        | inl (t, e) ↦ absurd (omega (arith, some_at i (omega arith)))
        | inr (t, e) ↦ rw (first, t, second, rest) refl
      ]

-- A page of the area that shows the first reserved page is read as its numbers.
user_long-longs :
    (w : Window) (p j : ℕ)
    → w.ptes p ≡ reserved_page 0
    → j < 512
    → user_long w (w.vm_start + page_size * p + 8 * j) ≡ some (w.longs j)
user_long-longs w p j e h =
    let page : (w.vm_start + page_size * p + 8 * j - w.vm_start) / page_size ≡ p = omega arith in
    let at : (w.vm_start + page_size * p + 8 * j - w.vm_start) % page_size ≡ 8 * j = omega arith in
    let whole : 8 * j % 8 ≡ 0 = omega arith in
    let place : reserve_list * 0 + 8 * j / 8 ≡ j = omega arith in
    rw (page, e, at, whole, place) refl

pub list_at-entry_list :
    (w : Window) (place n : ℕ)
    → place ≡ w.vm_start + page_size * ((place - w.vm_start) / page_size)
    → w.ptes ((place - w.vm_start) / page_size) ≡ reserved_page 0
    → n < 256
    → ((j : ℕ) → j < n → 0 < w.longs (j * 2))
    → w.longs (n * 2) ≡ 0
    → list_at w list place ≡ some (entry_list w.longs 0 n)
list_at-entry_list w place n at e few some_at ends =
    ap (entries_at (user_long w) 257) (omega arith)
    ∙ entries_at-entry_list (user_long w) w.longs place
        (λ j h.
          ap (λ a. user_long w (a + 8 * j)) at
          ∙ user_long-longs w ((place - w.vm_start) / page_size) j e h)
        257 0 n (omega arith) (omega arith) (λ j q. some_at j (omega arith))
        (ap (λ j. w.longs (j * 2)) (omega arith) ∙ ends)
