-- ===== src/Base/Lists.antt =====
-- Lists measured and indexed by native numbers, under the library's names.
use Prim.Native.Nat.{ℕ, zero, suc, ◌+◌, ◌<◌, ◌≤◌, ◌-◌}
use mathlib.Core.Path.{◌≡◌, refl, ap, subst, sym, ◌∙◌}
use mathlib.Core.Logic.{◌≢◌}
use mathlib.Core.List.{List, [], ◌∷◌, ◌++◌}
use mathlib.Core.Option.{Option, none, some, some-injective}
use native.Mathlib.Omega.{arith}

module _ {ℓ} {A : Type ℓ} where
  abbrev pub length : List A → ℕ
  length [] = 0
  length (x ∷ xs) = suc (length xs)

  abbrev pub get_elem? : List A → ℕ → Option A
  get_elem? [] i = none
  get_elem? (x ∷ xs) zero = some x
  get_elem? (x ∷ xs) (suc i) = get_elem? xs i

  -- A write out of bounds changes nothing; the models read the place first, and fault there.
  abbrev pub set : List A → ℕ → A → List A
  set [] i v = []
  set (x ∷ xs) zero v = v ∷ xs
  set (x ∷ xs) (suc i) v = x ∷ set xs i v

  abbrev pub take : ℕ → List A → List A
  take zero xs = []
  take (suc n) [] = []
  take (suc n) (x ∷ xs) = x ∷ take n xs

  abbrev pub drop : ℕ → List A → List A
  drop zero xs = xs
  drop (suc n) [] = []
  drop (suc n) (x ∷ xs) = drop n xs

  abbrev pub sum_of : (A → ℕ) → List A → ℕ
  sum_of f [] = 0
  sum_of f (x ∷ xs) = f x + sum_of f xs

module _ {ℓ} {A : Type ℓ} where
  pub length-append : (xs ys : List A) → length (xs ++ ys) ≡ length xs + length ys
  length-append [] ys = omega arith
  length-append (x ∷ xs) ys = omega (arith, length-append xs ys)

  pub length-set : (xs : List A) (i : ℕ) (v : A) → length (set xs i v) ≡ length xs
  length-set [] i v = refl
  length-set (x ∷ xs) zero v = refl
  length-set (x ∷ xs) (suc i) v = ap suc (length-set xs i v)

  pub get_elem?-set_self :
      (xs : List A) (i : ℕ) (v : A) → i < length xs → get_elem? (set xs i v) i ≡ some v
  get_elem?-set_self [] i v h = elim h [ ]
  get_elem?-set_self (x ∷ xs) zero v h = refl
  get_elem?-set_self (x ∷ xs) (suc i) v h = get_elem?-set_self xs i v (omega arith)

  pub get_elem?-set_ne :
      (xs : List A) (i j : ℕ) (v : A) → i ≢ j → get_elem? (set xs i v) j ≡ get_elem? xs j
  get_elem?-set_ne [] i j v h = refl
  get_elem?-set_ne (x ∷ xs) zero zero v h = absurd (h refl)
  get_elem?-set_ne (x ∷ xs) zero (suc j) v h = refl
  get_elem?-set_ne (x ∷ xs) (suc i) zero v h = refl
  get_elem?-set_ne (x ∷ xs) (suc i) (suc j) v h = get_elem?-set_ne xs i j v (λ e. h (ap suc e))

  pub lt-length_of_get_elem? :
      (xs : List A) (i : ℕ) (v : A) → get_elem? xs i ≡ some v → i < length xs
  lt-length_of_get_elem? [] i v e = absurd (cc)
  lt-length_of_get_elem? (x ∷ xs) zero v e = omega arith
  lt-length_of_get_elem? (x ∷ xs) (suc i) v e = omega (arith, lt-length_of_get_elem? xs i v e)

  pub get_elem?_total : (xs : List A) (i : ℕ) → i < length xs → (v : A) × (get_elem? xs i ≡ some v)
  get_elem?_total [] i h = elim h [ ]
  get_elem?_total (x ∷ xs) zero h = (x, refl)
  get_elem?_total (x ∷ xs) (suc i) h = get_elem?_total xs i (omega arith)

  -- Replacing one element moves a sum by the difference of the two.
  pub sum_of-set :
      (f : A → ℕ) (xs : List A) (i : ℕ) (v w : A)
      → get_elem? xs i ≡ some v
      → sum_of f (set xs i w) + f v ≡ sum_of f xs + f w
  sum_of-set f [] i v w e = absurd (cc)
  sum_of-set f (x ∷ xs) zero v w e = ground arith
  sum_of-set f (x ∷ xs) (suc i) v w e = omega (arith, sum_of-set f xs i v w e)

  pub sum_of-le-length : (f : A → ℕ) (xs : List A) → ((a : A) → f a ≤ 1) → sum_of f xs ≤ length xs
  sum_of-le-length f [] h = omega arith
  sum_of-le-length f (x ∷ xs) h = omega (arith, h x, sum_of-le-length f xs h)

  -- A property of each element and its place.
  abbrev pub Everywhere : (ℕ → A → Type 0) → List A → Type ℓ
  Everywhere P xs = (i : ℕ) (a : A) → get_elem? xs i ≡ some a → P i a

  pub Everywhere-set :
      (P : ℕ → A → Type 0) (xs : List A) (k : ℕ) (v : A)
      → Everywhere P xs
      → P k v
      → Everywhere P (set xs k v)
  Everywhere-set P [] k v all new i a e = absurd (cc)
  Everywhere-set P (x ∷ xs) zero v all new zero a e = subst (P 0) (some-injective _ _ e) new
  Everywhere-set P (x ∷ xs) zero v all new (suc i) a e = all (suc i) a e
  Everywhere-set P (x ∷ xs) (suc k) v all new zero a e = all zero a e
  Everywhere-set P (x ∷ xs) (suc k) v all new (suc i) a e =
      Everywhere-set (λ j b. P (suc j) b) xs k v (λ j b. all (suc j) b) new i a e

  pub Everywhere-cons :
      (P : ℕ → A → Type 0) (x : A) (xs : List A)
      → P 0 x
      → Everywhere (λ i a. P (suc i) a) xs
      → Everywhere P (x ∷ xs)
  Everywhere-cons P x xs p all zero a e = subst (P 0) (some-injective _ _ e) p
  Everywhere-cons P x xs p all (suc i) a e = all i a e

  -- A place that is overwritten need not have had the property.
  pub Everywhere-set_ne :
      (P : ℕ → A → Type 0) (xs : List A) (k : ℕ) (v : A)
      → Everywhere (λ i a. i ≢ k → P i a) xs
      → P k v
      → Everywhere P (set xs k v)
  Everywhere-set_ne P [] k v all new i a e = absurd (cc)
  Everywhere-set_ne P (x ∷ xs) zero v all new zero a e = subst (P 0) (some-injective _ _ e) new
  Everywhere-set_ne P (x ∷ xs) zero v all new (suc i) a e = all (suc i) a e (λ q. omega arith)
  Everywhere-set_ne P (x ∷ xs) (suc k) v all new zero a e = all zero a e (λ q. omega arith)
  Everywhere-set_ne P (x ∷ xs) (suc k) v all new (suc i) a e =
      Everywhere-set_ne (λ j b. P (suc j) b) xs k v
        (λ j b q ne. all (suc j) b q (λ t. ne (omega arith))) new i a e

module _ {ℓ} {A : Type ℓ} where
  pub take-append-drop : (n : ℕ) (xs : List A) → take n xs ++ drop n xs ≡ xs
  take-append-drop zero xs = refl
  take-append-drop (suc n) [] = refl
  take-append-drop (suc n) (x ∷ xs) = ap (◌∷◌ x) (take-append-drop n xs)

  pub length-take_of_le : (n : ℕ) (xs : List A) → n ≤ length xs → length (take n xs) ≡ n
  length-take_of_le zero xs h = refl
  length-take_of_le (suc n) [] h = absurd (omega arith)
  length-take_of_le (suc n) (x ∷ xs) h = ap suc (length-take_of_le n xs (omega arith))

  pub nil_of_length : (xs : List A) → length xs ≡ 0 → xs ≡ []
  nil_of_length [] h = refl
  nil_of_length (x ∷ xs) h = absurd (omega arith)

module _ {ℓ} {A : Type ℓ} where
  pub drop-append_of_le :
      (n : ℕ) (xs ys : List A) → n ≤ length xs → drop n (xs ++ ys) ≡ drop n xs ++ ys
  drop-append_of_le zero xs ys h = refl
  drop-append_of_le (suc n) [] ys h = absurd (omega arith)
  drop-append_of_le (suc n) (x ∷ xs) ys h = drop-append_of_le n xs ys (omega arith)

  pub take-append_of_le : (n : ℕ) (xs ys : List A) → n ≤ length xs → take n (xs ++ ys) ≡ take n xs
  take-append_of_le zero xs ys h = refl
  take-append_of_le (suc n) [] ys h = absurd (omega arith)
  take-append_of_le (suc n) (x ∷ xs) ys h =
      ap (λ l. x ∷ l) (take-append_of_le n xs ys (omega arith))

  pub length-drop : (n : ℕ) (xs : List A) → length (drop n xs) ≡ length xs - n
  length-drop zero xs = omega arith
  length-drop (suc n) [] = omega arith
  length-drop (suc n) (x ∷ xs) = omega (arith, length-drop n xs)

  drop_nil : (n : ℕ) → drop {A = A} n [] ≡ []
  drop_nil zero = refl
  drop_nil (suc n) = refl

  pub drop-drop : (m n : ℕ) (xs : List A) → drop n (drop m xs) ≡ drop (m + n) xs
  drop-drop zero n xs = ap (λ i. drop i xs) (omega arith)
  drop-drop (suc m) n [] = drop_nil n ∙ sym (drop_nil (suc m + n))
  drop-drop (suc m) n (x ∷ xs) =
      drop-drop m n xs ∙ ap (λ i. drop i (x ∷ xs)) {x = suc (m + n)} (omega arith)
