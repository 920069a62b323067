-- ===== src/Base/Total.antt =====
-- Total correctness of fallible code: it returns, and what it returns satisfies the postcondition.
use mathlib.Core.Path.{◌≡◌, refl, sym, subst}
use mathlib.Core.Option.{Option, none, some}
use bius.Base.Tests.{◌>>=◌}

abbrev pub Ensures {ℓ} : {A : Type ℓ} → (A → Type 0) → Option A → Type 0
Ensures P none = ⊥
Ensures P (some a) = P a

pub Ensures-bind {ℓ κ} :
    {A : Type ℓ} {B : Type κ} (P : B → Type 0) (m : Option A) (f : A → Option B)
    → Ensures (λ a. Ensures P (f a)) m
    → Ensures P (m >>= f)
Ensures-bind P none f h = absurd h
Ensures-bind P (some a) f h = h

module _ {ℓ} {A : Type ℓ} where
  pub Ensures-mono :
      (P Q : A → Type 0) (m : Option A) → ((a : A) → P a → Q a) → Ensures P m → Ensures Q m
  Ensures-mono P Q none f h = absurd h
  Ensures-mono P Q (some a) f h = f a h

  pub Ensures-some : (P : A → Type 0) (m : Option A) (a : A) → m ≡ some a → P a → Ensures P m
  Ensures-some P m a e h = subst (Ensures P) (sym e) h

  pub Ensures_result : (P : A → Type 0) (m : Option A) (a : A) → Ensures P m → m ≡ some a → P a
  Ensures_result P m a h e = subst (Ensures P) e h

  pub Ensures-returns : (P : A → Type 0) (m : Option A) → Ensures P m → (a : A) × (m ≡ some a) × P a
  Ensures-returns P none h = absurd h
  Ensures-returns P (some a) h = (a, refl, h)

-- Partial correctness: what the code returns, if it does, satisfies the postcondition.
abbrev pub Allows {ℓ} : {A : Type ℓ} → (A → Type 0) → Option A → Type 0
Allows P none = Unit {0}
Allows P (some a) = P a

pub Allows-bind {ℓ κ} :
    {A : Type ℓ} {B : Type κ} (P : B → Type 0) (m : Option A) (f : A → Option B)
    → ((a : A) → m ≡ some a → Allows P (f a))
    → Allows P (m >>= f)
Allows-bind P none f h = tt
Allows-bind P (some a) f h = h a refl

module _ {ℓ} {A : Type ℓ} where
  pub Allows_result : (P : A → Type 0) (m : Option A) (a : A) → Allows P m → m ≡ some a → P a
  Allows_result P m a h e = subst (Allows P) e h

  pub Allows-and :
      (P Q : A → Type 0) (m : Option A) → Allows P m → Allows Q m → Allows (λ a. P a × Q a) m
  Allows-and P Q none h k = tt
  Allows-and P Q (some a) h k = (h, k)

  pub Allows-mono :
      (P Q : A → Type 0) (m : Option A) → ((a : A) → P a → Q a) → Allows P m → Allows Q m
  Allows-mono P Q none f h = tt
  Allows-mono P Q (some a) f h = f a h

  -- Partial correctness with a proof that the code returns is total correctness.
  pub Ensures-both :
      (P Q : A → Type 0) (m : Option A) → Ensures P m → Allows Q m → Ensures (λ a. P a × Q a) m
  Ensures-both P Q none h k = absurd h
  Ensures-both P Q (some a) h k = (h, k)

  pub Ensures-and :
      (P Q : A → Type 0) (m : Option A) → Ensures P m → Ensures Q m → Ensures (λ a. P a × Q a) m
  Ensures-and P Q none h k = absurd h
  Ensures-and P Q (some a) h k = (h, k)
