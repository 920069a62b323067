-- ===== src/Base/Bytes.antt =====
-- The bytes of a memory, as a list.
use Prim.Native.Nat.{ℕ, zero, suc, ◌+◌, ◌<◌}
use mathlib.Core.Path.{◌≡◌, refl, ap, ◌∙◌}
use mathlib.Core.List.{List, [], ◌∷◌, ◌++◌}
use native.Mathlib.Omega.{arith}
use bius.Base.Lists.{length}

-- The `n` bytes from `a` on.
abbrev pub bytes_at : (ℕ → ℕ) → ℕ → ℕ → List ℕ
bytes_at f a zero = []
bytes_at f a (suc n) = f a ∷ bytes_at f (a + 1) n

pub length-bytes_at : (f : ℕ → ℕ) (a n : ℕ) → length (bytes_at f a n) ≡ n
length-bytes_at f a zero = refl
length-bytes_at f a (suc n) = ap suc (length-bytes_at f (a + 1) n)

pub bytes_at-congr :
    (f g : ℕ → ℕ) (a b n : ℕ)
    → ((i : ℕ) → i < n → f (a + i) ≡ g (b + i))
    → bytes_at f a n ≡ bytes_at g b n
bytes_at-congr f g a b zero h = refl
bytes_at-congr f g a b (suc n) h =
    ap (λ x. x ∷ bytes_at f (a + 1) n) (ap f (omega arith) ∙ h 0 (omega arith) ∙ ap g (omega arith))
    ∙ ap (λ l. g b ∷ l)
        (bytes_at-congr f g (a + 1) (b + 1) n
          (λ i lt. ap f (omega arith) ∙ h (i + 1) (omega arith) ∙ ap g (omega arith)))

pub bytes_at-add :
    (f : ℕ → ℕ) (a n k : ℕ) → bytes_at f a (n + k) ≡ bytes_at f a n ++ bytes_at f (a + n) k
bytes_at-add f a zero k = ap (bytes_at f a) (omega arith) ∙ ap (λ b. bytes_at f b k) (omega arith)
bytes_at-add f a (suc n) k =
    ap (bytes_at f a) {y = suc (n + k)} (omega arith)
    ∙ ap (λ l. f a ∷ l)
        (bytes_at-add f (a + 1) n k
          ∙ ap (λ b. bytes_at f (a + 1) n ++ bytes_at f b k) (omega arith))
