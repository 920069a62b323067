-- ===== src/Kernel/DataMapping/Views.antt =====
-- kernel/data_mapping.c: the bytes that a mapping list names.
use bius.Base.{
  bytes_at, bytes_at-congr, bytes_at-add, ℕ, zero, suc, ◌+◌, ◌*◌, ◌<◌, ◌≡◌, List, [], ◌∷◌, ◌++◌,
  arith, refl, sym, ap, ◌∙◌, append_assoc,
}
use bius.Kernel.DataMapping.{BioVec}

-- The bytes of the first `n` entries of a list of addresses and sizes, which the user sees as `u`.
abbrev pub view : (ℕ → ℕ) → (ℕ → ℕ) → ℕ → List ℕ
view u l zero = []
view u l (suc n) = view u l n ++ bytes_at u (l (n * 2)) (l (n * 2 + 1))

pub view-congr :
    (u v l k : ℕ → ℕ) (n : ℕ)
    → ((j : ℕ) → j < n * 2 → k j ≡ l j)
    → ((i j : ℕ) → i < n → j < l (i * 2 + 1) → v (l (i * 2) + j) ≡ u (l (i * 2) + j))
    → view v k n ≡ view u l n
view-congr u v l k zero e h = refl
view-congr u v l k (suc n) e h =
    ap (λ s. s ++ bytes_at v (k (n * 2)) (k (n * 2 + 1)))
      (view-congr u v l k n (λ j lt. e j (omega arith)) (λ i j lt. h i j (omega arith)))
    ∙ ap (λ s. view u l n ++ s)
        (ap (λ a. bytes_at v a (k (n * 2 + 1))) (e (n * 2) (omega arith))
          ∙ ap (bytes_at v (l (n * 2))) (e (n * 2 + 1) (omega arith))
          ∙ bytes_at-congr v u (l (n * 2)) (l (n * 2)) (l (n * 2 + 1))
              (λ j lt. h n j (omega arith) lt))

-- The last entry is longer by the bytes behind it.
pub view_longer :
    (u l k : ℕ → ℕ) (n s : ℕ)
    → ((j : ℕ) → j < n * 2 + 1 → k j ≡ l j)
    → k (n * 2 + 1) ≡ l (n * 2 + 1) + s
    → view u k (suc n) ≡ view u l (suc n) ++ bytes_at u (l (n * 2) + l (n * 2 + 1)) s
view_longer u l k n s e h =
    ap (λ t. t ++ bytes_at u (k (n * 2)) (k (n * 2 + 1)))
      (view-congr u u l k n (λ j lt. e j (omega arith)) (λ i j a b. refl))
    ∙ ap (λ t. view u l n ++ t)
        (ap (λ a. bytes_at u a (k (n * 2 + 1))) (e (n * 2) (omega arith))
          ∙ ap (bytes_at u (l (n * 2))) h
          ∙ bytes_at-add u (l (n * 2)) (l (n * 2 + 1)) s)
    ∙ sym (append_assoc (view u l n) _ _)

-- The bytes of a segment, and of all segments in order.
abbrev pub segment_bytes : (ℕ → ℕ) → (ℕ → ℕ) → BioVec → List ℕ
segment_bytes page_address memory v =
    bytes_at memory (page_address v.bv_page + v.bv_offset) v.bv_len

abbrev pub bytes_of : (ℕ → ℕ) → (ℕ → ℕ) → List BioVec → List ℕ
bytes_of page_address memory [] = []
bytes_of page_address memory (v ∷ vs) =
    segment_bytes page_address memory v ++ bytes_of page_address memory vs
