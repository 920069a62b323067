-- ===== src/Library/Segments.antt =====
-- library/libbius.c: the loop over a data-mapped request covers the request without a gap.
use bius.Base.{
  [], ◌∷◌, none, some, false, Bool, List, ℕ, ◌+◌, Option, if◌then◌else◌, ◌<◌, ◌==◌, u64_mod, ◌++◌,
  ◌≡◌, ◌>>=◌, ap, refl, arith, u64, Bool-cases, inl, inr, ◌∙◌, sym,
}
use bius.Library.{Operations, Outcome}
use bius.Library.Dispatch.{list_loop, list_step}
use bius.RequestType.{BiusReq}
use bius.Status.{blk_sts_ok}

abbrev pub total : List (ℕ × ℕ) → ℕ
total [] = 0
total ((address, size) ∷ rest) = size + total rest

abbrev pub is_first : Bool → List (ℕ × ℕ) → Bool
is_first first [] = first
is_first first (_ ∷ _) = false

is_first-false : (xs : List (ℕ × ℕ)) → is_first false xs ≡ false
is_first-false [] = refl
is_first-false (x ∷ xs) = refl

module _ {S : Type 0} (ops : Operations S) (opcode : BiusReq) where
  -- What is left of the loop after a prefix of the list: it goes on at the offset that the prefix
  -- ends at, if each segment of the prefix succeeded, and stops with the first error otherwise.
  abbrev pub continue_at : Bool → ℕ → List (ℕ × ℕ) → Outcome S → Option (Outcome S)
  continue_at first offset ys r =
      if r.status == blk_sts_ok
      then list_loop ops opcode first offset ys r.out_user_data r.state
      else some r

  same_end :
      {first second : Bool} {m n : ℕ} (ys : List (ℕ × ℕ))
      → first ≡ second
      → m ≡ n
      → continue_at first m ys ≡ continue_at second n ys
  same_end ys e h = rw (e, h) refl

  stopped :
      (first : Bool) (n : ℕ) (r : Outcome S) (ys : List (ℕ × ℕ))
      → (r.status == blk_sts_ok) ≡ false
      → some r ≡ continue_at first n ys r
  stopped first n r ys t =
      sym
        (ap (λ b. if b then list_loop ops opcode first n ys r.out_user_data r.state else some r) t)

  -- Where the offsets fit into 64 bits, the loop over a list in two parts does the first part, and
  -- then, if no segment of it failed, the second from the offset at which the first ended, without
  -- a place for a position unless the first part is empty; an error of the first part is the result.
  pub list_loop-append :
      (first : Bool) (offset : ℕ) (xs ys : List (ℕ × ℕ)) (out : ℕ) (s : S)
      → offset + total xs < u64_mod
      → list_loop ops opcode first offset (xs ++ ys) out s ≡ (
          list_loop ops opcode first offset xs out s
          >>= continue_at (is_first first xs) (offset + total xs) ys)
  unfolding list_loop
  list_loop-append first offset [] ys out s h =
      ap (λ n. list_loop ops opcode first n ys out s) (omega arith)
  list_loop-append first offset ((address, size) ∷ xs) ys out s h =
      step (list_step ops opcode first address offset size out s) λ o t.
        list_loop-append false (u64 (offset + size)) xs ys o t (omega arith)
        ∙ ap (λ f. list_loop ops opcode false (u64 (offset + size)) xs o t >>= f)
            (same_end ys (is_first-false xs) (omega arith))
    where
      step :
          (m : Option (Outcome S))
          → ((o : ℕ) (t : S)
              → list_loop ops opcode false (u64 (offset + size)) (xs ++ ys) o t ≡ (
                  list_loop ops opcode false (u64 (offset + size)) xs o t
                  >>= continue_at false (offset + (size + total xs)) ys))
          → (m >>= λ r.
              if r.status == blk_sts_ok
              then list_loop ops opcode false
                  (u64 (offset + size))
                  (xs ++ ys)
                  r.out_user_data
                  r.state
              else some r)
            ≡ ((m >>= λ r.
                  if r.status == blk_sts_ok
                  then list_loop ops opcode false (u64 (offset + size)) xs r.out_user_data r.state
                  else some r)
                >>= continue_at false (offset + (size + total xs)) ys)
      step none next = refl
      step (some r) next = elim (Bool-cases (r.status == blk_sts_ok)) [
        | inl t ↦ rw t (next r.out_user_data r.state)
        | inr t ↦ rw t (stopped _ _ r ys t)
      ]
