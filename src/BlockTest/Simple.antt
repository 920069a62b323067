-- ===== src/BlockTest/Simple.antt =====
-- examples/blktest.c, `do_test_simple`: a short read is same_verdict as far as it goes.
use bius.Base.{
  ℕ, zero, suc, ◌+◌, ◌-◌, ◌<◌, ◌≤◌, ◌≡◌, Bool, true, ◌&&◌, some, List, [], ◌∷◌, ◌++◌, if◌then◌else◌,
  length, drop, arith, refl, ap, ◌∙◌, Bool-cases, inl, inr, ◌==◌, lt→ltb,
}
use mathlib.Core.Logic.{◌↔◌}
use bius.BlockTest.{
  FileApi, pattern, fill_pattern, verify, read_into, check_simple, do_test_simple, simple_test_seed,
}
use bius.BlockTest.Hard.{verify-fill_pattern, fill_of_verify}

drop-fill_pattern :
    (seed j k n : ℕ) → k ≤ n → drop k (fill_pattern seed j n) ≡ fill_pattern seed (j + k) (n - k)
unfolding fill_pattern
drop-fill_pattern seed j zero n h =
    ap (fill_pattern seed j) (omega arith) ∙ ap (λ i. fill_pattern seed i (n - 0)) (omega arith)
drop-fill_pattern seed j (suc k) zero h = absurd (omega arith)
drop-fill_pattern seed j (suc k) (suc n) h =
    drop-fill_pattern seed (j + 1) k n (omega arith)
    ∙ ap (fill_pattern seed (j + 1 + k)) (omega arith)
    ∙ ap (λ i. fill_pattern seed i (suc n - suc k)) (omega arith)

verify-append :
    (seed j : ℕ) (xs ys : List ℕ)
    → verify seed (j + length xs) ys ≡ true
    → verify seed j (xs ++ ys) ≡ verify seed j xs
unfolding verify
verify-append seed j [] ys h = ap (λ i. verify seed i ys) (omega arith) ∙ h
verify-append seed j (x ∷ xs) ys h =
    ap (λ b. (x == pattern seed j) && b)
      (verify-append seed (j + 1) xs ys (ap (λ i. verify seed i ys) (omega arith) ∙ h))

abbrev verdict : Bool → ℕ
verdict b = if b then 0 else 1

module _ {F : Type 0} (io : FileApi F) (buffer_size : ℕ) where
  -- Where the write returned a number above 0, the seek succeeded and the read returned some bytes,
  -- however few, the simple test returns 0 exactly when these bytes are the start of the pattern: the
  -- rest of the buffer still holds what was written.
  pub do_test_simple_lem :
      (f : F) (written : ℕ) (bs : List ℕ)
      → (io.write f (fill_pattern simple_test_seed 0 buffer_size)).0 ≡ some written
      → 0 < written
      → (io.seek (io.write f (fill_pattern simple_test_seed 0 buffer_size)).1).0 ≡ true
      → (io.read
          (io.seek (io.write f (fill_pattern simple_test_seed 0 buffer_size)).1).1
          buffer_size).0
        ≡ some bs
      → 0 < length bs
      → (do_test_simple io buffer_size f ≡ 0) ↔ (bs ≡ fill_pattern simple_test_seed 0 (length bs))
  unfolding do_test_simple check_simple
  do_test_simple_lem f written bs w wp s r rp =
      rw (w, lt→ltb 0 written wp, s, r, lt→ltb 0 (length bs) rp, same_verdict)
        (λ h. of_zero h, λ h. to_zero h)
    where
      le : length bs ≤ buffer_size
      le = io.read_le _ buffer_size bs r

      rest :
          verify simple_test_seed
            (0 + length bs)
            (drop (length bs) (fill_pattern simple_test_seed 0 buffer_size))
          ≡ true
      rest =
          ap (verify simple_test_seed (0 + length bs))
            (drop-fill_pattern simple_test_seed 0 (length bs) buffer_size le)
          ∙ verify-fill_pattern simple_test_seed (0 + length bs) (buffer_size - length bs)

      same_verdict :
          verify simple_test_seed 0 (read_into (fill_pattern simple_test_seed 0 buffer_size) bs)
          ≡ verify simple_test_seed 0 bs
      same_verdict = verify-append simple_test_seed 0 bs _ rest

      of_zero :
          verdict (verify simple_test_seed 0 bs) ≡ 0
          → bs ≡ fill_pattern simple_test_seed 0 (length bs)
      of_zero h = elim (Bool-cases (verify simple_test_seed 0 bs)) [
        | inl t ↦ fill_of_verify simple_test_seed 0 bs t
        | inr t ↦ absurd (cc (rw t at h))
      ]

      to_zero :
          bs ≡ fill_pattern simple_test_seed 0 (length bs)
          → verdict (verify simple_test_seed 0 bs) ≡ 0
      to_zero h =
          rw (ap (verify simple_test_seed 0) h ∙ verify-fill_pattern simple_test_seed 0 (length bs))
            refl
