-- ===== src/BlockTest/Hard.antt =====
-- examples/blktest.c, `do_test_hard`: when the test passes.
use bius.Base.{
  ℕ, zero, suc, ◌+◌, ◌<◌, ◌≤◌, ◌≡◌, true, Option, none, some, List, [], ◌∷◌, ◌++◌, if◌then◌else◌,
  length, drop, arith, refl, sym, ap, ◌∙◌, append-nil, Bool-cases, inl, inr, ==-cases, ==_refl,
  Option-cases,
}
use mathlib.Core.Logic.{◌↔◌}
use bius.BlockTest.{
  FileApi, pattern, fill_pattern, verify, read_into, bytes_in, size_of, complete, write_rounds,
  read_rounds, do_test_hard, status_of,
}

pub length-fill_pattern : (seed j n : ℕ) → length (fill_pattern seed j n) ≡ n
unfolding fill_pattern
length-fill_pattern seed j zero = refl
length-fill_pattern seed j (suc n) = ap suc (length-fill_pattern seed (j + 1) n)

pub verify-fill_pattern : (seed j n : ℕ) → verify seed j (fill_pattern seed j n) ≡ true
unfolding verify fill_pattern
verify-fill_pattern seed j zero = refl
verify-fill_pattern seed j (suc n) =
    rw (==_refl (pattern seed j)) (verify-fill_pattern seed (j + 1) n)

pub fill_of_verify :
    (seed j : ℕ) (bs : List ℕ) → verify seed j bs ≡ true → bs ≡ fill_pattern seed j (length bs)
unfolding verify fill_pattern
fill_of_verify seed j [] h = refl
fill_of_verify seed j (b ∷ bs) h = elim (==-cases b (pattern seed j)) [
  | inl (t, e) ↦
      ap (λ x. x ∷ bs) e ∙ ap (λ l. pattern seed j ∷ l) (fill_of_verify seed (j + 1) bs (rw t at h))
  | inr (t, e) ↦ absurd (cc (rw t at h))
]

drop_all : {A : Type 0} (n : ℕ) (xs : List A) → length xs ≤ n → drop n xs ≡ []
drop_all zero [] h = refl
drop_all zero (x ∷ xs) h = absurd (omega arith)
drop_all (suc n) [] h = refl
drop_all (suc n) (x ∷ xs) h = drop_all n xs (omega arith)

pub read_into_whole : (buffer bs : List ℕ) → length buffer ≤ length bs → read_into buffer bs ≡ bs
read_into_whole buffer bs h = ap (λ l. bs ++ l) (drop_all (length bs) buffer h) ∙ append-nil bs

module _ {F : Type 0} (io : FileApi F) (buffer_size : ℕ) where
  -- Each write of the rounds from `i` on took the whole buffer, and the device after them.
  abbrev pub WritesAll : ℕ → ℕ → F → Type 0
  WritesAll zero i f = Unit {0}
  WritesAll (suc n) i f =
      (complete buffer_size (io.write f (fill_pattern i 0 buffer_size)).0 ≡ true)
      × WritesAll n (i + 1) (io.write f (fill_pattern i 0 buffer_size)).1

  abbrev pub after_writes : ℕ → ℕ → F → F
  after_writes zero i f = f
  after_writes (suc n) i f = after_writes n (i + 1) (io.write f (fill_pattern i 0 buffer_size)).1

  -- Each read of the rounds from `i` on returns the whole pattern of its round.
  abbrev pub ReadsBack : ℕ → ℕ → F → Type 0
  ReadsBack zero i f = Unit {0}
  ReadsBack (suc n) i f =
      ((io.read f buffer_size).0 ≡ some (fill_pattern i 0 buffer_size))
      × ReadsBack n (i + 1) (io.read f buffer_size).1

  abbrev Wrote : ℕ → ℕ → F → Option (List ℕ × F) → Type 0
  Wrote n i f o = (b : List ℕ) × (length b ≡ buffer_size) × (o ≡ some (b, after_writes n i f))

  write_rounds-Wrote :
      (n i : ℕ) (buffer : List ℕ) (f : F)
      → length buffer ≡ buffer_size
      → WritesAll n i f
      → Wrote n i f (write_rounds io buffer_size n i buffer f)
  unfolding write_rounds
  write_rounds-Wrote zero i buffer f e h = (buffer, e, refl)
  write_rounds-Wrote (suc n) i buffer f e (h, rest) = rw h (
      write_rounds-Wrote n (i + 1) (fill_pattern i 0 buffer_size)
        (io.write f (fill_pattern i 0 buffer_size)).1 (length-fill_pattern i 0 buffer_size) rest)

  WritesAll-of-write_rounds :
      (n i : ℕ) (buffer : List ℕ) (f : F) (w : List ℕ × F)
      → write_rounds io buffer_size n i buffer f ≡ some w
      → WritesAll n i f
  unfolding write_rounds
  WritesAll-of-write_rounds zero i buffer f w e = tt
  WritesAll-of-write_rounds (suc n) i buffer f w e =
      elim (Bool-cases (complete buffer_size (io.write f (fill_pattern i 0 buffer_size)).0)) [
        | inl t ↦ (
          t,
          WritesAll-of-write_rounds n (i + 1) (fill_pattern i 0 buffer_size)
              (io.write f (fill_pattern i 0 buffer_size)).1 w (rw t at e),
        )
        | inr t ↦ absurd (cc (rw t at e))
      ]

  complete_size :
      (bs : List ℕ)
      → length bs ≤ buffer_size
      → complete buffer_size (some (length bs)) ≡ true
      → length bs ≡ buffer_size
  complete_size bs le c = ground arith

  pub complete_whole : 0 < buffer_size → complete buffer_size (some buffer_size) ≡ true
  complete_whole h = ground arith

  -- One read that passes its checks, and one that returns its pattern.
  pattern_of_checks :
      (i : ℕ) (buffer : List ℕ) (r : Option (List ℕ))
      → length buffer ≡ buffer_size
      → ((bs : List ℕ) → r ≡ some bs → length bs ≤ buffer_size)
      → complete buffer_size (size_of r) ≡ true
      → verify i 0 (read_into buffer (bytes_in r)) ≡ true
      → r ≡ some (fill_pattern i 0 buffer_size)
  pattern_of_checks i buffer none e le c v = absurd (cc)
  pattern_of_checks i buffer (some bs) e le c v =
      let size : length bs ≡ buffer_size = complete_size bs (le bs refl) c in
      ap some (
        fill_of_verify i 0 bs (ap (verify i 0) (sym (read_into_whole buffer bs (omega arith))) ∙ v)
        ∙ ap (fill_pattern i 0) size)

  checks_of_pattern :
      (i : ℕ) (buffer : List ℕ) (r : Option (List ℕ))
      → 0 < buffer_size
      → length buffer ≡ buffer_size
      → r ≡ some (fill_pattern i 0 buffer_size)
      → (complete buffer_size (size_of r) ≡ true)
        × (verify i 0 (read_into buffer (bytes_in r)) ≡ true)
        × (length (read_into buffer (bytes_in r)) ≡ buffer_size)
  checks_of_pattern i buffer r pos e p =
      let whole : read_into buffer (bytes_in r) ≡ fill_pattern i 0 buffer_size =
        ap (λ q. read_into buffer (bytes_in q)) p
        ∙ read_into_whole buffer (fill_pattern i 0 buffer_size)
            (omega (arith, length-fill_pattern i 0 buffer_size)) in
      (
        ap (λ q. complete buffer_size (size_of q)) p
            ∙ ap (λ k. complete buffer_size (some k)) (length-fill_pattern i 0 buffer_size)
            ∙ complete_whole pos,
        ap (verify i 0) whole ∙ verify-fill_pattern i 0 buffer_size,
        ap length whole ∙ length-fill_pattern i 0 buffer_size,
      )

  ReadsBack-of-read_rounds :
      (n i : ℕ) (buffer : List ℕ) (f g : F)
      → length buffer ≡ buffer_size
      → 0 < buffer_size
      → read_rounds io buffer_size n i buffer f ≡ some g
      → ReadsBack n i f
  unfolding read_rounds
  ReadsBack-of-read_rounds zero i buffer f g e pos h = tt
  ReadsBack-of-read_rounds (suc n) i buffer f g e pos h =
      elim (Bool-cases (complete buffer_size (size_of (io.read f buffer_size).0))) [
        | inr t ↦ absurd (cc (rw t at h))
        | inl t ↦
            elim (Bool-cases (verify i 0 (read_into buffer (bytes_in (io.read f buffer_size).0)))) [
              | inr s ↦ absurd (cc (rw (t, s) at h))
              | inl s ↦
                  let p : (io.read f buffer_size).0 ≡ some (fill_pattern i 0 buffer_size) =
                    pattern_of_checks i buffer (io.read f buffer_size).0 e
                      (λ bs q. io.read_le f buffer_size bs q) t s in
                  (
                    p,
                    ReadsBack-of-read_rounds n (i + 1)
                        (read_into buffer (bytes_in (io.read f buffer_size).0))
                        (io.read f buffer_size).1 g
                        (checks_of_pattern i buffer (io.read f buffer_size).0 pos e p).2 pos
                        (rw (t, s) at h),
                  )
            ]
      ]

  read_rounds-ReadsBack :
      (n i : ℕ) (buffer : List ℕ) (f : F)
      → length buffer ≡ buffer_size
      → 0 < buffer_size
      → ReadsBack n i f
      → status_of (read_rounds io buffer_size n i buffer f) ≡ 0
  unfolding read_rounds
  read_rounds-ReadsBack zero i buffer f e pos h = refl
  read_rounds-ReadsBack (suc n) i buffer f e pos (p, h) =
      let c : (complete buffer_size (size_of (io.read f buffer_size).0) ≡ true)
          × (verify i 0 (read_into buffer (bytes_in (io.read f buffer_size).0)) ≡ true)
          × (length (read_into buffer (bytes_in (io.read f buffer_size).0)) ≡ buffer_size) =
        checks_of_pattern i buffer (io.read f buffer_size).0 pos e p in
      rw (c.0, c.1)
        (read_rounds-ReadsBack n (i + 1) (read_into buffer (bytes_in (io.read f buffer_size).0))
          (io.read f buffer_size).1 c.2 pos h)

  -- What the hard test checks, without its buffer.
  abbrev pub Passes : ℕ → F → Type 0
  Passes n f =
      WritesAll n 0 f
      × ((io.seek (after_writes n 0 f)).0 ≡ true)
      × ReadsBack n 0 (io.seek (after_writes n 0 f)).1

  -- The hard test on a buffer of its size returns 0 exactly when each write took the whole buffer, the
  -- seek succeeded, and after it the read of each round returned the whole pattern of its round.
  pub do_test_hard-Passes :
      (n : ℕ) (buffer : List ℕ) (f : F)
      → 0 < buffer_size
      → length buffer ≡ buffer_size
      → (do_test_hard io buffer_size n buffer f ≡ 0) ↔ Passes n f
  unfolding do_test_hard
  do_test_hard-Passes n buffer f pos e = (
    λ h. elim (Option-cases (write_rounds io buffer_size n 0 buffer f)) [
      | inl q ↦ absurd (cc (rw q at h))
      | inr (w, q) ↦ passed h (WritesAll-of-write_rounds n 0 buffer f w q)
    ],
    λ (h : Passes n f). passing h (write_rounds-Wrote n 0 buffer f e h.0),
  )
    where
      read_back :
          (b : List ℕ)
          → length b ≡ buffer_size
          → status_of (
              if (io.seek (after_writes n 0 f)).0
              then read_rounds io buffer_size n 0 b (io.seek (after_writes n 0 f)).1
              else none)
            ≡ 0
          → ((io.seek (after_writes n 0 f)).0 ≡ true)
            × ReadsBack n 0 (io.seek (after_writes n 0 f)).1
      read_back b eb h = elim (Bool-cases (io.seek (after_writes n 0 f)).0) [
        | inr t ↦ absurd (cc (rw t at h))
        | inl t ↦
            elim (Option-cases
              (read_rounds io buffer_size n 0 b (io.seek (after_writes n 0 f)).1)) [
                | inl q ↦ absurd (cc (rw (t, q) at h))
                | inr (g, q) ↦
                    (t, ReadsBack-of-read_rounds n 0 b (io.seek (after_writes n 0 f)).1 g eb pos q)
              ]
      ]

      with_writes :
          WritesAll n 0 f
          → ((io.seek (after_writes n 0 f)).0 ≡ true)
            × ReadsBack n 0 (io.seek (after_writes n 0 f)).1
          → Passes n f
      with_writes w (s, r) = (w, s, r)

      passed : do_test_hard io buffer_size n buffer f ≡ 0 → WritesAll n 0 f → Passes n f
      passed h w =
          let r : Wrote n 0 f (write_rounds io buffer_size n 0 buffer f) =
            write_rounds-Wrote n 0 buffer f e w in
          with_writes w (read_back r.0 r.1 (rw r.2 at h))

      passing :
          Passes n f
          → Wrote n 0 f (write_rounds io buffer_size n 0 buffer f)
          → do_test_hard io buffer_size n buffer f ≡ 0
      passing h (b, eb, q) =
          rw (q, h.1) (read_rounds-ReadsBack n 0 b (io.seek (after_writes n 0 f)).1 eb pos h.2)
