-- ===== src/BlockTest/Faithful.antt =====
-- examples/blktest.c, `do_test_hard` on a device that keeps what is written to it.
use bius.Base.{
  ℕ, zero, suc, ◌+◌, ◌*◌, ◌<◌, ◌≤◌, ◌≡◌, true, some, List, length, arith, refl, sym, ap, ◌∙◌, subst,
  bytes_at, bytes_at-congr,
}
use native.Mathlib.Nat.{suc-mul}
use bius.BlockTest.{FileApi, fill_pattern, complete, do_test_hard}
use bius.BlockTest.Hard.{
  length-fill_pattern, WritesAll, after_writes, ReadsBack, do_test_hard-Passes, complete_whole,
}

-- A device of `size` bytes: a write takes all bytes at the place of the file, and moves it behind
-- them; a read returns the bytes there, and moves it too; a seek moves it to the start.
pub record Stores {F : Type 0} (io : FileApi F) : Type 0 where
  pub size : ℕ
  pub contents : F → ℕ → ℕ
  pub place : F → ℕ
  pub write_count :
      (f : F) (bs : List ℕ) → place f + length bs ≤ size → (io.write f bs).0 ≡ some (length bs)
  pub write_place :
      (f : F) (bs : List ℕ)
      → place f + length bs ≤ size
      → place (io.write f bs).1 ≡ place f + length bs
  pub write_bytes :
      (f : F) (bs : List ℕ)
      → place f + length bs ≤ size
      → bytes_at (contents (io.write f bs).1) (place f) (length bs) ≡ bs
  pub write_before :
      (f : F) (bs : List ℕ) (a : ℕ)
      → place f + length bs ≤ size
      → a < place f
      → contents (io.write f bs).1 a ≡ contents f a
  pub seek_done : (f : F) → (io.seek f).0 ≡ true
  pub seek_place : (f : F) → place (io.seek f).1 ≡ 0
  pub seek_contents : (f : F) → contents (io.seek f).1 ≡ contents f
  pub read_bytes :
      (f : F) (n : ℕ)
      → place f + n ≤ size
      → (io.read f n).0 ≡ some (bytes_at (contents f) (place f) n)
  pub read_place : (f : F) (n : ℕ) → place f + n ≤ size → place (io.read f n).1 ≡ place f + n
  pub read_contents : (f : F) (n : ℕ) → contents (io.read f n).1 ≡ contents f

module _ {F : Type 0} (io : FileApi F) (d : Stores io) (buffer_size : ℕ) where
  -- The patterns of the rounds from `i` on stand one behind the other, from `p` on.
  abbrev Holds : ℕ → ℕ → ℕ → (ℕ → ℕ) → Type 0
  Holds zero i p c = Unit {0}
  Holds (suc n) i p c =
      (bytes_at c p buffer_size ≡ fill_pattern i 0 buffer_size)
      × Holds n (i + 1) (p + buffer_size) c

  after_one : F → ℕ → F
  after_one f i = (io.write f (fill_pattern i 0 buffer_size)).1

  writes_before :
      (n i a : ℕ) (f : F)
      → d.place f + n * buffer_size ≤ d.size
      → a < d.place f
      → d.contents (after_writes io buffer_size n i f) a ≡ d.contents f a
  writes_before zero i a f h l = refl
  writes_before (suc n) i a f h l =
      let fits : d.place f + length (fill_pattern i 0 buffer_size) ≤ d.size =
        omega (arith, suc-mul n buffer_size, length-fill_pattern i 0 buffer_size) in
      let moved : d.place (io.write f (fill_pattern i 0 buffer_size)).1 ≡ d.place f + buffer_size =
        d.write_place f _ fits ∙ ap (λ k. d.place f + k) (length-fill_pattern i 0 buffer_size) in
      writes_before n (i + 1) a (io.write f (fill_pattern i 0 buffer_size)).1
        (omega (arith, suc-mul n buffer_size, moved)) (omega (arith, moved))
      ∙ d.write_before f _ a fits l

  writes_hold :
      (n i : ℕ) (f : F)
      → 0 < buffer_size
      → d.place f + n * buffer_size ≤ d.size
      → WritesAll io buffer_size n i f
        × Holds n i (d.place f) (d.contents (after_writes io buffer_size n i f))
  writes_hold zero i f pos h = (tt, tt)
  writes_hold (suc n) i f pos h =
      let fits : d.place f + length (fill_pattern i 0 buffer_size) ≤ d.size =
        omega (arith, suc-mul n buffer_size, length-fill_pattern i 0 buffer_size) in
      let moved : d.place (io.write f (fill_pattern i 0 buffer_size)).1 ≡ d.place f + buffer_size =
        d.write_place f _ fits ∙ ap (λ k. d.place f + k) (length-fill_pattern i 0 buffer_size) in
      let later : d.place (io.write f (fill_pattern i 0 buffer_size)).1 + n * buffer_size ≤ d.size =
        omega (arith, suc-mul n buffer_size, moved) in
      let rest : WritesAll io buffer_size n (i + 1) (io.write f (fill_pattern i 0 buffer_size)).1
          × Holds n (i + 1) (d.place (io.write f (fill_pattern i 0 buffer_size)).1)
              (d.contents (after_writes io buffer_size (suc n) i f)) =
        writes_hold n (i + 1) (io.write f (fill_pattern i 0 buffer_size)).1 pos later in
      let first : bytes_at (d.contents (after_writes io buffer_size (suc n) i f)) (d.place f)
            buffer_size
          ≡ fill_pattern i 0 buffer_size =
        bytes_at-congr _ (d.contents (io.write f (fill_pattern i 0 buffer_size)).1) (d.place f)
          (d.place f) buffer_size
          (λ j l.
            writes_before n (i + 1) (d.place f + j) (io.write f (fill_pattern i 0 buffer_size)).1
              later (omega (arith, moved)))
        ∙ ap (bytes_at (d.contents (io.write f (fill_pattern i 0 buffer_size)).1) (d.place f))
            (sym (length-fill_pattern i 0 buffer_size))
        ∙ d.write_bytes f _ fits in
      (
        (
          ap (complete buffer_size)
                (d.write_count f _ fits ∙ ap some (length-fill_pattern i 0 buffer_size))
              ∙ complete_whole io buffer_size pos,
          rest.0,
        ),
        (
          first,
          subst (λ p. Holds n (i + 1) p (d.contents (after_writes io buffer_size (suc n) i f)))
              moved rest.1,
        ),
      )

  reads_back :
      (n i : ℕ) (f : F)
      → d.place f + n * buffer_size ≤ d.size
      → Holds n i (d.place f) (d.contents f)
      → ReadsBack io buffer_size n i f
  reads_back zero i f h w = tt
  reads_back (suc n) i f h (b, w) =
      let fits : d.place f + buffer_size ≤ d.size = omega (arith, suc-mul n buffer_size) in
      let moved : d.place (io.read f buffer_size).1 ≡ d.place f + buffer_size =
        d.read_place f buffer_size fits in
      (
        d.read_bytes f buffer_size fits ∙ ap some b,
        reads_back n (i + 1) (io.read f buffer_size).1 (omega (arith, suc-mul n buffer_size, moved))
            (subst (λ p. Holds n (i + 1) p (d.contents (io.read f buffer_size).1)) (sym moved)
              (subst (Holds n (i + 1) (d.place f + buffer_size))
                (sym (d.read_contents f buffer_size)) w)),
      )

  -- On a device that keeps what is written and has room for all rounds, the hard test, started at the
  -- beginning of the device with a buffer of its size, returns 0.
  pub do_test_hard-Stores :
      (n : ℕ) (buffer : List ℕ) (f : F)
      → 0 < buffer_size
      → length buffer ≡ buffer_size
      → d.place f ≡ 0
      → n * buffer_size ≤ d.size
      → do_test_hard io buffer_size n buffer f ≡ 0
  do_test_hard-Stores n buffer f pos e start room =
      let w : WritesAll io buffer_size n 0 f
          × Holds n 0 (d.place f) (d.contents (after_writes io buffer_size n 0 f)) =
        writes_hold n 0 f pos (omega arith) in
      let g : F = (io.seek (after_writes io buffer_size n 0 f)).1 in
      (do_test_hard-Passes io buffer_size n buffer f pos e).1 (
        w.0,
        d.seek_done (after_writes io buffer_size n 0 f),
        reads_back n 0 g (omega (arith, d.seek_place (after_writes io buffer_size n 0 f))) (
            subst (λ p. Holds n 0 p (d.contents g))
              (start ∙ sym (d.seek_place (after_writes io buffer_size n 0 f)))
              (subst (Holds n 0 (d.place f))
                (sym (d.seek_contents (after_writes io buffer_size n 0 f))) w.1)),
      )
