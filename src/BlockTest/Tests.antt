-- ===== src/BlockTest/Tests.antt =====
-- examples/blktest.c on concrete devices.
use bius.Base.{
  ℕ, zero, suc, ◌+◌, ◌-◌, ◌<◌, ◌≤◌, ◌≡◌, true, some, List, [], ◌∷◌, ltb, if◌then◌else◌, length,
  arith, refl, sym, ap, ◌∙◌, some-injective, bytes_at, length-bytes_at, le→ltb, lt→ltb,
}
use mathlib.Core.Logic.{◌↔◌}
use bius.BlockTest.{pattern, FileApi, fill_pattern, do_test_simple, do_test_hard, simple_test_seed}
use bius.BlockTest.Hard.{Passes, do_test_hard-Passes}
use bius.BlockTest.Simple.{do_test_simple_lem}
use bius.BlockTest.Faithful.{Stores, do_test_hard-Stores}

record Drive : Type 0 where
  cells : ℕ → ℕ
  place : ℕ

abbrev nth : List ℕ → ℕ → ℕ
nth [] i = 0
nth (x ∷ xs) zero = x
nth (x ∷ xs) (suc i) = nth xs i

abbrev written : Drive → List ℕ → ℕ → ℕ
written d bs a = if ltb a d.place then d.cells a else nth bs (a - d.place)

read_some : (c : ℕ → ℕ) (p n : ℕ) (bs : List ℕ) → some (bytes_at c p n) ≡ some bs → length bs ≤ n
read_some c p n bs e = omega (arith, sym (ap length (some-injective _ _ e)) ∙ length-bytes_at c p n)

abbrev disk_io : FileApi Drive
disk_io = record {
  write = λ d bs. (some (length bs), record { cells = written d bs; place = d.place + length bs });
  seek = λ d. (true, record { cells = d.cells; place = 0 });
  read =
      λ d n. (some (bytes_at d.cells d.place n), record { cells = d.cells; place = d.place + n });
  read_le = λ d n bs e. read_some d.cells d.place n bs e;
}

bytes_at-nth :
    (bs : List ℕ) (f : ℕ → ℕ) (p : ℕ)
    → ((i : ℕ) → i < length bs → f (p + i) ≡ nth bs i)
    → bytes_at f p (length bs) ≡ bs
bytes_at-nth [] f p h = refl
bytes_at-nth (x ∷ xs) f p h =
    ap (λ y. y ∷ bytes_at f (p + 1) (length xs)) (ap f (omega arith) ∙ h 0 (omega arith))
    ∙ ap (λ l. x ∷ l)
        (bytes_at-nth xs f (p + 1)
          (λ i l. ap f {y = p + suc i} (omega arith) ∙ h (suc i) (omega arith)))

written_inside : (d : Drive) (bs : List ℕ) (i : ℕ) → written d bs (d.place + i) ≡ nth bs i
written_inside d bs i =
    ap (λ b. if b then d.cells (d.place + i) else nth bs (d.place + i - d.place))
      (le→ltb (d.place + i) d.place (omega arith))
    ∙ ap (nth bs) (omega arith)

drive-Stores : Stores disk_io
drive-Stores = record {
  size = 100;
  contents = λ d. d.cells;
  place = λ d. d.place;
  write_count = λ d bs h. refl;
  write_place = λ d bs h. refl;
  write_bytes = λ d bs h. bytes_at-nth bs (written d bs) d.place (λ i l. written_inside d bs i);
  write_before =
      λ d bs a h l. ap (λ b. if b then d.cells a else nth bs (a - d.place)) (lt→ltb a d.place l);
  seek_done = λ d. refl;
  seek_place = λ d. refl;
  seek_contents = λ d. refl;
  read_bytes = λ d n h. refl;
  read_place = λ d n h. refl;
  read_contents = λ d n. refl;
}

abbrev empty : Drive
empty = record { cells = λ a. 0; place = 0 }

abbrev four : List ℕ
four = 1 ∷ 2 ∷ 3 ∷ 4 ∷ []

do_test_hard-Stores_example : do_test_hard disk_io 4 3 four empty ≡ 0
unfolding drive-Stores
do_test_hard-Stores_example =
    do_test_hard-Stores disk_io drive-Stores 4 3 four empty (omega arith) refl refl (omega arith)

do_test_hard-Passes_example : (do_test_hard disk_io 4 2 four empty ≡ 0) ↔ Passes disk_io 4 2 empty
do_test_hard-Passes_example = do_test_hard-Passes disk_io 4 2 four empty (omega arith) refl

hard_runs : do_test_hard disk_io 4 3 four empty ≡ 0
unfolding do_test_hard pattern
hard_runs = refl

-- A device whose reads return one byte.
abbrev short_io : FileApi Drive
short_io = record {
  write = disk_io.write;
  seek = disk_io.seek;
  read = λ d n. (if ltb 0 n then some (d.cells d.place ∷ []) else some [], d);
  read_le = λ d n bs e. short_le d.cells d.place n bs e;
}
  where
    short_le :
        (c : ℕ → ℕ) (p n : ℕ) (bs : List ℕ)
        → (if ltb 0 n then some (c p ∷ []) else some []) ≡ some bs
        → length bs ≤ n
    short_le c p zero bs e = omega (arith, sym (ap length (some-injective _ _ e)))
    short_le c p (suc n) bs e =
        omega
          (arith, sym (ap length (some-injective _ _ (rw (lt→ltb 0 (suc n) (omega arith)) at e))))

do_test_simple_example :
    (do_test_simple short_io 4 empty ≡ 0) ↔ (0 ∷ [] ≡ fill_pattern simple_test_seed 0 1)
unfolding fill_pattern pattern
do_test_simple_example =
    do_test_simple_lem short_io 4 empty 4 (0 ∷ []) refl (omega arith) refl refl (omega arith)

simple_runs : do_test_simple short_io 4 empty ≡ 0
unfolding do_test_simple pattern
simple_runs = refl
