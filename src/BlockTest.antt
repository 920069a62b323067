-- ===== src/BlockTest.antt =====
-- examples/blktest.c: the program that writes patterns to a block device and reads them back. The
-- calls of the system on the device are the record `FileApi`. A `char` is its value modulo 256; the
-- products of ints of `pattern` wrap around.
pub mod Hard
pub mod Simple
pub mod Faithful
mod Tests
use bius.Base.{
  ℕ, zero, suc, ◌+◌, ◌*◌, ◌%◌, ◌≤◌, ◌≡◌, ◌==◌, Bool, true, false, ◌&&◌, Option, none, some, List,
  [], ◌∷◌, ◌++◌, ltb, if◌then◌else◌, length, drop, ◌>>=◌,
}

-- `write` and `read` return the number of bytes, which for `read` is that of the bytes read, or
-- none for an error; `seek` is `lseek(fd, 0, SEEK_SET)`, and false for an error.
pub record FileApi (F : Type 0) : Type 0 where
  pub write : F → List ℕ → Option ℕ × F
  pub seek : F → Bool × F
  pub read : F → ℕ → Option (List ℕ) × F
  pub read_le : (f : F) (n : ℕ) (bs : List ℕ) → (read f n).0 ≡ some bs → length bs ≤ n

abbrev pub simple_test_seed : ℕ
simple_test_seed = 541615336

unfoldable pub pattern : ℕ → ℕ → ℕ
pattern seed index = (index + seed * index) % 256

-- The bytes of the buffer that the loops over it set and check, from index `j` on.
unfoldable pub fill_pattern : ℕ → ℕ → ℕ → List ℕ
fill_pattern seed j zero = []
fill_pattern seed j (suc n) = pattern seed j ∷ fill_pattern seed (j + 1) n

unfoldable pub verify : ℕ → ℕ → List ℕ → Bool
verify seed j [] = true
verify seed j (b ∷ buffer) = (b == pattern seed j) && verify seed (j + 1) buffer

-- The buffer after `read` put bytes at its start.
abbrev pub read_into : List ℕ → List ℕ → List ℕ
read_into buffer bs = bs ++ drop (length bs) buffer

-- A result above 0.
abbrev pub is_positive : Option ℕ → Bool
is_positive none = false
is_positive (some n) = ltb 0 n

abbrev pub size_of : Option (List ℕ) → Option ℕ
size_of none = none
size_of (some bs) = some (length bs)

-- The bytes that came in, none for an error.
abbrev pub bytes_in : Option (List ℕ) → List ℕ
bytes_in none = []
bytes_in (some bs) = bs

-- A result that is neither an error nor 0 nor incomplete.
abbrev pub complete : ℕ → Option ℕ → Bool
complete size none = false
complete size (some n) = if n == 0 then false else (if ltb n size then false else true)

abbrev pub status_of : {F : Type 0} → Option F → ℕ
status_of none = 1
status_of (some f) = 0

module _ {F : Type 0} (io : FileApi F) (buffer_size : ℕ) where
  -- From `read` on.
  unfoldable pub check_simple : List ℕ → F → ℕ
  unfolding verify
  check_simple buffer f =
      let r : Option (List ℕ) × F = io.read f buffer_size in
      if is_positive (size_of r.0)
      then (if verify simple_test_seed 0 (read_into buffer (bytes_in r.0)) then 0 else 1)
      else 1

  unfoldable pub do_test_simple : F → ℕ
  unfolding fill_pattern check_simple
  do_test_simple f =
      let buffer : List ℕ = fill_pattern simple_test_seed 0 buffer_size in
      let w : Option ℕ × F = io.write f buffer in
      let s : Bool × F = io.seek w.1 in
      if is_positive w.0 then (if s.0 then check_simple buffer s.1 else 1) else 1

  -- The two loops of the hard test, from round `i` on; none is `return 1`.
  unfoldable pub write_rounds : ℕ → ℕ → List ℕ → F → Option (List ℕ × F)
  unfolding fill_pattern
  write_rounds zero i buffer f = some (buffer, f)
  write_rounds (suc n) i buffer f =
      let filled : List ℕ = fill_pattern i 0 buffer_size in
      let w : Option ℕ × F = io.write f filled in
      let next : Option (List ℕ × F) = write_rounds n (i + 1) filled w.1 in
      if complete buffer_size w.0 then next else none

  unfoldable pub read_rounds : ℕ → ℕ → List ℕ → F → Option F
  unfolding verify
  read_rounds zero i buffer f = some f
  read_rounds (suc n) i buffer f =
      let r : Option (List ℕ) × F = io.read f buffer_size in
      let now : List ℕ = read_into buffer (bytes_in r.0) in
      let next : Option F = read_rounds n (i + 1) now r.1 in
      if complete buffer_size (size_of r.0) then (if verify i 0 now then next else none) else none

  unfoldable pub do_test_hard : ℕ → List ℕ → F → ℕ
  unfolding write_rounds read_rounds
  do_test_hard iterations buffer f = status_of (
      write_rounds iterations 0 buffer f >>= λ w.
      if (io.seek w.1).0 then read_rounds iterations 0 w.0 (io.seek w.1).1 else none)

-- buffer_size and hard_test_iteration.
abbrev pub default_buffer_size : ℕ
default_buffer_size = 131072

abbrev pub hard_test_iteration : ℕ
hard_test_iteration = 8192

-- `main` on `argc` arguments: `is_hard` says that `argv[2]` is "--hard"; `opened` and `allocated`
-- are the results of `open` and `aligned_alloc`.
unfoldable pub main : {F : Type 0} → FileApi F → ℕ → Bool → Option F → Option (List ℕ) → ℕ
main io argc is_hard none allocated = 1
main io argc is_hard (some f) none = 1
main io argc is_hard (some f) (some buffer) =
    if ltb argc 2
    then 1
    else (if ltb 2 argc && is_hard
        then do_test_hard io default_buffer_size hard_test_iteration buffer f
        else do_test_simple io default_buffer_size f)
