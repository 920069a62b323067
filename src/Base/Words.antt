-- ===== src/Base/Words.antt =====
-- Unsigned machine arithmetic: `unsigned int` has 32 bits, `size_t` and `__u64` have 64.
use Prim.Native.Nat.{ℕ, ◌+◌, ◌-◌, ◌%◌, ◌^◌, ◌<◌}
use mathlib.Core.Path.{◌≡◌}
use native.Mathlib.Omega.{arith}

abbrev pub u32_mod : ℕ
u32_mod = 2 ^ 32

abbrev pub u64_mod : ℕ
u64_mod = 2 ^ 64

abbrev pub u32 : ℕ → ℕ
u32 n = n % u32_mod

abbrev pub u64 : ℕ → ℕ
u64 n = n % u64_mod

-- `n++` and `n--` on an `unsigned int`.
abbrev pub inc32 : ℕ → ℕ
inc32 n = u32 (n + 1)

abbrev pub dec32 : ℕ → ℕ
dec32 n = u32 (n + u32_mod - 1)

-- `a - b` on a `size_t`.
abbrev pub sub64 : ℕ → ℕ → ℕ
sub64 a b = u64 (a + u64_mod - b)

pub inc32_exact : (n : ℕ) → n + 1 < u32_mod → inc32 n ≡ n + 1
inc32_exact n h = omega arith

pub dec32_exact : (n : ℕ) → 0 < n → n < u32_mod → dec32 n + 1 ≡ n
dec32_exact n p h = omega arith
