-- ===== src/Common/Word.antt =====
-- Go's int64 as its bit pattern, a number below 2 ^ 64; the negative ones are from 2 ^ 63 on.
-- An instant of `time.Time` is the number of nanoseconds since the zero `time.Time`, which is
-- 0001-01-01T00:00:00Z; earlier instants are not modelled.
use Prim.Native.Nat.{ℕ, ◌+◌, ◌-◌, ◌*◌, ◌%◌, ◌≤◌, min}
use mathlib.Core.Path.{◌≡◌}
use mathlib.Core.Bool.{Bool}
use native.Mathlib.Omega.{arith}
use codex_tempo.Common.Tests.{ltb, leb, ◌==◌, if◌then◌else◌}

abbrev pub int64_mod : ℕ
int64_mod = 18446744073709551616

abbrev pub max_int64 : ℕ
max_int64 = 9223372036854775807

abbrev pub add64 : ℕ → ℕ → ℕ
add64 a b = (a + b) % int64_mod

abbrev pub mul64 : ℕ → ℕ → ℕ
mul64 a b = (a * b) % int64_mod

-- The difference of two patterns, which wraps.
abbrev pub sub64 : ℕ → ℕ → ℕ
sub64 a b = (a + (int64_mod - b % int64_mod)) % int64_mod

-- Signed numbers in the order of their shifted patterns.
abbrev pub key64 : ℕ → ℕ
key64 a = (a + 9223372036854775808) % int64_mod

abbrev pub lt64 : ℕ → ℕ → Bool
lt64 a b = ltb (key64 a) (key64 b)

abbrev pub eq64 : ℕ → ℕ → Bool
eq64 a b = key64 a == key64 b

-- `t.Sub(u)`: the difference, at most the largest and at least the smallest Duration.
abbrev pub time_sub : ℕ → ℕ → ℕ
time_sub t u =
    if leb u t then min (t - u) max_int64 else int64_mod - min (u - t) 9223372036854775808

pub time_sub_exact : (t u : ℕ) → u ≤ t → t ≤ u + max_int64 → time_sub t u ≡ t - u
time_sub_exact t u h k = ground arith
