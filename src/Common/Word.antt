-- ===== src/Common/Word.antt =====
-- Go's int64, as its two's complement word: a number below 2 ^ 64. A word that is not negative is
-- the number that it stands for.
use Prim.Native.Nat.{ℕ, ◌+◌, ◌-◌, ◌*◌, ◌/◌, ◌%◌, ◌≤◌, ◌<◌}
use mathlib.Core.Path.{◌≡◌}
use mathlib.Core.Bool.{Bool, true}
use native.Mathlib.Omega.{arith}
use control_center.Common.Tests.{if◌then◌else◌, ltb, leb, leb→le, le→leb}

-- 2 ^ 63 and 2 ^ 64.
abbrev pub half64 : ℕ
half64 = 9223372036854775808

abbrev pub mod64 : ℕ
mod64 = 18446744073709551616

abbrev pub neg64 : ℕ → Bool
neg64 a = leb half64 a

abbrev pub add64 : ℕ → ℕ → ℕ
add64 a b = (a + b) % mod64

-- `a <= b` on signed words.
abbrev pub le64 : ℕ → ℕ → Bool
le64 a b = leb ((a + half64) % mod64) ((b + half64) % mod64)

-- `a < b` on signed words.
abbrev pub lt64 : ℕ → ℕ → Bool
lt64 a b = ltb ((a + half64) % mod64) ((b + half64) % mod64)

-- `a * b`, whose low 64 bits do not depend on the signs.
abbrev pub mul64 : ℕ → ℕ → ℕ
mul64 a b = a * b % mod64

-- `a / b` for a positive `b`: the quotient is cut towards zero.
abbrev pub div64 : ℕ → ℕ → ℕ
div64 a b = if neg64 a then (mod64 - (mod64 - a) / b) % mod64 else a / b

-- Where nothing overflows, words compare and add as numbers.
pub le64→le : (a b : ℕ) → a < half64 → b < half64 → le64 a b ≡ true → a ≤ b
le64→le a b ha hb h = omega (arith, leb→le)

pub le→le64 : (a b : ℕ) → a < half64 → b < half64 → a ≤ b → le64 a b ≡ true
le→le64 a b ha hb h = omega (arith, le→leb)
