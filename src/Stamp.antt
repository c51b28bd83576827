-- ===== src/Stamp.antt =====
-- The time stamps of internal/core/jobs and internal/core/events, which SQL compares as text. A stamp counts
-- nanoseconds from the year 0, below the year 10000, so that the text up to the seconds has a fixed
-- width and sorts as the number of seconds does. A duration is an int64 word.
use control_center.Common.Word.{mod64, neg64}
use control_center.Common.{
  ℕ, zero, suc, not, ◌+◌, ◌-◌, ◌/◌, ◌%◌, Bool, true, false, [], ◌∷◌, ◌++◌, ltb, ◌==◌, if◌then◌else◌,
  Bytes, codes,
}

abbrev pub second : ℕ
second = 1_000_000_000

-- time.Time.Add
unfoldable pub add_duration : ℕ → ℕ → ℕ
add_duration t d = if neg64 d then t - (mod64 - d) else t + d

-- A zero goes only if nothing is left behind it.
unfoldable pub trim_one : ℕ → Bytes → Bytes
trim_one c [] = if c == b'0' then [] else c ∷ []
trim_one c (e ∷ s) = c ∷ e ∷ s

-- `k` decimal digits, the least significant last.
unfoldable pub digits : ℕ → ℕ → Bytes
digits zero n = []
digits (suc k) n = digits k (n / 10) ++ (b'0' + n % 10) ∷ []

unfoldable pub trim_zeros : Bytes → Bytes
trim_zeros [] = []
trim_zeros (c ∷ s) = trim_one c (trim_zeros s)

-- What rfc writes behind the seconds: RFC3339Nano drops the trailing zeros of a fraction, and the
-- whole of it if it is zero.
unfoldable pub fraction_text : ℕ → Bytes
fraction_text nano =
    if nano == 0 then codes "Z" else b'.' ∷ (trim_zeros (digits 9 nano) ++ codes "Z")

-- `<=` and `<` of SQL on text.
unfoldable pub text_le : Bytes → Bytes → Bool
text_le [] t = true
text_le (c ∷ s) [] = false
text_le (c ∷ s) (e ∷ t) = let rest = text_le s t in if c == e then rest else ltb c e

-- rfc(a) <= rfc(b)
unfoldable pub stamp_le : ℕ → ℕ → Bool
stamp_le a b =
    if a / second == b / second
    then text_le (fraction_text (a % second)) (fraction_text (b % second))
    else ltb (a / second) (b / second)

-- rfc(a) < rfc(b)
unfoldable pub stamp_lt : ℕ → ℕ → Bool
stamp_lt a b = not (stamp_le b a)
