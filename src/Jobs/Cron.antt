-- ===== src/Jobs/Cron.antt =====
-- internal/core/jobs/cron.go: five-field cron expressions. An expression is taken as strings.Fields
-- splits it. Errors are told apart only as far as the parser goes on: it refuses, or it panics.
use control_center.Common.Word.{half64}
use control_center.Common.{
  ℕ, zero, suc, ◌+◌, ◌-◌, ◌*◌, Bool, true, false, not, ◌&&◌, ◌||◌, Option, none, some, List, [],
  ◌∷◌, if◌then◌else◌, ◌==◌, ltb, leb, Bytes, codes, bytes_eq,
}
use control_center.Jobs.Bits.{has_bit, set_bit, clear_bit}

pub data Parsed {ℓ} (A : Type ℓ) : Type ℓ where
  ok : A → Parsed A
  refused : Parsed A
  panicked : Parsed A

infixl 5 ◌>>=◌
abbrev pub ◌>>=◌ {ℓ κ} : {A : Type ℓ} {B : Type κ} → Parsed A → (A → Parsed B) → Parsed B
ok a >>= f = f a
refused >>= f = refused
panicked >>= f = panicked

unfoldable pub is_digit : ℕ → Bool
is_digit c = leb b'0' c && leb c b'9'

unfoldable pub decimal : ℕ → Bytes → Option ℕ
decimal acc [] = some acc
decimal acc (c ∷ s) =
    let rest = decimal (10 * acc + (c - b'0')) s in if is_digit c then rest else none

abbrev in_int : Option ℕ → Option ℕ
in_int none = none
in_int (some n) = if ltb n half64 then some n else none

abbrev only_zero : Option ℕ → Option ℕ
only_zero none = none
only_zero (some n) = if n == 0 then some n else none

unfoldable pub unsigned : Bytes → Option ℕ
unsigned [] = none
unsigned (c ∷ s) = in_int (decimal 0 (c ∷ s))

-- strconv.Atoi. A negative number is `none`: wherever the parser reads one, it refuses it.
unfoldable pub atoi : Bytes → Option ℕ
atoi [] = none
atoi (c ∷ s) =
    if c == b'+' then unsigned s else if c == b'-' then only_zero (unsigned s) else unsigned (c ∷ s)

abbrev pub before : Option (Bytes × Bytes) → ℕ → Option (Bytes × Bytes)
before none c = none
before (some (a, b)) c = some (c ∷ a, b)

-- strings.Cut at the first `sep`, and strings.IndexByte with the two slices.
unfoldable pub cut : ℕ → Bytes → Option (Bytes × Bytes)
cut sep [] = none
cut sep (c ∷ s) = let rest = cut sep s in if c == sep then some ([], s) else before rest c

-- strings.Split at `sep`.
abbrev pub push : ℕ → List Bytes → List Bytes
push c [] = (c ∷ []) ∷ []
push c (x ∷ xs) = (c ∷ x) ∷ xs

unfoldable pub split_at : ℕ → Bytes → List Bytes
split_at sep [] = [] ∷ []
split_at sep (c ∷ s) = let rest = split_at sep s in if c == sep then [] ∷ rest else push c rest

-- The loop `for n := start; n <= end; n += step`. A sum past int64 wraps below zero, passes the test,
-- and is then shifted by: Go panics. Each round adds at least one, so `end + 1 - start` rounds do.
unfoldable pub set_range : (rounds n end step bits : ℕ) → Parsed ℕ
set_range zero n end step bits = ok bits
set_range (suc k) n end step bits =
    let next = set_range k (n + step) end step (set_bit bits n) in
    if leb n end then (if ltb (n + step) half64 then next else panicked) else ok bits

unfoldable pub check_range : (low high start end step bits : ℕ) → Parsed ℕ
check_range low high start end step bits =
    if ltb start low || ltb high end || ltb end start
    then refused
    else set_range (end + 1 - start) start end step bits

abbrev pub or_refuse : Option ℕ → Parsed ℕ
or_refuse none = refused
or_refuse (some n) = ok n

unfoldable pub parse_step : Option (Bytes × Bytes) → Parsed ℕ
parse_step none = ok 1
parse_step (some (a, b)) = do n ← or_refuse (atoi b); if n == 0 then refused else ok n

abbrev pub range_part : Bytes → Option (Bytes × Bytes) → Bytes
range_part s none = s
range_part s (some (a, b)) = a

unfoldable pub parse_bounds : (low high step bits : ℕ) → Bytes → Option (Bytes × Bytes) → Parsed ℕ
parse_bounds low high step bits part (some (a, b)) = do
  start ← or_refuse (atoi a)
  end ← or_refuse (atoi b)
  check_range low high start end step bits
parse_bounds low high step bits part none = do
  n ← or_refuse (atoi part)
  check_range low high n n step bits

unfoldable pub parse_part : (low high bits : ℕ) → Bytes → Parsed ℕ
parse_part low high bits s = do
  step ← parse_step (cut b'/' s)
  let part = range_part s (cut b'/' s)
  if bytes_eq part (codes "*")
      then check_range low high low high step bits
      else parse_bounds low high step bits part (cut b'-' part)

unfoldable pub parse_parts : (low high bits : ℕ) → List Bytes → Parsed ℕ
parse_parts low high bits [] = ok bits
parse_parts low high bits (s ∷ ss) = do b ← parse_part low high bits s; parse_parts low high b ss

unfoldable pub parse_field : Bytes → (low high : ℕ) → Parsed ℕ
parse_field s low high = parse_parts low high 0 (split_at b',' s)

-- cronSched; each field is its bits.
pub record CronSched : Type 0 where
  pub minute : ℕ
  pub hour : ℕ
  pub dom : ℕ
  pub month : ℕ
  pub dow : ℕ
  pub dom_star : Bool
  pub dow_star : Bool

unfoldable pub sunday : ℕ → ℕ
sunday dow = if has_bit dow 7 then clear_bit (set_bit dow 0) 7 else dow

unfoldable pub parse_cron : List Bytes → Parsed CronSched
parse_cron (a ∷ b ∷ c ∷ d ∷ e ∷ []) = do
  minute ← parse_field a 0 59
  hour ← parse_field b 0 23
  dom ← parse_field c 1 31
  month ← parse_field d 1 12
  dow ← parse_field e 0 7
  ok (record {
    minute = minute;
    hour = hour;
    dom = dom;
    month = month;
    dow = sunday dow;
    dom_star = bytes_eq c (codes "*");
    dow_star = bytes_eq e (codes "*");
  })
parse_cron _ = refused

-- The wall clock fields that `matches` reads; Sunday is 0.
pub record Slot : Type 0 where
  pub minute : ℕ
  pub hour : ℕ
  pub day : ℕ
  pub month : ℕ
  pub weekday : ℕ

unfoldable pub matches_day : CronSched → Slot → Bool
matches_day c t =
    if c.dom_star && c.dow_star
    then true
    else if c.dom_star
    then has_bit c.dow t.weekday
    else if c.dow_star
    then has_bit c.dom t.day
    else has_bit c.dom t.day || has_bit c.dow t.weekday

unfoldable pub cron_matches : CronSched → Slot → Bool
cron_matches c t =
    if not (has_bit c.minute t.minute)
      || not (has_bit c.hour t.hour)
      || not (has_bit c.month t.month)
    then false
    else matches_day c t
