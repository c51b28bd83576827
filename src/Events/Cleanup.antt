-- ===== src/Events/Cleanup.antt =====
-- internal/core/events/retention.go.
use control_center.Common.Word.{neg64, le64}
use control_center.Common.{
  ℕ, suc, Bool, true, false, not, ◌&&◌, ◌||◌, List, [], ◌∷◌, if◌then◌else◌, ltb, Bytes, length,
  filter,
}
use control_center.Stamp.{stamp_lt}
use control_center.Events.Log.{Event, Cursor, Db, max_id}

-- The position and the name of the lowest cursor; -1 and no name before the first.
abbrev pub Pin : Type 0
Pin = ℕ × Bytes

abbrev pub minus_one : ℕ
minus_one = 18446744073709551615

-- pin < 0 || last < pin
unfoldable pub is_lower : ℕ → ℕ → Bool
is_lower pin last = neg64 pin || not (le64 pin last)

-- The loop over the cursors.
unfoldable pub lowest : List (Bytes × Cursor) → Pin → Pin
lowest [] (pin, by) = (pin, by)
lowest ((name, c) ∷ cs) (pin, by) =
    lowest cs (if is_lower pin c.last_event_id then (c.last_event_id, name) else (pin, by))

abbrev pub no_pin : ℕ
no_pin = 4611686018427387904

-- With no pin, age is the only boundary.
unfoldable pub pin_of : List (Bytes × Cursor) → Pin
pin_of cs =
    let (pin, by) = lowest cs (minus_one, []) in if neg64 pin then (no_pin, []) else (pin, by)

-- created_at < cutoff AND id <= pin
unfoldable pub is_dropped : ℕ → ℕ → Event → Bool
is_dropped cutoff pin e = stamp_lt e.created_at cutoff && le64 e.id pin

abbrev pub is_pressed : ℕ → ℕ → Event → Bool
is_pressed cutoff pin e = stamp_lt e.created_at cutoff && not (le64 e.id pin)

pub record Report : Type 0 where
  pub deleted : ℕ
  pub boundary : ℕ
  pub pinned_by : Bytes
  pub pinned_rows : ℕ

abbrev pub larger : ℕ → ℕ → ℕ
larger a b = if ltb a b then b else a

abbrev pub has_name : Bytes → Bool
has_name [] = false
has_name (c ∷ s) = true

-- RunRetention, with the cutoff that it computes. `deletedThrough+1` is an int64 sum in the source: it is
-- taken for the id of a deleted event below 2 ^ 63 - 1, where AUTOINCREMENT ends.
unfoldable pub run_retention : ℕ → Db → Report × Db
run_retention cutoff d =
    let (pin, by) = pin_of d.cursors in
    let gone = filter (is_dropped cutoff pin) d.events in
    let rows = if has_name by then length (filter (is_pressed cutoff pin) d.events) else 0 in
    let boundary = larger d.oldest_retained (suc (max_id gone)) in
    (
      record {
        deleted = length gone;
        boundary = boundary;
        pinned_by = if ltb 0 rows then by else [];
        pinned_rows = rows;
      },
      record d {
        events = filter (λ e. not (is_dropped cutoff pin e)) d.events;
        oldest_retained = boundary;
      },
    )
