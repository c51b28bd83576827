-- ===== src/Events/Durable/Subscribing.antt =====
-- internal/core/events/durable.go and events.go: names, retry policies and subscribeDurable.
use control_center.Common.Word.{neg64, le64}
use control_center.Common.{
  strip_prefix, ℕ, ◌-◌, Bool, false, not, ◌&&◌, ◌||◌, Option, none, some, List, [], ◌∷◌,
  if◌then◌else◌, ◌==◌, Bytes, codes, bytes_eq, bytes_key, lookup, upsert,
}
use control_center.Backoff.{delay_rounds}
use control_center.Events.Pattern.{Error, valid_segment, all_valid, split, compile_pattern}
use control_center.Events.Log.{
  Cursor, active, Db, invalid, pattern_changed, bad_name, bad_retry, already_running,
  negative_event, unknown_mode, Reply, ok, refused, tail_tx,
}

pub data Start : Type 0 where
  from_beginning from_now unknown_start : Start
  after_event : ℕ → Start

-- RetryPolicy: int64 words.
pub record RetryPolicy : Type 0 where
  pub max_attempts : ℕ
  pub initial : ℕ
  pub maximum : ℕ

abbrev pub default_retry : RetryPolicy
default_retry = record { max_attempts = 10; initial = 1000000000; maximum = 300000000000 }

unfoldable pub valid_retry : RetryPolicy → Bool
valid_retry p =
    not (le64 p.max_attempts 0)
    && not (le64 p.initial 0)
    && not (le64 p.maximum 0)
    && le64 p.initial p.maximum

abbrev pub or_default : RetryPolicy → RetryPolicy
or_default p = if p.max_attempts == 0 && p.initial == 0 && p.maximum == 0 then default_retry else p

-- RetryPolicy.delay
unfoldable pub retry_delay : RetryPolicy → ℕ → ℕ
retry_delay p attempt = delay_rounds (attempt - 1) p.maximum p.initial

-- strings.Cut(s, ":")
abbrev pub push_left : ℕ → Option (Bytes × Bytes) → Option (Bytes × Bytes)
push_left c none = none
push_left c (some (a, b)) = some (c ∷ a, b)

unfoldable pub cut_colon : Bytes → Option (Bytes × Bytes)
cut_colon [] = none
cut_colon (c ∷ s) = let rest = cut_colon s in if c == b':' then some ([], s) else push_left c rest

-- The test for a further colon in the local name is implied by valid_segment.
unfoldable pub valid_plugin_name : Bytes → Bool
valid_plugin_name name = elim (strip_prefix (codes "plugin:") name) [
  | none ↦ false
  | some rest ↦ elim (cut_colon rest) [
    | none ↦ false
    | some (id, local) ↦ valid_segment id && valid_segment local
  ]
]

unfoldable pub valid_durable_name : Bytes → Bool
valid_durable_name name = valid_segment name || all_valid (split name) || valid_plugin_name name

abbrev pub new_cursor : Bytes → ℕ → Cursor
new_cursor pattern start = record {
  pattern = pattern;
  last_event_id = start;
  state = active;
  failed_event_id = 0;
  attempts = 0;
  retry_at = none;
  last_error = [];
  lease_owner = [];
  lease_until = none;
}

-- The position that a start names.
unfoldable pub start_position : Start → Db → Reply ℕ
start_position from_beginning d = ok 0
start_position from_now d = ok (tail_tx d)
start_position (after_event id) d = if neg64 id then refused negative_event else ok id
start_position unknown_start d = refused unknown_mode

unfoldable pub ensure_cursor : Bytes → Bytes → Start → Db → Reply Db
ensure_cursor name pattern start d = elim (lookup name d.cursors) [
  | some c ↦ if bytes_eq c.pattern pattern then ok d else refused pattern_changed
  | none ↦ elim (start_position start d) [
    | refused e ↦ refused e
    | ok at ↦ ok (record d { cursors = upsert name (new_cursor pattern at) d.cursors })
  ]
]

-- What a dispatcher keeps of its configuration.
pub record Sub : Type 0 where
  pub name : Bytes
  pub segs : List Bytes
  pub retry : RetryPolicy

-- subscribeDurable: `running` says that this process already runs the name. A refusal after the
-- cursor's transaction leaves the cursor.
unfoldable pub open_subscription :
    Bytes → List Bytes → RetryPolicy → (running : Bool) → Db → Reply Sub × Db
open_subscription name segs retry running d =
    if running
    then (refused already_running, d)
    else (ok (record { name = name; segs = segs; retry = retry }), d)

unfoldable pub subscribe_durable :
    (name pattern : Bytes) → Start → RetryPolicy → (running : Bool) → Db → Reply Sub × Db
subscribe_durable name pattern start retry running d =
    if bytes_eq name [] || not (valid_durable_name name)
    then (refused bad_name, d)
    else elim (compile_pattern pattern) [
      | none ↦ (refused (invalid Error.invalid_pattern), d)
      | some segs ↦
          if valid_retry (or_default retry)
          then elim (ensure_cursor name pattern start d) [
            | refused e ↦ (refused e, d)
            | ok e ↦ open_subscription name segs (or_default retry) running e
          ]
          else (refused bad_retry, d)
    ]
