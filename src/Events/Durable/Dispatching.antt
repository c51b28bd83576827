-- ===== src/Events/Durable/Dispatching.antt =====
-- internal/core/events/durable.go: leases, the dispatch step and recordFailure.
use control_center.Common.Word.{le64}
use control_center.Common.{
  ℕ, suc, Bool, true, false, ◌||◌, Option, none, some, List, [], ◌∷◌, if◌then◌else◌, ltb, Bytes,
  codes, bytes_eq, bytes_key, lookup, update, take,
}
use control_center.Stamp.{add_duration, stamp_lt}
use control_center.Events.Pattern.{matches}
use control_center.Events.Log.{
  Event, Cursor, CursorState, active, paused, Db, unknown_name, Input, marshalled, Reply, ok,
  refused, publish_tx, read_after,
}
use control_center.Events.Durable.Subscribing.{retry_delay, Sub}

-- lease_until IS NULL OR lease_until < now
abbrev pub lapsed : Option ℕ → ℕ → Bool
lapsed none now = true
lapsed (some t) now = stamp_lt t now

unfoldable pub may_lease : ℕ → Bytes → Cursor → Bool
may_lease now owner c =
    bytes_eq c.lease_owner [] || bytes_eq c.lease_owner owner || lapsed c.lease_until now

abbrev pub leased : ℕ → Bytes → ℕ → Cursor → Cursor
leased now owner ttl c = record c { lease_owner = owner; lease_until = some (add_duration now ttl) }

-- acquireLease: whether the lease is held, and the tables.
unfoldable pub acquire_lease : ℕ → Bytes → ℕ → Bytes → Db → Bool × Db
acquire_lease now owner ttl name d = elim (lookup name d.cursors) [
  | none ↦ (false, d)
  | some c ↦
      if may_lease now owner c
      then (true, record d { cursors = update name (leased now owner ttl) d.cursors })
      else (false, d)
]

-- The UPDATE of releaseLease on one row.
abbrev pub released : Bytes → Cursor → Cursor
released owner c =
    if bytes_eq c.lease_owner owner then record c { lease_owner = []; lease_until = none } else c

unfoldable pub release_lease : Bytes → Bytes → Db → Db
release_lease owner name d = record d { cursors = update name (released owner) d.cursors }

-- The loop of step over the batch: the last event of the leading run that does not match.
unfoldable pub skip_to : (Bytes → Bool) → ℕ → List Event → ℕ
skip_to m last [] = last
skip_to m last (e ∷ es) = let rest = skip_to m e.id es in if m e.type then last else rest

-- What a step has decided to do next.
pub data Work : Type 0 where
  wait : Work
  advance_to : ℕ → Work
  deliver : Event → Work

unfoldable pub decide : Sub → List Event → Work
decide s [] = wait
decide s (e ∷ es) =
    if ltb 0 (skip_to (matches s.segs) 0 (e ∷ es))
    then advance_to (skip_to (matches s.segs) 0 (e ∷ es))
    else deliver e

abbrev pub is_waiting : ℕ → Option ℕ → Bool
is_waiting now none = false
is_waiting now (some t) = ltb now t

unfoldable pub decide_cursor : ℕ → Sub → Cursor → CursorState → Db → Work
decide_cursor now s c paused d = wait
decide_cursor now s c active d =
    if is_waiting now c.retry_at then wait else decide s (read_after c.last_event_id 100 d)

-- step, up to the work that it has found.
unfoldable pub poll : ℕ → Bytes → ℕ → Sub → Db → Work × Db
poll now owner ttl s d =
    let (held, d') = acquire_lease now owner ttl s.name d in
    (
      if held
          then elim (lookup s.name d'.cursors) [
            | none ↦ wait
            | some c ↦ decide_cursor now s c c.state d'
          ]
          else wait,
      d',
    )

abbrev pub advanced : ℕ → Cursor → Cursor
advanced id c = record c { last_event_id = id; attempts = 0; retry_at = none; last_error = [] }

unfoldable pub advance_tx : Bytes → ℕ → Db → Db
advance_tx name id d = record d { cursors = update name (advanced id) d.cursors }

abbrev pub poisoned : ℕ → ℕ → Bytes → Cursor → Cursor
poisoned id attempts msg c = record c {
  state = paused;
  failed_event_id = id;
  attempts = attempts;
  retry_at = none;
  last_error = take 500 msg;
}

abbrev pub retried : ℕ → ℕ → Bytes → Cursor → Cursor
retried attempts at msg c = record c {
  attempts = attempts;
  retry_at = some at;
  last_error = take 500 msg;
}

-- The input that recordFailure publishes; `payload` is its payload's text.
abbrev pub paused_input : Bytes → Bytes → Input
paused_input name payload = record {
  type = codes "core.event.subscription_paused";
  source = codes "core.events";
  subject = name;
  payload = marshalled payload;
}

abbrev pub drop_id : Reply (ℕ × Db) → Reply Db
drop_id (ok (id, d)) = ok d
drop_id (refused x) = refused x

unfoldable pub record_failure : ℕ → Sub → Event → Bytes → (payload : Bytes) → Db → Reply Db
record_failure now s e msg payload d = elim (lookup s.name d.cursors) [
  | none ↦ refused unknown_name
  | some c ↦
      if le64 s.retry.max_attempts (suc c.attempts)
      then drop_id (
          publish_tx now (paused_input s.name payload)
            (record d { cursors = update s.name (poisoned e.id (suc c.attempts) msg) d.cursors }))
      else ok (record d {
        cursors =
            update s.name
              (retried (suc c.attempts) (add_duration now (retry_delay s.retry (suc c.attempts)))
                msg)
              d.cursors;
      })
]

-- How a handler, with the acknowledgement after it, ends. A stop may find the handler done or not.
pub data Result : Type 0 where
  succeeded : Result
  unacknowledged : Bytes → Result
  failed_with : Bytes → Result
  stopped : Bool → Result

abbrev pub or_same : Db → Reply Db → Db
or_same d (ok e) = e
or_same d (refused x) = d

-- dispatch, past the call of the handler.
unfoldable pub dispatch : ℕ → Sub → Event → (payload : Bytes) → Result → Db → Db
dispatch now s e payload succeeded d = advance_tx s.name e.id d
dispatch now s e payload (unacknowledged msg) d = or_same d (record_failure now s e msg payload d)
dispatch now s e payload (failed_with msg) d = or_same d (record_failure now s e msg payload d)
dispatch now s e payload (stopped b) d = d
