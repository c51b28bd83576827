-- ===== src/Events/Durable/Operating.antt =====
-- internal/core/events/durable.go: the operator's actions on a subscriber.
use control_center.Common.{
  ℕ, Bool, true, false, none, some, [], if◌then◌else◌, Bytes, bytes_key, lookup, update, delete,
}
use control_center.Events.Log.{
  Cursor, CursorState, active, paused, Db, unknown_name, not_paused, unknown_mode, Reply, ok,
  refused, tail_tx,
}
use control_center.Events.Durable.Subscribing.{
  Start, from_beginning, from_now, unknown_start, after_event,
}

abbrev pub is_paused : CursorState → Bool
is_paused paused = true
is_paused active = false

-- mutatePaused, with the UPDATE of its caller, which has the row that was read.
unfoldable pub mutate_paused : (Cursor → Cursor → Cursor) → Bytes → Db → Reply Db
mutate_paused f name d = elim (lookup name d.cursors) [
  | none ↦ refused unknown_name
  | some c ↦
      if is_paused c.state
      then ok (record d { cursors = update name (f c) d.cursors })
      else refused not_paused
]

abbrev pub resumed : Cursor → Cursor
resumed c = record c { state = active; attempts = 0; retry_at = none }

unfoldable pub retry_paused : Bytes → Db → Reply Db
retry_paused name d = mutate_paused (λ _. resumed) name d

abbrev pub moved : ℕ → Cursor → Cursor
moved id c = record c {
  last_event_id = id;
  state = active;
  failed_event_id = 0;
  attempts = 0;
  retry_at = none;
  last_error = [];
}

unfoldable pub skip_paused : Bytes → Db → Reply Db
skip_paused name d = mutate_paused (λ c. moved c.failed_event_id) name d

-- The switch of ResetCursor, which has no test for a negative id.
unfoldable pub reset_position : Start → Db → Reply ℕ
reset_position from_beginning d = ok 0
reset_position from_now d = ok (tail_tx d)
reset_position (after_event id) d = ok id
reset_position unknown_start d = refused unknown_mode

unfoldable pub reset_cursor : Bytes → Start → Db → Reply Db
reset_cursor name start d = elim (lookup name d.cursors) [
  | none ↦ refused unknown_name
  | some _ ↦ elim (reset_position start d) [
    | refused e ↦ refused e
    | ok to ↦ ok (record d { cursors = update name (moved to) d.cursors })
  ]
]

unfoldable pub remove_subscriber : Bytes → Db → Db
remove_subscriber name d = record d { cursors = delete name d.cursors }
