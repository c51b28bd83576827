-- ===== src/Events/Log.antt =====
-- internal/core/events/events.go, log.go and the tables of migrations.go. The text that json.Marshal
-- makes of a payload is an input. An event id is below 2 ^ 63, a cursor's position is an int64 word.
use control_center.Common.Word.{half64, le64}
use control_center.Common.{
  ℕ, suc, ◌*◌, Bool, not, ◌&&◌, ◌||◌, Option, none, some, List, [], ◌∷◌, ◌++◌, if◌then◌else◌, ltb,
  Bytes, codes, bytes_eq, length, take, filter,
}
use control_center.Events.Pattern.{
  Error, validate_type, validate_source, compile_pattern, matches, sql_prefix, dot, double_star,
}

-- A row of core_events.
pub record Event : Type 0 where
  pub id : ℕ
  pub type : Bytes
  pub source : Bytes
  pub subject : Bytes
  pub payload : Bytes
  pub created_at : ℕ

pub data CursorState : Type 0 where
  active paused : CursorState

-- A row of core_event_cursors, less its key and its update time.
pub record Cursor : Type 0 where
  pub pattern : Bytes
  pub last_event_id : ℕ
  pub state : CursorState
  pub failed_event_id : ℕ
  pub attempts : ℕ
  pub retry_at : Option ℕ
  pub last_error : Bytes
  pub lease_owner : Bytes
  pub lease_until : Option ℕ

-- The tables. The log is kept in the order of its ids, and `next_id` is the AUTOINCREMENT counter.
pub record Db : Type 0 where
  pub events : List Event
  pub next_id : ℕ
  pub cursors : List (Bytes × Cursor)
  pub oldest_retained : ℕ

pub data LogError : Type 0 where
  invalid : Error → LogError
  marshal_failed payload_too_big pattern_changed unknown_name not_paused : LogError
  bad_name bad_retry already_running negative_event unknown_mode log_full : LogError

-- What json.Marshal makes of a payload; a nil one is not marshalled.
pub data Payload : Type 0 where
  absent unmarshalled : Payload
  marshalled : Bytes → Payload

pub record Input : Type 0 where
  pub type : Bytes
  pub source : Bytes
  pub subject : Bytes
  pub payload : Payload

abbrev pub max_payload_bytes : ℕ
max_payload_bytes = 262144

pub data Reply {ℓ} (A : Type ℓ) : Type ℓ where
  ok : A → Reply A
  refused : LogError → Reply A

unfoldable pub bounded : Bytes → Reply Bytes
bounded b = if ltb max_payload_bytes (length b) then refused payload_too_big else ok b

unfoldable pub payload_text : Payload → Reply Bytes
payload_text absent = bounded (codes "null")
payload_text unmarshalled = refused marshal_failed
payload_text (marshalled b) = bounded b

unfoldable pub prepare : Input → Reply Bytes
prepare i = elim (validate_type i.type) [
  | some e ↦ refused (invalid e)
  | none ↦ elim (validate_source i.source i.type) [
    | some e ↦ refused (invalid e)
    | none ↦ payload_text i.payload
  ]
]

abbrev pub new_event : ℕ → ℕ → Input → Bytes → Event
new_event now id i payload = record {
  id = id;
  type = i.type;
  source = i.source;
  subject = i.subject;
  payload = payload;
  created_at = now;
}

abbrev pub append_event : Event → Db → Db
append_event e d = record d { events = d.events ++ e ∷ []; next_id = suc d.next_id }

-- PublishTx. An AUTOINCREMENT table is full once the largest int64 has been used.
unfoldable pub publish_tx : ℕ → Input → Db → Reply (ℕ × Db)
publish_tx now i d = elim (prepare i) [
  | refused e ↦ refused e
  | ok payload ↦
      if ltb d.next_id half64
      then ok (d.next_id, append_event (new_event now d.next_id i payload) d)
      else refused log_full
]

-- Scoped: what a plugin publishes carries its id.
unfoldable pub scoped_input : Bytes → Bytes → Bytes → Payload → Input
scoped_input plugin event_type subject payload = record {
  type = plugin ++ dot ∷ event_type;
  source = plugin;
  subject = subject;
  payload = payload;
}

-- id > after, on int64.
abbrev pub is_above : ℕ → Event → Bool
is_above after e = not (le64 e.id after)

-- readAfter
unfoldable pub read_after : ℕ → ℕ → Db → List Event
read_after after limit d = take limit (filter (is_above after) d.events)

-- max(id); no row leaves 0.
unfoldable pub max_id : List Event → ℕ
max_id [] = 0
max_id (e ∷ es) = let rest = max_id es in if ltb rest e.id then e.id else rest

unfoldable pub tail_tx : Db → ℕ
tail_tx d = max_id d.events

pub record Query : Type 0 where
  pub pattern : Bytes
  pub after : ℕ
  pub limit : ℕ  -- an int64 word

abbrev pub or_all : Bytes → Bytes
or_all [] = double_star
or_all (c ∷ p) = c ∷ p

abbrev pub query_limit : ℕ → ℕ
query_limit n = if le64 n 0 || not (le64 n 1000) then 100 else n

-- SQL's `text LIKE pattern` is a parameter.
module _ (like : Bytes → Bytes → Bool) where
  -- The WHERE clause of Query: no condition on the type where the prefix is empty.
  unfoldable pub in_window : Bytes → ℕ → Event → Bool
  in_window prefix after e =
      is_above after e
      && (bytes_eq prefix [] || bytes_eq e.type prefix || like e.type (prefix ++ codes ".%"))

  -- Query, of the segments of a compiled pattern: a window of four times the limit is read.
  unfoldable pub query_compiled : List Bytes → ℕ → ℕ → Db → List Event
  query_compiled segs after limit d = take limit (
      filter (λ e. matches segs e.type)
        (take (limit * 4) (filter (in_window (sql_prefix segs) after) d.events)))

  unfoldable pub query : Query → Db → Reply (List Event)
  query q d = elim (compile_pattern (or_all q.pattern)) [
    | none ↦ refused (invalid Error.invalid_pattern)
    | some segs ↦ ok (query_compiled segs q.after (query_limit q.limit) d)
  ]
