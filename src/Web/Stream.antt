-- ===== src/Web/Stream.antt =====
-- internal/core/web/stream.go. The decimal print and parse of an id, the JSON of an event, SQL's
-- LIKE and the renewal of a session are parameters; the rounds of the loop are an argument, since
-- each sees the log at its own instant. Ids are int64 words.
use control_center.Common.Word.{mod64, neg64, add64, lt64}
use control_center.Common.{
  ℕ, ◌+◌, ◌-◌, ◌%◌, Bool, true, false, not, ◌&&◌, Option, none, some, List, [], ◌∷◌, ◌++◌,
  if◌then◌else◌, ◌==◌, Bytes, codes, bytes_eq, length,
}
use control_center.Events.Pattern.{double_star}
use control_center.Events.Log.{Event, Db, ok, refused, query}

pub record WireEvent : Type 0 where
  pub id : Bytes
  pub type : Bytes
  pub source : Bytes
  pub subject : Bytes
  pub payload : Bytes
  pub created_at : ℕ

-- strconv.FormatInt, strconv.ParseInt and json.Marshal.
pub record Library : Type 0 where
  pub format_id : ℕ → Bytes
  pub parse_int : Bytes → Option ℕ
  pub marshal : WireEvent → Option Bytes
  pub like : Bytes → Bytes → Bool

abbrev pub stream_batch : ℕ
stream_batch = 200

-- The chunks that the handler writes.
pub data Chunk : Type 0 where
  reset_chunk : (oldest : ℕ) → Chunk
  event_chunk : Event → (body : Bytes) → Chunk
  heartbeat_chunk : Chunk

-- sseMessage
unfoldable pub sse_message : (event id data_line : Bytes) → Bytes
sse_message event id data_line =
    (if bytes_eq id [] then [] else codes "id: " ++ (id ++ 10 ∷ []))
    ++ (codes "event: " ++ (event ++ (10 ∷ codes "data: " ++ (data_line ++ 10 ∷ 10 ∷ []))))

-- How the wait of a round ends; on a heartbeat, whether the session was renewed.
pub data Wake : Type 0 where
  client_gone : Wake
  woken : Wake
  heartbeat : (touched : Bool) → Wake

-- One round: whether the read fails, the log that it reads, which writes the client takes, and the
-- wait.
pub record Round : Type 0 where
  pub read_fails : Bool
  pub log : Db
  pub takes : Chunk → Bool
  pub wake : Wake

-- What the writes of a batch leave.
pub record Sent : Type 0 where
  pub chunks : List Chunk
  pub after : ℕ
  pub still_open : Bool

-- What follows a batch.
pub data Next : Type 0 where
  stop go_on beat : Next

-- What the handler does after a batch.
unfoldable pub next_step : Round → (count : ℕ) → Next
next_step r count = if count == stream_batch then go_on else elim r.wake [
  | client_gone ↦ stop
  | woken ↦ go_on
  | heartbeat touched ↦ if touched && r.takes heartbeat_chunk then beat else stop
]

-- The resume point that the loop starts from, and the test for a reset.
unfoldable pub needs_reset : (after oldest : ℕ) → Bool
needs_reset after oldest = lt64 (add64 after 1) oldest

unfoldable pub start_after : (after oldest : ℕ) → ℕ
start_after after oldest =
    if needs_reset after oldest then (oldest + (mod64 - 1)) % mod64 else after

module _ (lib : Library) where
  unfoldable pub to_wire : Event → WireEvent
  to_wire e = record {
    id = lib.format_id e.id;
    type = e.type;
    source = e.source;
    subject = e.subject;
    payload = if bytes_eq e.payload [] then codes "null" else e.payload;
    created_at = e.created_at;
  }

  -- The text of a chunk.
  unfoldable pub render : Chunk → Bytes
  render (reset_chunk oldest) =
      sse_message (codes "reset") []
        (codes "{\"oldestRetainedId\":\"" ++ (lib.format_id oldest ++ codes "\"}"))
  render (event_chunk e body) = sse_message (codes "event") (lib.format_id e.id) body
  render heartbeat_chunk = codes ": heartbeat\n\n"

  -- resumePoint
  unfoldable pub resume_point : (header query_value : Bytes) → Option ℕ
  resume_point header query_value =
      let raw = if bytes_eq header [] then query_value else header in
      if bytes_eq raw []
      then some 0
      else elim (lib.parse_int raw) [ none ↦ none | some id ↦ if neg64 id then none else some id ]

  -- The loop over a batch.
  unfoldable pub send_batch : (takes : Chunk → Bool) → List Event → (after : ℕ) → Sent
  send_batch takes [] after = record { chunks = []; after = after; still_open = true }
  send_batch takes (e ∷ es) after = elim (lib.marshal (to_wire e)) [
    | none ↦ record { chunks = []; after = after; still_open = false }
    | some body ↦
        let rest = send_batch takes es e.id in
        if takes (event_chunk e body)
        then record rest { chunks = event_chunk e body ∷ rest.chunks }
        else record { chunks = []; after = after; still_open = false }
  ]

  unfoldable pub read_batch : Round → (after : ℕ) → Option (List Event)
  read_batch r after =
      if r.read_fails
      then none
      else elim (query lib.like
          (record { pattern = double_star; after = after; limit = stream_batch }) r.log) [
            | refused e ↦ none
            | ok batch ↦ some batch
          ]

  unfoldable pub stream_loop : List Round → (after : ℕ) → List Chunk
  stream_loop [] after = []
  stream_loop (r ∷ rounds) after = elim (read_batch r after) [
    | none ↦ []
    | some batch ↦
        let s = send_batch r.takes batch after in
        if not s.still_open then s.chunks else elim (next_step r (length batch)) [
          | stop ↦ s.chunks
          | go_on ↦ s.chunks ++ stream_loop rounds s.after
          | beat ↦ s.chunks ++ heartbeat_chunk ∷ stream_loop rounds s.after
        ]
  ]

  -- handleStream of an authenticated request, from the resume point on; none is the answer 400.
  unfoldable pub handle_stream :
      (header query_value : Bytes)
      → (oldest : ℕ) → (takes_reset : Bool) → List Round
      → Option (List Chunk)
  handle_stream header query_value oldest takes_reset rounds =
      elim (resume_point header query_value) [
        | none ↦ none
        | some after ↦
            let body = stream_loop rounds (start_after after oldest) in
            if not (needs_reset after oldest)
            then some body
            else if takes_reset
            then some (reset_chunk oldest ∷ body)
            else some []
      ]
