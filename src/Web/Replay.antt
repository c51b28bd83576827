-- ===== src/Web/Replay.antt =====
-- handleStream of internal/core/web/stream.go over a log that grows.
use control_center.Common.Word.{half64}
use control_center.Common.{
  ℕ, ◌+◌, ◌-◌, ◌<◌, ◌≡◌, refl, sym, subst, ◌∙◌, ap, Bool, true, false, not, Option, some, none,
  List, [], ◌∷◌, ◌++◌, arith, ltb, Bytes, if◌then◌else◌, length, take, filter, append_assoc, All,
}
use control_center.Events.Log.{Event, is_above}
use control_center.Events.Draining.{drop}
use control_center.Web.Stream.{
  Library, Chunk, reset_chunk, event_chunk, heartbeat_chunk, Round, Sent, Next, stop, go_on, beat,
  send_batch, next_step, read_batch, stream_loop, needs_reset, start_after, resume_point,
  handle_stream,
}
use control_center.Web.Batches.{
  delivered, IsOrdered, filter-append, take-drop, Leaves, send_batch-Leaves, read_batch-reference,
}

pub delivered-append : (cs ds : List Chunk) → delivered (cs ++ ds) ≡ delivered cs ++ delivered ds
delivered-append [] ds = refl
delivered-append (reset_chunk oldest ∷ cs) ds = delivered-append cs ds
delivered-append (event_chunk e body ∷ cs) ds = ap (λ es. e ∷ es) (delivered-append cs ds)
delivered-append (heartbeat_chunk ∷ cs) ds = delivered-append cs ds

-- The log of a round is a first part of the log `es`.
abbrev pub IsPartOf : List Event → Round → Type 0
IsPartOf es r = (more : List Event) × (r.log.events ++ more ≡ es)

-- The chunks deliver a first part of what is above a position.
abbrev pub IsReplay : List Event → ℕ → List Chunk → Type 0
IsReplay es after cs = (rest : List Event) × (filter (is_above after) es ≡ delivered cs ++ rest)

pub batch_first :
    (lib : Library) (es : List Event) (r : Round) (after : ℕ) (batch : List Event)
    → IsPartOf es r
    → read_batch lib r after ≡ some batch
    → (rest : List Event) × (filter (is_above after) es ≡ batch ++ rest)
batch_first lib es r after batch (more, p) q =
    let seen = filter (is_above after) r.log.events in
    (
      drop 200 seen ++ filter (is_above after) more,
      ap (filter (is_above after)) (sym p)
          ∙ filter-append (is_above after) r.log.events more
          ∙ ap (λ xs. xs ++ filter (is_above after) more) (sym (take-drop 200 seen))
          ∙ append_assoc (take 200 seen) (drop 200 seen) (filter (is_above after) more)
          ∙ ap (λ xs. xs ++ (drop 200 seen ++ filter (is_above after) more))
              (sym (read_batch-reference lib r after batch q)),
    )

-- One round's chunks, and what comes after them.
IsReplay-append :
    (es : List Event) (after next : ℕ) (cs ds : List Chunk)
    → filter (is_above after) es ≡ delivered cs ++ filter (is_above next) es
    → IsReplay es next ds
    → IsReplay es after (cs ++ ds)
IsReplay-append es after next cs ds q (rest, later) = (
  rest,
  q
      ∙ ap (λ ys. delivered cs ++ ys) later
      ∙ sym (append_assoc (delivered cs) (delivered ds) rest)
      ∙ ap (λ ys. ys ++ rest) (sym (delivered-append cs ds)),
)

module _ (lib : Library) (es : List Event) (ordered : IsOrdered es) where
  pub stream_loop-IsReplay :
      (rounds : List Round) (after : ℕ)
      → after < half64
      → All (IsPartOf es) rounds
      → IsReplay es after (stream_loop lib rounds after)
  unfolding stream_loop
  stream_loop-IsReplay [] after l parts = (filter (is_above after) es, refl)
  stream_loop-IsReplay (r ∷ rounds) after l (part, parts) =
      by_read (read_batch lib r after) refl (stream_loop-IsReplay rounds)
    where
      by_step :
          (s : Sent) (rest : List Event) (n : Next)
          → Leaves es after rest s
          → IsReplay es s.after (stream_loop lib rounds s.after)
          → IsReplay es after (elim n [
            | stop ↦ s.chunks
            | go_on ↦ s.chunks ++ stream_loop lib rounds s.after
            | beat ↦ s.chunks ++ heartbeat_chunk ∷ stream_loop lib rounds s.after
          ])
      by_step s rest stop v later = (filter (is_above s.after) es, v.split)
      by_step s rest go_on v later =
          IsReplay-append es after s.after s.chunks (stream_loop lib rounds s.after) v.split later
      by_step s rest beat v later =
          IsReplay-append es after s.after s.chunks
            (heartbeat_chunk ∷ stream_loop lib rounds s.after) v.split later

      by_open :
          (b : Bool) (s : Sent) (rest : List Event) (n : Next)
          → Leaves es after rest s
          → IsReplay es s.after (stream_loop lib rounds s.after)
          → IsReplay es after (
              if not b then s.chunks else elim n [
                | stop ↦ s.chunks
                | go_on ↦ s.chunks ++ stream_loop lib rounds s.after
                | beat ↦ s.chunks ++ heartbeat_chunk ∷ stream_loop lib rounds s.after
              ])
      by_open true s rest n v later = by_step s rest n v later
      by_open false s rest n v later = by_step s rest stop v later

      by_read :
          (o : Option (List Event))
          → read_batch lib r after ≡ o
          → ((next : ℕ)
              → next < half64
              → All (IsPartOf es) rounds
              → IsReplay es next (stream_loop lib rounds next))
          → IsReplay es after (elim o [
            | none ↦ []
            | some batch ↦
                let s = send_batch lib r.takes batch after in
                if not s.still_open then s.chunks else elim (next_step r (length batch)) [
                  | stop ↦ s.chunks
                  | go_on ↦ s.chunks ++ stream_loop lib rounds s.after
                  | beat ↦ s.chunks ++ heartbeat_chunk ∷ stream_loop lib rounds s.after
                ]
          ])
      by_read none q later = (filter (is_above after) es, refl)
      by_read (some batch) q later =
          let (rest, first) = batch_first lib es r after batch part q in
          let v = send_batch-Leaves lib r.takes es ordered batch rest after l first in
          by_open (send_batch lib r.takes batch after).still_open
            (send_batch lib r.takes batch after) rest (next_step r (length batch)) v
            (later (send_batch lib r.takes batch after).after v.small parts)

-- Nothing was written, or the reset came first.
abbrev pub StartsReset : (oldest : ℕ) → List Chunk → Type 0
StartsReset oldest [] = Unit
StartsReset oldest (c ∷ cs) = c ≡ reset_chunk oldest

-- The position after which a client is served: its own, or the last that is not retained.
abbrev pub served_after : (after oldest : ℕ) → ℕ
served_after after oldest = if ltb (after + 1) oldest then oldest - 1 else after

start_after-served :
    (after oldest : ℕ)
    → after + 1 < half64
    → oldest < half64
    → (needs_reset after oldest ≡ ltb (after + 1) oldest)
      × (start_after after oldest ≡ served_after after oldest)
      × (start_after after oldest < half64)
unfolding start_after needs_reset
start_after-served after oldest l h = ground arith

-- A stream leaves no gap and repeats nothing: whatever the client takes and however often the log
-- grows meanwhile, if ids rise, each log that is read is a first part of the last one, and the
-- resume point is read as an int64 below the largest, then the events that are written are, in
-- order, a first part of those above the resume point. Where the event after the resume point is no
-- longer retained, they are those from the oldest retained on, and the reset is written before any
-- of them.
pub handle_stream-IsReplay :
    (lib : Library) (header query_value : Bytes) (after oldest : ℕ) (takes_reset : Bool)
    (rounds : List Round) (es : List Event) (cs : List Chunk)
    → IsOrdered es
    → All (IsPartOf es) rounds
    → resume_point lib header query_value ≡ some after
    → after + 1 < half64
    → oldest < half64
    → handle_stream lib header query_value oldest takes_reset rounds ≡ some cs
    → IsReplay es (served_after after oldest) cs
      × ((ltb (after + 1) oldest ≡ true) → StartsReset oldest cs)
unfolding handle_stream
handle_stream-IsReplay lib header query_value after oldest takes_reset rounds es cs ordered parts
      point l h e =
    let (needs, start, small) = start_after-served after oldest l h in
    by_cases (needs_reset after oldest) takes_reset refl refl needs (
      subst (λ a. IsReplay es a body) start
        (stream_loop-IsReplay lib es ordered rounds (start_after after oldest) small parts))
  where
    body : List Chunk
    body = stream_loop lib rounds (start_after after oldest)

    same_served : needs_reset after oldest ≡ false → body ≡ cs
    same_served n = ground arith

    same_reset :
        needs_reset after oldest ≡ true → takes_reset ≡ true → (reset_chunk oldest ∷ body) ≡ cs
    same_reset n u = ground arith

    same_closed : needs_reset after oldest ≡ true → takes_reset ≡ false → [] ≡ cs
    same_closed n u = ground arith

    Goal : List Chunk → Type 0
    Goal xs =
        IsReplay es (served_after after oldest) xs
        × ((ltb (after + 1) oldest ≡ true) → StartsReset oldest xs)

    by_cases :
        (b t : Bool)
        → needs_reset after oldest ≡ b
        → takes_reset ≡ t
        → needs_reset after oldest ≡ ltb (after + 1) oldest
        → IsReplay es (served_after after oldest) body
        → Goal cs
    by_cases false t n u m r = subst Goal (same_served n) (r, λ x. absurd (ground arith))
    by_cases true true n u m r = subst Goal (same_reset n u) (r, λ x. refl)
    by_cases true false n u m r =
        subst Goal (same_closed n u)
          ((filter (is_above (served_after after oldest)) es, refl), λ x. tt)
