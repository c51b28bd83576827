-- ===== src/Web/Delivery.antt =====
-- A stream of internal/core/web/stream.go whose client takes every write.
use control_center.Common.Word.{half64}
use control_center.Common.{
  ℕ, zero, suc, ◌+◌, ◌*◌, ◌≤◌, ◌<◌, ◌≡◌, refl, sym, ◌∙◌, ap, Bool, true, false, ◌⊎◌, some, List, [],
  ◌∷◌, ◌++◌, arith, Bytes, length, take, filter, All,
}
use control_center.Events.Log.{Event, is_above, query}
use control_center.Events.Draining.{drop}
use control_center.Web.Stream.{
  Library, WireEvent, Chunk, event_chunk, woken, Round, send_batch, next_step, read_batch,
  stream_loop, to_wire,
}
use control_center.Web.Batches.{
  delivered, IsOrdered, take-drop, compiled_any, query_any, send_batch-Leaves,
}
use control_center.Web.Replay.{delivered-append}

-- A round over the log `es` in which nothing fails and the wait ends by a new event or the tick.
abbrev pub IsHealthy : List Event → Round → Type 0
IsHealthy es r =
    (r.read_fails ≡ false)
    × (r.log.events ≡ es)
    × (r.wake ≡ woken)
    × ((c : Chunk) → r.takes c ≡ true)

abbrev pub Marshals : Library → Type 0
Marshals lib = (w : WireEvent) → (body : Bytes) × (lib.marshal w ≡ some body)

send_batch-delivered :
    (lib : Library) (takes : Chunk → Bool) (batch : List Event) (after : ℕ)
    → Marshals lib
    → ((c : Chunk) → takes c ≡ true)
    → (delivered (send_batch lib takes batch after).chunks ≡ batch)
      × ((send_batch lib takes batch after).still_open ≡ true)
unfolding send_batch
send_batch-delivered lib takes [] after m t = (refl, refl)
send_batch-delivered lib takes (e ∷ batch) after m t =
    let (body, q) = m (to_wire lib e) in
    ground (arith, t (event_chunk e body), send_batch-delivered lib takes batch e.id m t)

read_batch-healthy :
    (lib : Library) (es : List Event) (r : Round) (after : ℕ)
    → IsHealthy es r
    → read_batch lib r after ≡ some (take 200 (filter (is_above after) es))
unfolding read_batch query
read_batch-healthy lib es r after h = ground (arith, compiled_any, query_any lib.like after r.log)

drop-shorter :
    (n : ℕ) (xs : List Event) → length (drop n xs) + n ≤ length xs ⊎ (length (drop n xs) ≡ 0)
drop-shorter zero xs = ground arith
drop-shorter (suc n) [] = ground arith
drop-shorter (suc n) (x ∷ xs) = ground (arith, drop-shorter n xs)

no_length : (xs : List Event) → length xs ≡ 0 → xs ≡ []
no_length [] h = refl
no_length (x ∷ xs) h = absurd (omega arith)

healthy_step :
    (lib : Library) (es : List Event) (r : Round) (rounds : List Round) (after : ℕ)
    → Marshals lib
    → IsHealthy es r
    → let s = send_batch lib r.takes (take 200 (filter (is_above after) es)) after in
      stream_loop lib (r ∷ rounds) after ≡ s.chunks ++ stream_loop lib rounds s.after
unfolding stream_loop next_step
healthy_step lib es r rounds after m h = ground (
  arith,
  read_batch-healthy lib es r after h,
  send_batch-delivered lib r.takes (take 200 (filter (is_above after) es)) after m h.3,
)

-- A client that takes every write has every event above its position, once and in order, after as
-- many rounds as batches of 200 cover: the log is in order of its ids and does not change, every
-- event has a JSON text, and no round fails or is cut off.
pub stream_loop-delivers :
    (lib : Library) (es : List Event) (rounds : List Round) (after : ℕ)
    → Marshals lib
    → IsOrdered es
    → after < half64
    → All (IsHealthy es) rounds
    → length (filter (is_above after) es) ≤ 200 * length rounds
    → delivered (stream_loop lib rounds after) ≡ filter (is_above after) es
unfolding stream_loop
stream_loop-delivers lib es [] after m ordered l h n =
    sym (no_length (filter (is_above after) es) (omega arith))
stream_loop-delivers lib es (r ∷ rounds) after m ordered l (h, hs) n =
    let seen = filter (is_above after) es in
    let s = send_batch lib r.takes (take 200 seen) after in
    let v =
      send_batch-Leaves lib r.takes es ordered (take 200 seen) (drop 200 seen) after l
        (sym (take-drop 200 seen)) in
    let (all, still) = send_batch-delivered lib r.takes (take 200 seen) after m h.3 in
    let left = v.all_taken still in
    ap delivered (healthy_step lib es r rounds after m h)
    ∙ delivered-append s.chunks (stream_loop lib rounds s.after)
    ∙ ap (λ ys. ys ++ delivered (stream_loop lib rounds s.after)) all
    ∙ ap (λ ys. take 200 seen ++ ys)
        (stream_loop-delivers lib es rounds s.after m ordered v.small hs (fewer left))
    ∙ ap (λ ys. take 200 seen ++ ys) left
    ∙ take-drop 200 seen
  where
    fewer :
        {ys : List Event}
        → ys ≡ drop 200 (filter (is_above after) es)
        → length ys ≤ 200 * length rounds
    fewer q = rw q (omega (arith, n, drop-shorter 200 (filter (is_above after) es)))
