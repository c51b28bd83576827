-- ===== src/Events/Live.antt =====
-- internal/core/events/log.go: liveSub, drainOnce and fanOut.
use control_center.Common.{
  ℕ, zero, suc, Option, none, some, List, [], ◌∷◌, ◌++◌, if◌then◌else◌, ltb, Bytes, length, map,
}
use control_center.Events.Pattern.{matches}
use control_center.Events.Log.{Event, Db, read_after}

-- A subscription with its bounded queue.
pub record LiveSub : Type 0 where
  pub segs : List Bytes
  pub capacity : ℕ
  pub queue : List Event
  pub dropped : ℕ

-- The select of fanOut: the queue takes the event, or the subscription counts it as dropped.
unfoldable pub offer : Event → LiveSub → LiveSub
offer e s =
    if matches s.segs e.type
    then if ltb (length s.queue) s.capacity
      then record s { queue = s.queue ++ e ∷ [] }
      else record s { dropped = suc s.dropped }
    else s

abbrev pub fan_out : Event → List LiveSub → List LiveSub
fan_out e subs = map (offer e) subs

-- The loop over a batch.
unfoldable pub fan_all : List Event → List LiveSub → List LiveSub
fan_all [] subs = subs
fan_all (e ∷ es) subs = fan_all es (fan_out e subs)

unfoldable pub last_id : Event → List Event → ℕ
last_id e [] = e.id
last_id e (f ∷ es) = last_id f es

-- drainOnce, with fuel for the rounds: the subscriptions and tailFrom. Handlers do not run meanwhile.
unfoldable pub drain_once : (fuel : ℕ) → ℕ → List LiveSub → Db → Option (List LiveSub × ℕ)
drain_once zero from subs d = none
drain_once (suc fuel) from subs d = elim (read_after from 200 d) [
  | [] ↦ some (subs, from)
  | e ∷ es ↦ drain_once fuel (last_id e es) (fan_all (e ∷ es) subs) d
]
