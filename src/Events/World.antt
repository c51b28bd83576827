-- ===== src/Events/World.antt =====
-- Histories of internal/core/events: any number of processes that poll and finish work in any order,
-- publishers, retention passes, and the operator's actions of internal/core/web/handlers_events.go.
use control_center.Common.Word.{neg64}
use control_center.Common.{
  ℕ, zero, suc, Bool, true, false, Option, none, some, List, [], ◌∷◌, if◌then◌else◌, Bytes,
  bytes_key, lookup,
}
use control_center.Events.Log.{Db, negative_event, Input, Reply, ok, refused, publish_tx}
use control_center.Events.Durable.{
  Start, from_beginning, from_now, unknown_start, after_event, RetryPolicy, Sub, subscribe_durable,
  release_lease, Work, wait, advance_to, deliver, poll, advance_tx, Result, succeeded,
  unacknowledged, failed_with, stopped, dispatch, or_same, retry_paused, skip_paused, reset_cursor,
  remove_subscriber,
}
use control_center.Events.Cleanup.{run_retention}

-- The reset of handleSubscriberAction: a negative id is a bad request.
unfoldable pub reset_action : Bytes → Start → Db → Reply Db
reset_action name from_beginning d = reset_cursor name from_beginning d
reset_action name from_now d = reset_cursor name from_now d
reset_action name unknown_start d = reset_cursor name unknown_start d
reset_action name (after_event id) d =
    if neg64 id then refused negative_event else reset_cursor name (after_event id) d

-- The tables; every subscription that was opened; the work that some process has decided on and not
-- finished; and which events a handler has handled, or an operator has skipped, for which subscriber.
pub record World : Type 0 where
  pub db : Db
  pub subs : List Sub
  pub pending : List (Sub × Work)
  pub delivered : List (Bytes × ℕ)
  pub skipped : List (Bytes × ℕ)

pub data Op : Type 0 where
  publish_op : (i : Input) → Op
  subscribe_op : (name pattern : Bytes) (start : Start) (retry : RetryPolicy) (running : Bool) → Op
  poll_op : (owner : Bytes) (ttl : ℕ) (which : ℕ) → Op
  finish_op : (which : ℕ) (payload : Bytes) (r : Result) → Op
  release_op : (owner name : Bytes) → Op
  retry_op skip_op remove_op : (name : Bytes) → Op
  reset_op : (name : Bytes) (start : Start) → Op
  retention_op : (cutoff : ℕ) → Op

abbrev pub with_db : Db → World → World
with_db d w = record w { db = d }

abbrev pub opened : Reply Sub → List Sub → List Sub
opened (ok s) subs = s ∷ subs
opened (refused x) subs = subs

abbrev pub published : Db → Reply (ℕ × Db) → Db
published d (ok (id, e)) = e
published d (refused x) = d

unfoldable pub nth : {A : Type 0} → ℕ → List A → Option A
nth n [] = none
nth zero (x ∷ xs) = some x
nth (suc n) (x ∷ xs) = nth n xs

unfoldable pub without : {A : Type 0} → ℕ → List A → List A
without n [] = []
without zero (x ∷ xs) = xs
without (suc n) (x ∷ xs) = x ∷ without n xs

-- The handler, or the write of an advance, has done its part.
abbrev pub is_handled : Result → Bool
is_handled succeeded = true
is_handled (unacknowledged msg) = true
is_handled (failed_with msg) = false
is_handled (stopped b) = b

abbrev pub mark : Bool → Bytes × ℕ → List (Bytes × ℕ) → List (Bytes × ℕ)
mark true x xs = x ∷ xs
mark false x xs = xs

unfoldable pub perform : ℕ → Bytes → Result → Sub → Work → World → World
perform now payload r s wait w = w
perform now payload r s (advance_to id) w =
    if is_handled r then with_db (advance_tx s.name id w.db) w else w
perform now payload r s (deliver e) w = record w {
  db = dispatch now s e payload r w.db;
  delivered = mark (is_handled r) (s.name, e.id) w.delivered;
}

abbrev pub poll_with : ℕ → Bytes → ℕ → Sub → World → World
poll_with now owner ttl s w = record w {
  db = (poll now owner ttl s w.db).1;
  pending = (s, (poll now owner ttl s w.db).0) ∷ w.pending;
}

abbrev pub failed_of : Bytes → Db → ℕ
failed_of name d = elim (lookup name d.cursors) [ none ↦ 0 | some c ↦ c.failed_event_id ]

abbrev pub skip_with : Bytes → Reply Db → World → World
skip_with name (ok d) w = record w { db = d; skipped = (name, failed_of name w.db) ∷ w.skipped }
skip_with name (refused x) w = w

unfoldable pub step : ℕ → Op → World → World
step now (publish_op i) w = with_db (published w.db (publish_tx now i w.db)) w
step now (subscribe_op name pattern start retry running) w = record w {
  db = (subscribe_durable name pattern start retry running w.db).1;
  subs = opened (subscribe_durable name pattern start retry running w.db).0 w.subs;
}
step now (poll_op owner ttl which) w = elim (nth which w.subs) [
  | none ↦ w
  | some s ↦ poll_with now owner ttl s w
]
step now (finish_op which payload r) w = elim (nth which w.pending) [
  | none ↦ w
  | some (s, k) ↦ perform now payload r s k (record w { pending = without which w.pending })
]
step now (release_op owner name) w = with_db (release_lease owner name w.db) w
step now (retry_op name) w = with_db (or_same w.db (retry_paused name w.db)) w
step now (skip_op name) w = skip_with name (skip_paused name w.db) w
step now (remove_op name) w = with_db (remove_subscriber name w.db) w
step now (reset_op name start) w = with_db (or_same w.db (reset_action name start w.db)) w
step now (retention_op cutoff) w = with_db (run_retention cutoff w.db).1 w

unfoldable pub run : List (ℕ × Op) → World → World
run [] w = w
run ((now, o) ∷ os) w = run os (step now o w)
