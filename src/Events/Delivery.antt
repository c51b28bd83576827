-- ===== src/Events/Delivery.antt =====
-- internal/core/events: at-least-once delivery over a history of the log.
use control_center.Common.{
  ℕ, ◌≡◌, refl, ◌⊎◌, inl, inr, Bool, true, false, not, Option, none, some, List, [], ◌∷◌, arith,
  Bool-cases, Option-cases, Bytes, bytes_eq, bytes_key, All, Has,
}
use control_center.Events.Log.{Event, Db, Reply, ok, refused}
use control_center.Events.Durable.{
  Sub, subscribe_durable, Work, wait, advance_to, deliver, Result, skip_paused,
}
use control_center.Events.World.{
  World, Op, publish_op, subscribe_op, poll_op, finish_op, release_op, retry_op, skip_op, remove_op,
  reset_op, retention_op, step, run, perform,
}
use control_center.Events.Owed.{Done, WorkOk, SubOk, Holds, Owed}
use control_center.Events.World.{nth, without, is_handled, mark, poll_with, skip_with, with_db}
use control_center.Events.Keeping.{Holds-publish, Holds-release, Holds-retry, Holds-retention}
use control_center.Events.Positions.{Holds-remove, Holds-reset, opened-All, subscribe-Opens}
use control_center.Events.Polling.{poll-WorkOk}
use control_center.Events.Settling.{without-All, nth-All, Settled, perform-Settled, skip-Settled}

module _ (s : Bytes) (e : Event) where
  -- The operator does not reset the subscriber's cursor or remove it.
  abbrev pub spares : Op → Bool
  spares (remove_op n) = not (bytes_eq n s)
  spares (reset_op n start) = not (bytes_eq n s)
  spares _ = true

  Done-mark :
      (b : Bool) (x : Bytes × ℕ) (xs : List (Bytes × ℕ))
      → Has (s, e.id) xs
      → Has (s, e.id) (mark b x xs)
  Done-mark true x xs h = inr h
  Done-mark false x xs h = h

  -- What has been done stays done.
  perform-Done :
      (now : ℕ) (payload : Bytes) (r : Result) (t : Sub) (k : Work) (w : World)
      → Done s e w
      → Done s e (perform now payload r t k w)
  unfolding perform
  perform-Done now payload r t wait w h = h
  perform-Done now payload r t (advance_to id) w h = elim (Bool-cases (is_handled r)) [
    | inl q ↦ rw (q, perform) h
    | inr q ↦ rw (q, perform) h
  ]
  perform-Done now payload r t (deliver f) w (inl h) =
      inl (Done-mark (is_handled r) (t.name, f.id) w.delivered h)
  perform-Done now payload r t (deliver f) w (inr h) = inr h

  with_all : (d : Db) (w : World) → Holds s e d → Owed s e w → Settled s e (with_db d w)
  with_all d w h o = inl (record { tables = h; works = o.works; subs = o.subs })

  step-Settled :
      (now : ℕ) (op : Op) (w : World) → spares op ≡ true → Owed s e w → Settled s e (step now op w)
  unfolding step
  step-Settled now (publish_op i) w p o = with_all _ w (Holds-publish s e now i w.db o.tables) o
  step-Settled now (subscribe_op n pattern start retry running) w p o =
      let h = subscribe-Opens s e n pattern start retry running w.db o.tables in
      inl (record {
        tables = h.0;
        works = o.works;
        subs =
            opened-All s e (subscribe_durable n pattern start retry running w.db).0 w.subs (h.1)
              o.subs;
      })
  step-Settled now (poll_op owner ttl which) w p o = polled (nth which w.subs) refl
    where
      polled :
          (x : Option Sub)
          → nth which w.subs ≡ x
          → Settled s e (elim x [ none ↦ w | some t ↦ poll_with now owner ttl t w ])
      polled none q = inl o
      polled (some t) q =
          let h =
            poll-WorkOk s e now owner ttl t w.db o.tables
              (nth-All (SubOk s e) which w.subs t o.subs q) in
          inl (record { tables = h.1; works = (h.0, o.works); subs = o.subs })
  step-Settled now (finish_op which payload r) w p o = finished (nth which w.pending) refl
    where
      finished :
          (x : Option (Sub × Work))
          → nth which w.pending ≡ x
          → Settled s e (elim x [
            | none ↦ w
            | some (t, k) ↦
                perform now payload r t k (record w { pending = without which w.pending })
          ])
      finished none q = inl o
      finished (some (t, k)) q =
          perform-Settled s e now payload r t k (record w { pending = without which w.pending })
            (nth-All (WorkOk s e) which w.pending (t, k) o.works q)
            (record {
              tables = o.tables;
              works = without-All (WorkOk s e) which w.pending o.works;
              subs = o.subs;
            })
  step-Settled now (release_op owner n) w p o =
      with_all _ w (Holds-release s e owner n w.db o.tables) o
  step-Settled now (retry_op n) w p o = with_all _ w (Holds-retry s e n w.db o.tables) o
  step-Settled now (skip_op n) w p o = skip-Settled s e n w o
  step-Settled now (remove_op n) w p o =
      with_all _ w (Holds-remove s e n w.db (ground arith) o.tables) o
  step-Settled now (reset_op n start) w p o =
      with_all _ w (Holds-reset s e n start w.db (ground arith) o.tables) o
  step-Settled now (retention_op cutoff) w p o =
      with_all _ w (Holds-retention s e cutoff w.db o.tables) o

  step-Done : (now : ℕ) (op : Op) (w : World) → Done s e w → Done s e (step now op w)
  unfolding step
  step-Done now (publish_op i) w h = h
  step-Done now (subscribe_op n pattern start retry running) w h = h
  step-Done now (poll_op owner ttl which) w h = elim (Option-cases (nth which w.subs)) [
    | inl q ↦ rw (q, step) h
    | inr (t, q) ↦ rw (q, step) h
  ]
  step-Done now (finish_op which payload r) w h = elim (Option-cases (nth which w.pending)) [
    | inl q ↦ rw (q, step) h
    | inr ((t, k), q) ↦
        rw (q, step)
          (perform-Done now payload r t k (record w { pending = without which w.pending }) h)
  ]
  step-Done now (release_op owner n) w h = h
  step-Done now (retry_op n) w h = h
  step-Done now (skip_op n) w h = skipped_more (skip_paused n w.db)
    where
      skipped_more : (r : Reply Db) → Done s e (skip_with n r w)
      skipped_more (refused x) = h
      skipped_more (ok d) = elim h [ inl x ↦ inl x | inr x ↦ inr (inr x) ]
  step-Done now (remove_op n) w h = h
  step-Done now (reset_op n start) w h = h
  step-Done now (retention_op cutoff) w h = h

  run-Done : (os : List (ℕ × Op)) (w : World) → Done s e w → Done s e (run os w)
  unfolding run
  run-Done [] w h = h
  run-Done ((now, op) ∷ os) w h = run-Done os (step now op w) (step-Done now op w h)

  run-Settled :
      (os : List (ℕ × Op)) (w : World)
      → All (λ (x : ℕ × Op). spares (x.1) ≡ true) os
      → Settled s e w
      → Settled s e (run os w)
  unfolding run
  run-Settled [] w p o = o
  run-Settled ((now, op) ∷ os) w (q, p) (inl o) =
      run-Settled os (step now op w) p (step-Settled now op w q o)
  run-Settled os w p (inr h) = inr (run-Done os w h)

-- At least once: an event that is owed to a durable subscriber stays owed to it until a handler has
-- handled it or an operator has skipped it, over any history in which the operator neither resets nor
-- removes that subscriber.
pub run_delivers :
    (s : Bytes) (e : Event) (os : List (ℕ × Op)) (w : World)
    → All (λ (x : ℕ × Op). spares s e (x.1) ≡ true) os
    → Owed s e w
    → Owed s e (run os w) ⊎ Done s e (run os w)
run_delivers s e os w p o = run-Settled s e os w p (inl o)
