-- ===== src/Events/Polling.antt =====
-- internal/core/events: what a poll decides on, and the claim of a subscriber on an event.
use control_center.Common.Word.{half64, le64, le64→le}
use control_center.Common.{
  ℕ, zero, suc, ◌≤◌, ◌<◌, ◌≡◌, refl, inl, inr, Bool, true, false, not, Option, none, some, List, [],
  ◌∷◌, arith, if◌then◌else◌, ltb, Bool-cases, Bytes, bytes_eq, bytes_key, lookup, All-lookup, Has,
  take, filter, Has-filter,
}
use control_center.Events.Pattern.{matches}
use control_center.Events.Log.{Event, Cursor, CursorState, active, paused, Db, is_above, read_after}
use control_center.Events.Durable.{
  Sub, acquire_lease, skip_to, Work, wait, decide, decide_cursor, is_waiting, poll,
}
use control_center.Events.Rows.{
  Between, Between-filter, Between-Has, skip_to-lt, skip_to-bounded, first-le,
}
use control_center.Events.Owed.{RowOk, WorkOk, SubOk, Holds}
use control_center.Events.Keeping.{Holds-lease}

module _ (s : Bytes) (e : Event) where
  decide-WorkOk :
      (t : Sub) (n hi : ℕ) (es : List Event)
      → Between 1 es hi
      → hi ≤ half64
      → (bytes_eq t.name s ≡ true → Has e es)
      → SubOk s e t
      → WorkOk s e (t, decide t (take n es))
  unfolding decide
  decide-WorkOk t zero hi es b l h m = tt
  decide-WorkOk t (suc n) hi [] b l h m = tt
  decide-WorkOk t (suc n) hi (x ∷ es) b l h m =
      elim (Bool-cases (ltb 0 (skip_to (matches t.segs) 0 (x ∷ take n es)))) [
        | inl q ↦
            rw (q, decide)
              (
                skip_to-bounded (matches t.segs) 1 hi (suc n) 0 half64 (x ∷ es) b (omega arith) l,
                λ r.
                    skip_to-lt (matches t.segs) 1 hi (suc n) 0 e (x ∷ es) b (omega arith)
                      (omega (arith, Between-Has 1 hi e (x ∷ es) b (h r))) (h r) (m r),
              )
        | inr q ↦
            rw (q, decide)
              (
                omega (arith, Between-Has 1 hi x (x ∷ es) b (inl refl)),
                λ r. first-le 1 hi (suc n) x (take n es) (x ∷ es) e b refl (h r),
              )
      ]

  above : (last id : ℕ) → last < id → id < half64 → not (le64 id last) ≡ true
  above last id l k = ground (arith, le64→le id last)

  -- What a poll decides on does not pass the event by.
  decide_cursor-WorkOk :
      (now : ℕ) (t : Sub) (c : Cursor) (st : CursorState) (d : Db)
      → Holds s e d
      → SubOk s e t
      → lookup t.name d.cursors ≡ some c
      → WorkOk s e (t, decide_cursor now t c st d)
  unfolding decide_cursor read_after
  decide_cursor-WorkOk now t c paused d o m h = tt
  decide_cursor-WorkOk now t c active d o m h = elim (Bool-cases (is_waiting now c.retry_at)) [
    | inl q ↦ rw (q, decide_cursor) tt
    | inr q ↦
        rw (q, decide_cursor)
          (decide-WorkOk t 100 d.next_id (filter (is_above c.last_event_id) d.events)
            (Between-filter (is_above c.last_event_id) 1 d.next_id d.events o.ordered) o.small
            (λ r. Has-filter (is_above c.last_event_id) e d.events o.there (
              above c.last_event_id e.id ((All-lookup (RowOk s e) t.name c d.cursors h o.rows).2 r)
                (omega (arith, o.small, Between-Has 1 d.next_id e d.events o.ordered o.there))))
            m)
  ]

  pub poll-WorkOk :
      (now : ℕ) (owner : Bytes) (ttl : ℕ) (t : Sub) (d : Db)
      → Holds s e d
      → SubOk s e t
      → WorkOk s e (t, (poll now owner ttl t d).0) × Holds s e (poll now owner ttl t d).1
  unfolding poll
  poll-WorkOk now owner ttl t d o m =
      let d' = (acquire_lease now owner ttl t.name d).1 in
      let o' = Holds-lease s e now owner ttl t.name d o in
      (
        held-WorkOk (acquire_lease now owner ttl t.name d).0 _
            (found-WorkOk (lookup t.name d'.cursors) refl),
        o',
      )
    where
      held-WorkOk :
          (b : Bool) (k : Work) → WorkOk s e (t, k) → WorkOk s e (t, if b then k else wait)
      held-WorkOk true k h = h
      held-WorkOk false k h = tt

      found-WorkOk :
          (l : Option Cursor)
          → lookup t.name (acquire_lease now owner ttl t.name d).1.cursors ≡ l
          → WorkOk s e (
            t,
            elim l [
              | none ↦ wait
              | some c ↦ decide_cursor now t c c.state (acquire_lease now owner ttl t.name d).1
            ],
          )
      found-WorkOk none q = tt
      found-WorkOk (some c) q =
          decide_cursor-WorkOk now t c c.state (acquire_lease now owner ttl t.name d).1
            (Holds-lease s e now owner ttl t.name d o) m q
