-- ===== src/Events/Retained.antt =====
-- RunRetention of internal/core/events/retention.go: the boundary of the log, and the cursors.
use control_center.Common.Word.{neg64, le→le64}
use control_center.Common.{
  ℕ, ◌≤◌, ◌<◌, ◌≡◌, refl, ap, inl, inr, Bool, true, not, leb, leb→le, List, [], ◌∷◌, arith,
  Bool-cases, Bytes, bytes_eq_refl, bytes_key, lookup, update, Has, filter, Has-filter, filter-Has,
}
use control_center.Stamp.{stamp_lt}
use control_center.Events.Log.{Event, Cursor, Db, ok, is_above, max_id}
use control_center.Events.Durable.{after_event, moved, reset_cursor, reset_position}
use control_center.Events.Cleanup.{is_lower, lowest, no_pin, pin_of, is_dropped, run_retention}

max_id-le : (e : Event) (es : List Event) → Has e es → e.id ≤ max_id es
unfolding max_id
max_id-le e [] h = absurd h
max_id-le e (x ∷ es) (inl q) = ground arith
max_id-le e (x ∷ es) (inr h) = ground (arith, max_id-le e es h)

-- A filter that spares what another selects does not change the selection.
filter-filter :
    (p q : Event → Bool) (es : List Event)
    → ((e : Event) → Has e es → p e ≡ true → q e ≡ true)
    → filter p (filter q es) ≡ filter p es
unfolding filter
filter-filter p q [] h = refl
filter-filter p q (e ∷ es) h =
    ground (arith, h e (inl refl), filter-filter p q es (λ x m. h x (inr m)))

-- What is at or above a position of the log, in order.
abbrev pub from_position : ℕ → List Event → List Event
from_position n es = filter (λ e. leb n e.id) es

-- No gap: a retention pass never lowers the resume boundary, whatever the log holds, and from the
-- boundary that it leaves on, the log holds the same events in the same order as before, so that a
-- client that resumes from there misses nothing of it.
pub retention_boundary :
    (cutoff : ℕ) (d : Db)
    → let d' = (run_retention cutoff d).1 in
      (d.oldest_retained ≤ d'.oldest_retained)
      × (from_position d'.oldest_retained d'.events ≡ from_position d'.oldest_retained d.events)
unfolding run_retention
retention_boundary cutoff d =
    let drop = is_dropped cutoff (pin_of d.cursors).0 in
    let boundary = (run_retention cutoff d).1.oldest_retained in
    (
      ground arith,
      filter-filter (λ e. leb boundary e.id) (λ e. not (drop e)) d.events
          (λ e h l. elim (Bool-cases (drop e)) [
            | inl q ↦ absurd (
                ground (
                  arith,
                  max_id-le e (filter drop d.events) (Has-filter drop e d.events h q),
                  leb→le boundary e.id l,
                ))
            | inr q ↦ rw q refl
          ]),
    )

reset-cursors :
    (id : ℕ) (name : Bytes) (c : Cursor) (d d' : Db)
    → d.cursors ≡ (name, c) ∷ []
    → reset_cursor name (after_event id) d ≡ ok d'
    → d'.cursors ≡ (name, moved id c) ∷ []
unfolding reset_cursor reset_position lookup update
reset-cursors id name c d d' one h = ground (arith, bytes_eq_refl name)

pin_of-negative :
    (name : Bytes) (c : Cursor)
    → neg64 c.last_event_id ≡ true
    → pin_of ((name, c) ∷ []) ≡ (no_pin, [])
unfolding pin_of lowest is_lower
pin_of-negative name c h = ground arith

dropped_below :
    (cutoff : ℕ) (e : Event)
    → e.id ≤ no_pin
    → stamp_lt e.created_at cutoff ≡ true
    → is_dropped cutoff no_pin e ≡ true
unfolding is_dropped
dropped_below cutoff e l h = ground (arith, le→le64 e.id no_pin)

-- ResetCursor takes a negative id, and RunRetention then reads it as "no cursor": where the
-- subscriber is the only one, a pass deletes an event past its age that is above its cursor.
pub negative_cursor_unpinned :
    (cutoff id : ℕ) (name : Bytes) (c : Cursor) (e : Event) (d d' : Db)
    → d.cursors ≡ (name, c) ∷ []
    → neg64 id ≡ true
    → id < 18446744073709551616
    → reset_cursor name (after_event id) d ≡ ok d'
    → e.id ≤ no_pin
    → stamp_lt e.created_at cutoff ≡ true
    → (is_above id e ≡ true) × ¬ Has e (run_retention cutoff d').1.events
unfolding run_retention
negative_cursor_unpinned cutoff id name c e d d' one neg word h small old =
    let pin : (pin_of d'.cursors).0 ≡ no_pin =
      rw (reset-cursors id name c d d' one h)
        (ap (λ (x : ℕ × Bytes). x.0) (pin_of-negative name (moved id c) neg)) in
    (
      ground arith,
      λ m.
          let gone : is_dropped cutoff (pin_of d'.cursors).0 e ≡ true =
            rw pin (dropped_below cutoff e small old) in
          let kept =
            (filter-Has (λ x. not (is_dropped cutoff (pin_of d'.cursors).0 x)) e d'.events m).1 in
          ground (arith, gone, kept),
    )
