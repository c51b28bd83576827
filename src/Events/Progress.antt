-- ===== src/Events/Progress.antt =====
-- internal/core/events/durable.go: leases, what a poll finds, and how failures end.
use control_center.Common.Word.{half64, le64, le→le64}
use control_center.Common.{
  ℕ, zero, suc, ◌≤◌, ◌<◌, ◌≡◌, refl, inl, Bool, true, false, not, some, List, [], ◌∷◌, arith,
  if◌then◌else◌, Bytes, bytes_eq, bytes_eq_refl, bytes_key, lookup, lookup-update, Has, take,
  filter, Has-filter, filter-Has,
}
use control_center.Stamp.{add_duration, stamp_lt}
use control_center.Events.Pattern.{matches}
use control_center.Events.Log.{Event, Cursor, active, Db, ok, publish_tx, is_above, read_after}
use control_center.Events.Durable.{
  Sub, leased, may_lease, acquire_lease, skip_to, Work, wait, advance_to, deliver, decide,
  decide_cursor, is_waiting, poll, record_failure, poisoned, retried, retry_delay,
}
use control_center.Events.Rows.{Between, Between-filter, Between-Has}

-- While a lease lasts, another process does not get it, and its attempt changes nothing.
pub lease_excludes :
    (now later : ℕ) (owner other : Bytes) (ttl ttl' : ℕ) (n : Bytes) (d d' : Db)
    → acquire_lease now owner ttl n d ≡ (true, d')
    → bytes_eq owner [] ≡ false
    → bytes_eq owner other ≡ false
    → stamp_lt (add_duration now ttl) later ≡ false
    → acquire_lease later other ttl' n d' ≡ (false, d')
unfolding acquire_lease may_lease
lease_excludes now later owner other ttl ttl' n d d' h e o l =
    ground (arith, bytes_eq_refl n, lookup-update n n (leased now owner ttl) d.cursors)

-- The work takes the cursor past `last`.
abbrev pub Moves : ℕ → Work → Type 0
Moves last wait = ⊥
Moves last (advance_to id) = last < id
Moves last (deliver f) = last < f.id

skip_to-ge :
    (m : Bytes → Bool) (lo hi n last : ℕ) (es : List Event)
    → Between lo es hi
    → last < lo
    → last ≤ skip_to m last (take n es)
unfolding skip_to
skip_to-ge m lo hi zero last es b l = omega arith
skip_to-ge m lo hi (suc n) last [] b l = omega arith
skip_to-ge m lo hi (suc n) last (x ∷ es) b l =
    ground (arith, skip_to-ge m (suc x.id) hi n x.id es b.1 (omega arith))

decide-Moves :
    (t : Sub) (last lo hi n : ℕ) (x : Event) (es : List Event)
    → Between lo (x ∷ es) hi
    → last < x.id
    → Moves last (decide t (take (suc n) (x ∷ es)))
unfolding decide skip_to
decide-Moves t last lo hi n x es b l =
    ground (arith, skip_to-ge (matches t.segs) (suc x.id) hi n x.id es b.1 (omega arith))

pub is_above-lt :
    (last id : ℕ) → last < half64 → id < half64 → not (le64 id last) ≡ true → last < id
is_above-lt last id l k h = ground (arith, le→le64 id last)

batch-Moves :
    (t : Sub) (last hi : ℕ) (e : Event) (es : List Event)
    → Between 1 es hi
    → hi ≤ half64
    → last < half64
    → Has e (filter (is_above last) es)
    → Moves last (decide t (take 100 (filter (is_above last) es)))
batch-Moves t last hi e es b l k h =
    go (filter (is_above last) es) (Between-filter (is_above last) 1 hi es b) h
      (λ x. filter-Has (is_above last) x es)
  where
    go :
        (xs : List Event)
        → Between 1 xs hi
        → Has e xs
        → ((x : Event) → Has x xs → Has x es × (is_above last x ≡ true))
        → Moves last (decide t (take 100 xs))
    go [] b h all = absurd h
    go (x ∷ xs) b h all = decide-Moves t last 1 hi 99 x xs b (
        is_above-lt last x.id k (omega (arith, Between-Has 1 hi x (x ∷ xs) b (inl refl)))
          ((all x (inl refl)).1))

-- Progress: where the log is in order of its ids and the cursor is not negative, a poll by a process
-- that may take the lease, of an active cursor whose backoff is over, finds work that takes the cursor
-- forward, if any event of the log is above it.
pub poll_progress :
    (now : ℕ) (owner : Bytes) (ttl : ℕ) (t : Sub) (e : Event) (c : Cursor) (d : Db)
    → Between 1 d.events d.next_id
    → d.next_id ≤ half64
    → lookup t.name d.cursors ≡ some c
    → may_lease now owner c ≡ true
    → c.state ≡ active
    → is_waiting now c.retry_at ≡ false
    → c.last_event_id < half64
    → Has e d.events
    → is_above c.last_event_id e ≡ true
    → Moves c.last_event_id (poll now owner ttl t d).0
unfolding poll acquire_lease decide_cursor read_after
poll_progress now owner ttl t e c d b l q may act wait_over k h a = ground (
  arith,
  bytes_eq_refl t.name,
  lookup-update t.name t.name (leased now owner ttl) d.cursors,
  batch-Moves t c.last_event_id d.next_id e d.events b l k
      (Has-filter (is_above c.last_event_id) e d.events h a),
)

-- A recorded failure of a subscriber with a cursor counts one attempt and leaves its position. Below
-- the threshold it stays in its state and waits for the backoff of that attempt. At the threshold the
-- subscription pauses on the event, and one event is published under the next id.
pub failure_branches :
    (now : ℕ) (t : Sub) (e : Event) (msg payload : Bytes) (c : Cursor) (d d' : Db)
    → lookup t.name d.cursors ≡ some c
    → record_failure now t e msg payload d ≡ ok d'
    → lookup t.name d'.cursors
        ≡ some (
            if le64 t.retry.max_attempts (suc c.attempts)
            then poisoned e.id (suc c.attempts) msg c
            else retried
                (suc c.attempts)
                (add_duration now (retry_delay t.retry (suc c.attempts)))
                msg
                c)
      × (d'.next_id
          ≡ (if le64 t.retry.max_attempts (suc c.attempts) then suc d.next_id else d.next_id))
unfolding record_failure publish_tx
failure_branches now t e msg payload c d d' q h = ground (
  arith,
  bytes_eq_refl t.name,
  lookup-update t.name t.name (poisoned e.id (suc c.attempts) msg) d.cursors,
  lookup-update t.name t.name
      (retried (suc c.attempts) (add_duration now (retry_delay t.retry (suc c.attempts))) msg)
      d.cursors,
)
