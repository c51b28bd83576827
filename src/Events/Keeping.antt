-- ===== src/Events/Keeping.antt =====
-- What each transaction of internal/core/events leaves of the claim that a subscriber has on an event.
use control_center.Common.Word.{half64, le64, le64→le}
use control_center.Common.{
  ℕ, suc, ◌≤◌, ◌<◌, ◌≡◌, refl, ◌⊎◌, inl, inr, Bool, true, false, not, none, some, List, [], ◌∷◌,
  arith, if◌then◌else◌, ltb, Bool-cases, Option-cases, Bytes, bytes_eq, bytes_eq_iff, bytes_eq_refl,
  bytes_key, lookup, update, lookup-update, All, All-lookup, All-update, Has-append_left,
  Has-filter,
}
use control_center.Events.Log.{
  Event, Cursor, Db, Input, Reply, ok, refused, new_event, append_event, log_full, prepare,
  publish_tx,
}
use control_center.Events.Durable.{
  Sub, leased, acquire_lease, released, release_lease, advanced, advance_tx, poisoned, paused_input,
  record_failure, or_same, drop_id, mutate_paused, resumed, retry_paused, moved,
}
use control_center.Events.Cleanup.{pin_of, is_dropped, run_retention}
use control_center.Events.World.{published}
use control_center.Events.Rows.{Between-append, Between-filter, Between-Has, IsCounted, pin-le}
use control_center.Events.Owed.{RowOk, Holds}

module _ (s : Bytes) (e : Event) where
  -- An update of one row that keeps what the claim needs of it.
  pub Holds-update :
      (n : Bytes) (f : Cursor → Cursor) (d : Db)
      → ((j : Bytes) (c : Cursor) → bytes_eq j n ≡ true → RowOk s e (j, c) → RowOk s e (j, f c))
      → Holds s e d
      → Holds s e (record d { cursors = update n f d.cursors })
  Holds-update n f d h o = record {
    ordered = o.ordered;
    small = o.small;
    there = o.there;
    rows = All-update (RowOk s e) n f d.cursors h o.rows;
    known = ground (arith, o.known, lookup-update n s f d.cursors);
  }

  pub Holds-append :
      (x : Event) (d : Db)
      → x.id ≡ d.next_id
      → d.next_id < half64
      → Holds s e d
      → Holds s e (append_event x d)
  Holds-append x d q l o = record {
    ordered = Between-append 1 d.next_id x d.events o.ordered q;
    small = omega arith;
    there = Has-append_left e d.events (x ∷ []) o.there;
    rows = o.rows;
    known = o.known;
  }

  -- A publication appends a later event.
  pub Holds-publish :
      (now : ℕ) (i : Input) (d : Db) → Holds s e d → Holds s e (published d (publish_tx now i d))
  unfolding publish_tx
  Holds-publish now i d o =
      elim (prepare i)
        as (λ r. Holds s e (
          published d (elim r [
            | refused x ↦ refused x
            | ok payload ↦
                if ltb d.next_id half64
                then ok (d.next_id, append_event (new_event now d.next_id i payload) d)
                else refused log_full
          ]))) [
            | refused x ↦ o
            | ok payload ↦ elim (Bool-cases (ltb d.next_id half64)) [
              | inl q ↦
                  rw q (Holds-append (new_event now d.next_id i payload) d refl (ground arith) o)
              | inr q ↦ rw q o
            ]
          ]

  -- Renewing or releasing a lease.
  pub Holds-lease :
      (now : ℕ) (owner : Bytes) (ttl : ℕ) (n : Bytes) (d : Db)
      → Holds s e d
      → Holds s e (acquire_lease now owner ttl n d).1
  unfolding acquire_lease
  Holds-lease now owner ttl n d o =
      ground (arith, Holds-update n (leased now owner ttl) d (λ j c q r. r) o)

  pub Holds-release : (owner n : Bytes) (d : Db) → Holds s e d → Holds s e (release_lease owner n d)
  unfolding release_lease
  Holds-release owner n d o = Holds-update n (released owner) d (λ j c q r. ground arith) o

  pub Holds-advance :
      (n : Bytes) (id : ℕ) (d : Db)
      → id < half64
      → (bytes_eq n s ≡ true → id < e.id)
      → Holds s e d
      → Holds s e (advance_tx n id d)
  unfolding advance_tx
  Holds-advance n id d l q o =
      Holds-update n (advanced id) d (λ j c h r. ground (arith, bytes_eq_iff j n)) o

  pub Holds-settled :
      (d d' : Db) (r : Reply (ℕ × Db))
      → Holds s e d
      → Holds s e (published d' r)
      → Holds s e (or_same d (drop_id r))
  Holds-settled d d' (ok (id, x)) o h = h
  Holds-settled d d' (refused x) o h = o

  pub Holds-either :
      (b : Bool) (d x : Db) (r : Reply Db)
      → Holds s e (or_same d r)
      → Holds s e x
      → Holds s e (or_same d (if b then r else ok x))
  Holds-either true d x r h k = h
  Holds-either false d x r h k = k

  pub Holds-failure :
      (now : ℕ) (t : Sub) (f : Event) (msg payload : Bytes) (d : Db)
      → f.id < half64
      → (bytes_eq t.name s ≡ true → f.id ≤ e.id)
      → Holds s e d
      → Holds s e (or_same d (record_failure now t f msg payload d))
  unfolding record_failure
  Holds-failure now t f msg payload d l q o = elim (Option-cases (lookup t.name d.cursors)) [
    | inl h ↦ rw (h, record_failure) o
    | inr (c, h) ↦
        let d' = record d {
          cursors = update t.name (poisoned f.id (suc c.attempts) msg) d.cursors;
        } in
        rw (h, record_failure)
          (Holds-either (le64 t.retry.max_attempts (suc c.attempts)) d _ _
            (Holds-settled d d' (publish_tx now (paused_input t.name payload) d') o (
              Holds-publish now (paused_input t.name payload) d' (
                Holds-update t.name (poisoned f.id (suc c.attempts) msg) d
                  (λ j c h r. ground (arith, bytes_eq_iff j t.name)) o)))
            (Holds-update t.name _ d (λ j c h r. r) o))
  ]

  pub Holds-retry : (n : Bytes) (d : Db) → Holds s e d → Holds s e (or_same d (retry_paused n d))
  unfolding retry_paused mutate_paused
  Holds-retry n d o = ground (arith, Holds-update n resumed d (λ j c q r. r) o)

  -- Another subscriber's cursor goes anywhere that is not negative.
  pub Holds-moved :
      (n : Bytes) (f : Cursor → ℕ) (d : Db)
      → bytes_eq n s ≡ false
      → ((j : Bytes) (c : Cursor) → RowOk s e (j, c) → f c < half64)
      → Holds s e d
      → Holds s e (record d { cursors = update n (λ c. moved (f c) c) d.cursors })
  Holds-moved n f d h l o =
      Holds-update n (λ c. moved (f c) c) d (λ j c q r. ground (arith, bytes_eq_iff j n, l j c r)) o

  not_dropped :
      (cutoff pin last : ℕ)
      → pin ≤ last
      → last < e.id
      → e.id < half64
      → not (is_dropped cutoff pin e) ≡ true
  unfolding is_dropped
  not_dropped cutoff pin last p l k = ground (arith, le64→le e.id pin)

  -- A retention pass drops no event that a cursor is before.
  pub Holds-retention : (cutoff : ℕ) (d : Db) → Holds s e d → Holds s e (run_retention cutoff d).1
  unfolding run_retention
  Holds-retention cutoff d o = record {
    ordered = Between-filter _ 1 d.next_id d.events o.ordered;
    small = o.small;
    there = Has-filter _ e d.events o.there (kept (Option-cases (lookup s d.cursors)));
    rows = o.rows;
    known = o.known;
  }
    where
      counted : (cs : List (Bytes × Cursor)) → All (RowOk s e) cs → All IsCounted cs
      counted [] a = tt
      counted ((n, c) ∷ cs) (r, a) = (r.0, counted cs a)

      kept :
          (lookup s d.cursors ≡ none) ⊎ ((c : Cursor) × (lookup s d.cursors ≡ some c))
          → not (is_dropped cutoff (pin_of d.cursors).0 e) ≡ true
      kept (inl h) = absurd (ground (arith, o.known))
      kept (inr (c, h)) =
          not_dropped cutoff (pin_of d.cursors).0 c.last_event_id
            (pin-le d.cursors s c (counted d.cursors o.rows) h)
            ((All-lookup (RowOk s e) s c d.cursors h o.rows).2 (bytes_eq_refl s))
            (omega (arith, Between-Has 1 d.next_id e d.events o.ordered o.there, o.small))
