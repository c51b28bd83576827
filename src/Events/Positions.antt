-- ===== src/Events/Positions.antt =====
-- internal/core/events: cursors that a subscription opens and that an operator moves or removes, and the
-- claim of a subscriber on an event.
use control_center.Common.Word.{half64}
use control_center.Common.{
  ℕ, suc, ◌≤◌, ◌<◌, ◌≡◌, refl, ◌⊎◌, inl, inr, Bool, true, false, not, ◌||◌, Option, none, some,
  List, [], ◌∷◌, arith, if◌then◌else◌, Bool-cases, Option-cases, Bytes, bytes_eq, bytes_eq_iff,
  bytes_key, lookup, upsert, lookup-upsert, lookup-delete, All, All-lookup, All-delete, All-upsert,
}
use control_center.Events.Pattern.{compile_pattern, matches}
use control_center.Events.Log.{Event, Db, Reply, ok, refused}
use control_center.Events.Durable.{
  Start, from_beginning, from_now, unknown_start, after_event, Sub, RetryPolicy, ensure_cursor,
  new_cursor, start_position, open_subscription, subscribe_durable, or_same, reset_position,
  reset_cursor, remove_subscriber,
}
use control_center.Events.Rows.{Between, Between-Has}
use control_center.Events.Owed.{RowOk, SubOk, Holds}
use control_center.Events.Log.{max_id, tail_tx}
use control_center.Events.Pattern.{Error}
use control_center.Events.Log.{invalid, bad_retry}
use control_center.Events.Durable.{or_default, valid_retry, valid_durable_name}
use control_center.Events.World.{opened, reset_action}
use control_center.Events.Keeping.{Holds-moved}

max_id-lt : (lo hi k : ℕ) (es : List Event) → Between lo es hi → hi ≤ k → 0 < k → max_id es < k
unfolding max_id
max_id-lt lo hi k [] b h p = p
max_id-lt lo hi k (x ∷ es) b h p =
    ground (arith, max_id-lt (suc x.id) hi k es b.1 h p, Between-Has lo hi x (x ∷ es) b (inl refl))

start_position-lt :
    (start : Start) (d : Db) (x : ℕ)
    → Between 1 d.events d.next_id
    → d.next_id ≤ half64
    → start_position start d ≡ ok x
    → x < half64
unfolding start_position tail_tx
start_position-lt from_beginning d x b l h = ground arith
start_position-lt from_now d x b l h =
    ground (arith, max_id-lt 1 d.next_id half64 d.events b l (omega arith))
start_position-lt unknown_start d x b l h = cc
start_position-lt (after_event id) d x b l h = ground arith

module _ (s : Bytes) (e : Event) where
  -- A new cursor of another subscriber.
  Holds-insert :
      (n pattern : Bytes) (at : ℕ) (d : Db)
      → bytes_eq n s ≡ false
      → at < half64
      → Holds s e d
      → Holds s e (record d { cursors = upsert n (new_cursor pattern at) d.cursors })
  Holds-insert n pattern at d h l o = record {
    ordered = o.ordered;
    small = o.small;
    there = o.there;
    rows = All-upsert (RowOk s e) n (new_cursor pattern at) d.cursors (ground arith) o.rows;
    known = ground (arith, o.known, lookup-upsert n s (new_cursor pattern at) d.cursors);
  }

  -- A subscription keeps the claim, and only the cursor's own pattern opens one for its name.
  abbrev Subscribed : List Bytes → Bytes → Reply Db → Db → Type 0
  Subscribed segs n (refused x) d = Unit
  Subscribed segs n (ok d') d = Holds s e d' × (bytes_eq n s ≡ true → matches segs e.type ≡ true)

  ensure-Subscribed :
      (n pattern : Bytes) (start : Start) (segs : List Bytes) (d : Db)
      → compile_pattern pattern ≡ some segs
      → Holds s e d
      → Subscribed segs n (ensure_cursor n pattern start d) d
  unfolding ensure_cursor
  ensure-Subscribed n pattern start segs d h o = elim (Option-cases (lookup n d.cursors)) [
    | inl q ↦ rw (q, ensure_cursor) (started q (Bool-cases (bytes_eq n s)))
    | inr (c, q) ↦ elim (Bool-cases (bytes_eq c.pattern pattern)) [
      | inl p ↦
          rw (q, ensure_cursor)
            (rw p (
              o,
              λ r. ground (
                arith,
                (All-lookup (RowOk s e) n c d.cursors q o.rows).4 r,
                bytes_eq_iff c.pattern pattern,
              ),
            ))
      | inr p ↦ rw (q, ensure_cursor) (rw p tt)
    ]
  ]
    where
      at_start :
          (at : Reply ℕ)
          → bytes_eq n s ≡ false
          → ((x : ℕ) → at ≡ ok x → x < half64)
          → Subscribed segs n
              (elim at [
                | refused x ↦ refused x
                | ok at ↦ ok (record d { cursors = upsert n (new_cursor pattern at) d.cursors })
              ])
              d
      at_start (refused x) p l = tt
      at_start (ok x) p l = (Holds-insert n pattern x d p (l x refl) o, λ r. cc)

      started :
          lookup n d.cursors ≡ none
          → (bytes_eq n s ≡ true) ⊎ (bytes_eq n s ≡ false)
          → Subscribed segs n
              (elim (start_position start d) [
                | refused x ↦ refused x
                | ok at ↦ ok (record d { cursors = upsert n (new_cursor pattern at) d.cursors })
              ])
              d
      started q (inl p) = absurd (ground (arith, o.known, bytes_eq_iff n s))
      started q (inr p) =
          at_start (start_position start d) p
            (λ x r. start_position-lt start d x o.ordered o.small r)

  pub Holds-remove :
      (n : Bytes) (d : Db) → bytes_eq n s ≡ false → Holds s e d → Holds s e (remove_subscriber n d)
  unfolding remove_subscriber
  Holds-remove n d h o = record {
    ordered = o.ordered;
    small = o.small;
    there = o.there;
    rows = All-delete (RowOk s e) n d.cursors o.rows;
    known = ground (arith, o.known, lookup-delete n s d.cursors);
  }

  pub Holds-reset :
      (n : Bytes) (start : Start) (d : Db)
      → bytes_eq n s ≡ false
      → Holds s e d
      → Holds s e (or_same d (reset_action n start d))
  unfolding reset_action reset_cursor reset_position tail_tx
  Holds-reset n from_beginning d h o =
      ground (arith, Holds-moved s e n (λ _. 0) d h (λ j c r. omega arith) o)
  Holds-reset n from_now d h o = ground (
    arith,
    Holds-moved s e n (λ _. max_id d.events) d h
        (λ j c r. max_id-lt 1 d.next_id half64 d.events o.ordered o.small (omega arith)) o,
  )
  Holds-reset n unknown_start d h o = ground arith
  Holds-reset n (after_event id) d h o =
      ground (arith, λ (l : id < half64). Holds-moved s e n (λ _. id) d h (λ j c r. l) o)

  abbrev pub ReplyOk : Reply Sub → Type 0
  ReplyOk (ok t) = SubOk s e t
  ReplyOk (refused x) = Unit

  abbrev pub Opens : Reply Sub × Db → Type 0
  Opens (r, d) = Holds s e d × ReplyOk r

  Opens-if : (b : Bool) (x y : Reply Sub × Db) → Opens x → Opens y → Opens (if b then x else y)
  Opens-if true x y h k = h
  Opens-if false x y h k = k

  pub opened-All :
      (r : Reply Sub) (subs : List Sub)
      → ReplyOk r
      → All (SubOk s e) subs
      → All (SubOk s e) (opened r subs)
  opened-All (ok t) subs h a = (h, a)
  opened-All (refused x) subs h a = a

  pub subscribe-Opens :
      (n pattern : Bytes) (start : Start) (retry : RetryPolicy) (running : Bool) (d : Db)
      → Holds s e d
      → Opens (subscribe_durable n pattern start retry running d)
  unfolding subscribe_durable open_subscription
  subscribe-Opens n pattern start retry running d o =
      Opens-if (bytes_eq n [] || not (valid_durable_name n)) _ _ (o, tt)
        (compiled (compile_pattern pattern) refl)
    where
      ensured :
          (segs : List Bytes) (r : Reply Db)
          → Subscribed segs n r d
          → Opens (elim r [
            | refused x ↦ (refused x, d)
            | ok d' ↦ open_subscription n segs (or_default retry) running d'
          ])
      ensured segs (refused x) h = (o, tt)
      ensured segs (ok d') h = Opens-if running _ _ (h.0, tt) (h.0, h.1)

      compiled :
          (c : Option (List Bytes))
          → compile_pattern pattern ≡ c
          → Opens (elim c [
            | none ↦ (refused (invalid Error.invalid_pattern), d)
            | some segs ↦
                if valid_retry (or_default retry)
                then elim (ensure_cursor n pattern start d) [
                  | refused x ↦ (refused x, d)
                  | ok d' ↦ open_subscription n segs (or_default retry) running d'
                ]
                else (refused bad_retry, d)
          ])
      compiled none q = (o, tt)
      compiled (some segs) q =
          Opens-if (valid_retry (or_default retry)) _ _
            (ensured segs (ensure_cursor n pattern start d)
              (ensure-Subscribed n pattern start segs d q o))
            (o, tt)
