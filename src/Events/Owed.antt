-- ===== src/Events/Owed.antt =====
-- The claim that a durable subscriber has on an event of the log, and the rows and the work that must
-- not pass it by.
use control_center.Common.Word.{half64}
use control_center.Common.{
  ◌≤◌, ◌<◌, ◌≡◌, ◌⊎◌, Bool, true, false, none, some, Bytes, bytes_eq, bytes_key, lookup, All, Has,
}
use control_center.Events.Pattern.{compile_pattern, matches}
use control_center.Events.Log.{Event, Cursor, Db}
use control_center.Events.Durable.{Sub, Work, wait, advance_to, deliver}
use control_center.Events.World.{World}
use control_center.Events.Rows.{Between}

abbrev pub pattern_matches : Bytes → Event → Bool
pattern_matches p e = elim (compile_pattern p) [ none ↦ false | some segs ↦ matches segs e.type ]

-- A handler has handled the event for the subscriber, or an operator has skipped it.
abbrev pub Done : Bytes → Event → World → Type 0
Done s e w = Has (s, e.id) w.delivered ⊎ Has (s, e.id) w.skipped

module _ (s : Bytes) (e : Event) where
  -- The subscriber's cursor is before the event; no position is negative.
  abbrev pub RowOk : Bytes × Cursor → Type 0
  RowOk (n, c) =
      (c.last_event_id < half64)
      × (c.failed_event_id < half64)
      × (bytes_eq n s ≡ true → c.last_event_id < e.id)
      × (bytes_eq n s ≡ true → c.failed_event_id ≤ e.id)
      × (bytes_eq n s ≡ true → pattern_matches c.pattern e ≡ true)

  -- No decided work of the subscriber passes the event by.
  abbrev pub WorkOk : Sub × Work → Type 0
  WorkOk (t, wait) = Unit
  WorkOk (t, advance_to id) = (id < half64) × (bytes_eq t.name s ≡ true → id < e.id)
  WorkOk (t, deliver f) = (f.id < half64) × (bytes_eq t.name s ≡ true → f.id ≤ e.id)

  abbrev pub SubOk : Sub → Type 0
  SubOk t = bytes_eq t.name s ≡ true → matches t.segs e.type ≡ true

  abbrev pub is_known : Db → Bool
  is_known d = elim (lookup s d.cursors) [ none ↦ false | some _ ↦ true ]

  -- What the tables hold for the claim.
  pub record Holds (d : Db) : Type 0 where
    pub ordered : Between 1 d.events d.next_id
    pub small : d.next_id ≤ half64
    pub there : Has e d.events
    pub rows : All RowOk d.cursors
    pub known : is_known d ≡ true

  pub record Owed (w : World) : Type 0 where
    pub tables : Holds w.db
    pub works : All WorkOk w.pending
    pub subs : All SubOk w.subs
