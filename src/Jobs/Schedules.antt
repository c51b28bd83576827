-- ===== src/Jobs/Schedules.antt =====
-- internal/core/jobs/cron.go: considerSlot and CatchUpSchedules. The slot key is the text of the local
-- wall minute; the location and the match of the expression against it are inputs.
use control_center.Common.{
  ℕ, Bool, ◌&&◌, none, List, [], ◌∷◌, ◌++◌, if◌then◌else◌, Bytes, codes, bytes_eq,
}
use control_center.Jobs.Types.{Def, Db, Schedule, Verdict, allowed, denied, broken, gate_error}
use control_center.Jobs.Queue.{EnqueueOpts, Reply, ok, refused, enqueue_tx}

abbrev pub is_schedule : Bytes → Bytes → Schedule → Bool
is_schedule plugin name s = bytes_eq s.plugin_id plugin && bytes_eq s.job_name name

-- SELECT last_slot …; no row leaves the empty text.
unfoldable pub last_slot : Bytes → Bytes → List Schedule → Bytes
last_slot plugin name [] = []
last_slot plugin name (s ∷ ss) =
    if is_schedule plugin name s then s.last_slot else last_slot plugin name ss

-- INSERT … ON CONFLICT(plugin_id, job_name) DO UPDATE
unfoldable pub put_slot : (plugin name timezone slot : Bytes) → List Schedule → List Schedule
put_slot plugin name timezone slot [] =
    record { plugin_id = plugin; job_name = name; timezone = timezone; last_slot = slot } ∷ []
put_slot plugin name timezone slot (s ∷ ss) =
    if is_schedule plugin name s
    then record s { timezone = timezone; last_slot = slot } ∷ ss
    else s ∷ put_slot plugin name timezone slot ss

abbrev pub cron_opts : Bytes → EnqueueOpts
cron_opts slot = record { run_at = none; idempotency_key = codes "cron:" ++ slot; priority = 0 }

abbrev pub marked : Bytes → Def → Bytes → Bytes → Db → Db
marked plugin def timezone slot d = record d {
  schedules = put_slot plugin def.name timezone slot d.schedules;
}

-- The transaction of considerSlot, for a slot that the expression matches.
unfoldable pub slot_tx :
    ℕ → (Bytes → Verdict) → (plugin : Bytes) → Def → (timezone slot : Bytes) → Db → Reply Db
slot_tx now gate plugin def timezone slot d =
    if bytes_eq (last_slot plugin def.name d.schedules) slot then ok d else elim (gate plugin) [
      | broken ↦ refused gate_error
      | denied ↦ ok (marked plugin def timezone slot d)
      | allowed ↦
          ok
            (enqueue_tx now plugin def (codes "{}") (cron_opts slot)
              (marked plugin def timezone slot d)).1
    ]

unfoldable pub consider_slot :
    ℕ
    → (Bytes → Verdict)
    → (plugin : Bytes) → Def
    → (timezone slot : Bytes) → (matched : Bool) → Db
    → Reply Db
consider_slot now gate plugin def timezone slot matched d =
    if matched then slot_tx now gate plugin def timezone slot d else ok d

-- CatchUpSchedules: `slot_of` is the slot key of the current minute in a time zone.
unfoldable pub catch_up :
    (slot_of : Bytes → Bytes) → (plugin : Bytes) → List Schedule → List Schedule
catch_up slot_of plugin [] = []
catch_up slot_of plugin (s ∷ ss) =
    (if bytes_eq s.plugin_id plugin then record s { last_slot = slot_of s.timezone } else s)
    ∷ catch_up slot_of plugin ss
