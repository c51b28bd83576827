-- ===== src/Jobs/Slots.antt =====
-- considerSlot of internal/core/jobs/cron.go, twice for one slot.
use control_center.Common.{◌≡◌, ℕ, true, List, [], ◌∷◌, arith, Bytes, codes, bytes_eq_refl}
use control_center.Jobs.Types.{Def, Db, Schedule, Verdict}
use control_center.Jobs.Queue.{EnqueueOpts, ok, enqueue_tx, insert_job}
use control_center.Jobs.Schedules.{last_slot, put_slot, marked, cron_opts, slot_tx, consider_slot}

last-put_slot :
    (plugin name timezone slot : Bytes) (ss : List Schedule)
    → last_slot plugin name (put_slot plugin name timezone slot ss) ≡ slot
unfolding last_slot put_slot
last-put_slot plugin name timezone slot [] =
    ground (arith, bytes_eq_refl plugin, bytes_eq_refl name)
last-put_slot plugin name timezone slot (s ∷ ss) =
    ground (arith, last-put_slot plugin name timezone slot ss)

enqueue_tx-schedules :
    (now : ℕ) (plugin : Bytes) (def : Def) (args : Bytes) (o : EnqueueOpts) (d : Db)
    → (enqueue_tx now plugin def args o d).1.schedules ≡ d.schedules
unfolding enqueue_tx insert_job
enqueue_tx-schedules now plugin def args o d = ground arith

-- Once a matching slot has been considered, admitted or not, considering it again changes nothing,
-- whatever the policy says by then.
pub slot_once :
    (now later : ℕ) (gate gate' : Bytes → Verdict) (plugin : Bytes) (def : Def)
    (timezone slot : Bytes) (d e : Db)
    → consider_slot now gate plugin def timezone slot true d ≡ ok e
    → consider_slot later gate' plugin def timezone slot true e ≡ ok e
unfolding consider_slot slot_tx
slot_once now later gate gate' plugin def timezone slot d e h = ground (
  arith,
  last-put_slot plugin def.name timezone slot d.schedules,
  enqueue_tx-schedules now plugin def (codes "{}") (cron_opts slot)
      (marked plugin def timezone slot d),
  bytes_eq_refl slot,
)
