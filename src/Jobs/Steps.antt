-- ===== src/Jobs/Steps.antt =====
-- Histories of internal/core/jobs: its transactions as steps.
use control_center.Common.{ℕ, Bool, List, [], ◌∷◌, Bytes}
use control_center.Jobs.Types.{Job, Def, Backoff, Db, Verdict}
use control_center.Jobs.Queue.{EnqueueOpts, Reply, ok, refused, enqueue, cancel, run_retention}
use control_center.Jobs.Schedules.{consider_slot, catch_up}
use control_center.Jobs.Worker.{
  Claim, idle, retired, exhausted, took, errored, claim_one, heartbeat, Ending, finish, progress,
  flush_logs,
}

-- The transactions that write the queue's tables. An attempt writes from the snapshot `j` that it was
-- given, whenever that was.
pub data Op : Type 0 where
  enqueue_op : (plugin : Bytes) (def : Def) (args : Bytes) (o : EnqueueOpts) → Op
  cancel_op : (id : ℕ) (reason require_plugin : Bytes) → Op
  claim_op : (owner : Bytes) (ttl : ℕ) → Op
  beat_op : (id : ℕ) (owner : Bytes) (fence ttl : ℕ) → Op
  finish_op : (b : Backoff) (j : Job) (owner : Bytes) (fence : ℕ) (e : Ending) → Op
  progress_op : (j : Job) (owner : Bytes) (fence : ℕ) (message : Bytes) (emit : Bool) → Op
  logs_op : (j : Job) (owner : Bytes) (fence : ℕ) (lines : List Bytes) → Op
  slot_op : (plugin : Bytes) (def : Def) (timezone slot : Bytes) (matched : Bool) → Op
  catch_up_op : (slot_of : Bytes → Bytes) (plugin : Bytes) → Op
  retention_op : (cutoff : ℕ) → Op

-- A refused transaction rolls back.
abbrev pub settle : Db → Reply Db → Db
settle d (ok e) = e
settle d (refused x) = d

abbrev pub settle_enqueue : Db → Reply (ℕ × Db) → Db
settle_enqueue d (ok (id, e)) = e
settle_enqueue d (refused x) = d

abbrev pub settle_claim : Db → Claim → Db
settle_claim d idle = d
settle_claim d (retired e) = e
settle_claim d (exhausted e) = e
settle_claim d (took j e) = e
settle_claim d errored = d

unfoldable pub step : ℕ → (Bytes → Verdict) → Op → Db → Db
step now gate (enqueue_op plugin def args o) d =
    settle_enqueue d (enqueue now gate plugin def args o d)
step now gate (cancel_op id reason require_plugin) d =
    settle d (cancel now id reason require_plugin d)
step now gate (claim_op owner ttl) d = settle_claim d (claim_one now gate owner ttl d)
step now gate (beat_op id owner fence ttl) d = settle d (heartbeat now id owner fence ttl d)
step now gate (finish_op b j owner fence e) d = settle d (finish now b j owner fence e d)
step now gate (progress_op j owner fence message emit) d =
    settle d (progress j owner fence message emit d)
step now gate (logs_op j owner fence lines) d = settle d (flush_logs now j owner fence lines d)
step now gate (slot_op plugin def timezone slot matched) d =
    settle d (consider_slot now gate plugin def timezone slot matched d)
step now gate (catch_up_op slot_of plugin) d = record d {
  schedules = catch_up slot_of plugin d.schedules;
}
step now gate (retention_op cutoff) d = run_retention cutoff d

unfoldable pub run : List (ℕ × (Bytes → Verdict) × Op) → Db → Db
run [] d = d
run ((now, gate, o) ∷ os) d = run os (step now gate o d)
