-- ===== src/Jobs/Tests.antt =====
-- Runs of the model of the queue at concrete inputs.
use control_center.Common.{
  ℕ, ◌+◌, ◌*◌, ◌^◌, ◌≤◌, ◌≡◌, refl, true, none, some, List, [], ◌∷◌, arith, leb, Bytes, codes,
  bytes_eq, if◌then◌else◌,
}
use control_center.Stamp.{second, stamp_le, text_le, fraction_text}
use control_center.Jobs.Types.{
  started_event, is_active, Backoff, Def, Job, Db, Verdict, allowed, denied, lost_lease,
}
use control_center.Jobs.Queue.{
  EnqueueOpts, ok, refused, enqueue_tx, new_job, update_where, affected, delay,
}
use control_center.Jobs.Worker.{
  claim_one, claim_row, take_job, pick, eligible, claimable, claimed_row, fenced, snapshot, succeed,
}
use control_center.Jobs.Steps.{Op, claim_op, beat_op, finish_op, retention_op}
use control_center.Jobs.Ownership.{claim_fences_out, claim_respects_concurrency, peers}
use control_center.Jobs.Retries.{delay_exponential}
use control_center.Jobs.Due.{claimable_at_whole_second}
use control_center.Jobs.Idempotency.{enqueue_idempotent}
use control_center.Jobs.Schedules.{consider_slot, slot_tx, last_slot, put_slot}
use control_center.Jobs.Slots.{slot_once}

abbrev backoff : Backoff
backoff = record { initial = 5; maximum = 60 }

abbrev poll : Def
poll = record { name = codes "poll"; max_attempts = 3; concurrency = 1; backoff = backoff }

abbrev plain : EnqueueOpts
plain = record { run_at = none; idempotency_key = []; priority = 0 }

abbrev keyed : EnqueueOpts
keyed = record { run_at = some 9; idempotency_key = codes "k"; priority = 2 }

abbrev tid : Bytes
tid = codes "tid"

abbrev worker_1 : Bytes
worker_1 = codes "w1"

abbrev worker_2 : Bytes
worker_2 = codes "w2"

-- One pending job, due at the instant 0.
abbrev queued : Job
queued = new_job 0 1 tid poll (codes "{}") plain

abbrev one_job : Db
one_job = record { jobs = queued ∷ []; next_id = 2; logs = []; schedules = []; published = [] }

abbrev empty_jobs : Db
empty_jobs = record one_job { jobs = []; next_id = 1 }

abbrev allow : Bytes → Verdict
allow p = allowed

abbrev taken : Job
taken = snapshot worker_1 queued

abbrev claimed : Db
claimed = record one_job {
  jobs = claimed_row 0 worker_1 30 queued queued ∷ [];
  published = (started_event 1 1 1) ∷ [];
}

abbrev history : List (ℕ × (Bytes → Verdict) × Op)
history =
    (0, allow, claim_op worker_1 30)
    ∷ (10, allow, beat_op 1 worker_1 1 30)
    ∷ (20, allow, finish_op backoff taken worker_1 1 succeed)
    ∷ (90, allow, retention_op 50)
    ∷ []

claim_fences_out_example : fenced 1 worker_2 0 (λ j. j) claimed ≡ refused lost_lease
unfolding claim_one pick eligible claimable new_job stamp_le text_le fraction_text affected bytes_eq
    is_active claim_row take_job update_where
claim_fences_out_example =
    claim_fences_out 0 allow worker_1 worker_2 30 0 (λ j. j) one_job claimed taken refl
      (λ e. omega (arith, e))

claim_respects_concurrency_example :
    (affected (peers taken) claimed.jobs ≤ 1) × (allow tid ≡ allowed) × (taken.attempt ≤ 3)
unfolding claim_one new_job pick eligible claimable stamp_le text_le fraction_text affected bytes_eq
    is_active claim_row take_job update_where
claim_respects_concurrency_example =
    claim_respects_concurrency 0 allow worker_1 30 one_job claimed taken (omega arith, tt) refl

delay_exponential_example :
    (delay backoff 3 ≡ (if leb 60 (5 * 2 ^ 2) then 60 else 5 * 2 ^ 2)) × (delay backoff 3 ≤ 60)
delay_exponential_example = delay_exponential backoff 3 (omega arith) (omega arith)

claimable_at_whole_second_example :
    claimable (7 * second + 500) (record queued { run_at = 7 * second }) ≡ leb second 500
unfolding new_job
claimable_at_whole_second_example =
    claimable_at_whole_second 7 500 (record queued { run_at = 7 * second }) refl refl (omega arith)

enqueue_idempotent_example :
    enqueue_tx 5 tid poll (codes "{}") keyed (enqueue_tx 3 tid poll (codes "[]") keyed one_job).1
    ≡ enqueue_tx 3 tid poll (codes "[]") keyed one_job
unfolding bytes_eq
enqueue_idempotent_example =
    enqueue_idempotent 3 5 tid poll (codes "[]") (codes "{}") keyed keyed one_job refl refl

abbrev slot_0900 : Bytes
slot_0900 = codes "2026-03-09T09:00"

abbrev utc : Bytes
utc = codes "UTC"

abbrev considered : Db
considered = record empty_jobs {
  schedules =
      record { plugin_id = tid; job_name = codes "poll"; timezone = utc; last_slot = slot_0900 }
      ∷ [];
}

-- The slot that a disabled plugin missed is not enqueued when the plugin is enabled again.
slot_once_example : consider_slot 60 allow tid poll utc slot_0900 true considered ≡ ok considered
unfolding consider_slot slot_tx bytes_eq last_slot put_slot
slot_once_example =
    slot_once 0 60 (λ p. denied) allow tid poll utc slot_0900 empty_jobs considered refl
