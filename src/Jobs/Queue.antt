-- ===== src/Jobs/Queue.antt =====
-- internal/core/jobs/enqueue.go, queue.go, retention.go and enqueueTx of cron.go.
use control_center.Common.{
  ℕ, suc, ◌+◌, ◌-◌, Bool, false, not, ◌&&◌, Option, none, some, List, [], ◌∷◌, if◌then◌else◌, ◌==◌,
  ltb, Bytes, bytes_eq,
}
use control_center.Stamp.{stamp_lt}
use control_center.Backoff.{delay_rounds}
use control_center.Jobs.Types.{
  State, pending, running, retry_wait, succeeded, failed, dead, cancel_requested, cancelled,
  is_terminal, Backoff, Def, Job, LogLine, Event, enqueued_event, cancelled_event, Db, Verdict,
  allowed, denied, broken, Error, unknown_job, plugin_mismatch, already_terminal, gate_error,
  plugin_disabled,
}

-- UPDATE core_jobs SET … WHERE …
unfoldable pub update_where : (Job → Bool) → (Job → Job) → List Job → List Job
update_where p f [] = []
update_where p f (j ∷ js) = (if p j then f j else j) ∷ update_where p f js

-- RowsAffected
unfoldable pub affected : (Job → Bool) → List Job → ℕ
affected p [] = 0
affected p (j ∷ js) = (if p j then 1 else 0) + affected p js

-- SELECT … WHERE …, of which the first row is read.
unfoldable pub first_where : (Job → Bool) → List Job → Option Job
first_where p [] = none
first_where p (j ∷ js) = if p j then some j else first_where p js

-- DELETE … WHERE …
unfoldable pub delete_where : (Job → Bool) → List Job → List Job
delete_where p [] = []
delete_where p (j ∷ js) = let rest = delete_where p js in if p j then rest else j ∷ rest

abbrev pub has_id : ℕ → Job → Bool
has_id id j = j.id == id

unfoldable pub read_job : ℕ → Db → Option Job
read_job id d = first_where (has_id id) d.jobs

-- PublishTx, for a payload within the limit of its size.
abbrev pub publish : Event → Db → Db
publish e d = record d { published = e ∷ d.published }

-- BackoffPolicy.delay
unfoldable pub delay : Backoff → ℕ → ℕ
delay b attempt = delay_rounds (attempt - 1) b.maximum b.initial

-- enqueueOpts
pub record EnqueueOpts : Type 0 where
  pub run_at : Option ℕ
  pub idempotency_key : Bytes
  pub priority : ℕ

abbrev pub key_is : Option Bytes → Bytes → Bool
key_is none k = false
key_is (some a) k = bytes_eq a k

-- The rows that the unique index on idempotency keys covers.
unfoldable pub has_key : Bytes → Bytes → Bytes → Job → Bool
has_key plugin name key j =
    bytes_eq j.plugin_id plugin
    && bytes_eq j.name name
    && key_is j.idempotency_key key
    && not (is_terminal j.state)

abbrev pub or_now : Option ℕ → ℕ → ℕ
or_now none now = now
or_now (some t) now = t

abbrev pub key_column : Bytes → Option Bytes
key_column [] = none
key_column (c ∷ s) = some (c ∷ s)

unfoldable pub new_job : ℕ → ℕ → Bytes → Def → Bytes → EnqueueOpts → Job
new_job now id plugin def args o = record {
  id = id;
  plugin_id = plugin;
  name = def.name;
  args = args;
  state = pending;
  attempt = 0;
  max_attempts = def.max_attempts;
  concurrency = def.concurrency;
  priority = o.priority;
  idempotency_key = key_column o.idempotency_key;
  run_at = or_now o.run_at now;
  next_retry_at = none;
  lease_owner = [];
  lease_expires_at = none;
  fence_generation = 0;
  cancel_reason = [];
  started_at = none;
  finished_at = none;
  progress_message = [];
  last_error = [];
  last_error_class = [];
  created_at = now;
}

unfoldable pub insert_job : ℕ → Bytes → Def → Bytes → EnqueueOpts → Db → ℕ × Db
insert_job now plugin def args o d = (
  d.next_id,
  publish (enqueued_event d.next_id) (record d {
    jobs = new_job now d.next_id plugin def args o ∷ d.jobs;
    next_id = suc d.next_id;
  }),
)

-- enqueueTx: an idempotency key that a job in flight holds returns that job.
unfoldable pub enqueue_tx : ℕ → Bytes → Def → Bytes → EnqueueOpts → Db → ℕ × Db
enqueue_tx now plugin def args o d =
    if bytes_eq o.idempotency_key []
    then insert_job now plugin def args o d
    else elim (first_where (has_key plugin def.name o.idempotency_key) d.jobs) [
      | some j ↦ (j.id, d)
      | none ↦ insert_job now plugin def args o d
    ]

pub data Reply {ℓ} (A : Type ℓ) : Type ℓ where
  ok : A → Reply A
  refused : Error → Reply A

-- Enqueue, past the lookup of the definition and the marshalling of the arguments.
unfoldable pub enqueue :
    ℕ → (Bytes → Verdict) → Bytes → Def → Bytes → EnqueueOpts → Db → Reply (ℕ × Db)
enqueue now gate plugin def args o d = elim (gate plugin) [
  | allowed ↦ ok (enqueue_tx now plugin def args o d)
  | denied ↦ refused plugin_disabled
  | broken ↦ refused gate_error
]

abbrev pub cancel_row : ℕ → Bytes → Job → Job
cancel_row now reason j = record j {
  state = cancelled;
  cancel_reason = reason;
  finished_at = some now;
}

abbrev pub request_row : Bytes → Job → Job
request_row reason j = record j { state = cancel_requested; cancel_reason = reason }

-- The switch of cancel on the state of the row that it read.
unfoldable pub cancel_state : ℕ → Bytes → Job → Db → State → Reply Db
cancel_state now reason j d cancelled = ok d
cancel_state now reason j d succeeded = refused already_terminal
cancel_state now reason j d failed = refused already_terminal
cancel_state now reason j d dead = refused already_terminal
cancel_state now reason j d pending = ok (
    publish (cancelled_event j.id j.attempt reason)
      (record d { jobs = update_where (has_id j.id) (cancel_row now reason) d.jobs }))
cancel_state now reason j d retry_wait = ok (
    publish (cancelled_event j.id j.attempt reason)
      (record d { jobs = update_where (has_id j.id) (cancel_row now reason) d.jobs }))
cancel_state now reason j d running =
    ok (record d { jobs = update_where (has_id j.id) (request_row reason) d.jobs })
cancel_state now reason j d cancel_requested =
    ok (record d { jobs = update_where (has_id j.id) (request_row reason) d.jobs })

-- The transaction of cancel. An empty `require_plugin` asks for no plugin in particular.
unfoldable pub cancel : ℕ → ℕ → Bytes → Bytes → Db → Reply Db
cancel now id reason require_plugin d = elim (read_job id d) [
  | none ↦ refused unknown_job
  | some j ↦
      if not (bytes_eq require_plugin []) && not (bytes_eq j.plugin_id require_plugin)
      then refused plugin_mismatch
      else cancel_state now reason j d j.state
]

-- coalesce(nullif(finished_at, ''), created_at)
abbrev pub ended_at : Job → ℕ
ended_at j = or_now j.finished_at j.created_at

abbrev pub is_expired : ℕ → Job → Bool
is_expired cutoff j = is_terminal j.state && stamp_lt (ended_at j) cutoff

unfoldable pub drop_logs : ℕ → List Job → List LogLine → List LogLine
drop_logs cutoff js [] = []
drop_logs cutoff js (l ∷ ls) =
    let rest = drop_logs cutoff js ls in
    if ltb 0 (affected (λ j. has_id l.job_id j && is_expired cutoff j) js) then rest else l ∷ rest

-- RunRetention, with the cutoff that it computes.
unfoldable pub run_retention : ℕ → Db → Db
run_retention cutoff d = record d {
  jobs = delete_where (is_expired cutoff) d.jobs;
  logs = drop_logs cutoff d.jobs d.logs;
}
