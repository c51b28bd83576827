-- ===== src/Jobs/Types.antt =====
-- internal/core/jobs/jobs.go and the tables of migrations.go. The column `progress`, a real number, is
-- left out; an attempt's fence, owner and snapshot stand where the source keeps them in memory.
use control_center.Common.{ℕ, Bool, true, false, Option, List, Bytes, codes}

pub data State : Type 0 where
  pending running retry_wait succeeded failed dead cancel_requested cancelled : State

-- State.Terminal
unfoldable pub is_terminal : State → Bool
is_terminal succeeded = true
is_terminal failed = true
is_terminal dead = true
is_terminal cancelled = true
is_terminal _ = false

-- state IN ('running', 'cancel_requested')
unfoldable pub is_active : State → Bool
is_active running = true
is_active cancel_requested = true
is_active _ = false

abbrev pub reason_user : Bytes
reason_user = codes "user"

abbrev pub reason_plugin_disabled : Bytes
reason_plugin_disabled = codes "plugin_disabled"

abbrev pub class_error : Bytes
class_error = codes "error"

abbrev pub class_panic : Bytes
class_panic = codes "panic"

abbrev pub class_timeout : Bytes
class_timeout = codes "timeout"

abbrev pub class_permanent : Bytes
class_permanent = codes "permanent"

-- BackoffPolicy and the fields of Def that a claim or a failure reads; durations are int64 words.
pub record Backoff : Type 0 where
  pub initial : ℕ
  pub maximum : ℕ

pub record Def : Type 0 where
  pub name : Bytes
  pub max_attempts : ℕ
  pub concurrency : ℕ
  pub backoff : Backoff

-- jobRow: a row of core_jobs.
pub record Job : Type 0 where
  pub id : ℕ
  pub plugin_id : Bytes
  pub name : Bytes
  pub args : Bytes
  pub state : State
  pub attempt : ℕ
  pub max_attempts : ℕ
  pub concurrency : ℕ
  pub priority : ℕ  -- an int64 word
  pub idempotency_key : Option Bytes
  pub run_at : ℕ
  pub next_retry_at : Option ℕ
  pub lease_owner : Bytes
  pub lease_expires_at : Option ℕ
  pub fence_generation : ℕ
  pub cancel_reason : Bytes
  pub started_at : Option ℕ
  pub finished_at : Option ℕ
  pub progress_message : Bytes
  pub last_error : Bytes
  pub last_error_class : Bytes
  pub created_at : ℕ

pub record LogLine : Type 0 where
  pub job_id : ℕ
  pub attempt : ℕ
  pub fence_generation : ℕ
  pub at : ℕ
  pub line : Bytes

pub data Event : Type 0 where
  enqueued_event : (job : ℕ) → Event
  started_event : (job attempt fence : ℕ) → Event
  succeeded_event : (job attempt : ℕ) → Event
  failed_event : (job attempt : ℕ) (class : Bytes) → Event
  dead_event : (job attempt : ℕ) (last_error : Bytes) → Event
  cancelled_event : (job attempt : ℕ) (reason : Bytes) → Event
  progressed_event : (job : ℕ) (message : Bytes) → Event
  logged_event : (job : ℕ) → Event

-- A row of core_job_schedules, less its update time.
pub record Schedule : Type 0 where
  pub plugin_id : Bytes
  pub job_name : Bytes
  pub timezone : Bytes
  pub last_slot : Bytes

-- The tables, and the events published to the log. `next_id` is SQLite's AUTOINCREMENT counter.
pub record Db : Type 0 where
  pub jobs : List Job
  pub next_id : ℕ
  pub logs : List LogLine
  pub schedules : List Schedule
  pub published : List Event

-- What policy.Gate answers: the plugin may work, it is disabled or unknown, or the check broke.
pub data Verdict : Type 0 where
  allowed denied broken : Verdict

pub data Error : Type 0 where
  unknown_job plugin_mismatch already_terminal lost_lease gate_error plugin_disabled : Error

-- A handler's error, as errors.Is and errors.As see it.
pub record Failure : Type 0 where
  pub message : Bytes
  pub panicked : Bool
  pub deadline : Bool
  pub permanent : Bool
  pub canceled : Bool
  pub lost_lease : Bool
  pub retry_after : Option ℕ  -- an int64 word
