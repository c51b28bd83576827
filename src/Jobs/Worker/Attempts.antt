-- ===== src/Jobs/Worker/Attempts.antt =====
-- internal/core/jobs/worker.go: the heartbeat, the ends of an attempt, its progress and its log. A
-- transaction that the source may run on a row it read earlier takes that row as an argument.
use control_center.Common.{
  ℕ, Bool, not, ◌&&◌, ◌||◌, Option, none, some, List, [], ◌∷◌, ◌++◌, if◌then◌else◌, ◌==◌, ltb,
  Bytes, codes, bytes_eq,
}
use control_center.Stamp.{add_duration}
use control_center.Jobs.Types.{
  State, retry_wait, succeeded, failed, dead, class_error, class_panic, class_timeout,
  class_permanent, Backoff, Job, LogLine, succeeded_event, failed_event, dead_event,
  progressed_event, logged_event, Db, lost_lease, Failure,
}
use control_center.Jobs.Queue.{affected, publish, delay, Reply, ok, refused}
use control_center.Jobs.Worker.Claiming.{
  is_cancel_requested, is_running, owns, fenced, and_publish, fence_cancel_owned, or_user,
}

-- The tick of startHeartbeat.
unfoldable pub heartbeat : ℕ → ℕ → Bytes → ℕ → ℕ → Db → Reply Db
heartbeat now id owner fence ttl d =
    fenced id owner fence (λ j. record j { lease_expires_at = some (add_duration now ttl) }) d

unfoldable pub finish_succeeded : ℕ → Job → Bytes → ℕ → Db → Reply Db
finish_succeeded now j owner fence d =
    and_publish
      (fenced j.id owner fence
        (λ r. record r {
          state = succeeded;
          finished_at = some now;
          lease_owner = [];
          lease_expires_at = none;
        })
        d)
      (publish (succeeded_event j.id j.attempt))

unfoldable pub finish_cancelled : ℕ → Job → Bytes → ℕ → Bytes → Db → Reply Db
finish_cancelled now j owner fence reason d =
    fence_cancel_owned now j owner fence (or_user reason) d

unfoldable pub failure_class : Failure → Bytes
failure_class f =
    if f.panicked
    then class_panic
    else if f.deadline
    then class_timeout
    else if f.permanent
    then class_permanent
    else class_error

unfoldable pub should_retry : Job → Failure → Bool
should_retry j f = elim f.retry_after [
  | none ↦ not f.permanent && ltb j.attempt j.max_attempts
  | some _ ↦ ltb j.attempt j.max_attempts
]

unfoldable pub retry_delay : Backoff → Job → Failure → ℕ
retry_delay b j f = elim f.retry_after [ none ↦ delay b j.attempt | some w ↦ w ]

abbrev pub retry_row : ℕ → Bytes → Bytes → Job → Job
retry_row next msg class j = record j {
  state = retry_wait;
  next_retry_at = some next;
  last_error = msg;
  last_error_class = class;
  lease_owner = [];
  lease_expires_at = none;
}

abbrev pub final_state : Failure → State
final_state f = if f.permanent then failed else dead

abbrev pub final_row : ℕ → State → Bytes → Bytes → Job → Job
final_row now s msg class j = record j {
  state = s;
  last_error = msg;
  last_error_class = class;
  finished_at = some now;
  lease_owner = [];
  lease_expires_at = none;
}

-- failAttempt: `b` is the backoff of the registered definition, zero if there is none.
unfoldable pub fail_attempt : ℕ → Backoff → Job → Bytes → ℕ → Failure → Db → Reply Db
fail_attempt now b j owner fence f d =
    if should_retry j f
    then and_publish
        (fenced j.id owner fence
          (retry_row (add_duration now (retry_delay b j f)) f.message (failure_class f)) d)
        (publish (failed_event j.id j.attempt (failure_class f)))
    else and_publish
        (fenced j.id owner fence (final_row now (final_state f) f.message (failure_class f)) d)
        (λ e.
          let e' = publish (failed_event j.id j.attempt (failure_class f)) e in
          if f.permanent then e' else publish (dead_event j.id j.attempt f.message) e')

-- What `finish` decides from the row that it read, and from its second look at it.
pub data Ending : Type 0 where
  leave : Ending
  succeed : Ending
  cancel_with : Bytes → Ending
  fail_with : Failure → Ending

unfoldable pub recheck : Failure → Option Job → Ending
recheck f none = if f.lost_lease then leave else fail_with f
recheck f (some r) =
    if is_cancel_requested r.state
    then cancel_with r.cancel_reason
    else if f.lost_lease
    then leave
    else fail_with f

unfoldable pub ending_failure : Failure → (timed_out : Bool) → Option Job → Ending
ending_failure f timed_out again =
    if timed_out || f.deadline
    then fail_with (record f { message = codes "timeout: " ++ f.message })
    else if f.canceled || f.lost_lease
    then recheck f again
    else fail_with f

unfoldable pub ending : Job → Bytes → ℕ → Option Failure → (timed_out : Bool) → Option Job → Ending
ending current owner fence err timed_out again =
    if is_cancel_requested current.state
      || (is_running current.state && not (bytes_eq current.cancel_reason []))
    then cancel_with (or_user current.cancel_reason)
    else if not (bytes_eq current.lease_owner owner) || not (current.fence_generation == fence)
    then leave
    else elim err [ none ↦ succeed | some f ↦ ending_failure f timed_out again ]

unfoldable pub finish : ℕ → Backoff → Job → Bytes → ℕ → Ending → Db → Reply Db
finish now b j owner fence leave d = ok d
finish now b j owner fence succeed d = finish_succeeded now j owner fence d
finish now b j owner fence (cancel_with reason) d = finish_cancelled now j owner fence reason d
finish now b j owner fence (fail_with f) d = fail_attempt now b j owner fence f d

-- Progress, less the fraction: the event is emitted if the gap since the last one allows.
unfoldable pub progress : Job → Bytes → ℕ → Bytes → (emit : Bool) → Db → Reply Db
progress j owner fence message emit d =
    and_publish (fenced j.id owner fence (λ r. record r { progress_message = message }) d)
      (λ e. if emit then publish (progressed_event j.id message) e else e)

unfoldable pub log_lines : ℕ → Job → ℕ → List Bytes → List LogLine
log_lines now j fence [] = []
log_lines now j fence (s ∷ ss) =
    record { job_id = j.id; attempt = j.attempt; fence_generation = fence; at = now; line = s }
    ∷ log_lines now j fence ss

-- The transaction of flushLogs.
unfoldable pub flush_logs : ℕ → Job → Bytes → ℕ → List Bytes → Db → Reply Db
flush_logs now j owner fence [] d = ok d
flush_logs now j owner fence (s ∷ ss) d =
    if affected (owns j.id owner fence) d.jobs == 0
    then refused lost_lease
    else ok
        (publish (logged_event j.id) (record d { logs = d.logs ++ log_lines now j fence (s ∷ ss) }))
