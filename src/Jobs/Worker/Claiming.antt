-- ===== src/Jobs/Worker/Claiming.antt =====
-- internal/core/jobs/worker.go: claimOne, and the fence that guards what an attempt writes. A
-- transaction that the source may run on a row it read earlier takes that row as an argument.
use control_center.Common.Word.{le64}
use control_center.Common.{
  ℕ, suc, Bool, true, false, not, ◌&&◌, ◌||◌, Option, none, some, List, [], ◌∷◌, if◌then◌else◌,
  ◌==◌, ltb, leb, Bytes, codes, bytes_eq,
}
use control_center.Stamp.{add_duration, stamp_le, stamp_lt}
use control_center.Jobs.Types.{
  State, pending, running, retry_wait, dead, cancel_requested, cancelled, is_active, reason_user,
  reason_plugin_disabled, class_error, Job, started_event, failed_event, dead_event,
  cancelled_event, Db, Verdict, allowed, denied, broken, lost_lease,
}
use control_center.Jobs.Queue.{update_where, affected, has_id, publish, or_now, Reply, ok, refused}

abbrev pub is_waiting : State → Bool
is_waiting retry_wait = true
is_waiting _ = false

abbrev pub is_pending : State → Bool
is_pending pending = true
is_pending _ = false

abbrev pub is_cancel_requested : State → Bool
is_cancel_requested cancel_requested = true
is_cancel_requested _ = false

abbrev pub is_running : State → Bool
is_running running = true
is_running _ = false

-- column IS NOT NULL AND column <= now
abbrev pub due : Option ℕ → ℕ → Bool
due none now = false
due (some t) now = stamp_le t now

-- The first conjunct of claimOne's WHERE clause.
unfoldable pub claimable : ℕ → Job → Bool
claimable now j =
    (is_pending j.state && stamp_le j.run_at now)
    || (is_waiting j.state && due j.next_retry_at now)
    || (is_active j.state && due j.lease_expires_at now)

-- The rows that the subquery of claimOne counts for a job.
abbrev pub occupies : Job → Job → Bool
occupies j r =
    bytes_eq r.plugin_id j.plugin_id
    && bytes_eq r.name j.name
    && is_active r.state
    && not (r.id == j.id)

unfoldable pub eligible : ℕ → List Job → Job → Bool
eligible now js j = claimable now j && ltb (affected (occupies j) js) j.concurrency

-- ORDER BY priority DESC, coalesce(next_retry_at, run_at) ASC, id ASC
unfoldable pub before : Job → Job → Bool
before a b =
    let ka = or_now a.next_retry_at a.run_at in
    let kb = or_now b.next_retry_at b.run_at in
    if a.priority == b.priority
    then (if ka == kb then leb a.id b.id else stamp_lt ka kb)
    else le64 b.priority a.priority

abbrev pub earlier : Job → Option Job → Job
earlier j none = j
earlier j (some k) = if before k j then k else j

-- LIMIT 1 of the ordered rows; `all` is the whole table, for the subquery.
unfoldable pub pick : ℕ → List Job → List Job → Option Job
pick now all [] = none
pick now all (j ∷ js) =
    let rest = pick now all js in if eligible now all j then some (earlier j rest) else rest

-- The WHERE clause of every write by an attempt: it must still own the job.
unfoldable pub owns : ℕ → Bytes → ℕ → Job → Bool
owns id owner fence j =
    has_id id j && bytes_eq j.lease_owner owner && j.fence_generation == fence && is_active j.state

-- Such a write changes exactly one row, or the lease is lost and the transaction rolls back.
unfoldable pub fenced : ℕ → Bytes → ℕ → (Job → Job) → Db → Reply Db
fenced id owner fence f d =
    if affected (owns id owner fence) d.jobs == 1
    then ok (record d { jobs = update_where (owns id owner fence) f d.jobs })
    else refused lost_lease

abbrev pub and_publish : Reply Db → (Db → Db) → Reply Db
and_publish (ok d) f = ok (f d)
and_publish (refused e) f = refused e

abbrev pub cancelled_row : ℕ → Bytes → Job → Job
cancelled_row now reason j = record j {
  state = cancelled;
  cancel_reason = reason;
  finished_at = some now;
  lease_owner = [];
  lease_expires_at = none;
}

unfoldable pub fence_cancel : ℕ → Job → Bytes → Db → Db
fence_cancel now j reason d =
    publish (cancelled_event j.id j.attempt reason)
      (record d { jobs = update_where (has_id j.id) (cancelled_row now reason) d.jobs })

unfoldable pub fence_cancel_owned : ℕ → Job → Bytes → ℕ → Bytes → Db → Reply Db
fence_cancel_owned now j owner fence reason d =
    and_publish (fenced j.id owner fence (cancelled_row now reason) d)
      (publish (cancelled_event j.id j.attempt reason))

abbrev pub dead_row : ℕ → Bytes → Bytes → Job → Job
dead_row now last_err class j = record j {
  state = dead;
  last_error = last_err;
  last_error_class = class;
  finished_at = some now;
  lease_owner = [];
  lease_expires_at = none;
}

unfoldable pub fence_dead : ℕ → Job → Bytes → Bytes → Db → Db
fence_dead now j last_err class d = publish (dead_event j.id j.attempt last_err) (
    publish (failed_event j.id j.attempt class)
      (record d { jobs = update_where (has_id j.id) (dead_row now last_err class) d.jobs }))

abbrev pub or_user : Bytes → Bytes
or_user [] = reason_user
or_user (c ∷ s) = c ∷ s

abbrev pub first_start : Option ℕ → ℕ → Option ℕ
first_start none now = some now
first_start (some t) now = some t

abbrev pub claimed_row : ℕ → Bytes → ℕ → Job → Job → Job
claimed_row now owner ttl j r = record r {
  state = running;
  attempt = suc j.attempt;
  fence_generation = suc j.fence_generation;
  lease_owner = owner;
  lease_expires_at = some (add_duration now ttl);
  started_at = first_start r.started_at now;
  cancel_reason = [];
  last_error = [];
  last_error_class = [];
}

-- The snapshot that claimOne hands to the attempt.
abbrev pub snapshot : Bytes → Job → Job
snapshot owner j = record j {
  state = running;
  attempt = suc j.attempt;
  fence_generation = suc j.fence_generation;
  lease_owner = owner;
}

-- What the transaction of claimOne did: it found nothing, finished a job, or claimed one.
pub data Claim : Type 0 where
  idle : Claim
  retired : Db → Claim
  exhausted : Db → Claim
  took : Job → Db → Claim
  errored : Claim

unfoldable pub take_job : ℕ → Bytes → ℕ → Job → Db → Claim
take_job now owner ttl j d =
    if ltb j.max_attempts (suc j.attempt)
    then exhausted
        (fence_dead now j (codes "lease expired with no attempts remaining") class_error d)
    else took (snapshot owner j) (
        publish (started_event j.id (suc j.attempt) (suc j.fence_generation))
          (record d { jobs = update_where (has_id j.id) (claimed_row now owner ttl j) d.jobs }))

-- The transaction of claimOne, past the selection of the row.
unfoldable pub claim_row : ℕ → (Bytes → Verdict) → Bytes → ℕ → Job → Db → Claim
claim_row now gate owner ttl j d =
    if is_cancel_requested j.state
    then retired (fence_cancel now j (or_user j.cancel_reason) d)
    else elim (gate j.plugin_id) [
      | allowed ↦ take_job now owner ttl j d
      | denied ↦ retired (fence_cancel now j reason_plugin_disabled d)
      | broken ↦ errored
    ]

unfoldable pub claim_one : ℕ → (Bytes → Verdict) → Bytes → ℕ → Db → Claim
claim_one now gate owner ttl d = elim (pick now d.jobs d.jobs) [
  | none ↦ idle
  | some j ↦ claim_row now gate owner ttl j d
]
