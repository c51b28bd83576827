-- ===== src/Jobs/Transitions.antt =====
-- What a claim and the writes of an attempt leave of every job.
use control_center.Common.{
  ℕ, suc, ◌≡◌, refl, inl, inr, Bool, true, false, some, List, [], ◌∷◌, arith, subst, ◌==◌, Bytes,
  Option-cases, Bool-cases, ltb,
}
use control_center.Stamp.{add_duration}
use control_center.Jobs.Types.{Job, Backoff, Db, Verdict, is_terminal, is_active, class_error}
use control_center.Jobs.Queue.{Reply, ok, refused, affected}
use control_center.Jobs.Worker.{
  claim_one, claim_row, take_job, heartbeat, Ending, leave, succeed, cancel_with, fail_with, finish,
  progress, flush_logs, and_publish, claimable, eligible, owns, fenced, fence_cancel, fence_dead,
  cancelled_row, dead_row, claimed_row, pick, finish_succeeded, finish_cancelled,
  fence_cancel_owned, fail_attempt, should_retry, is_cancel_requested,
}
use control_center.Jobs.Rows.{Has, Below, pick-Has}
use control_center.Jobs.Steps.{settle, settle_claim}
use control_center.Jobs.Kept.{Next, Next-same, fenced-Next, keyed-Next, Verdict-cases}

pub claimable-open :
    (now : ℕ) (js : List Job) (j : Job) → eligible now js j ≡ true → is_terminal j.state ≡ false
unfolding eligible claimable is_active is_terminal
claimable-open now js j h = ground arith

pub take_job-Next :
    (now : ℕ) (owner : Bytes) (ttl : ℕ) (j : Job) (d : Db)
    → Below d.next_id d.jobs
    → Has j d.jobs
    → is_terminal j.state ≡ false
    → Next d (settle_claim d (take_job now owner ttl j d))
unfolding take_job fence_dead
take_job-Next now owner ttl j d b h t = elim (Bool-cases (ltb j.max_attempts (suc j.attempt))) [
  | inl e ↦ rw e (keyed-Next j (dead_row now _ class_error) d b h (ground arith))
  | inr e ↦ rw e (keyed-Next j (claimed_row now owner ttl j) d b h (ground arith))
]

pub claim_row-Next :
    (now : ℕ) (gate : Bytes → Verdict) (owner : Bytes) (ttl : ℕ) (j : Job) (d : Db)
    → Below d.next_id d.jobs
    → Has j d.jobs
    → is_terminal j.state ≡ false
    → Next d (settle_claim d (claim_row now gate owner ttl j d))
unfolding claim_row fence_cancel
claim_row-Next now gate owner ttl j d b h t = elim (Bool-cases (is_cancel_requested j.state)) [
  | inl e ↦ rw e (keyed-Next j (cancelled_row now _) d b h (ground arith))
  | inr e ↦ rw e (elim (Verdict-cases (gate j.plugin_id)) [
    | inl x ↦ rw (x, claim_row, settle_claim) (take_job-Next now owner ttl j d b h t)
    | inr (inl x) ↦
        rw (x, claim_row, settle_claim) (keyed-Next j (cancelled_row now _) d b h (ground arith))
    | inr (inr x) ↦ rw (x, claim_row, settle_claim) (Next-same d b)
  ])
]

pub claim-Next :
    (now : ℕ) (gate : Bytes → Verdict) (owner : Bytes) (ttl : ℕ) (d : Db)
    → Below d.next_id d.jobs
    → Next d (settle_claim d (claim_one now gate owner ttl d))
unfolding claim_one
claim-Next now gate owner ttl d b = elim (Option-cases (pick now d.jobs d.jobs)) [
  | inl e ↦ rw (e, claim_one, settle_claim) (Next-same d b)
  | inr (j, e) ↦
      let (h, l) = pick-Has now d.jobs j d.jobs e in
      rw (e, claim_one, settle_claim)
        (claim_row-Next now gate owner ttl j d b h (claimable-open now d.jobs j l))
]

pub finish-Next :
    (now : ℕ) (b : Backoff) (j : Job) (owner : Bytes) (fence : ℕ) (e : Ending) (d : Db)
    → Below d.next_id d.jobs
    → Next d (settle d (finish now b j owner fence e d))
unfolding finish finish_succeeded finish_cancelled fence_cancel_owned fail_attempt
finish-Next now b j owner fence leave d v = Next-same d v
finish-Next now b j owner fence succeed d v =
    fenced-Next j.id owner fence _ _ d v (λ e. (refl, refl)) (λ r h. ground arith)
finish-Next now b j owner fence (cancel_with reason) d v =
    fenced-Next j.id owner fence _ _ d v (λ e. (refl, refl)) (λ r h. ground arith)
finish-Next now b j owner fence (fail_with f) d v = elim (Bool-cases (should_retry j f)) [
  | inl e ↦ rw e (fenced-Next j.id owner fence _ _ d v (λ e. (refl, refl)) (λ r h. ground arith))
  | inr e ↦ rw e (
      fenced-Next j.id owner fence _ _ d v (λ e. (ground arith, ground arith))
        (λ r h. ground arith))
]

pub settle_plain : (d : Db) (r : Reply Db) → settle d (and_publish r (λ e. e)) ≡ settle d r
settle_plain d (ok e) = refl
settle_plain d (refused x) = refl

pub heartbeat-Next :
    (now id : ℕ) (owner : Bytes) (fence ttl : ℕ) (d : Db)
    → Below d.next_id d.jobs
    → Next d (settle d (heartbeat now id owner fence ttl d))
unfolding heartbeat
heartbeat-Next now id owner fence ttl d v =
    let f = λ (j : Job). record j { lease_expires_at = some (add_duration now ttl) } in
    subst (Next d) (settle_plain d (fenced id owner fence f d))
      (fenced-Next id owner fence f (λ e. e) d v (λ e. (refl, refl)) (λ r h. ground arith))

pub progress-Next :
    (j : Job) (owner : Bytes) (fence : ℕ) (message : Bytes) (emit : Bool) (d : Db)
    → Below d.next_id d.jobs
    → Next d (settle d (progress j owner fence message emit d))
unfolding progress
progress-Next j owner fence message emit d v =
    fenced-Next j.id owner fence _ _ d v (λ e. (ground arith, ground arith)) (λ r h. ground arith)

pub logs-Next :
    (now : ℕ) (j : Job) (owner : Bytes) (fence : ℕ) (lines : List Bytes) (d : Db)
    → Below d.next_id d.jobs
    → Next d (settle d (flush_logs now j owner fence lines d))
unfolding flush_logs
logs-Next now j owner fence [] d v = Next-same d v
logs-Next now j owner fence (s ∷ ss) d v =
    elim (Bool-cases (affected (owns j.id owner fence) d.jobs == 0)) [
      | inl e ↦ rw e (Next-same d v)
      | inr e ↦ rw e (Next-same d v)
    ]
