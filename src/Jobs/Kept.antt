-- ===== src/Jobs/Kept.antt =====
-- What each transaction of the queue leaves of every job.
use control_center.Common.{
  ℕ, ◌≡◌, refl, ◌⊎◌, inl, inr, true, false, not, ◌&&◌, List, [], arith, ◌==◌, Bytes, bytes_eq,
  Option-cases, Bool-cases,
}
use control_center.Jobs.Types.{
  State, cancelled, succeeded, failed, dead, Job, Def, Db, Verdict, is_terminal, is_active,
  cancel_requested, pending, running, retry_wait, allowed, denied, broken,
}
use control_center.Jobs.Queue.{
  EnqueueOpts, enqueue, enqueue_tx, insert_job, cancel, cancel_state, read_job, update_where,
  affected, has_id, new_job, has_key, cancel_row, request_row, first_where,
}
use control_center.Jobs.Worker.{and_publish, owns, fenced}
use control_center.Jobs.Rows.{
  Has, Below, Evolves, Evolves-refl, AllEvolve, Kept, Kept-of_all, evolve_one, evolve_where,
  first_where-Has, Below-of_all,
}
use control_center.Jobs.Steps.{settle, settle_enqueue}

-- Every job is kept, and the keys stay in order.
abbrev pub Next : Db → Db → Type 0
Next d e = ((j : Job) → Has j d.jobs → Kept j e.jobs) × Below e.next_id e.jobs

pub Next-same : (d : Db) → Below d.next_id d.jobs → Next d d
Next-same d b = (λ j h. (j, h, Evolves-refl j), b)

pub Next-of_all :
    (d : Db) (js : List Job)
    → Below d.next_id d.jobs
    → AllEvolve d.jobs js
    → ((j : Job) → Has j d.jobs → Kept j js) × Below d.next_id js
Next-of_all d js b a = (λ j h. Kept-of_all j d.jobs js a h, Below-of_all d.next_id d.jobs js a b)

pub owns-open :
    (id : ℕ) (owner : Bytes) (fence : ℕ) (r : Job)
    → owns id owner fence r ≡ true
    → is_terminal r.state ≡ false
unfolding owns is_active is_terminal
owns-open id owner fence r h = ground arith

-- A fenced write that may be made to an active job keeps every job.
pub fenced-Next :
    (id : ℕ) (owner : Bytes) (fence : ℕ) (f : Job → Job) (g : Db → Db) (d : Db)
    → Below d.next_id d.jobs
    → ((e : Db) → ((g e).jobs ≡ e.jobs) × ((g e).next_id ≡ e.next_id))
    → ((r : Job) → is_terminal r.state ≡ false → Evolves r (f r))
    → Next d (settle d (and_publish (fenced id owner fence f d) g))
unfolding fenced
fenced-Next id owner fence f g d b q v =
    let js = update_where (owns id owner fence) f d.jobs in
    let a =
      Next-of_all d js b
        (evolve_where (owns id owner fence) f d.jobs (λ r o. v r (owns-open id owner fence r o))) in
    elim (Bool-cases (affected (owns id owner fence) d.jobs == 1)) [
      | inl e ↦ rw e (rw ((q (record d { jobs = js })).0, (q (record d { jobs = js })).1) a)
      | inr e ↦ rw e (Next-same d b)
    ]

-- A write by primary key to a job that was read in the same transaction.
pub keyed-Next :
    (j : Job) (f : Job → Job) (d : Db)
    → Below d.next_id d.jobs
    → Has j d.jobs
    → Evolves j (f j)
    → Next d (record d { jobs = update_where (has_id j.id) f d.jobs })
keyed-Next j f d b h v = Next-of_all d _ b (evolve_one d.next_id j f d.jobs b h v)

pub insert-Next :
    (now : ℕ) (plugin : Bytes) (def : Def) (args : Bytes) (o : EnqueueOpts) (d : Db)
    → Below d.next_id d.jobs
    → Next d (insert_job now plugin def args o d).1
unfolding insert_job new_job
insert-Next now plugin def args o d b = ((λ j h. (j, inr h, Evolves-refl j)), (omega arith, b))

pub Verdict-cases : (v : Verdict) → (v ≡ allowed) ⊎ (v ≡ denied) ⊎ (v ≡ broken)
Verdict-cases allowed = inl refl
Verdict-cases denied = inr (inl refl)
Verdict-cases broken = inr (inr refl)

pub enqueue_tx-Next :
    (now : ℕ) (plugin : Bytes) (def : Def) (args : Bytes) (o : EnqueueOpts) (d : Db)
    → Below d.next_id d.jobs
    → Next d (enqueue_tx now plugin def args o d).1
unfolding enqueue_tx
enqueue_tx-Next now plugin def args o d b = elim (Bool-cases (bytes_eq o.idempotency_key [])) [
  | inl e ↦ rw e (insert-Next now plugin def args o d b)
  | inr e ↦
      rw e (elim (Option-cases (first_where (has_key plugin def.name o.idempotency_key) d.jobs)) [
        | inl x ↦ rw (x, enqueue_tx) (insert-Next now plugin def args o d b)
        | inr (j, x) ↦ rw (x, enqueue_tx) (Next-same d b)
      ])
]

pub enqueue-Next :
    (now : ℕ) (gate : Bytes → Verdict) (plugin : Bytes) (def : Def) (args : Bytes) (o : EnqueueOpts)
    (d : Db)
    → Below d.next_id d.jobs
    → Next d (settle_enqueue d (enqueue now gate plugin def args o d))
unfolding enqueue
enqueue-Next now gate plugin def args o d b = elim (Verdict-cases (gate plugin)) [
  | inl e ↦ rw (e, enqueue, settle_enqueue) (enqueue_tx-Next now plugin def args o d b)
  | inr (inl e) ↦ rw (e, enqueue, settle_enqueue) (Next-same d b)
  | inr (inr e) ↦ rw (e, enqueue, settle_enqueue) (Next-same d b)
]

pub cancel_state-Next :
    (now : ℕ) (reason : Bytes) (j : Job) (d : Db) (s : State)
    → Below d.next_id d.jobs
    → Has j d.jobs
    → j.state ≡ s
    → Next d (settle d (cancel_state now reason j d s))
unfolding cancel_state is_terminal
cancel_state-Next now reason j d cancelled b h e = Next-same d b
cancel_state-Next now reason j d succeeded b h e = Next-same d b
cancel_state-Next now reason j d failed b h e = Next-same d b
cancel_state-Next now reason j d dead b h e = Next-same d b
cancel_state-Next now reason j d pending b h e =
    keyed-Next j (cancel_row now reason) d b h (ground arith)
cancel_state-Next now reason j d retry_wait b h e =
    keyed-Next j (cancel_row now reason) d b h (ground arith)
cancel_state-Next now reason j d running b h e =
    keyed-Next j (request_row reason) d b h (ground arith)
cancel_state-Next now reason j d cancel_requested b h e =
    keyed-Next j (request_row reason) d b h (ground arith)

pub cancel-Next :
    (now id : ℕ) (reason require_plugin : Bytes) (d : Db)
    → Below d.next_id d.jobs
    → Next d (settle d (cancel now id reason require_plugin d))
unfolding cancel read_job
cancel-Next now id reason require_plugin d b =
    elim (Option-cases (first_where (has_id id) d.jobs)) [
      | inl e ↦ rw (e, cancel, read_job, settle) (Next-same d b)
      | inr (j, e) ↦
          rw (e, cancel, read_job, settle)
            (elim (Bool-cases
              (not (bytes_eq require_plugin []) && not (bytes_eq j.plugin_id require_plugin))) [
                | inl x ↦ rw x (Next-same d b)
                | inr x ↦ rw x (
                    cancel_state-Next now reason j d j.state b
                      ((first_where-Has (has_id id) j d.jobs e).0) refl)
              ])
    ]
