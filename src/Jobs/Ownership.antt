-- ===== src/Jobs/Ownership.antt =====
-- claimOne of internal/core/jobs/worker.go: fences and concurrency.
use control_center.Common.{
  ℕ, suc, ◌+◌, ◌≤◌, ◌≡◌, refl, ◌≢◌, inl, inr, Bool, true, false, ◌&&◌, List, [], ◌∷◌, arith, ◌==◌,
  Bytes, bytes_eq, Option-cases, Bool-cases,
}
use control_center.Jobs.Types.{Job, Db, Verdict, allowed, is_active, lost_lease}
use control_center.Jobs.Queue.{refused, update_where, affected, has_id}
use control_center.Jobs.Worker.{
  claim_one, claim_row, take_job, took, claimed_row, snapshot, eligible, occupies, owns, fenced,
  pick,
}
use control_center.Jobs.Rows.{Has, Below, pick-Has, update_absent}

-- What a successful claim found and wrote.
pub record Claimed (now : ℕ) (owner : Bytes) (ttl : ℕ) (d : Db) (j k : Job) (e : Db) : Type 0 where
  pub listed : Has k d.jobs
  pub ready : eligible now d.jobs k ≡ true
  pub room : suc k.attempt ≤ k.max_attempts
  pub snap : j ≡ snapshot owner k
  pub table : e.jobs ≡ update_where (has_id k.id) (claimed_row now owner ttl k) d.jobs

take_job-took :
    (now : ℕ) (owner : Bytes) (ttl : ℕ) (k j : Job) (d e : Db)
    → take_job now owner ttl k d ≡ took j e
    → (suc k.attempt ≤ k.max_attempts)
      × (j ≡ snapshot owner k)
      × (e.jobs ≡ update_where (has_id k.id) (claimed_row now owner ttl k) d.jobs)
unfolding take_job
take_job-took now owner ttl k j d e h = ground arith

claim_row-took :
    (now : ℕ) (gate : Bytes → Verdict) (owner : Bytes) (ttl : ℕ) (k j : Job) (d e : Db)
    → claim_row now gate owner ttl k d ≡ took j e
    → (gate k.plugin_id ≡ allowed) × (take_job now owner ttl k d ≡ took j e)
unfolding claim_row
claim_row-took now gate owner ttl k j d e h = ground arith

pub claim-Claimed :
    (now : ℕ) (gate : Bytes → Verdict) (owner : Bytes) (ttl : ℕ) (d e : Db) (j : Job)
    → claim_one now gate owner ttl d ≡ took j e
    → (k : Job) × (gate k.plugin_id ≡ allowed) × Claimed now owner ttl d j k e
unfolding claim_one
claim-Claimed now gate owner ttl d e j h = elim (Option-cases (pick now d.jobs d.jobs)) [
  | inl x ↦ absurd (ground arith)
  | inr (k, x) ↦
      let (g, t) = claim_row-took now gate owner ttl k j d e (ground arith) in
      let (r, s, u) = take_job-took now owner ttl k j d e t in
      let (m, l) = pick-Has now d.jobs k d.jobs x in
      (k, g, record { listed = m; ready = l; room = r; snap = s; table = u })
]

owns_none :
    (id : ℕ) (owner : Bytes) (fence : ℕ) (f : Job → Job) (js : List Job)
    → ((j : Job) → owns id owner fence (f j) ≡ false)
    → affected (owns id owner fence) (update_where (has_id id) f js) ≡ 0
unfolding affected update_where owns
owns_none id owner fence f [] v = refl
owns_none id owner fence f (x ∷ xs) v = ground (arith, v x, owns_none id owner fence f xs v)

-- No row of a claimed job has another fence than the claim's.
claimed_owns :
    (now : ℕ) (owner other : Bytes) (ttl fence : ℕ) (k x : Job)
    → fence ≢ suc k.fence_generation
    → owns k.id other fence (claimed_row now owner ttl k x) ≡ false
unfolding owns
claimed_owns now owner other ttl fence k x n = ground arith

-- After a claim, a fenced write to the job under any fence but the one that the claim drew is refused
-- with a lost lease, whatever owner it names and whatever it would write.
pub claim_fences_out :
    (now : ℕ) (gate : Bytes → Verdict) (owner other : Bytes) (ttl fence : ℕ) (f : Job → Job)
    (d e : Db) (j : Job)
    → claim_one now gate owner ttl d ≡ took j e
    → fence ≢ j.fence_generation
    → fenced j.id other fence f e ≡ refused lost_lease
unfolding fenced
claim_fences_out now gate owner other ttl fence f d e j h n =
    let (k, _, c) = claim-Claimed now gate owner ttl d e j h in
    let free =
      owns_none k.id other fence (claimed_row now owner ttl k) d.jobs
        (λ x. claimed_owns now owner other ttl fence k x (ground (arith, c.snap))) in
    ground (arith, c.snap, c.table, free)

-- The jobs of one plugin and name that are running or being cancelled.
abbrev pub peers : Job → Job → Bool
peers j r = bytes_eq r.plugin_id j.plugin_id && bytes_eq r.name j.name && is_active r.state

peers-absent :
    (n : ℕ) (j : Job) (js : List Job)
    → Below n js
    → n ≤ j.id
    → affected (peers j) js ≡ affected (occupies j) js
unfolding affected
peers-absent n j [] b h = refl
peers-absent n j (x ∷ xs) b h = ground (arith, peers-absent x.id j xs b.1)

-- An update of one job makes at most one more of its peers active.
peers_update :
    (n : ℕ) (j : Job) (f : Job → Job) (js : List Job)
    → Below n js
    → affected (peers j) (update_where (has_id j.id) f js) ≤ affected (occupies j) js + 1
unfolding affected update_where
peers_update n j f [] b = omega arith
peers_update n j f (x ∷ xs) b = elim (Bool-cases (x.id == j.id)) [
  | inl e ↦
      rw (update_absent x.id j.id f xs b.1 (ground arith))
        (ground (arith, peers-absent x.id j xs b.1))
  | inr e ↦ ground (arith, peers_update x.id j f xs b.1)
]

-- In a table whose rows are in key order, after a claim the job and the other jobs of its plugin and name that are running or being cancelled
-- are at most as many as the job's concurrency, the plugin may work, and the attempt is within its
-- limit.
pub claim_respects_concurrency :
    (now : ℕ) (gate : Bytes → Verdict) (owner : Bytes) (ttl : ℕ) (d e : Db) (j : Job)
    → Below d.next_id d.jobs
    → claim_one now gate owner ttl d ≡ took j e
    → (affected (peers j) e.jobs ≤ j.concurrency)
      × (gate j.plugin_id ≡ allowed)
      × (j.attempt ≤ j.max_attempts)
unfolding eligible
claim_respects_concurrency now gate owner ttl d e j b h =
    let (k, g, c) = claim-Claimed now gate owner ttl d e j h in
    let count = peers_update d.next_id k (claimed_row now owner ttl k) d.jobs b in
    rw (c.snap, c.table) (ground (arith, c.ready, count), g, c.room)
