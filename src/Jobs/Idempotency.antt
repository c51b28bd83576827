-- ===== src/Jobs/Idempotency.antt =====
-- enqueueTx of internal/core/jobs/cron.go under an idempotency key, and RunRetention of retention.go.
use control_center.Common.{
  ℕ, ◌≡◌, refl, ◌↔◌, inl, inr, Bool, false, some, List, [], ◌∷◌, arith, Bytes, bytes_eq,
  bytes_eq_refl,
}
use control_center.Jobs.Types.{Job, Def, Db, is_terminal}
use control_center.Jobs.Queue.{
  EnqueueOpts, enqueue_tx, insert_job, new_job, first_where, has_key, key_column, delete_where,
  is_expired, run_retention,
}
use control_center.Jobs.Rows.{Has}

key_column-filled : (k : Bytes) → bytes_eq k [] ≡ false → key_column k ≡ some k
unfolding bytes_eq
key_column-filled [] h = cc
key_column-filled (c ∷ s) h = refl

-- Under a key that is not empty, a second enqueue of the same plugin and job name returns the id that
-- the first returned and changes nothing, whatever its arguments, its time and its other options.
pub enqueue_idempotent :
    (now later : ℕ) (plugin : Bytes) (def : Def) (args args' : Bytes) (o o' : EnqueueOpts) (d : Db)
    → bytes_eq o.idempotency_key [] ≡ false
    → o'.idempotency_key ≡ o.idempotency_key
    → enqueue_tx later plugin def args' o' (enqueue_tx now plugin def args o d).1
      ≡ enqueue_tx now plugin def args o d
unfolding enqueue_tx insert_job new_job first_where has_key is_terminal
enqueue_idempotent now later plugin def args args' o o' d h e = ground (
  arith,
  key_column-filled o.idempotency_key h,
  bytes_eq_refl plugin,
  bytes_eq_refl def.name,
  bytes_eq_refl o.idempotency_key,
)

delete_where-Has :
    (p : Job → Bool) (j : Job) (js : List Job) → p j ≡ false → Has j js → Has j (delete_where p js)
unfolding delete_where
delete_where-Has p j [] h m = absurd m
delete_where-Has p j (x ∷ xs) h (inl e) = ground arith
delete_where-Has p j (x ∷ xs) h (inr m) = ground (arith, delete_where-Has p j xs h m)

delete_where-kept :
    (p : Job → Bool) (j : Job) (js : List Job)
    → Has j (delete_where p js)
    → Has j js × (p j ≡ false)
unfolding delete_where
delete_where-kept p j [] m = absurd m
delete_where-kept p j (x ∷ xs) m = ground (arith, delete_where-kept p j xs)

-- The retention sweep keeps exactly the jobs that are still in flight or ended no earlier than the
-- cutoff.
pub retention_iff :
    (cutoff : ℕ) (j : Job) (d : Db)
    → Has j (run_retention cutoff d).jobs ↔ (Has j d.jobs × (is_expired cutoff j ≡ false))
unfolding run_retention
retention_iff cutoff j d = (
  delete_where-kept (is_expired cutoff) j d.jobs,
  λ h. delete_where-Has (is_expired cutoff) j d.jobs h.1 h.0,
)
