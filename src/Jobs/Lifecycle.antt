-- ===== src/Jobs/Lifecycle.antt =====
-- Jobs of internal/core/jobs over a history of its transactions.
use control_center.Common.{◌⊎◌, ℕ, ◌≡◌, true, List, [], ◌∷◌, Bytes}
use control_center.Jobs.Types.{Job, Db, Verdict}
use control_center.Jobs.Queue.{is_expired}
use control_center.Jobs.Rows.{Has, Below, Evolves, Kept}
use control_center.Jobs.Steps.{Op, retention_op}

-- The step is a retention that deletes the job: it was terminal, and ended before the cutoff.
abbrev Purges : Op → Job → Type 0
Purges o j = (cutoff : ℕ) × (o ≡ retention_op cutoff) × (is_expired cutoff j ≡ true)

-- Every job is kept or purged, and the keys stay in order.
abbrev Follows : Op → Db → Db → Type 0
Follows o d e = ((j : Job) → Has j d.jobs → Kept j e.jobs ⊎ Purges o j) × Below e.next_id e.jobs

abbrev pub Swept : ℕ → List (ℕ × (Bytes → Verdict) × Op) → Type 0
Swept cutoff [] = ⊥
Swept cutoff ((now, gate, o) ∷ os) = (o ≡ retention_op cutoff) ⊎ Swept cutoff os

-- What a history leaves of a job: the job as it has become, or nothing if a retention of the history
-- deleted it, which the job had then reached a terminal state long enough before.
abbrev pub Accounted : Job → List (ℕ × (Bytes → Verdict) × Op) → Db → Type 0
Accounted j os e =
    Kept j e.jobs
    ⊎ ((k : Job) × (cutoff : ℕ) × Evolves j k × (is_expired cutoff k ≡ true) × Swept cutoff os)
