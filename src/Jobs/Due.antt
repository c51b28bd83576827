-- ===== src/Jobs/Due.antt =====
-- The due test of claimOne in internal/core/jobs/worker.go, on the stamps of queue.go.
use control_center.Common.{ℕ, ◌+◌, ◌*◌, ◌/◌, ◌<◌, ◌≡◌, true, arith, leb}
use control_center.Stamp.{second, stamp_le, text_le, fraction_text}
use control_center.Jobs.Types.{Job, pending, is_active}
use control_center.Jobs.Worker.{claimable}

-- Stamps of different seconds compare as their instants do.
pub stamp_le-of_seconds : (a b : ℕ) → a / second < b / second → stamp_le a b ≡ true
unfolding stamp_le
stamp_le-of_seconds a b h = ground arith

-- A pending job whose time is a whole second is claimable at a later instant exactly if a second or
-- more has passed: in the rest of its own second it is due and not claimable.
pub claimable_at_whole_second :
    (s n : ℕ) (j : Job)
    → j.state ≡ pending
    → j.run_at ≡ s * second
    → 0 < n
    → claimable (s * second + n) j ≡ leb second n
unfolding claimable stamp_le fraction_text text_le is_active
claimable_at_whole_second s n j p r pos = ground arith
