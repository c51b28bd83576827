-- ===== src/Backoff.antt =====
-- The loop of BackoffPolicy.delay (internal/core/jobs/queue.go) and of RetryPolicy.delay
-- (internal/core/events/events.go), which are the same code.
use control_center.Common.Word.{le64, mod64}
use control_center.Common.{ℕ, zero, suc, ◌*◌, ◌%◌, if◌then◌else◌}

-- The doubling is int64 arithmetic.
unfoldable pub delay_rounds : ℕ → ℕ → ℕ → ℕ
delay_rounds zero maximum d = d
delay_rounds (suc n) maximum d =
    let rest = delay_rounds n maximum (2 * d % mod64) in
    if le64 maximum (2 * d % mod64) then maximum else rest
