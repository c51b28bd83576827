-- ===== src/Policy/Commit.antt =====
-- What the parts of SettleSpendTx do to the sums of reserved and committed money.
use control_center.Common.Word.{half64}
use control_center.Common.{
  All, ◌<◌, ℕ, ◌+◌, ◌≡◌, refl, false, none, some, List, [], ◌∷◌, arith, if◌then◌else◌, Bytes,
  bytes_eq_iff, bytes_key, lookup, delete, update, lookup-upsert, delete_absent,
}
use control_center.Policy.Types.{
  Time, Window, hour_window, day_window, month_window, all_windows, window_eq, window_eq_iff,
  Reservation, Period, period_eq, period_eq_iff, period_key, Budget, accounting_event, Db, Outcome,
  done, failed, after,
}
use control_center.Policy.Queries.{
  budget_of, reserved_in, committed_in, pinned, window_usage, read_state_row,
  record_budget_exceeded,
}
use control_center.Policy.View.{is_enabled}
use control_center.Policy.Admin.{actor_system, disable_tx}
use control_center.Policy.Enabling.{disable_tx-is_enabled, disable_tx-rest}
use control_center.Policy.Store.{
  add_spend, commit_in, commit_all, report_window, report_crossed, accounting_failure,
  reason_accounting,
}

-- The primary key of the reservations.
abbrev pub Distinct : List (Bytes × Reservation) → Type 0
Distinct [] = Unit {0}
Distinct ((id, r) ∷ rs) = (lookup id rs ≡ none) × Distinct rs

-- An amount, if the reservation pins the period.
abbrev pub share : Period → Reservation → ℕ → ℕ
share k r n = if period_eq (pinned k.window r) k then n else 0

pub reserved_in-delete :
    (k : Period) (id : Bytes) (r : Reservation) (rs : List (Bytes × Reservation))
    → Distinct rs
    → lookup id rs ≡ some r
    → reserved_in k (delete id rs) + share k r r.maximum ≡ reserved_in k rs
unfolding lookup delete reserved_in
reserved_in-delete k id r [] v h = cc
reserved_in-delete k id r ((j, x) ∷ rs) v h =
    ground (arith, bytes_eq_iff j id, delete_absent j rs, reserved_in-delete k id r rs v.1)

committed_in-add_spend :
    (k p : Period) (n : ℕ) (d : Db)
    → committed_in k (add_spend p n d) ≡ committed_in k d + (if period_eq p k then n else 0)
unfolding committed_in add_spend
committed_in-add_spend k p n d = ground (
  arith,
  lookup-upsert p k n d.spend,
  period_eq_iff p k,
  lookup-upsert p k (committed_in p d + n) d.spend,
)

-- A reservation pins one period of each window.
pub pinned_window :
    (k : Period) (w : Window) (r : Reservation)
    → period_eq (pinned w r) k
      ≡ (if window_eq w k.window then period_eq (pinned k.window r) k else false)
unfolding period_eq
pinned_window k w r = ground (arith, window_eq_iff w k.window, window_eq_iff k.window k.window)

abbrev pub IsDone : Outcome (Unit {0}) → Type 0
IsDone (done _ e) = Unit
IsDone (failed x e) = ⊥

-- The committed sum of the period that a reservation pins still fits in int64 with the amount.
abbrev pub Fits : Reservation → ℕ → Db → Window → Type 0
Fits r n d w = committed_in (pinned w r) d + n < half64

add_spend-rest : (k : Period) (n : ℕ) (d : Db) → record (add_spend k n d) { spend = d.spend } ≡ d
unfolding add_spend
add_spend-rest k n d = ground arith

commit_in-rest :
    (k : Period) (n : ℕ) (d : Db) → record (after (commit_in k n d)) { spend = d.spend } ≡ d
unfolding commit_in
commit_in-rest k n d = ground (arith, add_spend-rest k n d)

pub commit_all-rest :
    (r : Reservation) (n : ℕ) (ws : List Window) (d : Db)
    → record (after (commit_all r n ws d)) { spend = d.spend } ≡ d
unfolding commit_all
commit_all-rest r n [] d = refl
commit_all-rest r n (w ∷ ws) d =
    let e = after (commit_in (pinned w r) n d) in
    ground (arith, commit_all-rest r n ws e, commit_in-rest (pinned w r) n d)

commit_in-IsDone :
    (k : Period) (n : ℕ) (d : Db)
    → committed_in k d + n < half64
    → commit_in k n d ≡ done tt (add_spend k n d)
unfolding commit_in
commit_in-IsDone k n d h = ground arith

-- The three upserts write different periods, so that one does not change what the next reads.
pub Fits-commits :
    (r : Reservation) (n : ℕ) (d : Db)
    → All (Fits r n d) all_windows
    → IsDone (commit_all r n all_windows d)
unfolding commit_all window_eq
Fits-commits r n d (h, (y, (m, _))) =
    let k1 = pinned hour_window r in
    let k2 = pinned day_window r in
    let k3 = pinned month_window r in
    let d1 = add_spend k1 n d in
    let d2 = add_spend k2 n d1 in
    ground (
      arith,
      commit_in-IsDone k1 n d h,
      commit_in-IsDone k2 n d1,
      commit_in-IsDone k3 n d2,
      committed_in-add_spend k2 k1 n d,
      committed_in-add_spend k3 k1 n d,
      committed_in-add_spend k3 k2 n d1,
      pinned_window k2 hour_window r,
      pinned_window k3 hour_window r,
      pinned_window k3 day_window r,
    )

committed_in-commit_in :
    (k p : Period) (n : ℕ) (d : Db)
    → IsDone (commit_in p n d)
    → committed_in k (after (commit_in p n d)) ≡ committed_in k d + (if period_eq p k then n else 0)
unfolding commit_in
committed_in-commit_in k p n d h = ground (arith, committed_in-add_spend k p n d)

pub committed_in-commit_all :
    (k : Period) (r : Reservation) (n : ℕ) (d : Db)
    → IsDone (commit_all r n all_windows d)
    → committed_in k (after (commit_all r n all_windows d)) ≡ committed_in k d + share k r n
unfolding commit_all window_eq
committed_in-commit_all k r n d h =
    let d1 = after (commit_in (pinned hour_window r) n d) in
    let d2 = after (commit_in (pinned day_window r) n d1) in
    ground (
      arith,
      committed_in-commit_in k (pinned hour_window r) n d,
      committed_in-commit_in k (pinned day_window r) n d1,
      committed_in-commit_in k (pinned month_window r) n d2,
      pinned_window k hour_window r,
      pinned_window k day_window r,
      pinned_window k month_window r,
    )

-- Past the commit, settling writes neither reservations nor committed spend.
pub report_window-rest :
    (r : Reservation) (b : Budget) (w : Window) (d : Db)
    → record (after (report_window r b w d)) {
      published = d.published;
      budget_events = d.budget_events;
    }
      ≡ d
unfolding report_window window_usage record_budget_exceeded
report_window-rest r b w d = ground arith

pub report_crossed-rest :
    (r : Reservation) (b : Budget) (ws : List Window) (d : Db)
    → record (after (report_crossed r b ws d)) {
      published = d.published;
      budget_events = d.budget_events;
    }
      ≡ d
unfolding report_crossed
report_crossed-rest r b [] d = refl
report_crossed-rest r b (w ∷ ws) d =
    ground (
      arith,
      report_window-rest r b w d,
      report_crossed-rest r b ws (after (report_window r b w d)),
    )

-- A failure of the accounting leaves the money as it was, and the plugin disabled.
abbrev pub Stops : Reservation → Db → Outcome (Unit {0}) → Type 0
Stops r d o =
    ((after o).reservations ≡ d.reservations)
    × ((after o).spend ≡ d.spend)
    × ((after o).budgets ≡ d.budgets)
    × (is_enabled r.plugin (after o) ≡ false)

pub accounting_failure-Stops :
    (now : Time) (rid : Bytes) (r : Reservation) (n : ℕ) (d : Db)
    → Stops r d (accounting_failure now rid r n d)
unfolding accounting_failure read_state_row
accounting_failure-Stops now rid r n d =
    let d1 = record d {
      states = update r.plugin (λ st. record st { accounting_failed_at = some now }) d.states;
      published = accounting_event r.plugin rid r.maximum n ∷ d.published;
    } in
    let e = after (disable_tx now r.plugin actor_system reason_accounting d1) in
    ground (
      arith,
      disable_tx-is_enabled now r.plugin actor_system reason_accounting d1,
      disable_tx-rest now r.plugin actor_system reason_accounting d1,
      report_crossed-rest r (budget_of r.plugin e) all_windows e,
    )
