-- ===== src/Policy/Store.antt =====
-- internal/core/policy/store.go. A reservation's id is drawn by the caller of the model; an id that
-- is taken violates the primary key.
use control_center.Common.Word.{half64, neg64, add64, le64}
use control_center.Common.{
  ℕ, ◌+◌, none, some, List, [], ◌∷◌, if◌then◌else◌, ◌==◌, ltb, Bytes, codes, bytes_eq, bytes_key,
  length, lookup, upsert, update,
}
use control_center.Policy.Types.{
  Time, Window, hour_window, day_window, month_window, all_windows, period_start, exceed_disable,
  Budget, limit_for, plugin_disabled, negative_amount, budget_exceeded, sql_error, Reservation,
  Period, period_key, accounting_event, Db, done, failed, M, ◌>>=◌, ◌>>◌, return, fail, modify,
  in_tx,
}
use control_center.Policy.Queries.{
  read_state_row, window_usage, take_reservation, committed_in, pinned, record_budget_exceeded,
  publish,
}
use control_center.Policy.Admin.{actor_system, disable_tx}

abbrev pub reason_budget_exceeded : Bytes
reason_budget_exceeded = codes "budget_exceeded"

abbrev pub reason_accounting : Bytes
reason_accounting = codes "accounting_invariant_failed"

unfoldable pub check_work : Bytes → M (Unit {0})
check_work id = do st ← read_state_row id; if st.enabled then return tt else fail plugin_disabled

abbrev pub current : Time → Bytes → Window → Period
current now id w = record { plugin = id; window = w; start = period_start w now }

-- What a rejected reservation writes.
unfoldable pub reject_spend : Time → Period → Budget → ℕ → ℕ → M (Unit {0})
reject_spend now k b reserved committed = do
  record_budget_exceeded k (limit_for b k.window) reserved committed b.on_exceed
  (if bytes_eq b.on_exceed exceed_disable
      then disable_tx now k.plugin actor_system reason_budget_exceeded
      else return tt)
  fail (budget_exceeded k.window)

-- The loop of ReserveSpendTx over the windows.
unfoldable pub admit_windows : Time → Bytes → ℕ → Budget → List Window → M (Unit {0})
admit_windows now id maximum b [] = return tt
admit_windows now id maximum b (w ∷ ws) =
    let rest = admit_windows now id maximum b ws in
    if limit_for b w == 0 then rest else do
      (reserved, committed) ← window_usage (current now id w)
      if le64 (add64 (add64 reserved committed) maximum) (limit_for b w)
          then rest
          else reject_spend now (current now id w) b reserved committed

-- The row that ReserveSpendTx inserts.
abbrev pub new_reservation : Time → Bytes → ℕ → Reservation
new_reservation now id maximum = record {
  plugin = id;
  maximum = maximum;
  admitted_at = now;
  hour_start = period_start hour_window now;
  day_start = period_start day_window now;
  month_start = period_start month_window now;
}

unfoldable pub insert_reservation : Bytes → Reservation → M (Unit {0})
insert_reservation rid r d = elim (lookup rid d.reservations) [
  | none ↦ done tt (record d { reservations = (rid, r) ∷ d.reservations })
  | some _ ↦ failed sql_error d
]

unfoldable pub reserve_spend_tx : Time → Bytes → Bytes → ℕ → M Reservation
reserve_spend_tx now rid id maximum = if neg64 maximum then fail negative_amount else do
  st ← read_state_row id
  (if st.enabled
      then (do
        admit_windows now id maximum st.budget all_windows
        insert_reservation rid (new_reservation now id maximum)
        return (new_reservation now id maximum))
      else fail plugin_disabled)

-- The row that the upsert of SettleSpendTx writes: committed_microusd + excluded.committed_microusd.
unfoldable pub add_spend : Period → ℕ → Db → Db
add_spend k actual d = elim (lookup k d.spend) [
  | none ↦ record d { spend = upsert k actual d.spend }
  | some old ↦ record d { spend = upsert k (old + actual) d.spend }
]

-- The upsert itself: a sum past int64 is a REAL, which the INTEGER column of a STRICT table refuses.
unfoldable pub commit_in : Period → ℕ → M (Unit {0})
commit_in k actual d =
    if ltb (committed_in k d + actual) half64
    then done tt (add_spend k actual d)
    else failed sql_error d

unfoldable pub commit_all : Reservation → ℕ → List Window → M (Unit {0})
commit_all r actual [] = return tt
commit_all r actual (w ∷ ws) = do commit_in (pinned w r) actual; commit_all r actual ws

-- One round of the loop of SettleSpendTx that reports the windows which the charge crossed.
unfoldable pub report_window : Reservation → Budget → Window → M (Unit {0})
report_window r b w = if limit_for b w == 0 then return tt else do
  (reserved, committed) ← window_usage (pinned w r)
  if le64 (add64 reserved committed) (limit_for b w)
      then return tt
      else record_budget_exceeded (pinned w r) (limit_for b w) reserved committed b.on_exceed

unfoldable pub report_crossed : Reservation → Budget → List Window → M (Unit {0})
report_crossed r b [] = return tt
report_crossed r b (w ∷ ws) = do report_window r b w; report_crossed r b ws

unfoldable pub accounting_failure : Time → Bytes → Reservation → ℕ → M (Unit {0})
accounting_failure now rid r actual = do
  modify λ d. record d {
    states = update r.plugin (λ st. record st { accounting_failed_at = some now }) d.states;
  }
  publish (accounting_event r.plugin rid r.maximum actual)
  disable_tx now r.plugin actor_system reason_accounting
  st ← read_state_row r.plugin
  report_crossed r st.budget all_windows

unfoldable pub settle_spend_tx : Time → Bytes → ℕ → M (Unit {0})
settle_spend_tx now rid actual = if neg64 actual then fail negative_amount else do
  r ← take_reservation rid
  commit_all r actual all_windows
  if le64 actual r.maximum then return tt else accounting_failure now rid r actual

unfoldable pub release_spend_tx : Bytes → M (Unit {0})
release_spend_tx rid = do r ← take_reservation rid; return tt

-- Each orphan is settled in a transaction of its own; the first error ends the loop.
unfoldable pub settle_all : Time → List (Bytes × Reservation) → M (Unit {0})
settle_all now [] = return tt
settle_all now ((rid, r) ∷ rs) = do in_tx (settle_spend_tx now rid r.maximum); settle_all now rs

-- `orphans` is the result of the SELECT, whose order is that of admission.
unfoldable pub settle_orphaned_reservations :
    Time → (order : List (Bytes × Reservation) → List (Bytes × Reservation)) → M ℕ
settle_orphaned_reservations now order d =
    let orphans = order d.reservations in (do settle_all now orphans; return (length orphans)) d
