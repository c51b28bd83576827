-- ===== src/Policy/Rejection.antt =====
-- ReserveSpendTx of internal/core/policy/store.go, where it refuses the call over a limit.
use control_center.Common.Word.{add64, le64}
use control_center.Common.{
  ℕ, ◌≡◌, ◌≢◌, subst, inl, inr, Bool-cases, Bool, true, not, ◌||◌, List, [], ◌∷◌, arith, Bytes,
  bytes_eq, bytes_key,
}
use control_center.Policy.Types.{
  Time, Window, all_windows, exceed_disable, Budget, limit_for, ◌>>=◌, ◌>>◌, fail, unknown_plugin,
  budget_exceeded, Period, Db, Outcome, done, failed, after,
}
use control_center.Policy.Queries.{
  reserved_in, committed_in, window_usage, budget_of, read_state_row, has_period,
  record_budget_exceeded,
}
use control_center.Policy.View.{is_enabled, period_eq_refl}
use control_center.Policy.Admin.{actor_system, disable_tx, write_disabled, notify_after_commit}
use control_center.Policy.Admission.{admit_windows-Passes}
use control_center.Policy.Enabling.{disable_tx-is_enabled, disable_tx-rest}
use control_center.Policy.Store.{
  current, reject_spend, admit_windows, insert_reservation, reserve_spend_tx,
  reason_budget_exceeded,
}

-- The test of the source fails: the sum, in int64, is above the limit.
abbrev pub over_limit : Time → Bytes → ℕ → Budget → Window → Db → Bool
over_limit now id maximum b w d = not (
    le64
      (add64
        (add64 (reserved_in (current now id w) d.reservations) (committed_in (current now id w) d))
        maximum)
      (limit_for b w))

-- What a rejection for window `w` says of the tables before it and after it.
pub record Refusal (now : Time) (id : Bytes) (maximum : ℕ) (b : Budget) (w : Window) (d e : Db)
    : Type 0 where
  pub finite : limit_for b w ≢ 0
  pub over : over_limit now id maximum b w d ≡ true
  pub reported : has_period (current now id w) e.budget_events ≡ true
  pub stopped : (not (bytes_eq b.on_exceed exceed_disable) || not (is_enabled id e)) ≡ true
  pub reserved_same : e.reservations ≡ d.reservations
  pub spend_same : e.spend ≡ d.spend
  pub budgets_same : e.budgets ≡ d.budgets

abbrev Refuses {ℓ} : {A : Type ℓ} → Time → Bytes → ℕ → Budget → Db → Outcome A → Type 0
Refuses now id maximum b d (failed (budget_exceeded w) e) = Refusal now id maximum b w d e
Refuses now id maximum b d _ = Unit

record-has_period :
    (k : Period) (limit reserved committed : ℕ) (action : Bytes) (d : Db)
    → has_period k
        (after (record_budget_exceeded k limit reserved committed action d)).budget_events
      ≡ true
unfolding record_budget_exceeded has_period
record-has_period k limit reserved committed action d = ground (arith, period_eq_refl k)

abbrev recorded : Period → Budget → ℕ → ℕ → Db → Db
recorded k b reserved committed d =
    after (record_budget_exceeded k (limit_for b k.window) reserved committed b.on_exceed d)

recorded-rest :
    (k : Period) (b : Budget) (reserved committed : ℕ) (d : Db)
    → record (recorded k b reserved committed d) {
      published = d.published;
      budget_events = d.budget_events;
    }
      ≡ d
unfolding record_budget_exceeded
recorded-rest k b reserved committed d = ground arith

recorded-done :
    (k : Period) (limit reserved committed : ℕ) (action : Bytes) (d : Db)
    → record_budget_exceeded k limit reserved committed action d
      ≡ done tt (after (record_budget_exceeded k limit reserved committed action d))
unfolding record_budget_exceeded
recorded-done k limit reserved committed action d = ground arith

abbrev FailsUnknown : Bytes → Outcome (Unit {0}) → Type 0
FailsUnknown id (done _ e) = Unit
FailsUnknown id (failed x e) = x ≡ unknown_plugin id

disable_tx-FailsUnknown :
    (now : Time) (id actor reason : Bytes) (d : Db)
    → FailsUnknown id (disable_tx now id actor reason d)
unfolding disable_tx read_state_row write_disabled notify_after_commit
disable_tx-FailsUnknown now id actor reason d = ground arith

module _ (now : Time) (id : Bytes) (maximum : ℕ) (b : Budget) (w : Window) (d : Db) where
  then_fail :
      (o : Outcome (Unit {0}))
      → FailsUnknown id o
      → Refusal now id maximum b w d (after o)
      → Refuses now id maximum b d (elim o [
        | done _ e ↦ fail {A = Unit {0}} (budget_exceeded w) e
        | failed x e ↦ failed x e
      ])
  then_fail (done _ e) u r = r
  then_fail (failed x e) u r = rw u tt

  reject_spend-Refuses :
      limit_for b w ≢ 0
      → over_limit now id maximum b w d ≡ true
      → Refuses now id maximum b d (
          reject_spend now
            (current now id w)
            b
            (reserved_in (current now id w) d.reservations)
            (committed_in (current now id w) d)
            d)
  unfolding reject_spend
  reject_spend-Refuses finite over =
      let k = current now id w in
      let r = reserved_in k d.reservations in
      let c = committed_in k d in
      let e = recorded k b r c d in
      let e' = after (disable_tx now id actor_system reason_budget_exceeded e) in
      let known = record-has_period k (limit_for b w) r c b.on_exceed d in
      rw (recorded-done k (limit_for b w) r c b.on_exceed d, Refuses, reject_spend, ◌>>=◌, ◌>>◌)
        (elim (Bool-cases (bytes_eq b.on_exceed exceed_disable)) [
          | inl h ↦ rw h (
              then_fail (disable_tx now id actor_system reason_budget_exceeded e)
                (disable_tx-FailsUnknown now id actor_system reason_budget_exceeded e)
                (ground (
                  arith,
                  known,
                  recorded-rest k b r c d,
                  disable_tx-is_enabled now id actor_system reason_budget_exceeded e,
                  disable_tx-rest now id actor_system reason_budget_exceeded e,
                )))
          | inr h ↦ rw h (ground (arith, known, recorded-rest k b r c d))
        ])

admit_windows-Refuses :
    (now : Time) (id : Bytes) (maximum : ℕ) (b : Budget) (ws : List Window) (d : Db)
    → Refuses now id maximum b d (admit_windows now id maximum b ws d)
unfolding admit_windows window_usage
admit_windows-Refuses now id maximum b [] d = tt
admit_windows-Refuses now id maximum b (w ∷ ws) d =
    ground (
      arith,
      admit_windows-Refuses now id maximum b ws d,
      reject_spend-Refuses now id maximum b w d,
    )

reserve-Refuses :
    (now : Time) (rid id : Bytes) (maximum : ℕ) (d : Db)
    → Refuses now id maximum (budget_of id d) d (reserve_spend_tx now rid id maximum d)
unfolding reserve_spend_tx read_state_row insert_reservation
reserve-Refuses now rid id maximum d = ground (
  arith,
  admit_windows-Passes now id maximum (budget_of id d) all_windows d,
  admit_windows-Refuses now id maximum (budget_of id d) all_windows d,
)

-- A refused reservation names a finite limit that the int64 sum of reserved, committed and maximum
-- exceeds. It has reported the period, has disabled the plugin if the budget says so, and has changed
-- no reservation, no committed spend and no budget.
pub reserve_rejection :
    (now : Time) (rid id : Bytes) (maximum : ℕ) (w : Window) (d e : Db)
    → reserve_spend_tx now rid id maximum d ≡ failed (budget_exceeded w) e
    → Refusal now id maximum (budget_of id d) w d e
reserve_rejection now rid id maximum w d e h =
    subst (Refuses now id maximum (budget_of id d) d) h (reserve-Refuses now rid id maximum d)
