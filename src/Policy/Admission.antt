-- ===== src/Policy/Admission.antt =====
-- ReserveSpendTx of internal/core/policy/store.go, where it admits the call.
use control_center.Common.Word.{half64, neg64, add64, le64}
use control_center.Common.{
  ℕ, ◌+◌, ◌≤◌, ◌<◌, ◌≡◌, ◌≢◌, ◌⊎◌, inl, inr, true, false, none, some, List, [], ◌∷◌, arith, Bytes,
  bytes_eq_refl, bytes_key, All, lookup, leb→le,
}
use control_center.Policy.Types.{
  Time, Window, hour_window, day_window, month_window, all_windows, Budget, limit_for, Reservation,
  Period, Db, Outcome, done, failed,
}
use control_center.Policy.Queries.{
  reserved_in, committed_in, window_usage, budget_of, read_state_row, start_of,
}
use control_center.Policy.View.{usage, period_eq_refl}
use control_center.Policy.Store.{
  current, reject_spend, admit_windows, new_reservation, insert_reservation, reserve_spend_tx,
}

abbrev pub Admits : Time → Bytes → ℕ → Budget → Db → Window → Type 0
Admits now id maximum b d w =
    (limit_for b w ≡ 0)
    ⊎ ((le64
            (add64
              (add64 (reserved_in (current now id w) d.reservations)
                (committed_in (current now id w) d))
              maximum)
            (limit_for b w)
          ≡ true)
        × (reserved_in (current now id w) d.reservations < half64)
        × (committed_in (current now id w) d < half64))

abbrev Fails : Outcome (Unit {0}) → Type 0
Fails (done _ e) = ⊥
Fails (failed x e) = Unit

reject_spend-Fails :
    (now : Time) (k : Period) (b : Budget) (reserved committed : ℕ) (d : Db)
    → Fails (reject_spend now k b reserved committed d)
unfolding reject_spend
reject_spend-Fails now k b reserved committed d = ground arith

-- The windows let the call pass and change nothing, or they refuse it.
abbrev pub Passes {ℓ} : Type ℓ → Db → Outcome (Unit {0}) → Type ℓ
Passes P d (done _ e) = (e ≡ d) × P
Passes P d (failed x e) = Unit

pub admit_windows-Passes :
    (now : Time) (id : Bytes) (maximum : ℕ) (b : Budget) (ws : List Window) (d : Db)
    → Passes (All (Admits now id maximum b d) ws) d (admit_windows now id maximum b ws d)
unfolding admit_windows window_usage
admit_windows-Passes now id maximum b [] d = ground arith
admit_windows-Passes now id maximum b (w ∷ ws) d = ground (
  arith,
  admit_windows-Passes now id maximum b ws d,
  reject_spend-Fails now (current now id w) b (reserved_in (current now id w) d.reservations)
      (committed_in (current now id w) d) d,
)

-- What ReserveSpendTx has found when it admits a call.
abbrev pub Admitted : Time → Bytes → Bytes → ℕ → Db → Reservation → Db → Type 0
Admitted now rid id maximum d r d' =
    (neg64 maximum ≡ false)
    × All (Admits now id maximum (budget_of id d) d) all_windows
    × (lookup rid d.reservations ≡ none)
    × (r ≡ new_reservation now id maximum)
    × (d' ≡ record d { reservations = (rid, r) ∷ d.reservations })

pub reserve-done :
    (now : Time) (rid id : Bytes) (maximum : ℕ) (d d' : Db) (r : Reservation)
    → reserve_spend_tx now rid id maximum d ≡ done r d'
    → Admitted now rid id maximum d r d'
unfolding reserve_spend_tx read_state_row insert_reservation
reserve-done now rid id maximum d d' r h =
    ground (arith, admit_windows-Passes now id maximum (budget_of id d) all_windows d)

usage-reserve_at :
    (now : Time) (rid id : Bytes) (maximum : ℕ) (w : Window) (d : Db)
    → usage
        (current now id w)
        (record d { reservations = (rid, new_reservation now id maximum) ∷ d.reservations })
      ≡ usage (current now id w) d + maximum
unfolding reserved_in committed_in start_of
usage-reserve_at now rid id maximum hour_window d =
    ground (arith, period_eq_refl (current now id hour_window))
usage-reserve_at now rid id maximum day_window d =
    ground (arith, period_eq_refl (current now id day_window))
usage-reserve_at now rid id maximum month_window d =
    ground (arith, period_eq_refl (current now id month_window))

-- An admitted reservation raises the usage of each current period by its maximum, and changes no
-- other table: no committed spend, no state, no budget, no event, no watcher call.
pub usage-reserve :
    (now : Time) (rid id : Bytes) (maximum : ℕ) (w : Window) (d d' : Db) (r : Reservation)
    → reserve_spend_tx now rid id maximum d ≡ done r d'
    → (usage (current now id w) d' ≡ usage (current now id w) d + maximum)
      × (lookup rid d'.reservations ≡ some r)
      × (record d' { reservations = d.reservations } ≡ d)
unfolding lookup
usage-reserve now rid id maximum w d d' r h = ground (
  arith,
  reserve-done now rid id maximum d d' r h,
  usage-reserve_at now rid id maximum w d,
  bytes_eq_refl rid,
)

abbrev Fits : Time → Bytes → ℕ → Db → Window → Type 0
Fits now id maximum d w = usage (current now id w) d + maximum < half64

within_of_Admits :
    (now : Time) (id : Bytes) (maximum : ℕ) (b : Budget) (d : Db) (w : Window)
    → Admits now id maximum b d w
    → Fits now id maximum d w
    → limit_for b w < half64
    → limit_for b w ≢ 0
    → usage (current now id w) d + maximum ≤ limit_for b w
within_of_Admits now id maximum b d w (inl e) f l n = absurd (n e)
within_of_Admits now id maximum b d w (inr (e, _, _)) f l n = omega (arith, leb→le)

-- Where a call is admitted, the usage of each current period with a finite limit stays within that
-- limit, if the limit is an int64 that is not negative and the usage with the maximum fits in int64.
pub reserve_within_limit :
    (now : Time) (rid id : Bytes) (maximum : ℕ) (w : Window) (d d' : Db) (r : Reservation)
    → reserve_spend_tx now rid id maximum d ≡ done r d'
    → usage (current now id w) d + maximum < half64
    → limit_for (budget_of id d) w < half64
    → limit_for (budget_of id d) w ≢ 0
    → usage (current now id w) d' ≤ limit_for (budget_of id d) w
reserve_within_limit now rid id maximum w d d' r h f l n =
    let (_, a, _, _, _) = reserve-done now rid id maximum d d' r h in
    rw ((usage-reserve now rid id maximum w d d' r h).0)
      (within_of_Admits now id maximum (budget_of id d) d w (at_window w a) f l n)
  where
    at_window :
        (w : Window)
        → All (Admits now id maximum (budget_of id d) d) all_windows
        → Admits now id maximum (budget_of id d) d w
    at_window hour_window a = a.0
    at_window day_window a = a.1.0
    at_window month_window a = a.1.1.0
