-- ===== src/Policy/Overflow.antt =====
-- The sum of ReserveSpendTx of internal/core/policy/store.go, in int64.
use control_center.Common.Word.{half64, mod64, add64, le64}
use control_center.Common.{
  ℕ, ◌+◌, ◌≤◌, ◌<◌, ◌≡◌, refl, true, none, List, [], ◌∷◌, arith, inl, inr, le→leb, Bytes, bytes_key,
  lookup, All,
}
use control_center.Policy.Types.{
  Time, Window, hour_window, day_window, month_window, all_windows, Budget, limit_for, Db, done,
}
use control_center.Policy.Queries.{
  reserved_in, committed_in, window_usage, budget_of, read_state_row,
}
use control_center.Policy.View.{usage, is_enabled}
use control_center.Policy.Admission.{Admits, usage-reserve}
use control_center.Policy.Store.{
  current, admit_windows, new_reservation, insert_reservation, reserve_spend_tx,
}

-- Where every window admits, the loop passes and changes nothing.
admit_windows_complete :
    (now : Time) (id : Bytes) (maximum : ℕ) (b : Budget) (ws : List Window) (d : Db)
    → All (Admits now id maximum b d) ws
    → admit_windows now id maximum b ws d ≡ done tt d
unfolding admit_windows window_usage
admit_windows_complete now id maximum b [] d a = refl
admit_windows_complete now id maximum b (w ∷ ws) d a =
    ground (arith, admit_windows_complete now id maximum b ws d)

reserve_complete :
    (now : Time) (rid id : Bytes) (maximum : ℕ) (d : Db)
    → is_enabled id d ≡ true
    → lookup rid d.reservations ≡ none
    → maximum < half64
    → All (Admits now id maximum (budget_of id d) d) all_windows
    → reserve_spend_tx now rid id maximum d
      ≡ done
          (new_reservation now id maximum)
          (record d { reservations = (rid, new_reservation now id maximum) ∷ d.reservations })
unfolding reserve_spend_tx read_state_row insert_reservation
reserve_complete now rid id maximum d on fresh small a =
    ground (arith, admit_windows_complete now id maximum (budget_of id d) all_windows d a)

wraps :
    (u c m l : ℕ)
    → half64 ≤ u + c + m
    → u + c + m < mod64
    → l < half64
    → le64 (add64 (add64 u c) m) l ≡ true
wraps u c m l lo hi small = le→leb _ _ (omega arith)

-- An enabled plugin with no daily and no monthly limit is admitted whenever reserved, committed and
-- maximum, each an int64 that is not negative, add up to 2 ^ 63 or more but less than 2 ^ 64, under a
-- reservation id that is not taken: the sum wraps below zero, and the usage of the hour is then above
-- the hourly limit.
pub reserve_overflow :
    (now : Time) (rid id : Bytes) (maximum : ℕ) (d : Db)
    → is_enabled id d ≡ true
    → lookup rid d.reservations ≡ none
    → maximum < half64
    → reserved_in (current now id hour_window) d.reservations < half64
    → committed_in (current now id hour_window) d < half64
    → half64 ≤ usage (current now id hour_window) d + maximum
    → usage (current now id hour_window) d + maximum < mod64
    → limit_for (budget_of id d) hour_window < half64
    → limit_for (budget_of id d) day_window ≡ 0
    → limit_for (budget_of id d) month_window ≡ 0
    → let d' = record d { reservations = (rid, new_reservation now id maximum) ∷ d.reservations } in
      (reserve_spend_tx now rid id maximum d ≡ done (new_reservation now id maximum) d')
      × (limit_for (budget_of id d) hour_window < usage (current now id hour_window) d')
reserve_overflow now rid id maximum d on fresh small r c lo hi l day month =
    let k = current now id hour_window in
    let h = reserve_complete now rid id maximum d on fresh small (
      inr (
        wraps (reserved_in k d.reservations) (committed_in k d) maximum
            (limit_for (budget_of id d) hour_window) lo hi l,
        r,
        c,
      ),
      (inl day, (inl month, tt)),
    ) in
    (
      h,
      omega (
        arith,
        (usage-reserve now rid id maximum hour_window d _ (new_reservation now id maximum) h).0,
      ),
    )
