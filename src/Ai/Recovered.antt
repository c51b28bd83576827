-- ===== src/Ai/Recovered.antt =====
-- recover and finalizeConservative of internal/core/ai/service.go.
use control_center.Common.Word.{half64}
use control_center.Common.{
  ◌⊎◌, ℕ, ◌≤◌, ◌<◌, ◌≡◌, refl, sym, subst, false, none, some, List, [], ◌∷◌, arith, Bytes, bytes_eq,
  bytes_key, lookup, update, delete, lookup-delete, All, inl, inr,
}
use control_center.Policy.Types.{
  Time, Window, hour_window, day_window, month_window, all_windows, Db, done, failed, after,
  Reservation, Period, is_unknown_reservation, unknown_reservation,
}
use control_center.Policy.Commit.{Distinct, Fits, reserved_in-delete}
use control_center.Policy.View.{usage, period_eq_refl}
use control_center.Policy.Settlement.{Fits-Commits, settle_within, settle-tables}
use control_center.Policy.Queries.{committed_in, pinned, take_reservation}
use control_center.Policy.Store.{settle_spend_tx}
use control_center.Ai.Records.{CallRow, attempt_key, World}
use control_center.Ai.Finished.{OnlyMoney}
use control_center.Ai.Calls.{Ticket}
use control_center.Ai.Accounts.{Pays, settle-Pays, call_reservation, reservation_found}
use control_center.Ai.Waiting.{Waits}
use control_center.Ai.Recovery.{
  fail_pending, Recovered, recovered, recovery_failed, finalize_conservative, reason_recovered,
}

-- The reservation that a row names is gone, or it holds what the row says.
abbrev pub IsLinked : Db → CallRow → Type 0
IsLinked d row =
    (row.reserved < half64)
    × ((lookup row.reservation_id d.reservations ≡ none)
        ⊎ ((r : Reservation) × (lookup row.reservation_id d.reservations ≡ some r)
            × (r.maximum ≡ row.reserved)))

pub Distinct-delete :
    (id : Bytes) (rs : List (Bytes × Reservation)) → Distinct rs → Distinct (delete id rs)
unfolding delete
Distinct-delete id [] v = tt
Distinct-delete id ((j, r) ∷ rs) v =
    ground (arith, Distinct-delete id rs v.1, lookup-delete id j rs)

-- What one settlement at the recorded maximum does to the policy tables.
pub record IsSettled (rid : Bytes) (d d' : Db) : Type 0 where
  pub only : OnlyMoney d d'
  pub less : (k : Period) → usage k d' ≤ usage k d
  pub gone : (d'.reservations ≡ delete rid d.reservations) ⊎ (d'.reservations ≡ d.reservations)

settle_unknown :
    (now : Time) (rid : Bytes) (n : ℕ) (d : Db)
    → n < half64
    → lookup rid d.reservations ≡ none
    → settle_spend_tx now rid n d ≡ failed (unknown_reservation rid) d
unfolding settle_spend_tx take_reservation
settle_unknown now rid n d small e = ground arith

unsettled : (rid : Bytes) (d : Db) → IsSettled rid d d
unsettled rid d = record { only = refl; less = λ k. omega arith; gone = inr refl }

settle_known :
    (now : Time) (rid : Bytes) (d : Db) (r : Reservation)
    → Distinct d.reservations
    → lookup rid d.reservations ≡ some r
    → r.maximum < half64
    → All (Fits r r.maximum d) all_windows
    → let d' = after (settle_spend_tx now rid r.maximum d) in
      (settle_spend_tx now rid r.maximum d ≡ done tt d') × IsSettled rid d d'
settle_known now rid d r v e small fit =
    let le : r.maximum ≤ r.maximum = omega arith in
    (
      (settle_within now rid r.maximum d r (pinned hour_window r) v e small le fit).0,
      record {
        only = (settle_within now rid r.maximum d r (pinned hour_window r) v e small le fit).1;
        less = λ k. (settle_within now rid r.maximum d r k v e small le fit).2;
        gone = inl (
            (settle-tables now rid r.maximum d r e small (Fits-Commits rid r r.maximum d fit)
              (pinned hour_window r)).0);
      },
    )

-- The usage of every period fits in int64.
abbrev pub IsCountable : Db → Type 0
IsCountable d = (k : Period) → usage k d < half64

-- A reservation's maximum counts in the usage of the periods that it pins.
IsCountable-Fits :
    (rid : Bytes) (d : Db) (r : Reservation) (w : Window)
    → Distinct d.reservations
    → lookup rid d.reservations ≡ some r
    → IsCountable d
    → Fits r r.maximum d w
IsCountable-Fits rid d r w v e count = ground (
  arith,
  count (pinned w r),
  reserved_in-delete (pinned w r) rid r d.reservations v e,
  period_eq_refl (pinned w r),
)

abbrev pub Recovers : Bytes → World → ℕ → Time → Bytes → Recovered → Type 0
Recovers call_id w maximum now rid (recovery_failed x w') = ⊥
Recovers call_id w maximum now rid (recovered w') =
    (w'.calls ≡ update call_id (fail_pending now maximum reason_recovered) w.calls)
    × IsSettled rid w.money w'.money

pub finalize_conservative-Recovers :
    (now : Time) (call_id : Bytes) (row : CallRow) (w : World)
    → Distinct w.money.reservations
    → IsCountable w.money
    → IsLinked w.money row
    → Recovers call_id w row.reserved now row.reservation_id
        (finalize_conservative now call_id row.reservation_id row.reserved reason_recovered w)
unfolding finalize_conservative is_unknown_reservation
finalize_conservative-Recovers now call_id row w v count (small, inl e) = ground (
  arith,
  unsettled row.reservation_id w.money,
  settle_unknown now row.reservation_id row.reserved w.money small e,
)
finalize_conservative-Recovers now call_id row w v count (small, inr (r, e, m)) =
    let fits = λ (x : Window). IsCountable-Fits row.reservation_id w.money r x v e count in
    ground (
      arith,
      unsettled row.reservation_id w.money,
      settle_known now row.reservation_id w.money r v e,
      fits hour_window,
      fits day_window,
      fits month_window,
    )

-- The money after a recovery that charges a call its maximum.
abbrev pub ChargesMaximum : Ticket → ℕ → Period → World → Recovered → Type 0
ChargesMaximum t maximum k w (recovery_failed x w') = ⊥
ChargesMaximum t maximum k w (recovered w') = Pays t maximum k w.money w'.money maximum

-- A call that a stop left between its two transactions is charged its maximum, once: where
-- reservation ids were distinct, the maximum is an int64 that is not negative, the committed sum of
-- each period that the reservation pins fits in int64 with it, and the reservation's id is not
-- empty, the recovery of its row succeeds, the reserved sum of every period is what it
-- was before the call, the committed sum of the periods that the reservation pins is higher by
-- exactly the maximum, and the reservation is gone. The same holds if the sweep of the policy gate
-- has settled the reservation at its maximum first.
pub stranded_recovers :
    (t : Ticket) (maximum : ℕ) (k : Period) (w w' : World) (now : Time)
    → Distinct w.money.reservations
    → maximum < half64
    → bytes_eq t.reservation_id [] ≡ false
    → All (Fits (call_reservation t maximum) maximum w.money) all_windows
    → Waits t maximum w w'
    → let swept = record w' {
      money = after (settle_spend_tx now t.reservation_id maximum w'.money);
    } in
      ChargesMaximum t maximum k w
        (finalize_conservative now t.call_id t.reservation_id maximum reason_recovered w')
      × ChargesMaximum t maximum k w
          (finalize_conservative now t.call_id t.reservation_id maximum reason_recovered swept)
unfolding finalize_conservative is_unknown_reservation committed_in
stranded_recovers t maximum k w w' now v small named (h, (y, (m, _))) wait =
    let r = call_reservation t maximum in
    let found =
      subst (λ d. lookup t.reservation_id d.reservations ≡ some r) (sym wait.held)
        (reservation_found t maximum w.money wait.fresh) in
    let distinct = subst (λ d. Distinct d.reservations) (sym wait.held) (wait.fresh, v) in
    let fits = subst (λ d. All (Fits r maximum d) all_windows) (sym wait.held) (h, (y, (m, tt))) in
    let d' = after (settle_spend_tx now t.reservation_id maximum w'.money) in
    let (done_eq, _) = settle_known now t.reservation_id w'.money r distinct found small fits in
    let pays = settle-Pays t maximum w.money wait.fresh k v now maximum d' (
      subst (λ d. settle_spend_tx now t.reservation_id maximum d ≡ done tt d') wait.held done_eq) in
    let again = settle_unknown now t.reservation_id maximum d' small pays.2 in
    (ground arith, ground arith)
