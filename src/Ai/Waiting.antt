-- ===== src/Ai/Waiting.antt =====
-- The tables between the two transactions of execute of internal/core/ai/dispatch.go.
use control_center.Common.{
  ℕ, ◌≡◌, refl, true, none, some, List, ◌∷◌, arith, Bytes, bytes_eq_refl, bytes_key, lookup, update,
  delete, delete_absent,
}
use control_center.Policy.Types.{
  Db, Error, budget_exceeded, Outcome, done, failed, Reservation, is_domain_rejection,
}
use control_center.Policy.Store.{reserve_spend_tx}
use control_center.Policy.Admission.{reserve-done}
use control_center.Policy.Rejection.{reserve_rejection}
use control_center.Ai.Records.{CallRow, attempt_key, World}
use control_center.Ai.Calls.{
  Ticket, pending_row, Admission, admitted, not_admitted, reserve_call, admit_call,
}
use control_center.Ai.Accounts.{Untouched, with_reservation}

-- The row of a call that holds its reservation.
abbrev pub waiting_row : Ticket → ℕ → CallRow
waiting_row t maximum = record (pending_row t maximum) { reservation_id = t.reservation_id }

-- What stands between the two transactions.
pub record Waits (t : Ticket) (maximum : ℕ) (w w' : World) : Type 0 where
  pub fresh : lookup t.reservation_id w.money.reservations ≡ none
  pub held : w'.money ≡ with_reservation t maximum w.money
  pub row : lookup t.call_id w'.calls ≡ some (waiting_row t maximum)

pub Waits-Untouched :
    (t : Ticket) (maximum : ℕ) (w w1 w2 : World)
    → Waits t maximum w w1
    → Untouched w1 w2
    → Waits t maximum w w2
Waits-Untouched t maximum w w1 w2 a u = record {
  fresh = a.fresh;
  held = ground (arith, a.held);
  row = ground (arith, a.row);
}

abbrev pub Unpaid : World → World → Type 0
Unpaid w w' =
    (w'.money.reservations ≡ w.money.reservations)
    × (w'.money.spend ≡ w.money.spend)
    × (w'.calls ≡ w.calls)

abbrev pub AdmissionLeaves : Ticket → ℕ → World → Admission → Type 0
AdmissionLeaves t maximum w (admitted w') = Waits t maximum w w'
AdmissionLeaves t maximum w (not_admitted x w') = Unpaid w w'

waiting-lookup :
    (t : Ticket) (maximum : ℕ) (calls : List (Bytes × CallRow))
    → lookup t.call_id (
        update t.call_id
          (λ row. record row { reservation_id = t.reservation_id })
          ((t.call_id, pending_row t maximum) ∷ calls))
      ≡ some (waiting_row t maximum)
unfolding lookup update
waiting-lookup t maximum calls = ground (arith, bytes_eq_refl t.call_id)

module _ (t : Ticket) (maximum : ℕ) (w : World) where
  reserved-Leaves :
      (r : Reservation) (d : Db) (calls : List (Bytes × CallRow))
      → reserve_spend_tx t.started t.reservation_id t.plugin maximum w.money ≡ done r d
      → Waits t maximum w (record w {
        money = d;
        calls =
            update t.call_id
              (λ row. record row { reservation_id = t.reservation_id })
              ((t.call_id, pending_row t maximum) ∷ calls);
      })
  reserved-Leaves r d calls h =
      let (_, _, fresh, r_eq, d_eq) =
        reserve-done t.started t.reservation_id t.plugin maximum w.money d r h in
      record { fresh = fresh; held = cc; row = waiting-lookup t maximum calls }

  rejected-Leaves :
      (x : Error) (d : Db)
      → lookup t.call_id w.calls ≡ none
      → reserve_spend_tx t.started t.reservation_id t.plugin maximum w.money ≡ failed x d
      → is_domain_rejection x ≡ true
      → Unpaid w (record w {
        money = d;
        calls = delete t.call_id ((t.call_id, pending_row t maximum) ∷ w.calls);
      })
  unfolding is_domain_rejection delete
  rejected-Leaves (budget_exceeded v) d absent h e =
      let refusal = reserve_rejection t.started t.reservation_id t.plugin maximum v w.money d h in
      (
        refusal.reserved_same,
        refusal.spend_same,
        ground (arith, bytes_eq_refl t.call_id, delete_absent t.call_id w.calls absent),
      )
  rejected-Leaves _ d absent h e = absurd cc

  reserve_call-Leaves :
      lookup t.call_id w.calls ≡ none → AdmissionLeaves t maximum w (reserve_call t maximum w)
  unfolding reserve_call
  reserve_call-Leaves absent =
      go (reserve_spend_tx t.started t.reservation_id t.plugin maximum w.money) refl
    where
      go :
          (o : Outcome Reservation)
          → reserve_spend_tx t.started t.reservation_id t.plugin maximum w.money ≡ o
          → AdmissionLeaves t maximum w (reserve_call t maximum w)
      go (done r d) e = ground (arith, reserved-Leaves r d w.calls e)
      go (failed x d) e = ground (arith, rejected-Leaves x d absent e)

  pub admit_call-Leaves : AdmissionLeaves t maximum w (admit_call t maximum w)
  unfolding admit_call
  admit_call-Leaves = ground (arith, reserve_call-Leaves)
