-- ===== src/Ai/Ledger.antt =====
-- The tables after execute of internal/core/ai/dispatch.go, however it ends.
use control_center.Common.{
  ℕ, ◌≡◌, refl, sym, subst, Bool, true, false, Option, none, some, List, [], ◌∷◌, arith,
  if◌then◌else◌, Bytes, bytes_eq, bytes_eq_refl, bytes_key, lookup, length, lookup-update,
}
use control_center.Policy.Types.{Db, Outcome, done, failed, Period}
use control_center.Policy.Commit.{Distinct}
use control_center.Ai.Route.{Attempt}
use control_center.Ai.Records.{
  CallRow, attempt_key, World, Answer, Progress, AttemptOutcome, CallEnd, answered, call_failed,
  refused, stranded,
}
use control_center.Ai.Dispatch.{LoopEnd, loop_done, loop_error, dispatch_all}
use control_center.Ai.Calls.{
  status_succeeded, Ticket, Admission, admitted, not_admitted, admit_call, start_progress, Closing,
  closing, charged, pay, write_outcome, write_outcomes, finish_row, finalize_call, call_end,
  close_call, run_admitted, execute,
}
use control_center.Ai.Accounts.{
  Untouched, LoopUntouched, dispatch_all-LoopUntouched, Pays, pay-Pays,
}
use control_center.Ai.Waiting.{
  Waits, Waits-Untouched, Unpaid, waiting_row, AdmissionLeaves, admit_call-Leaves,
}

-- What the call has done to a period when it is finalized.
pub record Settles (t : Ticket) (maximum : ℕ) (k : Period) (w w' : World) (row : CallRow)
    : Type 0 where
  pub stored : lookup t.call_id w'.calls ≡ some row
  pub closed : row.finalized_at ≡ some t.finished
  pub paid : Pays t maximum k w.money w'.money row.settled

-- What a call leaves, by how it ends.
abbrev pub Leaves : Ticket → ℕ → Period → World → CallEnd × World → Type 0
Leaves t maximum k w (refused x, w') = Unpaid w w'
Leaves t maximum k w (stranded, w') = Waits t maximum w w'
Leaves t maximum k w (answered r u, w') =
    (row : CallRow) × Settles t maximum k w w' row × (u.cost ≡ row.settled)
Leaves t maximum k w (call_failed status class detail, w') =
    (row : CallRow) × Settles t maximum k w w' row

write_outcomes-rest :
    (call_id : Bytes) (unknown : Bool) (outcomes : List AttemptOutcome) (w : World)
    → Untouched w (write_outcomes call_id unknown outcomes w)
unfolding write_outcomes write_outcome
write_outcomes-rest call_id unknown [] w = refl
write_outcomes-rest call_id unknown (oc ∷ rest) w =
    ground (arith, write_outcomes-rest call_id unknown rest (write_outcome call_id unknown oc w))

module _ (t : Ticket) (maximum : ℕ) (k : Period) (w : World)
    (distinct : Distinct w.money.reservations) where
  module _ (c : Closing) (p : Progress) (w2 w3 : World) (wait : Waits t maximum w w2)
      (h : finalize_call t c p w2 ≡ some w3) where
    -- The row that the finished call leaves.
    last_row : CallRow
    last_row = finish_row t c (waiting_row t maximum)

    pay_done : (d : Db) → pay t c w2.money ≡ done tt d → Pays t maximum k w.money d (charged c)
    pay_done d e =
        pay-Pays t maximum w.money wait.fresh k distinct c d
          (subst (λ m. pay t c m ≡ done tt d) wait.held e)

    finished :
        (d : Db)
        → pay t c w2.money ≡ done tt d
        → (w3.money ≡ d) × (lookup t.call_id w3.calls ≡ some last_row)
    unfolding finalize_call last_row
    finished d e = ground (
      arith,
      wait.row,
      bytes_eq_refl t.call_id,
      write_outcomes-rest t.call_id p.unknown_bill p.outcomes w2,
      lookup-update t.call_id t.call_id (finish_row t c) w2.calls,
    )

    finalize_call-Settles : Settles t maximum k w w3 last_row
    unfolding finalize_call finish_row last_row
    finalize_call-Settles = by_pay (pay t c w2.money) refl
      where
        by_pay : (o : Outcome (Unit {0})) → pay t c w2.money ≡ o → Settles t maximum k w w3 last_row
        by_pay (failed x d) e = absurd (ground arith)
        by_pay (done _ d) e =
            let (m, stored) = finished d e in
            record {
              stored = stored;
              closed = refl;
              paid = subst (λ z. Pays t maximum k w.money z (charged c)) (sym m) (pay_done d e);
            }

    finalize_call-Leaves : Leaves t maximum k w (call_end c p, w3)
    unfolding call_end finish_row last_row
    finalize_call-Leaves = by_status (bytes_eq c.status status_succeeded)
      where
        by_status :
            (b : Bool)
            → Leaves t maximum k w (
              (if b
                  then answered p.ok_result (record {
                    input_tokens = p.in_tok;
                    output_tokens = p.out_tok;
                    cost = charged c;
                    attempts = length p.outcomes;
                  })
                  else call_failed c.status c.err_class p.err_detail),
              w3,
            )
        by_status true = (last_row, finalize_call-Settles, refl)
        by_status false = (last_row, finalize_call-Settles)

  close_call-Leaves :
      (p : Progress) (w2 : World)
      → Waits t maximum w w2
      → Leaves t maximum k w (close_call t maximum p w2)
  unfolding close_call
  close_call-Leaves p w2 wait = go (finalize_call t (closing maximum p) p w2) refl
    where
      go :
          (o : Option World)
          → finalize_call t (closing maximum p) p w2 ≡ o
          → Leaves t maximum k w
              (elim o [ none ↦ (stranded, w2) | some w3 ↦ (call_end (closing maximum p) p, w3) ])
      go none e = wait
      go (some w3) e = finalize_call-Leaves (closing maximum p) p w2 w3 wait e

  run_admitted-Leaves :
      (truncate : Bytes → Bytes) (adapters : List Bytes) (attempts : List Attempt)
      (answers : ℕ → Answer) (w1 : World)
      → Waits t maximum w w1
      → Leaves t maximum k w (run_admitted truncate adapters t attempts maximum answers w1)
  unfolding run_admitted
  run_admitted-Leaves truncate adapters attempts answers w1 wait =
      go (dispatch_all truncate t.call_id maximum adapters answers 1 attempts start_progress w1) (
        dispatch_all-LoopUntouched truncate t.call_id maximum adapters answers 1 attempts
          start_progress w1)
    where
      go :
          (e : LoopEnd)
          → LoopUntouched w1 e
          → Leaves t maximum k w (elim e [
            | loop_error w2 ↦ (stranded, w2)
            | loop_done p w2 ↦ close_call t maximum p w2
          ])
      go (loop_error w2) u = Waits-Untouched t maximum w w1 w2 wait u
      go (loop_done p w2) u = close_call-Leaves p w2 (Waits-Untouched t maximum w w1 w2 wait u)

  -- However a call ends, its money is accounted for, where reservation ids are distinct. A call
  -- that is refused changes neither reservations nor spend nor the rows of the calls. A call that
  -- is finalized, with an answer or an error, leaves a closed row, holds no reservation, leaves the
  -- reserved sum of every period as it was, and raises the committed sum of the periods that it
  -- pins by exactly what its row and its answer report. A call that returns in between holds its
  -- maximum and a pending row that names the reservation.
  pub execute_accounts :
      (truncate : Bytes → Bytes) (adapters : List Bytes) (attempts : List Attempt)
      (answers : ℕ → Answer)
      → Leaves t maximum k w (execute truncate adapters t attempts maximum answers w)
  unfolding execute
  execute_accounts truncate adapters attempts answers =
      by_admission (admit_call t maximum w) (admit_call-Leaves t maximum w)
    where
      by_admission :
          (a : Admission)
          → AdmissionLeaves t maximum w a
          → Leaves t maximum k w (elim a [
            | not_admitted x w1 ↦ (refused x, w1)
            | admitted w1 ↦ run_admitted truncate adapters t attempts maximum answers w1
          ])
      by_admission (not_admitted x w1) l = l
      by_admission (admitted w1) l = run_admitted-Leaves truncate adapters attempts answers w1 l
