-- ===== src/Ai/Finished.antt =====
-- Calls of internal/core/ai/dispatch.go within their bounds, to their end.
use control_center.Common.Word.{half64}
use control_center.Common.{
  ℕ, ◌≤◌, ◌<◌, ◌≡◌, sym, subst, false, none, some, List, arith, Bytes, bytes_key, lookup, All,
}
use control_center.Policy.Types.{hour_window, all_windows, Period, Db, Outcome, done, failed, after}
use control_center.Policy.Commit.{Distinct, Fits}
use control_center.Policy.Settlement.{settle_within, release_conserves}
use control_center.Policy.Queries.{pinned, committed_in}
use control_center.Ai.Route.{Attempt, Route, estimate_chat, out_limit}
use control_center.Ai.Estimate.{
  FitsLimits, InputFits, IsCovered, IsCovered-le, chat_total-IsCovered,
}
use control_center.Ai.Records.{
  attempt_key, World, Answer, Progress, CallEnd, answered, call_failed, refused, stranded,
}
use control_center.Ai.Dispatch.{LoopEnd, loop_done, loop_error, dispatch_all}
use control_center.Ai.Calls.{
  Ticket, Admission, admitted, not_admitted, reserve_call, admit_call, start_progress, Closing,
  closing, charged, pay, finalize_call, call_end, close_call, run_admitted, execute,
}
use control_center.Ai.Accounts.{
  LoopUntouched, dispatch_all-LoopUntouched, call_reservation, with_reservation, reservation_found,
  Pays, pay-Pays,
}
use control_center.Ai.Waiting.{Waits, Waits-Untouched, AdmissionLeaves, admit_call-Leaves}
use control_center.Ai.Bounded.{Honest, Unwritten, LoopBounded, dispatch_all-LoopBounded}

-- The policy tables differ only in reservations and spend: nothing was disabled, published or
-- notified.
abbrev pub OnlyMoney : Db → Db → Type 0
OnlyMoney d d' = record d' { reservations = d.reservations; spend = d.spend } ≡ d

-- The call was paid for, at no more than its maximum: its reservation is gone, the reserved sum of
-- every period is what it was before the call, and the committed sum of the periods that the
-- reservation pinned is higher by the charge. Nothing was disabled, published or notified.
abbrev pub IsPaidFor : Ticket → ℕ → Db → Db → Type 0
IsPaidFor t maximum d d' =
    (n : ℕ) × (n ≤ maximum) × ((k : Period) → Pays t maximum k d d' n) × OnlyMoney d d'

-- The call came to an end, within its maximum, and no plugin was disabled for it.
abbrev pub Finishes : Ticket → ℕ → World → CallEnd × World → Type 0
Finishes t maximum w (refused x, w') = Unit
Finishes t maximum w (stranded, w') = ⊥
Finishes t maximum w (answered r u, w') = (u.cost ≤ maximum) × IsPaidFor t maximum w.money w'.money
Finishes t maximum w (call_failed status class detail, w') = IsPaidFor t maximum w.money w'.money

Fits-smaller :
    (t : Ticket) (maximum n : ℕ) (d : Db)
    → n ≤ maximum
    → All (Fits (call_reservation t maximum) maximum d) all_windows
    → All (Fits (call_reservation t maximum) n (with_reservation t maximum d)) all_windows
unfolding committed_in
Fits-smaller t maximum n d le (h, (y, (m, _))) = (omega arith, (omega arith, (omega arith, tt)))

module _ (t : Ticket) (maximum : ℕ) (w : World) (distinct : Distinct w.money.reservations)
    (small : maximum < half64)
    (fits : All (Fits (call_reservation t maximum) maximum w.money) all_windows) where
  abbrev IsPaid : Outcome (Unit {0}) → Type 0
  IsPaid (done _ d) = IsPaidFor t maximum w.money d
  IsPaid (failed x d) = ⊥

  charged-le : (c : Closing) → c.settled ≤ maximum → charged c ≤ maximum
  unfolding charged
  charged-le c le = ground arith

  closing-le : (p : Progress) → p.cost ≤ maximum → (closing maximum p).settled ≤ maximum
  unfolding closing
  closing-le p le = ground arith

  IsPaid-of :
      (n : ℕ) (o : Outcome (Unit {0}))
      → n ≤ maximum
      → (o ≡ done tt (after o)) × OnlyMoney w.money (after o)
      → ((k : Period) (d : Db) → o ≡ done tt d → Pays t maximum k w.money d n)
      → IsPaid o
  IsPaid-of n (done x d) le (e, only) pays = (n, le, (λ k. pays k d e), only)
  IsPaid-of n (failed x d) le (e, only) pays = absurd cc

  pay-IsDone :
      (c : Closing)
      → lookup t.reservation_id w.money.reservations ≡ none
      → c.settled ≤ maximum
      → let o = pay t c (with_reservation t maximum w.money) in
        (o ≡ done tt (after o)) × OnlyMoney w.money (after o)
  unfolding pay
  pay-IsDone c fresh le =
      let d = with_reservation t maximum w.money in
      let r = call_reservation t maximum in
      let k = pinned hour_window r in
      let found = reservation_found t maximum w.money fresh in
      ground (
        arith,
        settle_within t.finished t.reservation_id c.settled d r k (fresh, distinct) found small le
            (Fits-smaller t maximum c.settled w.money le fits),
        release_conserves t.reservation_id d r k (fresh, distinct) found,
      )

  pay-IsPaid :
      (c : Closing)
      → lookup t.reservation_id w.money.reservations ≡ none
      → c.settled ≤ maximum
      → IsPaid (pay t c (with_reservation t maximum w.money))
  pay-IsPaid c fresh le =
      IsPaid-of (charged c) (pay t c (with_reservation t maximum w.money)) (charged-le c le)
        (pay-IsDone c fresh le) (λ k d. pay-Pays t maximum w.money fresh k distinct c d)

  abbrev SameAttempts : Admission → Type 0
  SameAttempts (admitted w') = w'.attempts ≡ w.attempts
  SameAttempts (not_admitted x w') = w'.attempts ≡ w.attempts

  admit_call-SameAttempts : SameAttempts (admit_call t maximum w)
  unfolding admit_call reserve_call
  admit_call-SameAttempts = ground arith

  module _ (published : t.publish_fails ≡ false) where
    close_call-Finishes :
        (p : Progress) (w2 : World)
        → Waits t maximum w w2
        → p.cost ≤ maximum
        → Finishes t maximum w (close_call t maximum p w2)
    unfolding close_call finalize_call call_end charged
    close_call-Finishes p w2 wait le =
        let c = closing maximum p in
        let below = closing-le p le in
        let paid =
          subst (λ m. IsPaid (pay t c m)) (sym wait.held) (pay-IsPaid c wait.fresh below) in
        ground (arith, paid)

    module _ (truncate : Bytes → Bytes) (adapters : List Bytes) (attempts : List Attempt)
        (answers : ℕ → Answer) (P : ℕ × ℕ → Type 0) (covered : IsCovered P attempts 0 maximum)
        (honest : Honest P answers 1 attempts) (unwritten : Unwritten t.call_id 1 w) where
      run_admitted-Finishes :
          (w1 : World)
          → Waits t maximum w w1
          → w1.attempts ≡ w.attempts
          → Finishes t maximum w (run_admitted truncate adapters t attempts maximum answers w1)
      unfolding run_admitted
      run_admitted-Finishes w1 wait same =
          go (dispatch_all truncate t.call_id maximum adapters answers 1 attempts start_progress w1)
            (dispatch_all-LoopUntouched truncate t.call_id maximum adapters answers 1 attempts
              start_progress w1)
            (dispatch_all-LoopBounded truncate t.call_id maximum adapters answers P 1 0 attempts
              start_progress w1 covered (omega arith) (omega arith) honest
              (λ m le. rw same (unwritten m le)))
        where
          go :
              (e : LoopEnd)
              → LoopUntouched w1 e
              → LoopBounded truncate t.call_id maximum adapters answers e
              → Finishes t maximum w (elim e [
                | loop_error w2 ↦ (stranded, w2)
                | loop_done p w2 ↦ close_call t maximum p w2
              ])
          go (loop_error w2) u b = b
          go (loop_done p w2) u b =
              close_call-Finishes p w2 (Waits-Untouched t maximum w w1 w2 wait u) b

      execute-Finishes :
          Finishes t maximum w (execute truncate adapters t attempts maximum answers w)
      unfolding execute
      execute-Finishes =
          go (admit_call t maximum w) (admit_call-Leaves t maximum w) admit_call-SameAttempts
        where
          go :
              (a : Admission)
              → AdmissionLeaves t maximum w a
              → SameAttempts a
              → Finishes t maximum w (elim a [
                | not_admitted x w1 ↦ (refused x, w1)
                | admitted w1 ↦ run_admitted truncate adapters t attempts maximum answers w1
              ])
          go (not_admitted x w1) l s = tt
          go (admitted w1) l s = run_admitted-Finishes w1 l s

-- A chat whose route bounds it comes to an end within the bound: if reservation ids are distinct,
-- the estimate was computed, no input price wraps, the committed sum with the estimate fits in int64
-- for each current period of the plugin, the database takes every other write, the call id is new,
-- and each result either costs nothing or is charged for tokens within the limits of the route and
-- the request, then the call is refused, or it is answered or fails and has been paid for: an answer
-- reports a cost of at most the estimate, the reservation is gone, the committed sums rise by one
-- charge of at most the estimate, and the call disables no plugin, publishes no budget or accounting
-- event and notifies no watcher.
pub chat_within_estimate :
    (t : Ticket) (r : Route) (max_tokens maximum : ℕ) (w : World) (truncate : Bytes → Bytes)
    (adapters : List Bytes) (answers : ℕ → Answer)
    → Distinct w.money.reservations
    → estimate_chat r max_tokens ≡ some maximum
    → InputFits r.max_input_tokens r.attempts
    → All (Fits (call_reservation t maximum) maximum w.money) all_windows
    → t.publish_fails ≡ false
    → Honest (FitsLimits r.max_input_tokens (out_limit r max_tokens)) answers 1 r.attempts
    → Unwritten t.call_id 1 w
    → Finishes t maximum w (execute truncate adapters t r.attempts maximum answers w)
unfolding estimate_chat
chat_within_estimate t r m maximum w truncate adapters answers distinct e fits room published honest
      unwritten =
    let P = FitsLimits r.max_input_tokens (out_limit r m) in
    let c =
      chat_total-IsCovered r.max_input_tokens (out_limit r m) 0 maximum r.attempts e (omega arith)
        fits in
    let small = (IsCovered-le P r.attempts 0 maximum c (omega arith)).1 in
    execute-Finishes t maximum w distinct small room published truncate adapters r.attempts answers
      P c honest unwritten
