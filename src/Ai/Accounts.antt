-- ===== src/Ai/Accounts.antt =====
-- What execute of internal/core/ai/dispatch.go does to the money of a plugin.
use control_center.Common.{
  ℕ, ◌+◌, ◌≡◌, refl, none, some, List, [], ◌∷◌, arith, Bytes, bytes_eq_refl, bytes_key, lookup,
  delete, delete_absent, inl, inr, Bool-cases,
}
use control_center.Policy.Types.{Time, Db, done, Reservation, Period}
use control_center.Policy.Queries.{take_reservation, reserved_in, committed_in}
use control_center.Policy.Store.{new_reservation, settle_spend_tx, release_spend_tx}
use control_center.Policy.Commit.{Distinct, share}
use control_center.Policy.Settlement.{settle_conserves}
use control_center.Ai.Route.{Attempt}
use control_center.Ai.Records.{attempt_key, World, Answer, Progress}
use control_center.Ai.Dispatch.{
  key_of, dispatching_row, Round, next_round, last_round, return_error, LoopEnd, loop_done,
  loop_error, mark_dispatching, close_round, send_attempt, attempt_round, dispatch_all,
}
use control_center.Ai.Calls.{Ticket, Closing, charged, pay}

-- Only the rows of the attempts differ.
abbrev pub Untouched : World → World → Type 0
Untouched w w' = record w' { attempts = w.attempts } ≡ w

abbrev RoundUntouched : World → Round → Type 0
RoundUntouched w (next_round p w') = Untouched w w'
RoundUntouched w (last_round p w') = Untouched w w'
RoundUntouched w (return_error w') = Untouched w w'

abbrev pub LoopUntouched : World → LoopEnd → Type 0
LoopUntouched w (loop_done p w') = Untouched w w'
LoopUntouched w (loop_error w') = Untouched w w'

LoopUntouched-trans :
    (w w' : World) (e : LoopEnd) → Untouched w w' → LoopUntouched w' e → LoopUntouched w e
LoopUntouched-trans w w' (loop_done p w'') u v = cc
LoopUntouched-trans w w' (loop_error w'') u v = cc

module _ (truncate : Bytes → Bytes) (call_id : Bytes) (maximum : ℕ) (adapters : List Bytes)
    (answers : ℕ → Answer) where
  send_attempt-RoundUntouched :
      (n : ℕ) (a : Attempt) (p : Progress) (w : World)
      → RoundUntouched w (send_attempt truncate call_id maximum adapters answers n a p w)
  unfolding send_attempt close_round
  send_attempt-RoundUntouched n a p w = ground arith

  attempt_round-RoundUntouched :
      (n : ℕ) (a : Attempt) (p : Progress) (w : World)
      → RoundUntouched w (attempt_round truncate call_id maximum adapters answers n a p w)
  unfolding attempt_round mark_dispatching
  attempt_round-RoundUntouched n a p w = ground (
    arith,
    send_attempt-RoundUntouched n a p
        (record w { attempts = (key_of call_id n, dispatching_row a) ∷ w.attempts }),
  )

  pub dispatch_all-LoopUntouched :
      (n : ℕ) (attempts : List Attempt) (p : Progress) (w : World)
      → LoopUntouched w (dispatch_all truncate call_id maximum adapters answers n attempts p w)
  unfolding dispatch_all
  dispatch_all-LoopUntouched n [] p w = refl
  dispatch_all-LoopUntouched n (a ∷ rest) p w =
      go (attempt_round truncate call_id maximum adapters answers n a p w)
        (attempt_round-RoundUntouched n a p w) (dispatch_all-LoopUntouched (n + 1) rest)
    where
      go :
          (r : Round)
          → RoundUntouched w r
          → ((p' : Progress) (w' : World)
              → LoopUntouched w'
                  (dispatch_all truncate call_id maximum adapters answers (n + 1) rest p' w'))
          → LoopUntouched w (elim r [
            | next_round p' w' ↦
                dispatch_all truncate call_id maximum adapters answers (n + 1) rest p' w'
            | last_round p' w' ↦ loop_done p' w'
            | return_error w' ↦ loop_error w'
          ])
      go (next_round p' w') u later =
          LoopUntouched-trans w w'
            (dispatch_all truncate call_id maximum adapters answers (n + 1) rest p' w') u
            (later p' w')
      go (last_round p' w') u later = u
      go (return_error w') u later = u

-- The reservation of a call, and the tables with it.
abbrev pub call_reservation : Ticket → ℕ → Reservation
call_reservation t maximum = new_reservation t.started t.plugin maximum

abbrev pub with_reservation : Ticket → ℕ → Db → Db
with_reservation t maximum d = record d {
  reservations = (t.reservation_id, call_reservation t maximum) ∷ d.reservations;
}

-- What paying for an admitted call does to a period.
abbrev pub Pays : Ticket → ℕ → Period → Db → Db → ℕ → Type 0
Pays t maximum k d d' n =
    (reserved_in k d'.reservations ≡ reserved_in k d.reservations)
    × (committed_in k d' ≡ committed_in k d + share k (call_reservation t maximum) n)
    × (lookup t.reservation_id d'.reservations ≡ none)

module _ (t : Ticket) (maximum : ℕ) (d : Db)
    (fresh : lookup t.reservation_id d.reservations ≡ none) where
  pub reservation_found :
      lookup t.reservation_id (with_reservation t maximum d).reservations
      ≡ some (call_reservation t maximum)
  unfolding lookup
  reservation_found = ground (arith, bytes_eq_refl t.reservation_id)

  pub release_undoes :
      (d' : Db)
      → release_spend_tx t.reservation_id (with_reservation t maximum d) ≡ done tt d'
      → d' ≡ d
  unfolding release_spend_tx take_reservation lookup delete
  release_undoes d' h =
      ground
        (arith, bytes_eq_refl t.reservation_id, delete_absent t.reservation_id d.reservations fresh)

  module _ (k : Period) (distinct : Distinct d.reservations) where
    pub settle-Pays :
        (now : Time) (n : ℕ) (d' : Db)
        → settle_spend_tx now t.reservation_id n (with_reservation t maximum d) ≡ done tt d'
        → Pays t maximum k d d' n
    unfolding reserved_in committed_in
    settle-Pays now n d' h =
        let m =
          settle_conserves now t.reservation_id n (with_reservation t maximum d) d'
            (call_reservation t maximum) k (fresh, distinct) reservation_found h in
        ground (arith, m)

    pub pay-Pays :
        (c : Closing) (d' : Db)
        → pay t c (with_reservation t maximum d) ≡ done tt d'
        → Pays t maximum k d d' (charged c)
    unfolding pay charged
    pay-Pays c d' h = elim (Bool-cases c.release) [
      | inl e ↦ ground (arith, release_undoes d')
      | inr e ↦ ground (arith, settle-Pays t.finished c.settled d')
    ]
