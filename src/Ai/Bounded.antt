-- ===== src/Ai/Bounded.antt =====
-- A call of internal/core/ai whose providers report tokens within the limits of its route.
use control_center.Common.Word.{half64}
use control_center.Common.{
  ◌⊎◌, ℕ, ◌+◌, ◌≤◌, ◌<◌, ◌≡◌, subst, false, none, some, List, [], ◌∷◌, arith, Bytes, bytes_key,
  lookup, inl, inr,
}
use control_center.Ai.Route.{Attempt, charge}
use control_center.Ai.Estimate.{IsCovered, IsCovered-le, add_checked_sum}
use control_center.Ai.Records.{
  attempt_eq_iff, attempt_key, AttemptRow, World, ProviderResult, Answer, Progress,
}
use control_center.Ai.Dispatch.{
  key_of, dispatching_row, Round, next_round, last_round, return_error, LoopEnd, loop_done,
  loop_error, take_outcome, skip_attempt, mark_dispatching, close_round, send_attempt,
  attempt_round, dispatch_all,
}

-- Each row is written, and each result costs nothing or what its tokens, of which `P` holds, are
-- charged.
abbrev pub Honest : (ℕ × ℕ → Type 0) → (ℕ → Answer) → ℕ → List Attempt → Type 0
Honest P answers n [] = Unit
Honest P answers n (a ∷ rest) =
    let res = (answers n).result in
    ((answers n).write_fails ≡ false)
    × ((res.cost ≡ 0)
        ⊎ (P (res.input_tokens, res.output_tokens)
            × (charge a res.input_tokens res.output_tokens ≡ some res.cost)))
    × Honest P answers (n + 1) rest

-- The call has no rows from an ordinal on.
abbrev pub Unwritten : Bytes → ℕ → World → Type 0
Unwritten call_id n w = (m : ℕ) → n ≤ m → lookup (key_of call_id m) w.attempts ≡ none

module _ (truncate : Bytes → Bytes) (call_id : Bytes) (maximum : ℕ) (adapters : List Bytes)
    (answers : ℕ → Answer) where
  -- After a round in which no more than `bound` has been spent.
  abbrev RoundBounded : ℕ → ℕ → Round → Type 0
  RoundBounded bound n (next_round p w) = (p.cost ≤ bound) × Unwritten call_id n w
  RoundBounded bound n (last_round p w) = p.cost ≤ bound
  RoundBounded bound n (return_error w) = ⊥

  send_attempt-RoundBounded :
      (n bound : ℕ) (a : Attempt) (p : Progress) (w : World)
      → p.cost + (answers n).result.cost ≤ bound
      → bound < half64
      → Unwritten call_id (n + 1) w
      → RoundBounded bound (n + 1) (send_attempt truncate call_id maximum adapters answers n a p w)
  unfolding send_attempt close_round take_outcome skip_attempt
  send_attempt-RoundBounded n bound a p w le small free =
      ground (arith, add_checked_sum p.cost (answers n).result.cost)

  write-Unwritten :
      (n : ℕ) (row : AttemptRow) (w : World)
      → Unwritten call_id n w
      → Unwritten call_id (n + 1) (record w { attempts = (key_of call_id n, row) ∷ w.attempts })
  unfolding lookup
  write-Unwritten n row w free m le =
      ground (arith, attempt_eq_iff (key_of call_id n) (key_of call_id m), free m (omega arith))

  attempt_round-RoundBounded :
      (n bound : ℕ) (a : Attempt) (p : Progress) (w : World)
      → (answers n).write_fails ≡ false
      → p.cost + (answers n).result.cost ≤ bound
      → bound < half64
      → Unwritten call_id n w
      → RoundBounded bound (n + 1) (attempt_round truncate call_id maximum adapters answers n a p w)
  unfolding attempt_round mark_dispatching
  attempt_round-RoundBounded n bound a p w ok le small free =
      let w' = record w { attempts = (key_of call_id n, dispatching_row a) ∷ w.attempts } in
      ground (
        arith,
        free n (omega arith),
        send_attempt-RoundBounded n bound a p w' le small
            (write-Unwritten n (dispatching_row a) w free),
      )

  abbrev pub LoopBounded : LoopEnd → Type 0
  LoopBounded (loop_done p w) = p.cost ≤ maximum
  LoopBounded (loop_error w) = ⊥

  pub dispatch_all-LoopBounded :
      (P : ℕ × ℕ → Type 0) (n total : ℕ) (attempts : List Attempt) (p : Progress) (w : World)
      → IsCovered P attempts total maximum
      → total < half64
      → p.cost ≤ total
      → Honest P answers n attempts
      → Unwritten call_id n w
      → LoopBounded (dispatch_all truncate call_id maximum adapters answers n attempts p w)
  unfolding dispatch_all
  dispatch_all-LoopBounded P n total [] p w c small le honest free = subst (λ m. p.cost ≤ m) c le
  dispatch_all-LoopBounded P n total (a ∷ rest) p w (part, fits, later, each) small le
        (ok, costs, honest) free =
      go (attempt_round truncate call_id maximum adapters answers n a p w)
        (attempt_round-RoundBounded n (total + part) a p w ok (within costs) fits free)
        (IsCovered-le P rest (total + part) maximum later fits)
        (λ p' w' b free'.
          dispatch_all-LoopBounded P (n + 1) (total + part) rest p' w' later fits b honest free')
    where
      res : ProviderResult
      res = (answers n).result

      within :
          (res.cost ≡ 0)
            ⊎ (P (res.input_tokens, res.output_tokens)
                × (charge a res.input_tokens res.output_tokens ≡ some res.cost))
          → p.cost + res.cost ≤ total + part
      within (inl e) = omega arith
      within (inr (q, e)) = ground (arith, each res.input_tokens res.output_tokens q)

      go :
          (r : Round)
          → RoundBounded (total + part) (n + 1) r
          → (total + part ≤ maximum) × (maximum < half64)
          → ((p' : Progress) (w' : World)
              → p'.cost ≤ total + part
              → Unwritten call_id (n + 1) w'
              → LoopBounded
                  (dispatch_all truncate call_id maximum adapters answers (n + 1) rest p' w'))
          → LoopBounded (elim r [
            | next_round p' w' ↦
                dispatch_all truncate call_id maximum adapters answers (n + 1) rest p' w'
            | last_round p' w' ↦ loop_done p' w'
            | return_error w' ↦ loop_error w'
          ])
      go (next_round p' w') b top later' = later' p' w' b.0 b.1
      go (last_round p' w') b top later' = omega arith
      go (return_error w') b top later' = b
