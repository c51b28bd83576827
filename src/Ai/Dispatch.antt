-- ===== src/Ai/Dispatch.antt =====
-- The loop of execute over the attempts, in internal/core/ai/dispatch.go, with spillover and
-- markDispatching of service.go. `answers` gives what happens around each attempt, by its ordinal;
-- `adapters` are the kinds that have one.
use control_center.Common.Word.{add64, le64}
use control_center.Common.{
  ℕ, ◌+◌, Bool, true, false, not, ◌&&◌, ◌||◌, Option, none, some, List, [], ◌∷◌, ◌++◌,
  if◌then◌else◌, Bytes, codes, bytes_eq, lookup,
}
use control_center.Ai.Route.{Attempt, has_name, add_checked}
use control_center.Ai.Records.{
  AttemptKey, attempt_key, AttemptRow, World, ProviderResult, Answer, AttemptOutcome, Progress,
}

abbrev pub class_cancelled : Bytes
class_cancelled = codes "cancelled"

abbrev pub class_credential : Bytes
class_credential = codes "credential"

abbrev pub class_provider : Bytes
class_provider = codes "provider"

abbrev pub class_accounting : Bytes
class_accounting = codes "accounting_invariant"

unfoldable pub spillover : Bytes → Bool
spillover class =
    bytes_eq class (codes "rate_limit")
    || bytes_eq class (codes "quota")
    || bytes_eq class (codes "provider_5xx")
    || bytes_eq class (codes "unsupported")

abbrev pub empty_result : ProviderResult
empty_result = record {
  content = [];
  vectors = 0;
  input_tokens = 0;
  output_tokens = 0;
  cost = 0;
  billed = false;
  err_class = [];
  provider_status = [];
}

-- The row that markDispatching inserts.
abbrev pub dispatching_row : Attempt → AttemptRow
dispatching_row a = record {
  provider = a.provider_id;
  provider_model = a.model;
  status = codes "dispatching";
  provider_status = [];
  error_class = [];
  billing_state = [];
  input_tokens = 0;
  output_tokens = 0;
  cost = 0;
  latency = 0;
  provider_error = [];
}

abbrev pub key_of : Bytes → ℕ → AttemptKey
key_of call_id n = record { call_id = call_id; ordinal = n }

-- none is an error of the transaction, which leaves the tables as they were.
unfoldable pub mark_dispatching : Bytes → ℕ → Attempt → (write_fails : Bool) → World → Option World
mark_dispatching call_id n a write_fails w =
    let k = key_of call_id n in
    if write_fails then none else elim (lookup k w.attempts) [
      | none ↦ some (record w { attempts = (k, dispatching_row a) ∷ w.attempts })
      | some row ↦ none
    ]

-- An attempt that no provider saw.
abbrev pub unsent : Attempt → ℕ → Bytes → AttemptOutcome
unsent a n class = record {
  attempt = a;
  ordinal = n;
  result = empty_result;
  latency = 0;
  err_class = class;
  billed = false;
  detail = [];
}

unfoldable pub error_class_of : (maximum : ℕ) → Answer → Bytes
error_class_of maximum ans =
    if not (le64 ans.result.cost maximum) then class_accounting else elim ans.perr [
      | none ↦ ans.result.err_class
      | some detail ↦
          if bytes_eq ans.result.err_class [] then class_provider else ans.result.err_class
    ]

-- `truncate` is truncateDetail.
unfoldable pub outcome_of :
    (truncate : Bytes → Bytes) → (maximum : ℕ) → Attempt → ℕ → Answer → AttemptOutcome
outcome_of truncate maximum a n ans = record {
  attempt = a;
  ordinal = n;
  result = ans.result;
  latency = ans.latency;
  err_class = error_class_of maximum ans;
  billed = ans.result.billed;
  detail = elim ans.perr [ none ↦ [] | some detail ↦ truncate detail ];
}

unfoldable pub skip_attempt : AttemptOutcome → Progress → Progress
skip_attempt oc p = record p { outcomes = p.outcomes ++ oc ∷ []; err_class = oc.err_class }

-- The variables after an attempt that a provider saw, whose cost was added.
unfoldable pub take_outcome : AttemptOutcome → (next : ℕ) → Progress → Progress
take_outcome oc next p = record p {
  outcomes = p.outcomes ++ oc ∷ [];
  in_tok = add64 p.in_tok oc.result.input_tokens;
  out_tok = add64 p.out_tok oc.result.output_tokens;
  cost = next;
  billed_any = oc.billed || p.billed_any;
}

-- How a round goes on: `continue`, `break`, or an early return.
pub data Round : Type 0 where
  next_round : Progress → World → Round
  last_round : Progress → World → Round
  return_error : World → Round

-- What follows the answer of a provider.
unfoldable pub close_round : AttemptOutcome → Answer → Progress → World → Round
close_round oc ans p w =
    if bytes_eq oc.err_class [] && (elim ans.perr [ none ↦ true | some detail ↦ false ])
    then last_round (record p { ok_result = oc.result; err_class = []; err_detail = [] }) w
    else let p' = record p { err_class = oc.err_class; err_detail = oc.detail } in
      if spillover oc.err_class then next_round p' w else last_round p' w

pub data LoopEnd : Type 0 where
  loop_done : Progress → World → LoopEnd
  loop_error : World → LoopEnd

module _ (truncate : Bytes → Bytes) (call_id : Bytes) (maximum : ℕ) (adapters : List Bytes)
    (answers : ℕ → Answer) where
  -- The part of a round after its row is written.
  unfoldable pub send_attempt : ℕ → Attempt → Progress → World → Round
  send_attempt n a p w =
      let ans = answers n in
      if not ans.resolves
      then next_round (skip_attempt (unsent a n class_credential) p) w
      else if not (has_name a.kind adapters)
      then next_round (skip_attempt (unsent a n class_provider) p) w
      else let oc = outcome_of truncate maximum a n ans in
        elim (add_checked p.cost ans.result.cost) [
          | none ↦ return_error w
          | some next ↦ close_round oc ans (take_outcome oc next p) w
        ]

  unfoldable pub attempt_round : ℕ → Attempt → Progress → World → Round
  attempt_round n a p w =
      if (answers n).cancelled
      then last_round (record p { unknown_bill = p.billed_any; err_class = class_cancelled }) w
      else elim (mark_dispatching call_id n a (answers n).write_fails w) [
        | none ↦ return_error w
        | some w' ↦ send_attempt n a p w'
      ]

  unfoldable pub dispatch_all : ℕ → List Attempt → Progress → World → LoopEnd
  dispatch_all n [] p w = loop_done p w
  dispatch_all n (a ∷ rest) p w = elim (attempt_round n a p w) [
    | next_round p' w' ↦ dispatch_all (n + 1) rest p' w'
    | last_round p' w' ↦ loop_done p' w'
    | return_error w' ↦ loop_error w'
  ]
