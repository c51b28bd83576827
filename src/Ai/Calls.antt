-- ===== src/Ai/Calls.antt =====
-- execute of internal/core/ai/dispatch.go: the transaction that reserves, the attempts, and the
-- transaction that finalizes. The ids, the clock and the failures of the database are arguments.
use control_center.Common.{
  ℕ, Bool, false, not, ◌&&◌, Option, none, some, List, [], ◌∷◌, if◌then◌else◌, Bytes, codes,
  bytes_eq, bytes_key, lookup, update, delete, length,
}
use control_center.Policy.Types.{Time, Db, Outcome, done, failed, is_domain_rejection, sql_error}
use control_center.Policy.Types as Policy
use control_center.Policy.Store.{reserve_spend_tx, settle_spend_tx, release_spend_tx}
use control_center.Ai.Route.{Attempt, metered}
use control_center.Ai.Records.{
  CallRow, attempt_key, UsageEvent, World, Answer, AttemptOutcome, Progress, CallEnd, answered,
  call_failed, refused, stranded,
}
use control_center.Ai.Dispatch.{empty_result, key_of, loop_done, loop_error, dispatch_all}

-- The arguments of a call, its ids, and its two instants.
pub record Ticket : Type 0 where
  pub call_id : Bytes
  pub reservation_id : Bytes
  pub usage_id : ℕ
  pub plugin : Bytes
  pub job : Bytes
  pub operation : Bytes
  pub logical_model : Bytes
  pub started : Time
  pub finished : Time
  pub publish_fails : Bool

abbrev pub status_pending : Bytes
status_pending = codes "pending"

abbrev pub status_succeeded : Bytes
status_succeeded = codes "succeeded"

abbrev pub status_failed : Bytes
status_failed = codes "failed"

abbrev pub pending_row : Ticket → ℕ → CallRow
pending_row t maximum = record {
  reservation_id = [];
  plugin_id = t.plugin;
  job_id = t.job;
  operation = t.operation;
  logical_model = t.logical_model;
  status = status_pending;
  error_class = [];
  reserved = maximum;
  settled = 0;
  usage_event_id = none;
  started_at = t.started;
  finalized_at = none;
}

pub data Admission : Type 0 where
  admitted : World → Admission
  not_admitted : Policy.Error → World → Admission

-- ReserveSpendTx, after the row is inserted: a domain rejection takes the row out again and
-- commits.
unfoldable pub reserve_call : Ticket → ℕ → World → Admission
reserve_call t maximum w =
    let calls = (t.call_id, pending_row t maximum) ∷ w.calls in
    elim (reserve_spend_tx t.started t.reservation_id t.plugin maximum w.money) [
      | done r d ↦ admitted (record w {
        money = d;
        calls = update t.call_id (λ row. record row { reservation_id = t.reservation_id }) calls;
      })
      | failed x d ↦
          if is_domain_rejection x
          then not_admitted x (record w { money = d; calls = delete t.call_id calls })
          else not_admitted x w
    ]

-- The first transaction.
unfoldable pub admit_call : Ticket → ℕ → World → Admission
admit_call t maximum w = elim (lookup t.call_id w.calls) [
  | some row ↦ not_admitted sql_error w
  | none ↦ reserve_call t maximum w
]

abbrev pub start_progress : Progress
start_progress = record {
  ok_result = empty_result;
  in_tok = 0;
  out_tok = 0;
  cost = 0;
  err_class = [];
  err_detail = [];
  outcomes = [];
  billed_any = false;
  unknown_bill = false;
}

-- What the call is finalized with; the test `settled > max` assigns what is there already.
pub record Closing : Type 0 where
  pub status : Bytes
  pub err_class : Bytes
  pub settled : ℕ
  pub release : Bool

unfoldable pub closing : (maximum : ℕ) → Progress → Closing
closing maximum p =
    if p.unknown_bill
    then record {
      status = status_failed;
      err_class = if bytes_eq p.err_class [] then codes "ambiguous" else p.err_class;
      settled = maximum;
      release = false;
    }
    else record {
      status = if bytes_eq p.err_class [] then status_succeeded else status_failed;
      err_class = p.err_class;
      settled = p.cost;
      release = not p.billed_any;
    }

unfoldable pub billing_state : (unknown_bill : Bool) → AttemptOutcome → Bytes
billing_state unknown_bill oc =
    if unknown_bill && not (bytes_eq oc.err_class [])
    then codes "ambiguous"
    else if not (metered oc.attempt)
    then codes "subscription"
    else if oc.billed
    then codes "billed"
    else codes "unbilled"

unfoldable pub write_outcome : Bytes → (unknown_bill : Bool) → AttemptOutcome → World → World
write_outcome call_id unknown_bill oc w = record w {
  attempts =
      update (key_of call_id oc.ordinal)
        (λ row. record row {
          status = if bytes_eq oc.err_class [] then status_succeeded else status_failed;
          error_class = oc.err_class;
          billing_state = billing_state unknown_bill oc;
          provider_status = oc.result.provider_status;
          input_tokens = oc.result.input_tokens;
          output_tokens = oc.result.output_tokens;
          cost = oc.result.cost;
          latency = oc.latency;
          provider_error = oc.detail;
        })
        w.attempts;
}

unfoldable pub write_outcomes : Bytes → (unknown_bill : Bool) → List AttemptOutcome → World → World
write_outcomes call_id unknown_bill [] w = w
write_outcomes call_id unknown_bill (oc ∷ rest) w =
    write_outcomes call_id unknown_bill rest (write_outcome call_id unknown_bill oc w)

-- What the call is charged in the end.
unfoldable pub charged : Closing → ℕ
charged c = if c.release then 0 else c.settled

-- ReleaseSpendTx or SettleSpendTx.
unfoldable pub pay : Ticket → Closing → Db → Outcome (Unit {0})
pay t c d =
    if c.release
    then release_spend_tx t.reservation_id d
    else settle_spend_tx t.finished t.reservation_id c.settled d

unfoldable pub usage_event : Ticket → Closing → Progress → UsageEvent
usage_event t c p = record {
  subject = t.call_id;
  plugin = t.plugin;
  job = t.job;
  operation = t.operation;
  logical_model = t.logical_model;
  status = c.status;
  input_tokens = p.in_tok;
  output_tokens = p.out_tok;
  attempts = length p.outcomes;
  cost = charged c;
}

unfoldable pub finish_row : Ticket → Closing → CallRow → CallRow
finish_row t c row = record row {
  status = c.status;
  error_class = c.err_class;
  settled = charged c;
  finalized_at = some t.finished;
  usage_event_id = some t.usage_id;
}

-- The second transaction; none rolls it back.
unfoldable pub finalize_call : Ticket → Closing → Progress → World → Option World
finalize_call t c p w = elim (pay t c w.money) [
  | failed x d ↦ none
  | done _ d ↦
      if t.publish_fails
      then none
      else let w' = write_outcomes t.call_id p.unknown_bill p.outcomes w in
        some (record w' {
          money = d;
          calls = update t.call_id (finish_row t c) w'.calls;
          usage_events = (t.usage_id, usage_event t c p) ∷ w'.usage_events;
        })
]

unfoldable pub call_end : Closing → Progress → CallEnd
call_end c p =
    if bytes_eq c.status status_succeeded
    then answered p.ok_result (record {
      input_tokens = p.in_tok;
      output_tokens = p.out_tok;
      cost = charged c;
      attempts = length p.outcomes;
    })
    else call_failed c.status c.err_class p.err_detail

-- What follows the loop.
unfoldable pub close_call : Ticket → (maximum : ℕ) → Progress → World → CallEnd × World
close_call t maximum p w =
    let c = closing maximum p in
    elim (finalize_call t c p w) [ none ↦ (stranded, w) | some w' ↦ (call_end c p, w') ]

module _ (truncate : Bytes → Bytes) (adapters : List Bytes) where
  unfoldable pub run_admitted : Ticket → List Attempt → ℕ → (ℕ → Answer) → World → CallEnd × World
  run_admitted t attempts maximum answers w =
      elim (dispatch_all truncate t.call_id maximum adapters answers 1 attempts start_progress w) [
        | loop_error w' ↦ (stranded, w')
        | loop_done p w' ↦ close_call t maximum p w'
      ]

  unfoldable pub execute : Ticket → List Attempt → ℕ → (ℕ → Answer) → World → CallEnd × World
  execute t attempts maximum answers w = elim (admit_call t maximum w) [
    | not_admitted x w' ↦ (refused x, w')
    | admitted w' ↦ run_admitted t attempts maximum answers w'
  ]
