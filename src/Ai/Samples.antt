-- ===== src/Ai/Samples.antt =====
-- Concrete routes, calls and tables of internal/core/ai.
use control_center.Common.{
  ℕ, bytes_key, true, false, none, some, List, [], ◌∷◌, if◌then◌else◌, ◌==◌, Bytes, codes,
}
use control_center.Policy.Types.{Time, hour_window, exceed_reject, Period, Db}
use control_center.Policy.Queries.{pinned}
use control_center.Ai.Route.{
  metered_billing, ProviderConfig, AttemptInput, RouteInput, Attempt, Route,
}
use control_center.Ai.Compile.{chat}
use control_center.Ai.Records.{attempt_key, World, Answer}
use control_center.Ai.Dispatch.{empty_result}
use control_center.Ai.Calls.{Ticket}
use control_center.Ai.Accounts.{call_reservation, with_reservation}
use control_center.Ai.Waiting.{waiting_row}

abbrev pub noon : Time
noon = record { year = 2026; month = 3; day = 9; hour = 12; rest = 5 }

abbrev pub evening : Time
evening = record { year = 2026; month = 3; day = 9; hour = 19; rest = 0 }

abbrev pub digest : Bytes
digest = codes "digest"

abbrev pub idle_money : Db
idle_money = record {
  states =
      (
        digest,
        record {
          enabled = true;
          automated = true;
          disabled_at = none;
          disabled_by = [];
          disabled_reason = [];
          accounting_failed_at = none;
        },
      )
      ∷ [];
  budgets =
      (digest, record { hourly = 0; daily = 100; monthly = 0; on_exceed = exceed_reject }) ∷ [];
  spend = [];
  reservations = [];
  budget_events = [];
  published = [];
  notified = [];
}

abbrev pub idle : World
idle = record { money = idle_money; calls = []; attempts = []; usage_events = [] }

abbrev pub step_input : Bytes → AttemptInput
step_input provider = record {
  provider = provider;
  model = codes "m1";
  input_price = 1000000;
  output_price = 2000000;
}

abbrev pub summarize : RouteInput
summarize = record {
  name = codes "summarize";
  capabilities = chat ∷ [];
  max_input_tokens = 10;
  max_output_tokens = 5;
  attempts = step_input (codes "p1") ∷ step_input (codes "p2") ∷ [];
}

abbrev pub provider_row : Bytes → ProviderConfig
provider_row id = record {
  id = id;
  kind = codes "openai";
  base_url = [];
  credential_id = codes "c1";
  billing = metered_billing;
}

abbrev pub providers : List (Bytes × ProviderConfig)
providers = (codes "p1", provider_row (codes "p1")) ∷ (codes "p2", provider_row (codes "p2")) ∷ []

abbrev pub step : Bytes → Attempt
step provider = record {
  provider_id = provider;
  kind = codes "openai";
  base_url = [];
  credential = codes "c1";
  billing = metered_billing;
  model = codes "m1";
  in_per_m = 1000000;
  out_per_m = 2000000;
}

abbrev pub summarize_route : Route
summarize_route = record {
  name = codes "summarize";
  capabilities = chat ∷ [];
  max_input_tokens = 10;
  max_output_tokens = 5;
  attempts = step (codes "p1") ∷ step (codes "p2") ∷ [];
  last_error = [];
}

-- The first provider is out of capacity, the second answers.
abbrev pub answers : ℕ → Answer
answers n = record {
  cancelled = false;
  write_fails = false;
  resolves = true;
  result =
      if n == 1
      then record empty_result { err_class = codes "rate_limit" }
      else record empty_result {
        content = codes "hello";
        input_tokens = 4;
        output_tokens = 3;
        cost = 10;
        billed = true;
      };
  perr = if n == 1 then some (codes "busy") else none;
  latency = 7;
}

abbrev pub ticket : Ticket
ticket = record {
  call_id = codes "call1";
  reservation_id = codes "r1";
  usage_id = 1;
  plugin = digest;
  job = [];
  operation = chat;
  logical_model = codes "summarize";
  started = noon;
  finished = evening;
  publish_fails = false;
}

abbrev pub adapters : List Bytes
adapters = codes "openai" ∷ []

abbrev pub this_hour : Period
this_hour = pinned hour_window (call_reservation ticket 40)

-- The tables where a stop came between the two transactions.
abbrev pub stopped : World
stopped = record idle {
  money = with_reservation ticket 40 idle_money;
  calls = (codes "call1", waiting_row ticket 40) ∷ [];
}
