-- ===== src/Ai/Tests.antt =====
-- Runs of the model of internal/core/ai at concrete inputs.
use control_center.Common.{
  ℕ, ◌≤◌, ◌<◌, lookup, bytes_eq, bytes_key, ◌≡◌, refl, subst, sym, none, some, inl, inr, [], ◌∷◌,
  arith, codes,
}
use control_center.Common.Word.{half64}
use control_center.Policy.Types.{after}
use control_center.Policy.Queries.{reserved_in, committed_in}
use control_center.Policy.Store.{settle_spend_tx}
use control_center.Ai.Route.{
  Route, metered, has, has_name, out_limit, charge, add_checked, attempt_cost, chat_total,
  embed_total, estimate_embed, estimate_chat, tokens_cost,
}
use control_center.Ai.Compile.{
  compiled, valid_name, name_rest, compile_attempt, compile_attempts, resolve, check_bounded,
  compile_route,
}
use control_center.Ai.Records.{attempt_key}
use control_center.Ai.Calls.{execute}
use control_center.Ai.Accounts.{call_reservation, with_reservation}
use control_center.Ai.Ledger.{Leaves, execute_accounts}
use control_center.Ai.Estimate.{InputFits, FitsLimits, charge_all, charges_within_chat}
use control_center.Ai.Planned.{compiled_estimates}
use control_center.Ai.Bounded.{Honest}
use control_center.Ai.Requests.{ChatRequest, find_route, run_chat}
use control_center.Ai.Served.{ServesWell, HasRoom, ChatFinishes, run_chat-ChatFinishes}
use control_center.Ai.Recovery.{finalize_conservative, reason_recovered, recover}
use control_center.Ai.Recovered.{IsCountable, ChargesMaximum, stranded_recovers}
use control_center.Ai.Restart.{AllRecovered, recover-AllRecovered}
use control_center.Ai.Samples.{
  evening, idle_money, idle, summarize, providers, step, summarize_route, answers, ticket, adapters,
  this_hour, stopped,
}

route_compiles : compile_route summarize providers ≡ compiled summarize_route
unfolding compile_route valid_name name_rest compile_attempts compile_attempt lookup bytes_eq has
    has_name check_bounded embed_total estimate_embed resolve estimate_chat chat_total metered
    attempt_cost tokens_cost out_limit add_checked
route_compiles = refl

route_estimate : estimate_chat summarize_route 0 ≡ some 40
unfolding estimate_chat chat_total metered attempt_cost tokens_cost out_limit add_checked
route_estimate = refl

route-InputFits : InputFits summarize_route.max_input_tokens summarize_route.attempts
route-InputFits = ((λ m. omega arith), ((λ m. omega arith), tt))

compiled_estimates_example :
    (maximum full : ℕ) × (estimate_chat summarize_route 3 ≡ some maximum)
    × (estimate_chat summarize_route 0 ≡ some full)
    × (maximum ≤ full)
    × (full < half64)
unfolding has has_name bytes_eq
compiled_estimates_example =
    compiled_estimates summarize providers summarize_route 3 route_compiles refl route-InputFits

charges_within_chat_example :
    (charge_all summarize_route.attempts ((10, 5) ∷ (4, 3) ∷ []) 0 ≡ some 30)
    × (30 ≤ 40)
    × (40 < half64)
unfolding out_limit metered
charges_within_chat_example =
    charges_within_chat summarize_route 0 40 ((10, 5) ∷ (4, 3) ∷ []) route_estimate route-InputFits
      ((omega arith, omega arith), ((omega arith, omega arith), tt))

execute_accounts_example :
    Leaves ticket 40 this_hour idle
      (execute (λ s. s) adapters ticket summarize_route.attempts 40 answers idle)
execute_accounts_example =
    execute_accounts ticket 40 this_hour idle tt (λ s. s) adapters summarize_route.attempts answers

abbrev question : ChatRequest
question = record { model = codes "summarize"; images = 0; grounding = none; max_tokens = 0 }

route_found :
    (r : Route) → find_route question.model (summarize_route ∷ []) ≡ some r → summarize_route ≡ r
unfolding find_route bytes_eq
route_found r h = ground arith

answers-Honest : Honest (FitsLimits 10 5) answers 1 summarize_route.attempts
unfolding charge metered tokens_cost add_checked
answers-Honest = (refl, inl refl, (refl, inr ((omega arith, omega arith), refl), tt))

question-ServesWell : ServesWell (summarize_route ∷ []) question answers
unfolding out_limit
question-ServesWell r h =
    subst
      (λ x.
        InputFits x.max_input_tokens x.attempts
        × Honest (FitsLimits x.max_input_tokens (out_limit x 0)) answers 1 x.attempts)
      (route_found r h) (route-InputFits, answers-Honest)

question-HasRoom : HasRoom (summarize_route ∷ []) question ticket idle.money
unfolding committed_in lookup
question-HasRoom r maximum h e =
    let same = subst (λ x. estimate_chat x 0 ≡ some maximum) (sym (route_found r h)) e in
    let small : maximum < half64 = ground (arith, route_estimate, same) in
    (omega (arith, small), (omega (arith, small), (omega (arith, small), tt)))

run_chat-ChatFinishes_example :
    ChatFinishes
      (summarize_route ∷ [])
      question
      ticket
      idle
      (run_chat (λ s. s) adapters ticket answers (summarize_route ∷ []) question idle)
unfolding lookup
run_chat-ChatFinishes_example =
    run_chat-ChatFinishes (λ s. s) adapters ticket answers (summarize_route ∷ []) question idle tt
      refl (λ m le. refl) question-ServesWell question-HasRoom

stranded_recovers_example :
    ChargesMaximum ticket 40 this_hour idle
      (finalize_conservative evening (codes "call1") (codes "r1") 40 reason_recovered stopped)
    × ChargesMaximum ticket 40 this_hour idle (
        finalize_conservative evening
          (codes "call1")
          (codes "r1")
          40
          reason_recovered
          (record stopped {
            money =
                after
                  (settle_spend_tx evening (codes "r1") 40 (with_reservation ticket 40 idle_money));
          }))
unfolding lookup bytes_eq committed_in
stranded_recovers_example =
    stranded_recovers ticket 40 this_hour idle stopped evening tt (omega arith) refl
      (omega arith, (omega arith, (omega arith, tt)))
      (record { fresh = refl; held = refl; row = refl })

stopped-IsCountable : IsCountable stopped.money
unfolding reserved_in committed_in lookup
stopped-IsCountable k = ground arith

recover-AllRecovered_example : AllRecovered stopped (recover evening stopped)
unfolding lookup bytes_eq
recover-AllRecovered_example =
    recover-AllRecovered evening stopped (refl, tt) stopped-IsCountable
      ((omega arith, inr (call_reservation ticket 40, refl, refl)), tt)

-- The sum in `round_up` wraps: this many tokens at this price cost a negative amount, and a route
-- that may use as many is estimated at one micro dollar.
wrapped_cost : tokens_cost 9223372036854775807 1 ≡ some 18446734850337514763
unfolding tokens_cost
wrapped_cost = refl

abbrev wide_route : Route
wide_route = record summarize_route {
  max_input_tokens = 9223372036854775807;
  max_output_tokens = 9223372036853775808;
  attempts = record (step (codes "p1")) { in_per_m = 1; out_per_m = 1 } ∷ [];
}

wrapped_estimate : estimate_chat wide_route 0 ≡ some 1
unfolding estimate_chat chat_total metered attempt_cost tokens_cost out_limit add_checked
wrapped_estimate = refl
