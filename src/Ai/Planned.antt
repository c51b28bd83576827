-- ===== src/Ai/Planned.antt =====
-- What compileRoute of internal/core/ai/compile.go promises to a call.
use control_center.Common.Word.{half64}
use control_center.Common.{
  ℕ, ◌+◌, ◌*◌, ◌≤◌, ◌<◌, ◌≡◌, refl, subst, true, false, not, ◌&&◌, some, List, [], ◌∷◌, arith,
  if◌then◌else◌, inl, inr, Bool-cases, Option-cases, Bytes,
}
use control_center.Ai.Route.{
  invalid_route, Attempt, Route, ProviderConfig, AttemptInput, RouteInput, metered, add_checked,
  attempt_cost, chat_total, estimate_chat, out_limit, has, not_positive,
}
use control_center.Ai.Cost.{
  ceil_cost, ceil_cost_mono, product_mono, tokens_cost-exact, Bounds, attempt_cost-Bounds,
}
use control_center.Ai.Estimate.{InputFits, add_checked_sum, add_checked_small}
use control_center.Ai.Compile.{
  chat, embed, Compiled, compiled, refused, empty_route, compile_attempt, compile_attempts,
  check_bounded, compile_route,
}

-- Fewer output tokens cost no more, and their cost is computed.
attempt_cost-fewer :
    (t o j n : ℕ) (a : Attempt)
    → Bounds t o n a
    → t * a.in_per_m + 999999 < half64
    → j ≤ o
    → (m : ℕ) × (attempt_cost t j a ≡ some m) × (m ≤ n)
unfolding attempt_cost add_checked
attempt_cost-fewer t o j n a b fits le =
    let prod = product_mono j o a.out_per_m le in
    let mono = ceil_cost_mono j o a.out_per_m le in
    let ei = tokens_cost-exact t a.in_per_m b.input.small b.input.bounded b.input.priced fits in
    let ej =
      tokens_cost-exact j a.out_per_m (omega (arith, b.output.small)) b.output.bounded
        b.output.priced (omega (arith, b.output_fits)) in
    (
      ceil_cost t a.in_per_m + ceil_cost j a.out_per_m,
      ground (arith, b.sum, b.small),
      omega (arith, b.sum),
    )

chat_total-fewer :
    (t o j total less maximum : ℕ) (attempts : List Attempt)
    → chat_total t o attempts total ≡ some maximum
    → total < half64
    → InputFits t attempts
    → j ≤ o
    → less ≤ total
    → (m : ℕ) × (chat_total t j attempts less ≡ some m) × (m ≤ maximum) × (maximum < half64)
unfolding chat_total
chat_total-fewer t o j total less maximum [] h small fits le le' =
    (less, refl, ground arith, ground arith)
chat_total-fewer t o j total less maximum (a ∷ rest) h small (fits, later) le le' =
    elim (Bool-cases (metered a)) [
      | inl m ↦ elim (Option-cases (attempt_cost t o a)) [
        | inl e ↦ absurd (ground arith)
        | inr (n, e) ↦ elim (Option-cases (add_checked total n)) [
          | inl e' ↦ absurd (ground arith)
          | inr (next, e') ↦
              let b = attempt_cost-Bounds t o n a e (fits m) in
              let (lt, eq) = add_checked_small total n next small b.small e' in
              let (n', f, nle) = attempt_cost-fewer t o j n a b (fits m) le in
              let (k, g, kle, klt) =
                chat_total-fewer t o j next (less + n') maximum rest (ground arith) lt later le
                  (omega arith) in
              (k, ground (arith, add_checked_sum less n'), kle, klt)
        ]
      ]
      | inr m ↦
          let (k, g, kle, klt) =
            chat_total-fewer t o j total less maximum rest (ground arith) small later le le' in
          (k, ground arith, kle, klt)
    ]

-- What the loop over the attempts leaves alone.
abbrev Keeps : Route → Compiled → Type 0
Keeps r (refused e r') = Unit
Keeps r (compiled r') = record r' { attempts = r.attempts } ≡ r

Keeps-trans : (r r' : Route) (c : Compiled) → Keeps r (compiled r') → Keeps r' c → Keeps r c
Keeps-trans r r' (refused e x) k k' = tt
Keeps-trans r r' (compiled x) k k' = cc

compile_attempt-Keeps :
    (ps : List (Bytes × ProviderConfig)) (r : Route) (i : AttemptInput)
    → Keeps r (compile_attempt ps r i)
unfolding compile_attempt
compile_attempt-Keeps ps r i = ground arith

compile_attempts-Keeps :
    (ps : List (Bytes × ProviderConfig)) (r : Route) (is : List AttemptInput)
    → Keeps r (compile_attempts ps r is)
unfolding compile_attempts
compile_attempts-Keeps ps r [] = refl
compile_attempts-Keeps ps r (i ∷ rest) =
    go (compile_attempt ps r i) (compile_attempt-Keeps ps r i)
      (λ r'. compile_attempts-Keeps ps r' rest)
  where
    go :
        (c : Compiled)
        → Keeps r c
        → ((r' : Route) → Keeps r' (compile_attempts ps r' rest))
        → Keeps r
            (elim c [ refused e r' ↦ refused e r' | compiled r' ↦ compile_attempts ps r' rest ])
    go (refused e r') k ih = tt
    go (compiled r') k ih = Keeps-trans r r' (compile_attempts ps r' rest) k (ih r')

-- What a compiled route has passed.
abbrev Passes : RouteInput → Compiled → Type 0
Passes i (refused e r) = Unit
Passes i (compiled r) =
    (r.max_input_tokens ≡ i.max_input_tokens)
    × (r.max_output_tokens ≡ i.max_output_tokens)
    × (not_positive r.max_output_tokens ≡ false)
    × (has r chat ≡ true → (full : ℕ) × (estimate_chat r 0 ≡ some full))

check_bounded-Passes :
    (i : RouteInput) (r : Route)
    → r.max_input_tokens ≡ i.max_input_tokens
    → r.max_output_tokens ≡ i.max_output_tokens
    → not_positive r.max_output_tokens ≡ false
    → Passes i (check_bounded r)
unfolding check_bounded
check_bounded-Passes i r e f g = ground arith

compile_route-Passes :
    (i : RouteInput) (ps : List (Bytes × ProviderConfig)) → Passes i (compile_route i ps)
unfolding compile_route
compile_route-Passes i ps = ground (
  arith,
  after_attempts (compile_attempts ps (empty_route i) i.attempts)
      (compile_attempts-Keeps ps (empty_route i) i.attempts),
)
  where
    after_attempts :
        (c : Compiled)
        → Keeps (empty_route i) c
        → not_positive i.max_output_tokens ≡ false
        → Passes i (elim c [
          | refused e r ↦ refused e r
          | compiled r ↦
              if not (has r chat) && not (has r embed)
              then refused invalid_route r
              else check_bounded r
        ])
    after_attempts (refused e r) k p = tt
    after_attempts (compiled r) k p = ground (arith, check_bounded-Passes i r)

-- A route that compiled for chat bounds every request: where no input price wraps, the estimate is
-- computed for every limit on the output that a request may bring, as an int64 that is not
-- negative, and none is above the estimate without a limit, the one that was tested when the route
-- was compiled.
pub compiled_estimates :
    (i : RouteInput) (ps : List (Bytes × ProviderConfig)) (r : Route) (max_tokens : ℕ)
    → compile_route i ps ≡ compiled r
    → has r chat ≡ true
    → InputFits r.max_input_tokens r.attempts
    → (maximum full : ℕ) × (estimate_chat r max_tokens ≡ some maximum)
      × (estimate_chat r 0 ≡ some full)
      × (maximum ≤ full)
      × (full < half64)
unfolding estimate_chat out_limit
compiled_estimates i ps r m h c fits =
    let (_, _, pos, est) = subst (Passes i) h (compile_route-Passes i ps) in
    let (full, e) = est c in
    let (k, g, le, lt) =
      chat_total-fewer r.max_input_tokens r.max_output_tokens (out_limit r m) 0 0 full r.attempts
        (ground arith) (omega arith) fits (ground arith) (omega arith) in
    (k, full, g, e, le, lt)
