-- ===== src/Ai/Estimate.antt =====
-- estimateChat and estimateEmbed of internal/core/ai/compile.go, against what the attempts charge.
use control_center.Common.Word.{half64}
use control_center.Common.{
  ℕ, ◌+◌, ◌*◌, ◌≤◌, ◌<◌, ◌≡◌, true, false, subst, Option, some, none, List, [], ◌∷◌, arith, inl,
  inr, Bool-cases, Option-cases, All,
}
use control_center.Ai.Route.{
  Attempt, Route, metered, tokens_cost, add_checked, attempt_cost, charge, chat_total, embed_total,
  estimate_chat, estimate_embed, out_limit,
}
use control_center.Ai.Cost.{
  tokens_cost-Costs, attempt_cost-Bounds, add_checked_fits, price-le, cost_of, charge-within,
  charge-within_input,
}

-- The charges of the attempts for the tokens that each reports, added up rest the calls add them.
abbrev pub charge_all : List Attempt → List (ℕ × ℕ) → (cost : ℕ) → Option ℕ
charge_all [] reports cost = some cost
charge_all (a ∷ rest) [] cost = some cost
charge_all (a ∷ rest) ((i, j) ∷ reports) cost = elim (charge a i j) [
  | none ↦ none
  | some c ↦ elim (add_checked cost c) [ none ↦ none | some next ↦ charge_all rest reports next ]
]

-- The same, rest a sum of numbers.
abbrev pub price_all : List Attempt → List (ℕ × ℕ) → ℕ
price_all [] reports = 0
price_all (a ∷ rest) [] = 0
price_all (a ∷ rest) ((i, j) ∷ reports) = cost_of a i j + price_all rest reports

-- The price of a full input, with the addend that rounds it up, is an int64.
abbrev pub InputFits : ℕ → List Attempt → Type 0
InputFits t = All λ a. metered a ≡ true → t * a.in_per_m + 999999 < half64

-- A report of tokens within the limits.
abbrev pub FitsLimits : (t o : ℕ) → ℕ × ℕ → Type 0
FitsLimits t o (i, j) = (i ≤ t) × (j ≤ o)

pub add_checked_small :
    (x n y : ℕ) → x < half64 → n < half64 → add_checked x n ≡ some y → (y < half64) × (y ≡ x + n)
unfolding add_checked
add_checked_small x n y hx hn h = ground arith

pub add_checked_sum : (x n : ℕ) → x + n < half64 → add_checked x n ≡ some (x + n)
unfolding add_checked
add_checked_sum x n h = ground arith

module _ (P : ℕ × ℕ → Type 0) where
  -- From `total` the attempts add up to `maximum`, and none charges more than its part for a report
  -- in `P`.
  abbrev pub IsCovered : List Attempt → (total maximum : ℕ) → Type 0
  IsCovered [] total maximum = total ≡ maximum
  IsCovered (a ∷ rest) total maximum =
      (n : ℕ) × (total + n < half64)
      × IsCovered rest (total + n) maximum
      × ((i j : ℕ) → P (i, j) → (charge a i j ≡ some (cost_of a i j)) × (cost_of a i j ≤ n))

  pub IsCovered-le :
      (attempts : List Attempt) (total maximum : ℕ)
      → IsCovered attempts total maximum
      → total < half64
      → (total ≤ maximum) × (maximum < half64)
  IsCovered-le [] total maximum e small = omega arith
  IsCovered-le (a ∷ rest) total maximum (n, fits, later, each) small =
      omega (arith, IsCovered-le rest (total + n) maximum later fits)

  IsCovered-charge_all :
      (attempts : List Attempt) (reports : List (ℕ × ℕ)) (total cost maximum : ℕ)
      → IsCovered attempts total maximum
      → total < half64
      → All P reports
      → cost ≤ total
      → (charge_all attempts reports cost ≡ some (cost + price_all attempts reports))
        × (cost + price_all attempts reports ≤ maximum)
  IsCovered-charge_all [] reports total cost maximum c small w le = ground arith
  IsCovered-charge_all (a ∷ rest) [] total cost maximum c small w le =
      ground (arith, IsCovered-le (a ∷ rest) total maximum c small)
  IsCovered-charge_all (a ∷ rest) ((i, j) ∷ reports) total cost maximum (n, fits, later, each) small
        w le =
      let (e, le') = each i j w.0 in
      ground (
        arith,
        add_checked_sum cost (cost_of a i j),
        IsCovered-charge_all rest reports (total + n) (cost + cost_of a i j) maximum later fits w.1,
      )

free_attempt :
    (a : Attempt) (i j : ℕ)
    → metered a ≡ false
    → (charge a i j ≡ some (cost_of a i j)) × (cost_of a i j ≤ 0)
unfolding charge
free_attempt a i j e = ground arith

pub chat_total-IsCovered :
    (t o total maximum : ℕ) (attempts : List Attempt)
    → chat_total t o attempts total ≡ some maximum
    → total < half64
    → InputFits t attempts
    → IsCovered (FitsLimits t o) attempts total maximum
unfolding chat_total
chat_total-IsCovered t o total maximum [] h small fits = ground arith
chat_total-IsCovered t o total maximum (a ∷ rest) h small (fits, later) =
    elim (Bool-cases (metered a)) [
      | inl m ↦ elim (Option-cases (attempt_cost t o a)) [
        | inl e ↦ absurd (ground arith)
        | inr (n, e) ↦ elim (Option-cases (add_checked total n)) [
          | inl e' ↦ absurd (ground arith)
          | inr (next, e') ↦
              let b = attempt_cost-Bounds t o n a e (fits m) in
              let (lt, eq) = add_checked_small total n next small b.small e' in
              (
                n,
                omega arith,
                chat_total-IsCovered t o (total + n) maximum rest (ground arith) (omega arith)
                    later,
                λ i j w. (
                  charge-within t o n i j a b (fits m) w.0 w.1,
                  ground (arith, price-le t o n i j a b (fits m) w.0 w.1),
                ),
              )
        ]
      ]
      | inr m ↦ (
        0,
        omega arith,
        chat_total-IsCovered t o (total + 0) maximum rest (ground arith) (omega arith) later,
        λ i j w. free_attempt a i j m,
      )
    ]

pub embed_total-IsCovered :
    (t total maximum : ℕ) (attempts : List Attempt)
    → embed_total t attempts total ≡ some maximum
    → total < half64
    → IsCovered (FitsLimits t 0) attempts total maximum
unfolding embed_total
embed_total-IsCovered t total maximum [] h small = ground arith
embed_total-IsCovered t total maximum (a ∷ rest) h small = elim (Bool-cases (metered a)) [
  | inl m ↦ elim (Option-cases (tokens_cost t a.in_per_m)) [
    | inl e ↦ absurd (ground arith)
    | inr (n, e) ↦ elim (Option-cases (add_checked total n)) [
      | inl e' ↦ absurd (ground arith)
      | inr (next, e') ↦
          let c = tokens_cost-Costs t a.in_per_m n e in
          let at = subst (λ z. add_checked total z ≡ some next) c.rounded e' in
          let (fits, lt, eq) =
            add_checked_fits total (t * a.in_per_m) next small (omega (arith, c.exact)) at in
          (
            n,
            omega (arith, c.rounded),
            embed_total-IsCovered t (total + n) maximum rest (ground (arith, c.rounded))
                (omega (arith, c.rounded)),
            λ i j w. charge-within_input t n i j a c fits w.0 w.1,
          )
    ]
  ]
  | inr m ↦ (
    0,
    omega arith,
    embed_total-IsCovered t (total + 0) maximum rest (ground arith) (omega arith),
    λ i j w. free_attempt a i j m,
  )
]

-- Where no input price wraps, an attempt plan whose estimate for a chat is computed costs no more
-- than the estimate: if each attempt reports tokens within the limits of the route and of the
-- request, every charge is computed, their sum in int64 is their sum as numbers, and it is at most
-- the estimate, an int64 that is not negative. So are the charges of any first part of the plan.
pub charges_within_chat :
    (r : Route) (max_tokens maximum : ℕ) (reports : List (ℕ × ℕ))
    → estimate_chat r max_tokens ≡ some maximum
    → InputFits r.max_input_tokens r.attempts
    → All (FitsLimits r.max_input_tokens (out_limit r max_tokens)) reports
    → (charge_all r.attempts reports 0 ≡ some (price_all r.attempts reports))
      × (price_all r.attempts reports ≤ maximum)
      × (maximum < half64)
unfolding estimate_chat
charges_within_chat r m maximum reports h fits w =
    let P = FitsLimits r.max_input_tokens (out_limit r m) in
    let c =
      chat_total-IsCovered r.max_input_tokens (out_limit r m) 0 maximum r.attempts h (omega arith)
        fits in
    ground (
      arith,
      IsCovered-charge_all P r.attempts reports 0 0 maximum c (omega arith) w (omega arith),
      IsCovered-le P r.attempts 0 maximum c (omega arith),
    )

-- The same of an embedding, which reports no output; here no price has to be bounded.
pub charges_within_embed :
    (r : Route) (maximum : ℕ) (reports : List (ℕ × ℕ))
    → estimate_embed r ≡ some maximum
    → All (FitsLimits r.max_input_tokens 0) reports
    → (charge_all r.attempts reports 0 ≡ some (price_all r.attempts reports))
      × (price_all r.attempts reports ≤ maximum)
      × (maximum < half64)
unfolding estimate_embed
charges_within_embed r maximum reports h w =
    let P = FitsLimits r.max_input_tokens 0 in
    let c = embed_total-IsCovered r.max_input_tokens 0 maximum r.attempts h (omega arith) in
    ground (
      arith,
      IsCovered-charge_all P r.attempts reports 0 0 maximum c (omega arith) w (omega arith),
      IsCovered-le P r.attempts 0 maximum c (omega arith),
    )
