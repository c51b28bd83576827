-- ===== src/Ai/Route.antt =====
-- internal/core/ai/compile.go: routes, what they may cost at most, and what an attempt costs.
-- Tokens and money are int64 words.
use control_center.Common.Word.{neg64, add64, lt64, mul64, div64}
use control_center.Common.{
  ℕ, Bool, true, false, not, ◌&&◌, ◌||◌, Option, none, some, List, [], ◌∷◌, if◌then◌else◌, ◌==◌,
  Bytes, bytes_eq, bytes_key,
}

pub data RouteError : Type 0 where
  invalid_route : RouteError
  unknown_provider : Bytes → RouteError
  missing_price : Bytes → RouteError
  unbounded : RouteError

pub data Billing : Type 0 where
  metered_billing subscription_billing : Billing

pub record ProviderConfig : Type 0 where
  pub id : Bytes
  pub kind : Bytes
  pub base_url : Bytes
  pub credential_id : Bytes
  pub billing : Billing

pub record AttemptInput : Type 0 where
  pub provider : Bytes
  pub model : Bytes
  pub input_price : ℕ
  pub output_price : ℕ

pub record RouteInput : Type 0 where
  pub name : Bytes
  pub capabilities : List Bytes
  pub max_input_tokens : ℕ
  pub max_output_tokens : ℕ
  pub attempts : List AttemptInput

pub record Attempt : Type 0 where
  pub provider_id : Bytes
  pub kind : Bytes
  pub base_url : Bytes
  pub credential : Bytes
  pub billing : Billing
  pub model : Bytes
  pub in_per_m : ℕ
  pub out_per_m : ℕ

pub record Route : Type 0 where
  pub name : Bytes
  pub capabilities : List Bytes
  pub max_input_tokens : ℕ
  pub max_output_tokens : ℕ
  pub attempts : List Attempt
  pub last_error : Bytes

unfoldable pub metered : Attempt → Bool
metered a = elim a.billing [ metered_billing ↦ true | subscription_billing ↦ false ]

unfoldable pub has_name : Bytes → List Bytes → Bool
has_name c [] = false
has_name c (x ∷ xs) = bytes_eq x c || has_name c xs

-- route.has
unfoldable pub has : Route → Bytes → Bool
has r c = has_name c r.capabilities

-- route.usable
unfoldable pub usable : Route → Bool
usable r = bytes_eq r.last_error []

-- (n + 999_999) / 1_000_000, with the sum in int64.
abbrev pub round_up : ℕ → ℕ
round_up n = div64 (add64 n 999999) 1000000

abbrev pub not_positive : ℕ → Bool
not_positive n = neg64 n || n == 0

unfoldable pub tokens_cost : (tokens per_million : ℕ) → Option ℕ
tokens_cost tokens per_million =
    if neg64 tokens || not_positive per_million
    then none
    else let n = mul64 tokens per_million in
      if not (tokens == 0) && not (div64 n tokens == per_million) then none else some (round_up n)

-- `next := total + n; if next < total { return ErrUnbounded }`
unfoldable pub add_checked : ℕ → ℕ → Option ℕ
add_checked total n = if lt64 (add64 total n) total then none else some (add64 total n)

-- The sum of the two costs of an attempt.
unfoldable pub attempt_cost : (in_tok out_tok : ℕ) → Attempt → Option ℕ
attempt_cost in_tok out_tok a = elim (tokens_cost in_tok a.in_per_m) [
  | none ↦ none
  | some inn ↦ elim (tokens_cost out_tok a.out_per_m) [
    | none ↦ none
    | some out ↦ add_checked inn out
  ]
]

-- The loop of estimateChat.
unfoldable pub chat_total : (in_tok out_tok : ℕ) → List Attempt → ℕ → Option ℕ
chat_total in_tok out_tok [] total = some total
chat_total in_tok out_tok (a ∷ rest) total =
    if not (metered a)
    then chat_total in_tok out_tok rest total
    else elim (attempt_cost in_tok out_tok a) [
      | none ↦ none
      | some n ↦ elim (add_checked total n) [
        | none ↦ none
        | some next ↦ chat_total in_tok out_tok rest next
      ]
    ]

-- The output tokens that a request may take.
unfoldable pub out_limit : Route → (max_tokens : ℕ) → ℕ
out_limit r max_tokens =
    if not (not_positive max_tokens) && lt64 max_tokens r.max_output_tokens
    then max_tokens
    else r.max_output_tokens

unfoldable pub estimate_chat : Route → (max_tokens : ℕ) → Option ℕ
estimate_chat r max_tokens = chat_total r.max_input_tokens (out_limit r max_tokens) r.attempts 0

-- The loop of estimateEmbed.
unfoldable pub embed_total : (in_tok : ℕ) → List Attempt → ℕ → Option ℕ
embed_total in_tok [] total = some total
embed_total in_tok (a ∷ rest) total =
    if not (metered a)
    then embed_total in_tok rest total
    else elim (tokens_cost in_tok a.in_per_m) [
      | none ↦ none
      | some inn ↦ elim (add_checked total inn) [
        | none ↦ none
        | some next ↦ embed_total in_tok rest next
      ]
    ]

unfoldable pub estimate_embed : Route → Option ℕ
estimate_embed r = embed_total r.max_input_tokens r.attempts 0

unfoldable pub charge : Attempt → (in_tok out_tok : ℕ) → Option ℕ
charge a in_tok out_tok = if not (metered a) then some 0 else elim (tokens_cost in_tok a.in_per_m) [
  | none ↦ none
  | some inn ↦
      if out_tok == 0 || a.out_per_m == 0
      then some inn
      else elim (tokens_cost out_tok a.out_per_m) [ none ↦ none | some out ↦ add_checked inn out ]
]
