-- ===== src/Ai/Compile.antt =====
-- compileRoute of internal/core/ai/compile.go, and validName of providers.go. The providers are the
-- map that the caller built from their rows.
use control_center.Common.{
  ℕ, Bool, true, false, not, ◌&&◌, ◌||◌, none, some, List, [], ◌∷◌, ◌++◌, if◌then◌else◌, leb, ltb,
  Bytes, codes, bytes_eq, bytes_key, length, lookup, ◌==◌,
}
use control_center.Ai.Route.{
  RouteError, invalid_route, unknown_provider, missing_price, unbounded, ProviderConfig,
  AttemptInput, RouteInput, Attempt, Route, metered, has, not_positive, estimate_chat,
  estimate_embed,
}

abbrev pub chat : Bytes
chat = codes "chat"

abbrev pub embed : Bytes
embed = codes "embed"

abbrev lower : ℕ → Bool
lower c = leb b'a' c && leb c b'z'

-- The test of each character after the first.
unfoldable pub name_rest : Bytes → Bool
name_rest [] = true
name_rest (c ∷ s) = (lower c || (leb b'0' c && leb c b'9') || c == b'_' || c == b'-') && name_rest s

unfoldable pub valid_name : Bytes → Bool
valid_name [] = false
valid_name (c ∷ s) = not (ltb 64 (length (c ∷ s))) && lower c && name_rest s

-- A route, or an error with the route as far as it was built.
pub data Compiled : Type 0 where
  compiled : Route → Compiled
  refused : RouteError → Route → Compiled

unfoldable pub resolve : ProviderConfig → AttemptInput → Attempt
resolve p i = record {
  provider_id = p.id;
  kind = p.kind;
  base_url = p.base_url;
  credential = p.credential_id;
  billing = p.billing;
  model = i.model;
  in_per_m = i.input_price;
  out_per_m = i.output_price;
}

-- One round of the loop over the attempts.
unfoldable pub compile_attempt : List (Bytes × ProviderConfig) → Route → AttemptInput → Compiled
compile_attempt providers r i = elim (lookup i.provider providers) [
  | none ↦ refused (unknown_provider i.provider) r
  | some p ↦
      let a = resolve p i in
      if bytes_eq i.model []
      then refused invalid_route r
      else if metered a && not_positive a.in_per_m
      then refused (missing_price p.id) r
      else if metered a && has r chat && not_positive a.out_per_m
      then refused (missing_price p.id) r
      else compiled (record r { attempts = r.attempts ++ a ∷ [] })
]

unfoldable pub compile_attempts :
    List (Bytes × ProviderConfig) → Route → List AttemptInput → Compiled
compile_attempts providers r [] = compiled r
compile_attempts providers r (i ∷ rest) = elim (compile_attempt providers r i) [
  | refused e r' ↦ refused e r'
  | compiled r' ↦ compile_attempts providers r' rest
]

-- The last test, of the cost of the plan.
unfoldable pub check_bounded : Route → Compiled
check_bounded r =
    if has r chat
    then elim (estimate_chat r 0) [ none ↦ refused unbounded r | some _ ↦ compiled r ]
    else elim (estimate_embed r) [ none ↦ refused unbounded r | some _ ↦ compiled r ]

abbrev pub empty_route : RouteInput → Route
empty_route i = record {
  name = i.name;
  capabilities = i.capabilities;
  max_input_tokens = i.max_input_tokens;
  max_output_tokens = i.max_output_tokens;
  attempts = [];
  last_error = [];
}

abbrev pub empty {ℓ} : {A : Type ℓ} → List A → Bool
empty [] = true
empty (x ∷ xs) = false

unfoldable pub compile_route : RouteInput → List (Bytes × ProviderConfig) → Compiled
compile_route i providers =
    let r = empty_route i in
    if not (valid_name i.name)
    then refused invalid_route r
    else if not_positive i.max_input_tokens || not_positive i.max_output_tokens
    then refused invalid_route r
    else if empty i.attempts || empty i.capabilities
    then refused invalid_route r
    else elim (compile_attempts providers r i.attempts) [
      | refused e r' ↦ refused e r'
      | compiled r' ↦
          if not (has r' chat) && not (has r' embed)
          then refused invalid_route r'
          else check_bounded r'
    ]
