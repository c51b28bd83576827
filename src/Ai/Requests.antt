-- ===== src/Ai/Requests.antt =====
-- Chat, Embed and validateEmbed of internal/core/ai/dispatch.go, and the search for a route of
-- service.go. Counting the characters of a text and testing it for blanks are parameters.
use control_center.Common.{
  ℕ, Bool, true, false, not, ◌&&◌, ◌||◌, Option, none, some, List, [], ◌∷◌, if◌then◌else◌, ltb,
  ◌==◌, Bytes, codes, bytes_eq, length,
}
use control_center.Ai.Route.{Route, has, usable, not_positive, estimate_chat, estimate_embed}
use control_center.Ai.Compile.{chat, embed}
use control_center.Ai.Records.{World, Answer, CallEnd, answered}
use control_center.Ai.Calls.{Ticket, execute}

pub data GateError : Type 0 where
  unknown_route : GateError
  route_uncompiled : GateError
  lacks_capability : GateError
  unbounded_route : GateError
  invalid_input : GateError

pub data Gate : Type 0 where
  passed : Route → (maximum : ℕ) → Gate
  stopped_at : GateError → Gate

-- `images` counts those of all messages; `grounding` holds its limit on queries, an int64 word.
pub record ChatRequest : Type 0 where
  pub model : Bytes
  pub images : ℕ
  pub grounding : Option ℕ
  pub max_tokens : ℕ

-- The loop of Service.route.
unfoldable pub find_route : Bytes → List Route → Option Route
find_route name [] = none
find_route name (r ∷ rs) =
    let rest = find_route name rs in if bytes_eq r.name name then some r else rest

abbrev no_grounding : Route → Option ℕ → Bool
no_grounding r none = false
no_grounding r (some queries) = not (has r (codes "grounding")) || not_positive queries

-- The tests of Chat on a route that was found.
unfoldable pub chat_allowed : Route → ChatRequest → Gate
chat_allowed r req =
    if not (usable r)
    then stopped_at route_uncompiled
    else if not (has r chat)
    then stopped_at lacks_capability
    else if not (req.images == 0) && not (has r (codes "vision"))
    then stopped_at lacks_capability
    else if no_grounding r req.grounding
    then stopped_at lacks_capability
    else elim (estimate_chat r req.max_tokens) [
      | none ↦ stopped_at unbounded_route
      | some maximum ↦ passed r maximum
    ]

unfoldable pub chat_gate : List Route → ChatRequest → Gate
chat_gate routes req = elim (find_route req.model routes) [
  | none ↦ stopped_at unknown_route
  | some r ↦ chat_allowed r req
]

abbrev pub max_embed_inputs : ℕ
max_embed_inputs = 64

abbrev pub max_embed_runes : ℕ
max_embed_runes = 8192

pub record EmbedRequest : Type 0 where
  pub model : Bytes
  pub inputs : List Bytes

module _ (count_runes : Bytes → ℕ) (is_blank : Bytes → Bool) where
  -- The loop of validateEmbed.
  unfoldable pub all_embeddable : List Bytes → Bool
  all_embeddable [] = true
  all_embeddable (s ∷ rest) =
      not (is_blank s || ltb max_embed_runes (count_runes s)) && all_embeddable rest

  unfoldable pub valid_embed : EmbedRequest → Bool
  valid_embed req =
      not (length req.inputs == 0 || ltb max_embed_inputs (length req.inputs))
      && all_embeddable req.inputs

  unfoldable pub embed_gate : List Route → EmbedRequest → Gate
  embed_gate routes req =
      if not (valid_embed req)
      then stopped_at invalid_input
      else elim (find_route req.model routes) [
        | none ↦ stopped_at unknown_route
        | some r ↦
            if not (usable r)
            then stopped_at route_uncompiled
            else if not (has r embed)
            then stopped_at lacks_capability
            else elim (estimate_embed r) [
              | none ↦ stopped_at unbounded_route
              | some maximum ↦ passed r maximum
            ]
      ]

pub data RequestEnd : Type 0 where
  turned_away : GateError → RequestEnd
  wrong_count : RequestEnd
  ended : CallEnd → RequestEnd

module _ (truncate : Bytes → Bytes) (adapters : List Bytes) (t : Ticket)
    (answers : ℕ → Answer) where
  unfoldable pub send_passed : Gate → World → RequestEnd × World
  send_passed (stopped_at e) w = (turned_away e, w)
  send_passed (passed r maximum) w =
      let (end, w') = execute truncate adapters t r.attempts maximum answers w in (ended end, w')

  -- Chat
  unfoldable pub run_chat : List Route → ChatRequest → World → RequestEnd × World
  run_chat routes req w = send_passed (chat_gate routes req) w

  -- The test of Embed on what came back.
  unfoldable pub check_count : EmbedRequest → RequestEnd → RequestEnd
  check_count req (ended (answered out u)) =
      if out.vectors == length req.inputs then ended (answered out u) else wrong_count
  check_count req end = end

  -- Embed
  unfoldable pub run_embed :
      (count_runes : Bytes → ℕ) (is_blank : Bytes → Bool)
      → List Route
      → EmbedRequest
      → World
      → RequestEnd × World
  run_embed count_runes is_blank routes req w =
      let (end, w') = send_passed (embed_gate count_runes is_blank routes req) w in
      (check_count req end, w')
