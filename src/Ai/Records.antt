-- ===== src/Ai/Records.antt =====
-- The rows of internal/core/ai/migrations.go, and what a call keeps while it runs (service.go and
-- dispatch.go). The policy tables stand in the same database.
use control_center.Common.{
  ℕ, Bool, true, ◌&&◌, Option, List, ◌==◌, ◌≡◌, ◌↔◌, arith, Bytes, bytes_eq, bytes_eq_iff, Eq,
}
use control_center.Policy.Types.{Time, Db}
use control_center.Policy.Types as Policy
use control_center.Ai.Route.{Attempt}

-- A row of core_ai_calls, less its id.
pub record CallRow : Type 0 where
  pub reservation_id : Bytes
  pub plugin_id : Bytes
  pub job_id : Bytes
  pub operation : Bytes
  pub logical_model : Bytes
  pub status : Bytes
  pub error_class : Bytes
  pub reserved : ℕ
  pub settled : ℕ
  pub usage_event_id : Option ℕ
  pub started_at : Time
  pub finalized_at : Option Time

-- UNIQUE (call_id, ordinal)
pub record AttemptKey : Type 0 where
  pub call_id : Bytes
  pub ordinal : ℕ

unfoldable pub attempt_eq : AttemptKey → AttemptKey → Bool
attempt_eq a b = bytes_eq a.call_id b.call_id && a.ordinal == b.ordinal

pub attempt_eq_iff : (a b : AttemptKey) → (attempt_eq a b ≡ true) ↔ (a ≡ b)
unfolding attempt_eq
attempt_eq_iff a b = ground (arith, bytes_eq_iff a.call_id b.call_id)

instance abbrev pub attempt_key : Eq AttemptKey
attempt_key = record { beq = attempt_eq; beq_iff = attempt_eq_iff }

-- A row of core_ai_attempts.
pub record AttemptRow : Type 0 where
  pub provider : Bytes
  pub provider_model : Bytes
  pub status : Bytes
  pub provider_status : Bytes
  pub error_class : Bytes
  pub billing_state : Bytes
  pub input_tokens : ℕ
  pub output_tokens : ℕ
  pub cost : ℕ
  pub latency : ℕ
  pub provider_error : Bytes

-- The payload of ai.usage.
pub record UsageEvent : Type 0 where
  pub subject : Bytes
  pub plugin : Bytes
  pub job : Bytes
  pub operation : Bytes
  pub logical_model : Bytes
  pub status : Bytes
  pub input_tokens : ℕ
  pub output_tokens : ℕ
  pub attempts : ℕ
  pub cost : ℕ

pub record World : Type 0 where
  pub money : Db
  pub calls : List (Bytes × CallRow)
  pub attempts : List (AttemptKey × AttemptRow)
  pub usage_events : List (ℕ × UsageEvent)

-- providerResult; `content` is the text with its parsed form, citations and sources, or the
-- vectors, of which there are `vectors`.
pub record ProviderResult : Type 0 where
  pub content : Bytes
  pub vectors : ℕ
  pub input_tokens : ℕ
  pub output_tokens : ℕ
  pub cost : ℕ
  pub billed : Bool
  pub err_class : Bytes
  pub provider_status : Bytes

-- What happens around one attempt: whether the context is done before it, whether its row cannot be
-- written, whether the credential resolves, and what the adapter returns.
pub record Answer : Type 0 where
  pub cancelled : Bool
  pub write_fails : Bool
  pub resolves : Bool
  pub result : ProviderResult
  pub perr : Option Bytes
  pub latency : ℕ

-- attemptOutcome
pub record AttemptOutcome : Type 0 where
  pub attempt : Attempt
  pub ordinal : ℕ
  pub result : ProviderResult
  pub latency : ℕ
  pub err_class : Bytes
  pub billed : Bool
  pub detail : Bytes

-- The variables of the loop of execute.
pub record Progress : Type 0 where
  pub ok_result : ProviderResult
  pub in_tok : ℕ
  pub out_tok : ℕ
  pub cost : ℕ
  pub err_class : Bytes
  pub err_detail : Bytes
  pub outcomes : List AttemptOutcome
  pub billed_any : Bool
  pub unknown_bill : Bool

pub record Usage : Type 0 where
  pub input_tokens : ℕ
  pub output_tokens : ℕ
  pub cost : ℕ
  pub attempts : ℕ

-- How execute ends. A call is stranded when it returns after the reservation and before the
-- transaction that finalizes it commits.
pub data CallEnd : Type 0 where
  answered : ProviderResult → Usage → CallEnd
  call_failed : (status err_class err_detail : Bytes) → CallEnd
  refused : Policy.Error → CallEnd
  stranded : CallEnd
