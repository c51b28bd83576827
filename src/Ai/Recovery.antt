-- ===== src/Ai/Recovery.antt =====
-- recover and finalizeConservative of internal/core/ai/service.go. The pending calls are read
-- before the first is finalized.
use control_center.Common.{
  ℕ, Bool, true, false, ◌&&◌, none, some, List, [], ◌∷◌, if◌then◌else◌, Bytes, codes, bytes_eq,
  bytes_key, update,
}
use control_center.Policy.Types.{Time, Db, done, failed, is_unknown_reservation}
use control_center.Policy.Types as Policy
use control_center.Policy.Store.{settle_spend_tx}
use control_center.Ai.Records.{CallRow, AttemptKey, AttemptRow, World}
use control_center.Ai.Calls.{status_failed}

abbrev pub reason_recovered : Bytes
reason_recovered = codes "recovered"

unfoldable pub is_pending : CallRow → Bool
is_pending row = elim row.finalized_at [ none ↦ true | some t ↦ false ]

-- SET … WHERE id = ? AND finalized_at IS NULL
unfoldable pub fail_pending : Time → ℕ → Bytes → CallRow → CallRow
fail_pending now maximum reason row =
    if is_pending row
    then record row {
      status = status_failed;
      error_class = reason;
      settled = maximum;
      finalized_at = some now;
    }
    else row

-- UPDATE core_ai_attempts SET … WHERE call_id = ? AND status = 'dispatching'
unfoldable pub fail_dispatching :
    Bytes → List (AttemptKey × AttemptRow) → List (AttemptKey × AttemptRow)
fail_dispatching call_id [] = []
fail_dispatching call_id ((k, row) ∷ rest) =
    (
      k,
      if bytes_eq k.call_id call_id && bytes_eq row.status (codes "dispatching")
          then record row { status = status_failed; billing_state = codes "ambiguous" }
          else row,
    )
    ∷ fail_dispatching call_id rest

-- The tables of the AI service after finalizeConservative.
abbrev pub finalized : Time → Bytes → ℕ → Bytes → World → World
finalized now call_id maximum reason w = record w {
  calls = update call_id (fail_pending now maximum reason) w.calls;
  attempts = fail_dispatching call_id w.attempts;
}

pub data Recovered : Type 0 where
  recovered : World → Recovered
  recovery_failed : Policy.Error → World → Recovered

-- An unknown reservation was charged before.
unfoldable pub finalize_conservative : Time → Bytes → Bytes → ℕ → Bytes → World → Recovered
finalize_conservative now call_id reservation_id maximum reason w =
    let w' = finalized now call_id maximum reason w in
    if bytes_eq reservation_id []
    then recovered w'
    else elim (settle_spend_tx now reservation_id maximum w.money) [
      | done _ d ↦ recovered (record w' { money = d })
      | failed x d ↦
          if is_unknown_reservation x
          then recovered (record w' { money = d })
          else recovery_failed x w
    ]

-- SELECT … WHERE finalized_at IS NULL
unfoldable pub pending_calls : List (Bytes × CallRow) → List (Bytes × CallRow)
pending_calls [] = []
pending_calls ((id, row) ∷ rest) =
    let later = pending_calls rest in if is_pending row then (id, row) ∷ later else later

-- The loop of recover; the first error ends it.
unfoldable pub recover_all : Time → List (Bytes × CallRow) → World → Recovered
recover_all now [] w = recovered w
recover_all now ((id, row) ∷ rest) w =
    elim (finalize_conservative now id row.reservation_id row.reserved reason_recovered w) [
      | recovered w' ↦ recover_all now rest w'
      | recovery_failed x w' ↦ recovery_failed x w'
    ]

unfoldable pub recover : Time → World → Recovered
recover now w = recover_all now (pending_calls w.calls) w
