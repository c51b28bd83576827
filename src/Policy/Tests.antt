-- ===== src/Policy/Tests.antt =====
-- Runs of the policy model at concrete inputs.
use control_center.Policy.Overcharge.{settle_above_disables}
use control_center.Common.{
  inl, ◌+◌, ◌≤◌, ◌<◌, ◌≡◌, refl, true, false, none, List, [], ◌∷◌, arith, Bytes, codes, bytes_eq,
  bytes_key, lookup, update,
}
use control_center.Policy.Types.{
  in_tx, sql_error, Time, hour_window, day_window, period_start, Budget, limit_for, exceed_reject,
  exceed_disable, unknown_reservation, PluginState, Reservation, Period, period_eq, window_eq,
  time_eq, Db, done, failed, after,
}
use control_center.Policy.Queries.{
  budget_of, read_state_row, reserved_in, committed_in, start_of, window_usage, take_reservation,
  has_period, record_budget_exceeded,
}
use control_center.Policy.Admin.{
  disable, disable_tx, write_disabled, mark_disabled, notify_after_commit,
}
use control_center.Policy.Store.{
  current, reserve_spend_tx, admit_windows, insert_reservation, new_reservation, reject_spend,
  settle_spend_tx, release_spend_tx, commit_all,
}
use control_center.Policy.View.{usage, is_enabled, uncapped}
use control_center.Policy.Admission.{reserve_within_limit}
use control_center.Policy.Rejection.{Refusal, reserve_rejection}
use control_center.Policy.Overflow.{reserve_overflow}
use control_center.Policy.Commit.{share}
use control_center.Policy.Settlement.{settle_conserves, settle_once}
use control_center.Policy.History.{
  Call, register_call, enable_call, set_budget_call, run, empty_db, run_always_capped,
}

abbrev noon : Time
noon = record { year = 2026; month = 3; day = 9; hour = 12; rest = 5 }

abbrev pagewatch : Bytes
pagewatch = codes "pagewatch"

abbrev first_id : Bytes
first_id = codes "r1"

abbrev second_id : Bytes
second_id = codes "r2"

abbrev daily_100 : Budget
daily_100 = record { hourly = 0; daily = 100; monthly = 0; on_exceed = exceed_disable }

abbrev setup : List (Time × Call)
setup =
    (noon, register_call pagewatch true)
    ∷ (noon, set_budget_call pagewatch daily_100)
    ∷ (noon, enable_call pagewatch (codes "alice") (codes "go"))
    ∷ []

abbrev on_state : PluginState
on_state = record {
  enabled = true;
  automated = true;
  disabled_at = none;
  disabled_by = [];
  disabled_reason = [];
  accounting_failed_at = none;
}

-- A plugin at work, with a daily limit and nothing spent.
abbrev fresh : Db
fresh = record {
  states = (pagewatch, on_state) ∷ [];
  budgets = (pagewatch, daily_100) ∷ [];
  spend = [];
  reservations = [];
  budget_events = [];
  published = [];
  notified = [];
}

abbrev held : Reservation
held = new_reservation noon pagewatch 60

-- The same plugin with 60 reserved.
abbrev one_held : Db
one_held = record fresh { reservations = (first_id, held) ∷ [] }

abbrev today : Period
today = current noon pagewatch day_window

abbrev hourly_90 : Db
hourly_90 = record one_held {
  budgets =
      (pagewatch, record { hourly = 90; daily = 0; monthly = 0; on_exceed = exceed_reject }) ∷ [];
}

abbrev over : Db
over = after (reserve_spend_tx noon second_id pagewatch 41 one_held)

abbrev settled : Db
settled = after (settle_spend_tx noon first_id 45 one_held)

abbrev stopped : Db
stopped = after (disable noon pagewatch (codes "alice") (codes "pause") fresh)

run_always_capped_example : uncapped pagewatch (run setup empty_db) ≡ false
run_always_capped_example = run_always_capped setup pagewatch

settle_conserves_example :
    (reserved_in today settled.reservations + share today held 60
      ≡ reserved_in today one_held.reservations)
    × (committed_in today settled ≡ committed_in today one_held + share today held 45)
    × (lookup first_id settled.reservations ≡ none)
unfolding lookup bytes_eq settle_spend_tx take_reservation commit_all
    control_center.Policy.Store.commit_in committed_in control_center.Policy.Store.add_spend
    control_center.Common.upsert period_eq window_eq
settle_conserves_example =
    settle_conserves noon first_id 45 one_held settled held today (refl, tt) refl refl

-- The day's cell is full: the upsert fails, and the settlement rolls back.
abbrev full : Db
full = record one_held { spend = (today, 9223372036854775807) ∷ [] }

full_settlement : in_tx (settle_spend_tx noon first_id 1) full ≡ failed sql_error full
unfolding settle_spend_tx take_reservation lookup bytes_eq commit_all
    control_center.Policy.Store.commit_in committed_in period_eq window_eq
    control_center.Policy.Store.add_spend control_center.Common.upsert time_eq period_start start_of
full_settlement = refl

reserve_within_limit_example :
    usage today (after (reserve_spend_tx noon second_id pagewatch 40 one_held)) ≤ 100
unfolding reserve_spend_tx reserved_in committed_in budget_of read_state_row lookup bytes_eq
    admit_windows limit_for window_usage period_eq window_eq time_eq start_of period_start
    insert_reservation
reserve_within_limit_example =
    reserve_within_limit noon second_id pagewatch 40 day_window one_held
      (after (reserve_spend_tx noon second_id pagewatch 40 one_held))
      (new_reservation noon pagewatch 40) refl (omega arith) (omega arith) (omega arith)

reserve_rejection_example :
    Refusal noon pagewatch 41 (budget_of pagewatch one_held) day_window one_held over
unfolding reserve_spend_tx read_state_row lookup bytes_eq admit_windows limit_for budget_of
    window_usage reserved_in period_eq window_eq time_eq start_of period_start committed_in
    reject_spend record_budget_exceeded has_period update disable_tx mark_disabled
    notify_after_commit write_disabled insert_reservation
reserve_rejection_example =
    reserve_rejection noon second_id pagewatch 41 day_window one_held over refl

settle_above_disables_example :
    (settle_spend_tx noon first_id 61 one_held
      ≡ done tt (after (settle_spend_tx noon first_id 61 one_held)))
    × (is_enabled pagewatch (after (settle_spend_tx noon first_id 61 one_held)) ≡ false)
unfolding lookup bytes_eq reserved_in committed_in period_eq window_eq time_eq start_of period_start
settle_above_disables_example =
    settle_above_disables noon first_id 61 one_held held (refl, tt) refl (omega arith) (omega arith)
      refl
      ((omega arith, omega arith), ((omega arith, omega arith), ((omega arith, omega arith), tt)))

settle_once_example :
    (settle_spend_tx noon first_id 2 settled ≡ failed (unknown_reservation first_id) settled)
    × (release_spend_tx first_id settled ≡ failed (unknown_reservation first_id) settled)
unfolding settle_spend_tx take_reservation lookup bytes_eq commit_all
    control_center.Policy.Store.commit_in committed_in control_center.Policy.Store.add_spend
    control_center.Common.upsert period_eq window_eq
settle_once_example = settle_once noon noon first_id 45 2 one_held settled (inl refl) (omega arith)

-- 60 are held of an hourly limit of 90, and a call of 2 ^ 63 - 1 is let through.
reserve_overflow_example :
    let d' = record hourly_90 {
      reservations =
          (second_id, new_reservation noon pagewatch 9223372036854775807) ∷ hourly_90.reservations;
    } in
    (reserve_spend_tx noon second_id pagewatch 9223372036854775807 hourly_90
      ≡ done (new_reservation noon pagewatch 9223372036854775807) d')
    × (90 < usage (current noon pagewatch hour_window) d')
unfolding lookup reserved_in committed_in budget_of bytes_eq period_eq window_eq time_eq start_of
    period_start limit_for
reserve_overflow_example =
    reserve_overflow noon second_id pagewatch 9223372036854775807 hourly_90 refl refl (omega arith)
      (omega arith) (omega arith) (omega arith) (omega arith) (omega arith) refl refl
