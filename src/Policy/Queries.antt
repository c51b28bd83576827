-- ===== src/Policy/Queries.antt =====
-- internal/core/policy/queries.go.
use control_center.Common.Word.{half64}
use control_center.Common.{
  ℕ, ◌+◌, Bool, true, false, ◌&&◌, none, some, List, [], ◌∷◌, if◌then◌else◌, ltb, Bytes, bytes_key,
  lookup, delete,
}
use mathlib.Core.Option
use control_center.Policy.Types.{
  Time, Window, hour_window, day_window, month_window, Budget, exceed_reject, PluginState,
  Reservation, Period, period_eq, period_key, Event, budget_event, Db, done, failed, M, modify,
  unknown_plugin, unknown_reservation, sql_error,
}

-- stateRow: one row of the join of core_plugin_state and core_plugin_budget.
pub record StateRow : Type 0 where
  pub plugin_id : Bytes
  pub state : PluginState
  pub open state use *
  pub budget : Budget

-- coalesce(…, 0) and coalesce(on_exceed, 'reject') where the join finds no budget row.
abbrev pub no_budget : Budget
no_budget = record { hourly = 0; daily = 0; monthly = 0; on_exceed = exceed_reject }

unfoldable pub budget_of : Bytes → Db → Budget
budget_of id d = Option.get_or (lookup id d.budgets) no_budget

unfoldable pub read_state_row : Bytes → M StateRow
read_state_row id d = elim (lookup id d.states) [
  | none ↦ failed (unknown_plugin id) d
  | some st ↦ done (record { plugin_id = id; state = st; budget = budget_of id d }) d
]

-- The column of a reservation that a window names.
unfoldable pub start_of : Window → Reservation → Time
start_of hour_window r = r.hour_start
start_of day_window r = r.day_start
start_of month_window r = r.month_start

-- The period of a window that a reservation pins.
abbrev pub pinned : Window → Reservation → Period
pinned w r = record { plugin = r.plugin; window = w; start = start_of w r }

-- SELECT coalesce(sum(maximum_microusd), 0) … WHERE plugin_id = ? AND <column> = ?
unfoldable pub reserved_in : Period → List (Bytes × Reservation) → ℕ
reserved_in k [] = 0
reserved_in k ((id, r) ∷ rs) =
    (if period_eq (pinned k.window r) k then r.maximum else 0) + reserved_in k rs

-- SELECT committed_microusd …; no row leaves 0.
unfoldable pub committed_in : Period → Db → ℕ
committed_in k d = Option.get_or (lookup k d.spend) 0

-- A sum or a cell past int64 is an error of the query or of its Scan.
unfoldable pub window_usage : Period → M (ℕ × ℕ)
window_usage k d =
    if ltb (reserved_in k d.reservations) half64 && ltb (committed_in k d) half64
    then done (reserved_in k d.reservations, committed_in k d) d
    else failed sql_error d

unfoldable pub take_reservation : Bytes → M Reservation
take_reservation id d = elim (lookup id d.reservations) [
  | none ↦ failed (unknown_reservation id) d
  | some r ↦ done r (record d { reservations = delete id d.reservations })
]

unfoldable pub has_period : Period → List Period → Bool
has_period k [] = false
has_period k (p ∷ ps) = if period_eq p k then true else has_period k ps

abbrev pub publish : Event → M (Unit {0})
publish e = modify λ d. record d { published = e ∷ d.published }

-- At most one budget_exceeded event for each plugin, window and period.
unfoldable pub record_budget_exceeded :
    Period → (limit reserved committed : ℕ) → Bytes → M (Unit {0})
record_budget_exceeded k limit reserved committed action d =
    if has_period k d.budget_events
    then done tt d
    else done tt (record d {
      published = budget_event k limit reserved committed action ∷ d.published;
      budget_events = k ∷ d.budget_events;
    })
