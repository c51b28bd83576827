-- ===== src/Policy/Admin.antt =====
-- internal/core/policy/admin.go.
use control_center.Common.Word.{neg64, add64, le64}
use control_center.Common.{
  ℕ, suc, Bool, true, false, not, ◌&&◌, ◌||◌, none, some, List, [], ◌∷◌, if◌then◌else◌, ◌==◌, leb,
  ltb, Bytes, codes, bytes_eq, bytes_key, lookup, length, upsert, update,
}
use control_center.Policy.Types.{
  Time, Window, all_windows, period_start, exceed_reject, valid_action, Budget, limit_for,
  invalid_plugin_id, negative_amount, budget_below_spend, automated_needs_budget, invalid_exceed,
  sql_error, is_unknown, PluginState, enabled_event, disabled_event, done, failed, M, ◌>>=◌, ◌>>◌,
  return, fail, modify, in_tx,
}
use control_center.Policy.Queries.{StateRow, no_budget, read_state_row, window_usage, publish}

abbrev pub actor_system : Bytes
actor_system = codes "system"

abbrev pub awaiting_configuration : Bytes
awaiting_configuration = codes "awaiting_configuration"

abbrev pub automated_no_budget : Bytes
automated_no_budget = codes "automated_without_daily_budget"

unfoldable pub plugin_id_char : ℕ → Bool
plugin_id_char c = (leb b'a' c && leb c b'z') || (leb b'0' c && leb c b'9') || c == b'_'

unfoldable pub all_id_chars : Bytes → Bool
all_id_chars [] = true
all_id_chars (c ∷ s) = plugin_id_char c && all_id_chars s

unfoldable pub valid_plugin_id : Bytes → Bool
valid_plugin_id [] = false
valid_plugin_id (c ∷ s) =
    if ltb 64 (suc (length s)) || ltb c b'a' || ltb b'z' c then false else all_id_chars s

unfoldable pub mark_disabled : Time → Bytes → Bytes → PluginState → PluginState
mark_disabled now actor reason st = record st {
  enabled = false;
  disabled_at = some now;
  disabled_by = actor;
  disabled_reason = reason;
}

unfoldable pub notify_after_commit : Bytes → Bool → M (Unit {0})
notify_after_commit id on d = done tt (record d { notified = (id, on) ∷ d.notified })

-- The write, the event and the watcher call of a disable that changes the state.
unfoldable pub write_disabled : Time → Bytes → Bytes → Bytes → M (Unit {0})
write_disabled now id actor reason = do
  modify λ d. record d { states = update id (mark_disabled now actor reason) d.states }
  publish (disabled_event id actor reason)
  notify_after_commit id false

unfoldable pub disable_tx : Time → Bytes → Bytes → Bytes → M (Unit {0})
disable_tx now id actor reason = do
  st ← read_state_row id
  if st.enabled then write_disabled now id actor reason else return tt

unfoldable pub disable : Time → Bytes → Bytes → Bytes → M (Unit {0})
disable now id actor reason = in_tx (disable_tx now id actor reason)

-- INSERT INTO core_plugin_state and core_plugin_budget, for an unknown plugin.
unfoldable pub insert_plugin : Time → Bytes → Bool → M (Unit {0})
insert_plugin now id automated d = elim (lookup id d.budgets) [
  | some _ ↦ failed sql_error d
  | none ↦ done tt (record d {
    states =
        upsert id
          (record {
            enabled = false;
            automated = automated;
            disabled_at = some now;
            disabled_by = actor_system;
            disabled_reason = awaiting_configuration;
            accounting_failed_at = none;
          })
          d.states;
    budgets = upsert id no_budget d.budgets;
  })
]

abbrev pub same_flag : Bool → Bool → Bool
same_flag true b = b
same_flag false b = not b

unfoldable pub set_automated : Bytes → Bool → M (Unit {0})
set_automated id automated d =
    done tt (record d { states = update id (λ st. record st { automated = automated }) d.states })

unfoldable pub register_known : Time → Bytes → Bool → StateRow → M (Unit {0})
register_known now id automated st = if same_flag st.automated automated then return tt else do
  set_automated id automated
  if automated && st.enabled && st.budget.daily == 0
      then disable_tx now id actor_system automated_no_budget
      else return tt

unfoldable pub register : Time → Bytes → Bool → M (Unit {0})
register now id automated d =
    if valid_plugin_id id
    then in_tx
        (λ d. elim (read_state_row id d) [
          | done st e ↦ register_known now id automated st e
          | failed x e ↦ if is_unknown x then insert_plugin now id automated e else failed x e
        ])
        d
    else failed (invalid_plugin_id id) d

unfoldable pub mark_enabled : PluginState → PluginState
mark_enabled st = record st {
  enabled = true;
  disabled_at = none;
  disabled_by = [];
  disabled_reason = [];
  accounting_failed_at = none;
}

unfoldable pub enable : Time → Bytes → Bytes → Bytes → M (Unit {0})
enable now id actor reason = in_tx do
  st ← read_state_row id
  if st.enabled
      then return tt
      else if st.automated && st.budget.daily == 0
      then fail automated_needs_budget
      else do
        modify λ d. record d { states = update id mark_enabled d.states }
        publish (enabled_event id actor reason)
        notify_after_commit id true

-- The loop of SetBudget over the windows.
unfoldable pub check_new_limits : Time → Bytes → Budget → List Window → M (Unit {0})
check_new_limits now id b [] = return tt
check_new_limits now id b (w ∷ ws) =
    let rest = check_new_limits now id b ws in
    if limit_for b w == 0 then rest else do
      (reserved, committed) ←
          window_usage (record { plugin = id; window = w; start = period_start w now })
      if le64 (add64 reserved committed) (limit_for b w) then rest else fail (budget_below_spend w)

unfoldable pub default_action : Budget → Budget
default_action b = if bytes_eq b.on_exceed [] then record b { on_exceed = exceed_reject } else b

unfoldable pub write_budget : Time → Bytes → Budget → M (Unit {0})
write_budget now id b = do
  st ← read_state_row id
  if st.enabled && st.automated && b.daily == 0 then fail automated_needs_budget else do
    check_new_limits now id b all_windows
    modify λ d. record d { budgets = upsert id b d.budgets }

unfoldable pub set_budget : Time → Bytes → Budget → M (Unit {0})
set_budget now id b =
    if neg64 b.hourly || neg64 b.daily || neg64 b.monthly
    then fail negative_amount
    else if valid_action (default_action b).on_exceed
    then in_tx (write_budget now id (default_action b))
    else fail (invalid_exceed b.on_exceed)
