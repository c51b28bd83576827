-- ===== src/Policy/Automation.antt =====
-- internal/core/policy/admin.go: automated plugins and their daily budget, call by call.
use control_center.Common.{
  ◌≡◌, refl, Bool, false, none, some, inl, inr, Option-cases, List, [], ◌∷◌, arith, Bytes,
  bytes_eq_iff, bytes_eq_refl, bytes_key, lookup, update, lookup-update, lookup-upsert,
}
use control_center.Policy.Types.{
  Time, Window, all_windows, Budget, PluginState, is_unknown, Db, after,
}
use control_center.Policy.Queries.{no_budget, budget_of, read_state_row, window_usage}
use control_center.Policy.View.{uncapped}
use control_center.Policy.Admin.{
  actor_system, mark_disabled, mark_enabled, disable_tx, insert_plugin, set_automated,
  register_known, register, enable, check_new_limits, default_action, write_budget, set_budget,
  notify_after_commit, awaiting_configuration, automated_no_budget,
}
use control_center.Policy.Enabling.{disable_tx-states, disable_tx-rest}

-- A disable gives no plugin an uncapped state.
pub disable_tx-uncapped :
    (now : Time) (id actor reason j : Bytes) (d : Db)
    → uncapped j d ≡ false
    → uncapped j (after (disable_tx now id actor reason d)) ≡ false
unfolding budget_of mark_disabled
disable_tx-uncapped now id actor reason j d h = ground (
  arith,
  disable_tx-states now id actor reason d,
  disable_tx-rest now id actor reason d,
  lookup-update id j (mark_disabled now actor reason) d.states,
)

pub enable-uncapped :
    (now : Time) (id actor reason j : Bytes) (d : Db)
    → uncapped j d ≡ false
    → uncapped j (after (enable now id actor reason d)) ≡ false
unfolding enable read_state_row budget_of mark_enabled notify_after_commit
enable-uncapped now id actor reason j d h =
    ground (arith, bytes_eq_iff id j, lookup-update id j mark_enabled d.states)

insert_plugin-uncapped :
    (now : Time) (id j : Bytes) (a : Bool) (d : Db)
    → uncapped j d ≡ false
    → uncapped j (after (insert_plugin now id a d)) ≡ false
unfolding insert_plugin budget_of
insert_plugin-uncapped now id j a d h =
    let st : PluginState = record {
      enabled = false;
      automated = a;
      disabled_at = some now;
      disabled_by = actor_system;
      disabled_reason = awaiting_configuration;
      accounting_failed_at = none;
    } in
    ground (
      arith,
      bytes_eq_iff id j,
      lookup-upsert id j st d.states,
      lookup-upsert id j no_budget d.budgets,
    )

check_new_limits-same :
    (now : Time) (id : Bytes) (b : Budget) (ws : List Window) (d : Db)
    → after (check_new_limits now id b ws d) ≡ d
unfolding check_new_limits window_usage
check_new_limits-same now id b [] d = refl
check_new_limits-same now id b (w ∷ ws) d = ground (arith, check_new_limits-same now id b ws d)

write_budget-uncapped :
    (now : Time) (id j : Bytes) (b : Budget) (d : Db)
    → uncapped j d ≡ false
    → uncapped j (after (write_budget now id b d)) ≡ false
unfolding write_budget read_state_row budget_of
write_budget-uncapped now id j b d h = ground (
  arith,
  bytes_eq_iff id j,
  check_new_limits-same now id b all_windows d,
  lookup-upsert id j b d.budgets,
)

pub set_budget-uncapped :
    (now : Time) (id j : Bytes) (b : Budget) (d : Db)
    → uncapped j d ≡ false
    → uncapped j (after (set_budget now id b d)) ≡ false
unfolding set_budget
set_budget-uncapped now id j b d h =
    ground (arith, write_budget-uncapped now id j (default_action b) d)

abbrev flagged : Bytes → Bool → Db → Db
flagged id a d = record d { states = update id (λ st. record st { automated = a }) d.states }

-- Of a known plugin that becomes automated without a daily limit the disable makes up.
register_known-uncapped :
    (now : Time) (id j : Bytes) (a : Bool) (st : PluginState) (d : Db)
    → lookup id d.states ≡ some st
    → uncapped j d ≡ false
    → uncapped j (
        after (
          register_known now id a
            (record { plugin_id = id; state = st; budget = budget_of id d })
            d))
      ≡ false
unfolding register_known set_automated budget_of mark_disabled
register_known-uncapped now id j a st d e h = ground (
  arith,
  bytes_eq_iff id j,
  lookup-update id j (λ (st : PluginState). record st { automated = a }) d.states,
  lookup-update id id (λ (st : PluginState). record st { automated = a }) d.states,
  lookup-update id j (mark_disabled now actor_system automated_no_budget) (flagged id a d).states,
  disable_tx-states now id actor_system automated_no_budget (flagged id a d),
  disable_tx-rest now id actor_system automated_no_budget (flagged id a d),
  bytes_eq_refl id,
)

pub register-uncapped :
    (now : Time) (id j : Bytes) (a : Bool) (d : Db)
    → uncapped j d ≡ false
    → uncapped j (after (register now id a d)) ≡ false
unfolding register read_state_row is_unknown
register-uncapped now id j a d h = elim (Option-cases (lookup id d.states)) [
  | inl e ↦ ground (arith, insert_plugin-uncapped now id j a d)
  | inr (st, e) ↦ ground (arith, register_known-uncapped now id j a st d e h)
]
