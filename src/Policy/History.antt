-- ===== src/Policy/History.antt =====
-- Histories of calls of internal/core/policy, each committed the way that policy.go asks of its callers.
use control_center.Common.{
  ℕ, ◌≡◌, refl, Bool, false, some, List, [], ◌∷◌, arith, if◌then◌else◌, Bytes, bytes_key, lookup,
  update, delete, lookup-update, inl, inr, Option-cases,
}
use control_center.Policy.Types.{
  Time, Window, all_windows, Budget, PluginState, Reservation, Period, is_domain_rejection, Db, M,
  done, failed, after, limit_for, accounting_event,
}
use control_center.Policy.Queries.{
  budget_of, read_state_row, window_usage, take_reservation, record_budget_exceeded, reserved_in,
  committed_in,
}
use control_center.Policy.View.{uncapped}
use control_center.Policy.Admin.{actor_system, disable_tx, disable, register, enable, set_budget}
use control_center.Policy.Store.{
  reject_spend, admit_windows, insert_reservation, reserve_spend_tx, commit_all, accounting_failure,
  settle_spend_tx, release_spend_tx, reason_budget_exceeded, reason_accounting, current,
}
use control_center.Policy.Commit.{commit_all-rest, report_crossed-rest}
use control_center.Policy.Automation.{
  disable_tx-uncapped, register-uncapped, enable-uncapped, set_budget-uncapped,
}

pub data Call : Type 0 where
  register_call : (id : Bytes) (automated : Bool) → Call
  enable_call disable_call : (id actor reason : Bytes) → Call
  set_budget_call : (id : Bytes) (b : Budget) → Call
  reserve_call : (rid id : Bytes) (maximum : ℕ) → Call
  settle_call : (rid : Bytes) (actual : ℕ) → Call
  release_call : (rid : Bytes) → Call

-- The caller's transaction: a domain rejection commits what it wrote, any other error rolls back.
abbrev pub commit {ℓ} : {A : Type ℓ} → M A → Db → Db
commit m d = elim (m d) [ done a e ↦ e | failed x e ↦ if is_domain_rejection x then e else d ]

unfoldable pub step : Time → Call → Db → Db
step now (register_call id a) d = after (register now id a d)
step now (enable_call id actor reason) d = after (enable now id actor reason d)
step now (disable_call id actor reason) d = after (disable now id actor reason d)
step now (set_budget_call id b) d = after (set_budget now id b d)
step now (reserve_call rid id maximum) d = commit (reserve_spend_tx now rid id maximum) d
step now (settle_call rid actual) d = commit (settle_spend_tx now rid actual) d
step now (release_call rid) d = commit (release_spend_tx rid) d

unfoldable pub run : List (Time × Call) → Db → Db
run [] d = d
run ((now, c) ∷ cs) d = run cs (step now c d)

abbrev pub empty_db : Db
empty_db = record {
  states = [];
  budgets = [];
  spend = [];
  reservations = [];
  budget_events = [];
  published = [];
  notified = [];
}

recorded-uncapped :
    (k : Period) (l r c : ℕ) (a j : Bytes) (d : Db)
    → uncapped j (after (record_budget_exceeded k l r c a d)) ≡ uncapped j d
unfolding record_budget_exceeded budget_of
recorded-uncapped k l r c a j d = ground arith

reject_spend-uncapped :
    (now : Time) (k : Period) (b : Budget) (r c : ℕ) (j : Bytes) (d : Db)
    → uncapped j d ≡ false
    → uncapped j (after (reject_spend now k b r c d)) ≡ false
unfolding reject_spend
reject_spend-uncapped now k b r c j d h =
    let e = after (record_budget_exceeded k (limit_for b k.window) r c b.on_exceed d) in
    ground (
      arith,
      recorded-uncapped k (limit_for b k.window) r c b.on_exceed j d,
      disable_tx-uncapped now k.plugin actor_system reason_budget_exceeded j e,
    )

admit_windows-uncapped :
    (now : Time) (id : Bytes) (n : ℕ) (b : Budget) (j : Bytes) (ws : List Window) (d : Db)
    → uncapped j d ≡ false
    → uncapped j (after (admit_windows now id n b ws d)) ≡ false
unfolding admit_windows window_usage
admit_windows-uncapped now id n b j [] d h = h
admit_windows-uncapped now id n b j (w ∷ ws) d h = ground (
  arith,
  admit_windows-uncapped now id n b j ws d h,
  reject_spend-uncapped now (current now id w) b (reserved_in (current now id w) d.reservations)
      (committed_in (current now id w) d) j d h,
)

reserve-uncapped :
    (now : Time) (rid id : Bytes) (n : ℕ) (j : Bytes) (d : Db)
    → uncapped j d ≡ false
    → uncapped j (after (reserve_spend_tx now rid id n d)) ≡ false
unfolding reserve_spend_tx read_state_row insert_reservation budget_of
reserve-uncapped now rid id n j d h =
    ground (arith, admit_windows-uncapped now id n (budget_of id d) j all_windows d h)

take-uncapped :
    (rid : Bytes) (j : Bytes) (d : Db) → uncapped j (after (take_reservation rid d)) ≡ uncapped j d
unfolding take_reservation budget_of
take-uncapped rid j d = ground arith

accounting_failure-uncapped :
    (now : Time) (rid : Bytes) (r : Reservation) (n : ℕ) (j : Bytes) (d : Db)
    → uncapped j d ≡ false
    → uncapped j (after (accounting_failure now rid r n d)) ≡ false
unfolding accounting_failure read_state_row budget_of
accounting_failure-uncapped now rid r n j d h =
    let d1 = record d {
      states = update r.plugin (λ st. record st { accounting_failed_at = some now }) d.states;
      published = accounting_event r.plugin rid r.maximum n ∷ d.published;
    } in
    let e = after (disable_tx now r.plugin actor_system reason_accounting d1) in
    ground (
      arith,
      lookup-update r.plugin j (λ (st : PluginState). record st { accounting_failed_at = some now })
          d.states,
      disable_tx-uncapped now r.plugin actor_system reason_accounting j d1,
      report_crossed-rest r (budget_of r.plugin e) all_windows e,
    )

settle-uncapped :
    (now : Time) (rid : Bytes) (n : ℕ) (j : Bytes) (d : Db)
    → uncapped j d ≡ false
    → uncapped j (after (settle_spend_tx now rid n d)) ≡ false
unfolding settle_spend_tx take_reservation budget_of
settle-uncapped now rid n j d h = elim (Option-cases (lookup rid d.reservations)) [
  | inl e ↦ ground arith
  | inr (r, e) ↦
      let d1 = record d { reservations = delete rid d.reservations } in
      let d2 = after (commit_all r n all_windows d1) in
      ground
        (arith, commit_all-rest r n all_windows d1, accounting_failure-uncapped now rid r n j d2)
]

-- Every call, committed or rolled back, leaves a capped plugin capped.
step-uncapped :
    (now : Time) (c : Call) (j : Bytes) (d : Db)
    → uncapped j d ≡ false
    → uncapped j (step now c d) ≡ false
unfolding step disable release_spend_tx budget_of
step-uncapped now (register_call id a) j d h = register-uncapped now id j a d h
step-uncapped now (enable_call id actor reason) j d h = enable-uncapped now id actor reason j d h
step-uncapped now (disable_call id actor reason) j d h =
    ground (arith, disable_tx-uncapped now id actor reason j d h)
step-uncapped now (set_budget_call id b) j d h = set_budget-uncapped now id j b d h
step-uncapped now (reserve_call rid id n) j d h =
    ground (arith, reserve-uncapped now rid id n j d h)
step-uncapped now (settle_call rid n) j d h = ground (arith, settle-uncapped now rid n j d h)
step-uncapped now (release_call rid) j d h = ground (arith, take-uncapped rid j d)

run-uncapped :
    (cs : List (Time × Call)) (j : Bytes) (d : Db)
    → uncapped j d ≡ false
    → uncapped j (run cs d) ≡ false
unfolding run
run-uncapped [] j d h = h
run-uncapped ((now, c) ∷ cs) j d h = run-uncapped cs j (step now c d) (step-uncapped now c j d h)

-- After any history of calls from empty tables, no plugin is enabled and automated with an unlimited
-- daily budget.
pub run_always_capped : (cs : List (Time × Call)) (j : Bytes) → uncapped j (run cs empty_db) ≡ false
unfolding lookup
run_always_capped cs j = run-uncapped cs j empty_db refl
