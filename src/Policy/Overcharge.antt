-- ===== src/Policy/Overcharge.antt =====
-- SettleSpendTx with a charge above the reserved maximum: the accounting failure.
use control_center.Common.Word.{half64}
use control_center.Common.{
  ℕ, ◌+◌, ◌<◌, ◌≡◌, refl, true, false, some, List, [], ◌∷◌, arith, Bytes, bytes_eq_refl, bytes_key,
  lookup, delete, update, lookup-update, All,
}
use control_center.Policy.Types.{
  Time, Window, all_windows, Reservation, Budget, PluginState, accounting_event, Db, Outcome, done,
  failed, after,
}
use control_center.Policy.Queries.{
  budget_of, reserved_in, committed_in, pinned, take_reservation, window_usage, read_state_row,
  record_budget_exceeded,
}
use control_center.Policy.View.{is_known, is_enabled, period_eq_refl}
use control_center.Policy.Admin.{
  actor_system, disable_tx, write_disabled, notify_after_commit, mark_disabled,
}
use control_center.Policy.Enabling.{disable_tx-rest}
use control_center.Policy.Store.{
  commit_all, report_window, report_crossed, accounting_failure, settle_spend_tx, reason_accounting,
}
use control_center.Policy.Settlement.{Commits, Fits-Commits, settle_above-is_enabled}
use control_center.Policy.Commit.{
  Distinct, reserved_in-delete, IsDone, commit_all-rest, committed_in-commit_all,
  report_window-rest,
}

-- The usage of a window that a reservation pins fits in int64.
abbrev pub Countable : Reservation → Db → Window → Type 0
Countable r d w =
    (reserved_in (pinned w r) d.reservations < half64) × (committed_in (pinned w r) d < half64)

report_window-IsDone :
    (r : Reservation) (b : Budget) (w : Window) (d : Db)
    → Countable r d w
    → IsDone (report_window r b w d)
unfolding report_window window_usage record_budget_exceeded
report_window-IsDone r b w d f = ground arith

Countable-same :
    (r : Reservation) (d e : Db) (ws : List Window)
    → e.reservations ≡ d.reservations
    → e.spend ≡ d.spend
    → All (Countable r d) ws
    → All (Countable r e) ws
unfolding committed_in
Countable-same r d e [] p q a = tt
Countable-same r d e (w ∷ ws) p q (f, a) = (ground arith, Countable-same r d e ws p q a)

report_crossed-IsDone :
    (r : Reservation) (b : Budget) (ws : List Window) (d : Db)
    → All (Countable r d) ws
    → IsDone (report_crossed r b ws d)
unfolding report_crossed
report_crossed-IsDone r b [] d a = tt
report_crossed-IsDone r b (w ∷ ws) d (f, a) =
    let e = after (report_window r b w d) in
    let rest = report_window-rest r b w d in
    ground (
      arith,
      report_window-IsDone r b w d f,
      report_crossed-IsDone r b ws e (Countable-same r d e ws (ground arith) (ground arith) a),
    )

disable_tx-IsDone :
    (now : Time) (id actor reason : Bytes) (d : Db)
    → is_known id d ≡ true
    → IsDone (disable_tx now id actor reason d)
      × (is_known id (after (disable_tx now id actor reason d)) ≡ true)
unfolding disable_tx read_state_row write_disabled notify_after_commit
disable_tx-IsDone now id actor reason d h = (
  ground arith,
  ground (arith, bytes_eq_refl id, lookup-update id id (mark_disabled now actor reason) d.states),
)

accounting_failure-IsDone :
    (now : Time) (rid : Bytes) (r : Reservation) (n : ℕ) (d : Db)
    → is_known r.plugin d ≡ true
    → All (Countable r d) all_windows
    → IsDone (accounting_failure now rid r n d)
unfolding accounting_failure read_state_row
accounting_failure-IsDone now rid r n d h a =
    let d1 = record d {
      states = update r.plugin (λ st. record st { accounting_failed_at = some now }) d.states;
      published = accounting_event r.plugin rid r.maximum n ∷ d.published;
    } in
    let e = after (disable_tx now r.plugin actor_system reason_accounting d1) in
    let known : is_known r.plugin d1 ≡ true = ground (
      arith,
      bytes_eq_refl r.plugin,
      lookup-update r.plugin r.plugin
          (λ (st : PluginState). record st { accounting_failed_at = some now }) d.states,
    ) in
    let rest = disable_tx-rest now r.plugin actor_system reason_accounting d1 in
    ground (
      arith,
      disable_tx-IsDone now r.plugin actor_system reason_accounting d1 known,
      report_crossed-IsDone r (budget_of r.plugin e) all_windows e
          (Countable-same r d e all_windows (ground arith) (ground arith) a),
    )

abbrev pub Chargeable : Reservation → ℕ → Db → Window → Type 0
Chargeable r n d w =
    (reserved_in (pinned w r) d.reservations < half64) × (committed_in (pinned w r) d + n < half64)

-- Once the reservation is gone and the cost is committed.
Countable-of_Chargeable :
    (rid : Bytes) (n : ℕ) (d : Db) (r : Reservation) (w : Window)
    → Distinct d.reservations
    → lookup rid d.reservations ≡ some r
    → Commits rid r n d
    → Chargeable r n d w
    → Countable r
        (after (commit_all r n all_windows (record d { reservations = delete rid d.reservations })))
        w
unfolding committed_in
Countable-of_Chargeable rid n d r w v found commits (f, g) =
    let d1 = record d { reservations = delete rid d.reservations } in
    ground (
      arith,
      commit_all-rest r n all_windows d1,
      committed_in-commit_all (pinned w r) r n d1 commits,
      reserved_in-delete (pinned w r) rid r d.reservations v found,
      period_eq_refl (pinned w r),
    )

settle-IsDone :
    (now : Time) (rid : Bytes) (n : ℕ) (d : Db) (r : Reservation)
    → lookup rid d.reservations ≡ some r
    → n < half64
    → Commits rid r n d
    → is_known r.plugin d ≡ true
    → All
        (Countable r (
          after
            (commit_all r n all_windows (record d { reservations = delete rid d.reservations }))))
        all_windows
    → IsDone (settle_spend_tx now rid n d)
unfolding settle_spend_tx take_reservation
settle-IsDone now rid n d r found small commits known a =
    let d1 = record d { reservations = delete rid d.reservations } in
    let d2 = after (commit_all r n all_windows d1) in
    let rest = commit_all-rest r n all_windows d1 in
    ground (arith, commits, accounting_failure-IsDone now rid r n d2 (ground arith) a)

done_after : (o : Outcome (Unit {0})) → IsDone o → o ≡ done tt (after o)
done_after (done _ e) h = refl
done_after (failed x e) h = absurd h

-- A charge above the maximum of a known reservation settles and leaves the plugin disabled, where
-- reservation ids are distinct, the charge is an int64 that is not negative, the plugin is known, and
-- the reserved sum and the committed sum with the charge fit in int64 for each period that the
-- reservation pins.
pub settle_above_disables :
    (now : Time) (rid : Bytes) (n : ℕ) (d : Db) (r : Reservation)
    → Distinct d.reservations
    → lookup rid d.reservations ≡ some r
    → r.maximum < n
    → n < half64
    → is_known r.plugin d ≡ true
    → All (Chargeable r n d) all_windows
    → (settle_spend_tx now rid n d ≡ done tt (after (settle_spend_tx now rid n d)))
      × (is_enabled r.plugin (after (settle_spend_tx now rid n d)) ≡ false)
settle_above_disables now rid n d r v found above small known a =
    let (h, (y, (m, _))) = a in
    let commits = Fits-Commits rid r n d (h.1, (y.1, (m.1, tt))) in
    let at : (w : Window)
        → Chargeable r n d w
        → Countable r
            (after
              (commit_all r n all_windows (record d { reservations = delete rid d.reservations })))
            w =
      λ w. Countable-of_Chargeable rid n d r w v found commits in
    (
      done_after (settle_spend_tx now rid n d)
          (settle-IsDone now rid n d r found small commits known (at _ h, (at _ y, (at _ m, tt)))),
      settle_above-is_enabled now rid n d r found above small commits,
    )
