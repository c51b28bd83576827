-- ===== src/Policy/Enabling.antt =====
-- Disable of internal/core/policy/admin.go, and CheckWork of store.go.
use control_center.Common.{
  ◌≡◌, ◌↔◌, true, false, ◌&&◌, ◌∷◌, arith, if◌then◌else◌, Bytes, bytes_eq, bytes_eq_refl, bytes_key,
  lookup, update, lookup-update,
}
use mathlib.Core.Option
use control_center.Policy.Types.{Time, Db, done, failed, unknown_plugin, after, disabled_event}
use control_center.Policy.Queries.{read_state_row}
use control_center.Policy.View.{is_known, is_enabled}
use control_center.Policy.Admin.{
  mark_disabled, write_disabled, disable_tx, disable, notify_after_commit,
}
use control_center.Policy.Store.{check_work}

-- The state table after a disable, on every branch.
pub disable_tx-states :
    (now : Time) (id actor reason : Bytes) (d : Db)
    → (after (disable_tx now id actor reason d)).states
      ≡ (if is_enabled id d then update id (mark_disabled now actor reason) d.states else d.states)
unfolding disable_tx read_state_row write_disabled notify_after_commit
disable_tx-states now id actor reason d = ground arith

-- A disable touches nothing but the state table, the event log and the watcher calls.
pub disable_tx-rest :
    (now : Time) (id actor reason : Bytes) (d : Db)
    → record (after (disable_tx now id actor reason d)) {
      states = d.states;
      published = d.published;
      notified = d.notified;
    }
      ≡ d
unfolding disable_tx read_state_row write_disabled notify_after_commit
disable_tx-rest now id actor reason d = ground arith

pub disable_tx-is_enabled :
    (now : Time) (id actor reason : Bytes) (d : Db)
    → is_enabled id (after (disable_tx now id actor reason d)) ≡ false
unfolding mark_disabled
disable_tx-is_enabled now id actor reason d = ground (
  arith,
  disable_tx-states now id actor reason d,
  bytes_eq_refl id,
  lookup-update id id (mark_disabled now actor reason) d.states,
)

-- Disable succeeds exactly for a known plugin. On every branch the plugin is not enabled afterwards
-- and no other plugin's row changes. If it was enabled, one event and one watcher call are added, and
-- its row is marked with the time, the actor and the reason; if not, no table changes.
pub disable_branches :
    (now : Time) (id actor reason j : Bytes) (d : Db)
    → let d' = after (disable now id actor reason d) in
      (disable now id actor reason d
        ≡ (if is_known id d then done tt d' else failed (unknown_plugin id) d))
      × (is_enabled id d' ≡ false)
      × (d'.published
          ≡ (if is_enabled id d then disabled_event id actor reason ∷ d.published else d.published))
      × (d'.notified ≡ (if is_enabled id d then (id, false) ∷ d.notified else d.notified))
      × (lookup j d'.states ≡ (
          if is_enabled id d && bytes_eq id j
          then Option.map (mark_disabled now actor reason) (lookup j d.states)
          else lookup j d.states))
unfolding disable disable_tx read_state_row write_disabled notify_after_commit
disable_branches now id actor reason j d = (
  ground arith,
  unfold mark_disabled in
      ground
        (arith, bytes_eq_refl id, lookup-update id id (mark_disabled now actor reason) d.states),
  ground arith,
  ground arith,
  ground (arith, lookup-update id j (mark_disabled now actor reason) d.states),
)

-- The second of two disables, where the first succeeded, changes nothing and publishes nothing.
pub disable_twice :
    (now later : Time) (id actor reason actor' reason' : Bytes) (d d' : Db)
    → disable now id actor reason d ≡ done tt d'
    → disable later id actor' reason' d' ≡ done tt d'
unfolding disable disable_tx read_state_row write_disabled notify_after_commit mark_disabled
disable_twice now later id actor reason actor' reason' d d' h =
    ground (arith, bytes_eq_refl id, lookup-update id id (mark_disabled now actor reason) d.states)

-- Work is admitted exactly when the plugin is known and enabled, and the check changes nothing.
pub check_work_iff :
    (id : Bytes) (d : Db)
    → ((check_work id d ≡ done tt d) ↔ (is_enabled id d ≡ true)) × (after (check_work id d) ≡ d)
unfolding check_work read_state_row
check_work_iff id d = ((λ h. ground arith, λ h. ground arith), ground arith)
