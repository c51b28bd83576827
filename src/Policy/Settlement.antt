-- ===== src/Policy/Settlement.antt =====
-- SettleSpendTx and ReleaseSpendTx of internal/core/policy/store.go.
use control_center.Common.Word.{half64, le64→le, le→le64}
use control_center.Common.{
  ◌⊎◌, inl, inr, ℕ, ◌+◌, ◌≤◌, ◌<◌, ◌≡◌, refl, ◌≢◌, false, Option, none, some, arith, Bytes,
  bytes_eq_refl, bytes_key, lookup, delete, lookup-delete, All,
}
use control_center.Policy.Types.{
  Time, hour_window, all_windows, Reservation, Period, period_key, Db, done, failed, after,
  unknown_reservation,
}
use control_center.Policy.Queries.{reserved_in, committed_in, pinned, take_reservation}
use control_center.Policy.View.{usage, is_enabled}
use control_center.Policy.Store.{commit_all, settle_spend_tx, release_spend_tx}
use control_center.Policy.Commit.{
  Distinct, share, reserved_in-delete, IsDone, Fits, Fits-commits, commit_all-rest,
  committed_in-commit_all, accounting_failure-Stops,
}

-- The upserts of a settlement.
abbrev pub Commits : Bytes → Reservation → ℕ → Db → Type 0
Commits rid r n d =
    IsDone (commit_all r n all_windows (record d { reservations = delete rid d.reservations }))

pub Fits-Commits :
    (rid : Bytes) (r : Reservation) (n : ℕ) (d : Db)
    → All (Fits r n d) all_windows
    → Commits rid r n d
unfolding committed_in
Fits-Commits rid r n d (h, (y, (m, _))) =
    Fits-commits r n (record d { reservations = delete rid d.reservations }) (h, (y, (m, tt)))

settled-Commits :
    (now : Time) (rid : Bytes) (n : ℕ) (d d' : Db) (r : Reservation)
    → lookup rid d.reservations ≡ some r
    → settle_spend_tx now rid n d ≡ done tt d'
    → Commits rid r n d
unfolding settle_spend_tx take_reservation
settled-Commits now rid n d d' r found h = ground arith

-- The tables after a settlement whose upserts succeed, whatever it returns.
module _ (now : Time) (rid : Bytes) (n : ℕ) (d : Db) (r : Reservation)
    (found : lookup rid d.reservations ≡ some r) (small : n < half64)
    (commits : Commits rid r n d) where
  pub settle-tables :
      (k : Period)
      → let d' = after (settle_spend_tx now rid n d) in
        (d'.reservations ≡ delete rid d.reservations)
        × (committed_in k d' ≡ committed_in k d + share k r n)
        × (d'.budgets ≡ d.budgets)
  unfolding settle_spend_tx take_reservation committed_in
  settle-tables k =
      let d1 = record d { reservations = delete rid d.reservations } in
      let d2 = after (commit_all r n all_windows d1) in
      ground (
        arith,
        commits,
        commit_all-rest r n all_windows d1,
        committed_in-commit_all k r n d1 commits,
        accounting_failure-Stops now rid r n d2,
      )

-- The money after a settlement whose upserts succeed, whatever it returns.
settle-money :
    (now : Time) (rid : Bytes) (n : ℕ) (d : Db) (r : Reservation) (k : Period)
    → Distinct d.reservations
    → lookup rid d.reservations ≡ some r
    → n < half64
    → Commits rid r n d
    → let d' = after (settle_spend_tx now rid n d) in
      (reserved_in k d'.reservations + share k r r.maximum ≡ reserved_in k d.reservations)
      × (committed_in k d' ≡ committed_in k d + share k r n)
      × (lookup rid d'.reservations ≡ none)
settle-money now rid n d r k v found small commits = ground (
  arith,
  settle-tables now rid n d r found small commits k,
  reserved_in-delete k rid r d.reservations v found,
  lookup-delete rid rid d.reservations,
  bytes_eq_refl rid,
)

-- Where reservation ids are distinct, a charge of at most the maximum of a known reservation, itself an
-- int64 that is not negative, settles if the committed sum with the charge fits in int64 for each
-- period that the reservation pins. It changes no state row, budget, event or watcher call, and
-- raises the usage of no period.
pub settle_within :
    (now : Time) (rid : Bytes) (n : ℕ) (d : Db) (r : Reservation) (k : Period)
    → Distinct d.reservations
    → lookup rid d.reservations ≡ some r
    → r.maximum < half64
    → n ≤ r.maximum
    → All (Fits r n d) all_windows
    → let d' = after (settle_spend_tx now rid n d) in
      (settle_spend_tx now rid n d ≡ done tt d')
      × (record d' { reservations = d.reservations; spend = d.spend } ≡ d)
      × (usage k d' ≤ usage k d)
unfolding settle_spend_tx take_reservation
settle_within now rid n d r k v found small le fit =
    let d1 = record d { reservations = delete rid d.reservations } in
    let commits = Fits-Commits rid r n d fit in
    let fits = le→le64 n r.maximum (omega arith) small le in
    (
      ground (arith, fits, commits),
      ground (arith, fits, commits, commit_all-rest r n all_windows d1),
      ground (arith, settle-money now rid n d r k v found (omega arith) commits),
    )

-- The tables after a charge above the maximum whose upserts succeed.
pub settle_above-is_enabled :
    (now : Time) (rid : Bytes) (n : ℕ) (d : Db) (r : Reservation)
    → lookup rid d.reservations ≡ some r
    → r.maximum < n
    → n < half64
    → Commits rid r n d
    → is_enabled r.plugin (after (settle_spend_tx now rid n d)) ≡ false
unfolding settle_spend_tx take_reservation
settle_above-is_enabled now rid n d r found above small commits =
    let d1 = record d { reservations = delete rid d.reservations } in
    let d2 = after (commit_all r n all_windows d1) in
    ground (arith, commits, accounting_failure-Stops now rid r n d2, le64→le n r.maximum)

nonneg :
    (now : Time) (rid : Bytes) (n : ℕ) (d d' : Db)
    → settle_spend_tx now rid n d ≡ done tt d'
    → n < half64
unfolding settle_spend_tx
nonneg now rid n d d' h = ground arith

unknown :
    (now : Time) (rid : Bytes) (n : ℕ) (d : Db) {d' : Db}
    → lookup rid d.reservations ≡ none
    → settle_spend_tx now rid n d ≢ done tt d'
unfolding settle_spend_tx take_reservation
unknown now rid n d e h = ground arith

settled_gone :
    (now : Time) (rid : Bytes) (n : ℕ) (d d' : Db)
    → settle_spend_tx now rid n d ≡ done tt d'
    → lookup rid d'.reservations ≡ none
settled_gone now rid n d d' h = go (lookup rid d.reservations) refl
  where
    go :
        (o : Option Reservation) → lookup rid d.reservations ≡ o → lookup rid d'.reservations ≡ none
    go none e = absurd (unknown now rid n d e h)
    go (some r) e = ground (
      arith,
      settle-tables now rid n d r e (nonneg now rid n d d' h) (settled-Commits now rid n d d' r e h)
          (pinned hour_window r),
      lookup-delete rid rid d.reservations,
      bytes_eq_refl rid,
    )

released_gone :
    (rid : Bytes) (d d' : Db)
    → release_spend_tx rid d ≡ done tt d'
    → lookup rid d'.reservations ≡ none
unfolding release_spend_tx take_reservation
released_gone rid d d' h = ground (arith, lookup-delete rid rid d.reservations, bytes_eq_refl rid)

-- A reservation is settled or released once: after a settlement or a release that succeeded, settling
-- it with a cost that is not negative and releasing it both fail as unknown and change nothing.
pub settle_once :
    (now later : Time) (rid : Bytes) (n m : ℕ) (d d' : Db)
    → (settle_spend_tx now rid n d ≡ done tt d') ⊎ (release_spend_tx rid d ≡ done tt d')
    → m < half64
    → (settle_spend_tx later rid m d' ≡ failed (unknown_reservation rid) d')
      × (release_spend_tx rid d' ≡ failed (unknown_reservation rid) d')
unfolding settle_spend_tx release_spend_tx take_reservation
settle_once now later rid n m d d' (inl h) small =
    let gone = settled_gone now rid n d d' h in (ground arith, ground arith)
settle_once now later rid n m d d' (inr h) small =
    let gone = released_gone rid d d' h in (ground arith, ground arith)

-- Where reservation ids are distinct, a settlement that succeeds moves money and loses none: in every
-- period, the reserved sum falls by the reservation's maximum and the committed sum rises by the actual
-- cost, if the reservation pins the period, and neither changes if it does not. The reservation is
-- gone. This holds below the maximum and above it.
pub settle_conserves :
    (now : Time) (rid : Bytes) (n : ℕ) (d d' : Db) (r : Reservation) (k : Period)
    → Distinct d.reservations
    → lookup rid d.reservations ≡ some r
    → settle_spend_tx now rid n d ≡ done tt d'
    → (reserved_in k d'.reservations + share k r r.maximum ≡ reserved_in k d.reservations)
      × (committed_in k d' ≡ committed_in k d + share k r n)
      × (lookup rid d'.reservations ≡ none)
settle_conserves now rid n d d' r k v found h = ground (
  arith,
  settle-money now rid n d r k v found (nonneg now rid n d d' h)
      (settled-Commits now rid n d d' r found h),
)

-- Where reservation ids are distinct, releasing a known reservation succeeds, takes its maximum out of
-- the usage of every period that it pins and of no other, and changes only the reservations.
pub release_conserves :
    (rid : Bytes) (d : Db) (r : Reservation) (k : Period)
    → Distinct d.reservations
    → lookup rid d.reservations ≡ some r
    → let d' = after (release_spend_tx rid d) in
      (release_spend_tx rid d ≡ done tt d')
      × (usage k d' + share k r r.maximum ≡ usage k d)
      × (record d' { reservations = d.reservations } ≡ d)
unfolding release_spend_tx take_reservation committed_in
release_conserves rid d r k v found =
    ground (arith, reserved_in-delete k rid r d.reservations v found)
