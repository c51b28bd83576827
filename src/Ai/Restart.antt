-- ===== src/Ai/Restart.antt =====
-- recover of internal/core/ai/service.go.
use control_center.Common.{
  ◌⊎◌, ℕ, ◌≤◌, ◌≡◌, refl, sym, subst, Bool, true, false, List, [], ◌∷◌, arith, if◌then◌else◌, Bytes,
  bytes_eq_iff, bytes_key, lookup, update, lookup-delete, inl, inr, Option-cases, Bool-cases, All,
}
use control_center.Policy.Types.{Time, Db, Period}
use control_center.Policy.Commit.{Distinct}
use control_center.Policy.View.{usage}
use control_center.Ai.Records.{CallRow, attempt_key, World}
use control_center.Ai.Finished.{OnlyMoney}
use control_center.Ai.Recovery.{
  is_pending, fail_pending, Recovered, recovered, recovery_failed, finalize_conservative,
  pending_calls, recover_all, recover, reason_recovered,
}
use control_center.Ai.Recovered.{
  IsCountable, IsLinked, Distinct-delete, IsSettled, Recovers, finalize_conservative-Recovers,
}

IsSettled-IsLinked :
    (rid : Bytes) (d d' : Db) (row : CallRow)
    → IsSettled rid d d'
    → IsLinked d row
    → IsLinked d' row
IsSettled-IsLinked rid d d' row s (small, inl e) =
    (small, inl (ground (arith, s.gone, lookup-delete rid row.reservation_id d.reservations)))
IsSettled-IsLinked rid d d' row s (small, inr (r, e, m)) =
    elim (Option-cases (lookup row.reservation_id d'.reservations)) [
      | inl none' ↦ (small, inl none')
      | inr (r', e') ↦ (
        small,
        inr (r', e', ground (arith, s.gone, lookup-delete rid row.reservation_id d.reservations)),
      )
    ]

abbrev pub AllLinked : Db → List (Bytes × CallRow) → Type 0
AllLinked d = All λ c. IsLinked d c.1

AllLinked-settled :
    (rid : Bytes) (d d' : Db) (rows : List (Bytes × CallRow))
    → IsSettled rid d d'
    → AllLinked d rows
    → AllLinked d' rows
AllLinked-settled rid d d' [] s l = tt
AllLinked-settled rid d d' ((id, row) ∷ rows) s (l, ls) =
    (IsSettled-IsLinked rid d d' row s l, AllLinked-settled rid d d' rows s ls)

IsSettled-Distinct :
    (rid : Bytes) (d d' : Db)
    → IsSettled rid d d'
    → Distinct d.reservations
    → Distinct d'.reservations
IsSettled-Distinct rid d d' s v = elim s.gone [
  | inl e ↦ subst Distinct (sym e) (Distinct-delete rid d.reservations v)
  | inr e ↦ subst Distinct (sym e) v
]

-- The rows that are left to finalize name every pending call.
abbrev Named : Bytes → List (Bytes × CallRow) → Type 0
Named id [] = ⊥
Named id ((j, row) ∷ rows) = (j ≡ id) ⊎ Named id rows

abbrev Open : List (Bytes × CallRow) → List (Bytes × CallRow) → Type 0
Open rows calls = All (λ c. is_pending c.1 ≡ true → Named c.0 rows) calls

abbrev pub NonePending : List (Bytes × CallRow) → Type 0
NonePending calls = All (λ c. is_pending c.1 ≡ false) calls

Open-weaken :
    (id : Bytes) (row : CallRow) (rows calls : List (Bytes × CallRow))
    → Open rows calls
    → Open ((id, row) ∷ rows) calls
Open-weaken id row rows [] o = tt
Open-weaken id row rows (c ∷ calls) (o, os) = (λ p. inr (o p), Open-weaken id row rows calls os)

pending_calls-Open : (calls : List (Bytes × CallRow)) → Open (pending_calls calls) calls
unfolding pending_calls
pending_calls-Open [] = tt
pending_calls-Open ((id, row) ∷ calls) = go (is_pending row) refl (pending_calls-Open calls)
  where
    go :
        (b : Bool)
        → is_pending row ≡ b
        → Open (pending_calls calls) calls
        → Open
            (if b then (id, row) ∷ pending_calls calls else pending_calls calls)
            ((id, row) ∷ calls)
    go true e o = (λ q. inl refl, Open-weaken id row (pending_calls calls) calls o)
    go false e o = (λ q. absurd cc, o)

pending_calls-Linked :
    (d : Db) (calls : List (Bytes × CallRow))
    → AllLinked d calls
    → AllLinked d (pending_calls calls)
unfolding pending_calls
pending_calls-Linked d [] l = tt
pending_calls-Linked d ((id, row) ∷ calls) (l, ls) = elim (Bool-cases (is_pending row)) [
  | inl p ↦ rw p (l, pending_calls-Linked d calls ls)
  | inr p ↦ rw p (pending_calls-Linked d calls ls)
]

update-Open :
    (now : Time) (id : Bytes) (row : CallRow) (n : ℕ) (rows calls : List (Bytes × CallRow))
    → Open ((id, row) ∷ rows) calls
    → Open rows (update id (fail_pending now n reason_recovered) calls)
unfolding update fail_pending is_pending
update-Open now id row n rows [] o = tt
update-Open now id row n rows ((j, v) ∷ calls) (o, os) =
    (ground (arith, bytes_eq_iff j id), update-Open now id row n rows calls os)

Open-none : (calls : List (Bytes × CallRow)) → Open [] calls → NonePending calls
Open-none [] o = tt
Open-none (c ∷ calls) (o, os) = (ground (arith, Bool-cases (is_pending c.1)), Open-none calls os)

-- What recovery leaves.
abbrev pub AllRecovered : World → Recovered → Type 0
AllRecovered w (recovery_failed x w') = ⊥
AllRecovered w (recovered w') =
    NonePending w'.calls
    × OnlyMoney w.money w'.money
    × ((k : Period) → usage k w'.money ≤ usage k w.money)

AllRecovered-trans :
    (w w' : World) (r : Recovered)
    → OnlyMoney w.money w'.money
    → ((k : Period) → usage k w'.money ≤ usage k w.money)
    → AllRecovered w' r
    → AllRecovered w r
AllRecovered-trans w w' (recovery_failed x w'') only less b = b
AllRecovered-trans w w' (recovered w'') only less (closed, only', less') =
    (closed, cc, λ k. omega (arith, less k, less' k))

recover_all-AllRecovered :
    (now : Time) (rows : List (Bytes × CallRow)) (w : World)
    → Distinct w.money.reservations
    → IsCountable w.money
    → AllLinked w.money rows
    → Open rows w.calls
    → AllRecovered w (recover_all now rows w)
unfolding recover_all
recover_all-AllRecovered now [] w v n l o = (Open-none w.calls o, refl, λ k. omega arith)
recover_all-AllRecovered now ((id, row) ∷ rows) w v n (l, ls) o =
    go (finalize_conservative now id row.reservation_id row.reserved reason_recovered w)
      (finalize_conservative-Recovers now id row w v n l)
      (λ w'. recover_all-AllRecovered now rows w')
  where
    go :
        (r : Recovered)
        → Recovers id w row.reserved now row.reservation_id r
        → ((w' : World)
            → Distinct w'.money.reservations
            → IsCountable w'.money
            → AllLinked w'.money rows
            → Open rows w'.calls
            → AllRecovered w' (recover_all now rows w'))
        → AllRecovered w (elim r [
          | recovered w' ↦ recover_all now rows w'
          | recovery_failed x w' ↦ recovery_failed x w'
        ])
    go (recovery_failed x w') b later = b
    go (recovered w') (calls, s) later =
        AllRecovered-trans w w' (recover_all now rows w') s.only s.less (
          later w' (IsSettled-Distinct row.reservation_id w.money w'.money s v)
            (λ k. omega (arith, n k, s.less k))
            (AllLinked-settled row.reservation_id w.money w'.money rows s ls)
            (subst (Open rows) (sym calls) (update-Open now id row row.reserved rows w.calls o)))

-- At a start, recovery finalizes every pending call and does not fail: if reservation ids are
-- distinct, the reserved and committed money of every period fits in int64, and each recorded
-- maximum is an int64 that is not negative, held by the reservation that the row names unless that
-- is gone, then no call is pending afterwards, the usage of no period has
-- risen, and no plugin was disabled and nothing published.
pub recover-AllRecovered :
    (now : Time) (w : World)
    → Distinct w.money.reservations
    → IsCountable w.money
    → AllLinked w.money w.calls
    → AllRecovered w (recover now w)
unfolding recover
recover-AllRecovered now w v n l =
    recover_all-AllRecovered now (pending_calls w.calls) w v n
      (pending_calls-Linked w.money w.calls l) (pending_calls-Open w.calls)
