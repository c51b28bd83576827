-- ===== src/Storage/Rerun.antt =====
-- Apply of internal/core/storage/migrate.go, run a second time.
use control_center.Common.{
  ℕ, ◌≡◌, refl, inl, inr, Option, none, List, [], arith, Bool-cases, Option-cases, Bytes, bytes_eq,
  length, All,
}
use control_center.Storage.Migrating.{
  Migration, version_key, Db, validate_order, applied_migrations, highest_applied, Attempt,
  succeeded, Outcome, committed, rolled_back, recorded, apply_one, apply_each, all_seen, apply_with,
  apply,
}
use control_center.Storage.Applying.{apply_one-Records}
use control_center.Storage.Leaving.{
  IsRecorded, Left, apply_each-recorded, apply_each-Left, validate_order-Rising,
}

module _ {S : Type 0} (checksum : Bytes → Bytes → Bytes) (ns : Bytes)
    (one : Migration → Db S → Attempt (Db S))
    (one-Records : (m : Migration) (d e : Db S)
      → one m d ≡ succeeded e
      → (s : S) × (e ≡ recorded checksum ns m s d)) where
  -- What Apply finds and leaves where it succeeds.
  apply_with-inv :
      (ms : List Migration) (d d' : Db S)
      → apply_with checksum one ns ms d ≡ (none, d')
      → (validate_order 0 ms ≡ none)
        × (length (applied_migrations ns d'.rows) ≡ length ms)
        × All (IsRecorded checksum ns (applied_migrations ns d'.rows)) ms
  unfolding apply_with
  apply_with-inv ms d d' h = elim (Option-cases (validate_order 0 ms)) [
    | inr (e, q) ↦ absurd (ground (arith, q))
    | inl q ↦
        looped
          (apply_each checksum one (applied_migrations ns d.rows)
            (highest_applied 0 (applied_migrations ns d.rows)) ms 0 d)
          refl q (ground (arith, q))
  ]
    where
      looped :
          (o : Outcome ℕ × Db S)
          → apply_each checksum one
              (applied_migrations ns d.rows)
              (highest_applied 0 (applied_migrations ns d.rows))
              ms
              0
              d
            ≡ o
          → validate_order 0 ms ≡ none
          → all_seen checksum (length (applied_migrations ns d.rows)) o ≡ (none, d')
          → (validate_order 0 ms ≡ none)
            × (length (applied_migrations ns d'.rows) ≡ length ms)
            × All (IsRecorded checksum ns (applied_migrations ns d'.rows)) ms
      looped (rolled_back e, f) q v w = absurd (ground arith)
      looped (committed n, f) q v w =
          let same : f ≡ d' = ground arith in
          let count : n ≡ length (applied_migrations ns d.rows) = ground arith in
          let left : Left checksum ns one (applied_migrations ns d.rows) one-Records ms 0 n d d' =
            apply_each-Left checksum ns one (applied_migrations ns d.rows) one-Records
              (highest_applied 0 (applied_migrations ns d.rows)) 0 ms 0 n d d'
              (validate_order-Rising 0 ms v) (λ v l. refl) (ground (arith, q, same)) in
          (v, omega (arith, count, left.counted), left.all)

  apply_with-again :
      (ms : List Migration) (d d' : Db S)
      → apply_with checksum one ns ms d ≡ (none, d')
      → apply_with checksum one ns ms d' ≡ (none, d')
  unfolding apply_with
  apply_with-again ms d d' h =
      let (v, n, all) = apply_with-inv ms d d' h in
      ground (
        arith,
        v,
        n,
        apply_each-recorded checksum ns one (applied_migrations ns d'.rows)
            (highest_applied 0 (applied_migrations ns d'.rows)) ms 0 d' all,
      )

apply_one-Recorded :
    {S : Type 0} (checksum : Bytes → Bytes → Bytes) (exec : Bytes → S → Option S) (ns : Bytes)
    (m : Migration) (d e : Db S)
    → apply_one checksum exec ns m d ≡ succeeded e
    → (s : S) × (e ≡ recorded checksum ns m s d)
apply_one-Recorded checksum exec ns m d e h =
    let (s, q, r) = apply_one-Records checksum exec ns m d e h in (s, r)

-- Where Apply succeeds, the record of the namespace has as many migrations as are declared, each as it is
-- declared, and Apply with the same declarations succeeds again and changes nothing.
pub apply_idempotent :
    {S : Type 0} (checksum : Bytes → Bytes → Bytes) (exec : Bytes → S → Option S) (ns : Bytes)
    (ms : List Migration) (d d' : Db S)
    → apply checksum exec ns ms d ≡ (none, d')
    → (length (applied_migrations ns d'.rows) ≡ length ms)
      × All (IsRecorded checksum ns (applied_migrations ns d'.rows)) ms
      × (apply checksum exec ns ms d' ≡ (none, d'))
unfolding apply
apply_idempotent checksum exec ns ms d d' h = elim (Bool-cases (bytes_eq ns [])) [
  | inl q ↦ absurd (ground (arith, q))
  | inr q ↦
      let records = apply_one-Recorded checksum exec ns in
      let h' : apply_with checksum (apply_one checksum exec ns) ns ms d ≡ (none, d') =
        ground (arith, q) in
      let (v, n, all) =
        apply_with-inv checksum ns (apply_one checksum exec ns) records ms d d' h' in
      (
        n,
        all,
        rw (q, apply)
            (apply_with-again checksum ns (apply_one checksum exec ns) records ms d d' h'),
      )
]
