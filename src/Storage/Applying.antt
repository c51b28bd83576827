-- ===== src/Storage/Applying.antt =====
-- Apply and applyPrefixed of internal/core/storage/migrate.go, as a whole.
use control_center.Common.{
  ◌≡◌, refl, inl, inr, Bool, Option, none, some, All, List, [], ◌∷◌, arith, Bool-cases,
  Option-cases, Bytes, bytes_eq,
}
use control_center.Storage.Authorizing.{prefix_of}
use control_center.Storage.Migrating.{
  Migration, Db, Attempt, succeeded, SqlEnd, still_open, ended_it, broke_off, recorded, apply_one,
  apply_one_prefixed, apply, nothing_new, schema_outside,
}
use control_center.Storage.Recorded.{Undoes, Picked-none, apply_with-Picked, Ran, Picked-Ran}

module _ {S : Type 0} (checksum : Bytes → Bytes → Bytes) (exec : Bytes → S → Option S) where
  pub apply_one-Records :
      (ns : Bytes) (m : Migration) (d e : Db S)
      → apply_one checksum exec ns m d ≡ succeeded e
      → (s : S) × (exec m.up d.rest ≡ some s) × (e ≡ recorded checksum ns m s d)
  unfolding apply_one
  apply_one-Records ns m d e h = elim (Option-cases (exec m.up d.rest)) [
    | inl q ↦ absurd (ground (arith, q))
    | inr (s, q) ↦ (s, q, ground (arith, q))
  ]

  apply_one-Undoes :
      (ns : Bytes) (ms : List Migration) → All (Undoes (apply_one checksum exec ns)) ms
  unfolding apply_one
  apply_one-Undoes ns [] = tt
  apply_one-Undoes ns (m ∷ ms) = (λ d e x h. ground arith, apply_one-Undoes ns ms)

  -- However Apply ends, some of the declared migrations have run, one after the other in their order,
  -- and exactly these were added to the record of the namespace.
  pub apply_atomic :
      (ns : Bytes) (ms : List Migration) (d : Db S)
      → Ran checksum exec ns ms d (apply checksum exec ns ms d).1
  unfolding apply
  apply_atomic ns ms d =
      Picked-Ran checksum exec ns (apply_one checksum exec ns) (apply_one-Records ns) ms d _
        (elim (Bool-cases (bytes_eq ns [])) [
          | inl q ↦ rw (q, apply) (Picked-none _ ms d d refl)
          | inr q ↦
              rw (q, apply)
                (apply_with-Picked (apply_one checksum exec ns) checksum ns ms d
                  (apply_one-Undoes ns ms))
        ])

-- The SQL ended no transaction, so that a rollback restores where it began.
abbrev pub KeepsTx : {S : Type 0} → S → SqlEnd S → Type 0
KeepsTx s (still_open t base) = base ≡ s
KeepsTx s (ended_it t) = ⊥
KeepsTx s (broke_off base) = base ≡ s

abbrev pub ran_to_end : {S : Type 0} → SqlEnd S → Option S
ran_to_end (still_open t base) = some t
ran_to_end (ended_it t) = none
ran_to_end (broke_off base) = none

module _ {S : Type 0} (checksum : Bytes → Bytes → Bytes) (exec_as : Bytes → Bytes → S → SqlEnd S)
    (schema : S → List Bytes) (id : Bytes) where
  abbrev one_of_plugin : Migration → Db S → Attempt (Db S)
  one_of_plugin = apply_one_prefixed checksum exec_as schema (prefix_of id) id

  -- Whatever the state, the SQL of the migration ends no transaction.
  abbrev pub StaysOpen : Migration → Type 0
  StaysOpen m = (s : S) → KeepsTx s (exec_as (prefix_of id) m.up s)

  abbrev pub plugin_sql : Bytes → S → Option S
  plugin_sql sql s = ran_to_end (exec_as (prefix_of id) sql s)

  -- The names outside the prefix are compared.
  abbrev pub passes : S → S → Bool
  passes s t =
      nothing_new (schema_outside (prefix_of id) (schema s))
        (schema_outside (prefix_of id) (schema t))
