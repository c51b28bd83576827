-- ===== src/Storage/Migrating.antt =====
-- internal/core/storage/migrate.go: Apply, applyPrefixed and what they call.
use control_center.Common.Word.{le64}
use control_center.Common.{
  ℕ, suc, Bool, true, false, not, ◌&&◌, ◌||◌, Option, none, some, List, [], ◌∷◌, ◌++◌,
  if◌then◌else◌, ◌==◌, ==_iff, Eq, Bytes, bytes_eq, length, lookup, filter,
}
use control_center.Storage.Authorizing.{has_prefix, prefix_of}

-- Version is an int64 word.
pub record Migration : Type 0 where
  pub version : ℕ
  pub name : Bytes
  pub up : Bytes

pub record Applied : Type 0 where
  pub name : Bytes
  pub checksum : Bytes

-- A row of core_migrations, less its time.
pub record Row : Type 0 where
  pub namespace : Bytes
  pub version : ℕ
  pub applied : Applied

instance abbrev pub version_key : Eq ℕ
version_key = record { beq = ◌==◌; beq_iff = ==_iff }

-- core_migrations, and the rest of the database.
pub record Db {ℓ} (S : Type ℓ) : Type ℓ where
  pub rows : List Row
  pub rest : S

pub data MigrateError : Type 0 where
  empty_namespace wrong_namespace bad_version version_order empty_name : MigrateError
  changed below_high_water sql_failed outside_namespace removed : MigrateError

-- validateOrder
unfoldable pub validate_order : ℕ → List Migration → Option MigrateError
validate_order prev [] = none
validate_order prev (m ∷ ms) =
    if le64 m.version 0
    then some bad_version
    else if le64 m.version prev
    then some version_order
    else if bytes_eq m.name []
    then some empty_name
    else validate_order m.version ms

-- appliedMigrations
unfoldable pub applied_migrations : Bytes → List Row → List (ℕ × Applied)
applied_migrations ns [] = []
applied_migrations ns (r ∷ rs) =
    let more = applied_migrations ns rs in
    if bytes_eq r.namespace ns then (r.version, r.applied) ∷ more else more

-- The loop for the highest applied version, from `high`.
unfoldable pub highest_applied : ℕ → List (ℕ × Applied) → ℕ
highest_applied high [] = high
highest_applied high ((v, a) ∷ more) = highest_applied (if le64 v high then high else v) more

abbrev pub same_applied : Applied → Bytes → Bytes → Bool
same_applied a name checksum = bytes_eq a.name name && bytes_eq a.checksum checksum

-- A result, or an error.
pub data Outcome {ℓ} (A : Type ℓ) : Type ℓ where
  committed : A → Outcome A
  rolled_back : MigrateError → Outcome A

-- What a transaction of one migration leaves, where it succeeds and where it fails.
pub data Attempt {ℓ} (A : Type ℓ) : Type ℓ where
  succeeded : A → Attempt A
  gave_up : MigrateError → A → Attempt A

-- How SQL ends in a transaction. `base` is what a rollback after it restores, which is not where the
-- transaction began if the SQL committed it and began another. Where the SQL ended the transaction, a
-- rollback restores nothing, each later write is kept at once, and the commit fails.
pub data SqlEnd {ℓ} (S : Type ℓ) : Type ℓ where
  still_open : (seen base : S) → SqlEnd S
  ended_it : (seen : S) → SqlEnd S
  broke_off : (base : S) → SqlEnd S

-- Whether every name that is there afterwards and outside the prefix was there before.
unfoldable pub has_name : Bytes → List Bytes → Bool
has_name n [] = false
has_name n (m ∷ ms) = bytes_eq m n || has_name n ms

unfoldable pub nothing_new : List Bytes → List Bytes → Bool
nothing_new before [] = true
nothing_new before (n ∷ ns) = has_name n before && nothing_new before ns

-- schemaOutside, of the names that the schema table has and SQLite does not own.
unfoldable pub schema_outside : Bytes → List Bytes → List Bytes
schema_outside prefix ns = filter (λ n. not (has_prefix n prefix)) ns

-- A plugin's migrations without a namespace are in its own.
abbrev pub or_own : Bytes → Bytes → Bytes
or_own id [] = id
or_own id (c ∷ ns) = c ∷ ns

-- SHA-256 of a name and its SQL, in hexadecimal.
abbrev pub new_row : (checksum : Bytes → Bytes → Bytes) → Bytes → Migration → Row
new_row checksum ns m = record {
  namespace = ns;
  version = m.version;
  applied = record { name = m.name; checksum = checksum m.name m.up };
}

module _ {S : Type 0} (checksum : Bytes → Bytes → Bytes) where
  abbrev pub recorded : Bytes → Migration → S → Db S → Db S
  recorded ns m s d = record { rows = d.rows ++ new_row checksum ns m ∷ []; rest = s }

  -- The loop, whose `one` is applyOne or applyOnePrefixed: how many were seen, or an error, and the
  -- database, which keeps the migrations that were applied before an error.
  unfoldable pub apply_each :
      (one : Migration → Db S → Attempt (Db S)) (applied : List (ℕ × Applied)) (high : ℕ)
      → List Migration
      → ℕ
      → Db S
      → Outcome ℕ × Db S
  apply_each one applied high [] seen d = (committed seen, d)
  apply_each one applied high (m ∷ ms) seen d = elim (lookup m.version applied) [
    | some prev ↦
        if same_applied prev m.name (checksum m.name m.up)
        then apply_each one applied high ms (suc seen) d
        else (rolled_back changed, d)
    | none ↦
        if not (le64 high m.version) then (rolled_back below_high_water, d) else elim (one m d) [
          | gave_up x e ↦ (rolled_back x, e)
          | succeeded e ↦ apply_each one applied high ms seen e
        ]
  ]

  -- The count at the end: each applied migration must be declared.
  abbrev pub all_seen : ℕ → Outcome ℕ × Db S → Option MigrateError × Db S
  all_seen n (rolled_back e, d) = (some e, d)
  all_seen n (committed seen, d) = (if seen == n then none else some removed, d)

  -- The common body of Apply and applyPrefixed.
  unfoldable pub apply_with :
      (one : Migration → Db S → Attempt (Db S))
      → Bytes
      → List Migration
      → Db S
      → Option MigrateError × Db S
  apply_with one ns ms d = elim (validate_order 0 ms) [
    | some e ↦ (some e, d)
    | none ↦
        let applied = applied_migrations ns d.rows in
        all_seen (length applied) (apply_each one applied (highest_applied 0 applied) ms 0 d)
  ]

  -- What SQL does to the rest of the database, or that it fails. The core's own SQL ends no transaction.
  module _ (exec : Bytes → S → Option S) where
    -- applyOne
    unfoldable pub apply_one : Bytes → Migration → Db S → Attempt (Db S)
    apply_one ns m d = elim (exec m.up d.rest) [
      | none ↦ gave_up sql_failed d
      | some s ↦ succeeded (recorded ns m s d)
    ]

    -- Apply
    unfoldable pub apply : Bytes → List Migration → Db S → Option MigrateError × Db S
    apply ns ms d =
        if bytes_eq ns [] then (some empty_namespace, d) else apply_with (apply_one ns) ns ms d

  -- What SQL does under the authorizer of a prefix; and the names in the schema that do not match
  -- `sqlite_%`.
  module _ (exec_as : Bytes → Bytes → S → SqlEnd S) (schema : S → List Bytes) where
    -- applyOnePrefixed
    unfoldable pub apply_one_prefixed : Bytes → Bytes → Migration → Db S → Attempt (Db S)
    apply_one_prefixed prefix ns m d = elim (exec_as prefix m.up d.rest) [
      | broke_off base ↦ gave_up sql_failed (record d { rest = base })
      | still_open s base ↦
          if nothing_new (schema_outside prefix (schema d.rest)) (schema_outside prefix (schema s))
          then succeeded (recorded ns m s d)
          else gave_up outside_namespace (record d { rest = base })
      | ended_it s ↦
          if nothing_new (schema_outside prefix (schema d.rest)) (schema_outside prefix (schema s))
          then gave_up sql_failed (recorded ns m s d)
          else gave_up outside_namespace (record d { rest = s })
    ]

    -- pluginMigrator.Apply with applyPrefixed
    unfoldable pub apply_plugin : Bytes → Bytes → List Migration → Db S → Option MigrateError × Db S
    apply_plugin id ns ms d =
        if not (bytes_eq (or_own id ns) id)
        then (some wrong_namespace, d)
        else if bytes_eq id []
        then (some empty_namespace, d)
        else apply_with (apply_one_prefixed (prefix_of id) id) id ms d
