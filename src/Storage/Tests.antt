-- ===== src/Storage/Tests.antt =====
-- Runs of the models of the authorizer and the migrations at concrete inputs.
use control_center.Common.{
  ◌≡◌, refl, true, false, Option, none, some, List, [], ◌∷◌, ◌++◌, Bytes, codes, bytes_eq,
  strip_prefix, length, lookup, All,
}
use control_center.Storage.Authorizing.{
  Action, authorize, qualified, last_dot, equal_fold, after_fold, after_lowered, after_lower,
  has_prefix, is_sequence_table,
}
use control_center.Storage.Authorizing.{last_dot, after_lowered, after_lower}
use control_center.Storage.Foreign.{Touches, is_foreign, foreign_denied, overlapping_prefix}
use control_center.Storage.Migrating.{
  SqlEnd, still_open, ended_it, Migration, Db, new_row, validate_order, applied_migrations,
  highest_applied, apply_each, apply_one, apply_with, apply,
}
use control_center.Storage.Recorded.{Ran}
use control_center.Storage.Applying.{apply_atomic}
use control_center.Storage.Leaving.{IsRecorded}
use control_center.Storage.Rerun.{apply_idempotent}

abbrev core_jobs : Bytes
core_jobs = codes "core_jobs"

foreign_denied_example :
    authorize (codes "tid_") Action.update_column core_jobs (codes "state") ≡ false
unfolding Touches is_foreign strip_prefix qualified last_dot after_lowered after_lower equal_fold
    after_fold is_sequence_table
foreign_denied_example =
    foreign_denied (codes "tid_") Action.update_column core_jobs (codes "state") core_jobs refl refl

overlapping_prefix_example :
    (has_prefix (codes "tid_ext_rows") (codes "tid_ext_") ≡ true)
    × (authorize (codes "tid_") Action.insert_row (codes "tid_ext_rows") [] ≡ true)
unfolding last_dot after_lowered after_lower
overlapping_prefix_example = overlapping_prefix (codes "tid") (codes "ext") (codes "rows") refl refl

-- A database of names, to which the SQL of a migration adds its text as a name.
abbrev add_name : Bytes → List Bytes → Option (List Bytes)
add_name sql names = some (sql ∷ names)

abbrev add_name_as : Bytes → Bytes → List Bytes → SqlEnd (List Bytes)
add_name_as prefix sql names = still_open (sql ∷ names) names

-- SQL that renames its table to core_x and commits.
abbrev rename_out : Bytes → Bytes → List Bytes → SqlEnd (List Bytes)
rename_out prefix sql names = ended_it (codes "core_x" ∷ names)

abbrev none_ran : Db (List Bytes)
none_ran = record { rows = []; rest = codes "tid_items" ∷ [] }

abbrev joined : Bytes → Bytes → Bytes
joined name sql = name ++ sql

abbrev all_names : List Bytes → List Bytes
all_names names = names

abbrev first_table : Migration
first_table = record { version = 1; name = codes "init"; up = codes "tid_items" }

abbrev second_table : Migration
second_table = record { version = 3; name = codes "more"; up = codes "tid_prices" }

abbrev declared : List Migration
declared = first_table ∷ second_table ∷ []

abbrev tid : Bytes
tid = codes "tid"

-- The first migration has run before.
abbrev one_ran : Db (List Bytes)
one_ran = record { rows = new_row joined tid first_table ∷ []; rest = codes "tid_items" ∷ [] }

abbrev both_ran : Db (List Bytes)
both_ran = record {
  rows = new_row joined tid first_table ∷ new_row joined tid second_table ∷ [];
  rest = codes "tid_prices" ∷ codes "tid_items" ∷ [];
}

apply_atomic_example :
    Ran joined add_name tid declared one_ran (apply joined add_name tid declared one_ran).1
apply_atomic_example = apply_atomic joined add_name tid declared one_ran

apply_idempotent_example :
    (length (applied_migrations tid both_ran.rows) ≡ 2)
    × All (IsRecorded joined tid (applied_migrations tid both_ran.rows)) declared
    × (apply joined add_name tid declared both_ran ≡ (none, both_ran))
unfolding apply bytes_eq apply_with validate_order apply_each lookup applied_migrations
    highest_applied apply_one
apply_idempotent_example = apply_idempotent joined add_name tid declared one_ran both_ran refl
