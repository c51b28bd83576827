-- ===== src/Storage/Authorizing.antt =====
-- internal/core/storage/authorizer.go: authorize, isSequenceTable and tableAllowed. The identifiers are
-- those that SQLite has parsed; an absent one is empty. Go's case tests are those of Unicode, and the
-- names that they test against are ASCII: of the other letters, only three become or fold to one.
use control_center.Common.{
  ℕ, ◌+◌, ◌++◌, Bool, true, false, not, ◌&&◌, ◌||◌, Option, none, some, [], ◌∷◌, if◌then◌else◌,
  ◌==◌, leb, Bytes, codes, bytes_eq, strip_prefix,
}

-- The SQLITE_* codes that the switch lists; any other is `unlisted`.
pub data Action : Type 0 where
  transaction select savepoint recursive attach detach : Action
  create_temp_table create_temp_index create_temp_trigger create_temp_view : Action
  drop_temp_table drop_temp_index drop_temp_trigger drop_temp_view : Action
  pragma function create_vtable drop_vtable update_column read_column : Action
  insert_row delete_row create_table drop_table analyze alter_table : Action
  create_index drop_index reindex create_trigger drop_trigger create_view drop_view : Action
  unlisted : Action

abbrev pub lower_byte : ℕ → ℕ
lower_byte c = if leb b'A' c && leb c b'Z' then c + 32 else c

-- What follows a first rune that equals `t` up to case: LATIN SMALL LETTER LONG S folds to an s, and
-- KELVIN SIGN to a k.
unfoldable pub after_fold : ℕ → Bytes → Option Bytes
after_fold t [] = none
after_fold t (x ∷ s) =
    if lower_byte x == t
    then some s
    else if t == b's'
    then strip_prefix (197 ∷ 191 ∷ []) (x ∷ s)
    else if t == b'k'
    then strip_prefix (226 ∷ 132 ∷ 170 ∷ []) (x ∷ s)
    else none

-- strings.EqualFold(s, t), for a lower-case ASCII t.
unfoldable pub equal_fold : Bytes → Bytes → Bool
equal_fold s [] = bytes_eq s []
equal_fold s (c ∷ t) = elim (after_fold c s) [ none ↦ false | some r ↦ equal_fold r t ]

-- What follows a first rune whose lower case is `t`: KELVIN SIGN becomes a k, and LATIN CAPITAL LETTER I
-- WITH DOT ABOVE an i.
unfoldable pub after_lower : ℕ → Bytes → Option Bytes
after_lower t [] = none
after_lower t (x ∷ s) =
    if lower_byte x == t
    then some s
    else if t == b'i'
    then strip_prefix (196 ∷ 176 ∷ []) (x ∷ s)
    else if t == b'k'
    then strip_prefix (226 ∷ 132 ∷ 170 ∷ []) (x ∷ s)
    else none

-- What follows `t` in strings.ToLower(s), before it is lowered.
unfoldable pub after_lowered : Bytes → Bytes → Option Bytes
after_lowered [] s = some s
after_lowered (c ∷ t) s = elim (after_lower c s) [ none ↦ none | some r ↦ after_lowered t r ]

abbrev pub is_empty : Option Bytes → Bool
is_empty none = false
is_empty (some []) = true
is_empty (some (c ∷ s)) = false

abbrev pub is_found : Option Bytes → Bool
is_found none = false
is_found (some s) = true

-- strings.ToLower(s) == t, and strings.HasPrefix(strings.ToLower(s), t)
abbrev pub lowers_to : Bytes → Bytes → Bool
lowers_to s t = is_empty (after_lowered t s)

abbrev pub lowers_with : Bytes → Bytes → Bool
lowers_with s t = is_found (after_lowered t s)

-- strings.HasPrefix(s, p)
abbrev pub has_prefix : Bytes → Bytes → Bool
has_prefix s p = is_found (strip_prefix p s)

-- The parts before and after the last dot.

unfoldable pub last_dot : Bytes → Option (Bytes × Bytes)
last_dot [] = none
last_dot (c ∷ s) = elim (last_dot s) [
  | none ↦ if c == b'.' then some ([], s) else none
  | some (a, b) ↦ some (c ∷ a, b)
]

unfoldable pub is_sequence_table : Bytes → Bool
is_sequence_table name = elim (last_dot name) [
  | none ↦ equal_fold name (codes "sqlite_sequence")
  | some (schema, object) ↦
      (bytes_eq schema [] || equal_fold schema (codes "main"))
      && equal_fold object (codes "sqlite_sequence")
]

-- The schema and the object of a name; no schema is "main".
abbrev pub or_main : Bytes → Bytes
or_main [] = codes "main"
or_main (c ∷ s) = c ∷ s

unfoldable pub qualified : Bytes → Bytes × Bytes
qualified name = elim (last_dot name) [
  | none ↦ (codes "main", name)
  | some (schema, object) ↦ (or_main schema, object)
]

abbrev pub is_schema_table : Bytes → Bool
is_schema_table object =
    lowers_to object (codes "sqlite_master")
    || lowers_to object (codes "sqlite_schema")
    || lowers_to object (codes "sqlite_temp_master")
    || lowers_to object (codes "sqlite_temp_schema")

unfoldable pub object_allowed : Bytes → Bytes → Bytes → Bool
object_allowed prefix schema object =
    if not (equal_fold schema (codes "main")) && not (equal_fold schema (codes "temp"))
    then false
    else if lowers_with object (codes "sqlite_")
    then is_schema_table object
    else if not (equal_fold schema (codes "main"))
    then false
    else equal_fold object (codes "pragma_quick_check") || has_prefix object prefix

unfoldable pub table_allowed : Bytes → Bytes → Bool
table_allowed prefix [] = true
table_allowed prefix (c ∷ name) =
    let (schema, object) = qualified (c ∷ name) in object_allowed prefix schema object

-- authorize, true for SQLITE_OK. It does not read arg3 and arg4.
unfoldable pub authorize : Bytes → Action → Bytes → Bytes → Bool
authorize prefix transaction a b = true
authorize prefix select a b = true
authorize prefix savepoint a b = true
authorize prefix recursive a b = true
authorize prefix pragma a b = equal_fold a (codes "quick_check") && table_allowed prefix b
authorize prefix function a b = not (equal_fold b (codes "load_extension"))
authorize prefix update_column a b =
    table_allowed prefix a || is_sequence_table a && equal_fold b (codes "name")
authorize prefix read_column a b = table_allowed prefix a || is_sequence_table a
authorize prefix insert_row a b = table_allowed prefix a
authorize prefix delete_row a b = table_allowed prefix a
authorize prefix create_table a b = table_allowed prefix a
authorize prefix drop_table a b = table_allowed prefix a
authorize prefix analyze a b = table_allowed prefix a
authorize prefix alter_table a b = table_allowed prefix b
authorize prefix create_index a b = table_allowed prefix b
authorize prefix drop_index a b = table_allowed prefix b
authorize prefix reindex a b = table_allowed prefix b
authorize prefix create_trigger a b =
    table_allowed prefix a && (bytes_eq b [] || table_allowed prefix b)
authorize prefix drop_trigger a b =
    table_allowed prefix a && (bytes_eq b [] || table_allowed prefix b)
authorize prefix create_view a b =
    table_allowed prefix a && (bytes_eq b [] || table_allowed prefix b)
authorize prefix drop_view a b = table_allowed prefix a && (bytes_eq b [] || table_allowed prefix b)
authorize prefix _ a b = false

-- The prefix of Prefixed and PluginMigrator.
abbrev pub prefix_of : Bytes → Bytes
prefix_of id = id ++ b'_' ∷ []
