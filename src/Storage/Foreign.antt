-- ===== src/Storage/Foreign.antt =====
-- authorize of internal/core/storage/authorizer.go: a plugin's SQL and the tables of others.
use control_center.Common.{
  ◌≡◌, refl, subst, ◌⊎◌, inl, inr, Bool, true, false, not, ◌&&◌, none, some, [], ◌∷◌, ◌++◌, arith,
  Bytes, codes, bytes_eq, strip_prefix,
}
use control_center.Storage.Authorizing.{
  Action, authorize, table_allowed, object_allowed, qualified, equal_fold, after_fold, prefix_of,
  lowers_with, has_prefix, is_sequence_table, last_dot,
}

-- The tables that an action touches, as SQLite's documentation of the authorizer callback lists the
-- arguments. A REINDEX names its index alone.
unfoldable pub Touches : Action → Bytes → Bytes → Bytes → Type 0
Touches Action.update_column a b t = t ≡ a
Touches Action.read_column a b t = t ≡ a
Touches Action.insert_row a b t = t ≡ a
Touches Action.delete_row a b t = t ≡ a
Touches Action.create_table a b t = t ≡ a
Touches Action.drop_table a b t = t ≡ a
Touches Action.analyze a b t = t ≡ a
Touches Action.alter_table a b t = t ≡ b
Touches Action.create_index a b t = t ≡ b
Touches Action.drop_index a b t = t ≡ b
Touches Action.create_trigger a b t = (t ≡ a) ⊎ (t ≡ b)
Touches Action.drop_trigger a b t = (t ≡ a) ⊎ (t ≡ b)
Touches Action.create_view a b t = t ≡ a
Touches Action.drop_view a b t = t ≡ a
Touches Action.pragma a b t = t ≡ b
Touches Action.create_temp_table a b t = t ≡ a
Touches Action.drop_temp_table a b t = t ≡ a
Touches Action.create_temp_index a b t = t ≡ b
Touches Action.drop_temp_index a b t = t ≡ b
Touches Action.create_temp_trigger a b t = (t ≡ a) ⊎ (t ≡ b)
Touches Action.drop_temp_trigger a b t = (t ≡ a) ⊎ (t ≡ b)
Touches Action.create_temp_view a b t = t ≡ a
Touches Action.drop_temp_view a b t = t ≡ a
Touches Action.create_vtable a b t = t ≡ a
Touches Action.drop_vtable a b t = t ≡ a
Touches _ a b t = ⊥

-- A name whose object is neither in the plugin's prefix nor SQLite's own.
unfoldable pub is_foreign : Bytes → Bytes → Bool
is_foreign prefix [] = false
is_foreign prefix (c ∷ t) =
    let object = (qualified (c ∷ t)).1 in
    not (has_prefix object prefix)
    && not (lowers_with object (codes "sqlite_"))
    && not (equal_fold object (codes "pragma_quick_check"))
    && not (is_sequence_table (c ∷ t))

table_allowed-foreign :
    (prefix t : Bytes) → is_foreign prefix t ≡ true → table_allowed prefix t ≡ false
unfolding is_foreign table_allowed object_allowed
table_allowed-foreign prefix [] h = cc
table_allowed-foreign prefix (c ∷ t) h = ground arith

foreign-sequence : (prefix t : Bytes) → is_foreign prefix t ≡ true → is_sequence_table t ≡ false
unfolding is_foreign
foreign-sequence prefix [] h = cc
foreign-sequence prefix (c ∷ t) h = ground arith

foreign-named : (prefix t : Bytes) → is_foreign prefix t ≡ true → bytes_eq t [] ≡ false
unfolding is_foreign bytes_eq
foreign-named prefix [] h = cc
foreign-named prefix (c ∷ t) h = refl

-- SQL that touches a table which is neither in the plugin's prefix nor SQLite's own is not authorized.
-- This is said of each action whose arguments name a table, temporary and virtual tables, views and
-- their triggers and indexes too; a REINDEX names its index alone.
pub foreign_denied :
    (prefix : Bytes) (action : Action) (a b t : Bytes)
    → Touches action a b t
    → is_foreign prefix t ≡ true
    → authorize prefix action a b ≡ false
unfolding authorize Touches
foreign_denied prefix Action.update_column a b t h f =
    ground (arith, table_allowed-foreign prefix t f, foreign-sequence prefix t f)
foreign_denied prefix Action.read_column a b t h f =
    ground (arith, table_allowed-foreign prefix t f, foreign-sequence prefix t f)
foreign_denied prefix Action.insert_row a b t h f = ground (arith, table_allowed-foreign prefix t f)
foreign_denied prefix Action.delete_row a b t h f = ground (arith, table_allowed-foreign prefix t f)
foreign_denied prefix Action.create_table a b t h f =
    ground (arith, table_allowed-foreign prefix t f)
foreign_denied prefix Action.drop_table a b t h f = ground (arith, table_allowed-foreign prefix t f)
foreign_denied prefix Action.analyze a b t h f = ground (arith, table_allowed-foreign prefix t f)
foreign_denied prefix Action.alter_table a b t h f =
    ground (arith, table_allowed-foreign prefix t f)
foreign_denied prefix Action.create_index a b t h f =
    ground (arith, table_allowed-foreign prefix t f)
foreign_denied prefix Action.drop_index a b t h f = ground (arith, table_allowed-foreign prefix t f)
foreign_denied prefix Action.create_view a b t h f =
    ground (arith, table_allowed-foreign prefix t f)
foreign_denied prefix Action.drop_view a b t h f = ground (arith, table_allowed-foreign prefix t f)
foreign_denied prefix Action.pragma a b t h f = ground (arith, table_allowed-foreign prefix t f)
foreign_denied prefix Action.create_trigger a b t (inl h) f =
    ground (arith, table_allowed-foreign prefix t f)
foreign_denied prefix Action.create_trigger a b t (inr h) f =
    ground (arith, table_allowed-foreign prefix t f, foreign-named prefix t f)
foreign_denied prefix Action.drop_trigger a b t (inl h) f =
    ground (arith, table_allowed-foreign prefix t f)
foreign_denied prefix Action.drop_trigger a b t (inr h) f =
    ground (arith, table_allowed-foreign prefix t f, foreign-named prefix t f)
foreign_denied prefix Action.transaction a b t h f = absurd h
foreign_denied prefix Action.select a b t h f = absurd h
foreign_denied prefix Action.savepoint a b t h f = absurd h
foreign_denied prefix Action.recursive a b t h f = absurd h
foreign_denied prefix Action.attach a b t h f = absurd h
foreign_denied prefix Action.detach a b t h f = absurd h
foreign_denied prefix Action.create_temp_table a b t h f = refl
foreign_denied prefix Action.create_temp_index a b t h f = refl
foreign_denied prefix Action.create_temp_trigger a b t h f = refl
foreign_denied prefix Action.create_temp_view a b t h f = refl
foreign_denied prefix Action.drop_temp_table a b t h f = refl
foreign_denied prefix Action.drop_temp_index a b t h f = refl
foreign_denied prefix Action.drop_temp_trigger a b t h f = refl
foreign_denied prefix Action.drop_temp_view a b t h f = refl
foreign_denied prefix Action.function a b t h f = absurd h
foreign_denied prefix Action.create_vtable a b t h f = refl
foreign_denied prefix Action.drop_vtable a b t h f = refl
foreign_denied prefix Action.reindex a b t h f = absurd h
foreign_denied prefix Action.unlisted a b t h f = absurd h

strip_prefix-append : (p s : Bytes) → strip_prefix p (p ++ s) ≡ some s
unfolding strip_prefix
strip_prefix-append [] s = refl
strip_prefix-append (c ∷ p) s = ground (arith, strip_prefix-append p s)

abbrev pub table_of : Bytes → Bytes → Bytes
table_of id t = prefix_of id ++ t

longer_prefix :
    (a r t : Bytes) → table_of (a ++ b'_' ∷ r) t ≡ prefix_of a ++ ((r ++ b'_' ∷ []) ++ t)
longer_prefix [] r t = refl
longer_prefix (c ∷ a) r t = rw (longer_prefix a r t)

object_allowed-own :
    (a s : Bytes)
    → lowers_with (prefix_of a ++ s) (codes "sqlite_") ≡ false
    → object_allowed (prefix_of a) (codes "main") (prefix_of a ++ s) ≡ true
unfolding object_allowed equal_fold after_fold bytes_eq
object_allowed-own a s l = ground (arith, strip_prefix-append (prefix_of a) s)

table_allowed-plain :
    (p n : Bytes)
    → last_dot n ≡ none
    → object_allowed p (codes "main") n ≡ true
    → table_allowed p n ≡ true
unfolding table_allowed qualified
table_allowed-plain p [] d h = refl
table_allowed-plain p (c ∷ n) d h = ground arith

-- Where one plugin's id goes on from another's with an underscore, the other may write its tables: the
-- prefix "a_" is one of "a_b_" too. The table has no dot in its name and does not begin with "sqlite_".
pub overlapping_prefix :
    (a r t : Bytes)
    → last_dot (table_of (a ++ b'_' ∷ r) t) ≡ none
    → lowers_with (table_of (a ++ b'_' ∷ r) t) (codes "sqlite_") ≡ false
    → (has_prefix (table_of (a ++ b'_' ∷ r) t) (prefix_of (a ++ b'_' ∷ r)) ≡ true)
      × (authorize (prefix_of a) Action.insert_row (table_of (a ++ b'_' ∷ r) t) [] ≡ true)
unfolding authorize
overlapping_prefix a r t d l =
    let longer = longer_prefix a r t in
    (
      rw (strip_prefix-append (prefix_of (a ++ b'_' ∷ r)) t) refl,
      table_allowed-plain (prefix_of a) (table_of (a ++ b'_' ∷ r) t) d (
          rw longer (
            object_allowed-own a ((r ++ b'_' ∷ []) ++ t)
              (subst (λ n. lowers_with n (codes "sqlite_") ≡ false) longer l))),
    )
