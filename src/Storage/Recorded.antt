-- ===== src/Storage/Recorded.antt =====
-- Apply and applyPrefixed of internal/core/storage/migrate.go: what runs and what is recorded.
use control_center.Common.Word.{le64}
use control_center.Common.{
  append_nil, append_assoc, ℕ, suc, ◌≡◌, refl, sym, subst, ◌⊎◌, inl, inr, Option, none, some, List,
  [], ◌∷◌, ◌++◌, map, arith, Bool-cases, Option-cases, Bytes, lookup, All,
}
use control_center.Storage.Migrating.{
  Migration, Applied, version_key, Db, MigrateError, validate_order, same_applied, Outcome,
  committed, rolled_back, Attempt, succeeded, gave_up, new_row, recorded, apply_each, all_seen,
  apply_with,
}

-- The migrations of the second list are some of the first, in its order.
pub data Picks : List Migration → List Migration → Type 0 where
  stop : (ms : List Migration) → Picks ms []
  take_next : (m : Migration) {ms ns : List Migration} → Picks ms ns → Picks (m ∷ ms) (m ∷ ns)
  leave : (m : Migration) {ms ns : List Migration} → Picks ms ns → Picks (m ∷ ms) ns

pub attempt-cases :
    {A : Type 0} (o : Attempt A)
    → ((a : A) × (o ≡ succeeded a)) ⊎ ((x : MigrateError) × (a : A) × (o ≡ gave_up x a))
attempt-cases (succeeded a) = inl (a, refl)
attempt-cases (gave_up x a) = inr (x, a, refl)

-- The SQL of the migrations, one after the other.
unfoldable pub run_all : {S : Type 0} → (Bytes → S → Option S) → List Migration → S → Option S
run_all exec [] s = some s
run_all exec (m ∷ ms) s = elim (exec m.up s) [ none ↦ none | some t ↦ run_all exec ms t ]

-- The transactions that were committed, one after the other.
pub data Steps {S : Type 0} (one : Migration → Db S → Attempt (Db S))
    : List Migration → Db S → Db S → Type 0 where
  stand : (d : Db S) → Steps one [] d d
  step :
      (m : Migration) {ms : List Migration} {d e d' : Db S}
      → one m d ≡ succeeded e
      → Steps one ms e d'
      → Steps one (m ∷ ms) d d'

module _ {S : Type 0} (one : Migration → Db S → Attempt (Db S)) where
  -- Some of the declared migrations were committed, in their order.
  pub record Picked (ms : List Migration) (d d' : Db S) : Type 0 where
    pub fresh : List Migration
    pub picks : Picks ms fresh
    pub steps : Steps one fresh d d'

  pub Picked-none : (ms : List Migration) (d d' : Db S) → d ≡ d' → Picked ms d d'
  Picked-none ms d d' q =
      subst (Picked ms d) q (record { fresh = []; picks = stop ms; steps = stand d })

  Picked-leave :
      (m : Migration) (ms : List Migration) (d d' : Db S) → Picked ms d d' → Picked (m ∷ ms) d d'
  Picked-leave m ms d d' r = record { fresh = r.fresh; picks = leave m r.picks; steps = r.steps }

  Picked-next :
      (m : Migration) (ms : List Migration) (d e d' : Db S)
      → one m d ≡ succeeded e
      → Picked ms e d'
      → Picked (m ∷ ms) d d'
  Picked-next m ms d e d' c r = record {
    fresh = m ∷ r.fresh;
    picks = take_next m r.picks;
    steps = step m c r.steps;
  }

  -- The transaction of the migration leaves nothing where it fails.
  abbrev pub Undoes : Migration → Type 0
  Undoes m = (d e : Db S) (x : MigrateError) → one m d ≡ gave_up x e → e ≡ d

  apply_each-Picked :
      (checksum : Bytes → Bytes → Bytes) (applied : List (ℕ × Applied)) (high : ℕ)
      (ms : List Migration) (seen : ℕ) (o : Outcome ℕ) (d d' : Db S)
      → All Undoes ms
      → apply_each checksum one applied high ms seen d ≡ (o, d')
      → Picked ms d d'
  unfolding apply_each
  apply_each-Picked checksum applied high [] seen o d d' u h = Picked-none [] d d' (ground arith)
  apply_each-Picked checksum applied high (m ∷ ms) seen o d d' (u, us) h =
      elim (Option-cases (lookup m.version applied)) [
        | inr (prev, q) ↦ elim (Bool-cases (same_applied prev m.name (checksum m.name m.up))) [
          | inl same ↦ Picked-leave m ms d d' (
              apply_each-Picked checksum applied high ms (suc seen) o d d' us
                (ground (arith, q, same)))
          | inr same ↦ Picked-none (m ∷ ms) d d' (ground (arith, q, same))
        ]
        | inl q ↦ elim (Bool-cases (le64 high m.version)) [
          | inr low ↦ Picked-none (m ∷ ms) d d' (ground (arith, q, low))
          | inl low ↦ elim (attempt-cases (one m d)) [
            | inl (e, c) ↦ Picked-next m ms d e d' c (
                apply_each-Picked checksum applied high ms seen o e d' us
                  (ground (arith, q, low, c)))
            | inr (x, e, c) ↦ Picked-none (m ∷ ms) d d' (ground (arith, q, low, c, u d e x c))
          ]
        ]
      ]

  pub apply_with-Picked :
      (checksum : Bytes → Bytes → Bytes) (ns : Bytes) (ms : List Migration) (d : Db S)
      → All Undoes ms
      → Picked ms d (apply_with checksum one ns ms d).1
  unfolding apply_with
  apply_with-Picked checksum ns ms d us = elim (Option-cases (validate_order 0 ms)) [
    | inr (e, q) ↦ rw (q, apply_with) (Picked-none ms d d refl)
    | inl q ↦ rw (q, apply_with) (counted _ _ _ (apply_each-Picked checksum _ _ ms 0 _ d _ us refl))
  ]
    where
      counted :
          (n : ℕ) (o : Outcome ℕ) (d' : Db S)
          → Picked ms d d'
          → Picked ms d (all_seen checksum n (o, d')).1
      counted n (committed seen) d' r = r
      counted n (rolled_back x) d' r = r

-- Some of the declared migrations ran, in their order, and exactly these were added to the record.
pub record Ran {S : Type 0} (checksum : Bytes → Bytes → Bytes) (exec : Bytes → S → Option S)
    (ns : Bytes) (ms : List Migration) (d d' : Db S) : Type 0 where
  pub fresh : List Migration
  pub picks : Picks ms fresh
  pub rows : d'.rows ≡ d.rows ++ map (new_row checksum ns) fresh
  pub rest : run_all exec fresh d.rest ≡ some d'.rest

module _ {S : Type 0} (checksum : Bytes → Bytes → Bytes) (exec : Bytes → S → Option S) (ns : Bytes)
    (one : Migration → Db S → Attempt (Db S))
    (one-Records : (m : Migration) (d e : Db S)
      → one m d ≡ succeeded e
      → (s : S) × (exec m.up d.rest ≡ some s) × (e ≡ recorded checksum ns m s d)) where
  Steps-rows :
      (ms : List Migration) (d d' : Db S)
      → Steps one ms d d'
      → d'.rows ≡ d.rows ++ map (new_row checksum ns) ms
  Steps-rows [] d d' (stand _) = sym (append_nil d.rows)
  Steps-rows (m ∷ ms) d d' (step _ {e = e} c r) =
      let (s, ran, q) = one-Records m d e c in
      let same : e.rows ≡ d.rows ++ new_row checksum ns m ∷ [] = ground (arith, q) in
      let assoc = append_assoc d.rows (new_row checksum ns m ∷ []) (map (new_row checksum ns) ms) in
      let more = Steps-rows ms e d' r in ground (arith, same, assoc, more)

  Steps-rest :
      (ms : List Migration) (d d' : Db S)
      → Steps one ms d d'
      → run_all exec ms d.rest ≡ some d'.rest
  unfolding run_all
  Steps-rest [] d d' (stand _) = refl
  Steps-rest (m ∷ ms) d d' (step _ {e = e} c r) =
      let (s, ran, q) = one-Records m d e c in ground (arith, Steps-rest ms e d' r)

  pub Picked-Ran :
      (ms : List Migration) (d d' : Db S) → Picked one ms d d' → Ran checksum exec ns ms d d'
  Picked-Ran ms d d' p = record {
    fresh = p.fresh;
    picks = p.picks;
    rows = Steps-rows p.fresh d d' p.steps;
    rest = Steps-rest p.fresh d d' p.steps;
  }
