-- ===== src/Storage/Leaving.antt =====
-- The loop of Apply in internal/core/storage/migrate.go: what it leaves in the record.
use control_center.Common.Word.{half64, mod64, le64}
use control_center.Common.{
  append_nil, append_assoc, ℕ, suc, ◌+◌, ◌%◌, ◌<◌, ◌≡◌, refl, ◌∙◌, inl, inr, true, false, none,
  some, List, [], ◌∷◌, ◌++◌, arith, ◌==◌, Bool-cases, Option-cases, Bytes, bytes_eq_refl, length,
  length-append, lookup, All,
}
use control_center.Storage.Migrating.{
  Migration, Applied, Row, version_key, Db, validate_order, applied_migrations, same_applied,
  Attempt, succeeded, committed, new_row, recorded, apply_each,
}
use control_center.Storage.Recorded.{attempt-cases}

-- The order of int64 words.
abbrev pub signed : ℕ → ℕ
signed a = (a + half64) % mod64

-- Versions rise from `low`.
abbrev pub Rising : ℕ → List Migration → Type 0
Rising low [] = Unit
Rising low (m ∷ ms) = (signed low < signed m.version) × Rising m.version ms

pub validate_order-Rising :
    (low : ℕ) (ms : List Migration) → validate_order low ms ≡ none → Rising low ms
unfolding validate_order
validate_order-Rising low [] h = tt
validate_order-Rising low (m ∷ ms) h =
    (ground arith, validate_order-Rising m.version ms (ground arith))

lookup-append :
    (v : ℕ) (xs ys : List (ℕ × Applied))
    → lookup v (xs ++ ys) ≡ elim (lookup v xs) [ none ↦ lookup v ys | some a ↦ some a ]
unfolding lookup
lookup-append v [] ys = refl
lookup-append v ((w, a) ∷ xs) ys = ground (arith, lookup-append v xs ys)

module _ (checksum : Bytes → Bytes → Bytes) (ns : Bytes) where
  -- The record has the migration, as it is declared.
  abbrev pub IsRecorded : List (ℕ × Applied) → Migration → Type 0
  IsRecorded applied m =
      (a : Applied) × (lookup m.version applied ≡ some a)
      × (same_applied a m.name (checksum m.name m.up) ≡ true)

  applied-append :
      (m : Migration) (rs : List Row)
      → applied_migrations ns (rs ++ new_row checksum ns m ∷ [])
        ≡ applied_migrations ns rs ++ (m.version, (new_row checksum ns m).applied) ∷ []
  unfolding applied_migrations
  applied-append m [] = rw (bytes_eq_refl ns) refl
  applied-append m (r ∷ rs) = ground (arith, applied-append m rs)

module _ {S : Type 0} (checksum : Bytes → Bytes → Bytes) (ns : Bytes)
    (one : Migration → Db S → Attempt (Db S)) (applied : List (ℕ × Applied)) where
  -- A second pass over recorded migrations runs nothing.
  pub apply_each-recorded :
      (high : ℕ) (ms : List Migration) (seen : ℕ) (d : Db S)
      → All (IsRecorded checksum ns applied) ms
      → apply_each checksum one applied high ms seen d ≡ (committed (seen + length ms), d)
  unfolding apply_each
  apply_each-recorded high [] seen d h = ground arith
  apply_each-recorded high (m ∷ ms) seen d ((a, q, same), h) =
      ground (arith, q, same, apply_each-recorded high ms (suc seen) d h)

  -- Past the version `low`, the record still says what it said before the loop.
  abbrev pub Agrees : ℕ → Db S → Type 0
  Agrees low d =
      (v : ℕ) → signed low < signed v → lookup v (applied_migrations ns d.rows) ≡ lookup v applied

  module _
      (one-Records : (m : Migration) (d e : Db S)
        → one m d ≡ succeeded e
        → (s : S) × (e ≡ recorded checksum ns m s d)) where
    -- What a committed pass leaves in the record.
    pub record Left (ms : List Migration) (seen n : ℕ) (d d' : Db S) : Type 0 where
      pub more : List (ℕ × Applied)
      pub grown : applied_migrations ns d'.rows ≡ applied_migrations ns d.rows ++ more
      pub counted :
          length (applied_migrations ns d'.rows) + n
          ≡ length (applied_migrations ns d.rows) + seen + length ms
      pub all : All (IsRecorded checksum ns (applied_migrations ns d'.rows)) ms

    Agrees-recorded :
        (low : ℕ) (m : Migration) (s : S) (d : Db S)
        → signed low < signed m.version
        → Agrees low d
        → Agrees m.version (recorded checksum ns m s d)
    unfolding lookup
    Agrees-recorded low m s d r a v l =
        let other : (m.version == v) ≡ false = ground arith in
        ground (
          arith,
          applied-append checksum ns m d.rows,
          lookup-append v (applied_migrations ns d.rows)
              ((m.version, (new_row checksum ns m).applied) ∷ []),
          a v (omega (arith, r, l)),
          other,
        )

    Left-seen :
        (m : Migration) (ms : List Migration) (seen n : ℕ) (prev : Applied) (d d' : Db S)
        → lookup m.version (applied_migrations ns d.rows) ≡ some prev
        → same_applied prev m.name (checksum m.name m.up) ≡ true
        → Left ms (suc seen) n d d'
        → Left (m ∷ ms) seen n d d'
    Left-seen m ms seen n prev d d' q same l = record {
      more = l.more;
      grown = l.grown;
      counted = omega (arith, l.counted);
      all = (
        (
          prev,
          ground (arith, q, l.grown, lookup-append m.version (applied_migrations ns d.rows) l.more),
          same,
        ),
        l.all,
      );
    }

    Left-fresh :
        (m : Migration) (ms : List Migration) (seen n : ℕ) (s : S) (d d' : Db S)
        → lookup m.version (applied_migrations ns d.rows) ≡ none
        → Left ms seen n (recorded checksum ns m s d) d'
        → Left (m ∷ ms) seen n d d'
    unfolding lookup
    Left-fresh m ms seen n s d d' q l =
        let before = applied_migrations ns d.rows in
        let here : List (ℕ × Applied) = (m.version, (new_row checksum ns m).applied) ∷ [] in
        let added = applied-append checksum ns m d.rows in
        let all_rows : applied_migrations ns d'.rows ≡ before ++ (here ++ l.more) =
          ground (arith, l.grown, added, append_assoc before here l.more) in
        record {
          more = here ++ l.more;
          grown = all_rows;
          counted = ground (arith, l.counted, added, length-append before here);
          all = (
            (
              (new_row checksum ns m).applied,
              ground (arith, q, all_rows, lookup-append m.version before (here ++ l.more)),
              ground (arith, bytes_eq_refl m.name, bytes_eq_refl (checksum m.name m.up)),
            ),
            l.all,
          );
        }

    pub apply_each-Left :
        (high low : ℕ) (ms : List Migration) (seen n : ℕ) (d d' : Db S)
        → Rising low ms
        → Agrees low d
        → apply_each checksum one applied high ms seen d ≡ (committed n, d')
        → Left ms seen n d d'
    unfolding apply_each
    apply_each-Left high low [] seen n d d' r a h =
        let same : d ≡ d' = ground arith in
        let count : seen ≡ n = ground arith in
        record {
          more = [];
          grown = ground (arith, same, append_nil (applied_migrations ns d.rows));
          counted = ground (arith, same, count);
          all = tt;
        }
    apply_each-Left high low (m ∷ ms) seen n d d' r a h =
        elim (Option-cases (lookup m.version applied)) [
          | inr (prev, q) ↦ elim (Bool-cases (same_applied prev m.name (checksum m.name m.up))) [
            | inl same ↦ Left-seen m ms seen n prev d d' (a m.version r.0 ∙ q) same (
                apply_each-Left high m.version ms (suc seen) n d d' r.1
                  (λ v l. a v (omega (arith, r.0, l))) (ground (arith, q, same)))
            | inr same ↦ absurd (ground (arith, q, same))
          ]
          | inl q ↦ elim (Bool-cases (le64 high m.version)) [
            | inr below ↦ absurd (ground (arith, q, below))
            | inl below ↦ elim (attempt-cases (one m d)) [
              | inr (x, e, c) ↦ absurd (ground (arith, q, below, c))
              | inl (e, c) ↦
                  let (s, same) = one-Records m d e c in
                  Left-fresh m ms seen n s d d' (a m.version r.0 ∙ q) (
                    apply_each-Left high m.version ms seen n (recorded checksum ns m s d) d' r.1
                      (Agrees-recorded low m s d r.0 a) (ground (arith, q, below, c, same)))
            ]
          ]
        ]
