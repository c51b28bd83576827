-- ===== src/Events/Querying.antt =====
-- Query of internal/core/events/log.go: the rows that it reads and what it returns.
use control_center.Common.{
  ℕ, zero, suc, ◌*◌, ◌≤◌, ◌≡◌, refl, inl, inr, Bool, true, ◌&&◌, some, List, [], ◌∷◌, ◌++◌, arith,
  Bool-cases, Bytes, codes, bytes_eq_iff, length, take, filter,
}
use control_center.Events.Pattern.{dot, compile_pattern, pattern_segments_ok, matches, sql_prefix}
use control_center.Events.Prefix.{sql_prefix-IsPrefix}
use control_center.Events.Log.{Event, Db, is_above, in_window, query_compiled}

pub take_all {ℓ} : {A : Type ℓ} (n : ℕ) (xs : List A) → length xs ≤ n → take n xs ≡ xs
take_all zero [] h = refl
take_all zero (x ∷ xs) h = absurd (omega arith)
take_all (suc n) [] h = refl
take_all (suc n) (x ∷ xs) h = rw (take_all n xs (omega arith))

pub filter-filter {ℓ} :
    {A : Type ℓ} (p q r : A → Bool) (xs : List A)
    → ((x : A) → (q x && p x) ≡ r x)
    → filter p (filter q xs) ≡ filter r xs
unfolding filter
filter-filter p q r [] h = refl
filter-filter p q r (x ∷ xs) h = ground (arith, h x, filter-filter p q r xs h)

module _ (like : Bytes → Bytes → Bool)
    (like-dot : (b r : Bytes) → like (b ++ dot ∷ r) (b ++ codes ".%") ≡ true) where
  in_window-match :
      (segs : List Bytes) (after : ℕ) (e : Event)
      → pattern_segments_ok segs ≡ true
      → (in_window like (sql_prefix segs) after e && matches segs e.type)
        ≡ (is_above after e && matches segs e.type)
  unfolding in_window
  in_window-match segs after e c = elim (Bool-cases (matches segs e.type)) [
    | inl m ↦ elim (sql_prefix-IsPrefix segs e.type c m) [
      | inl q ↦ ground (arith, bytes_eq_iff (sql_prefix segs) [])
      | inr (inl q) ↦ ground (arith, bytes_eq_iff e.type (sql_prefix segs))
      | inr (inr (r, q)) ↦
          let l : like e.type (sql_prefix segs ++ codes ".%") ≡ true =
            rw q (like-dot (sql_prefix segs) r) in
          ground arith
    ]
    | inr m ↦ ground arith
  ]

  -- Where SQL's LIKE matches every text that goes on with a dot after the prefix, and no more rows
  -- than the window holds pass the prefix test, a query returns the first `limit` events after the
  -- given id that the pattern matches, in order: the prefix test loses none.
  pub query-reference :
      (p : Bytes) (segs : List Bytes) (after limit : ℕ) (d : Db)
      → compile_pattern p ≡ some segs
      → length (filter (in_window like (sql_prefix segs) after) d.events) ≤ limit * 4
      → query_compiled like segs after limit d
        ≡ take limit (filter (λ e. is_above after e && matches segs e.type) d.events)
  unfolding query_compiled compile_pattern
  query-reference p segs after limit d c n =
      rw (take_all (limit * 4) (filter (in_window like (sql_prefix segs) after) d.events) n) (
        rw (
          filter-filter (λ e. matches segs e.type) (in_window like (sql_prefix segs) after)
            (λ e. is_above after e && matches segs e.type) d.events
            (λ e. in_window-match segs after e (ground arith))))
