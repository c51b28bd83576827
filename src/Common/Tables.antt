-- ===== src/Common/Tables.antt =====
-- A SQL table with a primary key, as an association list.
use mathlib.Core.Path.{◌≡◌, refl, subst}
use mathlib.Core.List.{List, [], ◌∷◌}
use mathlib.Core.Option
use mathlib.Core.Option.{Option, none, some}
use native.Mathlib.Omega.{arith}
use control_center.Common.Tests.{if◌then◌else◌, Eq, Bool-cases}
use control_center.Common.Lists.{All}
use mathlib.Core.Logic.{inl, inr}
use mathlib.Core.Bool.{true}

module _ {ℓ κ} {K : Type ℓ} {V : Type κ} ⦃e : Eq K⦄ where
  -- SELECT … WHERE key = ?
  unfoldable pub lookup : K → List (K × V) → Option V
  lookup k [] = none
  lookup k ((j, v) ∷ m) = if e.beq j k then some v else lookup k m

  -- INSERT … ON CONFLICT(key) DO UPDATE
  unfoldable pub upsert : K → V → List (K × V) → List (K × V)
  upsert k v [] = (k, v) ∷ []
  upsert k v ((j, w) ∷ m) = if e.beq j k then (k, v) ∷ m else (j, w) ∷ upsert k v m

  -- UPDATE … WHERE key = ?
  unfoldable pub update : K → (V → V) → List (K × V) → List (K × V)
  update k f [] = []
  update k f ((j, w) ∷ m) = (j, if e.beq j k then f w else w) ∷ update k f m

  -- DELETE … WHERE key = ?
  unfoldable pub delete : K → List (K × V) → List (K × V)
  delete k [] = []
  delete k ((j, w) ∷ m) = let rest = delete k m in if e.beq j k then rest else (j, w) ∷ rest

  pub lookup-upsert :
      (k j : K) (v : V) (m : List (K × V))
      → lookup j (upsert k v m) ≡ (if e.beq k j then some v else lookup j m)
  unfolding lookup upsert
  lookup-upsert k j v [] = refl
  lookup-upsert k j v ((i, w) ∷ m) =
      ground (arith, e.beq_iff k j, e.beq_iff i k, e.beq_iff i j, lookup-upsert k j v m)

  pub lookup-update :
      (k j : K) (f : V → V) (m : List (K × V))
      → lookup j (update k f m) ≡ (if e.beq k j then Option.map f (lookup j m) else lookup j m)
  unfolding lookup update
  lookup-update k j f [] = ground arith
  lookup-update k j f ((i, w) ∷ m) =
      ground (arith, e.beq_iff k j, e.beq_iff i k, e.beq_iff i j, lookup-update k j f m)

  pub lookup-delete :
      (k j : K) (m : List (K × V))
      → lookup j (delete k m) ≡ (if e.beq k j then none else lookup j m)
  unfolding lookup delete
  lookup-delete k j [] = ground arith
  lookup-delete k j ((i, w) ∷ m) =
      ground (arith, e.beq_iff k j, e.beq_iff i k, e.beq_iff i j, lookup-delete k j m)

  pub delete_absent : (k : K) (m : List (K × V)) → lookup k m ≡ none → delete k m ≡ m
  unfolding lookup delete
  delete_absent k [] h = refl
  delete_absent k ((j, v) ∷ m) h = ground (arith, delete_absent k m)

-- A predicate of every row.
module _ {κ} {K V : Type 0} ⦃e : Eq K⦄ (P : K × V → Type κ) where
  pub All-update :
      (k : K) (f : V → V) (m : List (K × V))
      → ((j : K) (v : V) → e.beq j k ≡ true → P (j, v) → P (j, f v))
      → All P m
      → All P (update k f m)
  unfolding update
  All-update k f [] h a = tt
  All-update k f ((j, v) ∷ m) h (p, a) = elim (Bool-cases (e.beq j k)) [
    | inl q ↦ rw q (h j v q p, All-update k f m h a)
    | inr q ↦ rw q (p, All-update k f m h a)
  ]

  pub All-delete : (k : K) (m : List (K × V)) → All P m → All P (delete k m)
  unfolding delete
  All-delete k [] a = tt
  All-delete k ((j, v) ∷ m) (p, a) = elim (Bool-cases (e.beq j k)) [
    | inl q ↦ rw q (All-delete k m a)
    | inr q ↦ rw q (p, All-delete k m a)
  ]

  pub All-upsert : (k : K) (v : V) (m : List (K × V)) → P (k, v) → All P m → All P (upsert k v m)
  unfolding upsert
  All-upsert k v [] p a = (p, tt)
  All-upsert k v ((j, w) ∷ m) p (q, a) = elim (Bool-cases (e.beq j k)) [
    | inl h ↦ rw h (p, a)
    | inr h ↦ rw h (q, All-upsert k v m p a)
  ]

  pub All-lookup : (k : K) (v : V) (m : List (K × V)) → lookup k m ≡ some v → All P m → P (k, v)
  unfolding lookup
  All-lookup k v [] h a = cc
  All-lookup k v ((j, w) ∷ m) h (p, a) = elim (Bool-cases (e.beq j k)) [
    | inl q ↦ let same : (j, w) ≡ (k, v) = ground (arith, e.beq_iff j k) in subst P same p
    | inr q ↦ All-lookup k v m (ground arith) a
  ]
