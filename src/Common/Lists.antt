-- ===== src/Common/Lists.antt =====
-- Lists measured by native numbers, under the library's names, and predicates over lists.
use Prim.Native.Nat.{ℕ, zero, suc, ◌+◌}
use mathlib.Core.Path.{◌≡◌, refl}
use mathlib.Core.Logic.{◌⊎◌, inl, inr}
use mathlib.Core.Bool.{Bool, true}
use mathlib.Core.List.{List, [], ◌∷◌, ◌++◌}
use native.Mathlib.Omega.{arith}
use control_center.Common.Tests.{if◌then◌else◌}

module _ {ℓ} {A : Type ℓ} where
  abbrev pub length : List A → ℕ
  length [] = 0
  length (x ∷ xs) = suc (length xs)

  pub length-append : (xs ys : List A) → length (xs ++ ys) ≡ length xs + length ys
  length-append [] ys = omega arith
  length-append (x ∷ xs) ys = omega (arith, length-append xs ys)

-- Every element satisfies the predicate.
abbrev pub All {ℓ κ} : {A : Type ℓ} → (A → Type κ) → List A → Type κ
All P [] = Unit
All P (x ∷ xs) = P x × All P xs

-- Membership.
abbrev pub Has : {A : Type 0} → A → List A → Type 0
Has x [] = ⊥
Has x (y ∷ ys) = (y ≡ x) ⊎ Has x ys

pub Has-append_left : {A : Type 0} (x : A) (ys zs : List A) → Has x ys → Has x (ys ++ zs)
Has-append_left x [] zs h = absurd h
Has-append_left x (y ∷ ys) zs (inl e) = inl e
Has-append_left x (y ∷ ys) zs (inr h) = inr (Has-append_left x ys zs h)

pub Has-append_last :
    {A : Type 0} (x y : A) (ys : List A) → Has x (ys ++ y ∷ []) → Has x ys ⊎ (y ≡ x)
Has-append_last x y [] (inl e) = inr e
Has-append_last x y [] (inr h) = absurd h
Has-append_last x y (z ∷ ys) (inl e) = inl (inl e)
Has-append_last x y (z ∷ ys) (inr h) = elim (Has-append_last x y ys h) [
  | inl m ↦ inl (inr m)
  | inr e ↦ inr e
]

pub Has-last : {A : Type 0} (y : A) (ys : List A) → Has y (ys ++ y ∷ [])
Has-last y [] = inl refl
Has-last y (z ∷ ys) = inr (Has-last y ys)

module _ {ℓ} {A : Type ℓ} where
  abbrev pub take : ℕ → List A → List A
  take zero xs = []
  take (suc n) [] = []
  take (suc n) (x ∷ xs) = x ∷ take n xs

  unfoldable pub filter : (A → Bool) → List A → List A
  filter p [] = []
  filter p (x ∷ xs) = let rest = filter p xs in if p x then x ∷ rest else rest

module _ {A : Type 0} where
  -- `filter p xs` has the elements of `xs` that satisfy `p`.
  pub Has-filter :
      (p : A → Bool) (x : A) (xs : List A) → Has x xs → p x ≡ true → Has x (filter p xs)
  unfolding filter
  Has-filter p x [] h e = h
  Has-filter p x (y ∷ ys) (inl q) e = ground arith
  Has-filter p x (y ∷ ys) (inr h) e = ground (arith, Has-filter p x ys h e)

  pub filter-Has :
      (p : A → Bool) (x : A) (xs : List A) → Has x (filter p xs) → Has x xs × (p x ≡ true)
  unfolding filter
  filter-Has p x [] h = absurd h
  filter-Has p x (y ∷ ys) h = ground (arith, filter-Has p x ys)

pub append_nil {ℓ} : {A : Type ℓ} (xs : List A) → xs ++ [] ≡ xs
append_nil [] = refl
append_nil (x ∷ xs) = rw (append_nil xs)

pub append_assoc {ℓ} : {A : Type ℓ} (xs ys zs : List A) → (xs ++ ys) ++ zs ≡ xs ++ (ys ++ zs)
append_assoc [] ys zs = refl
append_assoc (x ∷ xs) ys zs = rw (append_assoc xs ys zs)
