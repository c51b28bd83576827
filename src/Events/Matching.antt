-- ===== src/Events/Matching.antt =====
-- matchSegments of internal/core/events/pattern.go, and the relation that its comments describe.
use control_center.Common.{
  ◌≡◌, refl, ◌≢◌, ◌↔◌, inl, inr, Bool, true, false, ◌||◌, List, [], ◌∷◌, arith, Bytes, bytes_eq,
  bytes_eq_iff, Bool-cases,
}
use control_center.Events.Pattern.{
  star, double_star, is_nil, any_suffix, match_head, match_segments,
}

-- A literal segment matches itself, `*` matches one segment, and `**` matches zero or more.
pub data Matches : List Bytes → List Bytes → Type 0 where
  end : Matches [] []
  literal :
      {p t : Bytes} {ps ts : List Bytes}
      → p ≢ double_star
      → t ≡ p
      → Matches ps ts
      → Matches (p ∷ ps) (t ∷ ts)
  one : {p t : Bytes} {ps ts : List Bytes} → p ≡ star → Matches ps ts → Matches (p ∷ ps) (t ∷ ts)
  none : {p : Bytes} {ps ts : List Bytes} → p ≡ double_star → Matches ps ts → Matches (p ∷ ps) ts
  more :
      {p t : Bytes} {ps ts : List Bytes}
      → p ≡ double_star
      → Matches (p ∷ ps) ts
      → Matches (p ∷ ps) (t ∷ ts)

rest_of_type : {p : Bytes} (ts : List Bytes) → p ≡ double_star → Matches (p ∷ []) ts
rest_of_type [] e = none e end
rest_of_type (t ∷ ts) e = more e (rest_of_type ts e)

suffix_sound :
    {p : Bytes} (ps ts : List Bytes)
    → p ≡ double_star
    → ((us : List Bytes) → match_segments ps us ≡ true → Matches ps us)
    → any_suffix (match_segments ps) ts ≡ true
    → Matches (p ∷ ps) ts
unfolding any_suffix
suffix_sound ps [] e ih h = none e (ih [] h)
suffix_sound ps (t ∷ ts) e ih h = elim (Bool-cases (match_segments ps (t ∷ ts))) [
  | inl x ↦ none e (ih (t ∷ ts) x)
  | inr x ↦ more e (suffix_sound ps ts e ih (rw x at h))
]

head_sound :
    (p : Bytes) (ps ts : List Bytes)
    → p ≢ double_star
    → ((us : List Bytes) → match_segments ps us ≡ true → Matches ps us)
    → match_head p (match_segments ps) ts ≡ true
    → Matches (p ∷ ps) ts
head_sound p ps [] n ih h = cc
head_sound p ps (t ∷ ts) n ih h = elim (Bool-cases (bytes_eq p star)) [
  | inl x ↦ one ((bytes_eq_iff p star).0 x) (ih ts (ground arith))
  | inr x ↦ literal n ((bytes_eq_iff t p).0 (ground arith)) (ih ts (ground arith))
]

double_sound :
    {p : Bytes} (ps ts : List Bytes)
    → p ≡ double_star
    → ((us : List Bytes) → match_segments ps us ≡ true → Matches ps us)
    → is_nil ps || any_suffix (match_segments ps) ts ≡ true
    → Matches (p ∷ ps) ts
double_sound [] ts e ih h = rest_of_type ts e
double_sound (q ∷ ps) ts e ih h = suffix_sound (q ∷ ps) ts e ih h

match_sound : (ps ts : List Bytes) → match_segments ps ts ≡ true → Matches ps ts
unfolding match_segments
match_sound [] [] h = end
match_sound [] (t ∷ ts) h = cc
match_sound (p ∷ ps) ts h = elim (Bool-cases (bytes_eq p double_star)) [
  | inl x ↦
      double_sound ps ts ((bytes_eq_iff p double_star).0 x) (λ us. match_sound ps us) (rw x at h)
  | inr x ↦
      head_sound p ps ts (λ e. ground (arith, bytes_eq_iff p double_star)) (λ us. match_sound ps us)
        (rw x at h)
]

any_suffix_self : (m : List Bytes → Bool) (ts : List Bytes) → m ts ≡ true → any_suffix m ts ≡ true
unfolding any_suffix
any_suffix_self m [] h = h
any_suffix_self m (t ∷ ts) h = ground arith

star_ne : (p : Bytes) → p ≡ star → bytes_eq p double_star ≡ false
unfolding bytes_eq
star_ne p e = rw e

match_complete : {ps ts : List Bytes} → Matches ps ts → match_segments ps ts ≡ true
unfolding match_segments any_suffix
match_complete end = refl
match_complete (literal {p} {t} n e d) =
    ground (arith, bytes_eq_iff p double_star, bytes_eq_iff t p, match_complete d)
match_complete (one {p} {t} e d) =
    ground (arith, bytes_eq_iff p star, star_ne p e, match_complete d)
match_complete (none {p} {ps} {ts} e d) =
    ground
      (arith, bytes_eq_iff p double_star, any_suffix_self (match_segments ps) ts (match_complete d))
match_complete (more {p} {t} {ps} {ts} e d) =
    ground (arith, bytes_eq_iff p double_star, match_complete d)

-- matchSegments answers true exactly for the types that the pattern describes.
pub match_iff : (ps ts : List Bytes) → (match_segments ps ts ≡ true) ↔ Matches ps ts
match_iff ps ts = (match_sound ps ts, match_complete)
