-- ===== src/Events/Prefix.antt =====
-- sqlPrefix of internal/core/events/pattern.go.
use control_center.Common.{
  ◌≡◌, refl, sym, ◌∙◌, subst, ◌⊎◌, inl, inr, true, false, some, List, [], ◌∷◌, ◌++◌, arith,
  if◌then◌else◌, ◌==◌, Bytes, bytes_eq, Bool-cases,
}
use mathlib.Core.List.{append_assoc, append-nil}
use control_center.Events.Pattern.{
  dot, star, double_star, push, split, valid_segment, is_wildcard, pattern_segments_ok,
  compile_pattern, is_nil, matches, prefix_from, sql_prefix,
}
use control_center.Events.Matching.{
  Matches, end, literal, one, none as zero_segments, more, match_iff,
}

-- Segments joined by dots.
abbrev pub join : List Bytes → Bytes
join [] = []
join (x ∷ []) = x
join (x ∷ y ∷ ys) = x ++ (dot ∷ join (y ∷ ys))

split_cons : (s : Bytes) → is_nil (split s) ≡ false
unfolding split
split_cons [] = refl
split_cons (c ∷ s) = ground (arith, split_cons s)

join-push : (c : _) (xs : List Bytes) → is_nil xs ≡ false → join (push c xs) ≡ c ∷ join xs
join-push c [] h = cc
join-push c (x ∷ []) h = refl
join-push c (x ∷ y ∷ ys) h = refl

join_cons_nil : (xs : List Bytes) → is_nil xs ≡ false → join ([] ∷ xs) ≡ dot ∷ join xs
join_cons_nil [] h = cc
join_cons_nil (x ∷ xs) h = refl

-- Splitting at dots loses nothing.
join-split : (s : Bytes) → join (split s) ≡ s
unfolding split
join-split [] = refl
join-split (c ∷ s) = elim (Bool-cases (c == dot)) [
  | inl e ↦ rw e (join_cons_nil (split s) (split_cons s) ∙ ground (arith, join-split s))
  | inr e ↦ rw e (join-push c (split s) (split_cons s) ∙ ground (arith, join-split s))
]

-- One text begins with another.
abbrev pub Begins : Bytes → Bytes → Type 0
Begins b s = (r : Bytes) × (s ≡ b ++ r)

-- What has been written, followed by the segments that are left.
abbrev whole : Bytes → List Bytes → Bytes
whole b [] = b
whole b (t ∷ ts) = (if is_nil b then b else b ++ dot ∷ []) ++ join (t ∷ ts)

-- One text is empty, or the other is it, or goes on with a dot.
abbrev pub IsPrefix : Bytes → Bytes → Type 0
IsPrefix b s = (b ≡ []) ⊎ (s ≡ b) ⊎ ((r : Bytes) × (s ≡ b ++ dot ∷ r))

whole-IsPrefix : (b : Bytes) (ts : List Bytes) → IsPrefix b (whole b ts)
whole-IsPrefix b [] = inr (inl refl)
whole-IsPrefix [] (t ∷ ts) = inl refl
whole-IsPrefix (c ∷ b) (t ∷ ts) =
    inr (inr (join (t ∷ ts), append_assoc (c ∷ b) (dot ∷ []) (join (t ∷ ts))))

IsPrefix-Begins : (b s : Bytes) → IsPrefix b s → Begins b s
IsPrefix-Begins b s (inl e) = (s, rw e refl)
IsPrefix-Begins b s (inr (inl e)) = ([], e ∙ sym (append-nil b))
IsPrefix-Begins b s (inr (inr (r, e))) = (dot ∷ r, e)

abbrev extend : Bytes → Bytes → Bytes
extend b s = (if is_nil b then b else b ++ dot ∷ []) ++ s

whole_literal :
    (b t : Bytes) (ts : List Bytes) → is_nil t ≡ false → whole b (t ∷ ts) ≡ whole (extend b t) ts
whole_literal b [] ts h = cc
whole_literal b (c ∷ t) [] h = refl
whole_literal [] (c ∷ t) (u ∷ us) h = simp append_assoc
whole_literal (x ∷ b) (c ∷ t) (u ∷ us) h = simp append_assoc

valid_cons : (s : Bytes) → valid_segment s ≡ true → is_nil s ≡ false
unfolding valid_segment
valid_cons [] h = cc
valid_cons (c ∷ s) h = refl

wild_IsPrefix :
    (b p : Bytes) (ps ts : List Bytes)
    → is_wildcard p ≡ true
    → IsPrefix (prefix_from b (p ∷ ps)) (whole b ts)
unfolding prefix_from
wild_IsPrefix b p ps ts w = rw w (whole-IsPrefix b ts)

wild_double : (p : Bytes) → p ≡ double_star → is_wildcard p ≡ true
unfolding is_wildcard bytes_eq
wild_double p e = rw e

wild_star : (p : Bytes) → p ≡ star → is_wildcard p ≡ true
unfolding is_wildcard bytes_eq
wild_star p e = rw e

prefix_from-IsPrefix :
    (b : Bytes) {ps ts : List Bytes}
    → Matches ps ts
    → pattern_segments_ok ps ≡ true
    → IsPrefix (prefix_from b ps) (whole b ts)
unfolding prefix_from pattern_segments_ok
prefix_from-IsPrefix b end h = whole-IsPrefix b []
prefix_from-IsPrefix b (literal {p} {t} {ps} {ts} n e d) h = elim (Bool-cases (is_wildcard p)) [
  | inl w ↦ wild_IsPrefix b p ps (t ∷ ts) w
  | inr w ↦
      let ih = prefix_from-IsPrefix (extend b p) d (ground arith) in
      let here : IsPrefix (prefix_from b (p ∷ ps)) (whole b (p ∷ ts)) = rw w (
        subst (IsPrefix (prefix_from (extend b p) ps))
          (sym (whole_literal b p ts (valid_cons p (ground arith)))) ih) in
      subst (λ u. IsPrefix (prefix_from b (p ∷ ps)) (whole b (u ∷ ts))) (sym e) here
]
prefix_from-IsPrefix b (one {p} {t} {ps} {ts} e d) h = wild_IsPrefix b p ps (t ∷ ts) (wild_star p e)
prefix_from-IsPrefix b (zero_segments {p} {ps} {ts} e d) h =
    wild_IsPrefix b p ps ts (wild_double p e)
prefix_from-IsPrefix b (more {p} {t} {ps} {ts} e d) h =
    wild_IsPrefix b p ps (t ∷ ts) (wild_double p e)

whole-nil : (ts : List Bytes) → whole [] ts ≡ join ts
whole-nil [] = refl
whole-nil (t ∷ ts) = refl

pub sql_prefix-IsPrefix :
    (segs : List Bytes) (t : Bytes)
    → pattern_segments_ok segs ≡ true
    → matches segs t ≡ true
    → IsPrefix (sql_prefix segs) t
unfolding sql_prefix matches
sql_prefix-IsPrefix segs t c m =
    subst (IsPrefix (prefix_from [] segs)) (whole-nil (split t) ∙ join-split t)
      (prefix_from-IsPrefix [] ((match_iff segs (split t)).0 m) c)

-- A type that a compiled pattern matches begins with the pattern's LIKE prefix.
pub sql_prefix_necessary :
    (p t : Bytes) (segs : List Bytes)
    → compile_pattern p ≡ some segs
    → matches segs t ≡ true
    → Begins (sql_prefix segs) t
unfolding compile_pattern
sql_prefix_necessary p t segs c m =
    IsPrefix-Begins (sql_prefix segs) t (sql_prefix-IsPrefix segs t (ground arith) m)
