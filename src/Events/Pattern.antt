-- ===== src/Events/Pattern.antt =====
-- internal/core/events/pattern.go. Texts are bytes; an error is its kind.
use control_center.Common.{
  ℕ, Bool, true, false, not, ◌&&◌, ◌||◌, Option, none, some, List, [], ◌∷◌, ◌++◌, if◌then◌else◌,
  ◌==◌, leb, ltb, Bytes, codes, bytes_eq,
}

abbrev pub dot : ℕ
dot = b'.'

abbrev pub star : Bytes
star = codes "*"

abbrev pub double_star : Bytes
double_star = codes "**"

abbrev pub push : ℕ → List Bytes → List Bytes
push c [] = (c ∷ []) ∷ []
push c (x ∷ xs) = (c ∷ x) ∷ xs

-- strings.Split(s, ".")
unfoldable pub split : Bytes → List Bytes
split [] = [] ∷ []
split (c ∷ s) = let rest = split s in if c == dot then [] ∷ rest else push c rest

unfoldable pub segment_char : ℕ → Bool
segment_char c = (leb b'a' c && leb c b'z') || (leb b'0' c && leb c b'9') || c == b'_'

unfoldable pub all_segment_chars : Bytes → Bool
all_segment_chars [] = true
all_segment_chars (c ∷ s) = segment_char c && all_segment_chars s

unfoldable pub valid_segment : Bytes → Bool
valid_segment [] = false
valid_segment (c ∷ s) = if ltb c b'a' || ltb b'z' c then false else all_segment_chars s

unfoldable pub all_valid : List Bytes → Bool
all_valid [] = true
all_valid (s ∷ ss) = valid_segment s && all_valid ss

pub data Error : Type 0 where
  invalid_type invalid_source invalid_pattern : Error

abbrev pub at_least_two : List Bytes → Bool
at_least_two (x ∷ y ∷ ss) = true
at_least_two _ = false

-- validateType: `none` is the absence of an error.
unfoldable pub validate_type : Bytes → Option Error
validate_type t = if at_least_two (split t) && all_valid (split t) then none else some invalid_type

-- The namespace that a source may publish under: "core" for core.<module>, else the plugin ID.
unfoldable pub namespace_of : List Bytes → Option Bytes
namespace_of [] = none
namespace_of (s ∷ []) = if bytes_eq s (codes "core") then none else some s
namespace_of (s ∷ m ∷ []) = if bytes_eq s (codes "core") then some s else none
namespace_of (s ∷ m ∷ n ∷ ss) = none

abbrev pub first_segment : List Bytes → Bytes
first_segment [] = []
first_segment (s ∷ ss) = s

unfoldable pub validate_source : Bytes → Bytes → Option Error
validate_source source event_type =
    if bytes_eq source [] || not (all_valid (split source))
    then some invalid_source
    else elim (namespace_of (split source)) [
      | none ↦ some invalid_source
      | some n ↦ if bytes_eq (first_segment (split event_type)) n then none else some invalid_source
    ]

unfoldable pub is_wildcard : Bytes → Bool
is_wildcard s = bytes_eq s star || bytes_eq s double_star

unfoldable pub pattern_segments_ok : List Bytes → Bool
pattern_segments_ok [] = true
pattern_segments_ok (s ∷ ss) = (is_wildcard s || valid_segment s) && pattern_segments_ok ss

-- CompilePattern: the segments of the pattern.
unfoldable pub compile_pattern : Bytes → Option (List Bytes)
compile_pattern p =
    if bytes_eq p [] then none else if pattern_segments_ok (split p) then some (split p) else none

abbrev pub is_nil {ℓ} : {A : Type ℓ} → List A → Bool
is_nil [] = true
is_nil (x ∷ xs) = false

-- The loop over i of matchSegments: some suffix of the type matches.
unfoldable pub any_suffix : (List Bytes → Bool) → List Bytes → Bool
any_suffix m [] = m []
any_suffix m (t ∷ ts) = m (t ∷ ts) || any_suffix m ts

abbrev pub match_head : Bytes → (List Bytes → Bool) → List Bytes → Bool
match_head p m [] = false
match_head p m (t ∷ ts) = (bytes_eq p star || bytes_eq t p) && m ts

unfoldable pub match_segments : List Bytes → List Bytes → Bool
match_segments [] typ = is_nil typ
match_segments (p ∷ rest) typ =
    let m = match_segments rest in
    if bytes_eq p double_star then is_nil rest || any_suffix m typ else match_head p m typ

-- Pattern.Matches, of a compiled pattern.
unfoldable pub matches : List Bytes → Bytes → Bool
matches segs event_type = match_segments segs (split event_type)

unfoldable pub prefix_from : Bytes → List Bytes → Bytes
prefix_from b [] = b
prefix_from b (s ∷ ss) =
    let rest = prefix_from ((if is_nil b then b else b ++ dot ∷ []) ++ s) ss in
    if is_wildcard s then b else rest

-- Pattern.sqlPrefix
unfoldable pub sql_prefix : List Bytes → Bytes
sql_prefix segs = prefix_from [] segs
