-- ===== src/Browser/Reach.antt =====
-- checkURLScheme and parseAllowlist of internal/core/browser/allowlist.go: the hosts that are reached.
use control_center.Common.{
  ◌≡◌, refl, sym, ap, subst, ◌∙◌, ◌⊎◌, inl, inr, Bool, true, false, Option, some, List, [], ◌∷◌,
  arith, Bool-cases, Option-cases, Bytes, codes, bytes_eq, bytes_eq_iff, Has,
}
use control_center.Events.Pattern.{split}
use control_center.Storage.Authorizing.{equal_fold}
use control_center.Browser.Allowlist.{
  Url, is_one_of, all_labels, allowed, valid_ascii, canonical_host, parse_hosts, parse_allowlist,
  check_host_listed, check_url_scheme,
}

is_one_of-Has : (hs : List Bytes) (h : Bytes) → is_one_of hs h ≡ true → Has h hs
unfolding is_one_of
is_one_of-Has [] h q = absurd (ground arith)
is_one_of-Has (t ∷ hs) h q = elim (Bool-cases (bytes_eq t h)) [
  | inl e ↦ inl ((bytes_eq_iff t h).0 e)
  | inr e ↦ inr (is_one_of-Has hs h (ground arith))
]

module _ (is_literal : Bytes → Bool) (to_ascii : Bytes → Option Bytes) where
  -- A canonical host is a DNS name in lower case and no literal address.
  canonical_host-labels :
      (raw h : Bytes)
      → canonical_host is_literal to_ascii raw ≡ some h
      → (all_labels (split h) ≡ true) × (is_literal h ≡ false)
  unfolding canonical_host valid_ascii
  canonical_host-labels raw h q = ground arith

  -- One of the entries has this canonical form.
  abbrev pub IsListed : List Bytes → Bytes → Type 0
  IsListed entries h =
      (raw : Bytes) × Has raw entries × (canonical_host is_literal to_ascii raw ≡ some h)

  IsListed-cons :
      (raw : Bytes) (entries : List Bytes) (x : Bytes) (xs : List Bytes) (h : Bytes)
      → canonical_host is_literal to_ascii raw ≡ some x
      → (Has h xs → IsListed entries h)
      → Has h (x ∷ xs)
      → IsListed (raw ∷ entries) h
  IsListed-cons raw entries x xs h c more (inl e) = (raw, inl refl, c ∙ ap some e)
  IsListed-cons raw entries x xs h c more (inr m) = let (r, n, k) = more m in (r, inr n, k)

  parse_hosts-IsListed :
      (entries al : List Bytes) (h : Bytes)
      → parse_hosts is_literal to_ascii entries ≡ some al
      → Has h al
      → IsListed entries h
  unfolding parse_hosts
  parse_hosts-IsListed [] al h q m =
      let none_listed : [] ≡ al = ground arith in absurd (subst (Has h) (sym none_listed) m)
  parse_hosts-IsListed (raw ∷ entries) al h q m =
      elim (Option-cases (canonical_host is_literal to_ascii raw)) [
        | inl c ↦ absurd (ground (arith, c))
        | inr (x, c) ↦ elim (Option-cases (parse_hosts is_literal to_ascii entries)) [
          | inl p ↦ absurd (ground (arith, c, p))
          | inr (xs, p) ↦
              let both : x ∷ xs ≡ al = ground (arith, c, p) in
              IsListed-cons raw entries x xs h c (λ n. parse_hosts-IsListed entries xs h p n)
                (subst (Has h) (sym both) m)
        ]
      ]

  parse_allowlist-IsListed :
      (entries al : List Bytes) (h : Bytes)
      → parse_allowlist is_literal to_ascii entries ≡ some al
      → Has h al
      → IsListed entries h
  unfolding parse_allowlist
  parse_allowlist-IsListed [] al h q m = absurd (ground arith)
  parse_allowlist-IsListed (raw ∷ entries) al h q m = parse_hosts-IsListed (raw ∷ entries) al h q m

  check_host_listed-inv :
      (al : List Bytes) (host : Bytes)
      → check_host_listed is_literal to_ascii al host ≡ allowed
      → (h : Bytes) × (canonical_host is_literal to_ascii host ≡ some h) × Has h al
  unfolding check_host_listed
  check_host_listed-inv al host q = elim (Option-cases (canonical_host is_literal to_ascii host)) [
    | inl c ↦ absurd (ground (arith, c))
    | inr (h, c) ↦ elim (Bool-cases (is_one_of al h)) [
      | inl k ↦ (h, c, is_one_of-Has al h k)
      | inr k ↦ absurd (ground (arith, c, k))
    ]
  ]

-- A URL that is accepted under an allowlist has the scheme, no user, no port but 443 and no literal
-- address as its host; and its host's canonical form is that of an entry of the list that was parsed, a
-- name of valid labels that is no literal address.
pub allowed_reach :
    (is_literal : Bytes → Bool) (to_ascii : Bytes → Option Bytes) (entries al : List Bytes)
    (u : Url) (scheme : Bytes)
    → parse_allowlist is_literal to_ascii entries ≡ some al
    → check_url_scheme is_literal to_ascii u al scheme ≡ allowed
    → (equal_fold u.scheme scheme ≡ true)
      × (u.has_user ≡ false)
      × (is_literal u.hostname ≡ false)
      × ((u.port ≡ []) ⊎ (u.port ≡ codes "443"))
      × ((h : Bytes) × (canonical_host is_literal to_ascii u.hostname ≡ some h)
          × IsListed is_literal to_ascii entries h
          × (all_labels (split h) ≡ true)
          × (is_literal h ≡ false))
unfolding check_url_scheme
allowed_reach is_literal to_ascii entries al u scheme p q =
    let listed : check_host_listed is_literal to_ascii al u.hostname ≡ allowed = ground arith in
    let (h, c, m) = check_host_listed-inv is_literal to_ascii al u.hostname listed in
    let (labels, name) = canonical_host-labels is_literal to_ascii u.hostname h c in
    (
      ground arith,
      ground arith,
      ground arith,
      ground (arith, bytes_eq_iff u.port [], bytes_eq_iff u.port (codes "443")),
      (h, c, parse_allowlist-IsListed is_literal to_ascii entries al h p m, labels, name),
    )
