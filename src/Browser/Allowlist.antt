-- ===== src/Browser/Allowlist.antt =====
-- internal/core/browser/allowlist.go: parseAllowlist, canonicalHost, dnsLabel and checkURLScheme. A URL
-- is what net/url says of it. Whether a host is a literal address (net.ParseIP) and the ASCII form of a
-- name (idna.Lookup.ToASCII) are arguments.
use control_center.Common.{
  ℕ, Bool, true, false, not, ◌&&◌, ◌||◌, Option, none, some, List, [], ◌∷◌, if◌then◌else◌, ◌==◌,
  leb, ltb, Bytes, codes, bytes_eq, length,
}
use control_center.Events.Pattern.{split}
use control_center.Storage.Authorizing.{equal_fold, lower_byte, has_prefix}

-- url.URL: its fields Scheme, Host and whether User is set, and what Hostname and Port return.
pub record Url : Type 0 where
  pub scheme : Bytes
  pub host : Bytes
  pub has_user : Bool
  pub hostname : Bytes
  pub port : Bytes

-- The UTF-8 forms of the characters that unicode.IsSpace accepts.
abbrev pub wide_spaces : List Bytes
wide_spaces =
    (194 ∷ 133 ∷ [])
    ∷ (194 ∷ 160 ∷ [])
    ∷ (225 ∷ 154 ∷ 128 ∷ [])
    ∷ (226 ∷ 128 ∷ 128 ∷ [])
    ∷ (226 ∷ 128 ∷ 129 ∷ [])
    ∷ (226 ∷ 128 ∷ 130 ∷ [])
    ∷ (226 ∷ 128 ∷ 131 ∷ [])
    ∷ (226 ∷ 128 ∷ 132 ∷ [])
    ∷ (226 ∷ 128 ∷ 133 ∷ [])
    ∷ (226 ∷ 128 ∷ 134 ∷ [])
    ∷ (226 ∷ 128 ∷ 135 ∷ [])
    ∷ (226 ∷ 128 ∷ 136 ∷ [])
    ∷ (226 ∷ 128 ∷ 137 ∷ [])
    ∷ (226 ∷ 128 ∷ 138 ∷ [])
    ∷ (226 ∷ 128 ∷ 168 ∷ [])
    ∷ (226 ∷ 128 ∷ 169 ∷ [])
    ∷ (226 ∷ 128 ∷ 175 ∷ [])
    ∷ (226 ∷ 129 ∷ 159 ∷ [])
    ∷ (227 ∷ 128 ∷ 128 ∷ [])
    ∷ []

unfoldable pub is_one_of : List Bytes → Bytes → Bool
is_one_of [] s = false
is_one_of (t ∷ ts) s = bytes_eq t s || is_one_of ts s

abbrev pub is_ascii_space : ℕ → Bool
is_ascii_space c = leb 9 c && leb c 13 || c == 32

-- strings.TrimSpace: spaces are taken from the front while they last, and from the back where nothing
-- but spaces follows.
unfoldable pub all_space : Bytes → Bool
all_space [] = true
all_space (a ∷ []) = is_ascii_space a
all_space (a ∷ b ∷ []) = is_ascii_space a && is_ascii_space b || is_one_of wide_spaces (a ∷ b ∷ [])
all_space (a ∷ b ∷ c ∷ s) =
    let one = all_space (b ∷ c ∷ s) in
    let two = all_space (c ∷ s) in
    let three = all_space s in
    is_ascii_space a && one
    || is_one_of wide_spaces (a ∷ b ∷ []) && two
    || is_one_of wide_spaces (a ∷ b ∷ c ∷ []) && three

unfoldable pub trim_right : Bytes → Bytes
trim_right [] = []
trim_right (c ∷ s) = let rest = trim_right s in if all_space (c ∷ s) then [] else c ∷ rest

unfoldable pub trim_left : Bytes → Bytes
trim_left [] = []
trim_left (a ∷ []) = if is_ascii_space a then [] else a ∷ []
trim_left (a ∷ b ∷ []) =
    let one = trim_left (b ∷ []) in
    if is_ascii_space a then one else if is_one_of wide_spaces (a ∷ b ∷ []) then [] else a ∷ b ∷ []
trim_left (a ∷ b ∷ c ∷ s) =
    let one = trim_left (b ∷ c ∷ s) in
    let two = trim_left (c ∷ s) in
    let three = trim_left s in
    if is_ascii_space a
    then one
    else if is_one_of wide_spaces (a ∷ b ∷ [])
    then two
    else if is_one_of wide_spaces (a ∷ b ∷ c ∷ [])
    then three
    else a ∷ b ∷ c ∷ s

-- strings.TrimSuffix(s, ".")
unfoldable pub trim_dot : Bytes → Bytes
trim_dot [] = []
trim_dot (c ∷ []) = if c == b'.' then [] else c ∷ []
trim_dot (c ∷ d ∷ s) = c ∷ trim_dot (d ∷ s)

-- strings.ContainsAny(s, cs), for an ASCII cs, and strings.Contains(s, "..")
unfoldable pub is_member : ℕ → Bytes → Bool
is_member x [] = false
is_member x (y ∷ ys) = x == y || is_member x ys

unfoldable pub has_any : Bytes → Bytes → Bool
has_any cs [] = false
has_any cs (c ∷ s) = is_member c cs || has_any cs s

unfoldable pub has_dots : Bytes → Bool
has_dots [] = false
has_dots (c ∷ s) = has_prefix (c ∷ s) (codes "..") || has_dots s

-- strings.ToLower. A letter that stays outside of ASCII is left as it is: dns_label refuses both.
unfoldable pub to_lower : Bytes → Bytes
to_lower [] = []
to_lower (a ∷ []) = lower_byte a ∷ []
to_lower (a ∷ b ∷ []) = if a == 196 && b == 176 then b'i' ∷ [] else lower_byte a ∷ lower_byte b ∷ []
to_lower (a ∷ b ∷ c ∷ s) =
    let one = to_lower (b ∷ c ∷ s) in
    let two = to_lower (c ∷ s) in
    let three = to_lower s in
    if a == 196 && b == 176
    then b'i' ∷ two
    else if a == 226 && b == 132 && c == 170
    then b'k' ∷ three
    else lower_byte a ∷ one

-- The loop of dnsLabel: `first` at the first byte.
abbrev pub is_label_letter : ℕ → Bool
is_label_letter c = leb b'a' c && leb c b'z' || leb b'0' c && leb c b'9'

abbrev pub is_last : Bytes → Bool
is_last [] = true
is_last (c ∷ s) = false

unfoldable pub label_letters : (first : Bool) → Bytes → Bool
label_letters first [] = true
label_letters first (c ∷ s) =
    (is_label_letter c || c == b'-' && not first && not (is_last s)) && label_letters false s

unfoldable pub dns_label : Bytes → Bool
dns_label s = if bytes_eq s [] || ltb 63 (length s) then false else label_letters true s

unfoldable pub all_labels : List Bytes → Bool
all_labels [] = true
all_labels (l ∷ ls) = dns_label l && all_labels ls

pub data Verdict : Type 0 where
  allowed : Verdict
  denied_for : (reason : Bytes) → Verdict

module _ (is_literal : Bytes → Bool) (to_ascii : Bytes → Option Bytes) where
  -- The last steps of canonicalHost, on the lower-case ASCII form.
  unfoldable pub valid_ascii : Bytes → Option Bytes
  valid_ascii a =
      if bytes_eq a [] || is_literal a then none else if all_labels (split a) then some a else none

  -- canonicalHost. Its test for a port is never reached with a colon.
  unfoldable pub canonical_host : Bytes → Option Bytes
  canonical_host raw =
      let s = trim_dot (trim_right (trim_left raw)) in
      if bytes_eq s [] || has_any (codes "/:@[] ") s || has_dots s
      then none
      else if is_literal s
      then none
      else elim (to_ascii s) [ none ↦ none | some a ↦ valid_ascii (to_lower a) ]

  -- The loop of parseAllowlist. The set of hosts is a list.
  unfoldable pub parse_hosts : List Bytes → Option (List Bytes)
  parse_hosts [] = some []
  parse_hosts (raw ∷ hosts) = elim (canonical_host raw) [
    | none ↦ none
    | some h ↦ elim (parse_hosts hosts) [ none ↦ none | some hs ↦ some (h ∷ hs) ]
  ]

  unfoldable pub parse_allowlist : List Bytes → Option (List Bytes)
  parse_allowlist [] = none
  parse_allowlist (raw ∷ hosts) = parse_hosts (raw ∷ hosts)

  -- checkURLScheme, for a lower-case scheme; a URL that is nil is none.
  unfoldable pub check_host_listed : List Bytes → Bytes → Verdict
  check_host_listed al host = elim (canonical_host host) [
    | none ↦ denied_for (codes "host")
    | some canon ↦ if is_one_of al canon then allowed else denied_for (codes "host")
  ]

  unfoldable pub check_url_scheme : Url → List Bytes → Bytes → Verdict
  check_url_scheme u al scheme =
      if bytes_eq u.scheme [] || bytes_eq u.host []
      then denied_for (codes "scheme")
      else if not (equal_fold u.scheme scheme)
      then denied_for (codes "scheme")
      else if u.has_user
      then denied_for (codes "userinfo")
      else if bytes_eq u.hostname []
      then denied_for (codes "host")
      else if has_any (codes "[") u.host || is_literal u.hostname
      then denied_for (codes "address")
      else if not (bytes_eq u.port []) && not (bytes_eq u.port (codes "443"))
      then denied_for (codes "port")
      else check_host_listed al u.hostname

  -- checkURL
  unfoldable pub check_url : Url → List Bytes → Verdict
  check_url u al = check_url_scheme u al (codes "https")
