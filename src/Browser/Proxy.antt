-- ===== src/Browser/Proxy.antt =====
-- internal/core/browser: checkResolvedIP and cgnat of allowlist.go, checkHost and dialChecked of
-- ssrf.go. An address is a net.IP, the empty one nil. Whether a host is a literal address (net.ParseIP),
-- what each lookup returns, and whether a dial succeeds are arguments.
use control_center.Common.{
  ℕ, ◌/◌, ◌%◌, Bool, true, false, not, ◌&&◌, ◌||◌, Option, none, some, List, [], ◌∷◌, if◌then◌else◌,
  ◌==◌, leb, Bytes, codes, bytes_eq,
}

abbrev pub Ip : Type 0
Ip = List ℕ

-- net.IP.To4: four bytes, or sixteen that map four.
unfoldable pub to4 : Ip → Option Ip
to4 (a ∷ b ∷ c ∷ d ∷ []) = some (a ∷ b ∷ c ∷ d ∷ [])
to4 (i ∷ j ∷ k ∷ l ∷ m ∷ n ∷ o ∷ p ∷ q ∷ r ∷ s ∷ t ∷ a ∷ b ∷ c ∷ d ∷ []) =
    if bytes_eq (i ∷ j ∷ k ∷ l ∷ m ∷ n ∷ o ∷ p ∷ q ∷ r ∷ s ∷ t ∷ [])
      (0 ∷ 0 ∷ 0 ∷ 0 ∷ 0 ∷ 0 ∷ 0 ∷ 0 ∷ 0 ∷ 0 ∷ 255 ∷ 255 ∷ [])
    then some (a ∷ b ∷ c ∷ d ∷ [])
    else none
to4 _ = none

-- The tests of net.IP on four bytes, and cgnat.
abbrev pub is_local4 : Ip → Bool
is_local4 (a ∷ b ∷ c ∷ d ∷ []) =
    a == 127
    || (a == 10 || a == 172 && b / 16 == 1 || a == 192 && b == 168)
    || a == 169 && b == 254
    || a == 224 && b == 0 && c == 0
    || a == 0 && b == 0 && c == 0 && d == 0
    || a == 100 && leb 64 b && leb b 127
is_local4 _ = false

-- The tests of net.IP on an address that maps no four bytes.
abbrev pub is_local6 : Ip → Bool
is_local6 (a ∷ b ∷ c ∷ d ∷ e ∷ f ∷ g ∷ h ∷ i ∷ j ∷ k ∷ l ∷ m ∷ n ∷ o ∷ p ∷ []) =
    bytes_eq (a ∷ b ∷ c ∷ d ∷ e ∷ f ∷ g ∷ h ∷ i ∷ j ∷ k ∷ l ∷ m ∷ n ∷ o ∷ p ∷ [])
      (0 ∷ 0 ∷ 0 ∷ 0 ∷ 0 ∷ 0 ∷ 0 ∷ 0 ∷ 0 ∷ 0 ∷ 0 ∷ 0 ∷ 0 ∷ 0 ∷ 0 ∷ 1 ∷ [])
    || a / 2 == 126
    || a == 254 && b / 64 == 2
    || a == 255 && b % 16 == 2
    || bytes_eq (a ∷ b ∷ c ∷ d ∷ e ∷ f ∷ g ∷ h ∷ i ∷ j ∷ k ∷ l ∷ m ∷ n ∷ o ∷ p ∷ [])
        (0 ∷ 0 ∷ 0 ∷ 0 ∷ 0 ∷ 0 ∷ 0 ∷ 0 ∷ 0 ∷ 0 ∷ 0 ∷ 0 ∷ 0 ∷ 0 ∷ 0 ∷ 0 ∷ [])
is_local6 _ = false

unfoldable pub check_resolved_ip : Ip → Bool
check_resolved_ip [] = false
check_resolved_ip (a ∷ ip) = elim (to4 (a ∷ ip)) [
  | some ip4 ↦ not (is_local4 ip4)
  | none ↦ not (is_local6 (a ∷ ip))
]

unfoldable pub all_checked : List Ip → Bool
all_checked [] = true
all_checked (ip ∷ ips) = check_resolved_ip ip && all_checked ips

-- checkHost, with its own lookup.
unfoldable pub check_host : (is_literal : Bytes → Bool) → Bytes → Option (List Ip) → Bool
check_host is_literal [] found = false
check_host is_literal (c ∷ host) none = false
check_host is_literal (c ∷ host) (some []) = false
check_host is_literal (c ∷ host) (some (ip ∷ ips)) =
    not (is_literal (c ∷ host)) && all_checked (ip ∷ ips)

pub data Dialed : Type 0 where
  connected : Ip → Dialed
  denied : Dialed
  dial_failed : Dialed

-- The loop over the addresses: the first that can be dialed.
unfoldable pub dial_first : (Ip → Bool) → List Ip → Dialed
dial_first dial [] = dial_failed
dial_first dial (ip ∷ ips) =
    let rest = dial_first dial ips in if dial ip then connected ip else rest

-- dialChecked: `checked` is what the lookup of checkHost returns, `found` the second lookup.
unfoldable pub dial_checked :
    (is_literal : Bytes → Bool)
    → (Ip → Bool)
    → (host port : Bytes) → (checked found : Option (List Ip)) → Dialed
dial_checked is_literal dial host port checked found =
    if not (bytes_eq port (codes "443"))
    then denied
    else if not (check_host is_literal host checked)
    then denied
    else elim found [ none ↦ denied | some ips ↦ dial_first dial ips ]
