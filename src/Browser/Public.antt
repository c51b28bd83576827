-- ===== src/Browser/Public.antt =====
-- dialChecked of internal/core/browser/ssrf.go: which addresses are reached.
use control_center.Common.{
  ℕ, ◌+◌, ◌*◌, ◌/◌, ◌≤◌, ◌<◌, ◌≡◌, ◌≢◌, ◌%◌, ◌⊎◌, inl, inr, Bool, true, false, ◌&&◌, some, List, [],
  ◌∷◌, arith, ◌==◌, leb, Bool-cases, Bytes, codes, bytes_eq, bytes_eq_iff, All, Has,
}
use control_center.Browser.Proxy.{
  Ip, to4, is_local4, is_local6, check_resolved_ip, all_checked, check_host, connected, dial_first,
  dial_checked,
}

-- A block of IPv4 addresses, as its first address and how many follow from it.
abbrev pub local_blocks : List (ℕ × ℕ)
local_blocks =
    (2130706432, 16777216)  -- 127.0.0.0/8
    ∷ (167772160, 16777216)  -- 10.0.0.0/8
    ∷ (2886729728, 1048576)  -- 172.16.0.0/12
    ∷ (3232235520, 65536)  -- 192.168.0.0/16
    ∷ (2851995648, 65536)  -- 169.254.0.0/16
    ∷ (3758096384, 256)  -- 224.0.0.0/24
    ∷ (1681915904, 4194304)  -- 100.64.0.0/10
    ∷ (0, 1)  -- 0.0.0.0/32
    ∷ []

abbrev pub value4 : ℕ → ℕ → ℕ → ℕ → ℕ
value4 a b c d = a * 16777216 + b * 65536 + c * 256 + d

abbrev pub IsOutside : ℕ → ℕ × ℕ → Type 0
IsOutside n (first, size) = (n < first) ⊎ (first + size ≤ n)

local4-IsOutside :
    (a b c d : ℕ)
    → a < 256
    → b < 256
    → c < 256
    → d < 256
    → is_local4 (a ∷ b ∷ c ∷ d ∷ []) ≡ false
    → All (IsOutside (value4 a b c d)) local_blocks
local4-IsOutside a b c d ha hb hc hd h =
    let loopback : (a == 127) ≡ false = ground arith in
    let ten : (a == 10) ≡ false = ground arith in
    let twelve : (a == 172 && b / 16 == 1) ≡ false = ground arith in
    let sixteen : (a == 192 && b == 168) ≡ false = ground arith in
    let link : (a == 169 && b == 254) ≡ false = ground arith in
    let multicast : (a == 224 && b == 0 && c == 0) ≡ false = ground arith in
    let shared : (a == 100 && leb 64 b && leb b 127) ≡ false = ground arith in
    let unspecified : (a == 0 && b == 0 && c == 0 && d == 0) ≡ false = ground arith in
    (
      ground arith,
      (
        ground arith,
        (
          ground arith,
          (ground arith, (ground arith, (ground arith, (ground arith, (ground arith, tt))))),
        ),
      ),
    )

Has-dial_first :
    (dial : Ip → Bool) (ips : List Ip) (ip : Ip) → dial_first dial ips ≡ connected ip → Has ip ips
unfolding dial_first
Has-dial_first dial [] ip h = absurd (ground arith)
Has-dial_first dial (x ∷ ips) ip h = elim (Bool-cases (dial x)) [
  | inl q ↦ inl (ground (arith, q))
  | inr q ↦ inr (Has-dial_first dial ips ip (ground (arith, q)))
]

all_checked-Has :
    (ips : List Ip) (ip : Ip) → all_checked ips ≡ true → Has ip ips → check_resolved_ip ip ≡ true
unfolding all_checked
all_checked-Has [] ip h m = absurd m
all_checked-Has (x ∷ ips) ip h (inl q) = ground (arith, q)
all_checked-Has (x ∷ ips) ip h (inr m) = all_checked-Has ips ip (ground arith) m

accepted-IsOutside :
    (a b c d : ℕ)
    → a < 256
    → b < 256
    → c < 256
    → d < 256
    → check_resolved_ip (a ∷ b ∷ c ∷ d ∷ []) ≡ true
    → All (IsOutside (value4 a b c d)) local_blocks
unfolding check_resolved_ip to4
accepted-IsOutside a b c d ha hb hc hd h = local4-IsOutside a b c d ha hb hc hd (ground arith)

check_host-inv :
    (is_literal : Bytes → Bool) (host : Bytes) (ips : List Ip)
    → check_host is_literal host (some ips) ≡ true
    → (is_literal host ≡ false) × (all_checked ips ≡ true)
unfolding check_host
check_host-inv is_literal [] ips h = absurd (ground arith)
check_host-inv is_literal (c ∷ host) [] h = absurd (ground arith)
check_host-inv is_literal (c ∷ host) (ip ∷ ips) h = (ground arith, ground arith)

dialed-inv :
    (is_literal : Bytes → Bool) (dial : Ip → Bool) (host port : Bytes) (ips : List Ip) (ip : Ip)
    → dial_checked is_literal dial host port (some ips) (some ips) ≡ connected ip
    → (port ≡ codes "443") × (is_literal host ≡ false) × Has ip ips × (check_resolved_ip ip ≡ true)
unfolding dial_checked check_host
dialed-inv is_literal dial host port ips ip h = elim (Bool-cases (bytes_eq port (codes "443"))) [
  | inr q ↦ absurd (ground (arith, q))
  | inl q ↦ elim (Bool-cases (check_host is_literal host (some ips))) [
    | inr k ↦ absurd (ground (arith, q, k))
    | inl k ↦
        let m = Has-dial_first dial ips ip (ground (arith, q, k)) in
        let (l, all) = check_host-inv is_literal host ips k in
        ((bytes_eq_iff port (codes "443")).0 q, l, m, all_checked-Has ips ip all m)
  ]
]

-- What a lookup returns: four bytes, or sixteen.
pub data IsIp : Ip → Type 0 where
  four : (a b c d : ℕ) → All (λ x. x < 256) (a ∷ b ∷ c ∷ d ∷ []) → IsIp (a ∷ b ∷ c ∷ d ∷ [])
  sixteen :
      (i j k l m n o p q r s t a b c d : ℕ)
      → All (λ x. x < 256) (i ∷ j ∷ k ∷ l ∷ m ∷ n ∷ o ∷ p ∷ q ∷ r ∷ s ∷ t ∷ a ∷ b ∷ c ∷ d ∷ [])
      → IsIp (i ∷ j ∷ k ∷ l ∷ m ∷ n ∷ o ∷ p ∷ q ∷ r ∷ s ∷ t ∷ a ∷ b ∷ c ∷ d ∷ [])

abbrev pub IsGlobal4 : ℕ → ℕ → ℕ → ℕ → Type 0
IsGlobal4 a b c d = All (IsOutside (value4 a b c d)) local_blocks

-- The first twelve bytes of ::ffff:a.b.c.d.
abbrev pub mapped : List ℕ
mapped = 0 ∷ 0 ∷ 0 ∷ 0 ∷ 0 ∷ 0 ∷ 0 ∷ 0 ∷ 0 ∷ 0 ∷ 255 ∷ 255 ∷ []

-- By the first two bytes.
abbrev pub local_groups : List (ℕ × ℕ)
local_groups =
    (64512, 512)  -- fc00::/7
    ∷ (65152, 64)  -- fe80::/10
    ∷ []

abbrev pub loopback6 : Ip
loopback6 = 0 ∷ 0 ∷ 0 ∷ 0 ∷ 0 ∷ 0 ∷ 0 ∷ 0 ∷ 0 ∷ 0 ∷ 0 ∷ 0 ∷ 0 ∷ 0 ∷ 0 ∷ 1 ∷ []

abbrev pub unspecified6 : Ip
unspecified6 = 0 ∷ 0 ∷ 0 ∷ 0 ∷ 0 ∷ 0 ∷ 0 ∷ 0 ∷ 0 ∷ 0 ∷ 0 ∷ 0 ∷ 0 ∷ 0 ∷ 0 ∷ 0 ∷ []

-- Multicast of the link's scope is ff02, ff12, and so on to fff2.
abbrev pub IsGlobal6 : ℕ → ℕ → Ip → Type 0
IsGlobal6 i j ip =
    (ip ≢ loopback6)
    × (ip ≢ unspecified6)
    × All (IsOutside (i * 256 + j)) local_groups
    × ¬ ((i ≡ 255) × (j % 16 ≡ 2))

-- In no local block of its family, where sixteen bytes that map an IPv4 address are read as that address.
abbrev pub IsGlobal : Ip → Type 0
IsGlobal (a ∷ b ∷ c ∷ d ∷ []) = IsGlobal4 a b c d
IsGlobal (i ∷ j ∷ k ∷ l ∷ m ∷ n ∷ o ∷ p ∷ q ∷ r ∷ s ∷ t ∷ a ∷ b ∷ c ∷ d ∷ []) =
    ((i ∷ j ∷ k ∷ l ∷ m ∷ n ∷ o ∷ p ∷ q ∷ r ∷ s ∷ t ∷ [] ≡ mapped) × IsGlobal4 a b c d)
    ⊎ ((i ∷ j ∷ k ∷ l ∷ m ∷ n ∷ o ∷ p ∷ q ∷ r ∷ s ∷ t ∷ [] ≢ mapped)
        × IsGlobal6 i j (i ∷ j ∷ k ∷ l ∷ m ∷ n ∷ o ∷ p ∷ q ∷ r ∷ s ∷ t ∷ a ∷ b ∷ c ∷ d ∷ []))
IsGlobal _ = ⊥

bytes_ne : (x y : Bytes) → bytes_eq x y ≡ false → x ≢ y
bytes_ne x y h e = ground (arith, (bytes_eq_iff x y).1 e)

local6-IsGlobal6 :
    (i j k l m n o p q r s t a b c d : ℕ)
    → j < 256
    → is_local6 (i ∷ j ∷ k ∷ l ∷ m ∷ n ∷ o ∷ p ∷ q ∷ r ∷ s ∷ t ∷ a ∷ b ∷ c ∷ d ∷ []) ≡ false
    → IsGlobal6 i j (i ∷ j ∷ k ∷ l ∷ m ∷ n ∷ o ∷ p ∷ q ∷ r ∷ s ∷ t ∷ a ∷ b ∷ c ∷ d ∷ [])
local6-IsGlobal6 i j k l m n o p q r s t a b c d hj h =
    let one : bytes_eq (i ∷ j ∷ k ∷ l ∷ m ∷ n ∷ o ∷ p ∷ q ∷ r ∷ s ∷ t ∷ a ∷ b ∷ c ∷ d ∷ [])
          loopback6
        ≡ false =
      ground arith in
    let none' : bytes_eq (i ∷ j ∷ k ∷ l ∷ m ∷ n ∷ o ∷ p ∷ q ∷ r ∷ s ∷ t ∷ a ∷ b ∷ c ∷ d ∷ [])
          unspecified6
        ≡ false =
      ground arith in
    let private : (i / 2 == 126) ≡ false = ground arith in
    let link : (i == 254 && j / 64 == 2) ≡ false = ground arith in
    let multicast : (i == 255 && j % 16 == 2) ≡ false = ground arith in
    (
      bytes_ne (i ∷ j ∷ k ∷ l ∷ m ∷ n ∷ o ∷ p ∷ q ∷ r ∷ s ∷ t ∷ a ∷ b ∷ c ∷ d ∷ []) loopback6 one,
      bytes_ne (i ∷ j ∷ k ∷ l ∷ m ∷ n ∷ o ∷ p ∷ q ∷ r ∷ s ∷ t ∷ a ∷ b ∷ c ∷ d ∷ []) unspecified6
          none',
      (ground arith, (ground arith, tt)),
      (λ e. ground arith),
    )

accepted16 :
    (i j k l m n o p q r s t a b c d : ℕ)
    → All (λ x. x < 256) (i ∷ j ∷ k ∷ l ∷ m ∷ n ∷ o ∷ p ∷ q ∷ r ∷ s ∷ t ∷ a ∷ b ∷ c ∷ d ∷ [])
    → check_resolved_ip (i ∷ j ∷ k ∷ l ∷ m ∷ n ∷ o ∷ p ∷ q ∷ r ∷ s ∷ t ∷ a ∷ b ∷ c ∷ d ∷ []) ≡ true
    → IsGlobal (i ∷ j ∷ k ∷ l ∷ m ∷ n ∷ o ∷ p ∷ q ∷ r ∷ s ∷ t ∷ a ∷ b ∷ c ∷ d ∷ [])
unfolding check_resolved_ip to4
accepted16 i j k l m n o p q r s t a b c d
      (_, (hj, (_, (_, (_, (_, (_, (_, (_, (_, (_, (_, (ha, (hb, (hc, (hd, _)))))))))))))))) h =
    elim (Bool-cases (bytes_eq (i ∷ j ∷ k ∷ l ∷ m ∷ n ∷ o ∷ p ∷ q ∷ r ∷ s ∷ t ∷ []) mapped)) [
      | inl e ↦ inl (
        (bytes_eq_iff (i ∷ j ∷ k ∷ l ∷ m ∷ n ∷ o ∷ p ∷ q ∷ r ∷ s ∷ t ∷ []) mapped).0 e,
        local4-IsOutside a b c d ha hb hc hd (ground (arith, e)),
      )
      | inr e ↦ inr (
        bytes_ne (i ∷ j ∷ k ∷ l ∷ m ∷ n ∷ o ∷ p ∷ q ∷ r ∷ s ∷ t ∷ []) mapped e,
        local6-IsGlobal6 i j k l m n o p q r s t a b c d hj (ground (arith, e)),
      )
    ]

accepted-IsGlobal : (ip : Ip) → IsIp ip → check_resolved_ip ip ≡ true → IsGlobal ip
accepted-IsGlobal _ (four a b c d (ha, (hb, (hc, (hd, _))))) k =
    accepted-IsOutside a b c d ha hb hc hd k
accepted-IsGlobal _ (sixteen i j k l m n o p q r s t a b c d small) h =
    accepted16 i j k l m n o p q r s t a b c d small h

-- Where a name resolves to the same addresses both times, a connection of the proxy is to one of them,
-- on port 443, for a host that is no literal address. If it is an IPv4 address, or sixteen bytes that
-- map one, it is in none of the loopback, private, link-local, shared and unspecified IPv4 blocks; any
-- other IPv6 address is not the loopback or the unspecified one and in none of the unique local,
-- link-local and link-scope multicast blocks.
pub dial_checked_public :
    (is_literal : Bytes → Bool) (dial : Ip → Bool) (host port : Bytes) (ips : List Ip) (ip : Ip)
    → IsIp ip
    → dial_checked is_literal dial host port (some ips) (some ips) ≡ connected ip
    → (port ≡ codes "443") × (is_literal host ≡ false) × Has ip ips × IsGlobal ip
dial_checked_public is_literal dial host port ips ip v h =
    let (p, l, m, k) = dialed-inv is_literal dial host port ips ip h in
    (p, l, m, accepted-IsGlobal ip v k)
