-- ===== src/Browser/Tests.antt =====
-- Runs of the model of the proxy at concrete inputs.
use control_center.Common.{
  length, ◌==◌, ◌≡◌, refl, Bool, true, false, some, [], ◌∷◌, arith, Bytes, codes, bytes_eq,
  strip_prefix, Option, ◌⊎◌, Has,
}
use control_center.Events.Pattern.{split}
use control_center.Storage.Authorizing.{equal_fold, after_fold}
use control_center.Browser.Allowlist.{
  Url, is_one_of, all_space, trim_left, trim_right, trim_dot, is_member, has_any, has_dots,
  to_lower, label_letters, dns_label, all_labels, valid_ascii, canonical_host, parse_hosts,
  parse_allowlist, check_host_listed, check_url_scheme,
}
use control_center.Browser.Reach.{IsListed, allowed_reach}
use control_center.Browser.Proxy.{
  Ip, to4, check_resolved_ip, all_checked, check_host, dial_first, dial_checked,
}
use control_center.Browser.Public.{IsIp, sixteen, IsGlobal, dial_checked_public}

abbrev never : Bytes → Bool
never host = false

abbrev sixteen_only : Ip → Bool
sixteen_only ip = length ip == 16

abbrev public_ip : Ip
public_ip = 93 ∷ 184 ∷ 216 ∷ 34 ∷ []

-- ::ffff:93.184.216.34
abbrev mapped_ip : Ip
mapped_ip = 0 ∷ 0 ∷ 0 ∷ 0 ∷ 0 ∷ 0 ∷ 0 ∷ 0 ∷ 0 ∷ 0 ∷ 255 ∷ 255 ∷ 93 ∷ 184 ∷ 216 ∷ 34 ∷ []

mapped_ip-IsIp : IsIp mapped_ip
mapped_ip-IsIp = sixteen 0 0 0 0 0 0 0 0 0 0 255 255 93 184 216 34 (
  omega arith,
  (
    omega arith,
    (
      omega arith,
      (
        omega arith,
        (
          omega arith,
          (
            omega arith,
            (
              omega arith,
              (
                omega arith,
                (
                  omega arith,
                  (
                    omega arith,
                    (
                      omega arith,
                      (omega arith, (omega arith, (omega arith, (omega arith, (omega arith, tt))))),
                    ),
                  ),
                ),
              ),
            ),
          ),
        ),
      ),
    ),
  ),
)

dial_checked_public_example :
    (codes "443" ≡ codes "443")
    × (never (codes "example.org") ≡ false)
    × Has mapped_ip (public_ip ∷ mapped_ip ∷ [])
    × IsGlobal mapped_ip
unfolding dial_checked bytes_eq check_host all_checked check_resolved_ip to4 dial_first
dial_checked_public_example =
    dial_checked_public never sixteen_only (codes "example.org") (codes "443")
      (public_ip ∷ mapped_ip ∷ []) mapped_ip mapped_ip-IsIp refl

abbrev as_is : Bytes → Option Bytes
as_is s = some s

abbrev page : Url
page = record {
  scheme = codes "HTTPS";
  host = codes "www.example.org:443";
  has_user = false;
  hostname = codes "www.example.org";
  port = codes "443";
}

-- The entry has spaces, capitals and a final dot.
abbrev entry : Bytes
entry = codes " WWW.Example.org. "

abbrev listed_host : Bytes
listed_host = codes "www.example.org"

allowed_reach_example :
    (equal_fold (codes "HTTPS") (codes "https") ≡ true)
    × (false ≡ false)
    × (never listed_host ≡ false)
    × ((codes "443" ≡ []) ⊎ (codes "443" ≡ codes "443"))
    × ((h : Bytes) × (canonical_host never as_is listed_host ≡ some h)
        × IsListed never as_is (entry ∷ []) h
        × (all_labels (split h) ≡ true)
        × (never h ≡ false))
unfolding parse_allowlist parse_hosts canonical_host bytes_eq trim_dot trim_right trim_left
    is_one_of all_space has_any is_member has_dots strip_prefix valid_ascii to_lower all_labels
    split dns_label label_letters check_url_scheme equal_fold after_fold check_host_listed
allowed_reach_example =
    allowed_reach never as_is (entry ∷ []) (listed_host ∷ []) page (codes "https") refl refl
