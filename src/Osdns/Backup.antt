-- ===== src/Osdns/Backup.antt =====
-- The restore backup and the takeover's state, of src/osdns/macos.rs.
use dnsrivet.Prelude.{
  ℕ, Bool, true, false, not, ◌&&◌, ◌||◌, ◌==◌, Option, none, some, List, [], ◌∷◌, ok, err,
}
use dnsrivet.Prelude.Texts.{Text, eq_text, eq_texts}
use dnsrivet.Upstream.Net.{IpAddr, is_loopback}
use dnsrivet.Osdns.Addresses.{parse_dns_socket, contains_ip}

pub record ServiceDns : Type 0 where
  pub name : Text
  pub servers : List Text

pub record Backup : Type 0 where
  pub version : ℕ
  pub services : List ServiceDns
  pub fallback_servers : List Text
  -- `none` in a backup of an older version, whose addresses are unknown.
  pub takeover_servers : Option (List IpAddr)

pub data TakeoverState : Type 0 where
  not_taken_over : TakeoverState
  active : TakeoverState
  indeterminate : TakeoverState
  corrupted : TakeoverState

unfoldable pub classify : Bool → Bool → TakeoverState
classify false false = not_taken_over
classify true true = active
classify true false = indeterminate
classify false true = corrupted

unfoldable pub is_supported : Backup → Bool
is_supported b = b.version == 1 || b.version == 2

-- `services.iter().find(|service| service.name == name)`
unfoldable pub find_service : List ServiceDns → Text → Option ServiceDns
find_service [] name = none
find_service (s ∷ services) name =
    let rest = find_service services name in
    elim (eq_text s.name name) [ true ↦ some s | false ↦ rest ]

unfoldable pub has_service : List ServiceDns → Text → Bool
has_service [] name = false
has_service (s ∷ services) name = eq_text s.name name || has_service services name

-- `servers.iter().any(|value| parse_dns_socket(value).is_ok_and(…))`
unfoldable pub any_address : (Text → Option ℕ) → (IpAddr → Bool) → List Text → Bool
unfolding parse_dns_socket
any_address interface_index test [] = false
any_address interface_index test (value ∷ values) =
    (elim (parse_dns_socket interface_index value) [ ok a ↦ test a.ip | err _ ↦ false ])
    || any_address interface_index test values

restored_original : Option ServiceDns → List Text → Bool
restored_original none servers = false
restored_original (some s) servers = eq_texts s.servers servers

dns_may_depend_on : (Text → Option ℕ) → Option (List IpAddr) → Option ServiceDns → List Text → Bool
unfolding restored_original any_address
dns_may_depend_on interface_index (some takeovers) original servers =
    any_address interface_index (contains_ip takeovers) servers
dns_may_depend_on interface_index none original servers =
    not (restored_original original servers) && any_address interface_index is_loopback servers

unfoldable pub dns_may_depend_on_takeover : (Text → Option ℕ) → Backup → Text → List Text → Bool
unfolding dns_may_depend_on find_service
dns_may_depend_on_takeover interface_index b name servers =
    dns_may_depend_on interface_index b.takeover_servers (find_service b.services name) servers
