-- ===== src/Osdns/Addresses.antt =====
-- DNS server addresses as src/osdns/macos.rs reads, prints and filters them. A `SocketAddr` has
-- here the scope of an IPv6 address too. The index of a network interface comes from the `nix`
-- crate and is an argument.
pub mod Filter
use dnsrivet.Prelude.{
  ℕ, Bool, true, false, not, ◌&&◌, ◌||◌, ◌==◌, Option, none, some, List, [], ◌∷◌, ◌++◌, Result, ok,
  err, map, if◌then◌else◌,
}
use dnsrivet.Prelude.Texts.{Text, codes, trim, rsplit_once, parse_unsigned, is_empty}
use dnsrivet.Upstream.Net.{IpAddr, v4, v6, is_loopback, is_unspecified, is_multicast, eq_ip}
use dnsrivet.Osdns.IpText.{parse_ip, parse_v6, show_ip, show_unsigned}

pub record DnsAddr : Type 0 where
  pub ip : IpAddr
  pub port : ℕ
  pub scope : ℕ

abbrev pub on_port_53 : IpAddr → ℕ → DnsAddr
on_port_53 a scope = record { ip = a; port = 53; scope = scope }

unfoldable pub eq_dns_addr : DnsAddr → DnsAddr → Bool
unfolding eq_ip
eq_dns_addr a b = eq_ip a.ip b.ip && a.port == b.port && a.scope == b.scope

pub data AddressError : Type 0 where
  invalid_address : Text → AddressError
  invalid_ipv6 : Text → AddressError
  unknown_interface : Text → AddressError

-- `scope.parse::<u32>().or_else(|_| if_nametoindex(scope))`
unfoldable pub scope_id : (Text → Option ℕ) → Text → Option ℕ
scope_id interface_index scope = elim (parse_unsigned 4294967296 scope) [
  | some n ↦ some n
  | none ↦ interface_index scope
]

-- `parse_dns_socket` after the trim.
unfoldable pub scoped_socket : (Text → Option ℕ) → Text → Result DnsAddr AddressError
unfolding scope_id
scoped_socket interface_index value = elim (rsplit_once b'%' value) [
  | none ↦ err (invalid_address value)
  | some (address, scope) ↦ elim (parse_v6 address) [
    | none ↦ err (invalid_ipv6 value)
    | some n ↦ elim (scope_id interface_index scope) [
      | none ↦ err (unknown_interface scope)
      | some id ↦ ok (on_port_53 (v6 n) id)
    ]
  ]
]

unfoldable pub parse_dns_socket : (Text → Option ℕ) → Text → Result DnsAddr AddressError
unfolding scoped_socket
parse_dns_socket interface_index value = elim (parse_ip (trim value)) [
  | some a ↦ ok (on_port_53 a 0)
  | none ↦ scoped_socket interface_index (trim value)
]

unfoldable pub serialize_ip : IpAddr → ℕ → Text
serialize_ip (v4 n) scope = show_ip (v4 n)
serialize_ip (v6 n) scope =
    if scope == 0 then show_ip (v6 n) else show_ip (v6 n) ++ (codes "%" ++ show_unsigned 10 scope)

unfoldable pub serialize_dns_socket : DnsAddr → Text
unfolding serialize_ip
serialize_dns_socket a = serialize_ip a.ip a.scope

unfoldable pub contains_ip : List IpAddr → IpAddr → Bool
contains_ip [] a = false
contains_ip (b ∷ ips) a = eq_ip b a || contains_ip ips a

unfoldable pub contains_addr : List DnsAddr → DnsAddr → Bool
contains_addr [] a = false
contains_addr (b ∷ addrs) a = eq_dns_addr b a || contains_addr addrs a

-- The tests of `filter_fallback_servers` on the address itself.
unfoldable pub is_usable : List IpAddr → IpAddr → Bool
unfolding contains_ip
is_usable denied a =
    not (is_loopback a)
    && not (is_unspecified a)
    && not (is_multicast a)
    && not (contains_ip denied a)

-- `retain` with the set of the addresses seen before.
unfoldable pub retain_usable : List IpAddr → List DnsAddr → List DnsAddr → List DnsAddr
retain_usable denied seen [] = []
retain_usable denied seen (a ∷ servers) =
    elim (is_usable denied a.ip && not (contains_addr seen a)) [
      | true ↦ a ∷ retain_usable denied (a ∷ seen) servers
      | false ↦ retain_usable denied seen servers
    ]

unfoldable pub filter_fallback_servers : List DnsAddr → List IpAddr → List DnsAddr
unfolding retain_usable
filter_fallback_servers servers denied = retain_usable denied [] servers

pub data CaptureError (E : Type 0) : Type 0 where
  unreadable : E → CaptureError E
  no_usable_server : CaptureError E

abbrev non_empty : {E : Type 0} → List DnsAddr → Result (List DnsAddr) (CaptureError E)
non_empty [] = err no_usable_server
non_empty (a ∷ usable) = ok (a ∷ usable)

unfoldable pub usable_runtime_fallback :
    {E : Type 0} → List DnsAddr → IpAddr → Result (List DnsAddr) (CaptureError E)
unfolding filter_fallback_servers
usable_runtime_fallback current server = non_empty (filter_fallback_servers current (server ∷ []))

-- The parts of `current_loopback_dns` that follow the reading of the servers.
unfoldable pub loopbacks : List DnsAddr → List DnsAddr → List DnsAddr
unfolding contains_addr
loopbacks seen [] = []
loopbacks seen (a ∷ servers) = elim (is_loopback a.ip && not (contains_addr seen a)) [
  | true ↦ a ∷ loopbacks (a ∷ seen) servers
  | false ↦ loopbacks seen servers
]

-- `filter_map(|value| parse_dns_socket(value).ok())`
unfoldable pub parsed_sockets : (Text → Option ℕ) → List Text → List DnsAddr
unfolding parse_dns_socket
parsed_sockets interface_index [] = []
parsed_sockets interface_index (value ∷ values) = elim (parse_dns_socket interface_index value) [
  | ok a ↦ a ∷ parsed_sockets interface_index values
  | err e ↦ parsed_sockets interface_index values
]
