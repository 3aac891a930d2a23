-- ===== src/Upstream/Net.antt =====
-- Addresses as the upstream code uses them: `IpAddr` with its 32 or 128 bits as a number, and
-- `SocketAddr`.
use dnsrivet.Prelude.{
  ℕ, ◌/◌, ◌%◌, ◌≡◌, arith, Bool, true, false, ◌&&◌, ◌||◌, ◌==◌, if◌then◌else◌, List, [], ◌∷◌,
}

pub data IpAddr : Type 0 where
  v4 : ℕ → IpAddr
  v6 : ℕ → IpAddr

pub record SocketAddr : Type 0 where
  pub ip : IpAddr
  pub port : ℕ

abbrev pub is_ipv4 : IpAddr → Bool
is_ipv4 (v4 _) = true
is_ipv4 (v6 _) = false

abbrev pub is_ipv6 : IpAddr → Bool
is_ipv6 (v4 _) = false
is_ipv6 (v6 _) = true

-- `127.0.0.0/8` and `::1`
unfoldable pub is_loopback : IpAddr → Bool
is_loopback (v4 n) = n / 16777216 == 127
is_loopback (v6 n) = n == 1

unfoldable pub is_unspecified : IpAddr → Bool
is_unspecified (v4 n) = n == 0
is_unspecified (v6 n) = n == 0

-- `224.0.0.0/4` and `ff00::/8`
unfoldable pub is_multicast : IpAddr → Bool
is_multicast (v4 n) = n / 268435456 == 14
is_multicast (v6 n) = n / 1329227995784915872903807060280344576 == 255

-- An IPv4-mapped IPv6 address, `::ffff:a.b.c.d`, becomes the IPv4 address.
unfoldable pub to_canonical : IpAddr → IpAddr
to_canonical (v4 n) = v4 n
to_canonical (v6 n) = if n / 4294967296 == 65535 then v4 (n % 4294967296) else v6 n

unfoldable pub eq_ip : IpAddr → IpAddr → Bool
eq_ip (v4 a) (v4 b) = a == b
eq_ip (v6 a) (v6 b) = a == b
eq_ip _ _ = false

pub eq_ip_self : (a : IpAddr) → eq_ip a a ≡ true
unfolding eq_ip
eq_ip_self (v4 a) = ground arith
eq_ip_self (v6 a) = ground arith

pub eq_ip→eq : (a b : IpAddr) → eq_ip a b ≡ true → a ≡ b
unfolding eq_ip
eq_ip→eq (v4 a) (v4 b) h = ground arith
eq_ip→eq (v6 a) (v6 b) h = ground arith
eq_ip→eq (v4 a) (v6 b) h = absurd (ground arith)
eq_ip→eq (v6 a) (v4 b) h = absurd (ground arith)

-- `is_self_address` of src/upstream/mod.rs: a dial to it would come back to our own listener.
unfoldable pub is_self_address : SocketAddr → List SocketAddr → Bool
is_self_address addr [] = false
is_self_address addr (listener ∷ listeners) =
    (listener.port == addr.port
      && (eq_ip (to_canonical listener.ip) (to_canonical addr.ip)
          || is_loopback (to_canonical addr.ip)
          || is_unspecified (to_canonical addr.ip)))
    || is_self_address addr listeners
