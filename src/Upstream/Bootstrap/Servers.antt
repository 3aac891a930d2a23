-- ===== src/Upstream/Bootstrap/Servers.antt =====
-- src/upstream/bootstrap.rs: `lookup` over the bootstrap servers.
use dnsrivet.Prelude.{
  ℕ, min, Bool, true, false, Option, none, some, Result, ok, err, List, [], ◌∷◌, ◌++◌, ltb,
  if◌then◌else◌,
}
use dnsrivet.Upstream.Net.{IpAddr, SocketAddr, is_ipv4, is_ipv6, eq_ip}
use dnsrivet.Upstream.Bootstrap.{min_ttl_secs, max_ttl_secs, IpStack, both, only_v4, only_v6}

-- A stable sort by a Boolean key: first the addresses without it, then those with it.
unfoldable pub without : {A : Type 0} → (A → Bool) → List A → List A
without key [] = []
without key (x ∷ xs) = if key x then without key xs else x ∷ without key xs

unfoldable pub having : {A : Type 0} → (A → Bool) → List A → List A
having key [] = []
having key (x ∷ xs) = if key x then x ∷ having key xs else having key xs

unfoldable pub sort_by_key : {A : Type 0} → (A → Bool) → List A → List A
sort_by_key key xs = without key xs ++ having key xs

-- `Vec::dedup`: of equal neighbours the first stays.
unfoldable pub dedup_after : IpAddr → List IpAddr → List IpAddr
dedup_after last [] = []
dedup_after last (x ∷ xs) = if eq_ip last x then dedup_after last xs else x ∷ dedup_after x xs

unfoldable pub dedup : List IpAddr → List IpAddr
dedup [] = []
dedup (x ∷ xs) = x ∷ dedup_after x xs

unfoldable pub server_key : IpStack → SocketAddr → Bool
server_key only_v4 server = is_ipv6 server.ip
server_key only_v6 server = is_ipv4 server.ip
server_key both server = false

unfoldable pub ordered_servers : List SocketAddr → IpStack → List SocketAddr
ordered_servers servers stack = sort_by_key (server_key stack) servers

pub data RecordType : Type 0 where
  a aaaa : RecordType

abbrev pub want_a : IpStack → Bool
want_a only_v6 = false
want_a _ = true

abbrev pub want_aaaa : IpStack → Bool
want_aaaa only_v4 = false
want_aaaa _ = true

-- `ttl.clamp(MIN_TTL_SECS, MAX_TTL_SECS)`
unfoldable pub clamp_ttl : ℕ → ℕ
clamp_ttl n =
    if ltb n min_ttl_secs then min_ttl_secs else if ltb max_ttl_secs n then max_ttl_secs else n

-- The loop over the results of one server: addresses, least TTL and last error so far.
pub record Gathered (E : Type 0) : Type 0 where
  pub ips : List IpAddr
  pub min_ttl : ℕ
  pub last_err : E

module _ {E : Type 0} where
  unfoldable pub gather : Option (Result (List IpAddr × ℕ) E) → Gathered E → Gathered E
  gather none g = g
  gather (some (ok (got, ttl))) g = record g { ips = g.ips ++ got; min_ttl = min g.min_ttl ttl }
  gather (some (err e)) g = record g { last_err = e }

  -- `query_if`; the query itself is the argument `query`.
  abbrev pub query_if :
      (SocketAddr → RecordType → Result (List IpAddr × ℕ) E)
      → Bool
      → SocketAddr
      → RecordType
      → Option (Result (List IpAddr × ℕ) E)
  query_if query true server rtype = some (query server rtype)
  query_if query false server rtype = none

  unfoldable pub ask_server :
      (SocketAddr → RecordType → Result (List IpAddr × ℕ) E) → IpStack → SocketAddr → E → Gathered E
  ask_server query stack server last_err = gather (query_if query (want_aaaa stack) server aaaa) (
      gather (query_if query (want_a stack) server a)
        (record { ips = []; min_ttl = max_ttl_secs; last_err = last_err }))

  unfoldable pub lookup_result : Gathered E → Result (List IpAddr × ℕ) E
  lookup_result g = ok (dedup (sort_by_key is_ipv6 g.ips), clamp_ttl g.min_ttl)

  -- The loop of `lookup` over the ordered servers.
  unfoldable pub lookup_loop :
      (SocketAddr → RecordType → Result (List IpAddr × ℕ) E)
      → IpStack
      → List SocketAddr
      → E
      → Result (List IpAddr × ℕ) E
  lookup_loop query stack [] last_err = err last_err
  lookup_loop query stack (server ∷ servers) last_err =
      let g = ask_server query stack server last_err in
      let rest = lookup_loop query stack servers g.last_err in
      elim g.ips [ [] ↦ rest | _ ∷ _ ↦ lookup_result g ]

  -- `lookup`, for a name that parses; the argument `no_servers` is the error "no bootstrap servers".
  unfoldable pub lookup :
      (SocketAddr → RecordType → Result (List IpAddr × ℕ) E)
      → List SocketAddr
      → IpStack
      → E
      → Result (List IpAddr × ℕ) E
  lookup query servers stack no_servers =
      lookup_loop query stack (ordered_servers servers stack) no_servers
