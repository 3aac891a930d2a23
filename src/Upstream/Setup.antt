-- ===== src/Upstream/Setup.antt =====
-- src/upstream/mod.rs: `Manager::new`. The channels of encrypted upstreams and the TLS configuration
-- are set up by other code.
pub mod Endpoints
use dnsrivet.Prelude.{
  ℕ, Bool, true, false, Option, none, some, Result, ok, err, and_then, List, [], ◌∷◌, if◌then◌else◌,
  map_or,
}
use dnsrivet.Upstream.Net.{IpAddr, SocketAddr, is_self_address}
use dnsrivet.Upstream.Manager.{Manager, Backend, legacy, encrypted, Entry}

-- What `new` reads of a configured upstream; `is_legacy` is `proto == Proto::Legacy`.
pub record Upstream : Type 0 where
  pub is_legacy : Bool
  pub port : ℕ
  pub bootstrap_ip : Option IpAddr
  pub timeout_ms : ℕ

unfoldable pub static_self : Upstream → List SocketAddr → Option SocketAddr
static_self up listeners = elim up.bootstrap_ip [
  | none ↦ none
  | some ip ↦
      if is_self_address (record { ip = ip; port = up.port }) listeners
      then some (record { ip = ip; port = up.port })
      else none
]

unfoldable pub new_entry : Upstream → List SocketAddr → Entry
new_entry up listeners = record {
  timeout_ms = up.timeout_ms;
  backend = if up.is_legacy then legacy up.port up.bootstrap_ip listeners else encrypted;
}

-- The loop; the error is the first endpoint that is our own listener.
unfoldable pub new_entries : List Upstream → List SocketAddr → Result (List Entry) SocketAddr
new_entries [] listeners = ok []
new_entries (up ∷ ups) listeners =
    let rest = new_entries ups listeners in
    elim (static_self up listeners) [
      | some addr ↦ err addr
      | none ↦ elim rest [ ok entries ↦ ok (new_entry up listeners ∷ entries) | err e ↦ err e ]
    ]

unfoldable pub new_manager :
    List Upstream → List SocketAddr → List SocketAddr → Result (List Entry × Manager) SocketAddr
new_manager all listeners system_fallback = elim (new_entries all listeners) [
  | err e ↦ err e
  | ok entries ↦ ok (
    entries,
    record { system_fallback = system_fallback; fallback_active = false; fallback_failed = false },
  )
]
