-- ===== src/Osdns/Takeover.antt =====
-- `take_over` and its rollback, of src/osdns/macos.rs.
pub mod Rollback
pub mod Switch
pub mod Snapshot
pub mod Outcome
pub mod Apply
pub mod Ends
pub mod Success
use mathlib.Core.List.{reverse}
use dnsrivet.Prelude.{
  ℕ, Bool, true, false, ◌&&◌, Option, none, some, List, [], ◌∷◌, ◌++◌, Result, ok, err, map,
}
use dnsrivet.Prelude.Texts.{Text, contains_text}
use dnsrivet.Upstream.Net.{IpAddr}
use dnsrivet.Osdns.IpText.{show_ip}
use dnsrivet.Osdns.Addresses.{
  DnsAddr, parsed_sockets, filter_fallback_servers, serialize_dns_socket,
}
use dnsrivet.Osdns.Backup.{ServiceDns, Backup, find_service}
use dnsrivet.Osdns.Tools.{
  Error, already_backed_up, already_lists, no_services, takeover_failed, Host, World, Action, pure,
  fail_if, ◌>>=◌, ◌>>◌, backup_exists, write_backup, remove_backup, create_marker,
}
use dnsrivet.Osdns.Commands.{
  list_services, get_dns_servers, set_dns_servers, effective_dns_servers, flush_caches,
}

abbrev or_none : Result (List DnsAddr) Error → List DnsAddr
or_none (ok addrs) = addrs
or_none (err _) = []

abbrev no_service : List ServiceDns → Bool
no_service [] = true
no_service (_ ∷ _) = false

-- The backup of a new takeover.
unfoldable pub takeover_backup : IpAddr → List DnsAddr → List ServiceDns → Backup
takeover_backup server fallback services = record {
  version = 2;
  services = services;
  fallback_servers = map serialize_dns_socket (filter_fallback_servers fallback (server ∷ []));
  takeover_servers = some (server ∷ []);
}

module _ {S : Type 0} (host : Host S) where
  -- The loop over the services before the takeover: their servers, which are candidates for the
  -- fallback too.
  unfoldable pub snapshot_services :
      IpAddr
      → List Text
      → List DnsAddr
      → List ServiceDns
      → Action S (List DnsAddr × List ServiceDns)
  snapshot_services server [] fallback services = pure (fallback, services)
  snapshot_services server (name ∷ names) fallback services = do
    servers ← get_dns_servers host name
    fail_if (contains_text servers (show_ip server)) (already_lists name server)
    snapshot_services server names (fallback ++ parsed_sockets host.interface_index servers)
        (services ++ (record { name = name; servers = servers } ∷ []))

  -- One step of the rollback; a name that the backup does not have is passed over.
  unfoldable pub put_back : Option ServiceDns → World S → Bool × World S
  put_back none w = (true, w)
  put_back (some s) w =
      let (r, w') = set_dns_servers host s.name s.servers w in
      (elim r [ ok _ ↦ true | err _ ↦ false ], w')

  unfoldable pub put_back_all : Backup → List Text → Bool → World S → Bool × World S
  put_back_all b [] done w = (done, w)
  put_back_all b (name ∷ names) done w =
      let (one, w') = put_back (find_service b.services name) w in
      put_back_all b names (done && one) w'

  unfoldable pub rollback : Backup → List Text → World S → Bool × World S
  rollback b changed w =
      let (done, w') = put_back_all b (reverse changed) true w in (done, flush_caches host w')

  -- The exit of the loop at the first service that could not be switched.
  unfoldable pub give_up : Backup → List Text → Error → Action S (Unit {0})
  give_up b changed e w =
      let (done, w') = rollback b changed w in
      (err (takeover_failed e done), elim done [ true ↦ (remove_backup w').1 | false ↦ w' ])

  unfoldable pub switch_services : Text → Backup → List ServiceDns → List Text → Action S (Unit {0})
  switch_services target b [] changed w = (ok tt, w)
  switch_services target b (s ∷ services) changed w =
      let (r, w') = set_dns_servers host s.name (target ∷ []) w in
      elim r [
        | err e ↦ give_up b changed e w'
        | ok _ ↦ switch_services target b services (changed ++ (s.name ∷ [])) w'
      ]

  -- The part of `take_over` that changes the machine: the backup, the services, the marker.
  unfoldable pub apply_takeover : IpAddr → List DnsAddr → List ServiceDns → Action S (Unit {0})
  apply_takeover server fallback services = do
    let b = takeover_backup server fallback services
    write_backup b
    switch_services (show_ip server) b services []
    create_marker
    λ w. (ok tt, flush_caches host w)

  unfoldable pub take_over : IpAddr → Action S (Unit {0})
  take_over server = do
    λ w. fail_if (backup_exists w) already_backed_up w
    effective ← λ w. let (r, w') = effective_dns_servers host w in (ok (or_none r), w')
    names ← list_services host
    (fallback, services) ← snapshot_services server names effective []
    fail_if (no_service services) no_services
    apply_takeover server fallback services
