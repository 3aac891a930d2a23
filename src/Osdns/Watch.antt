-- ===== src/Osdns/Watch.antt =====
-- `watchdog_tick`, of src/osdns/macos.rs.
pub mod Drift
pub mod Reassert
pub mod Prepare
pub mod Correct
pub mod Reads
pub mod Steps
pub mod Tick
use dnsrivet.Prelude.{
  ℕ, Bool, true, false, not, ◌&&◌, ◌||◌, Option, none, some, List, [], ◌∷◌, ◌++◌, map, Result, ok,
  err, if◌then◌else◌,
}
use dnsrivet.Prelude.Texts.{Text, eq_texts, contains_text}
use dnsrivet.Upstream.Net.{IpAddr}
use dnsrivet.Osdns.IpText.{show_ip}
use dnsrivet.Osdns.Addresses.{
  DnsAddr, CaptureError, unreadable, contains_ip, parsed_sockets, filter_fallback_servers,
  usable_runtime_fallback,
}
use dnsrivet.Osdns.Backup.{
  ServiceDns, Backup, is_supported, has_service, dns_may_depend_on_takeover,
}
use dnsrivet.Osdns.Tools.{
  Error, Errors, any_error, none_left, and_also, unsupported_version, unknown_restore_state,
  reassert_incomplete, Host, World, Action, pure, fail_if, ◌>>=◌, ◌>>◌, backup_exists, read_backup,
  write_backup,
}
use dnsrivet.Osdns.Commands.{
  list_services, list_all_services, get_dns_servers, set_dns_servers, effective_dns_servers,
  flush_caches,
}

pub data TickOutcome : Type 0 where
  not_active : TickOutcome
  clean : Option (List DnsAddr) → Option (CaptureError Error) → TickOutcome
  reasserted : List Text → List DnsAddr → Option (CaptureError Error) → TickOutcome

-- `servers.len() == 1 && servers[0] == server`
unfoldable pub is_exact : Text → List Text → Bool
is_exact expected servers = eq_texts servers (expected ∷ [])

unfoldable pub services_needing_reassert : List ServiceDns → Text → List Text
services_needing_reassert [] expected = []
services_needing_reassert (s ∷ current) expected =
    let rest = services_needing_reassert current expected in
    if is_exact expected s.servers then rest else s.name ∷ rest

-- The loop of `add_new_service_snapshots`, over the backup and whether it has changed.
unfoldable pub add_new_service_snapshots :
    (Text → Option ℕ) → Text → List ServiceDns → Backup → Bool → Result (Backup × Bool) Error
add_new_service_snapshots interface_index expected [] b added = ok (b, added)
add_new_service_snapshots interface_index expected (s ∷ snapshots) b added =
    elim (has_service b.services s.name) [
      | true ↦ add_new_service_snapshots interface_index expected snapshots b added
      | false ↦
          elim (contains_text s.servers expected
            || dns_may_depend_on_takeover interface_index b s.name s.servers) [
              | true ↦ err (unknown_restore_state s.name)
              | false ↦
                  add_new_service_snapshots interface_index expected snapshots
                    (record b { services = b.services ++ (s ∷ []) }) true
            ]
    ]

note_address_in : Option (List IpAddr) → IpAddr → Option (List IpAddr) × Bool
note_address_in none server = (none, false)
note_address_in (some takeovers) server =
    if contains_ip takeovers server
    then (some takeovers, false)
    else (some (takeovers ++ (server ∷ [])), true)

-- The address history: an address that it does not have is added, unless the history is unknown.
unfoldable pub note_address : Backup → IpAddr → Backup × Bool
unfolding note_address_in
note_address b server =
    let (takeovers, changed) = note_address_in b.takeover_servers server in
    (record b { takeover_servers = takeovers }, changed)

abbrev pub captured : Result (List DnsAddr) (CaptureError Error) → Option (List DnsAddr)
captured (ok servers) = some servers
captured (err _) = none

abbrev pub capture_error : Result (List DnsAddr) (CaptureError Error) → Option (CaptureError Error)
capture_error (ok _) = none
capture_error (err e) = some e

abbrev pub or_no_servers : Option (List DnsAddr) → List DnsAddr
or_no_servers none = []
or_no_servers (some servers) = servers

module _ {S : Type 0} (host : Host S) where
  unfoldable pub prepare_watchdog_backup : Backup → List ServiceDns → IpAddr → Action S (Unit {0})
  prepare_watchdog_backup b snapshots server = do
    (b', added) ←
        λ w. (add_new_service_snapshots host.interface_index (show_ip server) snapshots b false, w)
    let (b'', noted) = note_address b' server
    λ w. if added || noted then write_backup b'' w else (ok tt, w)

  -- The services that the backup does not have, with their servers.
  unfoldable pub read_new_services : List ServiceDns → List Text → Action S (List ServiceDns)
  read_new_services known [] = pure []
  read_new_services known (name ∷ names) = elim (has_service known name) [
    | true ↦ read_new_services known names
    | false ↦ do
      servers ← get_dns_servers host name
      rest ← read_new_services known names
      pure (record { name = name; servers = servers } ∷ rest)
  ]

  unfoldable pub snapshot_existing : List Text → List ServiceDns → Action S (List ServiceDns)
  snapshot_existing all [] = pure []
  snapshot_existing all (s ∷ services) = elim (contains_text all s.name) [
    | false ↦ snapshot_existing all services
    | true ↦ do
      servers ← get_dns_servers host s.name
      rest ← snapshot_existing all services
      pure (record { name = s.name; servers = servers } ∷ rest)
  ]

  unfoldable pub service_dns_snapshot : Action S (List ServiceDns)
  service_dns_snapshot = do
    b ← read_backup
    all ← list_all_services host
    snapshot_existing all b.services

  capture_from : IpAddr → Result (List DnsAddr) Error → Result (List DnsAddr) (CaptureError Error)
  capture_from server (ok current) = usable_runtime_fallback current server
  capture_from server (err e) = err (unreadable e)

  unfoldable pub capture_runtime_fallback :
      IpAddr → World S → Result (List DnsAddr) (CaptureError Error) × World S
  unfolding capture_from
  capture_runtime_fallback server w =
      let (r, w') = effective_dns_servers host w in (capture_from server r, w')

  unfoldable pub reassert : Text → List Text → Errors → World S → Errors × World S
  reassert expected [] errors w = (errors, w)
  reassert expected (name ∷ drifted) errors w =
      let (r, w') = set_dns_servers host name (expected ∷ []) w in
      reassert expected drifted (elim r [ ok _ ↦ errors | err e ↦ and_also errors e ]) w'

  -- The end of a tick, once the services that drifted are known.
  unfoldable pub correct :
      Text → List Text → Result (List DnsAddr) (CaptureError Error) → Action S TickOutcome
  correct expected [] capture w = (ok (clean (captured capture) (capture_error capture)), w)
  correct expected (name ∷ drifted) capture w =
      let (errors, w') = reassert expected (name ∷ drifted) none_left w in
      (
        if any_error errors
            then err (reassert_incomplete errors)
            else ok (
                reasserted (name ∷ drifted) (or_no_servers (captured capture))
                  (capture_error capture)),
        flush_caches host w',
      )

  unfoldable pub active_tick : IpAddr → Action S TickOutcome
  active_tick server = do
    b ← read_backup
    names ← list_services host
    new ← read_new_services b.services names
    prepare_watchdog_backup b new server
    current ← service_dns_snapshot
    capture ← λ w. let (r, w') = capture_runtime_fallback server w in (ok r, w')
    correct (show_ip server) (services_needing_reassert current (show_ip server)) capture

  unfoldable pub watchdog_tick : IpAddr → Action S TickOutcome
  watchdog_tick server w =
      if backup_exists w && w.marker then active_tick server w else (ok not_active, w)
