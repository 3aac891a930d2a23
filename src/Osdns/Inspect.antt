-- ===== src/Osdns/Inspect.antt =====
-- `takeover_intact` and `fallback_servers`, of src/osdns/macos.rs, which change nothing.
use dnsrivet.Prelude.{Bool, true, false, not, ◌||◌, List, [], ◌∷◌, ◌++◌, ok, if◌then◌else◌}
use dnsrivet.Prelude.Texts.{Text, contains_text}
use dnsrivet.Upstream.Net.{IpAddr}
use dnsrivet.Osdns.IpText.{show_ip}
use dnsrivet.Osdns.Addresses.{DnsAddr, parsed_sockets, filter_fallback_servers}
use dnsrivet.Osdns.Backup.{
  ServiceDns, Backup, is_supported, has_service, dns_may_depend_on_takeover,
}
use dnsrivet.Osdns.Tools.{
  unsupported_version, Host, Action, pure, fail_if, ◌>>=◌, ◌>>◌, backup_exists, read_backup,
}
use dnsrivet.Osdns.Commands.{
  list_services, list_all_services, get_dns_servers, effective_dns_servers,
}
use dnsrivet.Osdns.Watch.{is_exact}

module _ {S : Type 0} (host : Host S) where
  -- The loop of `takeover_intact_with`.
  unfoldable pub intact_loop : Backup → Text → List Text → List Text → Bool → Action S Bool
  intact_loop b expected enabled [] checked = pure checked
  intact_loop b expected enabled (name ∷ names) checked = do
    servers ← get_dns_servers host name
    let counts =
        has_service b.services name
        || contains_text enabled name
        || dns_may_depend_on_takeover host.interface_index b name servers
    λ w. elim counts [
      | false ↦ intact_loop b expected enabled names checked w
      | true ↦ elim (is_exact expected servers) [
        | true ↦ intact_loop b expected enabled names true w
        | false ↦ (ok false, w)
      ]
    ]

  unfoldable pub takeover_intact : IpAddr → Action S Bool
  takeover_intact server = do
    b ← read_backup
    enabled ← list_services host
    names ← list_all_services host
    intact_loop b (show_ip server) enabled names false

  service_servers : List ServiceDns → List DnsAddr
  service_servers [] = []
  service_servers (s ∷ services) =
      parsed_sockets host.interface_index s.servers ++ service_servers services

  abbrev or_those : List DnsAddr → List DnsAddr → List DnsAddr
  or_those [] others = others
  or_those (a ∷ addrs) others = a ∷ addrs

  unfoldable pub backup_candidates : Backup → List DnsAddr
  unfolding service_servers
  backup_candidates b =
      or_those (parsed_sockets host.interface_index b.fallback_servers) (service_servers b.services)

  -- `fallback_servers` before the filter.
  unfoldable pub fallback_candidates : Action S (List DnsAddr)
  fallback_candidates w =
      if backup_exists w
      then (do
        b ← read_backup
        fail_if (not (is_supported b)) (unsupported_version b.version)
        pure (backup_candidates b))
          w
      else effective_dns_servers host w

  -- `fallback_servers`; the addresses of the listeners are denied.
  unfoldable pub fallback_servers : List IpAddr → Action S (List DnsAddr)
  fallback_servers denied = do
    candidates ← fallback_candidates
    pure (filter_fallback_servers candidates denied)
