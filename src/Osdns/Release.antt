-- ===== src/Osdns/Release.antt =====
-- `release` and `restore`, of src/osdns/macos.rs. `restore_at` has here the commands that `restore`
-- gives it.
pub mod Restored
pub mod Verified
pub mod Ends
pub mod Owned
pub mod Unowned
pub mod Success
use dnsrivet.Prelude.{
  ℕ, Bool, true, false, not, ◌||◌, Option, none, some, List, [], ◌∷◌, Result, ok, err,
  if◌then◌else◌,
}
use dnsrivet.Prelude.Texts.{Text, contains_text}
use dnsrivet.Upstream.Net.{is_loopback}
use dnsrivet.Osdns.IpText.{parse_ip}
use dnsrivet.Osdns.Addresses.{DnsAddr}
use dnsrivet.Osdns.Backup.{ServiceDns, Backup, is_supported, dns_may_depend_on_takeover}
use dnsrivet.Osdns.Tools.{
  Error, Errors, any_error, none_left, and_also, unsupported_version, marker_without_backup,
  still_depends, restore_refused, Host, World, Action, pure, fail, fail_if, ◌>>=◌, ◌>>◌,
  backup_exists, remove_marker, remove_backup, read_backup,
}
use dnsrivet.Osdns.Commands.{
  list_all_services, get_dns_servers, set_dns_servers, current_loopback_dns, flush_caches,
}

abbrev some_addr : List DnsAddr → Bool
some_addr [] = false
some_addr (_ ∷ _) = true

-- `value.parse::<IpAddr>().is_ok_and(|ip| ip.is_loopback())`
unfoldable pub any_loopback : List Text → Bool
any_loopback [] = false
any_loopback (value ∷ values) =
    (elim (parse_ip value) [ none ↦ false | some a ↦ is_loopback a ]) || any_loopback values

module _ {S : Type 0} (host : Host S) where
  unfoldable pub any_service_at_loopback : List Text → Action S Bool
  any_service_at_loopback [] = pure false
  any_service_at_loopback (name ∷ names) = do
    servers ← get_dns_servers host name
    λ w. elim (any_loopback servers) [
      | true ↦ (ok true, w)
      | false ↦ any_service_at_loopback names w
    ]

  unfoldable pub system_points_at_loopback : Action S Bool
  system_points_at_loopback = do
    current ← current_loopback_dns host
    λ w. elim (some_addr current) [
      | true ↦ (ok true, w)
      | false ↦ (list_all_services host >>= any_service_at_loopback) w
    ]

  -- The servers of the backup are set on the services that still exist.
  unfoldable pub set_back : List Text → List ServiceDns → Errors → World S → Errors × World S
  set_back current [] errors w = (errors, w)
  set_back current (s ∷ services) errors w = elim (contains_text current s.name) [
    | false ↦ set_back current services errors w
    | true ↦
        let (r, w') = set_dns_servers host s.name s.servers w in
        set_back current services (elim r [ ok _ ↦ errors | err e ↦ and_also errors e ]) w'
  ]

  check_service : Backup → Text → Result (List Text) Error → Errors → Errors
  check_service b name (err e) errors = and_also errors e
  check_service b name (ok servers) errors =
      if dns_may_depend_on_takeover host.interface_index b name servers
      then and_also errors (still_depends name)
      else errors

  unfoldable pub check_services : Backup → List Text → Errors → World S → Errors × World S
  unfolding check_service
  check_services b [] errors w = (errors, w)
  check_services b (name ∷ names) errors w =
      let (r, w') = get_dns_servers host name w in
      check_services b names (check_service b name r errors) w'

  unfoldable pub verify : Backup → Errors → World S → Errors × World S
  verify b errors w =
      let (r, w') = list_all_services host w in
      elim r [ ok names ↦ check_services b names errors w' | err e ↦ (and_also errors e, w') ]

  unfoldable pub restore_at : Action S (Unit {0})
  restore_at = do
    b ← read_backup
    fail_if (not (is_supported b)) (unsupported_version b.version)
    current ← list_all_services host
    errors ← λ w. let (errors, w') = set_back current b.services none_left w in (ok errors, w')
    errors' ← λ w. let (errors', w') = verify b errors w in (ok errors', w')
    fail_if (any_error errors') (restore_refused errors')
    remove_backup

  unfoldable pub restore : Action S Bool
  restore w =
      if backup_exists w
      then (do restore_at; λ w'. (ok true, flush_caches host w')) w
      else (ok false, w)

  -- `release` without a backup.
  unfoldable pub release_unowned : Action S Bool
  release_unowned w =
      if w.marker
      then (do
        points ← system_points_at_loopback
        fail_if points marker_without_backup
        remove_marker
        pure false)
          w
      else (ok false, w)

  unfoldable pub release : Action S Bool
  release w = if backup_exists w then (do remove_marker; restore) w else release_unowned w
