-- ===== src/Osdns/Commands.antt =====
-- The commands that src/osdns/macos.rs runs: `networksetup`, `scutil` and the two that flush the
-- system's caches.
pub mod Laws
pub mod Success
use dnsrivet.Prelude.{Bool, true, false, not, Option, none, some, List, [], ◌∷◌, Result, ok, err}
use dnsrivet.Prelude.Texts.{Text, codes, trim}
use dnsrivet.Osdns.Addresses.{DnsAddr, loopbacks}
use dnsrivet.Osdns.Scutil.{parse_scutil_global_dns}
use dnsrivet.Osdns.Listing.{parse_services, parse_all_services, parse_dns_servers}
use dnsrivet.Osdns.Tools.{
  Error, run_failed, command_failed, not_utf8, unrecognized, bad_address, set_failed, Output, Host,
  World, Action, pure, fail_if, ◌>>=◌, ◌>>◌,
}

abbrev pub networksetup : Text
networksetup = codes "/usr/sbin/networksetup"

abbrev pub scutil : Text
scutil = codes "/usr/sbin/scutil"

abbrev pub list_args : List Text
list_args = codes "-listallnetworkservices" ∷ []

abbrev pub get_args : Text → List Text
get_args service = codes "-getdnsservers" ∷ service ∷ []

or_empty : List Text → List Text
or_empty [] = codes "Empty" ∷ []
or_empty (s ∷ servers) = s ∷ servers

unfoldable pub set_args : Text → List Text → List Text
unfolding or_empty
set_args service servers = codes "-setdnsservers" ∷ service ∷ or_empty servers

-- `stdout`: the text that a command printed, if it succeeded.
unfoldable pub stdout_text : Bool → Option Text → Text → Result Text Error
stdout_text false out complaint = err (command_failed (trim complaint))
stdout_text true none complaint = err not_utf8
stdout_text true (some text) complaint = ok text

unfoldable pub stdout : Output → Result Text Error
unfolding stdout_text
stdout o = stdout_text o.success o.out o.complaint

module _ {S : Type 0} (host : Host S) where
  started : Text → Result Output Text → Result Output Error
  started program (ok o) = ok o
  started program (err e) = err (run_failed program e)

  unfoldable pub run : Text → List Text → Action S Output
  unfolding started
  run program args w =
      let (r, s) = host.run program args w.machine in (started program r, record w { machine = s })

  unfoldable pub list_services : Action S (List Text)
  unfolding run parse_services stdout
  list_services = do
    output ← run networksetup list_args
    text ← λ w. (stdout output, w)
    pure (parse_services text)

  unfoldable pub list_all_services : Action S (List Text)
  unfolding run parse_all_services stdout
  list_all_services = do
    output ← run networksetup list_args
    text ← λ w. (stdout output, w)
    pure (parse_all_services text)

  recognized : Text → Text → Option (List Text) → Result (List Text) Error
  recognized service text none = err (unrecognized service text)
  recognized service text (some servers) = ok servers

  unfoldable pub get_dns_servers : Text → Action S (List Text)
  unfolding run parse_dns_servers stdout recognized
  get_dns_servers service = do
    output ← run networksetup (get_args service)
    text ← λ w. (stdout output, w)
    λ w. (recognized service text (parse_dns_servers host.interface_index text), w)

  unfoldable pub set_dns_servers : Text → List Text → Action S (Unit {0})
  unfolding run set_args
  set_dns_servers service servers = do
    output ← run networksetup (set_args service servers)
    fail_if (not output.success) (set_failed service (trim output.complaint))

  addresses_of : Text → Result (List DnsAddr) Error
  addresses_of text = elim (parse_scutil_global_dns host.interface_index text) [
    | ok addrs ↦ ok addrs
    | err e ↦ err (bad_address e)
  ]

  unfoldable pub effective_dns_servers : Action S (List DnsAddr)
  unfolding run stdout addresses_of
  effective_dns_servers = do
    output ← run scutil (codes "--dns" ∷ [])
    text ← λ w. (stdout output, w)
    λ w. (addresses_of text, w)

  unfoldable pub current_loopback_dns : Action S (List DnsAddr)
  unfolding effective_dns_servers loopbacks
  current_loopback_dns = do pure (loopbacks [] (← effective_dns_servers))

  -- A command whose failure is only reported.
  abbrev try_run : Text → List Text → World S → World S
  try_run program args w = (run program args w).1

  unfoldable pub flush_caches : World S → World S
  unfolding run
  flush_caches w =
      try_run (codes "/usr/bin/killall") (codes "-HUP" ∷ codes "mDNSResponder" ∷ [])
        (try_run (codes "/usr/bin/dscacheutil") (codes "-flushcache" ∷ []) w)
