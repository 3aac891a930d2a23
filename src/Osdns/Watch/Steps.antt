-- ===== src/Osdns/Watch/Steps.antt =====
-- The ways through a watchdog's tick, of src/osdns/macos.rs.
use dnsrivet.Prelude.{◌≡◌, List, arith, Result, ok, err}
use dnsrivet.Prelude.Texts.{Text}
use dnsrivet.Upstream.Net.{IpAddr}
use dnsrivet.Osdns.IpText.{show_ip}
use dnsrivet.Osdns.Addresses.{DnsAddr, CaptureError}
use dnsrivet.Osdns.Backup.{ServiceDns, Backup}
use dnsrivet.Osdns.Tools.{Error, Host, World, read_backup}
use dnsrivet.Osdns.Commands.{list_services}
use dnsrivet.Osdns.Watch.{
  services_needing_reassert, read_new_services, prepare_watchdog_backup, service_dns_snapshot,
  capture_runtime_fallback, correct, active_tick,
}

module _ {S : Type 0} (host : Host S) (server : IpAddr) (w : World S) where
  abbrev pub w1 : World S
  w1 = (read_backup w).1

  abbrev pub listed : Result (List Text) Error × World S
  listed = list_services host w1

  abbrev pub found : Backup → List Text → Result (List ServiceDns) Error × World S
  found b names = read_new_services host b.services names listed.1

  abbrev pub prepared : Backup → List Text → List ServiceDns → Result (Unit {0}) Error × World S
  prepared b names new = prepare_watchdog_backup host b new server (found b names).1

  abbrev pub seen : Backup → List Text → List ServiceDns → Result (List ServiceDns) Error × World S
  seen b names new = service_dns_snapshot host (prepared b names new).1

  abbrev pub capture :
      Backup → List Text → List ServiceDns → Result (List DnsAddr) (CaptureError Error) × World S
  capture b names new = capture_runtime_fallback host server (seen b names new).1

  pub tick_unread :
      (e : Error) → (read_backup w).0 ≡ err e → active_tick host server w ≡ (err e, w1)
  unfolding active_tick
  tick_unread e h = ground arith

  module _ (b : Backup) (got : (read_backup w).0 ≡ ok b) where
    pub tick_unlisted :
        (e : Error) → listed.0 ≡ err e → active_tick host server w ≡ (err e, listed.1)
    unfolding active_tick
    tick_unlisted e h = ground arith

    module _ (names : List Text) (was_listed : listed.0 ≡ ok names) where
      pub tick_unfound :
          (e : Error)
          → (found b names).0 ≡ err e
          → active_tick host server w ≡ (err e, (found b names).1)
      unfolding active_tick
      tick_unfound e h = ground arith

      module _ (new : List ServiceDns) (was_found : (found b names).0 ≡ ok new) where
        pub tick_unprepared :
            (e : Error)
            → (prepared b names new).0 ≡ err e
            → active_tick host server w ≡ (err e, (prepared b names new).1)
        unfolding active_tick
        tick_unprepared e h = ground arith

        pub tick_unseen :
            (e : Error)
            → (prepared b names new).0 ≡ ok tt
            → (seen b names new).0 ≡ err e
            → active_tick host server w ≡ (err e, (seen b names new).1)
        unfolding active_tick
        tick_unseen e h k = ground arith

        pub tick_corrects :
            (current : List ServiceDns)
            → (prepared b names new).0 ≡ ok tt
            → (seen b names new).0 ≡ ok current
            → active_tick host server w
              ≡ correct host
                  (show_ip server)
                  (services_needing_reassert current (show_ip server))
                  (capture b names new).0
                  (capture b names new).1
        unfolding active_tick
        tick_corrects current h k = ground arith
