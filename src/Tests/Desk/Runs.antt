-- ===== src/Tests/Desk/Runs.antt =====
-- src/osdns/macos.rs on the concrete machine of Desk.
use dnsrivet.Prelude.{
  ℕ, ◌⊎◌, ◌≡◌, ◌≢◌, refl, sym, ap, arith, Bool, true, false, Option, none, some, List, [], ◌∷◌,
  Result, ok, err, inl, inr, if◌then◌else◌,
}
use dnsrivet.Prelude.Texts.{Text, codes, eq_text, eq_texts, contains_text}
use dnsrivet.Upstream.Net.{IpAddr, v4}
use dnsrivet.Osdns.IpText.{parse_ip, show_ip}
use dnsrivet.Osdns.Addresses.{DnsAddr, contains_ip}
use dnsrivet.Osdns.Scutil.{parse_scutil_global_dns}
use dnsrivet.Osdns.Scutil.Blocks.{restricted, server, remark, Section}
use dnsrivet.Osdns.Backup.{ServiceDns, Backup, any_address, active, not_taken_over, corrupted}
use dnsrivet.Osdns.Tools.{Error, World, takeover_state}
use dnsrivet.Osdns.Commands.Laws.{settled}
use dnsrivet.Osdns.Takeover.{take_over}
use dnsrivet.Osdns.Takeover.Outcome.{TakeOverEnds}
use dnsrivet.Osdns.Release.{release}
use dnsrivet.Osdns.Release.Ends.{IsRestored}
use dnsrivet.Osdns.Release.Owned.{release_ends}
use dnsrivet.Osdns.Cycle.{release-take_over}
use dnsrivet.Osdns.Watch.{watchdog_tick}
use dnsrivet.Osdns.Watch.Tick.{TickEnds, watchdog_tick_ends}
use dnsrivet.Osdns.Protocol.{Event, start_with, stop, took, restored, allows, perform}
use dnsrivet.Osdns.Protocol.Allows.{perform-allows}
use dnsrivet.Osdns.Protocol.Runs.{Moves, Run, finish, then_perform, Run-Moves}
use dnsrivet.Osdns.Takeover.Ends.{take_over_ends}
use dnsrivet.Osdns.Cycle.Success.{AllForeign, take_over-release_succeed}
use dnsrivet.Tests.Desk.Steady.{Steady, Readable, Accepts, desk-IsReliable}
use dnsrivet.Tests.Desk.{Desk, wifi, modem, desk, desk_view, desk_laws}

abbrev home : IpAddr
home = v4 2130706433

abbrev router : Text
router = codes "192.168.1.1"

plain_home : settled (show_ip home ∷ []) ≡ show_ip home ∷ []
unfolding show_ip eq_texts dnsrivet.Prelude.eq_bytes
plain_home = refl

-- The Wi-Fi is set to the router.
abbrev start : List Bool → List Bool → World Desk
start fails disk = record {
  machine = record { dns = λ name. if eq_text name wifi then router ∷ [] else []; fails = fails };
  backup = none;
  marker = false;
  disk = disk;
}

-- The takeover switches the Wi-Fi, and the second service fails: here the switching command itself.
take_over_ends_example :
    TakeOverEnds desk_view home
      (start (false ∷ false ∷ false ∷ true ∷ []) [])
      (take_over desk home (start (false ∷ false ∷ false ∷ true ∷ []) []))
take_over_ends_example =
    take_over_ends desk_laws home plain_home (start (false ∷ false ∷ false ∷ true ∷ []) [])

after_takeover-fine : (take_over desk home (start [] [])).0 ≡ ok tt
unfolding take_over desk dnsrivet.Osdns.Commands.list_services
    dnsrivet.Osdns.Commands.effective_dns_servers dnsrivet.Prelude.eq_bytes
    dnsrivet.Osdns.Takeover.snapshot_services dnsrivet.Osdns.Commands.get_dns_servers
    dnsrivet.Osdns.Addresses.parse_dns_socket parse_ip eq_texts dnsrivet.Prelude.Texts.contains_text
    show_ip dnsrivet.Osdns.Takeover.apply_takeover dnsrivet.Osdns.Tools.write_backup
    dnsrivet.Osdns.Takeover.switch_services dnsrivet.Osdns.Commands.set_dns_servers
    dnsrivet.Osdns.Tools.create_marker
after_takeover-fine = refl

-- The backup is there to restore from where the marker cannot be created.
take_over-no_marker :
    let (r, w) = take_over desk home (start [] (false ∷ true ∷ [])) in
    ((elim r [ ok _ ↦ true | err _ ↦ false ]) ≡ false)
    × (w.machine.dns wifi ≡ codes "127.0.0.1" ∷ [])
    × ((elim w.backup [ none ↦ false | some _ ↦ true ]) ≡ true)
unfolding take_over desk dnsrivet.Osdns.Commands.list_services
    dnsrivet.Osdns.Commands.effective_dns_servers dnsrivet.Prelude.eq_bytes
    dnsrivet.Osdns.Takeover.snapshot_services dnsrivet.Osdns.Commands.get_dns_servers
    dnsrivet.Osdns.Addresses.parse_dns_socket parse_ip eq_texts dnsrivet.Prelude.Texts.contains_text
    show_ip dnsrivet.Osdns.Takeover.apply_takeover dnsrivet.Osdns.Tools.write_backup
    dnsrivet.Osdns.Takeover.switch_services dnsrivet.Osdns.Commands.set_dns_servers
    dnsrivet.Osdns.Tools.create_marker
take_over-no_marker = (refl, refl, refl)

abbrev recorded : Backup
recorded = record {
  version = 2;
  services = record { name = wifi; servers = router ∷ [] } ∷ [];
  fallback_servers = codes "9.9.9.9" ∷ router ∷ [];
  takeover_servers = some (home ∷ []);
}

abbrev taken : List Bool → List Bool → World Desk
taken fails disk = record {
  machine = record {
    dns = λ name. if eq_text name wifi then codes "127.0.0.1" ∷ [] else [];
    fails = fails;
  };
  backup = some recorded;
  marker = true;
  disk = disk;
}

release_ends_example :
    let (r, w') = release desk (taken (false ∷ true ∷ []) []) in
    ((r ≡ ok true)
      × (w'.marker ≡ false)
      × IsRestored desk desk_view recorded (taken (false ∷ true ∷ []) []) w')
    ⊎ ((e : Error) × (r ≡ err e)
        × (w'.backup ≡ some recorded)
        × ((w'.marker ≡ false) ⊎ (w'.marker ≡ true)))
release_ends_example = release_ends desk_laws recorded (taken (false ∷ true ∷ []) []) refl

release-take_over_example :
    let (r, w') =
      release desk (record (take_over desk home (start [] [])).1 { disk = true ∷ [] }) in
    ((r ≡ ok true)
      × (w'.backup ≡ none)
      × (w'.marker ≡ false)
      × ((n : Text) → w'.machine.dns n ≡ (start [] []).machine.dns n))
    ⊎ ((e : Error) × (r ≡ err e) × (w'.backup ≢ none))
release-take_over_example =
    release-take_over desk_laws home plain_home (start [] []) (true ∷ []) after_takeover-fine

router-Readable : Readable (router ∷ [])
unfolding parse_ip dnsrivet.Tests.Desk.reads_back dnsrivet.Osdns.Listing.parse_dns_servers
    dnsrivet.Tests.Desk.get_text dnsrivet.Osdns.Addresses.parse_dns_socket eq_texts
    dnsrivet.Prelude.eq_bytes
router-Readable = refl

home-Readable : Accepts (show_ip home ∷ [])
unfolding parse_ip dnsrivet.Tests.Desk.reads_back dnsrivet.Osdns.Listing.parse_dns_servers
    dnsrivet.Tests.Desk.get_text eq_texts dnsrivet.Prelude.eq_bytes show_ip
    dnsrivet.Osdns.Addresses.parse_dns_socket
home-Readable = refl

none_set-Readable : Readable []
unfolding parse_ip dnsrivet.Tests.Desk.reads_back dnsrivet.Osdns.Listing.parse_dns_servers
    dnsrivet.Tests.Desk.get_text eq_texts
none_set-Readable = refl

either-Readable : (test : Bool) → Readable (if test then router ∷ [] else [])
either-Readable true = router-Readable
either-Readable false = none_set-Readable

start-Steady : Steady (start [] []).machine
start-Steady = (refl, λ n. either-Readable (eq_text n wifi))

wifi-settable : Accepts (router ∷ [])
unfolding eq_texts dnsrivet.Prelude.eq_bytes
wifi-settable = router-Readable

wifi-ready :
    (contains_text (wifi ∷ modem ∷ []) wifi ≡ true)
    × (contains_text (router ∷ []) (show_ip home) ≡ false)
    × Unit {0}
unfolding contains_text dnsrivet.Prelude.eq_bytes show_ip
wifi-ready = (refl, refl, tt)

wifi-foreign : AllForeign desk home (desk_view (start [] []).machine).dns (wifi ∷ modem ∷ [])
unfolding any_address desk dnsrivet.Prelude.eq_bytes parse_ip dnsrivet.Prelude.Texts.trim
    dnsrivet.Prelude.Texts.strip_prefix contains_ip dnsrivet.Upstream.Net.eq_ip
wifi-foreign = (refl, (refl, tt))

take_over-release_succeed_example :
    let (taken, w1) = take_over desk home (start [] []) in
    let (released, w2) = release desk w1 in
    (taken ≡ ok tt)
    × (released ≡ ok true)
    × (w2.backup ≡ none)
    × (w2.marker ≡ false)
    × ((n : Text) → w2.machine.dns n ≡ (start [] []).machine.dns n)
unfolding dnsrivet.Prelude.eq_bytes desk
take_over-release_succeed_example =
    take_over-release_succeed desk_laws desk-IsReliable home plain_home home-Readable (start [] [])
      (start-Steady, refl) refl (λ e. cc) wifi-ready (wifi-settable, tt) wifi-foreign

-- The Wi-Fi has drifted back to the router.
abbrev drifted : World Desk
drifted = record (start [] []) { backup = some recorded; marker = true }

watchdog_tick_ends_example :
    TickEnds desk desk_view home recorded drifted (watchdog_tick desk home drifted)
watchdog_tick_ends_example = watchdog_tick_ends desk_laws home plain_home recorded drifted refl refl

watchdog_tick-drifted :
    let (r, w) = watchdog_tick desk home drifted in
    (w.machine.dns wifi ≡ codes "127.0.0.1" ∷ [])
    × ((elim r [ ok _ ↦ true | err _ ↦ false ]) ≡ true)
unfolding watchdog_tick desk dnsrivet.Osdns.Watch.active_tick dnsrivet.Osdns.Tools.read_backup
    dnsrivet.Osdns.Commands.list_services dnsrivet.Prelude.eq_bytes
    dnsrivet.Osdns.Watch.read_new_services dnsrivet.Osdns.Backup.has_service
    dnsrivet.Osdns.Watch.prepare_watchdog_backup dnsrivet.Osdns.Watch.add_new_service_snapshots
    dnsrivet.Osdns.Watch.note_address dnsrivet.Osdns.Addresses.contains_ip
    dnsrivet.Upstream.Net.eq_ip dnsrivet.Osdns.Watch.service_dns_snapshot
    dnsrivet.Osdns.Commands.list_all_services dnsrivet.Osdns.Watch.snapshot_existing
    dnsrivet.Prelude.Texts.contains_text dnsrivet.Osdns.Commands.get_dns_servers
    dnsrivet.Osdns.Addresses.parse_dns_socket parse_ip eq_texts dnsrivet.Osdns.Watch.correct
    dnsrivet.Osdns.Watch.services_needing_reassert dnsrivet.Osdns.Watch.is_exact show_ip
    dnsrivet.Osdns.Commands.flush_caches dnsrivet.Osdns.Watch.reassert
    dnsrivet.Osdns.Commands.set_dns_servers dnsrivet.Osdns.Watch.capture_runtime_fallback
    dnsrivet.Osdns.Commands.effective_dns_servers
watchdog_tick-drifted = (refl, refl)

start-ne-corrupted : takeover_state (start [] []) ≢ corrupted
unfolding takeover_state dnsrivet.Osdns.Backup.classify
start-ne-corrupted = λ e. absurd (ground arith)

perform-allows_example :
    let (event, w') = perform desk (start_with home) (start [] []) in
    allows event (takeover_state (start [] [])) (takeover_state w') ≡ true
perform-allows_example =
    perform-allows desk_laws (start_with home) (start [] []) plain_home start-ne-corrupted

abbrev first : Event × World Desk
first = perform desk (start_with home) (start [] [])

abbrev second : Event × World Desk
second = perform desk stop first.1

first_took : first.0 ≡ took
unfolding perform desk take_over dnsrivet.Osdns.Commands.list_services
    dnsrivet.Osdns.Commands.effective_dns_servers dnsrivet.Prelude.eq_bytes
    dnsrivet.Osdns.Takeover.snapshot_services dnsrivet.Osdns.Commands.get_dns_servers
    dnsrivet.Osdns.Addresses.parse_dns_socket parse_ip eq_texts dnsrivet.Prelude.Texts.contains_text
    show_ip dnsrivet.Osdns.Takeover.apply_takeover dnsrivet.Osdns.Tools.write_backup
    dnsrivet.Osdns.Takeover.switch_services dnsrivet.Osdns.Commands.set_dns_servers
    dnsrivet.Osdns.Tools.create_marker
first_took = refl

second_restored : second.0 ≡ restored
unfolding perform desk release take_over dnsrivet.Osdns.Commands.list_services
    dnsrivet.Osdns.Commands.effective_dns_servers dnsrivet.Prelude.eq_bytes
    dnsrivet.Osdns.Takeover.snapshot_services dnsrivet.Osdns.Commands.get_dns_servers
    dnsrivet.Osdns.Addresses.parse_dns_socket parse_ip eq_texts dnsrivet.Prelude.Texts.contains_text
    show_ip dnsrivet.Osdns.Takeover.apply_takeover dnsrivet.Osdns.Tools.write_backup
    dnsrivet.Osdns.Takeover.switch_services dnsrivet.Osdns.Commands.set_dns_servers
    dnsrivet.Osdns.Tools.create_marker dnsrivet.Osdns.Commands.flush_caches
    dnsrivet.Osdns.Tools.remove_marker dnsrivet.Osdns.Release.restore
    dnsrivet.Osdns.Release.restore_at dnsrivet.Osdns.Tools.read_backup
    dnsrivet.Osdns.Backup.is_supported dnsrivet.Osdns.Takeover.takeover_backup
    dnsrivet.Osdns.Commands.list_all_services dnsrivet.Osdns.Release.verify
    dnsrivet.Osdns.Release.set_back dnsrivet.Osdns.Release.check_services
    dnsrivet.Osdns.Backup.dns_may_depend_on_takeover dnsrivet.Osdns.Addresses.contains_ip
    dnsrivet.Upstream.Net.eq_ip dnsrivet.Osdns.Tools.remove_backup
second_restored = refl

-- A takeover and its release.
there_and_back : Run desk (start [] []) (took ∷ restored ∷ []) second.1
there_and_back =
    then_perform (start_with home) took plain_home (ap (λ e. (e, first.1)) first_took)
      (then_perform stop restored tt (ap (λ e. (e, second.1)) second_restored) (finish second.1))

Run-Moves_example :
    Moves (takeover_state (start [] [])) (took ∷ restored ∷ []) (takeover_state second.1)
    × (takeover_state second.1 ≢ corrupted)
Run-Moves_example = Run-Moves desk_laws there_and_back start-ne-corrupted

abbrev scutil_text : Text
scutil_text =
    codes
      "DNS configuration\n\nresolver #1\n  nameserver[0] : 9.9.9.9\n\nresolver #2\n  domain   : local\n  nameserver[0] : 1.1.1.1\n\nDNS configuration (for scoped queries)\n\nresolver #1\n  nameserver[0] : 8.8.8.8\n"

abbrev scutil_sections : List Section
scutil_sections =
    record {
      global = true;
      first = remark ∷ [];
      blocks =
          (server (codes "9.9.9.9") ∷ remark ∷ [])
          ∷ (restricted ∷ server (codes "1.1.1.1") ∷ remark ∷ [])
          ∷ [];
    }
    ∷ record { global = false; first = remark ∷ []; blocks = (server (codes "8.8.8.8") ∷ []) ∷ [] }
    ∷ []

parse_scutil_global_dns-result :
    parse_scutil_global_dns (λ _. none) scutil_text
    ≡ ok (record { ip = v4 151587081; port = 53; scope = 0 } ∷ [])
unfolding parse_scutil_global_dns dnsrivet.Prelude.eq_bytes
    dnsrivet.Osdns.Addresses.parse_dns_socket parse_ip
parse_scutil_global_dns-result = refl

abbrev at_53 : IpAddr → DnsAddr
at_53 a = record { ip = a; port = 53; scope = 0 }
