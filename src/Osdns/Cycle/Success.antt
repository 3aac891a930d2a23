-- ===== src/Osdns/Cycle/Success.antt =====
-- A takeover and its release on a machine on which nothing fails, of src/osdns/macos.rs.
use mathlib.Core.Path.{subst}
use dnsrivet.Prelude.{
  ◌≡◌, ◌≢◌, refl, sym, ap, ◌∙◌, true, false, none, some, List, [], ◌∷◌, ok, arith, inl, inr,
}
use dnsrivet.Prelude.Texts.{Text}
use dnsrivet.Upstream.Net.{IpAddr}
use dnsrivet.Osdns.IpText.{show_ip}
use dnsrivet.Osdns.Addresses.{contains_ip}
use dnsrivet.Osdns.Backup.{
  ServiceDns, Backup, is_supported, any_address, dns_may_depend_on_takeover,
}
use dnsrivet.Osdns.Tools.{Host, World}
use dnsrivet.Osdns.Commands.Laws.{View, settled, IsNetworksetup}
use dnsrivet.Osdns.Commands.Success.{IsReliable, IsCalm}
use dnsrivet.Osdns.Takeover.{take_over}
use dnsrivet.Osdns.Takeover.Rollback.{Records}
use dnsrivet.Osdns.Takeover.Switch.{names_of}
use dnsrivet.Osdns.Takeover.Ends.{take_over_ends}
use dnsrivet.Osdns.Takeover.Success.{AllReady, take_over-Succeeds}
use dnsrivet.Osdns.Release.{release}
use dnsrivet.Osdns.Release.Restored.{restored}
use dnsrivet.Osdns.Release.Verified.{AllIndependent}
use dnsrivet.Osdns.Release.Success.{AllAccepted, release-Succeeds}
use dnsrivet.Osdns.Cycle.{release-take_over, restored_all}

-- `networksetup` accepts the servers that are set on the services.
abbrev pub AllSettable : (List Text → Type 0) → (Text → List Text) → List Text → Type 0
AllSettable accepts dns [] = Unit
AllSettable accepts dns (name ∷ names) = accepts (dns name) × AllSettable accepts dns names

-- No service has the address among its servers.
abbrev pub AllForeign : {S : Type 0} → Host S → IpAddr → (Text → List Text) → List Text → Type 0
AllForeign host server dns [] = Unit
AllForeign host server dns (name ∷ names) =
    (any_address host.interface_index (contains_ip (server ∷ [])) (dns name) ≡ false)
    × AllForeign host server dns names

Records-AllAccepted :
    (accepts : List Text → Type 0) (dns : Text → List Text) (services : List ServiceDns)
    → Records dns services
    → AllSettable accepts dns (names_of services)
    → AllAccepted accepts services
Records-AllAccepted accepts dns [] records h = tt
Records-AllAccepted accepts dns (s ∷ services) records h =
    (subst accepts (sym records.0.0) h.0, Records-AllAccepted accepts dns services records.1 h.1)

supported_two : (b : Backup) → b.version ≡ 2 → is_supported b ≡ true
unfolding is_supported
supported_two b h = rw h refl

module _ {S : Type 0} (host : Host S) (server : IpAddr) (b : Backup)
    (known : b.takeover_servers ≡ some (server ∷ [])) where
  depends_known :
      (name : Text) (servers : List Text)
      → dns_may_depend_on_takeover host.interface_index b name servers
        ≡ any_address host.interface_index (contains_ip (server ∷ [])) servers
  unfolding dns_may_depend_on_takeover
  depends_known name servers = rw known refl

  AllForeign→AllIndependent :
      (before now : Text → List Text) (names : List Text)
      → ((n : Text) → now n ≡ before n)
      → AllForeign host server before names
      → AllIndependent host b now names
  AllForeign→AllIndependent before now [] same h = tt
  AllForeign→AllIndependent before now (name ∷ names) same h = (
    depends_known name (now name)
        ∙ ap (any_address host.interface_index (contains_ip (server ∷ []))) (same name)
        ∙ h.0,
    AllForeign→AllIndependent before now names same h.1,
  )

module _ {S : Type 0} {host : Host S} {view : S → View} {good : S → Type 0}
    {accepts : List Text → Type 0} (law : IsNetworksetup host view)
    (reliable : IsReliable host view good accepts) (server : IpAddr)
    (plain : settled (show_ip server ∷ []) ≡ show_ip server ∷ [])
    (accepted : accepts (show_ip server ∷ [])) (w : World S) where
  -- Where no command and no file operation fails, there is no backup, some service is enabled, no
  -- service has the address among its servers, and `networksetup` accepts the address and the
  -- servers that the enabled services have, a takeover succeeds and so does the release after it,
  -- which leaves the DNS servers of every service as they were, no backup and no marker.
  pub take_over-release_succeed :
      IsCalm good w
      → w.backup ≡ none
      → (view w.machine).enabled ≢ []
      → AllReady (show_ip server) (view w.machine) (view w.machine).enabled
      → AllSettable accepts (view w.machine).dns (view w.machine).enabled
      → AllForeign host server (view w.machine).dns (view w.machine).all
      → let (taken, w1) = take_over host server w in
        let (released, w2) = release host w1 in
        (taken ≡ ok tt)
        × (released ≡ ok true)
        × (w2.backup ≡ none)
        × (w2.marker ≡ false)
        × ((n : Text) → (view w2.machine).dns n ≡ (view w.machine).dns n)
  take_over-release_succeed calm fresh some_enabled ready settable foreign =
      let took = take_over-Succeeds law reliable server accepted w calm fresh some_enabled ready in
      let w1 = (take_over host server w).1 in
      let ends = take_over_ends law server plain w in
      elim ends.ends [
        | inr (e, failed, _, _) ↦ absurd (ground arith)
        | inl (fine, _, held) ↦
            let b = held.backup in
            let back =
              restored_all law server plain w w1 b held.recorded ends.all_same held.switched in
            let released =
              release-Succeeds law reliable b w1 took.1 held.stored
                (supported_two b held.recorded.version_is)
                (Records-AllAccepted accepts (view w.machine).dns b.services held.recorded.records (
                  subst (AllSettable accepts (view w.machine).dns) (sym held.recorded.services_are)
                    settable))
                (AllForeign→AllIndependent host server b held.recorded.takeovers_are
                  (view w.machine).dns
                  (restored (view w1.machine).all b.services (view w1.machine).dns)
                  (view w1.machine).all back
                  (subst (AllForeign host server (view w.machine).dns) (sym ends.all_same)
                    foreign)) in
            elim (release-take_over law server plain w w1.disk took.0) [
              | inr (e, failed, _) ↦ absurd (ground arith)
              | inl (done, gone, unmarked, same) ↦ (took.0, done, gone, unmarked, same)
            ]
      ]
