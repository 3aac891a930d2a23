-- ===== src/Osdns/Takeover/Success.antt =====
-- A takeover on a machine on which nothing fails, of src/osdns/macos.rs.
use mathlib.Core.Path.{subst}
use dnsrivet.Prelude.{◌≡◌, ◌≢◌, refl, sym, ap, ◌∙◌, true, false, none, List, [], ◌∷◌, ◌++◌, Result}
use dnsrivet.Prelude.Texts.{Text, contains_text}
use dnsrivet.Upstream.Net.{IpAddr}
use dnsrivet.Osdns.IpText.{show_ip}
use dnsrivet.Osdns.Addresses.{DnsAddr, parsed_sockets}
use dnsrivet.Osdns.Backup.{ServiceDns, Backup}
use dnsrivet.Osdns.Tools.{Error, Host, World}
use dnsrivet.Osdns.Tools.Files.{write_backup_calm, create_marker_calm}
use dnsrivet.Osdns.Commands.{list_services, get_dns_servers, set_dns_servers, effective_dns_servers}
use dnsrivet.Osdns.Commands.Laws.{
  View, IsNetworksetup, get_dns_servers_lem, set_dns_servers_lem, effective_dns_servers_lem,
  list_services_lem,
}
use dnsrivet.Osdns.Commands.Success.{
  IsReliable, IsCalm, Succeeds, list_services-Succeeds, get_dns_servers-Succeeds,
  set_dns_servers-Succeeds, effective_dns_servers-IsCalm, flush_caches-IsCalm,
}
use dnsrivet.Osdns.Takeover.{
  snapshot_services, switch_services, apply_takeover, take_over, takeover_backup, or_none,
  no_service,
}
use dnsrivet.Osdns.Takeover.Switch.{names_of, switch_end, switch_set}
use dnsrivet.Osdns.Takeover.Snapshot.{snapshot_end, snapshot_next, snapshot_services_lem}
use dnsrivet.Osdns.Takeover.Apply.{apply_done, written, moved}
use dnsrivet.Osdns.Takeover.Ends.{take_over_applied}

-- The services exist, and none of them lists the address.
abbrev pub AllReady : Text → View → List Text → Type 0
AllReady target v [] = Unit
AllReady target v (name ∷ names) =
    (contains_text v.all name ≡ true)
    × (contains_text (v.dns name) target ≡ false)
    × AllReady target v names

abbrev pub AllThere : List Text → List Text → Type 0
AllThere all [] = Unit
AllThere all (name ∷ names) = (contains_text all name ≡ true) × AllThere all names

AllReady→AllThere :
    (target : Text) (v : View) (names : List Text) → AllReady target v names → AllThere v.all names
AllReady→AllThere target v [] h = tt
AllReady→AllThere target v (name ∷ names) h = (h.0, AllReady→AllThere target v names h.2)

some_service : (services : List ServiceDns) → services ≢ [] → no_service services ≡ false
some_service [] h = absurd (h refl)
some_service (_ ∷ _) h = refl

module _ {S : Type 0} {host : Host S} {view : S → View} {good : S → Type 0}
    {accepts : List Text → Type 0} (law : IsNetworksetup host view)
    (reliable : IsReliable host view good accepts) (server : IpAddr) where
  snapshot_services-Succeeds :
      (names : List Text) (fallback : List DnsAddr) (services : List ServiceDns) (w : World S)
      → IsCalm good w
      → AllReady (show_ip server) (view w.machine) names
      → (both : List DnsAddr × List ServiceDns) × Succeeds good both
          (snapshot_services host server names fallback services w)
  snapshot_services-Succeeds [] fallback services w calm ready = (
    (fallback, services),
    subst (Succeeds good (fallback, services)) (sym (snapshot_end host server fallback services w))
        (refl, calm),
  )
  snapshot_services-Succeeds (name ∷ names) fallback services w calm ready =
      let servers = (view w.machine).dns name in
      let got = get_dns_servers-Succeeds law reliable w calm name ready.0 in
      let w1 = (get_dns_servers host name w).1 in
      let (both, done) =
        snapshot_services-Succeeds names (fallback ++ parsed_sockets host.interface_index servers)
          (services ++ (record { name = name; servers = servers } ∷ [])) w1 got.1
          (subst (λ (v : View). AllReady (show_ip server) v names)
            (sym (get_dns_servers_lem law name w).0.0) ready.2) in
      (
        both,
        subst (Succeeds good both)
            (sym (snapshot_next host server name names fallback services w servers got.0 ready.1))
            done,
      )

  module _ (accepted : accepts (show_ip server ∷ [])) where
    switch_services-Succeeds :
        (b : Backup) (services : List ServiceDns) (changed : List Text) (w : World S)
        → IsCalm good w
        → AllThere (view w.machine).all (names_of services)
        → Succeeds good tt (switch_services host (show_ip server) b services changed w)
    switch_services-Succeeds b [] changed w calm there =
        subst (Succeeds good tt) (sym (switch_end host (show_ip server) b changed w)) (refl, calm)
    switch_services-Succeeds b (s ∷ services) changed w calm there =
        let set =
          set_dns_servers-Succeeds law reliable w calm s.name (show_ip server ∷ []) there.0
            accepted in
        let w1 = (set_dns_servers host s.name (show_ip server ∷ []) w).1 in
        let same = (set_dns_servers_lem law s.name (show_ip server ∷ []) w).2 set.0 in
        subst (Succeeds good tt)
          (sym (switch_set host (show_ip server) b s services changed w set.0))
          (switch_services-Succeeds b services (changed ++ (s.name ∷ [])) w1 set.1 (
            subst (λ all. AllThere all (names_of services)) (sym (ap (λ (v : View). v.all) same))
              there.1))

    apply_takeover-Succeeds :
        (fallback : List DnsAddr) (services : List ServiceDns) (w : World S)
        → IsCalm good w
        → AllThere (view w.machine).all (names_of services)
        → Succeeds good tt (apply_takeover host server fallback services w)
    apply_takeover-Succeeds fallback services w calm there =
        let b = takeover_backup server fallback services in
        let wrote = write_backup_calm w calm.1 b in
        let w1 = (written host server fallback services w).1 in
        let calm1 : IsCalm good w1 =
          subst (λ (out : Result (Unit {0}) Error × World S). IsCalm good out.1) (sym wrote) calm in
        let same : w1.machine ≡ w.machine =
          ap (λ (out : Result (Unit {0}) Error × World S). out.1.machine) wrote in
        let switched =
          switch_services-Succeeds b services [] w1 calm1
            (subst (λ (s : S). AllThere (view s).all (names_of services)) (sym same) there) in
        let w2 = (moved host server fallback services w).1 in
        let marks = create_marker_calm w2 switched.1.1 in
        let calm3 =
          subst (λ (out : Result (Unit {0}) Error × World S). IsCalm good out.1) (sym marks)
            switched.1 in
        subst (Succeeds good tt)
          (sym (
            apply_done host server fallback services w
              (ap (λ (out : Result (Unit {0}) Error × World S). out.0) wrote) switched.0
              (ap (λ (out : Result (Unit {0}) Error × World S). out.0) marks)))
          (refl, flush_caches-IsCalm law reliable _ calm3)

    -- A takeover succeeds where no command and no file operation fails, there is no backup, some
    -- service is enabled, and no enabled service lists the address.
    pub take_over-Succeeds :
        (w : World S)
        → IsCalm good w
        → w.backup ≡ none
        → (view w.machine).enabled ≢ []
        → AllReady (show_ip server) (view w.machine) (view w.machine).enabled
        → Succeeds good tt (take_over host server w)
    take_over-Succeeds w calm fresh some_enabled ready =
        let w1 = (effective_dns_servers host w).1 in
        let w2 = (list_services host w1).1 in
        let names = (view w1.machine).enabled in
        let fallback = or_none (effective_dns_servers host w).0 in
        let keeps1 = effective_dns_servers_lem law w in
        let listed =
          list_services-Succeeds law reliable w1
            (effective_dns_servers-IsCalm law reliable w calm) in
        let ready1 =
          subst (λ (v : View). AllReady (show_ip server) v v.enabled) (sym keeps1.0) ready in
        let ready2 =
          subst (λ (v : View). AllReady (show_ip server) v names)
            (sym (list_services_lem law w1).0.0) ready1 in
        let (both, snapped) = snapshot_services-Succeeds names fallback [] w2 listed.1 ready2 in
        let w3 = (snapshot_services host server names fallback [] w2).1 in
        let lem = snapshot_services_lem law server names fallback [] w2 in
        let (new, all, named, _, _) = lem.1 both snapped.0 in
        let same : names_of both.1 ≡ names = ap names_of all ∙ named in
        let there = AllReady→AllThere (show_ip server) (view w2.machine) names ready2 in
        subst (Succeeds good tt)
          (sym (
            take_over_applied host server w fresh names both.0 both.1 listed.0 snapped.0 (
              some_service both.1 (λ e.
                some_enabled
                  (ap (λ (v : View). v.enabled) (sym keeps1.0) ∙ sym same ∙ ap names_of e)))))
          (apply_takeover-Succeeds both.0 both.1 w3 snapped.1 (
            subst (λ l. AllThere (view w3.machine).all l) (sym same)
              (subst (λ (v : View). AllThere v.all names) (sym lem.0.0) there)))
