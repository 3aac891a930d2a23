-- ===== src/Osdns/Takeover/Snapshot.antt =====
-- What the snapshot before a takeover records, of src/osdns/macos.rs.
use mathlib.Core.List.{append_assoc, append-nil}
use mathlib.Core.Path.{subst}
use dnsrivet.Prelude.{
  ◌≡◌, refl, sym, ap, ◌∙◌, true, false, List, [], ◌∷◌, ◌++◌, arith, Result, ok, err, Bool-cases,
  Result-cases, inl, inr,
}
use dnsrivet.Prelude.Texts.{Text, contains_text}
use dnsrivet.Upstream.Net.{IpAddr}
use dnsrivet.Osdns.IpText.{show_ip}
use dnsrivet.Osdns.Addresses.{DnsAddr, parsed_sockets}
use dnsrivet.Osdns.Backup.{ServiceDns}
use dnsrivet.Osdns.Tools.{Error, already_lists, Host, World}
use dnsrivet.Osdns.Commands.{get_dns_servers}
use dnsrivet.Osdns.Commands.Laws.{View, settled, IsNetworksetup, Keeps, get_dns_servers_lem}
use dnsrivet.Osdns.Takeover.{snapshot_services}
use dnsrivet.Osdns.Takeover.Rollback.{Records}
use dnsrivet.Osdns.Takeover.Switch.{names_of}

-- No recorded service lists the address.
abbrev pub NoneLists : Text → List ServiceDns → Type 0
NoneLists target [] = Unit
NoneLists target (s ∷ services) =
    (contains_text s.servers target ≡ false) × NoneLists target services

abbrev entry : Text → List Text → ServiceDns
entry name servers = record { name = name; servers = servers }

module _ {S : Type 0} (host : Host S) where
  pub snapshot_end :
      (server : IpAddr) (fallback : List DnsAddr) (services : List ServiceDns) (w : World S)
      → snapshot_services host server [] fallback services w ≡ (ok (fallback, services), w)
  unfolding snapshot_services
  snapshot_end server fallback services w = refl

  module _ (server : IpAddr) (name : Text) (names : List Text) (fallback : List DnsAddr)
      (services : List ServiceDns) (w : World S) where
    abbrev after : World S
    after = (get_dns_servers host name w).1

    snapshot_failed :
        (e : Error)
        → (get_dns_servers host name w).0 ≡ err e
        → snapshot_services host server (name ∷ names) fallback services w ≡ (err e, after)
    unfolding snapshot_services
    snapshot_failed e h = ground arith

    snapshot_refused :
        (servers : List Text)
        → (get_dns_servers host name w).0 ≡ ok servers
        → contains_text servers (show_ip server) ≡ true
        → snapshot_services host server (name ∷ names) fallback services w
          ≡ (err (already_lists name server), after)
    unfolding snapshot_services
    snapshot_refused servers h listed = ground arith

    pub snapshot_next :
        (servers : List Text)
        → (get_dns_servers host name w).0 ≡ ok servers
        → contains_text servers (show_ip server) ≡ false
        → snapshot_services host server (name ∷ names) fallback services w
          ≡ snapshot_services host server names
              (fallback ++ parsed_sockets host.interface_index servers)
              (services ++ (entry name servers ∷ []))
              after
    unfolding snapshot_services
    snapshot_next servers h fresh = ground arith

module _ {S : Type 0} (view : S → View) where
  -- The settings are as before, and a result records all the services that were named.
  abbrev pub SnapshotEnds :
      IpAddr
      → List Text
      → List ServiceDns
      → World S
      → Result (List DnsAddr × List ServiceDns) Error × World S
      → Type 0
  SnapshotEnds server names services w out =
      Keeps view w out.1
      × ((both : List DnsAddr × List ServiceDns)
          → out.0 ≡ ok both
          → (new : List ServiceDns) × (both.1 ≡ services ++ new)
            × (names_of new ≡ names)
            × Records (view w.machine).dns new
            × NoneLists (show_ip server) new)

module _ {S : Type 0} (view : S → View) where
  SnapshotEnds-step :
      (server : IpAddr) (name : Text) (names : List Text) (services : List ServiceDns)
      (w w1 : World S) (servers : List Text)
      (out : Result (List DnsAddr × List ServiceDns) Error × World S)
      → Keeps view w w1
      → (servers ≡ (view w.machine).dns name) × (settled servers ≡ servers)
      → contains_text servers (show_ip server) ≡ false
      → SnapshotEnds view server names (services ++ (entry name servers ∷ [])) w1 out
      → SnapshotEnds view server (name ∷ names) services w out
  SnapshotEnds-step server name names services w w1 servers out keeps read fresh h = (
    (h.0.0 ∙ keeps.0, h.0.1 ∙ keeps.1, h.0.2 ∙ keeps.2),
    λ both e.
        let (new, all, named, records, unlisted) = h.1 both e in
        (
          entry name servers ∷ new,
          all ∙ append_assoc services (entry name servers ∷ []) new,
          ap (◌∷◌ name) named,
          (read, subst (λ (v : View). Records v.dns new) keeps.0 records),
          (fresh, unlisted),
        ),
  )

module _ {S : Type 0} {host : Host S} {view : S → View} (law : IsNetworksetup host view) where
  pub snapshot_services_lem :
      (server : IpAddr) (names : List Text) (fallback : List DnsAddr) (services : List ServiceDns)
      (w : World S)
      → SnapshotEnds view server names services w
          (snapshot_services host server names fallback services w)
  snapshot_services_lem server [] fallback services w =
      subst (SnapshotEnds view server [] services w)
        (sym (snapshot_end host server fallback services w))
        ((refl, refl, refl), λ both e. ([], ground (arith, append-nil services), refl, tt, tt))
  snapshot_services_lem server (name ∷ names) fallback services w =
      let lem = get_dns_servers_lem law name w in
      elim (Result-cases (get_dns_servers host name w).0) [
        | inr (e, failed) ↦
            subst (SnapshotEnds view server (name ∷ names) services w)
              (sym (snapshot_failed host server name names fallback services w e failed))
              (lem.0, λ both h. absurd (ground arith))
        | inl (servers, got) ↦ elim (Bool-cases (contains_text servers (show_ip server))) [
          | inl listed ↦
              subst (SnapshotEnds view server (name ∷ names) services w)
                (sym
                  (snapshot_refused host server name names fallback services w servers got listed))
                (lem.0, λ both h. absurd (ground arith))
          | inr fresh ↦
              subst (SnapshotEnds view server (name ∷ names) services w)
                (sym (snapshot_next host server name names fallback services w servers got fresh))
                (SnapshotEnds-step view server name names services w (get_dns_servers host name w).1
                  servers
                  (snapshot_services host server names
                    (fallback ++ parsed_sockets host.interface_index servers)
                    (services ++ (entry name servers ∷ [])) (get_dns_servers host name w).1)
                  lem.0 (lem.1 servers got) fresh
                  (snapshot_services_lem server names
                    (fallback ++ parsed_sockets host.interface_index servers)
                    (services ++ (entry name servers ∷ [])) (get_dns_servers host name w).1))
        ]
      ]
