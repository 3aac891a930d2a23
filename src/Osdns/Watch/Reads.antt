-- ===== src/Osdns/Watch/Reads.antt =====
-- What the reads of a watchdog's tick give, of src/osdns/macos.rs.
use mathlib.Core.Path.{subst}
use dnsrivet.Prelude.{
  ◌≡◌, refl, sym, ap, ◌∙◌, some, List, [], ◌∷◌, arith, Result, ok, err, Bool-cases, Result-cases,
  inl, inr,
}
use dnsrivet.Prelude.Texts.{Text}
use dnsrivet.Upstream.Net.{IpAddr}
use dnsrivet.Osdns.Backup.{ServiceDns, Backup, has_service}
use dnsrivet.Osdns.Tools.{Error, read_backup_failed, Host, World, read_backup}
use dnsrivet.Osdns.Tools.Files.{read_backup_ends}
use dnsrivet.Osdns.Commands.{list_all_services, get_dns_servers}
use dnsrivet.Osdns.Commands.Laws.{
  View, IsNetworksetup, Keeps, Keeps-trans, list_all_services_lem, get_dns_servers_lem,
  effective_dns_servers_lem,
}
use dnsrivet.Osdns.Watch.{
  services_needing_reassert, read_new_services, snapshot_existing, service_dns_snapshot,
  capture_runtime_fallback,
}
use dnsrivet.Osdns.Watch.Drift.{Covered, snapshot_existing_lem}

module _ {S : Type 0} (host : Host S) (w : World S) where
  snapshot_no_backup :
      (e : Error)
      → (read_backup w).0 ≡ err e
      → service_dns_snapshot host w ≡ (err e, (read_backup w).1)
  unfolding service_dns_snapshot
  snapshot_no_backup e h = ground arith

  module _ (b : Backup) where
    abbrev listed_all : Result (List Text) Error × World S
    listed_all = list_all_services host (read_backup w).1

    snapshot_no_list :
        (e : Error)
        → (read_backup w).0 ≡ ok b
        → listed_all.0 ≡ err e
        → service_dns_snapshot host w ≡ (err e, listed_all.1)
    unfolding service_dns_snapshot
    snapshot_no_list e h k = ground arith

    snapshot_of_services :
        (names : List Text)
        → (read_backup w).0 ≡ ok b
        → listed_all.0 ≡ ok names
        → service_dns_snapshot host w ≡ snapshot_existing host names b.services listed_all.1
    unfolding service_dns_snapshot
    snapshot_of_services names h k = ground arith

module _ {S : Type 0} {host : Host S} {view : S → View} (law : IsNetworksetup host view) where
  pub read_new_services_lem :
      (known : List ServiceDns) (names : List Text) (w : World S)
      → Keeps view w (read_new_services host known names w).1
  unfolding read_new_services
  read_new_services_lem known [] w = (refl, refl, refl)
  read_new_services_lem known (name ∷ names) w =
      let lem = get_dns_servers_lem law name w in
      let rest = read_new_services_lem known names (get_dns_servers host name w).1 in
      let skipped = read_new_services_lem known names w in
      elim (Bool-cases (has_service known name)) [
        | inl there ↦ ground (arith, skipped)
        | inr new ↦ elim (Result-cases (get_dns_servers host name w).0) [
          | inr (e, failed) ↦ ground (arith, lem.0)
          | inl (servers, got) ↦
              elim (Result-cases
                (read_new_services host known names (get_dns_servers host name w).1).0) [
                  | inr (e, failed) ↦ ground (arith, lem.0, rest)
                  | inl (found, saw) ↦ ground (arith, lem.0, rest)
                ]
        ]
      ]

  pub capture_runtime_fallback_lem :
      (server : IpAddr) (w : World S) → Keeps view w (capture_runtime_fallback host server w).1
  unfolding capture_runtime_fallback
  capture_runtime_fallback_lem server w = effective_dns_servers_lem law w

  -- The snapshot of the services in the backup that stands on the disk.
  abbrev pub Sees : Text → Backup → World S → Result (List ServiceDns) Error × World S → Type 0
  Sees expected b w out =
      Keeps view w out.1
      × ((current : List ServiceDns)
          → out.0 ≡ ok current
          → Covered expected (services_needing_reassert current expected) (view w.machine).all
              (view w.machine).dns b.services)

  pub service_dns_snapshot_lem :
      (expected : Text) (b : Backup) (w : World S)
      → w.backup ≡ some b
      → Sees expected b w (service_dns_snapshot host w)
  service_dns_snapshot_lem expected b w stored =
      let P = Sees expected b w in
      let w1 = (read_backup w).1 in
      let w2 = (list_all_services host w1).1 in
      let lem = list_all_services_lem law w1 in
      elim (read_backup_ends b w stored).1 [
        | inr failed ↦
            subst P (sym (snapshot_no_backup host w read_backup_failed (ground arith)))
              (ground arith, λ current h. absurd (ground arith))
        | inl fine ↦
            let keeps1 : Keeps view w w1 = ground arith in
            let keeps2 = Keeps-trans view w w1 w2 keeps1 lem.0 in
            elim (Result-cases (list_all_services host w1).0) [
              | inr (e, failed) ↦
                  subst P (sym (snapshot_no_list host w b e (ground arith) failed))
                    (keeps2, λ current h. absurd (ground arith))
              | inl (names, listed) ↦
                  let seen = snapshot_existing_lem law expected names b.services w2 in
                  subst P (sym (snapshot_of_services host w b names (ground arith) listed)) (
                    Keeps-trans view w w2 (snapshot_existing host names b.services w2).1 keeps2
                        seen.0,
                    λ current h.
                        subst
                          (λ l.
                            Covered expected (services_needing_reassert current expected) l
                              (view w.machine).dns b.services)
                          (lem.1 names listed ∙ ap (λ (v : View). v.all) keeps1.0)
                          (subst
                            (λ (v : View).
                              Covered expected (services_needing_reassert current expected) names
                                v.dns b.services)
                            keeps2.0 (seen.1 current h)),
                  )
            ]
      ]
