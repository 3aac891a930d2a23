-- ===== src/Osdns/Takeover/Ends.antt =====
-- The outcome of `take_over`, of src/osdns/macos.rs, whatever commands and file operations fail.
use mathlib.Core.Path.{subst}
use dnsrivet.Prelude.{
  ◌≡◌, refl, sym, ap, ◌∙◌, true, false, none, some, List, [], ◌∷◌, arith, Result, ok, err,
  Bool-cases, Result-cases, Option-cases, inl, inr,
}
use dnsrivet.Prelude.Texts.{Text}
use dnsrivet.Upstream.Net.{IpAddr}
use dnsrivet.Osdns.IpText.{show_ip}
use dnsrivet.Osdns.Addresses.{DnsAddr}
use dnsrivet.Osdns.Backup.{ServiceDns, Backup}
use dnsrivet.Osdns.Tools.{Error, already_backed_up, no_services, Host, World}
use dnsrivet.Osdns.Commands.{list_services, effective_dns_servers}
use dnsrivet.Osdns.Commands.Laws.{
  View, settled, IsNetworksetup, Keeps, Keeps-trans, list_services_lem, effective_dns_servers_lem,
}
use dnsrivet.Osdns.Takeover.{
  take_over, apply_takeover, takeover_backup, snapshot_services, or_none, no_service,
}
use dnsrivet.Osdns.Takeover.Rollback.{Records}
use dnsrivet.Osdns.Takeover.Switch.{names_of}
use dnsrivet.Osdns.Takeover.Snapshot.{NoneLists, snapshot_services_lem}
use dnsrivet.Osdns.Takeover.Outcome.{IsRecorded, TakeOverEnds}
use dnsrivet.Osdns.Takeover.Apply.{untouched_ends, apply_takeover_ends}

module _ {S : Type 0} (host : Host S) (server : IpAddr) (w : World S) where
  abbrev effective : Result (List DnsAddr) Error × World S
  effective = effective_dns_servers host w

  abbrev listed : Result (List Text) Error × World S
  listed = list_services host effective.1

  abbrev snapped : List Text → Result (List DnsAddr × List ServiceDns) Error × World S
  snapped names = snapshot_services host server names (or_none effective.0) [] listed.1

  take_over_again :
      (b : Backup) → w.backup ≡ some b → take_over host server w ≡ (err already_backed_up, w)
  unfolding take_over
  take_over_again b h = ground arith

  module _ (fresh : w.backup ≡ none) where
    take_over_unlisted :
        (e : Error) → listed.0 ≡ err e → take_over host server w ≡ (err e, listed.1)
    unfolding take_over
    take_over_unlisted e h = ground arith

    take_over_unsnapped :
        (names : List Text) (e : Error)
        → listed.0 ≡ ok names
        → (snapped names).0 ≡ err e
        → take_over host server w ≡ (err e, (snapped names).1)
    unfolding take_over
    take_over_unsnapped names e h k = ground arith

    take_over_empty :
        (names : List Text) (fallback : List DnsAddr) (services : List ServiceDns)
        → listed.0 ≡ ok names
        → (snapped names).0 ≡ ok (fallback, services)
        → no_service services ≡ true
        → take_over host server w ≡ (err no_services, (snapped names).1)
    unfolding take_over
    take_over_empty names fallback services h k l = ground arith

    pub take_over_applied :
        (names : List Text) (fallback : List DnsAddr) (services : List ServiceDns)
        → listed.0 ≡ ok names
        → (snapped names).0 ≡ ok (fallback, services)
        → no_service services ≡ false
        → take_over host server w ≡ apply_takeover host server fallback services (snapped names).1
    unfolding take_over
    take_over_applied names fallback services h k l = ground arith

recorded_now :
    (server : IpAddr) (v : View) (fallback : List DnsAddr) (new : List ServiceDns)
    → names_of new ≡ v.enabled
    → Records v.dns new
    → NoneLists (show_ip server) new
    → IsRecorded server v (takeover_backup server fallback new)
unfolding takeover_backup
recorded_now server v fallback new named records unlisted = record {
  version_is = refl;
  takeovers_are = refl;
  services_are = named;
  records = records;
  unlisted = unlisted;
}

module _ {S : Type 0} {host : Host S} {view : S → View} (law : IsNetworksetup host view)
    (server : IpAddr) (plain : settled (show_ip server ∷ []) ≡ show_ip server ∷ [])
    (w : World S) where
  abbrev P : Result (Unit {0}) Error × World S → Type 0
  P = TakeOverEnds view server w

  snapped_ends :
      w.backup ≡ none
      → (names : List Text) → (listed host server w).0 ≡ ok names
      → names ≡ (view w.machine).enabled
      → Keeps view w (listed host server w).1
      → P (take_over host server w)
  snapped_ends fresh names was_listed enabled keeps =
      let lem =
        snapshot_services_lem law server names (or_none (effective host server w).0) []
          (listed host server w).1 in
      let keeps3 =
        Keeps-trans view w (listed host server w).1 (snapped host server w names).1 keeps lem.0 in
      elim (Result-cases (snapped host server w names).0) [
        | inr (e, failed) ↦
            subst P (sym (take_over_unsnapped host server w fresh names e was_listed failed))
              (untouched_ends view server w (snapped host server w names).1 e keeps3)
        | inl ((fallback, services), snapped_all) ↦ elim (Bool-cases (no_service services)) [
          | inl empty ↦
              subst P
                (sym (
                  take_over_empty host server w fresh names fallback services was_listed snapped_all
                    empty))
                (untouched_ends view server w (snapped host server w names).1 no_services keeps3)
          | inr some_service ↦
              let (new, all, named, records, unlisted) = lem.1 (fallback, services) snapped_all in
              subst P
                (sym (
                  take_over_applied host server w fresh names fallback services was_listed
                    snapped_all some_service))
                (apply_takeover_ends law server fallback services w (snapped host server w names).1
                  plain keeps3 fresh
                  (subst
                    (λ l. IsRecorded server (view w.machine) (takeover_backup server fallback l))
                    (sym all)
                    (recorded_now server (view w.machine) fallback new (named ∙ enabled)
                      (subst (λ (v : View). Records v.dns new) keeps.0 records) unlisted)))
        ]
      ]

  -- `take_over` either ends with the takeover in force, or it fails, leaves the marker alone, and
  -- has either changed no setting and left the backup as it was, or left a backup that records
  -- the servers of every enabled service. In force means: there was no backup before, each enabled
  -- service has the address as its one DNS server and no other service has changed, the marker is
  -- there, and the backup records, for all enabled services, the servers from before, none of
  -- which is the address. This holds whichever commands and file operations fail.
  pub take_over_ends : TakeOverEnds view server w (take_over host server w)
  take_over_ends =
      let effective_keeps = effective_dns_servers_lem law w in
      let lem = list_services_lem law (effective host server w).1 in
      let keeps =
        Keeps-trans view w (effective host server w).1 (listed host server w).1 effective_keeps
          lem.0 in
      elim (Option-cases w.backup) [
        | inr (b, present) ↦
            subst P (sym (take_over_again host server w b present))
              (untouched_ends view server w w already_backed_up (refl, refl, refl))
        | inl fresh ↦ elim (Result-cases (listed host server w).0) [
          | inr (e, failed) ↦
              subst P (sym (take_over_unlisted host server w fresh e failed))
                (untouched_ends view server w (listed host server w).1 e keeps)
          | inl (names, was_listed) ↦
              snapped_ends fresh names was_listed
                (lem.1 names was_listed ∙ ap (λ (v : View). v.enabled) effective_keeps.0) keeps
        ]
      ]
