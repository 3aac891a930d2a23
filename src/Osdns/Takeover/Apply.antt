-- ===== src/Osdns/Takeover/Apply.antt =====
-- The outcome of the part of `take_over` that changes the machine, of src/osdns/macos.rs.
use mathlib.Core.Path.{subst}
use dnsrivet.Prelude.{
  ◌≡◌, refl, sym, ap, ◌∙◌, true, ◌||◌, none, some, List, [], ◌∷◌, arith, Result, ok, err,
  eq_bytes_self, Bool-cases, inl, inr, if◌then◌else◌,
}
use dnsrivet.Prelude.Texts.{Text, eq_text, contains_text}
use dnsrivet.Upstream.Net.{IpAddr}
use dnsrivet.Osdns.IpText.{show_ip}
use dnsrivet.Osdns.Addresses.{DnsAddr}
use dnsrivet.Osdns.Backup.{ServiceDns, Backup, find_service, has_service}
use dnsrivet.Osdns.Tools.{
  Error, write_backup_failed, create_marker_failed, Host, World, create_marker, write_backup,
}
use dnsrivet.Osdns.Tools.Files.{create_marker_ends, write_backup_ends}
use dnsrivet.Osdns.Commands.{flush_caches}
use dnsrivet.Osdns.Commands.Laws.{View, settled, IsNetworksetup, Keeps, flush_caches_lem}
use dnsrivet.Osdns.Takeover.{apply_takeover, takeover_backup, switch_services}
use dnsrivet.Osdns.Takeover.Rollback.{AllKnown}
use dnsrivet.Osdns.Takeover.Switch.{IsSwitched, names_of, switch_services_lem}
use dnsrivet.Osdns.Takeover.Outcome.{IsRecorded, TakeOverEnds}

module _ {S : Type 0} (host : Host S) (server : IpAddr) (fallback : List DnsAddr)
    (services : List ServiceDns) (w : World S) where
  abbrev pub written : Result (Unit {0}) Error × World S
  written = write_backup (takeover_backup server fallback services) w

  abbrev pub moved : Result (Unit {0}) Error × World S
  moved =
      switch_services host (show_ip server) (takeover_backup server fallback services) services []
        written.1

  abbrev marked : Result (Unit {0}) Error × World S
  marked = create_marker moved.1

  apply_unwritten :
      (e : Error)
      → written.0 ≡ err e
      → apply_takeover host server fallback services w ≡ (err e, written.1)
  unfolding apply_takeover
  apply_unwritten e h = ground arith

  apply_unmoved :
      (e : Error)
      → written.0 ≡ ok tt
      → moved.0 ≡ err e
      → apply_takeover host server fallback services w ≡ (err e, moved.1)
  unfolding apply_takeover
  apply_unmoved e h k = ground arith

  apply_unmarked :
      (e : Error)
      → written.0 ≡ ok tt
      → moved.0 ≡ ok tt
      → marked.0 ≡ err e
      → apply_takeover host server fallback services w ≡ (err e, marked.1)
  unfolding apply_takeover
  apply_unmarked e h k l = ground arith

  pub apply_done :
      written.0 ≡ ok tt
      → moved.0 ≡ ok tt
      → marked.0 ≡ ok tt
      → apply_takeover host server fallback services w ≡ (ok tt, flush_caches host marked.1)
  unfolding apply_takeover
  apply_done h k l = ground arith

AllKnown-cons :
    (s : ServiceDns) (services : List ServiceDns) (names : List Text)
    → AllKnown services names
    → AllKnown (s ∷ services) names
unfolding find_service
AllKnown-cons s services [] h = tt
AllKnown-cons s services (name ∷ names) h = elim (Bool-cases (eq_text s.name name)) [
  | inl here ↦ ((s, ground arith), AllKnown-cons s services names h.1)
  | inr there ↦ ((h.0.0, ground (arith, h.0.1)), AllKnown-cons s services names h.1)
]

pub AllKnown-names_of : (services : List ServiceDns) → AllKnown services (names_of services)
unfolding find_service
AllKnown-names_of [] = tt
AllKnown-names_of (s ∷ services) = (
  (s, ground (arith, eq_bytes_self s.name)),
  AllKnown-cons s services (names_of services) (AllKnown-names_of services),
)

pub contains-names_of :
    (services : List ServiceDns) (n : Text)
    → contains_text (names_of services) n ≡ has_service services n
unfolding contains_text has_service
contains-names_of [] n = refl
contains-names_of (s ∷ services) n = ap (λ b. eq_text s.name n || b) (contains-names_of services n)

-- An error of a step that changed nothing.
pub untouched_ends :
    {S : Type 0} (view : S → View) (server : IpAddr) (w w' : World S) (e : Error)
    → Keeps view w w'
    → TakeOverEnds view server w (err e, w')
untouched_ends view server w w' e keeps = record {
  all_same = ap (λ (v : View). v.all) keeps.0;
  enabled_same = ap (λ (v : View). v.enabled) keeps.0;
  ends = inr (
    e,
    refl,
    keeps.2,
    inl (record { backup_same = keeps.1; dns_same = λ n. ap (λ (v : View). v.dns n) keeps.0 }),
  );
}

module _ {S : Type 0} {host : Host S} {view : S → View} (law : IsNetworksetup host view)
    (server : IpAddr) (fallback : List DnsAddr) (services : List ServiceDns) (w w3 : World S)
    (plain : settled (show_ip server ∷ []) ≡ show_ip server ∷ []) (keeps : Keeps view w w3)
    (fresh : w.backup ≡ none)
    (recorded : IsRecorded server (view w.machine) (takeover_backup server fallback services)) where
  abbrev b : Backup
  b = takeover_backup server fallback services

  module _ (w5 : World S) (all_same : (view w5.machine).all ≡ (view w3.machine).all)
      (enabled_same : (view w5.machine).enabled ≡ (view w3.machine).enabled)
      (stored : w5.backup ≡ some b) where
    restorable_ends : (e : Error) → w5.marker ≡ w3.marker → TakeOverEnds view server w (err e, w5)
    restorable_ends e marker = record {
      all_same = all_same ∙ ap (λ (v : View). v.all) keeps.0;
      enabled_same = enabled_same ∙ ap (λ (v : View). v.enabled) keeps.0;
      ends = inr (
        e,
        refl,
        marker ∙ keeps.2,
        inr (record { fresh = fresh; backup = b; stored = stored; recorded = recorded }),
      );
    }

    taken_over_ends :
        w5.marker ≡ true
        → IsSwitched (show_ip server) (has_service services) (view w.machine).dns (view w5.machine)
        → TakeOverEnds view server w (ok tt, w5)
    unfolding takeover_backup
    taken_over_ends marked switched = record {
      all_same = all_same ∙ ap (λ (v : View). v.all) keeps.0;
      enabled_same = enabled_same ∙ ap (λ (v : View). v.enabled) keeps.0;
      ends = inl (
        refl,
        fresh,
        record {
          backup = b;
          stored = stored;
          recorded = recorded;
          marked = marked;
          switched = λ n.
              switched n
              ∙ ap (λ named. if named then show_ip server ∷ [] else (view w.machine).dns n)
                  (sym (contains-names_of services n)
                    ∙ ap (λ names. contains_text names n) recorded.services_are);
        },
      );
    }

  abbrev P : Result (Unit {0}) Error × World S → Type 0
  P = TakeOverEnds view server w

  abbrev w4 : World S
  w4 = (written host server fallback services w3).1

  abbrev w5 : World S
  w5 = (moved host server fallback services w3).1

  abbrev w6 : World S
  w6 = (marked host server fallback services w3).1

  module _ (wrote : (written host server fallback services w3).0 ≡ ok tt)
      (same4 : w4.machine ≡ w3.machine) (marker4 : w4.marker ≡ w3.marker)
      (stored4 : w4.backup ≡ some b) where
    -- Every service was switched: what is left is the marker.
    marker_ends :
        (moved host server fallback services w3).0 ≡ ok tt
        → (view w5.machine).all ≡ (view w3.machine).all
        → (view w5.machine).enabled ≡ (view w3.machine).enabled
        → w5.marker ≡ w3.marker
        → w5.backup ≡ some b
        → IsSwitched (show_ip server) (has_service services) (view w.machine).dns (view w5.machine)
        → P (apply_takeover host server fallback services w3)
    marker_ends fine all enabled marker stored switched = elim (create_marker_ends w5).1 [
      | inr failed ↦
          subst P
            (sym (
              apply_unmarked host server fallback services w3 create_marker_failed wrote fine
                (ground arith)))
            (restorable_ends w6 (ground arith) (ground arith) (ground arith) create_marker_failed
              (ground arith))
      | inl done ↦
          let flushed = flush_caches_lem law w6 in
          subst P (sym (apply_done host server fallback services w3 wrote fine (ground arith))) (
            taken_over_ends (flush_caches host w6) (ground arith) (ground arith) (ground arith)
              (ground arith)
              (λ n. ap (λ (v : View). v.dns n) flushed.0 ∙ ground (arith, switched n)))
    ]

    switch_ends : P (apply_takeover host server fallback services w3)
    unfolding takeover_backup contains_text
    switch_ends =
        let lem =
          switch_services_lem law (show_ip server) (view w.machine).dns b services [] [] w4 plain
            recorded.records (AllKnown-names_of services) refl tt (λ n. ground (arith, keeps.0))
            stored4 in
        elim lem.ends [
          | inl (fine, stored, switched) ↦
              marker_ends fine (lem.all_same ∙ ap (λ s. (view s).all) same4)
                (lem.enabled_same ∙ ap (λ s. (view s).enabled) same4) (lem.marker_same ∙ marker4)
                stored switched
          | inr (e, failed, inl stored) ↦
              subst P (sym (apply_unmoved host server fallback services w3 e wrote failed)) (
                restorable_ends w5 (lem.all_same ∙ ap (λ s. (view s).all) same4)
                  (lem.enabled_same ∙ ap (λ s. (view s).enabled) same4) stored e
                  (lem.marker_same ∙ marker4))
          | inr (e, failed, inr (gone, same)) ↦
              subst P (sym (apply_unmoved host server fallback services w3 e wrote failed))
                (record {
                  all_same =
                      lem.all_same
                      ∙ ap (λ s. (view s).all) same4
                      ∙ ap (λ (v : View). v.all) keeps.0;
                  enabled_same =
                      lem.enabled_same
                      ∙ ap (λ s. (view s).enabled) same4
                      ∙ ap (λ (v : View). v.enabled) keeps.0;
                  ends = inr (
                    e,
                    refl,
                    lem.marker_same ∙ marker4 ∙ keeps.2,
                    inl (record { backup_same = gone ∙ sym fresh; dns_same = same }),
                  );
                })
        ]

  pub apply_takeover_ends : P (apply_takeover host server fallback services w3)
  apply_takeover_ends = elim (write_backup_ends b w3).1 [
    | inr failed ↦
        subst P
          (sym
            (apply_unwritten host server fallback services w3 write_backup_failed (ground arith)))
          (untouched_ends view server w w4 write_backup_failed (ground arith))
    | inl wrote ↦ switch_ends (ground arith) (ground arith) (ground arith) (ground arith)
  ]
