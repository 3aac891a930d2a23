-- ===== src/Osdns/Watch/Tick.antt =====
-- The outcome of a watchdog's tick, of src/osdns/macos.rs, whatever commands and file operations
-- fail.
use mathlib.Core.Path.{subst}
use dnsrivet.Prelude.{
  ◌⊎◌, ◌≡◌, ◌≢◌, refl, sym, ◌∙◌, true, false, ◌&&◌, none, some, List, [], ◌∷◌, arith, Result, ok,
  err, Result-cases, Option-cases, inl, inr,
}
use dnsrivet.Prelude.Texts.{Text}
use dnsrivet.Upstream.Net.{IpAddr}
use dnsrivet.Osdns.IpText.{show_ip}
use dnsrivet.Osdns.Backup.{ServiceDns, Backup}
use dnsrivet.Osdns.Tools.{Error, backup_exists, read_backup_failed, Host, World, read_backup}
use dnsrivet.Osdns.Tools.Files.{read_backup_ends}
use dnsrivet.Osdns.Commands.Laws.{
  View, settled, IsNetworksetup, Keeps, Keeps-trans, list_services_lem,
}
use dnsrivet.Osdns.Watch.{
  TickOutcome, not_active, services_needing_reassert, active_tick, watchdog_tick,
}
use dnsrivet.Osdns.Watch.Drift.{AllExact, Covered}
use dnsrivet.Osdns.Watch.Prepare.{Grows, prepare_watchdog_backup_lem}
use dnsrivet.Osdns.Watch.Correct.{correct_ends}
use dnsrivet.Osdns.Watch.Reads.{
  read_new_services_lem, capture_runtime_fallback_lem, service_dns_snapshot_lem,
}
use dnsrivet.Osdns.Watch.Steps.{
  w1, listed, found, prepared, seen, capture, tick_unread, tick_unlisted, tick_unfound,
  tick_unprepared, tick_unseen, tick_corrects,
}

-- How a tick can end that finds the backup `b` and the marker.
module _ {S : Type 0} (host : Host S) (view : S → View) (server : IpAddr) (b : Backup)
    (w : World S) where
  -- The takeover is in force for the services of a backup that has grown from `b`.
  pub record IsGuarded (w' : World S) : Type 0 where
    pub backup : Backup
    pub stored : w'.backup ≡ some backup
    pub grows : Grows host.interface_index server b backup
    pub exact :
        AllExact (show_ip server) (view w'.machine).all (view w'.machine).dns backup.services

  -- The backup that is left is `b` or has grown from it.
  pub record IsKept (w' : World S) : Type 0 where
    pub backup : Backup
    pub stored : w'.backup ≡ some backup
    pub grows : (backup ≡ b) ⊎ Grows host.interface_index server b backup

  abbrev pub TickEnds : Result TickOutcome Error × World S → Type 0
  TickEnds out =
      (out.1.marker ≡ w.marker)
      × (((o : TickOutcome) × (out.0 ≡ ok o) × (o ≢ not_active) × IsGuarded out.1)
          ⊎ ((e : Error) × (out.0 ≡ err e) × IsKept out.1))

module _ {S : Type 0} {host : Host S} {view : S → View} (law : IsNetworksetup host view)
    (server : IpAddr) (plain : settled (show_ip server ∷ []) ≡ show_ip server ∷ []) (b : Backup)
    (w : World S) (stored : w.backup ≡ some b) where
  abbrev P : Result TickOutcome Error × World S → Type 0
  P = TickEnds host view server b w

  kept_ends :
      (e : Error) (w' : World S) → w'.backup ≡ w.backup → w'.marker ≡ w.marker → P (err e, w')
  kept_ends e w' backup marker =
      (marker, inr (e, refl, record { backup = b; stored = backup ∙ stored; grows = inl refl }))

  module _ (got : (read_backup w).0 ≡ ok b) (names : List Text)
      (was_listed : (listed host server w).0 ≡ ok names) (new : List ServiceDns)
      (was_found : (found host server w b names).0 ≡ ok new)
      (marker3 : (found host server w b names).1.marker ≡ w.marker) (b' : Backup)
      (fine : (prepared host server w b names new).0 ≡ ok tt)
      (stored4 : (prepared host server w b names new).1.backup ≡ some b')
      (marker4 : (prepared host server w b names new).1.marker
        ≡ (found host server w b names).1.marker)
      (grows : Grows host.interface_index server b b') where
    abbrev w4 : World S
    w4 = (prepared host server w b names new).1

    abbrev w5 : World S
    w5 = (seen host server w b names new).1

    abbrev w6 : World S
    w6 = (capture host server w b names new).1

    corrected_ends : P (active_tick host server w)
    corrected_ends =
        let lem = service_dns_snapshot_lem law (show_ip server) b' w4 stored4 in
        let marker = lem.0.2 ∙ marker4 ∙ marker3 in
        elim (Result-cases (seen host server w b names new).0) [
          | inr (e, failed) ↦
              subst P
                (sym (tick_unseen host server w b got names was_listed new was_found e fine failed))
                (
                  marker,
                  inr (
                    e,
                    refl,
                    record { backup = b'; stored = lem.0.1 ∙ stored4; grows = inr grows },
                  ),
                )
          | inl (current, saw) ↦
              let captured = capture_runtime_fallback_lem law server w5 in
              let same = captured.0 ∙ lem.0.0 in
              let ends =
                correct_ends law (show_ip server) plain
                  (services_needing_reassert current (show_ip server)) b'.services
                  (capture host server w b names new).0 w6
                  (subst
                    (λ (v : View).
                      Covered (show_ip server) (services_needing_reassert current (show_ip server))
                        v.all v.dns b'.services)
                    (sym same) (lem.1 current saw)) in
              subst P
                (sym (
                  tick_corrects host server w b got names was_listed new was_found current fine
                    saw))
                (
                  ends.1 ∙ captured.2 ∙ marker,
                  elim ends.2 [
                    | inl (o, done, some_outcome, exact) ↦ inl (
                      o,
                      done,
                      some_outcome,
                      record {
                        backup = b';
                        stored = ends.0 ∙ captured.1 ∙ lem.0.1 ∙ stored4;
                        grows = grows;
                        exact = exact;
                      },
                    )
                    | inr (e, failed) ↦ inr (
                      e,
                      failed,
                      record {
                        backup = b';
                        stored = ends.0 ∙ captured.1 ∙ lem.0.1 ∙ stored4;
                        grows = inr grows;
                      },
                    )
                  ],
                )
        ]

  prepared_ends :
      (names : List Text) (new : List ServiceDns)
      → (read_backup w).0 ≡ ok b
      → (listed host server w).0 ≡ ok names
      → (found host server w b names).0 ≡ ok new
      → Keeps view w (found host server w b names).1
      → P (active_tick host server w)
  prepared_ends names new got was_listed was_found keeps =
      let lem =
        prepare_watchdog_backup_lem host server b new (found host server w b names).1
          (keeps.1 ∙ stored) in
      elim lem.2 [
        | inl (fine, b', stored4, grows) ↦
            corrected_ends got names was_listed new was_found keeps.2 b' fine stored4 lem.1 grows
        | inr (e, failed, kept) ↦
            subst P
              (sym (tick_unprepared host server w b got names was_listed new was_found e failed))
              (kept_ends e (prepared host server w b names new).1 (kept ∙ sym stored)
                (lem.1 ∙ keeps.2))
      ]

  pub active_tick_ends : P (active_tick host server w)
  active_tick_ends = elim (read_backup_ends b w stored).1 [
    | inr failed ↦
        subst P (sym (tick_unread host server w read_backup_failed (ground arith)))
          (kept_ends read_backup_failed (w1 host server w) (ground arith) (ground arith))
    | inl fine ↦
        let got : (read_backup w).0 ≡ ok b = ground arith in
        let keeps1 : Keeps view w (w1 host server w) = ground arith in
        let keeps2 =
          Keeps-trans view w (w1 host server w) (listed host server w).1 keeps1
            (list_services_lem law (w1 host server w)).0 in
        elim (Result-cases (listed host server w).0) [
          | inr (e, failed) ↦
              subst P (sym (tick_unlisted host server w b got e failed))
                (kept_ends e (listed host server w).1 keeps2.1 keeps2.2)
          | inl (names, was_listed) ↦
              let keeps3 =
                Keeps-trans view w (listed host server w).1 (found host server w b names).1 keeps2
                  (read_new_services_lem law b.services names (listed host server w).1) in
              elim (Result-cases (found host server w b names).0) [
                | inr (e, failed) ↦
                    subst P (sym (tick_unfound host server w b got names was_listed e failed))
                      (kept_ends e (found host server w b names).1 keeps3.1 keeps3.2)
                | inl (new, was_found) ↦ prepared_ends names new got was_listed was_found keeps3
              ]
        ]
  ]

module _ {S : Type 0} (host : Host S) (server : IpAddr) (w : World S) where
  tick_idle :
      (backup_exists w && w.marker) ≡ false → watchdog_tick host server w ≡ (ok not_active, w)
  unfolding watchdog_tick
  tick_idle h = ground arith

  tick_active :
      (backup_exists w && w.marker) ≡ true → watchdog_tick host server w ≡ active_tick host server w
  unfolding watchdog_tick
  tick_active h = ground arith

module _ {S : Type 0} {host : Host S} {view : S → View} (law : IsNetworksetup host view)
    (server : IpAddr) (plain : settled (show_ip server ∷ []) ≡ show_ip server ∷ []) where
  -- A tick does nothing unless there are a backup and a marker.
  pub watchdog_tick-not_active :
      (w : World S)
      → (w.backup ≡ none) ⊎ (w.marker ≡ false)
      → watchdog_tick host server w ≡ (ok not_active, w)
  watchdog_tick-not_active w (inl no_backup) = tick_idle host server w (ground arith)
  watchdog_tick-not_active w (inr unmarked) = elim (Option-cases w.backup) [
    | inl no_backup ↦ tick_idle host server w (ground arith)
    | inr (b, stored) ↦ tick_idle host server w (ground arith)
  ]

  -- A tick that finds a backup and the marker leaves the marker, and it either fails or ends with
  -- the takeover in force: every service of the backup that exists has the address as its one DNS
  -- server. The backup that is left, by a failure too, is the old one or has grown from it: the
  -- recorded services stay in front as they were, an added one was new, did not list the address
  -- and could not depend on the takeover, and the address is in the history unless that is
  -- unknown. This holds whichever commands and file operations fail.
  pub watchdog_tick_ends :
      (b : Backup) (w : World S)
      → w.backup ≡ some b
      → w.marker ≡ true
      → TickEnds host view server b w (watchdog_tick host server w)
  watchdog_tick_ends b w stored marked =
      subst (TickEnds host view server b w) (sym (tick_active host server w (ground arith)))
        (active_tick_ends law server plain b w stored)
