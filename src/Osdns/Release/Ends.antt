-- ===== src/Osdns/Release/Ends.antt =====
-- The outcome of `release`, of src/osdns/macos.rs, whatever commands and file operations fail.
use mathlib.Core.Path.{subst}
use dnsrivet.Prelude.{
  ◌⊎◌, ◌≡◌, refl, sym, ap, ◌∙◌, true, false, none, some, List, arith, Result, ok, err, Bool-cases,
  Result-cases, inl, inr,
}
use dnsrivet.Prelude.Texts.{Text}
use dnsrivet.Osdns.Backup.{Backup, is_supported}
use dnsrivet.Osdns.Tools.{
  any_error, any_error→none_left, Error, Errors, none_left, unsupported_version, restore_refused,
  read_backup_failed, remove_backup_failed, Host, World, remove_backup, read_backup,
}
use dnsrivet.Osdns.Tools.Files.{remove_backup_ends, read_backup_ends}
use dnsrivet.Osdns.Commands.{list_all_services}
use dnsrivet.Osdns.Commands.Laws.{View, IsNetworksetup, Keeps, list_all_services_lem}
use dnsrivet.Osdns.Release.{set_back, verify, restore_at}
use dnsrivet.Osdns.Release.Restored.{restored, with_dns, set_back_ends}
use dnsrivet.Osdns.Release.Verified.{AllIndependent, verify_lem}

module _ {S : Type 0} (host : Host S) (w : World S) where
  abbrev pub read : Result Backup Error × World S
  read = read_backup w

  abbrev pub listed : Result (List Text) Error × World S
  listed = list_all_services host read.1

  module _ (b : Backup) (got : read.0 ≡ ok b) where
    abbrev pub wrote : List Text → Errors × World S
    wrote names = set_back host names b.services none_left listed.1

    abbrev pub checked : List Text → Errors × World S
    checked names = verify host b (wrote names).0 (wrote names).1

    restore_unsupported :
        is_supported b ≡ false → restore_at host w ≡ (err (unsupported_version b.version), read.1)
    unfolding restore_at
    restore_unsupported h = ground arith

    module _ (supported : is_supported b ≡ true) where
      restore_unlisted : (e : Error) → listed.0 ≡ err e → restore_at host w ≡ (err e, listed.1)
      unfolding restore_at
      restore_unlisted e h = ground arith

      restore_refused_at :
          (names : List Text)
          → listed.0 ≡ ok names
          → any_error (checked names).0 ≡ true
          → restore_at host w ≡ (err (restore_refused (checked names).0), (checked names).1)
      unfolding restore_at
      restore_refused_at names h k = ground arith

      pub restore_checked :
          (names : List Text)
          → listed.0 ≡ ok names
          → any_error (checked names).0 ≡ false
          → restore_at host w ≡ remove_backup (checked names).1
      unfolding restore_at
      restore_checked names h k = ground arith

  restore_unread : (e : Error) → read.0 ≡ err e → restore_at host w ≡ (err e, read.1)
  unfolding restore_at
  restore_unread e h = ground arith

-- How the restore of the backup `b` can end.
module _ {S : Type 0} (host : Host S) (view : S → View) (b : Backup) (w : World S) where
  -- Every service of the backup that exists has its servers back, no other one has changed, and no
  -- service may use DNSRivet any more.
  pub record IsRestored (w' : World S) : Type 0 where
    pub backup_gone : w'.backup ≡ none
    pub dns_restored :
        view w'.machine
        ≡ with_dns (view w.machine) (restored (view w.machine).all b.services (view w.machine).dns)
    pub independent : AllIndependent host b (view w'.machine).dns (view w'.machine).all

  abbrev pub RestoreEnds : {A : Type 0} → A → Result A Error × World S → Type 0
  RestoreEnds done out =
      (out.1.marker ≡ w.marker)
      × (((out.0 ≡ ok done) × IsRestored out.1)
          ⊎ ((e : Error) × (out.0 ≡ err e) × (out.1.backup ≡ some b)))

module _ {S : Type 0} {host : Host S} {view : S → View} (law : IsNetworksetup host view)
    (b : Backup) (w : World S) (stored : w.backup ≡ some b) where
  abbrev P : Result (Unit {0}) Error × World S → Type 0
  P = RestoreEnds host view b w tt

  failed_ends :
      (e : Error) (w' : World S) → w'.backup ≡ w.backup → w'.marker ≡ w.marker → P (err e, w')
  failed_ends e w' backup marker = (marker, inr (e, refl, backup ∙ stored))

  removed_ends :
      (w' : World S)
      → view w'.machine
        ≡ with_dns (view w.machine) (restored (view w.machine).all b.services (view w.machine).dns)
      → AllIndependent host b (view w'.machine).dns (view w'.machine).all
      → w'.backup ≡ w.backup
      → w'.marker ≡ w.marker
      → P (remove_backup w')
  removed_ends w' now independent backup marker = elim (remove_backup_ends w').1 [
    | inl gone ↦ subst P (sym gone) (
      marker,
      inl (refl, record { backup_gone = refl; dns_restored = now; independent = independent }),
    )
    | inr kept ↦ subst P (sym kept) (marker, inr (remove_backup_failed, refl, backup ∙ stored))
  ]

  view_after :
      (v1 v0 : View) (names : List Text) {v2 : View}
      → v2 ≡ with_dns v1 (restored names b.services v1.dns)
      → v1 ≡ v0
      → names ≡ v0.all
      → v2 ≡ with_dns v0 (restored v0.all b.services v0.dns)
  view_after v1 v0 names written same all =
      written
      ∙ ap (λ (v : View). with_dns v (restored names b.services v.dns)) same
      ∙ ap (λ l. with_dns v0 (restored l b.services v0.dns)) all

  module _ (got : (read host w).0 ≡ ok b) (supported : is_supported b ≡ true)
      (keeps0 : Keeps view w (listed host w).1) (names : List Text)
      (was_listed : (listed host w).0 ≡ ok names) (all : names ≡ (view w.machine).all) where
    abbrev w2 : World S
    w2 = (wrote host w b got names).1

    abbrev w3 : World S
    w3 = (checked host w b got names).1

    checked_ends : P (restore_at host w)
    checked_ends =
        let set = set_back_ends law names b.services none_left (listed host w).1 in
        let seen = verify_lem law b (wrote host w b got names).0 w2 in
        let backup3 = seen.0.1 ∙ set.0 ∙ keeps0.1 in
        let marker3 = seen.0.2 ∙ set.1 ∙ keeps0.2 in
        elim (Bool-cases (any_error (checked host w b got names).0)) [
          | inl some_error ↦
              subst P (sym (restore_refused_at host w b got supported names was_listed some_error))
                (failed_ends (restore_refused (checked host w b got names).0) w3 backup3 marker3)
          | inr no_error ↦
              subst P (sym (restore_checked host w b got supported names was_listed no_error)) (
                let clean = seen.1 (any_error→none_left (checked host w b got names).0 no_error) in
                let now =
                  view_after (view (listed host w).1.machine) (view w.machine) names
                    (set.2 clean.0).1 keeps0.0 all in
                removed_ends w3 (seen.0.0 ∙ now)
                  (subst (λ (v : View). AllIndependent host b v.dns v.all) (sym seen.0.0) clean.1)
                  backup3 marker3)
        ]

  pub restore_at_ends : P (restore_at host w)
  restore_at_ends = elim (read_backup_ends b w stored).1 [
    | inr unread ↦
        subst P (sym (restore_unread host w read_backup_failed (ground arith)))
          (failed_ends read_backup_failed (read host w).1 (ground arith) (ground arith))
    | inl fine ↦
        let got : (read host w).0 ≡ ok b = ground arith in
        let lem = list_all_services_lem law (read host w).1 in
        let keeps0 : Keeps view w (read host w).1 = ground arith in
        let keeps1 : Keeps view w (listed host w).1 =
          (lem.0.0 ∙ keeps0.0, lem.0.1 ∙ keeps0.1, lem.0.2 ∙ keeps0.2) in
        elim (Bool-cases (is_supported b)) [
          | inr old ↦
              subst P (sym (restore_unsupported host w b got old))
                (failed_ends (unsupported_version b.version) (read host w).1 keeps0.1 keeps0.2)
          | inl supported ↦ elim (Result-cases (listed host w).0) [
            | inr (e, unlisted) ↦
                subst P (sym (restore_unlisted host w b got supported e unlisted))
                  (failed_ends e (listed host w).1 keeps1.1 keeps1.2)
            | inl (names, was_listed) ↦
                checked_ends got supported keeps1 names was_listed
                  (lem.1 names was_listed ∙ ap (λ (v : View). v.all) keeps0.0)
          ]
        ]
  ]
