-- ===== src/Osdns/Release/Owned.antt =====
-- `release` where there is a backup, of src/osdns/macos.rs.
use mathlib.Core.Path.{subst}
use dnsrivet.Prelude.{
  ◌⊎◌, ◌≡◌, refl, sym, ap, ◌∙◌, Bool, true, false, some, arith, Result, ok, err, inl, inr,
}
use dnsrivet.Osdns.Backup.{Backup}
use dnsrivet.Osdns.Tools.{Error, remove_marker_failed, Host, World, remove_marker}
use dnsrivet.Osdns.Tools.Files.{remove_marker_ends}
use dnsrivet.Osdns.Commands.{flush_caches}
use dnsrivet.Osdns.Commands.Laws.{View, IsNetworksetup, flush_caches_lem}
use dnsrivet.Osdns.Release.{restore_at, restore, release}
use dnsrivet.Osdns.Release.Restored.{restored, with_dns}
use dnsrivet.Osdns.Release.Verified.{AllIndependent}
use dnsrivet.Osdns.Release.Ends.{IsRestored, RestoreEnds, restore_at_ends}

module _ {S : Type 0} (host : Host S) (b : Backup) (w : World S) (stored : w.backup ≡ some b) where
  restore_failed :
      (e : Error) → (restore_at host w).0 ≡ err e → restore host w ≡ (err e, (restore_at host w).1)
  unfolding restore
  restore_failed e h = ground arith

  pub restore_done :
      (restore_at host w).0 ≡ ok tt
      → restore host w ≡ (ok true, flush_caches host (restore_at host w).1)
  unfolding restore
  restore_done h = ground arith

  release_marked :
      (e : Error) → (remove_marker w).0 ≡ err e → release host w ≡ (err e, (remove_marker w).1)
  unfolding release
  release_marked e h = ground arith

  pub release_restores :
      (remove_marker w).0 ≡ ok tt → release host w ≡ restore host (remove_marker w).1
  unfolding release
  release_restores h = ground arith

module _ {S : Type 0} {host : Host S} {view : S → View} (law : IsNetworksetup host view) where
  -- What a view of the machine says does not change by a flush.
  IsRestored-flush :
      (b : Backup) (w w1 : World S)
      → IsRestored host view b w w1
      → IsRestored host view b w (flush_caches host w1)
  IsRestored-flush b w w1 done =
      let flushed = flush_caches_lem law w1 in
      record {
        backup_gone = flushed.1 ∙ done.backup_gone;
        dns_restored = flushed.0 ∙ done.dns_restored;
        independent =
            subst (λ (v : View). AllIndependent host b v.dns v.all) (sym flushed.0)
              done.independent;
      }

  restore_ends :
      (b : Backup) (w : World S)
      → w.backup ≡ some b
      → RestoreEnds host view b w true (restore host w)
  restore_ends b w stored =
      let ends = restore_at_ends law b w stored in
      let w1 = (restore_at host w).1 in
      let P = RestoreEnds host view b w true in
      elim ends.1 [
        | inl (fine, done) ↦
            subst P (sym (restore_done host b w stored fine))
              ((flush_caches_lem law w1).2 ∙ ends.0, inl (refl, IsRestored-flush b w w1 done))
        | inr (e, failed, kept) ↦
            subst P (sym (restore_failed host b w stored e failed)) (ends.0, inr (e, refl, kept))
      ]

  -- With a backup `release` either restores or keeps the backup. If it succeeds, every service of
  -- the backup that still exists has its servers back, no other service has changed, no service
  -- that exists may use DNSRivet, and the backup and the marker are gone. If it fails, the marker
  -- is gone or as it was. This holds whichever
  -- commands and file operations fail.
  pub release_ends :
      (b : Backup) (w : World S)
      → w.backup ≡ some b
      → let (r, w') = release host w in
        ((r ≡ ok true) × (w'.marker ≡ false) × IsRestored host view b w w')
        ⊎ ((e : Error) × (r ≡ err e)
            × (w'.backup ≡ some b)
            × ((w'.marker ≡ false) ⊎ (w'.marker ≡ w.marker)))
  release_ends b w stored =
      let w1 = (remove_marker w).1 in
      let P = λ (out : Result Bool Error × World S).
        ((out.0 ≡ ok true) × (out.1.marker ≡ false) × IsRestored host view b w out.1)
        ⊎ ((e : Error) × (out.0 ≡ err e)
            × (out.1.backup ≡ some b)
            × ((out.1.marker ≡ false) ⊎ (out.1.marker ≡ w.marker))) in
      elim (remove_marker_ends w).1 [
        | inr kept ↦
            subst P (sym (release_marked host b w stored remove_marker_failed (ground arith)))
              (inr (remove_marker_failed, refl, ground arith, inr (ground arith)))
        | inl removed ↦
            let same : w1.machine ≡ w.machine = ground arith in
            let ends = restore_ends b w1 (ground arith) in
            subst P (sym (release_restores host b w stored (ground arith))) (elim ends.1 [
              | inl (fine, done) ↦ inl (
                fine,
                ends.0 ∙ ground arith,
                record {
                  backup_gone = done.backup_gone;
                  dns_restored =
                      done.dns_restored
                      ∙ ap (λ s. with_dns (view s) (restored (view s).all b.services (view s).dns))
                          same;
                  independent = done.independent;
                },
              )
              | inr (e, failed, kept) ↦ inr (e, failed, kept, inl (ends.0 ∙ ground arith))
            ])
      ]
