-- ===== src/Osdns/Watch/Correct.antt =====
-- The end of a watchdog's tick, of src/osdns/macos.rs.
use mathlib.Core.Path.{subst}
use dnsrivet.Prelude.{
  ◌⊎◌, ◌≡◌, ◌≢◌, refl, sym, ◌∙◌, true, false, List, [], ◌∷◌, arith, Result, ok, err, Bool-cases,
  inl, inr,
}
use dnsrivet.Prelude.Texts.{Text, contains_text}
use dnsrivet.Osdns.Addresses.{DnsAddr, CaptureError}
use dnsrivet.Osdns.Backup.{ServiceDns}
use dnsrivet.Osdns.Tools.{
  Error, Errors, none_left, any_error, any_error→none_left, reassert_incomplete, Host, World,
}
use dnsrivet.Osdns.Commands.{flush_caches}
use dnsrivet.Osdns.Commands.Laws.{View, settled, IsNetworksetup, flush_caches_lem}
use dnsrivet.Osdns.Watch.{
  TickOutcome, not_active, clean, reasserted, reassert, correct, captured, capture_error,
  or_no_servers,
}
use dnsrivet.Osdns.Watch.Drift.{AllExact, Covered}
use dnsrivet.Osdns.Watch.Reassert.{reassert_lem, Covered→AllExact}

module _ {S : Type 0} (host : Host S) (expected : Text)
    (capture : Result (List DnsAddr) (CaptureError Error)) (w : World S) where
  correct_clean :
      correct host expected [] capture w
      ≡ (ok (clean (captured capture) (capture_error capture)), w)
  unfolding correct
  correct_clean = refl

  module _ (name : Text) (drifted : List Text) where
    abbrev asserted : Errors × World S
    asserted = reassert host expected (name ∷ drifted) none_left w

    correct_incomplete :
        any_error asserted.0 ≡ true
        → correct host expected (name ∷ drifted) capture w
          ≡ (err (reassert_incomplete asserted.0), flush_caches host asserted.1)
    unfolding correct
    correct_incomplete h = ground arith

    correct_complete :
        any_error asserted.0 ≡ false
        → correct host expected (name ∷ drifted) capture w ≡ (
          ok (
              reasserted
                (name ∷ drifted)
                (or_no_servers (captured capture))
                (capture_error capture)),
          flush_caches host asserted.1,
        )
    unfolding correct
    correct_complete h = ground arith

module _ {S : Type 0} {host : Host S} {view : S → View} (law : IsNetworksetup host view)
    (expected : Text) (plain : settled (expected ∷ []) ≡ expected ∷ []) where
  abbrev pub CorrectEnds : List ServiceDns → World S → Result TickOutcome Error × World S → Type 0
  CorrectEnds services w out =
      (out.1.backup ≡ w.backup)
      × (out.1.marker ≡ w.marker)
      × (((o : TickOutcome) × (out.0 ≡ ok o)
            × (o ≢ not_active)
            × AllExact expected (view out.1.machine).all (view out.1.machine).dns services)
          ⊎ ((e : Error) × (out.0 ≡ err e)))

  pub correct_ends :
      (drifted : List Text) (services : List ServiceDns)
      (capture : Result (List DnsAddr) (CaptureError Error)) (w : World S)
      → Covered expected drifted (view w.machine).all (view w.machine).dns services
      → CorrectEnds services w (correct host expected drifted capture w)
  unfolding contains_text
  correct_ends [] services capture w covered =
      subst (CorrectEnds services w) (sym (correct_clean host expected capture w)) (
        refl,
        refl,
        inl (
          clean (captured capture) (capture_error capture),
          refl,
          λ h. cc,
          Covered→AllExact expected [] (view w.machine).all (view w.machine).dns
              (view w.machine).dns services covered (λ n. refl),
        ),
      )
  correct_ends (name ∷ drifted) services capture w covered =
      let P = CorrectEnds services w in
      let out = asserted host expected capture w name drifted in
      let set = reassert_lem law expected plain (name ∷ drifted) none_left w in
      let flushed = flush_caches_lem law out.1 in
      elim (Bool-cases (any_error out.0)) [
        | inl some_error ↦
            subst P (sym (correct_incomplete host expected capture w name drifted some_error))
              (flushed.1 ∙ set.0, flushed.2 ∙ set.1, inr (reassert_incomplete out.0, refl))
        | inr no_error ↦
            let (_, all, _, later) = set.2 (any_error→none_left out.0 no_error) in
            subst P (sym (correct_complete host expected capture w name drifted no_error)) (
              flushed.1 ∙ set.0,
              flushed.2 ∙ set.1,
              inl (
                reasserted (name ∷ drifted) (or_no_servers (captured capture))
                    (capture_error capture),
                refl,
                λ h. cc,
                subst (λ (v : View). AllExact expected v.all v.dns services) (sym flushed.0)
                    (subst (λ l. AllExact expected l (view out.1.machine).dns services) (sym all)
                      (Covered→AllExact expected (name ∷ drifted) (view w.machine).all
                        (view w.machine).dns (view out.1.machine).dns services covered later)),
              ),
            )
      ]
