-- ===== src/Osdns/Release/Verified.antt =====
-- What the check of `restore_at` after its writes finds, of src/osdns/macos.rs.
use mathlib.Core.Path.{subst}
use dnsrivet.Prelude.{
  ◌≡◌, refl, sym, ◌∙◌, false, List, [], ◌∷◌, arith, Result, ok, err, Bool-cases, Result-cases, inl,
  inr,
}
use dnsrivet.Prelude.Texts.{Text}
use dnsrivet.Osdns.Backup.{Backup, dns_may_depend_on_takeover}
use dnsrivet.Osdns.Tools.{not_none, Error, Errors, none_left, and_also, Host, World}
use dnsrivet.Osdns.Commands.{get_dns_servers, list_all_services}
use dnsrivet.Osdns.Commands.Laws.{
  View, IsNetworksetup, Keeps, get_dns_servers_lem, list_all_services_lem,
}
use dnsrivet.Osdns.Release.{check_service, check_services, verify}

-- No service may still use DNSRivet.
abbrev pub AllIndependent : {S : Type 0} → Host S → Backup → (Text → List Text) → List Text → Type 0
AllIndependent host b dns [] = Unit
AllIndependent host b dns (name ∷ names) =
    (dns_may_depend_on_takeover host.interface_index b name (dns name) ≡ false)
    × AllIndependent host b dns names

module _ {S : Type 0} {host : Host S} {view : S → View} (law : IsNetworksetup host view)
    (b : Backup) where
  check_service_clean :
      (name : Text) (r : Result (List Text) Error) (errors : Errors)
      → check_service host b name r errors ≡ none_left
      → (errors ≡ none_left)
        × (servers : List Text) × (r ≡ ok servers)
        × (dns_may_depend_on_takeover host.interface_index b name servers ≡ false)
  unfolding check_service
  check_service_clean name (err e) errors h = absurd (not_none errors e h)
  check_service_clean name (ok servers) errors h =
      elim (Bool-cases (dns_may_depend_on_takeover host.interface_index b name servers)) [
        | inl depends ↦ absurd (ground arith)
        | inr free ↦ (ground arith, servers, refl, free)
      ]

  -- Where no error was noted, no service that was read may use DNSRivet.
  pub check_services_lem :
      (names : List Text) (errors : Errors) (w : World S)
      → let (errors', w') = check_services host b names errors w in
        Keeps view w w'
        × (errors' ≡ none_left
            → (errors ≡ none_left) × AllIndependent host b (view w.machine).dns names)
  unfolding check_services
  check_services_lem [] errors w = ((refl, refl, refl), λ h. (h, tt))
  check_services_lem (name ∷ names) errors w =
      let lem = get_dns_servers_lem law name w in
      let w1 = (get_dns_servers host name w).1 in
      let rest =
        check_services_lem names (check_service host b name (get_dns_servers host name w).0 errors)
          w1 in
      (
        (rest.0.0 ∙ lem.0.0, rest.0.1 ∙ lem.0.1, rest.0.2 ∙ lem.0.2),
        λ h.
            let (clean, servers, got, free) =
              check_service_clean name (get_dns_servers host name w).0 errors (rest.1 h).0 in
            (
              clean,
              (
                subst (λ d. dns_may_depend_on_takeover host.interface_index b name d ≡ false)
                    (lem.1 servers got).0 free,
                subst (λ (v : View). AllIndependent host b v.dns names) lem.0.0 (rest.1 h).1,
              ),
            ),
      )

  pub verify_listed :
      (names : List Text) (errors : Errors) (w : World S)
      → (list_all_services host w).0 ≡ ok names
      → verify host b errors w ≡ check_services host b names errors (list_all_services host w).1
  unfolding verify
  verify_listed names errors w h = ground arith

  verify_unlisted :
      (e : Error) (errors : Errors) (w : World S)
      → (list_all_services host w).0 ≡ err e
      → verify host b errors w ≡ (and_also errors e, (list_all_services host w).1)
  unfolding verify
  verify_unlisted e errors w h = ground arith

  -- Where no error was noted, no service at all may use DNSRivet.
  pub verify_lem :
      (errors : Errors) (w : World S)
      → let (errors', w') = verify host b errors w in
        Keeps view w w'
        × (errors' ≡ none_left
            → (errors ≡ none_left)
              × AllIndependent host b (view w.machine).dns (view w.machine).all)
  verify_lem errors w =
      let lem = list_all_services_lem law w in
      let w1 = (list_all_services host w).1 in
      let P = λ (out : Errors × World S).
        Keeps view w out.1
        × (out.0 ≡ none_left
            → (errors ≡ none_left)
              × AllIndependent host b (view w.machine).dns (view w.machine).all) in
      elim (Result-cases (list_all_services host w).0) [
        | inr (e, failed) ↦
            subst P (sym (verify_unlisted e errors w failed))
              (lem.0, λ h. absurd (not_none errors e h))
        | inl (names, listed) ↦
            let rest = check_services_lem names errors w1 in
            subst P (sym (verify_listed names errors w listed)) (
              (rest.0.0 ∙ lem.0.0, rest.0.1 ∙ lem.0.1, rest.0.2 ∙ lem.0.2),
              λ h. (
                (rest.1 h).0,
                subst (λ l. AllIndependent host b (view w.machine).dns l) (lem.1 names listed)
                    (subst (λ (v : View). AllIndependent host b v.dns names) lem.0.0 (rest.1 h).1),
              ),
            )
      ]
