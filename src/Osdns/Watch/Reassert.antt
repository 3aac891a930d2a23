-- ===== src/Osdns/Watch/Reassert.antt =====
-- What the watchdog's reassertion sets, of src/osdns/macos.rs.
use mathlib.Core.Path.{subst}
use dnsrivet.Prelude.{
  ◌≡◌, refl, sym, ap, ◌∙◌, List, [], ◌∷◌, arith, ok, err, Result-cases, inl, inr, if◌then◌else◌,
}
use dnsrivet.Prelude.Texts.{Text, contains_text}
use dnsrivet.Osdns.Backup.{ServiceDns}
use dnsrivet.Osdns.Tools.{Error, Errors, none_left, and_also, not_none, Host, World}
use dnsrivet.Osdns.Commands.{set_dns_servers}
use dnsrivet.Osdns.Commands.Laws.{View, assign, settled, IsNetworksetup, set_dns_servers_lem}
use dnsrivet.Osdns.Watch.{reassert}
use dnsrivet.Osdns.Watch.Drift.{AllExact, Covered}

module _ {S : Type 0} (host : Host S) (expected name : Text) (drifted : List Text) (errors : Errors)
    (w : World S) where
  reassert_set :
      (set_dns_servers host name (expected ∷ []) w).0 ≡ ok tt
      → reassert host expected (name ∷ drifted) errors w
        ≡ reassert host expected drifted errors (set_dns_servers host name (expected ∷ []) w).1
  unfolding reassert
  reassert_set h = ground arith

  reassert_failed :
      (e : Error)
      → (set_dns_servers host name (expected ∷ []) w).0 ≡ err e
      → reassert host expected (name ∷ drifted) errors w
        ≡ reassert host expected drifted
            (and_also errors e)
            (set_dns_servers host name (expected ∷ []) w).1
  unfolding reassert
  reassert_failed e h = ground arith

assigned :
    (expected : Text) (name : Text) (drifted : List Text) (dns : Text → List Text) (n : Text)
    → settled (expected ∷ []) ≡ expected ∷ []
    → (if contains_text drifted n
        then expected ∷ []
        else assign name (settled (expected ∷ [])) dns n)
      ≡ (if contains_text (name ∷ drifted) n then expected ∷ [] else dns n)
unfolding contains_text
assigned expected name drifted dns n plain = ground arith

module _ {S : Type 0} {host : Host S} {view : S → View} (law : IsNetworksetup host view)
    (expected : Text) (plain : settled (expected ∷ []) ≡ expected ∷ []) where
  -- The files are as before, and where no error was noted the named services have the address.
  abbrev pub ReassertSets : List Text → Errors → World S → Errors × World S → Type 0
  ReassertSets drifted errors w out =
      (out.1.backup ≡ w.backup)
      × (out.1.marker ≡ w.marker)
      × (out.0 ≡ none_left
          → (errors ≡ none_left)
            × ((view out.1.machine).all ≡ (view w.machine).all)
            × ((view out.1.machine).enabled ≡ (view w.machine).enabled)
            × ((n : Text)
                → (view out.1.machine).dns n
                  ≡ (if contains_text drifted n then expected ∷ [] else (view w.machine).dns n)))

  pub reassert_lem :
      (drifted : List Text) (errors : Errors) (w : World S)
      → ReassertSets drifted errors w (reassert host expected drifted errors w)
  unfolding reassert contains_text
  reassert_lem [] errors w = (refl, refl, λ h. (h, refl, refl, λ n. refl))
  reassert_lem (name ∷ drifted) errors w =
      let P = ReassertSets (name ∷ drifted) errors w in
      let lem = set_dns_servers_lem law name (expected ∷ []) w in
      let w1 = (set_dns_servers host name (expected ∷ []) w).1 in
      elim (Result-cases (set_dns_servers host name (expected ∷ []) w).0) [
        | inr (e, failed) ↦
            let rest = reassert_lem drifted (and_also errors e) w1 in
            subst P (sym (reassert_failed host expected name drifted errors w e failed))
              (rest.0 ∙ lem.0, rest.1 ∙ lem.1, λ h. absurd (not_none errors e (rest.2 h).0))
        | inl (u, set) ↦
            let rest = reassert_lem drifted errors w1 in
            subst P (sym (reassert_set host expected name drifted errors w set)) (
              rest.0 ∙ lem.0,
              rest.1 ∙ lem.1,
              λ h.
                  let (first, all, enabled, later) = rest.2 h in
                  (
                    first,
                    all ∙ ap (λ (v : View). v.all) (lem.2 set),
                    enabled ∙ ap (λ (v : View). v.enabled) (lem.2 set),
                    λ n.
                        later n
                        ∙ ap
                            (λ (v : View).
                              if contains_text drifted n then expected ∷ [] else v.dns n)
                            (lem.2 set)
                        ∙ assigned expected name drifted (view w.machine).dns n plain,
                  ),
            )
      ]

-- Once those that drifted are set, every service that exists has the address.
pub Covered→AllExact :
    (expected : Text) (drifted all : List Text) (dns dns' : Text → List Text)
    (services : List ServiceDns)
    → Covered expected drifted all dns services
    → ((n : Text) → dns' n ≡ (if contains_text drifted n then expected ∷ [] else dns n))
    → AllExact expected all dns' services
Covered→AllExact expected drifted all dns dns' [] h set = tt
Covered→AllExact expected drifted all dns dns' (s ∷ services) h set = (
  λ there. elim (h.0 there) [
    | inl exact ↦ ground (arith, set s.name)
    | inr drift ↦ ground (arith, set s.name)
  ],
  Covered→AllExact expected drifted all dns dns' services h.1 set,
)
