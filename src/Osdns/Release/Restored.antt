-- ===== src/Osdns/Release/Restored.antt =====
-- What the loops of `restore_at` do, of src/osdns/macos.rs.
use mathlib.Core.Path.{subst}
use dnsrivet.Prelude.{
  ◌≡◌, refl, sym, ap, ◌∙◌, Bool, true, false, List, [], ◌∷◌, arith, ok, err, Bool-cases,
  Result-cases, inl, inr, if◌then◌else◌,
}
use dnsrivet.Prelude.Texts.{Text, contains_text}
use dnsrivet.Osdns.Backup.{ServiceDns}
use dnsrivet.Osdns.Tools.{not_none, Error, Errors, none_left, and_also, Host, World}
use dnsrivet.Osdns.Commands.{set_dns_servers}
use dnsrivet.Osdns.Commands.Laws.{View, assign, settled, IsNetworksetup, set_dns_servers_lem}
use dnsrivet.Osdns.Release.{set_back}

-- The settings after the servers of the listed services were set, those of `current` only.
abbrev pub restored : List Text → List ServiceDns → (Text → List Text) → Text → List Text
restored current [] dns = dns
restored current (s ∷ services) dns =
    restored current services
      (if contains_text current s.name then assign s.name (settled s.servers) dns else dns)

abbrev pub with_dns : View → (Text → List Text) → View
with_dns v dns = record v { dns = dns }

module _ {S : Type 0} (host : Host S) (current : List Text) (s : ServiceDns)
    (services : List ServiceDns) (errors : Errors) (w : World S) where
  pub set_back_gone :
      contains_text current s.name ≡ false
      → set_back host current (s ∷ services) errors w ≡ set_back host current services errors w
  unfolding set_back
  set_back_gone h = ground arith

  pub set_back_set :
      contains_text current s.name ≡ true
      → (set_dns_servers host s.name s.servers w).0 ≡ ok tt
      → set_back host current (s ∷ services) errors w
        ≡ set_back host current services errors (set_dns_servers host s.name s.servers w).1
  unfolding set_back
  set_back_set h k = ground arith

  set_back_failed :
      (e : Error)
      → contains_text current s.name ≡ true
      → (set_dns_servers host s.name s.servers w).0 ≡ err e
      → set_back host current (s ∷ services) errors w
        ≡ set_back host current services
            (and_also errors e)
            (set_dns_servers host s.name s.servers w).1
  unfolding set_back
  set_back_failed e h k = ground arith

module _ {S : Type 0} (view : S → View) (current : List Text) where
  -- The files are as before, and where no error was noted the servers are set.
  abbrev pub SetBackEnds : List ServiceDns → Errors → World S → Errors × World S → Type 0
  SetBackEnds services errors w out =
      (out.1.backup ≡ w.backup)
      × (out.1.marker ≡ w.marker)
      × (out.0 ≡ none_left
          → (errors ≡ none_left)
            × (view out.1.machine
                ≡ with_dns (view w.machine) (restored current services (view w.machine).dns)))

module _ {S : Type 0} {host : Host S} {view : S → View} (law : IsNetworksetup host view)
    (current : List Text) where
  pub set_back_ends :
      (services : List ServiceDns) (errors : Errors) (w : World S)
      → SetBackEnds view current services errors w (set_back host current services errors w)
  unfolding set_back
  set_back_ends [] errors w = (refl, refl, λ h. (h, refl))
  set_back_ends (s ∷ services) errors w =
      let P = SetBackEnds view current (s ∷ services) errors w in
      let w1 = (set_dns_servers host s.name s.servers w).1 in
      let lem = set_dns_servers_lem law s.name s.servers w in
      let v = view w.machine in
      let choose = λ (set : Bool). with_dns v (
        restored current services
          (if set then assign s.name (settled s.servers) v.dns else v.dns)) in
      elim (Bool-cases (contains_text current s.name)) [
        | inr gone ↦
            let rest = set_back_ends services errors w in
            subst P (sym (set_back_gone host current s services errors w gone))
              (rest.0, rest.1, λ h. ((rest.2 h).0, (rest.2 h).1 ∙ ap choose (sym gone)))
        | inl there ↦ elim (Result-cases (set_dns_servers host s.name s.servers w).0) [
          | inr (e, failed) ↦
              let rest = set_back_ends services (and_also errors e) w1 in
              subst P (sym (set_back_failed host current s services errors w e there failed))
                (rest.0 ∙ lem.0, rest.1 ∙ lem.1, λ h. absurd (not_none errors e (rest.2 h).0))
          | inl (u, set) ↦
              let rest = set_back_ends services errors w1 in
              subst P (sym (set_back_set host current s services errors w there set)) (
                rest.0 ∙ lem.0,
                rest.1 ∙ lem.1,
                λ h. (
                  (rest.2 h).0,
                  (rest.2 h).1
                      ∙ ap (λ (v : View). with_dns v (restored current services v.dns)) (lem.2 set)
                      ∙ ap choose (sym there),
                ),
              )
        ]
      ]
