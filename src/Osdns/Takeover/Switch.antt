-- ===== src/Osdns/Takeover/Switch.antt =====
-- What the switch of the services to the takeover address leaves, of src/osdns/macos.rs.
use mathlib.Core.List.{reverse, reverse-append}
use mathlib.Core.Path.{subst}
use dnsrivet.Prelude.{
  ◌⊎◌, ◌≡◌, refl, sym, ap, ◌∙◌, Bool, ◌||◌, none, some, List, [], ◌∷◌, ◌++◌, arith, Result, ok, err,
  Result-cases, inl, inr, if◌then◌else◌,
}
use dnsrivet.Prelude.Texts.{Text, contains_text}
use dnsrivet.Osdns.Backup.{ServiceDns, Backup, has_service}
use dnsrivet.Osdns.Tools.{Error, takeover_failed, Host, World}
use dnsrivet.Osdns.Commands.{set_dns_servers}
use dnsrivet.Osdns.Commands.Laws.{View, assign, settled, IsNetworksetup, set_dns_servers_lem}
use dnsrivet.Osdns.Takeover.{switch_services, give_up, rollback}
use dnsrivet.Osdns.Takeover.Rollback.{Records, AllKnown, IsOff, give_up_lem}

-- The named services have the target as their one server, the others what `dns` says.
abbrev pub IsSwitched : Text → (Text → Bool) → (Text → List Text) → View → Type 0
IsSwitched target named dns v = (n : Text) → v.dns n ≡ (if named n then target ∷ [] else dns n)

abbrev pub names_of : List ServiceDns → List Text
names_of [] = []
names_of (s ∷ services) = s.name ∷ names_of services

module _ {S : Type 0} (view : S → View) where
  -- How the switch can end, from the world `w` in which the services have the servers `dns`.
  pub record SwitchEnds (target : Text) (dns : Text → List Text) (b : Backup) (named : Text → Bool)
      (w : World S) (out : Result (Unit {0}) Error × World S) : Type 0 where
    pub all_same : (view out.1.machine).all ≡ (view w.machine).all
    pub enabled_same : (view out.1.machine).enabled ≡ (view w.machine).enabled
    pub marker_same : out.1.marker ≡ w.marker
    pub ends :
        ((out.0 ≡ ok tt)
          × (out.1.backup ≡ some b)
          × IsSwitched target named dns (view out.1.machine))
        ⊎ ((e : Error) × (out.0 ≡ err e)
            × ((out.1.backup ≡ some b)
                ⊎ ((out.1.backup ≡ none) × ((n : Text) → (view out.1.machine).dns n ≡ dns n))))

switched_one :
    (target : Text) (dns : Text → List Text) (done : List Text) (name : Text) (v : View) (n : Text)
    → settled (target ∷ []) ≡ target ∷ []
    → IsSwitched target (contains_text done) dns v
    → assign name (settled (target ∷ [])) v.dns n
      ≡ (if contains_text (name ∷ done) n then target ∷ [] else dns n)
unfolding contains_text
switched_one target dns done name v n plain h = ground (arith, h n)

regroup :
    (target : Text) (dns : Text → List Text) (done : List Text) (s : ServiceDns)
    (services : List ServiceDns) (v : View)
    → IsSwitched target (λ n. contains_text (s.name ∷ done) n || has_service services n) dns v
    → IsSwitched target (λ n. contains_text done n || has_service (s ∷ services) n) dns v
unfolding contains_text has_service
regroup target dns done s services v h n = ground (arith, h n)

end_of_switch :
    (target : Text) (dns : Text → List Text) (done : List Text) (v : View)
    → IsSwitched target (contains_text done) dns v
    → IsSwitched target (λ n. contains_text done n || has_service [] n) dns v
unfolding has_service
end_of_switch target dns done v h n = ground (arith, h n)

IsSwitched→IsOff :
    (target : Text) (dns : Text → List Text) (done : List Text) (v : View)
    → IsSwitched target (contains_text done) dns v
    → IsOff dns done v
IsSwitched→IsOff target dns done v h n fresh = ground (arith, h n)

module _ {S : Type 0} (host : Host S) where
  give_up_fails :
      (b : Backup) (changed : List Text) (e : Error) (w : World S)
      → (give_up host b changed e w).0 ≡ err (takeover_failed e (rollback host b changed w).0)
  unfolding give_up
  give_up_fails b changed e w = refl

  pub switch_end :
      (target : Text) (b : Backup) (changed : List Text) (w : World S)
      → switch_services host target b [] changed w ≡ (ok tt, w)
  unfolding switch_services
  switch_end target b changed w = refl

  pub switch_set :
      (target : Text) (b : Backup) (s : ServiceDns) (services : List ServiceDns)
      (changed : List Text) (w : World S)
      → (set_dns_servers host s.name (target ∷ []) w).0 ≡ ok tt
      → switch_services host target b (s ∷ services) changed w
        ≡ switch_services host target b services
            (changed ++ (s.name ∷ []))
            (set_dns_servers host s.name (target ∷ []) w).1
  unfolding switch_services
  switch_set target b s services changed w set = ground arith

  switch_failed :
      (target : Text) (b : Backup) (s : ServiceDns) (services : List ServiceDns)
      (changed : List Text) (e : Error) (w : World S)
      → (set_dns_servers host s.name (target ∷ []) w).0 ≡ err e
      → switch_services host target b (s ∷ services) changed w
        ≡ give_up host b changed e (set_dns_servers host s.name (target ∷ []) w).1
  unfolding switch_services
  switch_failed target b s services changed e w failed = ground arith

module _ {S : Type 0} {host : Host S} {view : S → View} (law : IsNetworksetup host view) where
  give_up-SwitchEnds :
      (target : Text) (dns : Text → List Text) (b : Backup) (named : Text → Bool)
      (changed : List Text) (e : Error) (w w1 : World S)
      → Records dns b.services
      → AllKnown b.services (reverse changed)
      → IsOff dns (reverse changed) (view w1.machine)
      → w1.backup ≡ some b
      → view w1.machine ≡ view w.machine
      → w1.marker ≡ w.marker
      → SwitchEnds view target dns b named w (give_up host b changed e w1)
  give_up-SwitchEnds target dns b named changed e w w1 records known off stored same marker =
      let lem = give_up_lem law dns b changed e w1 records known off stored in
      record {
        all_same = lem.0 ∙ ap (λ (v : View). v.all) same;
        enabled_same = lem.1 ∙ ap (λ (v : View). v.enabled) same;
        marker_same = lem.2 ∙ marker;
        ends = inr (
          takeover_failed e (rollback host b changed w1).0,
          give_up_fails host b changed e w1,
          lem.3,
        );
      }

  SwitchEnds-step :
      (target : Text) (dns : Text → List Text) (b : Backup) (done : List Text) (s : ServiceDns)
      (services : List ServiceDns) (w w1 : World S) {out : Result (Unit {0}) Error × World S}
      → (view w1.machine).all ≡ (view w.machine).all
      → (view w1.machine).enabled ≡ (view w.machine).enabled
      → w1.marker ≡ w.marker
      → SwitchEnds view target dns b
          (λ n. contains_text (s.name ∷ done) n || has_service services n)
          w1
          out
      → SwitchEnds view target dns b
          (λ n. contains_text done n || has_service (s ∷ services) n)
          w
          out
  SwitchEnds-step target dns b done s services w w1 {out} all enabled marker h = record {
    all_same = h.all_same ∙ all;
    enabled_same = h.enabled_same ∙ enabled;
    marker_same = h.marker_same ∙ marker;
    ends = elim h.ends [
      | inl (fine, stored, switched) ↦
          inl (fine, stored, regroup target dns done s services (view out.1.machine) switched)
      | inr failed ↦ inr failed
    ];
  }

  pub switch_services_lem :
      (target : Text) (dns : Text → List Text) (b : Backup) (services : List ServiceDns)
      (changed done : List Text) (w : World S)
      → settled (target ∷ []) ≡ target ∷ []
      → Records dns b.services
      → AllKnown b.services (names_of services)
      → reverse changed ≡ done
      → AllKnown b.services done
      → IsSwitched target (contains_text done) dns (view w.machine)
      → w.backup ≡ some b
      → SwitchEnds view target dns b
          (λ n. contains_text done n || has_service services n)
          w
          (switch_services host target b services changed w)
  switch_services_lem target dns b [] changed done w plain records known same known_done switched
        stored =
      subst (SwitchEnds view target dns b (λ n. contains_text done n || has_service [] n) w)
        (sym (switch_end host target b changed w))
        (record {
          all_same = refl;
          enabled_same = refl;
          marker_same = refl;
          ends = inl (refl, stored, end_of_switch target dns done (view w.machine) switched);
        })
  switch_services_lem target dns b (s ∷ services) changed done w plain records known same known_done
        switched stored =
      let lem = set_dns_servers_lem law s.name (target ∷ []) w in
      let named = λ (n : Text). contains_text done n || has_service (s ∷ services) n in
      let w1 = (set_dns_servers host s.name (target ∷ []) w).1 in
      elim (Result-cases (set_dns_servers host s.name (target ∷ []) w).0) [
        | inr (e, failed) ↦
            subst (SwitchEnds view target dns b named w)
              (sym (switch_failed host target b s services changed e w failed))
              (give_up-SwitchEnds target dns b named changed e w w1 records
                (subst (AllKnown b.services) (sym same) known_done)
                (subst (λ xs. IsOff dns xs (view w1.machine)) (sym same)
                  (subst (IsOff dns done) (sym (lem.3 e failed))
                    (IsSwitched→IsOff target dns done (view w.machine) switched)))
                (lem.0 ∙ stored) (lem.3 e failed) lem.1)
        | inl (u, set) ↦
            subst (SwitchEnds view target dns b named w)
              (sym (switch_set host target b s services changed w set))
              (SwitchEnds-step target dns b done s services w w1
                (ap (λ (v : View). v.all) (lem.2 set)) (ap (λ (v : View). v.enabled) (lem.2 set))
                lem.1
                (switch_services_lem target dns b services (changed ++ (s.name ∷ []))
                  (s.name ∷ done) w1 plain records known.1
                  (reverse-append changed (s.name ∷ []) ∙ ap (◌∷◌ s.name) same)
                  (known.0, known_done)
                  (λ n.
                    ap (λ (v : View). v.dns n) (lem.2 set)
                    ∙ switched_one target dns done s.name (view w.machine) n plain switched)
                  (lem.0 ∙ stored)))
      ]
