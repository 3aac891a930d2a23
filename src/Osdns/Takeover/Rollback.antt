-- ===== src/Osdns/Takeover/Rollback.antt =====
-- What the rollback of a takeover puts back, of src/osdns/macos.rs.
use mathlib.Core.List.{reverse}
use mathlib.Core.Path.{subst}
use dnsrivet.Prelude.{
  ◌⊎◌, ◌≡◌, refl, sym, ap, ◌∙◌, Bool, true, false, ◌&&◌, Option, none, some, List, [], ◌∷◌, arith,
  eq_bytes→eq, Bool-cases, Result-cases, inl, inr,
}
use dnsrivet.Prelude.Texts.{Text, eq_text, contains_text}
use dnsrivet.Osdns.Backup.{ServiceDns, Backup, find_service}
use dnsrivet.Osdns.Tools.{Error, Host, World}
use dnsrivet.Osdns.Tools.Files.{remove_backup_ends}
use dnsrivet.Osdns.Commands.{set_dns_servers, flush_caches}
use dnsrivet.Osdns.Commands.Laws.{
  View, assign, settled, IsNetworksetup, Keeps, set_dns_servers_lem, flush_caches_lem,
}
use dnsrivet.Osdns.Takeover.{put_back, put_back_all, rollback, give_up}

-- The services are recorded with the servers that `dns` has for them.
abbrev pub Records : (Text → List Text) → List ServiceDns → Type 0
Records dns [] = Unit
Records dns (s ∷ services) =
    ((s.servers ≡ dns s.name) × (settled s.servers ≡ s.servers)) × Records dns services

pub find_service-Records :
    (dns : Text → List Text) (services : List ServiceDns) (name : Text) (s : ServiceDns)
    → Records dns services
    → find_service services name ≡ some s
    → (s.name ≡ name) × (settled s.servers ≡ dns name)
unfolding find_service
find_service-Records dns [] name s h e = cc
find_service-Records dns (first ∷ services) name s h e =
    elim (Bool-cases (eq_text first.name name)) [
      | inl same ↦ let here : first.name ≡ name = eq_bytes→eq first.name name same in ground arith
      | inr other ↦ find_service-Records dns services name s h.1 (ground arith)
    ]

-- Every name belongs to a recorded service.
abbrev pub AllKnown : List ServiceDns → List Text → Type 0
AllKnown services [] = Unit
AllKnown services (name ∷ names) =
    ((s : ServiceDns) × (find_service services name ≡ some s)) × AllKnown services names

-- Only the named services may differ from `dns`.
abbrev pub IsOff : (Text → List Text) → List Text → View → Type 0
IsOff dns names v = (n : Text) → contains_text names n ≡ false → v.dns n ≡ dns n

written :
    (dns : Text → List Text) (name : Text) (names : List Text) (s : ServiceDns) (v : View)
    (n : Text)
    → (s.name ≡ name) × (settled s.servers ≡ dns name)
    → IsOff dns (name ∷ names) v
    → contains_text names n ≡ false
    → assign s.name (settled s.servers) v.dns n ≡ dns n
unfolding contains_text
written dns name names s v n h off fresh = elim (Bool-cases (eq_text s.name n)) [
  | inl here ↦ ground (arith, eq_bytes→eq s.name n here)
  | inr there ↦ ground (arith, off n)
]

module _ {S : Type 0} {host : Host S} {view : S → View} (law : IsNetworksetup host view) where
  abbrev pub KeepsFiles : World S → World S → Type 0
  KeepsFiles w w' =
      ((view w'.machine).all ≡ (view w.machine).all)
      × ((view w'.machine).enabled ≡ (view w.machine).enabled)
      × (w'.backup ≡ w.backup)
      × (w'.marker ≡ w.marker)

  KeepsFiles-trans : (u w x : World S) → KeepsFiles u w → KeepsFiles w x → KeepsFiles u x
  KeepsFiles-trans u w x p q = (q.0 ∙ p.0, q.1 ∙ p.1, q.2 ∙ p.2, q.3 ∙ p.3)

  Keeps→KeepsFiles : (u w : World S) → Keeps view u w → KeepsFiles u w
  Keeps→KeepsFiles u w k =
      (ap (λ (v : View). v.all) k.0, ap (λ (v : View). v.enabled) k.0, k.1, k.2)

  put_back_lem :
      (dns : Text → List Text) (name : Text) (names : List Text) (s : ServiceDns) (w : World S)
      → (s.name ≡ name) × (settled s.servers ≡ dns name)
      → let (done, w') = put_back host (some s) w in
        KeepsFiles w w'
        × (done ≡ true
            → IsOff dns (name ∷ names) (view w.machine)
            → IsOff dns names (view w'.machine))
  unfolding put_back contains_text
  put_back_lem dns name names s w h =
      let lem = set_dns_servers_lem law s.name s.servers w in
      elim (Result-cases (set_dns_servers host s.name s.servers w).0) [
        | inr (e, failed) ↦ ground (arith, lem.3 e failed)
        | inl (done, set) ↦
            let wrote = lem.2 set in
            (
              (ap (λ (v : View). v.all) wrote, ap (λ (v : View). v.enabled) wrote, lem.0, lem.1),
              λ _ off n fresh.
                  ap (λ (v : View). v.dns n) wrote
                  ∙ written dns name names s (view w.machine) n h off fresh,
            )
      ]

  put_back_all_found :
      (b : Backup) (name : Text) (names : List Text) (done : Bool) (s : ServiceDns) (w : World S)
      → find_service b.services name ≡ some s
      → put_back_all host b (name ∷ names) done w
        ≡ put_back_all host b names
            (done && (put_back host (some s) w).0)
            (put_back host (some s) w).1
  unfolding put_back_all
  put_back_all_found b name names done s w found =
      ap
        (λ (o : Option ServiceDns).
          put_back_all host b names (done && (put_back host o w).0) (put_back host o w).1)
        found

  put_back_all_lem :
      (dns : Text → List Text) (b : Backup) (names : List Text) (done : Bool) (w : World S)
      → Records dns b.services
      → AllKnown b.services names
      → let (done', w') = put_back_all host b names done w in
        KeepsFiles w w'
        × ((done ≡ true → IsOff dns names (view w.machine))
            → done' ≡ true
            → (done ≡ true) × ((n : Text) → (view w'.machine).dns n ≡ dns n))
  unfolding put_back_all contains_text
  put_back_all_lem dns b [] done w records known =
      (ground arith, λ off all_done. (all_done, λ n. off all_done n refl))
  put_back_all_lem dns b (name ∷ names) done w records known =
      let s = known.0.0 in
      let one = put_back host (some s) w in
      let step =
        put_back_lem dns name names s w
          (find_service-Records dns b.services name s records known.0.1) in
      let rest = put_back_all_lem dns b names (done && one.0) one.1 records known.1 in
      subst
        (λ (r : Bool × World S).
          KeepsFiles w r.1
          × ((done ≡ true → IsOff dns (name ∷ names) (view w.machine))
              → r.0 ≡ true
              → (done ≡ true) × ((n : Text) → (view r.1.machine).dns n ≡ dns n)))
        (sym (put_back_all_found b name names done s w known.0.1))
        (
          KeepsFiles-trans w one.1 (put_back_all host b names (done && one.0) one.1).1 step.0
              rest.0,
          λ off all_done.
              let both = rest.1 (λ so_far. step.1 (ground arith) (off (ground arith))) all_done in
              (ground (arith, both.0), both.1),
        )

  rollback_lem :
      (dns : Text → List Text) (b : Backup) (changed : List Text) (w : World S)
      → Records dns b.services
      → AllKnown b.services (reverse changed)
      → IsOff dns (reverse changed) (view w.machine)
      → let (done, w') = rollback host b changed w in
        KeepsFiles w w' × (done ≡ true → (n : Text) → (view w'.machine).dns n ≡ dns n)
  unfolding rollback
  rollback_lem dns b changed w records known off =
      let back = put_back_all_lem dns b (reverse changed) true w records known in
      let w1 = (put_back_all host b (reverse changed) true w).1 in
      let flushed = flush_caches_lem law w1 in
      (
        KeepsFiles-trans w w1 (flush_caches host w1) back.0
            (Keeps→KeepsFiles w1 (flush_caches host w1) flushed),
        λ done n. ap (λ (v : View). v.dns n) flushed.0 ∙ (back.1 (λ _. off) done).1 n,
      )

  -- After a failed switch either the backup is still there or every service has its servers back.
  pub give_up_lem :
      (dns : Text → List Text) (b : Backup) (changed : List Text) (e : Error) (w : World S)
      → Records dns b.services
      → AllKnown b.services (reverse changed)
      → IsOff dns (reverse changed) (view w.machine)
      → w.backup ≡ some b
      → let w' = (give_up host b changed e w).1 in
        ((view w'.machine).all ≡ (view w.machine).all)
        × ((view w'.machine).enabled ≡ (view w.machine).enabled)
        × (w'.marker ≡ w.marker)
        × ((w'.backup ≡ some b)
            ⊎ ((w'.backup ≡ none) × ((n : Text) → (view w'.machine).dns n ≡ dns n)))
  unfolding give_up
  give_up_lem dns b changed e w records known off stored =
      let back = rollback_lem dns b changed w records known off in
      let removed = remove_backup_ends (rollback host b changed w).1 in
      elim (Bool-cases (rollback host b changed w).0) [
        | inr failed ↦ ground (arith, back.0)
        | inl done ↦ elim removed.1 [
          | inl gone ↦ ground (arith, back.0, back.1 done)
          | inr kept ↦ ground (arith, back.0)
        ]
      ]
