-- ===== src/Osdns/Watch/Drift.antt =====
-- What the watchdog's snapshot finds, of src/osdns/macos.rs.
use mathlib.Core.Path.{subst}
use dnsrivet.Prelude.{
  ◌⊎◌, ◌≡◌, refl, sym, ◌∙◌, true, false, List, [], ◌∷◌, arith, Result, ok, err, Bool-cases,
  Result-cases, inl, inr, eq_bytes_self,
}
use dnsrivet.Prelude.Texts.{Text, eq_texts→eq, contains_text}
use dnsrivet.Osdns.Backup.{ServiceDns}
use dnsrivet.Osdns.Tools.{Error, Host, World}
use dnsrivet.Osdns.Commands.{get_dns_servers}
use dnsrivet.Osdns.Commands.Laws.{View, IsNetworksetup, Keeps, Keeps-trans, get_dns_servers_lem}
use dnsrivet.Osdns.Watch.{is_exact, services_needing_reassert, snapshot_existing}

-- Every service that exists has the address as its one DNS server.
abbrev pub AllExact : Text → List Text → (Text → List Text) → List ServiceDns → Type 0
AllExact expected all dns [] = Unit
AllExact expected all dns (s ∷ services) =
    (contains_text all s.name ≡ true → dns s.name ≡ expected ∷ [])
    × AllExact expected all dns services

-- Every service that exists either has it, or is among those that drifted.
abbrev pub Covered : Text → List Text → List Text → (Text → List Text) → List ServiceDns → Type 0
Covered expected drifted all dns [] = Unit
Covered expected drifted all dns (s ∷ services) =
    (contains_text all s.name ≡ true
      → (dns s.name ≡ expected ∷ []) ⊎ (contains_text drifted s.name ≡ true))
    × Covered expected drifted all dns services

is_exact→eq :
    (expected : Text) (servers : List Text)
    → is_exact expected servers ≡ true
    → servers ≡ expected ∷ []
unfolding is_exact
is_exact→eq expected servers h = eq_texts→eq servers (expected ∷ []) h

Covered-cons :
    (expected : Text) (x : Text) (drifted all : List Text) (dns : Text → List Text)
    (services : List ServiceDns)
    → Covered expected drifted all dns services
    → Covered expected (x ∷ drifted) all dns services
unfolding contains_text
Covered-cons expected x drifted all dns [] h = tt
Covered-cons expected x drifted all dns (s ∷ services) h = (
  λ there. elim (h.0 there) [ inl exact ↦ inl exact | inr drift ↦ inr (ground arith) ],
  Covered-cons expected x drifted all dns services h.1,
)

needing_exact :
    (name : Text) (servers : List Text) (current : List ServiceDns) (expected : Text)
    → is_exact expected servers ≡ true
    → services_needing_reassert (record { name = name; servers = servers } ∷ current) expected
      ≡ services_needing_reassert current expected
unfolding services_needing_reassert
needing_exact name servers current expected h = ground arith

needing_drift :
    (name : Text) (servers : List Text) (current : List ServiceDns) (expected : Text)
    → is_exact expected servers ≡ false
    → services_needing_reassert (record { name = name; servers = servers } ∷ current) expected
      ≡ name ∷ services_needing_reassert current expected
unfolding services_needing_reassert
needing_drift name servers current expected h = ground arith

Covered-entry :
    (expected : Text) (s : ServiceDns) (servers : List Text) (current : List ServiceDns)
    (all : List Text) (dns : Text → List Text) (services : List ServiceDns)
    → servers ≡ dns s.name
    → Covered expected (services_needing_reassert current expected) all dns services
    → Covered expected
        (services_needing_reassert (record { name = s.name; servers = servers } ∷ current) expected)
        all
        dns
        (s ∷ services)
unfolding contains_text
Covered-entry expected s servers current all dns services read h =
    let P = λ (drifted : List Text). Covered expected drifted all dns (s ∷ services) in
    elim (Bool-cases (is_exact expected servers)) [
      | inl exact ↦
          subst P (sym (needing_exact s.name servers current expected exact))
            (λ _. inl (sym read ∙ is_exact→eq expected servers exact), h)
      | inr drift ↦ subst P (sym (needing_drift s.name servers current expected drift)) (
        λ _. inr (ground (arith, eq_bytes_self s.name)),
        Covered-cons expected s.name (services_needing_reassert current expected) all dns services
            h,
      )
    ]

module _ {S : Type 0} (host : Host S) (all : List Text) (s : ServiceDns)
    (services : List ServiceDns) (w : World S) where
  abbrev read : Result (List Text) Error × World S
  read = get_dns_servers host s.name w

  snapshot_gone :
      contains_text all s.name ≡ false
      → snapshot_existing host all (s ∷ services) w ≡ snapshot_existing host all services w
  unfolding snapshot_existing
  snapshot_gone h = ground arith

  snapshot_unread :
      (e : Error)
      → contains_text all s.name ≡ true
      → read.0 ≡ err e
      → snapshot_existing host all (s ∷ services) w ≡ (err e, read.1)
  unfolding snapshot_existing
  snapshot_unread e h k = ground arith

  snapshot_failed :
      (servers : List Text) (e : Error)
      → contains_text all s.name ≡ true
      → read.0 ≡ ok servers
      → (snapshot_existing host all services read.1).0 ≡ err e
      → snapshot_existing host all (s ∷ services) w
        ≡ (err e, (snapshot_existing host all services read.1).1)
  unfolding snapshot_existing
  snapshot_failed servers e h k l = ground arith

  snapshot_read :
      (servers : List Text) (rest : List ServiceDns)
      → contains_text all s.name ≡ true
      → read.0 ≡ ok servers
      → (snapshot_existing host all services read.1).0 ≡ ok rest
      → snapshot_existing host all (s ∷ services) w ≡ (
        ok (record { name = s.name; servers = servers } ∷ rest),
        (snapshot_existing host all services read.1).1,
      )
  unfolding snapshot_existing
  snapshot_read servers rest h k l = ground arith

module _ {S : Type 0} {host : Host S} {view : S → View} (law : IsNetworksetup host view)
    (expected : Text) where
  abbrev pub SnapshotSees :
      List Text → List ServiceDns → World S → Result (List ServiceDns) Error × World S → Type 0
  SnapshotSees all services w out =
      Keeps view w out.1
      × ((current : List ServiceDns)
          → out.0 ≡ ok current
          → Covered expected (services_needing_reassert current expected) all (view w.machine).dns
              services)

  pub snapshot_existing_lem :
      (all : List Text) (services : List ServiceDns) (w : World S)
      → SnapshotSees all services w (snapshot_existing host all services w)
  unfolding snapshot_existing
  snapshot_existing_lem all [] w = ((refl, refl, refl), λ current e. tt)
  snapshot_existing_lem all (s ∷ services) w =
      let P = SnapshotSees all (s ∷ services) w in
      let lem = get_dns_servers_lem law s.name w in
      let w1 = (get_dns_servers host s.name w).1 in
      elim (Bool-cases (contains_text all s.name)) [
        | inr gone ↦
            let rest = snapshot_existing_lem all services w in
            subst P (sym (snapshot_gone host all s services w gone))
              (rest.0, λ current e. (λ there. absurd (ground arith), rest.1 current e))
        | inl there ↦ elim (Result-cases (get_dns_servers host s.name w).0) [
          | inr (e, unread) ↦
              subst P (sym (snapshot_unread host all s services w e there unread))
                (lem.0, λ current h. absurd (ground arith))
          | inl (servers, got) ↦
              let rest = snapshot_existing_lem all services w1 in
              let keeps =
                Keeps-trans view w w1 (snapshot_existing host all services w1).1 lem.0 rest.0 in
              elim (Result-cases (snapshot_existing host all services w1).0) [
                | inr (e, failed) ↦
                    subst P (sym (snapshot_failed host all s services w servers e there got failed))
                      (keeps, λ current h. absurd (ground arith))
                | inl (found, saw) ↦
                    subst P (sym (snapshot_read host all s services w servers found there got saw))
                      (
                        keeps,
                        λ current h.
                            let same : record { name = s.name; servers = servers } ∷ found
                                ≡ current =
                              cc in
                            subst
                              (λ c.
                                Covered expected (services_needing_reassert c expected) all
                                  (view w.machine).dns (s ∷ services))
                              same
                              (Covered-entry expected s servers found all (view w.machine).dns
                                services (lem.1 servers got).0
                                (subst
                                  (λ (v : View).
                                    Covered expected (services_needing_reassert found expected) all
                                      v.dns services)
                                  lem.0.0 (rest.1 found saw))),
                      )
              ]
        ]
      ]
