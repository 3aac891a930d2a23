-- ===== src/Osdns/Release/Unowned.antt =====
-- `release` where there is no backup, of src/osdns/macos.rs.
use mathlib.Core.Path.{subst}
use dnsrivet.Prelude.{
  ◌⊎◌, ◌≡◌, refl, sym, ap, ◌∙◌, Bool, true, false, none, List, [], ◌∷◌, arith, Result, ok, err,
  Bool-cases, Result-cases, inl, inr,
}
use dnsrivet.Prelude.Texts.{Text}
use dnsrivet.Osdns.Addresses.{DnsAddr}
use dnsrivet.Osdns.Tools.{Error, Host, World}
use dnsrivet.Osdns.Tools.Files.{remove_marker_ends}
use dnsrivet.Osdns.Commands.{list_all_services, get_dns_servers, current_loopback_dns}
use dnsrivet.Osdns.Commands.Laws.{
  View, IsNetworksetup, Keeps, Keeps-trans, list_all_services_lem, get_dns_servers_lem,
  effective_dns_servers_lem,
}
use dnsrivet.Osdns.Release.{
  any_loopback, any_service_at_loopback, system_points_at_loopback, some_addr, release_unowned,
  release,
}

-- No service lists a loopback address.
abbrev pub NoneAtLoopback : (Text → List Text) → List Text → Type 0
NoneAtLoopback dns [] = Unit
NoneAtLoopback dns (name ∷ names) = (any_loopback (dns name) ≡ false) × NoneAtLoopback dns names

module _ {S : Type 0} (host : Host S) where
  scan_on :
      (name : Text) (names : List Text) (w : World S) (servers : List Text)
      → (get_dns_servers host name w).0 ≡ ok servers
      → any_loopback servers ≡ false
      → any_service_at_loopback host (name ∷ names) w
        ≡ any_service_at_loopback host names (get_dns_servers host name w).1
  unfolding any_service_at_loopback
  scan_on name names w servers got clean = ground arith

  module _ (w : World S) where
    abbrev current : Result (List DnsAddr) Error × World S
    current = current_loopback_dns host w

    abbrev listed : Result (List Text) Error × World S
    listed = list_all_services host current.1

    points_unread :
        (e : Error) → current.0 ≡ err e → system_points_at_loopback host w ≡ (err e, current.1)
    unfolding system_points_at_loopback
    points_unread e h = ground arith

    points_now :
        (addrs : List DnsAddr)
        → current.0 ≡ ok addrs
        → some_addr addrs ≡ true
        → system_points_at_loopback host w ≡ (ok true, current.1)
    unfolding system_points_at_loopback
    points_now addrs h k = ground arith

    points_unlisted :
        (addrs : List DnsAddr) (e : Error)
        → current.0 ≡ ok addrs
        → some_addr addrs ≡ false
        → listed.0 ≡ err e
        → system_points_at_loopback host w ≡ (err e, listed.1)
    unfolding system_points_at_loopback
    points_unlisted addrs e h k l = ground arith

    points_scanned :
        (addrs : List DnsAddr) (names : List Text)
        → current.0 ≡ ok addrs
        → some_addr addrs ≡ false
        → listed.0 ≡ ok names
        → system_points_at_loopback host w ≡ any_service_at_loopback host names listed.1
    unfolding system_points_at_loopback
    points_scanned addrs names h k l = ground arith

module _ {S : Type 0} {host : Host S} {view : S → View} (law : IsNetworksetup host view) where
  abbrev ScanEnds : List Text → World S → Result Bool Error × World S → Type 0
  ScanEnds names w out =
      Keeps view w out.1 × (out.0 ≡ ok false → NoneAtLoopback (view w.machine).dns names)

  any_service_at_loopback_ends :
      (names : List Text) (w : World S) → ScanEnds names w (any_service_at_loopback host names w)
  unfolding any_service_at_loopback
  any_service_at_loopback_ends [] w = ((refl, refl, refl), λ _. tt)
  any_service_at_loopback_ends (name ∷ names) w =
      let lem = get_dns_servers_lem law name w in
      let w1 = (get_dns_servers host name w).1 in
      elim (Result-cases (get_dns_servers host name w).0) [
        | inr (e, failed) ↦ ground (arith, lem.0)
        | inl (servers, got) ↦ elim (Bool-cases (any_loopback servers)) [
          | inl found ↦ ground (arith, lem.0)
          | inr clean ↦
              let rest = any_service_at_loopback_ends names w1 in
              subst (ScanEnds (name ∷ names) w) (sym (scan_on host name names w servers got clean))
                (
                  Keeps-trans view w w1 (any_service_at_loopback host names w1).1 lem.0 rest.0,
                  λ h. (
                    subst (λ d. any_loopback d ≡ false) (lem.1 servers got).0 clean,
                    subst (λ (v : View). NoneAtLoopback v.dns names) lem.0.0 (rest.1 h),
                  ),
                )
        ]
      ]

  current_loopback_dns_lem : (w : World S) → Keeps view w (current_loopback_dns host w).1
  unfolding current_loopback_dns
  current_loopback_dns_lem w = ground (arith, effective_dns_servers_lem law w)

  -- A negative answer means that no service lists a loopback address.
  pub system_points_at_loopback_ends :
      (w : World S)
      → let out = system_points_at_loopback host w in
        Keeps view w out.1
        × (out.0 ≡ ok false → NoneAtLoopback (view w.machine).dns (view w.machine).all)
  system_points_at_loopback_ends w =
      let P = λ (out : Result Bool Error × World S).
        Keeps view w out.1
        × (out.0 ≡ ok false → NoneAtLoopback (view w.machine).dns (view w.machine).all) in
      let keeps = current_loopback_dns_lem w in
      let lem = list_all_services_lem law (current host w).1 in
      let keeps1 = Keeps-trans view w (current host w).1 (listed host w).1 keeps lem.0 in
      elim (Result-cases (current host w).0) [
        | inr (e, failed) ↦
            subst P (sym (points_unread host w e failed)) (keeps, λ h. absurd (ground arith))
        | inl (addrs, read) ↦ elim (Bool-cases (some_addr addrs)) [
          | inl some_loopback ↦
              subst P (sym (points_now host w addrs read some_loopback))
                (keeps, λ h. absurd (ground arith))
          | inr no_loopback ↦ elim (Result-cases (listed host w).0) [
            | inr (e, failed) ↦
                subst P (sym (points_unlisted host w addrs e read no_loopback failed))
                  (keeps1, λ h. absurd (ground arith))
            | inl (names, was_listed) ↦
                let rest = any_service_at_loopback_ends names (listed host w).1 in
                subst P (sym (points_scanned host w addrs names read no_loopback was_listed)) (
                  Keeps-trans view w (listed host w).1
                      (any_service_at_loopback host names (listed host w).1).1 keeps1 rest.0,
                  λ h.
                      subst (λ l. NoneAtLoopback (view w.machine).dns l)
                        (lem.1 names was_listed ∙ ap (λ (v : View). v.all) keeps.0)
                        (subst (λ (v : View). NoneAtLoopback v.dns names) keeps1.0 (rest.1 h)),
                )
          ]
        ]
      ]

  -- Without a backup `release` changes no setting. It removes the marker only after it has seen
  -- that no service lists a loopback address, and fails only where there is a marker, which stays.
  pub release_unowned_ends :
      (w : World S)
      → w.backup ≡ none
      → let (r, w') = release host w in
        (view w'.machine ≡ view w.machine)
        × (w'.backup ≡ none)
        × (((r ≡ ok false)
              × (w'.marker ≡ false)
              × (w.marker ≡ true → NoneAtLoopback (view w.machine).dns (view w.machine).all))
            ⊎ ((e : Error) × (r ≡ err e) × (w.marker ≡ true) × (w'.marker ≡ true)))
  unfolding release release_unowned
  release_unowned_ends w fresh = elim (Bool-cases w.marker) [
    | inr unmarked ↦ ground arith
    | inl marked ↦
        let points = system_points_at_loopback_ends w in
        let w1 = (system_points_at_loopback host w).1 in
        elim (Result-cases (system_points_at_loopback host w).0) [
          | inr (e, failed) ↦ ground (arith, points.0)
          | inl (true, found) ↦ ground (arith, points.0)
          | inl (false, clean) ↦ elim (remove_marker_ends w1).1 [
            | inl removed ↦ (
              ground (arith, points.0),
              ground (arith, points.0),
              inl (ground arith, ground arith, λ _. points.1 clean),
            )
            | inr kept ↦ ground (arith, points.0)
          ]
        ]
  ]
