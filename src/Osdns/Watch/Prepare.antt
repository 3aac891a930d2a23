-- ===== src/Osdns/Watch/Prepare.antt =====
-- What the watchdog writes before it changes a service, of src/osdns/macos.rs.
use mathlib.Core.List.{append_assoc, append-nil}
use mathlib.Core.Path.{subst}
use dnsrivet.Prelude.{
  ℕ, ◌⊎◌, ◌≡◌, refl, sym, ap, ◌∙◌, Bool, true, false, ◌||◌, Option, none, some, List, [], ◌∷◌, ◌++◌,
  arith, Result, ok, err, Bool-cases, Result-cases, inl, inr,
}
use dnsrivet.Prelude.Texts.{Text, contains_text}
use dnsrivet.Upstream.Net.{IpAddr, eq_ip_self}
use dnsrivet.Osdns.IpText.{show_ip}
use dnsrivet.Osdns.Addresses.{contains_ip}
use dnsrivet.Osdns.Backup.{ServiceDns, Backup, has_service, dns_may_depend_on_takeover}
use dnsrivet.Osdns.Tools.{
  Error, write_backup_failed, unknown_restore_state, Host, World, write_backup,
}
use dnsrivet.Osdns.Tools.Files.{write_backup_ends}
use dnsrivet.Osdns.Watch.{
  add_new_service_snapshots, note_address, note_address_in, prepare_watchdog_backup,
}

-- The backup `b'` is `b` with more services, each of which was read as it is recorded and neither
-- lists the address nor may depend on the takeover of the backup so far.
abbrev pub AllFresh : (Text → Option ℕ) → Text → Backup → List ServiceDns → Type 0
AllFresh interface_index expected b [] = Unit
AllFresh interface_index expected b (s ∷ more) =
    ((has_service b.services s.name ≡ false)
      × (contains_text s.servers expected ≡ false)
      × (dns_may_depend_on_takeover interface_index b s.name s.servers ≡ false))
    × AllFresh interface_index expected (record b { services = b.services ++ (s ∷ []) }) more

module _ (interface_index : Text → Option ℕ) (expected : Text) where
  -- What `add_new_service_snapshots` gives: the services of the backup stay in front as they are.
  abbrev pub AddEnds : Backup → Bool → Result (Backup × Bool) Error → Type 0
  AddEnds b added r =
      (b' : Backup) (added' : Bool)
      → r ≡ ok (b', added')
      → (more : List ServiceDns) × (b' ≡ record b { services = b.services ++ more })
        × AllFresh interface_index expected b more
        × (added' ≡ false → (added ≡ false) × (more ≡ []))

  add_known :
      (s : ServiceDns) (snapshots : List ServiceDns) (b : Backup) (added : Bool)
      → has_service b.services s.name ≡ true
      → add_new_service_snapshots interface_index expected (s ∷ snapshots) b added
        ≡ add_new_service_snapshots interface_index expected snapshots b added
  unfolding add_new_service_snapshots
  add_known s snapshots b added h = ground arith

  add_refused :
      (s : ServiceDns) (snapshots : List ServiceDns) (b : Backup) (added : Bool)
      → has_service b.services s.name ≡ false
      → (contains_text s.servers expected
          || dns_may_depend_on_takeover interface_index b s.name s.servers)
        ≡ true
      → add_new_service_snapshots interface_index expected (s ∷ snapshots) b added
        ≡ err (unknown_restore_state s.name)
  unfolding add_new_service_snapshots
  add_refused s snapshots b added h k = ground arith

  add_fresh :
      (s : ServiceDns) (snapshots : List ServiceDns) (b : Backup) (added : Bool)
      → has_service b.services s.name ≡ false
      → (contains_text s.servers expected
          || dns_may_depend_on_takeover interface_index b s.name s.servers)
        ≡ false
      → add_new_service_snapshots interface_index expected (s ∷ snapshots) b added
        ≡ add_new_service_snapshots interface_index expected snapshots
            (record b { services = b.services ++ (s ∷ []) })
            true
  unfolding add_new_service_snapshots
  add_fresh s snapshots b added h k = ground arith

  pub add_new_service_snapshots_lem :
      (snapshots : List ServiceDns) (b : Backup) (added : Bool)
      → AddEnds b added (add_new_service_snapshots interface_index expected snapshots b added)
  unfolding add_new_service_snapshots
  add_new_service_snapshots_lem [] b added = λ b' added' e.
      let same : b ≡ b' = cc in
      (
        [],
        sym same
            ∙ ap (λ (l : List ServiceDns). record b { services = l }) (sym (append-nil b.services)),
        tt,
        λ none_added. (ground arith, refl),
      )
  add_new_service_snapshots_lem (s ∷ snapshots) b added =
      elim (Bool-cases (has_service b.services s.name)) [
        | inl known ↦
            subst (AddEnds b added) (sym (add_known s snapshots b added known))
              (add_new_service_snapshots_lem snapshots b added)
        | inr new ↦
            elim (Bool-cases (
              contains_text s.servers expected
              || dns_may_depend_on_takeover interface_index b s.name s.servers)) [
                | inl listed ↦
                    subst (AddEnds b added) (sym (add_refused s snapshots b added new listed))
                      (λ b' added' e. absurd (ground arith))
                | inr free ↦
                    subst (AddEnds b added) (sym (add_fresh s snapshots b added new free))
                      (λ b' added' e.
                        let (more, grown, fresh, same) =
                          add_new_service_snapshots_lem snapshots
                            (record b { services = b.services ++ (s ∷ []) }) true b' added' e in
                        (
                          s ∷ more,
                          grown
                              ∙ ap (λ l. record b { services = l })
                                  (append_assoc b.services (s ∷ []) more),
                          ((new, ground arith, ground arith), fresh),
                          λ none_added. absurd (ground (arith, same none_added)),
                        ))
              ]
      ]

-- The address is in the history, unless the history is unknown.
abbrev pub HasAddress : Option (List IpAddr) → Option (List IpAddr) → IpAddr → Type 0
HasAddress none after server = after ≡ none
HasAddress (some takeovers) after server =
    (new : List IpAddr) × (after ≡ some new) × (contains_ip new server ≡ true)

contains_ip-append_self : (ips : List IpAddr) (a : IpAddr) → contains_ip (ips ++ (a ∷ [])) a ≡ true
unfolding contains_ip
contains_ip-append_self [] a = ground (arith, eq_ip_self a)
contains_ip-append_self (b ∷ ips) a = ground (arith, contains_ip-append_self ips a)

note_address_in_lem :
    (takeovers : Option (List IpAddr)) (server : IpAddr)
    → HasAddress takeovers (note_address_in takeovers server).0 server
      × ((note_address_in takeovers server).1 ≡ false
          → (note_address_in takeovers server).0 ≡ takeovers)
unfolding note_address_in
note_address_in_lem none server = (refl, λ _. refl)
note_address_in_lem (some takeovers) server = elim (Bool-cases (contains_ip takeovers server)) [
  | inl known ↦ rw known ((takeovers, refl, known), λ _. refl)
  | inr new ↦
      rw new ((takeovers ++ (server ∷ []), refl, contains_ip-append_self takeovers server), λ h. cc)
]

-- The backup `b'` is `b` with more services and the address in its history.
pub record Grows (interface_index : Text → Option ℕ) (server : IpAddr) (b b' : Backup)
    : Type 0 where
  pub more : List ServiceDns
  pub services_grow : b'.services ≡ b.services ++ more
  pub fresh : AllFresh interface_index (show_ip server) b more
  pub version_same : b'.version ≡ b.version
  pub fallback_same : b'.fallback_servers ≡ b.fallback_servers
  pub has_address : HasAddress b.takeover_servers b'.takeover_servers server

module _ {S : Type 0} (host : Host S) (server : IpAddr) where
  abbrev added : Backup → List ServiceDns → Result (Backup × Bool) Error
  added b snapshots =
      add_new_service_snapshots host.interface_index (show_ip server) snapshots b false

  prepare_refused :
      (b : Backup) (snapshots : List ServiceDns) (w : World S) (e : Error)
      → added b snapshots ≡ err e
      → prepare_watchdog_backup host b snapshots server w ≡ (err e, w)
  unfolding prepare_watchdog_backup
  prepare_refused b snapshots w e h = ground arith

  prepare_same :
      (b : Backup) (snapshots : List ServiceDns) (w : World S) (b' : Backup) (grew : Bool)
      → added b snapshots ≡ ok (b', grew)
      → (grew || (note_address b' server).1) ≡ false
      → prepare_watchdog_backup host b snapshots server w ≡ (ok tt, w)
  unfolding prepare_watchdog_backup
  prepare_same b snapshots w b' grew h k = ground arith

  prepare_written :
      (b : Backup) (snapshots : List ServiceDns) (w : World S) (b' : Backup) (grew : Bool)
      → added b snapshots ≡ ok (b', grew)
      → (grew || (note_address b' server).1) ≡ true
      → prepare_watchdog_backup host b snapshots server w
        ≡ write_backup (note_address b' server).0 w
  unfolding prepare_watchdog_backup
  prepare_written b snapshots w b' grew h k = ground arith

  note_address-Grows :
      (b b' : Backup) (more : List ServiceDns)
      → b' ≡ record b { services = b.services ++ more }
      → AllFresh host.interface_index (show_ip server) b more
      → Grows host.interface_index server b (note_address b' server).0
  unfolding note_address
  note_address-Grows b b' more grown fresh =
      let same : b'.takeover_servers ≡ b.takeover_servers =
        ap (λ (c : Backup). c.takeover_servers) grown in
      record {
        more = more;
        services_grow = ap (λ (c : Backup). c.services) grown;
        fresh = fresh;
        version_same = ap (λ (c : Backup). c.version) grown;
        fallback_same = ap (λ (c : Backup). c.fallback_servers) grown;
        has_address =
            subst (λ t. HasAddress t (note_address_in b'.takeover_servers server).0 server) same
              (note_address_in_lem b'.takeover_servers server).0;
      }

  Grows-unchanged :
      (b b' : Backup) (more : List ServiceDns)
      → b' ≡ record b { services = b.services ++ more }
      → Grows host.interface_index server b (note_address b' server).0
      → (note_address b' server).1 ≡ false
      → Grows host.interface_index server b b
  unfolding note_address
  Grows-unchanged b b' more grown grows unnoted = record {
    more = [];
    services_grow = sym (append-nil b.services);
    fresh = tt;
    version_same = refl;
    fallback_same = refl;
    has_address =
        subst (λ t. HasAddress b.takeover_servers t server)
          ((note_address_in_lem b'.takeover_servers server).1 unnoted
            ∙ ap (λ (c : Backup). c.takeover_servers) grown)
          grows.has_address;
  }

  abbrev PrepareEnds : Backup → World S → Result (Unit {0}) Error × World S → Type 0
  PrepareEnds b w out =
      (out.1.machine ≡ w.machine)
      × (out.1.marker ≡ w.marker)
      × (((out.0 ≡ ok tt)
            × (b' : Backup) × (out.1.backup ≡ some b')
            × Grows host.interface_index server b b')
          ⊎ ((e : Error) × (out.0 ≡ err e) × (out.1.backup ≡ some b)))

  pub prepare_watchdog_backup_lem :
      (b : Backup) (snapshots : List ServiceDns) (w : World S)
      → w.backup ≡ some b
      → PrepareEnds b w (prepare_watchdog_backup host b snapshots server w)
  prepare_watchdog_backup_lem b snapshots w stored =
      let P = PrepareEnds b w in
      elim (Result-cases (added b snapshots)) [
        | inr (e, refused) ↦
            subst P (sym (prepare_refused b snapshots w e refused))
              (refl, refl, inr (e, refl, stored))
        | inl ((b', grew), fine) ↦
            let (more, grown, fresh, same) =
              add_new_service_snapshots_lem host.interface_index (show_ip server) snapshots b false
                b' grew fine in
            let grows = note_address-Grows b b' more grown fresh in
            elim (Bool-cases (grew || (note_address b' server).1)) [
              | inr unchanged ↦ subst P (sym (prepare_same b snapshots w b' grew fine unchanged)) (
                refl,
                refl,
                inl (refl, b, stored, Grows-unchanged b b' more grown grows (ground arith)),
              )
              | inl changed ↦
                  subst P (sym (prepare_written b snapshots w b' grew fine changed))
                    (elim (write_backup_ends (note_address b' server).0 w).1 [
                      | inl wrote ↦ (
                        ground arith,
                        ground arith,
                        inl (ground arith, (note_address b' server).0, ground arith, grows),
                      )
                      | inr failed ↦ (
                        ground arith,
                        ground arith,
                        inr (write_backup_failed, ground arith, ground arith),
                      )
                    ])
            ]
      ]
