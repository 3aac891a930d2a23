-- ===== src/Osdns/Release/Success.antt =====
-- A release on a machine on which nothing fails, of src/osdns/macos.rs.
use mathlib.Core.Path.{subst}
use dnsrivet.Prelude.{
  ◌≡◌, refl, sym, ap, ◌∙◌, true, false, none, some, List, [], ◌∷◌, Result, ok, arith, Bool-cases,
  inl, inr, eq_bytes_self,
}
use dnsrivet.Prelude.Texts.{Text, contains_text}
use dnsrivet.Osdns.Backup.{ServiceDns, Backup, is_supported, dns_may_depend_on_takeover}
use dnsrivet.Osdns.Tools.{Error, Errors, none_left, any_error, Host, World}
use dnsrivet.Osdns.Tools.Files.{read_backup_calm, remove_backup_calm, remove_marker_calm}
use dnsrivet.Osdns.Commands.{list_all_services, get_dns_servers, set_dns_servers}
use dnsrivet.Osdns.Commands.Laws.{
  View, IsNetworksetup, get_dns_servers_lem, set_dns_servers_lem, list_all_services_lem,
}
use dnsrivet.Osdns.Commands.Success.{
  IsReliable, IsCalm, Succeeds, Succeeds-done, list_all_services-Succeeds, get_dns_servers-Succeeds,
  set_dns_servers-Succeeds, flush_caches-IsCalm,
}
use dnsrivet.Osdns.Takeover.Success.{AllThere}
use dnsrivet.Osdns.Release.{
  check_service, check_services, verify, set_back, restore_at, restore, release,
}
use dnsrivet.Osdns.Release.Restored.{restored, with_dns, set_back_gone, set_back_set, set_back_ends}
use dnsrivet.Osdns.Release.Verified.{AllIndependent, verify_listed}
use dnsrivet.Osdns.Release.Ends.{read, listed, wrote, checked, restore_checked}
use dnsrivet.Osdns.Release.Owned.{restore_done, release_restores}

abbrev pub AllAccepted : (List Text → Type 0) → List ServiceDns → Type 0
AllAccepted accepts [] = Unit
AllAccepted accepts (s ∷ services) = accepts s.servers × AllAccepted accepts services

AllThere-within :
    (all names : List Text)
    → ((n : Text) → contains_text names n ≡ true → contains_text all n ≡ true)
    → AllThere all names
unfolding contains_text
AllThere-within all [] h = tt
AllThere-within all (name ∷ names) h = (
  h name (ground (arith, eq_bytes_self name)),
  AllThere-within all names (λ n m. h n (ground arith)),
)

-- A loop that notes no error and leaves a good state in which no file operation will fail.
abbrev IsQuiet : {S : Type 0} → (S → Type 0) → Errors × World S → Type 0
IsQuiet good out = (out.0 ≡ none_left) × IsCalm good out.1

module _ {S : Type 0} {host : Host S} {view : S → View} {good : S → Type 0}
    {accepts : List Text → Type 0} (law : IsNetworksetup host view)
    (reliable : IsReliable host view good accepts) where
  set_back-IsQuiet :
      (services : List ServiceDns) (w : World S)
      → IsCalm good w
      → AllAccepted accepts services
      → IsQuiet good (set_back host (view w.machine).all services none_left w)
  unfolding set_back
  set_back-IsQuiet [] w calm accepted = (refl, calm)
  set_back-IsQuiet (s ∷ services) w calm accepted =
      let all = (view w.machine).all in
      elim (Bool-cases (contains_text all s.name)) [
        | inr gone ↦
            subst (IsQuiet good) (sym (set_back_gone host all s services none_left w gone))
              (set_back-IsQuiet services w calm accepted.1)
        | inl there ↦
            let set =
              set_dns_servers-Succeeds law reliable w calm s.name s.servers there accepted.0 in
            let w1 = (set_dns_servers host s.name s.servers w).1 in
            let same =
              ap (λ (v : View). v.all) ((set_dns_servers_lem law s.name s.servers w).2 set.0) in
            subst (IsQuiet good) (sym (set_back_set host all s services none_left w there set.0)) (
              subst (λ l. IsQuiet good (set_back host l services none_left w1)) same
                (set_back-IsQuiet services w1 set.1 accepted.1))
      ]

  module _ (b : Backup) where
    check_passes :
        (name : Text) (servers : List Text) (r : Result (List Text) Error)
        → r ≡ ok servers
        → dns_may_depend_on_takeover host.interface_index b name servers ≡ false
        → check_service host b name r none_left ≡ none_left
    unfolding check_service
    check_passes name servers r got free = rw (got, free) refl

    check_services-IsQuiet :
        (names : List Text) (w : World S)
        → IsCalm good w
        → AllThere (view w.machine).all names
        → AllIndependent host b (view w.machine).dns names
        → IsQuiet good (check_services host b names none_left w)
    unfolding check_services
    check_services-IsQuiet [] w calm there free = (refl, calm)
    check_services-IsQuiet (name ∷ names) w calm there free =
        let got = get_dns_servers-Succeeds law reliable w calm name there.0 in
        let w1 = (get_dns_servers host name w).1 in
        let same = sym (get_dns_servers_lem law name w).0.0 in
        let passes =
          check_passes name ((view w.machine).dns name) (get_dns_servers host name w).0 got.0
            free.0 in
        subst (λ e. IsQuiet good (check_services host b names e w1)) (sym passes)
          (check_services-IsQuiet names w1 got.1
            (subst (λ (v : View). AllThere v.all names) same there.1)
            (subst (λ (v : View). AllIndependent host b v.dns names) same free.1))

    verify-IsQuiet :
        (w : World S)
        → IsCalm good w
        → AllIndependent host b (view w.machine).dns (view w.machine).all
        → IsQuiet good (verify host b none_left w)
    verify-IsQuiet w calm free =
        let all = (view w.machine).all in
        let shown = list_all_services-Succeeds law reliable w calm in
        let same = sym (list_all_services_lem law w).0.0 in
        subst (IsQuiet good) (sym (verify_listed law b all none_left w shown.0)) (
          check_services-IsQuiet all (list_all_services host w).1 shown.1
            (subst (λ (v : View). AllThere v.all all) same (AllThere-within all all (λ n h. h)))
            (subst (λ (v : View). AllIndependent host b v.dns all) same free))

    module _ (w : World S) (calm : IsCalm good w) (stored : w.backup ≡ some b)
        (supported : is_supported b ≡ true) (accepted : AllAccepted accepts b.services)
        (free : AllIndependent host b
          (restored (view w.machine).all b.services (view w.machine).dns)
          (view w.machine).all) where
      restore_at-Succeeds : Succeeds good tt (restore_at host w)
      restore_at-Succeeds =
          let all = (view w.machine).all in
          let was_read = read_backup_calm w calm.1 b stored in
          let same0 : (read host w).1 ≡ w =
            ap (λ (out : Result Backup Error × World S). out.1) was_read in
          let got : (read host w).0 ≡ ok b =
            ap (λ (out : Result Backup Error × World S). out.0) was_read in
          let shown =
            list_all_services-Succeeds law reliable (read host w).1
              (subst (IsCalm good) (sym same0) calm) in
          let shows : (listed host w).0 ≡ ok all =
            shown.0 ∙ ap (λ (w0 : World S). ok (view w0.machine).all) same0 in
          let same1 : view (listed host w).1.machine ≡ view w.machine =
            (list_all_services_lem law (read host w).1).0.0
            ∙ ap (λ (w0 : World S). view w0.machine) same0 in
          let sets = set_back-IsQuiet b.services (listed host w).1 shown.1 accepted in
          let quiet : IsQuiet good (wrote host w b got all) =
            subst
              (λ (v : View).
                IsQuiet good (set_back host v.all b.services none_left (listed host w).1))
              same1 sets in
          let now =
            ((set_back_ends law all b.services none_left (listed host w).1).2 quiet.0).1
            ∙ ap (λ (v : View). with_dns v (restored all b.services v.dns)) same1 in
          let checks =
            verify-IsQuiet (wrote host w b got all).1 quiet.1
              (subst (λ (v : View). AllIndependent host b v.dns v.all) (sym now) free) in
          let passes : IsQuiet good (checked host w b got all) =
            subst (λ e. IsQuiet good (verify host b e (wrote host w b got all).1)) (sym quiet.0)
              checks in
          let w3 = (checked host w b got all).1 in
          Succeeds-done good (restore_at host w) (record w3 { backup = none }) passes.1
            (restore_checked host w b got supported all shows (ap any_error passes.0)
              ∙ remove_backup_calm w3 passes.1.1)

      restore-Succeeds : Succeeds good true (restore host w)
      restore-Succeeds =
          Succeeds-done good (restore host w) _
            (flush_caches-IsCalm law reliable (restore_at host w).1 restore_at-Succeeds.1)
            (restore_done host b w stored restore_at-Succeeds.0)

    -- A release succeeds where no command and no file operation fails, there is a backup of a
    -- version that is supported, `networksetup` accepts its servers, and no service may use
    -- DNSRivet once they are set.
    pub release-Succeeds :
        (w : World S)
        → IsCalm good w
        → w.backup ≡ some b
        → is_supported b ≡ true
        → AllAccepted accepts b.services
        → AllIndependent host b
            (restored (view w.machine).all b.services (view w.machine).dns)
            (view w.machine).all
        → Succeeds good true (release host w)
    release-Succeeds w calm stored supported accepted free =
        let removed = remove_marker_calm w calm.1 in
        let w1 = record w { marker = false } in
        subst (Succeeds good true)
          (sym (
            release_restores host b w stored
              (ap (λ (out : Result (Unit {0}) Error × World S). out.0) removed)
            ∙ ap (λ (out : Result (Unit {0}) Error × World S). restore host out.1) removed))
          (restore-Succeeds w1 calm stored supported accepted free)
