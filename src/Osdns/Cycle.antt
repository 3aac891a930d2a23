-- ===== src/Osdns/Cycle.antt =====
-- A takeover and its release together, of src/osdns/macos.rs: the settings that were there before
-- come back.
pub mod Success
use dnsrivet.Prelude.{
  ◌⊎◌, ◌≡◌, ◌≢◌, refl, sym, ap, ◌∙◌, Bool, true, false, none, List, [], ◌∷◌, arith, ok, err,
  Bool-cases, inl, inr, if◌then◌else◌, eq_bytes→eq, eq_bytes_self,
}
use dnsrivet.Prelude.Texts.{Text, eq_text, contains_text}
use dnsrivet.Upstream.Net.{IpAddr}
use dnsrivet.Osdns.IpText.{show_ip}
use dnsrivet.Osdns.Backup.{ServiceDns, Backup, has_service}
use dnsrivet.Osdns.Tools.{Error, Host, World}
use dnsrivet.Osdns.Commands.Laws.{View, assign, settled, IsNetworksetup}
use dnsrivet.Osdns.Takeover.{take_over}
use dnsrivet.Osdns.Takeover.Rollback.{Records}
use dnsrivet.Osdns.Takeover.Switch.{names_of, IsSwitched}
use dnsrivet.Osdns.Takeover.Outcome.{IsRecorded}
use dnsrivet.Osdns.Takeover.Apply.{contains-names_of}
use dnsrivet.Osdns.Takeover.Ends.{take_over_ends}
use dnsrivet.Osdns.Release.{release}
use dnsrivet.Osdns.Release.Restored.{restored}
use dnsrivet.Osdns.Release.Owned.{release_ends}

-- All the names are listed.
abbrev AllListed : List Text → List ServiceDns → Type 0
AllListed current [] = Unit
AllListed current (s ∷ services) =
    (contains_text current s.name ≡ true) × AllListed current services

-- Setting back recorded servers gives a recorded service its servers and leaves the others alone.
restored-Records :
    (current : List Text) (services : List ServiceDns) (before now : Text → List Text) (n : Text)
    → Records before services
    → AllListed current services
    → restored current services now n ≡ (if has_service services n then before n else now n)
unfolding has_service
restored-Records current [] before now n records listed = refl
restored-Records current (s ∷ services) before now n records listed =
    let rest =
      restored-Records current services before
        (if contains_text current s.name then assign s.name (settled s.servers) now else now) n
        records.1 listed.1 in
    rest
    ∙ ap
        (λ (set : Bool).
          if has_service services n
          then before n
          else (if set then assign s.name (settled s.servers) now else now) n)
        listed.0
    ∙ (elim (Bool-cases (eq_text s.name n)) [
      | inl here ↦ ground (arith, eq_bytes→eq s.name n here)
      | inr there ↦ ground arith
    ])

AllListed-names :
    (current : List Text) (services : List ServiceDns)
    → ((n : Text) → contains_text (names_of services) n ≡ true → contains_text current n ≡ true)
    → AllListed current services
unfolding contains_text
AllListed-names current [] h = tt
AllListed-names current (s ∷ services) h = (
  h s.name (ground (arith, eq_bytes_self s.name)),
  AllListed-names current services (λ n m. h n (ground arith)),
)

module _ {S : Type 0} {host : Host S} {view : S → View} (law : IsNetworksetup host view)
    (server : IpAddr) (plain : settled (show_ip server ∷ []) ≡ show_ip server ∷ [])
    (w : World S) where
  -- The settings that the backup of a takeover puts back are those from before it.
  restored_all :
      (w' : World S) (b : Backup)
      → IsRecorded server (view w.machine) b
      → (view w'.machine).all ≡ (view w.machine).all
      → IsSwitched
          (show_ip server)
          (contains_text (view w.machine).enabled)
          (view w.machine).dns
          (view w'.machine)
      → (n : Text)
      → restored (view w'.machine).all b.services (view w'.machine).dns n ≡ (view w.machine).dns n
  restored_all w' b recorded all switched n =
      restored-Records (view w'.machine).all b.services (view w.machine).dns (view w'.machine).dns n
        recorded.records
        (AllListed-names (view w'.machine).all b.services (λ m known.
          let enabled = ap (λ l. contains_text l m) (sym recorded.services_are) ∙ known in
          ap (λ l. contains_text l m) all ∙ law.enabled_exist w.machine m enabled))
      ∙ (let same : has_service b.services n ≡ contains_text (view w.machine).enabled n =
            sym (contains-names_of b.services n)
            ∙ ap (λ l. contains_text l n) recorded.services_are in
          ground (arith, switched n))

  -- A takeover that succeeds and then a release that succeeds leave the DNS servers of every
  -- service as they were before the takeover, and no backup and no marker. The release starts in
  -- the world that the takeover left, but for the outcomes of the file operations to come. A
  -- release that fails leaves the backup.
  pub release-take_over :
      (disk : List Bool)
      → (take_over host server w).0 ≡ ok tt
      → let (r, w') = release host (record (take_over host server w).1 { disk = disk }) in
        ((r ≡ ok true)
          × (w'.backup ≡ none)
          × (w'.marker ≡ false)
          × ((n : Text) → (view w'.machine).dns n ≡ (view w.machine).dns n))
        ⊎ ((e : Error) × (r ≡ err e) × (w'.backup ≢ none))
  release-take_over disk taken =
      let ends = take_over_ends law server plain w in
      elim ends.ends [
        | inr (e, failed, _, _) ↦ absurd (ground arith)
        | inl (fine, _, held) ↦
            let w1 = record (take_over host server w).1 { disk = disk } in
            elim (release_ends law held.backup w1 held.stored) [
              | inr (e, failed, kept, _) ↦ inr (e, failed, ground arith)
              | inl (done, unmarked, back) ↦ inl (
                done,
                back.backup_gone,
                unmarked,
                λ n.
                    ap (λ (v : View). v.dns n) back.dns_restored
                    ∙ restored_all w1 held.backup held.recorded ends.all_same held.switched n,
              )
            ]
      ]
