-- ===== src/Osdns/Takeover/Outcome.antt =====
-- The outcome of `take_over`, of src/osdns/macos.rs, whatever commands and file operations fail.
use dnsrivet.Prelude.{◌⊎◌, ◌≡◌, true, none, some, [], ◌∷◌, Result, ok, err}
use dnsrivet.Prelude.Texts.{Text, contains_text}
use dnsrivet.Upstream.Net.{IpAddr}
use dnsrivet.Osdns.IpText.{show_ip}
use dnsrivet.Osdns.Backup.{Backup}
use dnsrivet.Osdns.Tools.{Error, World}
use dnsrivet.Osdns.Commands.Laws.{View}
use dnsrivet.Osdns.Takeover.Rollback.{Records}
use dnsrivet.Osdns.Takeover.Switch.{IsSwitched, names_of}
use dnsrivet.Osdns.Takeover.Snapshot.{NoneLists}

-- The backup holds the servers of all the enabled services, none of which lists the address.
pub record IsRecorded (server : IpAddr) (v : View) (b : Backup) : Type 0 where
  pub version_is : b.version ≡ 2
  pub takeovers_are : b.takeover_servers ≡ some (server ∷ [])
  pub services_are : names_of b.services ≡ v.enabled
  pub records : Records v.dns b.services
  pub unlisted : NoneLists (show_ip server) b.services

module _ {S : Type 0} (view : S → View) (server : IpAddr) (w : World S) where
  -- The takeover is in force.
  pub record IsTakenOver (w' : World S) : Type 0 where
    pub backup : Backup
    pub stored : w'.backup ≡ some backup
    pub recorded : IsRecorded server (view w.machine) backup
    pub marked : w'.marker ≡ true
    pub switched :
        IsSwitched
          (show_ip server)
          (contains_text (view w.machine).enabled)
          (view w.machine).dns
          (view w'.machine)

  -- Nothing has changed.
  pub record IsUntouched (w' : World S) : Type 0 where
    pub backup_same : w'.backup ≡ w.backup
    pub dns_same : (n : Text) → (view w'.machine).dns n ≡ (view w.machine).dns n

  -- The backup is there to restore from.
  pub record IsRestorable (w' : World S) : Type 0 where
    pub fresh : w.backup ≡ none
    pub backup : Backup
    pub stored : w'.backup ≡ some backup
    pub recorded : IsRecorded server (view w.machine) backup

  -- How `take_over` can end: with the takeover in force, or with an error that leaves the marker
  -- alone and either no trace or a backup of every service.
  pub record TakeOverEnds (out : Result (Unit {0}) Error × World S) : Type 0 where
    pub all_same : (view out.1.machine).all ≡ (view w.machine).all
    pub enabled_same : (view out.1.machine).enabled ≡ (view w.machine).enabled
    pub ends :
        ((out.0 ≡ ok tt) × (w.backup ≡ none) × IsTakenOver out.1)
        ⊎ ((e : Error) × (out.0 ≡ err e)
            × (out.1.marker ≡ w.marker)
            × (IsUntouched out.1 ⊎ IsRestorable out.1))
