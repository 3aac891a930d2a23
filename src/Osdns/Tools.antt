-- ===== src/Osdns/Tools.antt =====
-- The machine and the files that src/osdns/macos.rs works with, and actions on them. A command is an argument, since
-- `networksetup` and `scutil` are not part of the repository: `Host.run` says what it prints and
-- does to the machine. A file operation succeeds or fails as the list `disk` says.
mod Failures
pub mod Files
pub use Failures.*
use dnsrivet.Prelude.{
  ℕ, Bool, true, false, not, ◌==◌, if◌then◌else◌, Option, none, some, List, [], ◌∷◌, ◌++◌, Result,
  ok, err, length,
}
use dnsrivet.Prelude.Texts.{Text, codes, trim, is_empty, starts_with, strip_prefix, lines}
use dnsrivet.Osdns.Addresses.{DnsAddr, parse_dns_socket, loopbacks}
use dnsrivet.Osdns.Scutil.{parse_scutil_global_dns}
use dnsrivet.Osdns.Backup.{Backup, TakeoverState, classify}

-- `std::process::Output`; `out` is `none` where it is not UTF-8.
pub record Output : Type 0 where
  pub success : Bool
  pub out : Option Text
  pub complaint : Text

pub record Host (S : Type 0) : Type 0 where
  pub run : Text → List Text → S → Result Output Text × S
  pub interface_index : Text → Option ℕ

pub record World (S : Type 0) : Type 0 where
  pub machine : S
  -- The file at `BACKUP_PATH`, as the `toml` crate reads it back.
  pub backup : Option Backup
  -- Whether the file at `MARKER_PATH` is there.
  pub marker : Bool
  -- For each coming operation on a file, whether it fails; all succeed where the list has ended.
  pub disk : List Bool

abbrev pub Action : Type 0 → Type 0 → Type 0
Action S A = World S → Result A Error × World S

module _ {S : Type 0} where
  abbrev pub pure : {A : Type 0} → A → Action S A
  pure a w = (ok a, w)

  abbrev pub fail : {A : Type 0} → Error → Action S A
  fail e w = (err e, w)

  abbrev pub fail_if : Bool → Error → Action S (Unit {0})
  fail_if test e w = (if test then err e else ok tt, w)

infixl 5 ◌>>=◌ ◌>>◌
abbrev pub ◌>>=◌ : {S A B : Type 0} → Action S A → (A → Action S B) → Action S B
◌>>=◌ m f w = let (r, w') = m w in elim r [ ok a ↦ f a w' | err e ↦ (err e, w') ]

abbrev pub ◌>>◌ : {S A B : Type 0} → Action S A → Action S B → Action S B
m >> k = m >>= λ _. k

abbrev pub present : Option Backup → Bool
present none = false
present (some _) = true

-- A file operation: what it does if it succeeds, and its error.
module _ {S : Type 0} where
  on_disk_as : List Bool → (World S → World S) → Error → Action S (Unit {0})
  on_disk_as [] effect e w = (ok tt, effect w)
  on_disk_as (false ∷ rest) effect e w = (ok tt, effect (record w { disk = rest }))
  on_disk_as (true ∷ rest) effect e w = (err e, record w { disk = rest })

  unfoldable pub on_disk : (World S → World S) → Error → Action S (Unit {0})
  unfolding on_disk_as
  on_disk effect e w = on_disk_as w.disk effect e w

  abbrev pub backup_exists : World S → Bool
  backup_exists w = present w.backup

  unfoldable pub create_marker : Action S (Unit {0})
  unfolding on_disk
  create_marker = on_disk (λ w. record w { marker = true }) create_marker_failed

  unfoldable pub remove_marker : Action S (Unit {0})
  unfolding on_disk
  remove_marker = on_disk (λ w. record w { marker = false }) remove_marker_failed

  unfoldable pub write_backup : Backup → Action S (Unit {0})
  unfolding on_disk
  write_backup b = on_disk (λ w. record w { backup = some b }) write_backup_failed

  unfoldable pub remove_backup : Action S (Unit {0})
  unfolding on_disk
  remove_backup = on_disk (λ w. record w { backup = none }) remove_backup_failed

  found : Option Backup → Action S Backup
  found none = fail read_backup_failed
  found (some b) = pure b

  unfoldable pub read_backup : Action S Backup
  unfolding on_disk found
  read_backup = do on_disk (λ w. w) read_backup_failed; λ w. found w.backup w

  unfoldable pub takeover_state : World S → TakeoverState
  unfolding classify
  takeover_state w = classify (backup_exists w) w.marker
