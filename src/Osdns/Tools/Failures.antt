-- ===== src/Osdns/Tools/Failures.antt =====
-- The errors of src/osdns/macos.rs, one constructor for each message.
use dnsrivet.Prelude.{ℕ, Bool, true, false, ◌≡◌, ◌≢◌, refl}
use dnsrivet.Prelude.Texts.{Text}
use dnsrivet.Upstream.Net.{IpAddr}
use dnsrivet.Osdns.Addresses.{AddressError}

mutual
  pub data Error : Type 0 where
    run_failed : Text → Text → Error
    command_failed : Text → Error
    not_utf8 : Error
    unrecognized : Text → Text → Error
    bad_address : AddressError → Error
    set_failed : Text → Text → Error
    create_marker_failed : Error
    remove_marker_failed : Error
    write_backup_failed : Error
    remove_backup_failed : Error
    read_backup_failed : Error
    already_backed_up : Error
    already_lists : Text → IpAddr → Error
    no_services : Error
    takeover_failed : Error → Bool → Error
    unsupported_version : ℕ → Error
    marker_without_backup : Error
    still_depends : Text → Error
    restore_refused : Errors → Error
    unknown_restore_state : Text → Error
    capture_unreadable : Error → Error
    no_runtime_fallback : Error
    reassert_incomplete : Errors → Error

  -- The errors that one message joins.
  pub data Errors : Type 0 where
    none_left : Errors
    and_also : Errors → Error → Errors

-- `!errors.is_empty()`
abbrev pub any_error : Errors → Bool
any_error none_left = false
any_error (and_also _ _) = true

pub any_error→none_left : (errors : Errors) → any_error errors ≡ false → errors ≡ none_left
any_error→none_left none_left h = refl
any_error→none_left (and_also errors e) h = cc

pub not_none : (errors : Errors) (e : Error) → and_also errors e ≢ none_left
not_none errors e h = cc
