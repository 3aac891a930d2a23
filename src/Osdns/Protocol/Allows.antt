-- ===== src/Osdns/Protocol/Allows.antt =====
-- Every operation of src/osdns/macos.rs makes a move that the protocol of the takeover allows.
use dnsrivet.Prelude.{
  ◌≡◌, ◌≢◌, true, false, none, some, Option-cases, Bool-cases, arith, inl, inr, [], ◌∷◌,
}
use dnsrivet.Upstream.Net.{IpAddr}
use dnsrivet.Osdns.IpText.{show_ip}
use dnsrivet.Osdns.Backup.{Backup, corrupted, classify}
use dnsrivet.Osdns.Tools.{Host, World, takeover_state}
use dnsrivet.Osdns.Commands.Laws.{View, settled, IsNetworksetup}
use dnsrivet.Osdns.Takeover.{take_over}
use dnsrivet.Osdns.Takeover.Ends.{take_over_ends}
use dnsrivet.Osdns.Release.{release}
use dnsrivet.Osdns.Release.Owned.{release_ends}
use dnsrivet.Osdns.Release.Unowned.{release_unowned_ends}
use dnsrivet.Osdns.Watch.{watchdog_tick}
use dnsrivet.Osdns.Watch.Tick.{watchdog_tick_ends, watchdog_tick-not_active}
use dnsrivet.Osdns.Protocol.{
  ticked, allows, take_event, release_event, Operation, start_with, stop, tick, perform,
}

-- A world with neither file, with the backup only, and with both.
data Sound {S : Type 0} (w : World S) : Type 0 where
  free : w.backup ≡ none → w.marker ≡ false → Sound w
  halfway : (b : Backup) → w.backup ≡ some b → w.marker ≡ false → Sound w
  held : (b : Backup) → w.backup ≡ some b → w.marker ≡ true → Sound w

sound : {S : Type 0} (w : World S) → takeover_state w ≢ corrupted → Sound w
unfolding takeover_state classify
sound w h = elim (Option-cases w.backup) [
  | inl no_backup ↦ elim (Bool-cases w.marker) [
    | inl marked ↦ absurd (h (ground arith))
    | inr unmarked ↦ free no_backup unmarked
  ]
  | inr (b, stored) ↦ elim (Bool-cases w.marker) [
    | inl marked ↦ held b stored marked
    | inr unmarked ↦ halfway b stored unmarked
  ]
]

module _ {S : Type 0} {host : Host S} {view : S → View} (law : IsNetworksetup host view) where
  take_over_allowed :
      (server : IpAddr)
      → settled (show_ip server ∷ []) ≡ show_ip server ∷ []
      → (w : World S) → Sound w
      → let (r, w') = take_over host server w in
        allows (take_event r) (takeover_state w) (takeover_state w') ≡ true
  unfolding takeover_state classify allows
  take_over_allowed server plain w s =
      let ends = take_over_ends law server plain w in
      elim ends.ends [
        | inl (fine, fresh, now) ↦
            let stored = now.stored in
            let marked = now.marked in
            elim s [
              | free no_backup unmarked ↦ ground arith
              | halfway b present unmarked ↦ absurd (ground arith)
              | held b present was_marked ↦ absurd (ground arith)
            ]
        | inr (e, failed, marker, inl same) ↦
            let backup = same.backup_same in
            elim s [
              | free no_backup unmarked ↦ ground arith
              | halfway b present unmarked ↦ ground arith
              | held b present was_marked ↦ ground arith
            ]
        | inr (e, failed, marker, inr kept) ↦
            let fresh = kept.fresh in
            let stored = kept.stored in
            elim s [
              | free no_backup unmarked ↦ ground arith
              | halfway b present unmarked ↦ absurd (ground arith)
              | held b present was_marked ↦ absurd (ground arith)
            ]
      ]

  release_allowed :
      (w : World S)
      → Sound w
      → let (r, w') = release host w in
        allows (release_event r) (takeover_state w) (takeover_state w') ≡ true
  unfolding takeover_state classify allows
  release_allowed w (free no_backup unmarked) = ground (arith, release_unowned_ends law w no_backup)
  release_allowed w (halfway b present unmarked) = elim (release_ends law b w present) [
    | inl (fine, marker, done) ↦ let gone = done.backup_gone in ground arith
    | inr (e, failed, kept, marker) ↦ ground arith
  ]
  release_allowed w (held b present marked) = elim (release_ends law b w present) [
    | inl (fine, marker, done) ↦ let gone = done.backup_gone in ground arith
    | inr (e, failed, kept, marker) ↦ ground arith
  ]

  tick_allowed :
      (server : IpAddr)
      → settled (show_ip server ∷ []) ≡ show_ip server ∷ []
      → (w : World S) → Sound w
      → allows ticked (takeover_state w) (takeover_state (watchdog_tick host server w).1) ≡ true
  unfolding takeover_state classify allows
  tick_allowed server plain w (free no_backup unmarked) =
      let idle = watchdog_tick-not_active law server plain w (inl no_backup) in ground arith
  tick_allowed server plain w (halfway b present unmarked) =
      let idle = watchdog_tick-not_active law server plain w (inr unmarked) in ground arith
  tick_allowed server plain w (held b present marked) =
      let (marker, ends) = watchdog_tick_ends law server plain b w present marked in
      elim ends [
        | inl (o, done, some_outcome, now) ↦ let stored = now.stored in ground arith
        | inr (e, failed, now) ↦ let stored = now.stored in ground arith
      ]

-- The address of an operation is printed as something else than `Empty`.
abbrev pub IsPlain : Operation → Type 0
IsPlain (start_with server) = settled (show_ip server ∷ []) ≡ show_ip server ∷ []
IsPlain stop = Unit
IsPlain (tick server) = settled (show_ip server ∷ []) ≡ show_ip server ∷ []

module _ {S : Type 0} {host : Host S} {view : S → View} (law : IsNetworksetup host view) where
  -- From any state but the corrupted one, every operation makes a move that the protocol allows
  -- for what it reports, whichever commands and file operations fail.
  pub perform-allows :
      (op : Operation) (w : World S)
      → IsPlain op
      → takeover_state w ≢ corrupted
      → let (event, w') = perform host op w in
        allows event (takeover_state w) (takeover_state w') ≡ true
  unfolding perform
  perform-allows (start_with server) w plain h = take_over_allowed law server plain w (sound w h)
  perform-allows stop w plain h = release_allowed law w (sound w h)
  perform-allows (tick server) w plain h = tick_allowed law server plain w (sound w h)
