-- ===== src/Osdns/Protocol.antt =====
-- The takeover as a protocol on its four states, `TakeoverState` of src/osdns/macos.rs, and the
-- operations of the program as its events.
pub mod Allows
pub mod Runs
use dnsrivet.Prelude.{
  ◌⊎◌, ◌≡◌, ◌≢◌, refl, sym, ap, ◌∙◌, Bool, true, false, none, some, Option-cases, Bool-cases, arith,
  Result, ok, err, inl, inr, List, [], ◌∷◌,
}
use dnsrivet.Upstream.Net.{IpAddr}
use dnsrivet.Osdns.IpText.{show_ip}
use dnsrivet.Osdns.Backup.{
  Backup, TakeoverState, not_taken_over, active, indeterminate, corrupted, classify,
}
use dnsrivet.Osdns.Tools.{Error, Host, World, takeover_state, backup_exists}
use dnsrivet.Osdns.Commands.Laws.{View, settled, IsNetworksetup}
use dnsrivet.Osdns.Takeover.{take_over}
use dnsrivet.Osdns.Takeover.Outcome.{TakeOverEnds, IsTakenOver, IsUntouched, IsRestorable}
use dnsrivet.Osdns.Takeover.Ends.{take_over_ends}
use dnsrivet.Osdns.Release.{release}
use dnsrivet.Osdns.Release.Ends.{IsRestored}
use dnsrivet.Osdns.Release.Owned.{release_ends}
use dnsrivet.Osdns.Release.Unowned.{release_unowned_ends}
use dnsrivet.Osdns.Watch.{TickOutcome, watchdog_tick}
use dnsrivet.Osdns.Watch.Tick.{watchdog_tick_ends}

-- What an operation reports.
pub data Event : Type 0 where
  took : Event
  take_failed : Event
  restored : Event
  nothing_to_restore : Event
  release_failed : Event
  ticked : Event

-- The moves that an event allows.
pub allows : Event → TakeoverState → TakeoverState → Bool
allows took not_taken_over active = true
allows take_failed not_taken_over not_taken_over = true
allows take_failed not_taken_over indeterminate = true
allows take_failed active active = true
allows take_failed indeterminate indeterminate = true
allows restored active not_taken_over = true
allows restored indeterminate not_taken_over = true
allows nothing_to_restore not_taken_over not_taken_over = true
allows release_failed active active = true
allows release_failed active indeterminate = true
allows release_failed indeterminate indeterminate = true
allows ticked not_taken_over not_taken_over = true
allows ticked active active = true
allows ticked indeterminate indeterminate = true
allows _ _ _ = false

abbrev pub take_event : Result (Unit {0}) Error → Event
take_event (ok _) = took
take_event (err _) = take_failed

abbrev pub release_event : Result Bool Error → Event
release_event (ok true) = restored
release_event (ok false) = nothing_to_restore
release_event (err _) = release_failed

-- The operations that change the state.
pub data Operation : Type 0 where
  start_with : IpAddr → Operation
  stop : Operation
  tick : IpAddr → Operation

module _ {S : Type 0} (host : Host S) where
  unfoldable pub perform : Operation → World S → Event × World S
  perform (start_with server) w = let (r, w') = take_over host server w in (take_event r, w')
  perform stop w = let (r, w') = release host w in (release_event r, w')
  perform (tick server) w = let (_, w') = watchdog_tick host server w in (ticked, w')
