-- ===== src/Osdns/Protocol/Runs.antt =====
-- Runs of the operations of src/osdns/macos.rs, with changes from outside between them, follow the
-- protocol of the takeover.
use mathlib.Core.Path.{subst}
use dnsrivet.Prelude.{◌≡◌, ◌≢◌, refl, sym, ◌∙◌, true, false, List, [], ◌∷◌, arith}
use dnsrivet.Osdns.Backup.{TakeoverState, not_taken_over, active, indeterminate, corrupted}
use dnsrivet.Osdns.Tools.{Host, World, takeover_state}
use dnsrivet.Osdns.Commands.Laws.{View, IsNetworksetup}
use dnsrivet.Osdns.Protocol.{
  Event, took, take_failed, restored, nothing_to_restore, release_failed, ticked, allows, Operation,
  perform,
}
use dnsrivet.Osdns.Protocol.Allows.{IsPlain, perform-allows}

-- A sequence of moves of the protocol.
pub data Moves : TakeoverState → List Event → TakeoverState → Type 0 where
  still : (s : TakeoverState) → Moves s [] s
  move :
      {t u : TakeoverState} (s : TakeoverState) (event : Event) (events : List Event)
      → allows event s t ≡ true
      → Moves t events u
      → Moves s (event ∷ events) u

-- A run of the program: operations, one at a time, and between them any change of the machine by
-- others, and any outcomes of the file operations to come.
pub data Run {S : Type 0} (host : Host S) : World S → List Event → World S → Type 0 where
  finish : (w : World S) → Run host w [] w
  then_perform :
      {w w1 w' : World S} {events : List Event} (op : Operation) (event : Event)
      → IsPlain op
      → perform host op w ≡ (event, w1)
      → Run host w1 events w'
      → Run host w (event ∷ events) w'
  meanwhile :
      {w w1 w' : World S} {events : List Event}
      → w1.backup ≡ w.backup
      → w1.marker ≡ w.marker
      → Run host w1 events w'
      → Run host w events w'

no_corruption : (event : Event) (s : TakeoverState) → allows event s corrupted ≡ false
unfolding allows
no_corruption took not_taken_over = refl
no_corruption took active = refl
no_corruption took indeterminate = refl
no_corruption took corrupted = refl
no_corruption take_failed not_taken_over = refl
no_corruption take_failed active = refl
no_corruption take_failed indeterminate = refl
no_corruption take_failed corrupted = refl
no_corruption restored not_taken_over = refl
no_corruption restored active = refl
no_corruption restored indeterminate = refl
no_corruption restored corrupted = refl
no_corruption nothing_to_restore not_taken_over = refl
no_corruption nothing_to_restore active = refl
no_corruption nothing_to_restore indeterminate = refl
no_corruption nothing_to_restore corrupted = refl
no_corruption release_failed not_taken_over = refl
no_corruption release_failed active = refl
no_corruption release_failed indeterminate = refl
no_corruption release_failed corrupted = refl
no_corruption ticked not_taken_over = refl
no_corruption ticked active = refl
no_corruption ticked indeterminate = refl
no_corruption ticked corrupted = refl

allows-ne-corrupted :
    (event : Event) (s t : TakeoverState) → allows event s t ≡ true → t ≢ corrupted
allows-ne-corrupted event s t h e =
    let moved : allows event s corrupted ≡ true = subst (λ u. allows event s u ≡ true) e h in
    cc (no_corruption event s)

takeover_state-same :
    {S : Type 0} (w w1 : World S)
    → w1.backup ≡ w.backup
    → w1.marker ≡ w.marker
    → takeover_state w1 ≡ takeover_state w
unfolding takeover_state
takeover_state-same w w1 backup marker = ground arith

module _ {S : Type 0} {host : Host S} {view : S → View} (law : IsNetworksetup host view) where
  -- Every run from a state that is not the corrupted one follows the protocol, event by event, and
  -- ends in a state that is not the corrupted one.
  pub Run-Moves :
      {w w' : World S} {events : List Event}
      → Run host w events w'
      → takeover_state w ≢ corrupted
      → Moves (takeover_state w) events (takeover_state w') × (takeover_state w' ≢ corrupted)
  Run-Moves (finish w) h = (still (takeover_state w), h)
  Run-Moves (then_perform {w} {w1} {w'} {events} op event plain ran rest) h =
      let allowed : allows event (takeover_state w) (takeover_state w1) ≡ true =
        subst
          (λ (out : Event × World S). allows out.0 (takeover_state w) (takeover_state out.1) ≡ true)
          ran (perform-allows law op w plain h) in
      let (moves, sound) =
        Run-Moves rest (allows-ne-corrupted event (takeover_state w) (takeover_state w1) allowed) in
      (move (takeover_state w) event events allowed moves, sound)
  Run-Moves (meanwhile {w} {w1} {w'} {events} backup marker rest) h =
      let same = takeover_state-same w w1 backup marker in
      let (moves, sound) = Run-Moves rest (λ e. h (sym same ∙ e)) in
      (subst (λ s. Moves s events (takeover_state w')) same moves, sound)
