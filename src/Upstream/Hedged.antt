-- ===== src/Upstream/Hedged.antt =====
-- src/upstream/mod.rs: `forward_hedged`, as a step function on its locals. An event is what the loop
-- meets: the clock and the permits at its head, the end of an attempt, or the end of the hedge delay.
pub mod Deadlines
pub mod Races
pub mod Exhaustion
use dnsrivet.Prelude.{
  ℕ, ◌+◌, Bool, true, false, not, ◌&&◌, ◌||◌, Option, none, some, Result, ok, err, List, [], ◌∷◌,
  ◌++◌, Bytes, ltb, ◌==◌, if◌then◌else◌, map_or, get_elem?, foldl,
}
use dnsrivet.Upstream.Manager.{Manager, Entry, configured_answer}

-- Where the loop stands: at its head, in the first select (the attempt is polled in the caller), in
-- the second one, or behind its return.
pub data Phase : Type 0 where
  head : Phase
  polling : ℕ → Phase
  waiting : Phase
  finished : Option Bytes → Phase

-- `pending` holds the indices of the spawned attempts; `armed` is `hedge_at.is_some()`.
pub record Race : Type 0 where
  pub next : ℕ
  pub pending : List ℕ
  pub armed : Bool
  pub phase : Phase
  pub manager : Manager

pub data Event (E : Type 0) : Type 0 where
  pass : Bool → Bool → Event E
  ended : Result Bytes E → Event E
  expired : Event E
  joined : ℕ → Result Bytes E → Event E
  aborted : ℕ → Event E

abbrev pub begin : Manager → Race
begin manager = record { next = 0; pending = []; armed = false; phase = head; manager = manager }

abbrev pub is_empty : List ℕ → Bool
is_empty [] = true
is_empty (_ ∷ _) = false

unfoldable pub remove : ℕ → List ℕ → List ℕ
remove i [] = []
remove i (j ∷ js) = if i == j then js else j ∷ remove i js

unfoldable pub contains : ℕ → List ℕ → Bool
contains i [] = false
contains i (j ∷ js) = i == j || contains i js

-- The entry has a deadline, and so has the one after it.
unfoldable pub may_race : Entry → Option Entry → Bool
may_race entry racer = ltb 0 entry.timeout_ms && map_or racer false (λ r. ltb 0 r.timeout_ms)

-- `break` where nothing is pending, else `continue`.
unfoldable pub give_up : Race → Race
give_up race = record race { phase = if is_empty race.pending then finished none else head }

unfoldable pub launch : List Entry → Race → Entry → Race
launch entries race entry = record race {
  next = race.next + 1;
  armed = may_race entry (get_elem? entries (race.next + 1));
  pending = if is_empty race.pending then [] else race.pending ++ (race.next ∷ []);
  phase = if is_empty race.pending then polling race.next else head;
}

-- The block behind the test of the loop's head.
unfoldable pub start_next : List Entry → Race → Bool → Race
start_next entries race permit = elim (get_elem? entries race.next) [
  | none ↦ give_up (record race { armed = false })
  | some entry ↦
      if permit
      then launch entries (record race { armed = false }) entry
      else give_up (record race { armed = false })
]

abbrev pub after_answer : Race → Manager × Option Bytes → Race
after_answer race (manager, none) = record race { manager = manager; phase = head }
after_answer race (manager, some response) = record race {
  manager = manager;
  phase = finished (some response);
}

module _ {E : Type 0} (entries : List Entry) (query : Bytes) where
  -- An event that the phase does not wait for changes nothing.
  unfoldable pub at_phase : Phase → Race → Event E → Race
  at_phase head race (pass due permit) =
      if is_empty race.pending || (due && race.armed)
      then start_next entries race permit
      else record race { phase = waiting }
  at_phase (polling i) race (ended result) =
      after_answer race (configured_answer race.manager query result)
  at_phase (polling i) race expired =
      if race.armed then record race { pending = i ∷ []; phase = head } else race
  at_phase waiting race expired = if race.armed then record race { phase = head } else race
  at_phase waiting race (joined i result) =
      if contains i race.pending
      then after_answer (record race { pending = remove i race.pending })
          (configured_answer race.manager query result)
      else race
  at_phase waiting race (aborted i) = record race { pending = remove i race.pending; phase = head }
  at_phase _ race _ = race

  unfoldable pub race_step : Race → Event E → Race
  race_step race event = at_phase race.phase race event

  unfoldable pub race_after : Race → List (Event E) → Race
  race_after race events = foldl race_step race events
