-- ===== src/Upstream/Hedged/Exhaustion.antt =====
-- src/upstream/mod.rs: when a race gives up.
use dnsrivet.Prelude.{
  ℕ, ◌≡◌, refl, arith, Bool, true, false, ◌&&◌, ◌||◌, Option, none, some, List, [], ◌∷◌, Bytes,
  if◌then◌else◌, get_elem?, Option-cases, List-cases, inl, inr, ◌⊎◌,
}
use dnsrivet.Upstream.Manager.{Manager, Entry, configured_answer}
use dnsrivet.Upstream.Hedged.{
  Phase, head, polling, waiting, finished, Race, Event, pass, ended, expired, joined, aborted,
  begin, is_empty, remove, contains, give_up, launch, start_next, after_answer, at_phase, race_step,
  race_after,
}

-- A permit was there whenever the head asked for one.
abbrev pub AllPermitted : {E : Type 0} → List (Event E) → Type 0
AllPermitted [] = Unit
AllPermitted (pass due permit ∷ events) = (permit ≡ true) × AllPermitted events
AllPermitted (_ ∷ events) = AllPermitted events

-- A race that gave up has nothing pending and has started every upstream.
abbrev pub Exhausted : List Entry → Race → Type 0
Exhausted entries race =
    race.phase ≡ finished none → (race.pending ≡ []) × (get_elem? entries race.next ≡ none)

start_next-Exhausted :
    (entries : List Entry) (race : Race) → Exhausted entries (start_next entries race true)
unfolding start_next give_up launch
start_next-Exhausted entries race h = elim (Option-cases (get_elem? entries race.next)) [
  | inl e ↦ elim (List-cases race.pending) [
    | inl p ↦ ground arith
    | inr (j, js, p) ↦ absurd (ground arith)
  ]
  | inr (entry, e) ↦ elim (List-cases race.pending) [
    | inl p ↦ absurd (ground arith)
    | inr (j, js, p) ↦ absurd (ground arith)
  ]
]

after_answer-Exhausted :
    (entries : List Entry) (race : Race) (p : Manager × Option Bytes)
    → Exhausted entries (after_answer race p)
after_answer-Exhausted entries race (manager, none) h = absurd (ground arith)
after_answer-Exhausted entries race (manager, some r) h = absurd (ground arith)

-- A race in another phase has not given up.
running :
    (entries : List Entry) (race : Race)
    → (race.phase ≡ head) ⊎ (race.phase ≡ waiting) ⊎ ((i : ℕ) × (race.phase ≡ polling i))
    → Exhausted entries race
running entries race (inl e) h = absurd (ground arith)
running entries race (inr (inl e)) h = absurd (ground arith)
running entries race (inr (inr (i, e))) h = absurd (ground arith)

either-Exhausted :
    (entries : List Entry) (b : Bool) (x y : Race)
    → Exhausted entries x
    → Exhausted entries y
    → Exhausted entries (if b then x else y)
either-Exhausted entries true x y a b = a
either-Exhausted entries false x y a b = b

module _ {E : Type 0} (entries : List Entry) (query : Bytes) where
  at_phase-Exhausted :
      (phase : Phase) (race : Race) (event : Event E)
      → race.phase ≡ phase
      → AllPermitted (event ∷ [])
      → Exhausted entries race
      → Exhausted entries (at_phase entries query phase race event)
  unfolding at_phase
  at_phase-Exhausted head race (pass due true) e permitted x =
      either-Exhausted entries (is_empty race.pending || (due && race.armed))
        (start_next entries race true) (record race { phase = waiting })
        (start_next-Exhausted entries race)
        (running entries (record race { phase = waiting }) (inr (inl refl)))
  at_phase-Exhausted head race (pass due false) e permitted x = absurd (ground arith)
  at_phase-Exhausted (polling i) race (ended result) e permitted x =
      after_answer-Exhausted entries race (configured_answer race.manager query result)
  at_phase-Exhausted (polling i) race expired e permitted x =
      either-Exhausted entries race.armed (record race { pending = i ∷ []; phase = head }) race
        (running entries (record race { pending = i ∷ []; phase = head }) (inl refl)) x
  at_phase-Exhausted waiting race expired e permitted x =
      either-Exhausted entries race.armed (record race { phase = head }) race
        (running entries (record race { phase = head }) (inl refl)) x
  at_phase-Exhausted waiting race (joined i result) e permitted x =
      either-Exhausted entries (contains i race.pending)
        (after_answer (record race { pending = remove i race.pending })
          (configured_answer race.manager query result))
        race
        (after_answer-Exhausted entries (record race { pending = remove i race.pending })
          (configured_answer race.manager query result))
        x
  at_phase-Exhausted waiting race (aborted i) e permitted x =
      running entries (record race { pending = remove i race.pending; phase = head }) (inl refl)
  at_phase-Exhausted head race (ended result) e permitted x = x
  at_phase-Exhausted head race expired e permitted x = x
  at_phase-Exhausted head race (joined i result) e permitted x = x
  at_phase-Exhausted head race (aborted i) e permitted x = x
  at_phase-Exhausted (polling i) race (pass due permit) e permitted x = x
  at_phase-Exhausted (polling i) race (joined j result) e permitted x = x
  at_phase-Exhausted (polling i) race (aborted j) e permitted x = x
  at_phase-Exhausted waiting race (pass due permit) e permitted x = x
  at_phase-Exhausted waiting race (ended result) e permitted x = x
  at_phase-Exhausted (finished o) race event e permitted x = x

  split_permitted :
      (event : Event E) (events : List (Event E))
      → AllPermitted (event ∷ events)
      → AllPermitted (event ∷ []) × AllPermitted events
  split_permitted (pass due permit) events (p, ps) = ((p, tt), ps)
  split_permitted (ended result) events ps = (tt, ps)
  split_permitted expired events ps = (tt, ps)
  split_permitted (joined i result) events ps = (tt, ps)
  split_permitted (aborted i) events ps = (tt, ps)

  race_after-Exhausted_from :
      (race : Race) (events : List (Event E))
      → AllPermitted events
      → Exhausted entries race
      → Exhausted entries (race_after entries query race events)
  unfolding race_after race_step
  race_after-Exhausted_from race [] permitted x = x
  race_after-Exhausted_from race (event ∷ events) permitted x =
      let (now, later) = split_permitted event events permitted in
      race_after-Exhausted_from (at_phase entries query race.phase race event) events later
        (at_phase-Exhausted race.phase race event refl now x)

  -- Where permits are always there, the configured upstreams count as failed only when every one of
  -- them was started and none is pending.
  pub race_after-Exhausted :
      (manager : Manager) (events : List (Event E))
      → AllPermitted events
      → (race_after entries query (begin manager) events).phase ≡ finished none
      → ((race_after entries query (begin manager) events).pending ≡ [])
        × (get_elem? entries (race_after entries query (begin manager) events).next ≡ none)
  race_after-Exhausted manager events permitted =
      race_after-Exhausted_from (begin manager) events permitted
        (running entries (begin manager) (inl refl))
