-- ===== src/Upstream/Hedged/Races.antt =====
-- src/upstream/mod.rs: which attempts run beside others.
use dnsrivet.Prelude.{
  ℕ, ◌+◌, ◌≡◌, refl, sym, ap, ◌∙◌, arith, Bool, true, false, ◌&&◌, ◌||◌, Option, none, some, List,
  [], ◌∷◌, Bytes, if◌then◌else◌, get_elem?, Bool-cases, Option-cases, List-cases, inl, inr, ◌⊎◌,
}
use dnsrivet.Upstream.Manager.{Manager, Entry, configured_answer}
use dnsrivet.Upstream.Hedged.{
  Phase, head, polling, waiting, finished, Race, Event, pass, ended, expired, joined, aborted,
  begin, is_empty, remove, contains, give_up, launch, start_next, after_answer, at_phase, race_step,
  race_after,
}
use dnsrivet.Upstream.Hedged.Deadlines.{
  Timed, AllTimed, AllTimed-append, AllTimed-remove, may_race-first, may_race-second,
}

-- Every spawned attempt has a deadline; an armed hedge stands between two upstreams with deadlines,
-- the last one that was started and the next one; and what is polled is the last one started.
pub record Fair (entries : List Entry) (race : Race) : Type 0 where
  pub timed : AllTimed entries race.pending
  pub hedge : race.armed ≡ true → Timed entries race.next
  pub polled :
      (i : ℕ) → race.phase ≡ polling i → (race.pending ≡ []) × (race.armed ≡ true → Timed entries i)

polling_inj : {i j : ℕ} → polling i ≡ polling j → i ≡ j
polling_inj h = cc

-- Outside the first select nothing is said of what is polled.
not_polling :
    {A : Type 0} {i : ℕ} (phase : Phase)
    → (phase ≡ head) ⊎ (phase ≡ waiting) ⊎ ((o : Option Bytes) × (phase ≡ finished o))
    → phase ≡ polling i
    → A
not_polling phase (inl e) h = absurd (ground arith)
not_polling phase (inr (inl e)) h = absurd (ground arith)
not_polling phase (inr (inr (o, e))) h = absurd (ground arith)

module _ (entries : List Entry) where
  launch-Fair :
      (race : Race) (entry : Entry)
      → get_elem? entries race.next ≡ some entry
      → AllTimed entries race.pending
      → (is_empty race.pending ≡ false → Timed entries race.next)
      → Fair entries (launch entries race entry)
  unfolding launch
  launch-Fair race entry found timed due = elim (List-cases race.pending) [
    | inl e ↦ record {
      timed = rw (e, launch) tt;
      hedge = λ h. may_race-second entries entry (race.next + 1) h;
      polled = λ i h.
          let same : race.next ≡ i = polling_inj (ground arith) in
          (
            rw e refl,
            λ armed.
                (entry, ap (get_elem? entries) (sym same) ∙ found, may_race-first entry _ armed),
          );
    }
    | inr (j, js, e) ↦ record {
      timed =
          let next = due (rw e refl) in
          rw e (AllTimed-append entries (j ∷ js) (race.next ∷ []) (rw e at timed) (next, tt));
      hedge = λ h. may_race-second entries entry (race.next + 1) h;
      polled = λ i h. not_polling (launch entries race entry).phase (inl (rw e refl)) h;
    }
  ]

  give_up-Fair :
      (race : Race)
      → AllTimed entries race.pending
      → Fair entries (give_up (record race { armed = false }))
  unfolding give_up
  give_up-Fair race timed = record {
    timed = timed;
    hedge = λ h. absurd (ground arith);
    polled = λ i h. elim (Bool-cases (is_empty race.pending)) [
      | inl e ↦ absurd (ground arith)
      | inr e ↦ absurd (ground arith)
    ];
  }

  start_next-Fair :
      (race : Race) (permit : Bool)
      → AllTimed entries race.pending
      → (is_empty race.pending ≡ false → Timed entries race.next)
      → Fair entries (start_next entries race permit)
  unfolding start_next
  start_next-Fair race permit timed due = elim (Option-cases (get_elem? entries race.next)) [
    | inl e ↦ rw (e, start_next) (give_up-Fair race timed)
    | inr (entry, e) ↦
        rw (e, start_next)
          (elim permit
            as (λ p. Fair entries (
              if p
              then launch entries (record race { armed = false }) entry
              else give_up (record race { armed = false }))) [
                | true ↦ launch-Fair (record race { armed = false }) entry e timed due
                | false ↦ give_up-Fair race timed
              ])
  ]

  -- Behind the head and the first select only what is pending and the hedge count.
  settled :
      (race : Race) (phase : Phase) (manager : Manager) (pending : List ℕ)
      → AllTimed entries pending
      → (race.armed ≡ true → Timed entries race.next)
      → ((phase ≡ head) ⊎ (phase ≡ waiting) ⊎ ((o : Option Bytes) × (phase ≡ finished o)))
      → Fair entries (record race { phase = phase; manager = manager; pending = pending })
  settled race phase manager pending timed hedge calm = record {
    timed = timed;
    hedge = hedge;
    polled = λ i h. not_polling phase calm h;
  }

  after_answer-Fair :
      (race : Race) (p : Manager × Option Bytes)
      → AllTimed entries race.pending
      → (race.armed ≡ true → Timed entries race.next)
      → Fair entries (after_answer race p)
  after_answer-Fair race (manager, none) timed hedge =
      settled race head manager race.pending timed hedge (inl refl)
  after_answer-Fair race (manager, some r) timed hedge =
      settled race (finished (some r)) manager race.pending timed hedge (inr (inr (some r, refl)))

  either :
      (b : Bool) {x y : Race}
      → (b ≡ true → Fair entries x)
      → Fair entries y
      → Fair entries (if b then x else y)
  either true x y = x refl
  either false x y = y

module _ {E : Type 0} (entries : List Entry) (query : Bytes) where
  at_phase-Fair :
      (phase : Phase) (race : Race) (event : Event E)
      → race.phase ≡ phase
      → Fair entries race
      → Fair entries (at_phase entries query phase race event)
  unfolding at_phase
  at_phase-Fair head race (pass due permit) e f =
      elim (Bool-cases (is_empty race.pending || (due && race.armed))) [
        | inl go ↦
            rw (go, at_phase)
              (start_next-Fair entries race permit f.timed (λ busy. f.hedge (ground arith)))
        | inr stay ↦
            rw (stay, at_phase)
              (settled entries race waiting race.manager race.pending f.timed f.hedge
                (inr (inl refl)))
      ]
  at_phase-Fair (polling i) race (ended result) e f =
      after_answer-Fair entries race (configured_answer race.manager query result) f.timed f.hedge
  at_phase-Fair (polling i) race expired e f =
      either entries race.armed
        (λ armed.
          settled entries race head race.manager (i ∷ []) ((f.polled i e).1 armed, tt) f.hedge
            (inl refl))
        f
  at_phase-Fair waiting race expired e f =
      either entries race.armed
        (λ armed. settled entries race head race.manager race.pending f.timed f.hedge (inl refl)) f
  at_phase-Fair waiting race (joined i result) e f = elim (Bool-cases (contains i race.pending)) [
    | inl there ↦
        rw (there, at_phase)
          (after_answer-Fair entries (record race { pending = remove i race.pending })
            (configured_answer race.manager query result)
            (AllTimed-remove entries i race.pending f.timed) f.hedge)
    | inr gone ↦ rw (gone, at_phase) f
  ]
  at_phase-Fair waiting race (aborted i) e f =
      settled entries race head race.manager (remove i race.pending)
        (AllTimed-remove entries i race.pending f.timed) f.hedge (inl refl)
  at_phase-Fair head race (ended result) e f = f
  at_phase-Fair head race expired e f = f
  at_phase-Fair head race (joined i result) e f = f
  at_phase-Fair head race (aborted i) e f = f
  at_phase-Fair (polling i) race (pass due permit) e f = f
  at_phase-Fair (polling i) race (joined j result) e f = f
  at_phase-Fair (polling i) race (aborted j) e f = f
  at_phase-Fair waiting race (pass due permit) e f = f
  at_phase-Fair waiting race (ended result) e f = f
  at_phase-Fair (finished o) race event e f = f

  race_after-Fair_from :
      (race : Race) (events : List (Event E))
      → Fair entries race
      → Fair entries (race_after entries query race events)
  unfolding race_after race_step
  race_after-Fair_from race [] f = f
  race_after-Fair_from race (event ∷ events) f =
      race_after-Fair_from (at_phase entries query race.phase race event) events
        (at_phase-Fair race.phase race event refl f)

  -- Whatever happens, an upstream without a deadline never runs beside another one: each spawned
  -- attempt has a deadline, and a hedge is armed only for a next upstream that has one.
  pub race_after-Fair :
      (manager : Manager) (events : List (Event E))
      → Fair entries (race_after entries query (begin manager) events)
  race_after-Fair manager events =
      race_after-Fair_from (begin manager) events
        (settled entries (begin manager) head manager [] tt (λ h. absurd (ground arith)) (inl refl))
