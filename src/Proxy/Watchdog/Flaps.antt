-- ===== src/Proxy/Watchdog/Flaps.antt =====
-- src/proxy/mod.rs: the cadence of the watchdog, and when it changes.
use dnsrivet.Prelude.{
  ℕ, ◌+◌, ◌≤◌, ◌≡◌, refl, ap, ◌∙◌, arith, true, false, none, some, List, [], ◌∷◌, ◌++◌, leb,
  if◌then◌else◌, inl, inr, ◌⊎◌, Option-cases, Bool-cases, suc,
}
use mathlib.Core.List.{foldl-append}
use dnsrivet.Upstream.Net.{SocketAddr}
use dnsrivet.Proxy.Watchdog.{
  TickOutcome, task_failed, tick_failed, not_active, clean, reasserted, watchdog_interval, Locals,
  initial, clean_tick, after_clean, locals_step, locals_after,
}
use dnsrivet.Proxy.Watchdog.Consistency.{
  Consistent, after_clean-Consistent, locals_after-Consistent,
}

-- No tick of the run repairs anything.
abbrev pub Quiet : List TickOutcome → Type 0
Quiet [] = Unit
Quiet (reasserted captured ∷ os) = ⊥
Quiet (_ ∷ os) = Quiet os

unfoldable pub clean_count : List TickOutcome → ℕ
clean_count [] = 0
clean_count (clean captured ∷ os) = suc (clean_count os)
clean_count (_ ∷ os) = clean_count os

-- Without a reassert in its memory the watchdog is in its first state.
forgotten-initial : (s : Locals) → Consistent s → s.ticks_since_reassert ≡ none → s ≡ initial
forgotten-initial s c h =
    let quick : s.slow_mode ≡ false = elim (Bool-cases s.slow_mode) [
      | inl e ↦ absurd (ground (arith, c.slow e))
      | inr e ↦ e
    ] in
    ground (arith, quick, c.cadence, c.forgotten h)

initial-Quiet : (os : List TickOutcome) → Quiet os → locals_after initial os ≡ initial
unfolding locals_step after_clean
initial-Quiet [] q = refl
initial-Quiet (task_failed ∷ os) q = initial-Quiet os q
initial-Quiet (tick_failed ∷ os) q = initial-Quiet os q
initial-Quiet (not_active ∷ os) q = initial-Quiet os q
initial-Quiet (clean captured ∷ os) q = initial-Quiet os q
initial-Quiet (reasserted _ ∷ os) q = elim q [ ]

clean_forgets :
    (s : Locals) (t : ℕ)
    → Consistent s
    → s.slow_mode ≡ false
    → s.ticks_since_reassert ≡ some t
    → ((after_clean s).ticks_since_reassert ≡ (if leb 3 (t + 1) then none else some (t + 1)))
      × ((after_clean s).slow_mode ≡ false)
      × ((after_clean s).flap_strikes ≡ (if leb 3 (t + 1) then 0 else s.flap_strikes))
unfolding after_clean clean_tick
clean_forgets s t c e h = let lt = c.window t h in ground arith

normal-Quiet :
    (os : List TickOutcome) (s : Locals) (t : ℕ)
    → Consistent s
    → s.slow_mode ≡ false
    → s.ticks_since_reassert ≡ some t
    → Quiet os
    → 3 ≤ t + clean_count os
    → locals_after s os ≡ initial
unfolding locals_step clean_count
normal-Quiet [] s t c e h q n = absurd (ground (arith, c.window t h))
normal-Quiet (task_failed ∷ os) s t c e h q n = normal-Quiet os s t c e h q n
normal-Quiet (tick_failed ∷ os) s t c e h q n = normal-Quiet os s t c e h q n
normal-Quiet (not_active ∷ os) s t c e h q n = normal-Quiet os s t c e h q n
normal-Quiet (clean captured ∷ os) s t c e h q n =
    let c' = after_clean-Consistent s c in
    let (ticks, normal, _) = clean_forgets s t c e h in
    elim (Bool-cases (leb 3 (t + 1))) [
      | inl full ↦
          ap (λ r. locals_after r os)
            (forgotten-initial (after_clean s) c' (ground (arith, ticks, full)))
          ∙ initial-Quiet os q
      | inr part ↦
          normal-Quiet os (after_clean s) (t + 1) c' normal (ground (arith, ticks, part)) q
            (omega arith)
    ]
normal-Quiet (reasserted _ ∷ os) s t c e h q n = elim q [ ]

after_clean_slow : (s : Locals) → s.slow_mode ≡ true → after_clean s ≡ initial
unfolding after_clean
after_clean_slow s e = ground arith

slow-Quiet :
    (os : List TickOutcome) (s : Locals)
    → s.slow_mode ≡ true
    → Quiet os
    → 1 ≤ clean_count os
    → locals_after s os ≡ initial
unfolding locals_step clean_count
slow-Quiet [] s e q n = absurd (omega arith)
slow-Quiet (task_failed ∷ os) s e q n = slow-Quiet os s e q n
slow-Quiet (tick_failed ∷ os) s e q n = slow-Quiet os s e q n
slow-Quiet (not_active ∷ os) s e q n = slow-Quiet os s e q n
slow-Quiet (clean captured ∷ os) s e q n =
    ap (λ r. locals_after r os) (after_clean_slow s e) ∙ initial-Quiet os q
slow-Quiet (reasserted _ ∷ os) s e q n = elim q [ ]

-- After a run without a reassert the watchdog is in its first state again, if the run has three
-- clean ticks, or one clean tick where the watchdog was slow.
pub Quiet-initial :
    (before os : List TickOutcome)
    → Quiet os
    → (3 ≤ clean_count os)
      ⊎ (((locals_after initial before).slow_mode ≡ true) × (1 ≤ clean_count os))
    → locals_after initial (before ++ os) ≡ initial
Quiet-initial before os q enough =
    let s = locals_after initial before in
    let c = locals_after-Consistent before in
    foldl-append locals_step initial before os ∙ elim (Bool-cases s.slow_mode) [
      | inl e ↦ slow-Quiet os s e q (omega arith)
      | inr e ↦ elim (Option-cases s.ticks_since_reassert) [
        | inl h ↦ ap (λ r. locals_after r os) (forgotten-initial s c h) ∙ initial-Quiet os q
        | inr (t, h) ↦
            normal-Quiet os s t c e h q
              (elim enough [ inl a ↦ omega arith | inr b ↦ absurd (ground (arith, b.0, e)) ])
      ]
    ]

-- The locals in the normal cadence.
abbrev striking : ℕ → ℕ → Locals
striking ticks strikes = record {
  interval = watchdog_interval;
  ticks_since_reassert = some ticks;
  flap_strikes = strikes;
  slow_mode = false;
}

-- Behind `before`, three reasserts with the runs `a` and `b` between them.
abbrev pub three_reasserts :
    List TickOutcome → List TickOutcome → List TickOutcome → List SocketAddr → List TickOutcome
three_reasserts before a b x =
    before ++ (reasserted x ∷ (a ++ (reasserted x ∷ (b ++ (reasserted x ∷ [])))))
