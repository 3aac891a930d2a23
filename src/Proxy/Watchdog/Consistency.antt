-- ===== src/Proxy/Watchdog/Consistency.antt =====
-- src/proxy/mod.rs: the locals of the watchdog agree with each other.
use dnsrivet.Prelude.{
  ℕ, ◌<◌, ◌≡◌, refl, arith, true, false, none, some, List, [], ◌∷◌, if◌then◌else◌, inl, inr,
  Option-cases, Bool-cases,
}
use dnsrivet.Proxy.Watchdog.{
  TickOutcome, task_failed, tick_failed, not_active, clean, reasserted, watchdog_interval,
  watchdog_slow_interval, Locals, initial, clean_tick, after_clean, strikes_after, after_reassert,
  locals_step, locals_after,
}

-- The locals agree with each other: the interval is that of the mode, the slow mode stands right
-- behind a reassert, the normal one has fewer than three strikes, and both counters are in range.
pub record Consistent (s : Locals) : Type 0 where
  pub cadence : s.interval ≡ (if s.slow_mode then watchdog_slow_interval else watchdog_interval)
  pub slow : s.slow_mode ≡ true → s.ticks_since_reassert ≡ some 0
  pub normal : s.slow_mode ≡ false → s.flap_strikes < 3
  pub window : (t : ℕ) → s.ticks_since_reassert ≡ some t → t < 3
  pub forgotten : s.ticks_since_reassert ≡ none → s.flap_strikes ≡ 0

pub initial-Consistent : Consistent initial
initial-Consistent = record {
  cadence = refl;
  slow = λ h. absurd (ground arith);
  normal = λ h. omega arith;
  window = λ t h. absurd (ground arith);
  forgotten = λ h. refl;
}

pub after_clean-Consistent : (s : Locals) → Consistent s → Consistent (after_clean s)
unfolding after_clean clean_tick
after_clean-Consistent s c = elim (Bool-cases s.slow_mode) [
  | inl e ↦ rw e initial-Consistent
  | inr e ↦ elim (Option-cases s.ticks_since_reassert) [
    | inl n ↦ rw (e, n) c
    | inr (t, n) ↦
        let lt = c.window t n in
        record {
          cadence = ground (arith, c.cadence);
          slow = λ h. absurd (ground arith);
          normal = λ h. ground (arith, c.normal e);
          window = λ u h. ground arith;
          forgotten = λ h. ground arith;
        }
  ]
]

after_reassert-Consistent : (s : Locals) → Consistent s → Consistent (after_reassert s)
unfolding after_reassert strikes_after
after_reassert-Consistent s c = elim (Bool-cases s.slow_mode) [
  | inl e ↦ record {
    cadence = ground (arith, c.cadence);
    slow = λ h. refl;
    normal = λ h. absurd (ground arith);
    window = λ t h. ground arith;
    forgotten = λ h. absurd (ground arith);
  }
  | inr e ↦ record {
    cadence = ground (arith, c.cadence, c.normal e);
    slow = λ h. refl;
    normal = λ h. ground arith;
    window = λ t h. ground arith;
    forgotten = λ h. absurd (ground arith);
  }
]

step-Consistent : (s : Locals) (o : TickOutcome) → Consistent s → Consistent (locals_step s o)
unfolding locals_step
step-Consistent s task_failed c = c
step-Consistent s tick_failed c = c
step-Consistent s not_active c = c
step-Consistent s (clean captured) c = after_clean-Consistent s c
step-Consistent s (reasserted captured) c = after_reassert-Consistent s c

locals_after-Consistent_from :
    (os : List TickOutcome) (s : Locals) → Consistent s → Consistent (locals_after s os)
locals_after-Consistent_from [] s c = c
locals_after-Consistent_from (o ∷ os) s c =
    locals_after-Consistent_from os (locals_step s o) (step-Consistent s o c)

-- Whatever the ticks find, the interval is that of the mode, the slow mode stands right behind a
-- reassert, the normal mode has fewer than three strikes, fewer than three clean ticks are remembered,
-- and without a remembered reassert there are no strikes.
pub locals_after-Consistent : (os : List TickOutcome) → Consistent (locals_after initial os)
locals_after-Consistent os = locals_after-Consistent_from os initial initial-Consistent
