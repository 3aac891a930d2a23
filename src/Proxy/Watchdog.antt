-- ===== src/Proxy/Watchdog.antt =====
-- src/proxy/mod.rs: `watchdog_loop`, as a step on its locals and on the manager's fallback list. What
-- a tick finds is an argument; it comes from `osdns::watchdog_tick` or from the failure of its task.
pub mod Consistency
pub mod Flaps
use dnsrivet.Prelude.{
  ℕ, ◌+◌, ◌%◌, ◌*◌, Bool, true, false, not, ◌&&◌, Option, none, some, List, [], ◌∷◌, foldl, leb,
  if◌then◌else◌, map_or,
}
use dnsrivet.Upstream.Net.{SocketAddr}

-- The names of the corrected services and the capture error are only logged.
pub data TickOutcome : Type 0 where
  task_failed : TickOutcome
  tick_failed : TickOutcome
  not_active : TickOutcome
  clean : Option (List SocketAddr) → TickOutcome
  reasserted : List SocketAddr → TickOutcome

-- Seconds.
abbrev pub watchdog_interval : ℕ
watchdog_interval = 120

abbrev pub watchdog_slow_interval : ℕ
watchdog_slow_interval = 1800

abbrev pub flap_window_ticks : ℕ
flap_window_ticks = 3

abbrev pub flap_strikes_limit : ℕ
flap_strikes_limit = 3

-- The counters are `u32`.
abbrev pub u32_mod : ℕ
u32_mod = 4294967296

pub record Locals : Type 0 where
  pub interval : ℕ
  pub ticks_since_reassert : Option ℕ
  pub flap_strikes : ℕ
  pub slow_mode : Bool

abbrev pub initial : Locals
initial = record {
  interval = watchdog_interval;
  ticks_since_reassert = none;
  flap_strikes = 0;
  slow_mode = false;
}

-- A clean tick in the normal cadence, some ticks behind a reassert.
unfoldable pub clean_tick : Locals → ℕ → Locals
clean_tick s ticks =
    if leb flap_window_ticks ((ticks + 1) % u32_mod)
    then record s { ticks_since_reassert = none; flap_strikes = 0 }
    else record s { ticks_since_reassert = some ((ticks + 1) % u32_mod) }

unfoldable pub after_clean : Locals → Locals
after_clean s =
    if s.slow_mode
    then initial
    else elim s.ticks_since_reassert [ none ↦ s | some ticks ↦ clean_tick s ticks ]

unfoldable pub strikes_after : Locals → ℕ
strikes_after s = map_or s.ticks_since_reassert 1 (λ _. (s.flap_strikes + 1) % u32_mod)

unfoldable pub after_reassert : Locals → Locals
after_reassert s =
    let slow = leb flap_strikes_limit (strikes_after s) && not s.slow_mode in
    record {
      interval = if slow then watchdog_slow_interval else s.interval;
      ticks_since_reassert = some 0;
      flap_strikes = strikes_after s;
      slow_mode = if slow then true else s.slow_mode;
    }

unfoldable pub locals_step : Locals → TickOutcome → Locals
locals_step s task_failed = s
locals_step s tick_failed = s
locals_step s not_active = s
locals_step s (clean captured) = after_clean s
locals_step s (reasserted captured) = after_reassert s

-- What the tick does to the manager's fallback list (`set_system_fallback`).
unfoldable pub fallback_step : List SocketAddr → TickOutcome → List SocketAddr
fallback_step servers (clean (some captured)) = captured
fallback_step servers (reasserted (s ∷ captured)) = s ∷ captured
fallback_step servers _ = servers

abbrev pub locals_after : Locals → List TickOutcome → Locals
locals_after s outcomes = foldl locals_step s outcomes
