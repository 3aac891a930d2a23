-- ===== src/Upstream/Resolve.antt =====
-- src/upstream/bootstrap.rs: `resolve` on the slot of its host, and the exchange with one server. The
-- key of the slot is the lowercase host and the stack; what other callers do to the slot while this
-- one waits is an argument.
pub mod Fresh
use dnsrivet.Prelude.{
  ℕ, Bool, true, false, not, Option, none, some, Result, ok, err, List, Bytes, if◌then◌else◌,
  map_or,
}
use dnsrivet.Upstream.Net.{IpAddr}
use dnsrivet.Upstream.Bootstrap.{Slot, Plan, answer, refresh, plan, record_result}
use dnsrivet.Upstream.Legacy.{is_truncated}

-- `free`: the refresh lock can be taken at once. `waited` and `during` are what happens to the slot
-- while the lock is awaited and while the lookup runs.
pub record Contention (E : Type 0) : Type 0 where
  pub now : ℕ
  pub free : Bool
  pub waited : Slot E → Slot E
  pub after_wait : ℕ
  pub looked_up : Result (List IpAddr × ℕ) E
  pub during : Slot E → Slot E
  pub after_lookup : ℕ

module _ {E : Type 0} (c : Contention E) where
  -- The spawned task, which holds the refresh lock.
  unfoldable pub refresh_slot : Slot E → Slot E × Result (List IpAddr) E
  refresh_slot slot = record_result (c.during slot) c.looked_up c.after_lookup

  -- Behind the wait for the lock.
  unfoldable pub second_plan : Slot E × Plan E → Slot E × Result (List IpAddr) E
  second_plan (slot, answer result) = (slot, result)
  second_plan (slot, refresh stale) = refresh_slot slot

  unfoldable pub contended : Slot E → Option (List IpAddr) → Slot E × Result (List IpAddr) E
  contended slot (some ips) = (slot, ok ips)
  contended slot none = second_plan (plan (c.waited slot) c.after_wait)

  unfoldable pub first_plan : Slot E × Plan E → Slot E × Result (List IpAddr) E
  first_plan (slot, answer result) = (slot, result)
  first_plan (slot, refresh stale) = if c.free then refresh_slot slot else contended slot stale

  unfoldable pub resolve : Slot E → Slot E × Result (List IpAddr) E
  resolve slot = first_plan (plan slot c.now)

-- Why the UDP exchange is not used, and the error of the TCP exchange behind it; `none` is a timeout.
pub data ExchangeError (T : Type 0) : Type 0 where
  both_failed : Option (Option T) → Option T → ExchangeError T

-- `exchange`; an outcome of `none` is a timeout.
unfoldable pub over_tcp :
    {T : Type 0} → Option (Option T) → Option (Result Bytes T) → Result Bytes (ExchangeError T)
over_tcp udp_err none = err (both_failed udp_err none)
over_tcp udp_err (some (ok response)) = ok response
over_tcp udp_err (some (err e)) = err (both_failed udp_err (some e))

unfoldable pub exchange :
    {T : Type 0}
    → Option (Result Bytes T)
    → Option (Result Bytes T)
    → Result Bytes (ExchangeError T)
exchange none tcp = over_tcp none tcp
exchange (some (err e)) tcp = over_tcp (some (some e)) tcp
exchange (some (ok response)) tcp =
    if is_truncated response then over_tcp (some none) tcp else ok response
