-- ===== src/Upstream/Bootstrap.antt =====
-- src/upstream/bootstrap.rs: hostname resolution that never asks the system resolver: the cached
-- answer of a host (`Slot`). Times are in nanoseconds.
pub mod Plans
pub mod Servers
pub mod Lookups
use dnsrivet.Prelude.{
  ℕ, ◌+◌, ◌-◌, ◌*◌, min, Bool, true, false, not, ◌&&◌, Option, none, some, Result, ok, err, List,
  [], ◌∷◌, ◌++◌, ltb, leb, ◌==◌, if◌then◌else◌,
}
use dnsrivet.Upstream.Net.{IpAddr, SocketAddr, is_ipv4, is_ipv6, eq_ip}

abbrev pub second : ℕ
second = 1000000000

abbrev pub min_ttl_secs : ℕ
min_ttl_secs = 60

abbrev pub max_ttl_secs : ℕ
max_ttl_secs = 86400

abbrev pub max_stale : ℕ
max_stale = 86400 * second

abbrev pub retry_after_failure : ℕ
retry_after_failure = 30 * second

pub data IpStack : Type 0 where
  both only_v4 only_v6 : IpStack

pub record Entry : Type 0 where
  pub ips : List IpAddr
  pub expires : ℕ

abbrev pub is_fresh : Entry → ℕ → Bool
is_fresh entry now = ltb now entry.expires

-- `now.saturating_duration_since(self.expires) <= MAX_STALE`
abbrev pub is_servable : Entry → ℕ → Bool
is_servable entry now = leb (now - entry.expires) max_stale

-- The errors are texts, which only pass through.
module _ (E : Type 0) where
  pub record Failure : Type 0 where
    pub error : E
    pub retry_at : ℕ

  -- The mutex `refresh` is the lock of `resolve`, and no part of the cached state.
  pub record Slot : Type 0 where
    pub entry : Option Entry
    pub failure : Option Failure

  pub data Plan : Type 0 where
    answer : Result (List IpAddr) E → Plan
    refresh : Option (List IpAddr) → Plan

-- An entry past `MAX_STALE` is dropped; a fresh one is kept as it is.
unfoldable pub usable_entry : Option Entry → ℕ → Option Entry
usable_entry none now = none
usable_entry (some entry) now =
    if is_fresh entry now then some entry else if is_servable entry now then some entry else none

abbrev pub addresses : Option Entry → Option (List IpAddr)
addresses none = none
addresses (some entry) = some entry.ips

-- The entry that survives a failed refresh, if it may still be served.
unfoldable pub servable_entry : Option Entry → ℕ → Option Entry
servable_entry none now = none
servable_entry (some entry) now = if is_servable entry now then some entry else none

-- `entry.expires = entry.expires.min(now)`
unfoldable pub expire : Option Entry → ℕ → Option Entry
expire none now = none
expire (some entry) now = some (record entry { expires = min entry.expires now })

module _ {E : Type 0} where
  -- `stale.ok_or_else(|| failure.err.clone())`
  abbrev pub stale_or : Option (List IpAddr) → E → Result (List IpAddr) E
  stale_or none e = err e
  stale_or (some ips) e = ok ips

  unfoldable pub plan_stale : Option (Failure E) → Option (List IpAddr) → ℕ → Plan E
  plan_stale none stale now = refresh stale
  plan_stale (some failure) stale now =
      if ltb now failure.retry_at then answer (stale_or stale failure.error) else refresh stale

  unfoldable pub plan_entry : Option Entry → Option (Failure E) → ℕ → Plan E
  plan_entry none failure now = plan_stale failure none now
  plan_entry (some entry) failure now =
      if is_fresh entry now
      then answer (ok entry.ips)
      else plan_stale failure (addresses (usable_entry (some entry) now)) now

  -- `Slot::plan`: the slot after the call, and the plan.
  unfoldable pub plan : Slot E → ℕ → Slot E × Plan E
  plan slot now =
      (record slot { entry = usable_entry slot.entry now }, plan_entry slot.entry slot.failure now)

  -- `Slot::record`
  unfoldable pub record_result :
      Slot E → Result (List IpAddr × ℕ) E → ℕ → Slot E × Result (List IpAddr) E
  record_result slot (ok (ips, ttl)) now = (
    record { entry = some (record { ips = ips; expires = now + ttl * second }); failure = none },
    ok ips,
  )
  record_result slot (err e) now = (
    record {
      entry = servable_entry slot.entry now;
      failure = some (record { error = e; retry_at = now + retry_after_failure });
    },
    stale_or (addresses (servable_entry slot.entry now)) e,
  )

  -- What `invalidate` does to the slot of its host: the entry expires at once and stays a fallback.
  unfoldable pub invalidate_slot : Slot E → ℕ → Slot E
  invalidate_slot slot now = record slot { entry = expire slot.entry now }
