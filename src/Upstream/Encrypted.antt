-- ===== src/Upstream/Encrypted.antt =====
-- src/upstream/encrypted.rs: the connection slot of an encrypted upstream, and the channel that
-- dials, leases and gives up its connections. Connections are values of a type `C`; what a dial or a
-- send returns is an argument. Times are in nanoseconds.
pub mod Generations
pub mod Leases
pub mod Sends
pub mod Queries
use dnsrivet.Prelude.{
  ℕ, zero, suc, ◌+◌, ◌-◌, ◌*◌, ◌%◌, ◌^◌, min, Bool, true, false, not, ◌&&◌, ◌||◌, Option, none,
  some, Result, ok, err, List, [], ◌∷◌, ltb, leb, ◌==◌, if◌then◌else◌, Bytes, map_or,
}
use dnsrivet.Upstream.Net.{IpAddr, SocketAddr, is_self_address}

abbrev pub second : ℕ
second = 1000000000

abbrev pub max_backoff_shift : ℕ
max_backoff_shift = 5

abbrev pub min_redial_budget : ℕ
min_redial_budget = 250000000

abbrev pub renew_after_sleep : ℕ
renew_after_sleep = 5 * second

pub record Stamp : Type 0 where
  pub mono : ℕ
  pub wall : ℕ

-- Both differences are 0 where the clock went back.
unfoldable pub slept_since : Stamp → Stamp → ℕ
slept_since now earlier = now.wall - earlier.wall - (now.mono - earlier.mono)

pub record Slot (C : Type 0) : Type 0 where
  pub exchange : Option C
  pub generation : ℕ
  pub connect_failures : ℕ
  pub cooldown_until : Option ℕ
  pub last_used : Option Stamp

abbrev pub empty_slot : {C : Type 0} → Slot C
empty_slot = record {
  exchange = none;
  generation = 0;
  connect_failures = 0;
  cooldown_until = none;
  last_used = none;
}

-- `generation` is a `u64`, `connect_failures` a `u32`.
abbrev pub u64_mod : ℕ
u64_mod = 18446744073709551616

abbrev pub u32_max : ℕ
u32_max = 4294967295

module _ {C : Type 0} where
  unfoldable pub lease : Slot C → Option (C × ℕ)
  lease slot = elim slot.exchange [ none ↦ none | some e ↦ some (e, slot.generation) ]

  unfoldable pub store : Slot C → C → Stamp → Slot C
  store slot exchange now = record {
    exchange = some exchange;
    generation = (slot.generation + 1) % u64_mod;
    connect_failures = 0;
    cooldown_until = none;
    last_used = some now;
  }

  -- The slot after the call, and how long the host slept if that dropped a connection.
  unfoldable pub drop_if_slept : Slot C → Stamp → Slot C × Option ℕ
  drop_if_slept slot now = elim slot.last_used [
    | none ↦ (record slot { last_used = some now }, none)
    | some earlier ↦
        if ltb renew_after_sleep (slept_since now earlier)
        then (
          record slot { exchange = none; last_used = some now },
          map_or slot.exchange none (λ _. some (slept_since now earlier)),
        )
        else (record slot { last_used = some now }, none)
  ]

  unfoldable pub invalidate : Slot C → ℕ → Slot C × Bool
  invalidate slot generation =
      if slot.generation == generation && map_or slot.exchange false (λ _. true)
      then (record slot { exchange = none }, true)
      else (slot, false)

  -- The pause that the next backoff imposes.
  unfoldable pub backoff_time : Slot C → ℕ
  backoff_time slot = 2 ^ min (min (slot.connect_failures + 1) u32_max) max_backoff_shift * second

  unfoldable pub backoff : Slot C → ℕ → Slot C
  backoff slot now = record slot {
    connect_failures = min (slot.connect_failures + 1) u32_max;
    cooldown_until = some (now + backoff_time slot);
  }

pub record Lease (C : Type 0) : Type 0 where
  pub exchange : C
  pub generation : ℕ
  pub reused : Bool

-- What the source says of a failure in its message; `T` is the text of a transport.
pub data DialError (T : Type 0) : Type 0 where
  no_candidates : DialError T
  points_back : SocketAddr → DialError T
  dial_failed : T → DialError T

pub data ChannelError (T : Type 0) : Type 0 where
  in_cooldown : ℕ → ChannelError T
  bootstrap_failed : T → ChannelError T
  connect_failed : DialError T → ChannelError T
  no_answer : ChannelError T
  transport : T → ChannelError T
  redial_failed : T → ChannelError T → ChannelError T

pub data SendResult (T : Type 0) : Type 0 where
  answered : Bytes → SendResult T
  deadline_passed : SendResult T
  transport_failed : T → SendResult T

-- The fields of `Channel` that `acquire` reads.
pub record Target : Type 0 where
  pub port : ℕ
  pub bootstrap_ip : Option IpAddr
  pub deny : List SocketAddr

abbrev pub address : Target → IpAddr → SocketAddr
address target ip = record { ip = ip; port = target.port }

unfoldable pub is_cooling : Option ℕ → ℕ → Option ℕ
is_cooling none now = none
is_cooling (some until) now = if ltb now until then some (until - now) else none

-- `acquire` asks for this invalidation of the bootstrap entry when the host slept.
unfoldable pub renews_bootstrap : {C : Type 0} → Target → Slot C → Stamp → Bool
renews_bootstrap target slot now =
    map_or (drop_if_slept slot now).1 false (λ _. map_or target.bootstrap_ip true (λ _. false))

module _ {C T : Type 0} (target : Target) where
  -- The loop over the candidate addresses.
  unfoldable pub dial_loop :
      (SocketAddr → Result C T) → List IpAddr → DialError T → Result C (DialError T)
  dial_loop dial [] last_err = err last_err
  dial_loop dial (ip ∷ ips) last_err =
      let skipped = dial_loop dial ips (points_back (address target ip)) in
      if is_self_address (address target ip) target.deny
      then skipped
      else elim (dial (address target ip)) [
        | ok exchange ↦ ok exchange
        | err e ↦ dial_loop dial ips (dial_failed e)
      ]

  -- The end of `acquire`: a connection is stored, a failure backs off.
  unfoldable pub finish_dial :
      Slot C → Stamp → Result C (DialError T) → Slot C × Result (Lease C) (ChannelError T)
  finish_dial slot now (ok exchange) = (
    store slot exchange now,
    ok (record {
      exchange = exchange;
      generation = (store slot exchange now).generation;
      reused = false;
    }),
  )
  finish_dial slot now (err e) = (backoff slot now.mono, err (connect_failed e))

  -- The addresses of the upstream. `resolve` is told whether this `acquire` has invalidated the
  -- bootstrap entry, because the host slept (`renewed`) or because of connect failures.
  unfoldable pub candidates :
      Slot C → Bool → (Bool → Result (List IpAddr) T) → Result (List IpAddr) T
  candidates slot renewed resolve =
      map_or target.bootstrap_ip (resolve (renewed || ltb 0 slot.connect_failures))
        (λ ip. ok (ip ∷ []))

  unfoldable pub dial_candidates :
      Slot C
      → Stamp
      → (SocketAddr → Result C T)
      → Result (List IpAddr) T
      → Slot C × Result (Lease C) (ChannelError T)
  dial_candidates slot now dial (err e) = (backoff slot now.mono, err (bootstrap_failed e))
  dial_candidates slot now dial (ok ips) = finish_dial slot now (dial_loop dial ips no_candidates)

  -- `acquire` behind its sleep check: `now` is the time of the cooldown check, `later` that of the
  -- end of the dials.
  unfoldable pub lease_or_dial :
      Slot C
      → Bool
      → Stamp
      → Stamp
      → (Bool → Result (List IpAddr) T)
      → (SocketAddr → Result C T)
      → Slot C × Result (Lease C) (ChannelError T)
  lease_or_dial slot renewed now later resolve dial = elim (lease slot) [
    | some (exchange, generation) ↦
        (slot, ok (record { exchange = exchange; generation = generation; reused = true }))
    | none ↦ elim (is_cooling slot.cooldown_until now.mono) [
      | some left ↦ (slot, err (in_cooldown left))
      | none ↦ dial_candidates slot later dial (candidates slot renewed resolve)
    ]
  ]

  -- `acquire`, under the channel's lock.
  unfoldable pub acquire :
      Slot C
      → Stamp
      → Stamp
      → (Bool → Result (List IpAddr) T)
      → (SocketAddr → Result C T)
      → Slot C × Result (Lease C) (ChannelError T)
  acquire slot now later resolve dial =
      lease_or_dial (drop_if_slept slot now).0 (renews_bootstrap target slot now) now later resolve
        dial
