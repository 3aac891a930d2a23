-- ===== src/Tests/Upstream.antt =====
-- src/upstream on concrete slots; a connection is a number.
use dnsrivet.Prelude.{
  if◌then◌else◌, ◌==◌, ℕ, ◌+◌, ◌*◌, ◌≤◌, ◌≡◌, ◌≢◌, refl, Bool, false, none, some, Result, ok, err,
  List, [], ◌∷◌,
}
use dnsrivet.Upstream.Net.{
  IpAddr, v4, v6, SocketAddr, is_loopback, is_unspecified, to_canonical, eq_ip, is_self_address,
}
use dnsrivet.Upstream.Bootstrap
use dnsrivet.Upstream.Bootstrap.Servers
use dnsrivet.Upstream.Bootstrap.Lookups.{V4First, NoRepeat, lookup_bounds}
use dnsrivet.Upstream.Encrypted
use dnsrivet.Upstream.Encrypted.Sends
use dnsrivet.Upstream.Encrypted.Leases.{acquire-lease}
use dnsrivet.Upstream.Encrypted.Queries.{Sent, query-Sent}
use dnsrivet.Upstream.Resolve
use dnsrivet.Upstream.Resolve.Fresh.{Known, resolve-Known}

program : Unit {0}
unfolding is_loopback is_unspecified to_canonical eq_ip is_self_address Bootstrap.usable_entry
    Bootstrap.servable_entry Bootstrap.expire Bootstrap.plan_stale Bootstrap.plan_entry
    Bootstrap.plan Bootstrap.record_result Bootstrap.invalidate_slot Servers.without Servers.having
    Servers.sort_by_key Servers.dedup_after Servers.dedup Servers.server_key Servers.ordered_servers
    Servers.clamp_ttl Servers.gather Servers.ask_server Servers.lookup_result Servers.lookup_loop
    Servers.lookup Encrypted.slept_since Encrypted.lease Encrypted.store Encrypted.drop_if_slept
    Encrypted.invalidate Encrypted.backoff_time Encrypted.backoff Encrypted.is_cooling
    Encrypted.renews_bootstrap Encrypted.dial_loop Encrypted.finish_dial Encrypted.candidates
    Encrypted.dial_candidates Encrypted.lease_or_dial Encrypted.acquire Sends.budget_allows_redial
    Sends.after_deadline Sends.after_transport Sends.second_send Sends.resend Sends.first_send
    Sends.start Sends.query
program = tt

-- An answer that expired at second 100.
abbrev entry : Bootstrap.Entry
entry = record { ips = v4 16843009 ∷ []; expires = 100 * Bootstrap.second }

abbrev cached : Bootstrap.Slot ℕ
cached = record { entry = some entry; failure = none }

-- The refresh failed at second 200.
abbrev failed : Bootstrap.Slot ℕ
failed = (Bootstrap.record_result cached (err 7) (200 * Bootstrap.second)).0

-- Servers at both families; they know one address of each.
abbrev servers : List SocketAddr
servers = record { ip = v6 9; port = 53 } ∷ record { ip = v4 9; port = 53 } ∷ []

abbrev ask : SocketAddr → Servers.RecordType → Result (List IpAddr × ℕ) ℕ
ask server Servers.a = ok (v4 5 ∷ v4 5 ∷ [], 30)
ask server Servers.aaaa = ok (v6 6 ∷ [], 300)

looked_up : Servers.lookup ask servers Bootstrap.both 1 ≡ ok (v4 5 ∷ v6 6 ∷ [], 60)
unfolding program
looked_up = refl

lookup_bounds_example :
    (v4 5 ∷ v6 6 ∷ [] ≢ [])
    × V4First (v4 5 ∷ v6 6 ∷ [])
    × NoRepeat (v4 5 ∷ v6 6 ∷ [])
    × (60 ≤ 60)
    × (60 ≤ 86400)
lookup_bounds_example = lookup_bounds ask Bootstrap.both servers 1 looked_up

-- A slot with connection 42.
abbrev held_slot : Encrypted.Slot ℕ
held_slot = record {
  exchange = some 42;
  generation = 3;
  connect_failures = 0;
  cooldown_until = none;
  last_used = some (record { mono = 1; wall = 1 });
}

-- The wall clock went 10 seconds further than the monotonic one.
abbrev woken : Encrypted.Stamp
woken = record { mono = 2; wall = 2 + 10 * Encrypted.second }

slept : (Encrypted.drop_if_slept held_slot woken).1 ≡ some (10 * Encrypted.second)
unfolding program
slept = refl

-- A proxy that listens at 127.0.0.1:853, and an upstream whose first address is loopback.
abbrev pub target : Encrypted.Target
target = record {
  port = 853;
  bootstrap_ip = none;
  deny = record { ip = v4 2130706433; port = 853 } ∷ [];
}

abbrev resolved : Bool → Result (List IpAddr) ℕ
resolved renew = ok (v4 2130706434 ∷ v4 16843009 ∷ [])

abbrev dials : SocketAddr → Result ℕ ℕ
dials addr = ok 77

abbrev dialed : Encrypted.Lease ℕ
dialed = record { exchange = 77; generation = 1; reused = false }

abbrev start : Encrypted.Stamp
start = record { mono = 0; wall = 0 }

acquired : (Encrypted.acquire target Encrypted.empty_slot start start resolved dials).1 ≡ ok dialed
unfolding program
acquired = refl

acquire-lease_example :
    (Encrypted.lease (Encrypted.acquire target Encrypted.empty_slot start start resolved dials).0
      ≡ some (77, 1))
    × (false ≡ false
        → (addr : SocketAddr) × (dials addr ≡ ok 77) × (is_self_address addr target.deny ≡ false))
acquire-lease_example =
    acquire-lease target Encrypted.empty_slot start start resolved dials dialed acquired

abbrev cooling : Encrypted.Slot ℕ
cooling = record (Encrypted.empty_slot {C = ℕ}) { cooldown_until = some 9 }

no_lease : Encrypted.lease cooling ≡ none
unfolding program
no_lease = refl

-- The connection that the slot holds fails, and a new one answers.
abbrev world : Sends.World ℕ ℕ
world = record {
  turn = λ n slot. slot;
  now = λ n. record { mono = n; wall = n };
  resolve = λ n. resolved;
  dial = λ n. dials;
  send = λ n c. if c == 42 then Encrypted.transport_failed 1 else Encrypted.answered (1 ∷ 2 ∷ []);
}

sent_again : (Sends.query target none world held_slot).1 ≡ ok (1 ∷ 2 ∷ [])
unfolding program
sent_again = refl

query-Sent_example : Sent target none world held_slot (1 ∷ 2 ∷ [])
query-Sent_example = query-Sent target none world held_slot (1 ∷ 2 ∷ []) sent_again

-- Another caller holds the refresh lock, and the cached answer has expired.
abbrev busy : Resolve.Contention ℕ
busy = record {
  now = 200 * Bootstrap.second;
  free = false;
  waited = λ slot. slot;
  after_wait = 201 * Bootstrap.second;
  looked_up = err 7;
  during = λ slot. slot;
  after_lookup = 202 * Bootstrap.second;
}

stale_answer : (Resolve.resolve busy cached).1 ≡ ok entry.ips
unfolding program Resolve.resolve Resolve.first_plan Resolve.contended
stale_answer = refl

resolve-Known_example : Known busy cached entry.ips
resolve-Known_example = resolve-Known busy cached entry.ips stale_answer
