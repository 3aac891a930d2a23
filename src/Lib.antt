-- ===== src/Lib.antt =====
-- DNSRivet, a DNS forwarder for macOS: a verification library of its core.
--
-- The program listens for DNS queries over UDP and TCP (proxy/mod.rs). A query with several
-- questions is refused at once; another one is looked up in the response cache (proxy/cache.rs),
-- which parses and ages messages with the helpers of wire.rs. On a miss the upstream manager
-- (upstream/mod.rs) asks the configured upstreams: encrypted ones over a channel that keeps one
-- connection per upstream (upstream/encrypted.rs) and finds its addresses with a resolver of its
-- own (upstream/bootstrap.rs), and plain ones (upstream/legacy.rs). A transport
-- validates an answer against its query before it returns it. A watchdog checks from time to time
-- that the system's DNS settings still point at the proxy. Start and stop of the service take these
-- settings over and give them back (osdns/macos.rs). The sources are under src/.
--
-- Prelude: Boolean tests, lists and byte strings over the native numbers, bit tables, results.
-- Wire: wire.rs. Messages are lists of numbers; `IsBytes` says that they are bytes.
--   Wire/Read: the constants, `read_u16`, `read_u32`.
--   Wire/Name: `walk_name` as rounds on its locals, with the closure as an argument; `skip_name` and
--     `read_name`.
--   Wire/Record: `ResourceRecord`, `parse_rr`, `questions_end`, `total_rr_count`.
--   Wire/Query: `parse_query_meta`, `udp_payload_size`, `is_multi_question_query`.
--   Wire/Ttl: `adjust_ttls`, `soa_minimum`, `cache_ttl`.
--   Wire/Truncate: `truncate_to`.
--   Wire/Validate: `questions_match`, `validate_response`.
-- Upstream/Net: socket addresses and `is_self_address` (upstream/mod.rs).
-- Upstream/Bootstrap: upstream/bootstrap.rs, the slot of a host (`Slot::plan`, `Slot::record`,
--   `Bootstrap::invalidate`); Upstream/Bootstrap/Servers: `Bootstrap::lookup`.
-- Upstream/Encrypted: upstream/encrypted.rs, the connection slot and `Channel::acquire`;
--   Upstream/Encrypted/Sends: `Channel::query`.
-- Upstream/Legacy: upstream/legacy.rs, over what the sockets deliver.
-- Upstream/Manager: upstream/mod.rs, attempts at one upstream (`Entry::attempt`, `Entry::run`), the
--   selection of answers (`configured_answer`), the fallback (`forward_to_system`), and `forward` with
--   one configured upstream.
-- Upstream/Hedged: upstream/mod.rs, `forward_hedged` as a step for each event.
-- Upstream/Setup: upstream/mod.rs, `Manager::new`.
-- Upstream/Resolve: upstream/bootstrap.rs, `Bootstrap::resolve` and `exchange`.
-- Proxy/Lru: the interface to the crate `lru`, with its documented laws.
-- Proxy/Cache: proxy/cache.rs, over that interface.
-- Proxy/Handlers: proxy/mod.rs, the answers that the proxy makes itself and the UDP round.
-- Proxy/Tcp: proxy/mod.rs, `tcp_conn` over the bytes that a client sends.
-- Proxy/Watchdog: proxy/mod.rs, the locals of `watchdog_loop` as a step for each tick.
-- Osdns: osdns/macos.rs.
--   Osdns/IpText: the texts of IP addresses, as the standard library reads and prints them.
--   Osdns/Addresses: `parse_dns_socket`, `serialize_dns_socket`, `filter_fallback_servers`.
--   Osdns/Scutil: `parse_scutil_global_dns`; Osdns/Listing: the output of `networksetup`.
--   Osdns/Backup: `Backup`, `TakeoverState`, `dns_may_depend_on_takeover`.
--   Osdns/Tools: the machine, the two files and actions on them. Osdns/Commands: the commands.
--   Osdns/Takeover: `take_over`. Osdns/Release: `release`. Osdns/Watch: `watchdog_tick`.
--   Osdns/Inspect: `takeover_intact`, `fallback_servers`.
--   Osdns/Cycle: a takeover and its release. Osdns/Protocol: the takeover's states and moves.
-- Config: config.rs, `load_text` from the raw sections on (Config/Load), with `parse_upstream`
--   (Config/Upstreams), `split_scheme` and `split_host_port` (Config/Endpoint).
-- Tests: runs on concrete messages and states.
--
-- Times are numbers of nanoseconds, and clocks are arguments. Mutation is the passing of states.
-- Two loops are on fuel. A round of `walk_name` uses up one of 128 jumps or two of 255 bytes of a
-- name, so the 384 rounds are enough; a round of `tcp_conn` takes a message off the input, so the
-- length of the input is enough. The other loops recurse on a count, a list or a number of
-- records, all of which the source bounds as well. The `u32` and `u64` counters of the watchdog and of
-- the channel keep their wrap-around or saturation; sums of offsets cannot wrap around, since every
-- offset is at most 65545 behind the end of a message.
--
-- What other tasks do between two locks of a query is an argument: `Turn.others` for the cache,
-- `World.turn` for the connection slot, `Contention` for the bootstrap slot.
--
-- `networksetup` and `scutil` are an argument, `Host`; `IsNetworksetup` states what is relied on of
-- them, for a view of the settings: lists show what is set, a `set` that succeeds changes the
-- servers of its service only, and one that fails changes nothing. Any command may fail at any
-- time, and so may any file operation (`World.disk`); a crash is a list of failures from there on.
-- The backup file holds what was written to it. The lock makes every operation one step, so that
-- changes by others come between operations (`Run`). Success is stated apart: `IsReliable` is a
-- machine on which no command fails.
--
-- Not modelled: sockets, TLS, QUIC and HTTP, which are libraries' or the system's; log output; the
-- map from hosts to bootstrap slots; the lock of the takeover; the parse of TOML with its
-- warnings on unknown keys, and `quick_toml`; the service's lifecycle, files and the command line.
pub mod Prelude
pub mod Wire
pub mod Upstream
pub mod Proxy
pub mod Osdns
pub mod Config
pub mod Tests
