-- ===== src/Proxy/Cache/Hits.antt =====
-- src/proxy/cache.rs: what a hit copies to the caller.
use dnsrivet.Prelude.{ℕ, ◌+◌, ◌<◌, ◌≡◌, arith, false, true, some, Bytes, [], ◌∷◌, write}
use dnsrivet.Wire.Query.{QueryKey, QueryMeta}
use dnsrivet.Wire.Ttl.{cache_ttl}
use dnsrivet.Wire.Ttl.Limits.{cache_ttl_bounds}
use dnsrivet.Proxy.Lru.{Lru}
use dnsrivet.Proxy.Cache.{Entry, nanos, elapsed_secs, refresh, Cache, serve, get_into, insert}

refresh_fresh : (e : Entry) (now : ℕ) → elapsed_secs e now ≡ 0 → 0 < e.ttl → refresh e now ≡ some e
unfolding refresh
refresh_fresh e now h pos = ground arith

module _ (lru : Lru QueryKey Entry) where
  open lru use {Store, lookup}

  -- Within a second of its storing, a response is a hit: it is served byte for byte, but for its ID,
  -- which becomes the client's.
  pub get_into-insert :
      (s : Store) (meta : QueryMeta) (response id out : Bytes) (t0 now ttl : ℕ)
      → cache_ttl response meta.key.qtype ≡ some ttl
      → now < t0 + nanos
      → ((get_into lru (insert lru (some s) meta response t0) meta id now out).1
          ≡ write (write response 0 (0 ∷ 0 ∷ [])) 0 id)
        × ((get_into lru (insert lru (some s) meta response t0) meta id now out).2 ≡ true)
  unfolding get_into serve insert
  get_into-insert s meta response id out t0 now ttl e soon =
      let entry : Entry = record {
        response = write response 0 (0 ∷ 0 ∷ []);
        aged_at = t0;
        ttl = ttl;
      } in
      let bounds = cache_ttl_bounds response meta.key.qtype e in
      let fresh = refresh_fresh entry now (omega arith) bounds.3 in
      ground (arith, e, lru.lookup-put_self s meta.key entry, fresh)

  -- A miss leaves the caller's buffer unchanged.
  pub get_into_miss :
      (cache : Cache lru) (meta : QueryMeta) (id out : Bytes) (now : ℕ)
      → (get_into lru cache meta id now out).2 ≡ false
      → (get_into lru cache meta id now out).1 ≡ out
  unfolding get_into serve
  get_into_miss cache meta id out now h = ground arith
