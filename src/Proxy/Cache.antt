-- ===== src/Proxy/Cache.antt =====
-- src/proxy/cache.rs: the response cache. Times (`Instant`) are in nanoseconds; the lock around the
-- map makes each call one step.
pub mod Expiry
pub mod Hits
use dnsrivet.Prelude.{
  ℕ, ◌+◌, ◌-◌, ◌*◌, ◌/◌, max, Bool, true, false, not, Option, none, some, Bytes, [], ◌∷◌, write,
  leb, ltb, if◌then◌else◌,
}
use dnsrivet.Wire.Query.{QueryKey, QueryMeta, parse_query_meta}
use dnsrivet.Wire.Ttl.{adjust_ttls, cache_ttl}
use dnsrivet.Proxy.Lru.{Lru}

pub record Entry : Type 0 where
  pub response : Bytes
  pub aged_at : ℕ
  pub ttl : ℕ

abbrev pub nanos : ℕ
nanos = 1000000000

-- `entry.aged_at.elapsed().as_secs()`; a clock that stands behind the entry gives 0.
abbrev pub elapsed_secs : Entry → ℕ → ℕ
elapsed_secs entry now = (now - entry.aged_at) / nanos

-- What a hit does to the entry; `none` is an entry that has to go.
unfoldable pub refresh : Entry → ℕ → Option Entry
refresh entry now =
    let elapsed = elapsed_secs entry now in
    if leb entry.ttl elapsed
    then none
    else if ltb 0 elapsed
    then (if (adjust_ttls entry.response elapsed).1
        then some (record {
          response = (adjust_ttls entry.response elapsed).0;
          aged_at = entry.aged_at + elapsed * nanos;
          ttl = entry.ttl - elapsed;
        })
        else none)
    else some entry

module _ (lru : Lru QueryKey Entry) where
  -- `entries` is `None` where the cache is disabled.
  abbrev pub Cache : Type 0
  Cache = Option lru.Store

  unfoldable pub new : Bool → ℕ → Cache
  new enabled capacity = if enabled then some (lru.new (max capacity 1)) else none

  unfoldable pub query_meta : Cache → Bytes → Option QueryMeta
  query_meta none query = none
  query_meta (some _) query = parse_query_meta query

  -- The call on an entry that was found, and the map with the entry promoted.
  unfoldable pub serve : lru.Store → QueryKey → Option Entry → Bytes → Bytes → Cache × Bytes × Bool
  serve entries key none request_id response = (some (lru.pop entries key), response, false)
  serve entries key (some entry) request_id response =
      (some (lru.assign entries key entry), write entry.response 0 request_id, true)

  -- The cache after the call, the caller's buffer, and whether it was a hit.
  unfoldable pub get_into : Cache → QueryMeta → Bytes → ℕ → Bytes → Cache × Bytes × Bool
  get_into none meta request_id now response = (none, response, false)
  get_into (some entries) meta request_id now response = elim (lru.lookup entries meta.key) [
    | none ↦ (some entries, response, false)
    | some entry ↦
        serve (lru.promote entries meta.key) meta.key (refresh entry now) request_id response
  ]

  unfoldable pub insert : Cache → QueryMeta → Bytes → ℕ → Cache
  insert none meta response now = none
  insert (some entries) meta response now = elim (cache_ttl response meta.key.qtype) [
    | none ↦ some entries
    | some ttl ↦ some (
        lru.put entries meta.key
          (record { response = write response 0 (0 ∷ 0 ∷ []); aged_at = now; ttl = ttl }))
  ]
