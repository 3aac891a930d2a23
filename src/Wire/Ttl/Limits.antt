-- ===== src/Wire/Ttl/Limits.antt =====
-- src/wire.rs: the bounds of `cache_ttl`.
use dnsrivet.Prelude.{ℕ, ◌≤◌, ◌<◌, ◌≡◌, ◌≢◌, arith, some, ◌⊎◌, Bytes, byte, bit_and}
use dnsrivet.Wire.Ttl.{Scan, choose_ttl, capped, negative_ttl, is_negative, cache_ttl}

choose_ttl_bounds :
    (rcode : ℕ) (s : Scan) {t : ℕ}
    → choose_ttl rcode s ≡ some t
    → (0 < t) × (t ≤ 86400) × (rcode ≡ 3 → t ≤ 600)
unfolding choose_ttl capped negative_ttl is_negative
choose_ttl_bounds rcode s h = ground arith

-- A response that may be cached has QR set and TC clear, is NOERROR or NXDOMAIN, and gets a TTL of
-- at least a second and at most a day, or at most 600 seconds for NXDOMAIN.
pub cache_ttl_bounds :
    (m : Bytes) (query_type : ℕ) {t : ℕ}
    → cache_ttl m query_type ≡ some t
    → (bit_and (byte m 2) 0x80 ≢ 0)
      × (bit_and (byte m 2) 0x02 ≡ 0)
      × ((bit_and (byte m 3) 0x0f ≡ 0) ⊎ (bit_and (byte m 3) 0x0f ≡ 3))
      × (0 < t)
      × (t ≤ 86400)
      × (bit_and (byte m 3) 0x0f ≡ 3 → t ≤ 600)
unfolding cache_ttl
cache_ttl_bounds m query_type h = grind (arith, choose_ttl_bounds)
