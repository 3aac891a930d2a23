-- ===== src/Proxy/Handlers/Replies.antt =====
-- src/proxy/mod.rs: what a UDP client may get.
use dnsrivet.Prelude.{
  ℕ, ◌≤◌, ◌≡◌, zero, suc, refl, sym, arith, Bool, true, none, some, Bytes, [], length, map_or,
  length-take, Option-cases, inl, inr, take_all,
}
use dnsrivet.Wire.Query.{QueryKey, parse_query_meta, udp_payload_size, advertised, additional_start}
use dnsrivet.Wire.Query.Agree.{clamp_udp_bounds, udp_payload_size-parse_query_meta}
use dnsrivet.Wire.Record.{parse_rr}
use dnsrivet.Wire.Truncate.Bounds.{length-truncate_to}
use dnsrivet.Proxy.Lru.{Lru}
use dnsrivet.Proxy.Cache.{Entry, Cache, query_meta}
use dnsrivet.Proxy.Handlers.{Turn, respond, udp_reply, udp_datagram}

advertised_bounds :
    (m : Bytes) (count offset : ℕ)
    → (512 ≤ advertised m count offset) × (advertised m count offset ≤ 4096)
unfolding advertised
advertised_bounds m zero offset = omega arith
advertised_bounds m (suc count) offset = elim (Option-cases (parse_rr m offset)) [
  | inl e ↦ rw (e, advertised) (omega arith)
  | inr (rr, e) ↦
      rw (e, advertised)
        (ground (arith, clamp_udp_bounds rr.class, advertised_bounds m count rr.end))
]

pub udp_payload_size_bounds : (m : Bytes) → (512 ≤ udp_payload_size m) × (udp_payload_size m ≤ 4096)
unfolding udp_payload_size
udp_payload_size_bounds m = elim (Option-cases (additional_start m)) [
  | inl e ↦ rw e (omega arith)
  | inr (r, e) ↦ rw e (advertised_bounds m r.0 r.1)
]

module _ (lru : Lru QueryKey Entry) where
  udp_limit :
      (cache : Cache lru) (query : Bytes)
      → map_or (query_meta lru cache query) (udp_payload_size query) (λ m. m.udp_size)
        ≡ udp_payload_size query
  unfolding query_meta
  udp_limit none query = refl
  udp_limit (some s) query = elim (Option-cases (parse_query_meta query)) [
    | inl e ↦ rw e refl
    | inr (meta, e) ↦ rw e (sym (udp_payload_size-parse_query_meta query e))
  ]

  udp_reply_size :
      (cache : Cache lru) (query : Bytes) (turn : Turn lru.Store)
      → length (udp_reply lru cache query turn).1 ≤ udp_payload_size query
  unfolding udp_reply
  udp_reply_size cache query turn = rw (udp_limit cache query) (
      omega (
        arith,
        (length-truncate_to (respond lru cache query [] turn).1 (udp_payload_size query)).1,
        udp_payload_size_bounds query,
      ))

  -- A datagram is answered only if it has 12 to 4096 bytes and there is room for it in flight. The
  -- answer is no longer than the size that the client offers, which counts as at most 4096 bytes.
  pub udp_datagram_bounds :
      (cache : Cache lru) (datagram : Bytes) (permit : Bool) (turn : Turn lru.Store) (reply : Bytes)
      → (udp_datagram lru cache datagram permit turn).1 ≡ some reply
      → (12 ≤ length datagram)
        × (length datagram ≤ 4096)
        × (permit ≡ true)
        × (length reply ≤ udp_payload_size datagram)
        × (udp_payload_size datagram ≤ 4096)
  unfolding udp_datagram
  udp_datagram_bounds cache datagram permit turn reply h =
      let size = length-take {0} 4097 datagram in
      let short : length datagram ≤ 4096 = ground arith in
      let whole = take_all 4097 datagram (omega arith) in
      let h' = rw whole at h in
      ground (arith, udp_reply_size cache datagram turn, udp_payload_size_bounds datagram)
