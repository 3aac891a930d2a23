-- ===== src/Proxy/Handlers.antt =====
-- src/proxy/mod.rs: what a UDP or TCP client gets for a query. The upstreams' answer is an argument,
-- and so is what other tasks do to the cache while a query waits for it.
pub mod Errors
pub mod Replies
pub mod Servfail
use dnsrivet.Prelude.{
  ℕ, ◌+◌, zero, suc, Bool, true, false, not, ◌&&◌, Option, none, some, Bytes, [], ◌∷◌, ◌++◌, length,
  byte, set, take, drop, write, replicate, leb, if◌then◌else◌, bit_and, bit_or, map_or, min, slice?,
  ltb,
}
use dnsrivet.Wire.Query.{QueryKey, QueryMeta, is_multi_question_query, udp_payload_size}
use dnsrivet.Wire.Truncate.{truncate_to}
use dnsrivet.Proxy.Lru.{Lru}
use dnsrivet.Proxy.Cache.{Entry, Cache, query_meta, get_into, insert}

abbrev pub max_query_size : ℕ
max_query_size = 4096

-- QR=1, keep opcode/RD, clear AA+TC
abbrev pub response_bits : ℕ → ℕ
response_bits b = bit_or (bit_and b 0x79) 0x80

unfoldable pub servfail : Bytes → Bytes
servfail query =
    if leb 12 (length query) then set (set query 2 (response_bits (byte query 2))) 3 0x82 else query

-- Its caller has checked that the query has a header.
unfoldable pub formerr : Bytes → Bytes
formerr query =
    set (set (write (replicate 12 0) 0 (take 2 query)) 2 (response_bits (byte query 2))) 3 0x81

-- What one query meets: the clock before and behind the upstreams, their answer, and what the other
-- tasks do to the cache in between.
pub record Turn (S : Type 0) : Type 0 where
  pub now : ℕ
  pub later : ℕ
  pub answer : Option Bytes
  pub others : Option S → Option S

module _ (lru : Lru QueryKey Entry) where
  -- The cache, the caller's buffer, and whether the buffer is the answer.
  unfoldable pub local_response :
      Cache lru → Bytes → Option QueryMeta → ℕ → Bytes → Cache lru × Bytes × Bool
  local_response cache query meta now response =
      if is_multi_question_query query then (cache, formerr query, true) else elim meta [
        | none ↦ (cache, response, false)
        | some m ↦ get_into lru cache m (byte query 0 ∷ byte query 1 ∷ []) now response
      ]

  unfoldable pub forward :
      Cache lru → Bytes → Option QueryMeta → Option Bytes → ℕ → Cache lru × Bytes
  forward cache query meta answer now =
      let response = map_or answer (servfail query) (λ r. r) in
      (map_or meta cache (λ m. insert lru cache m response now), response)

  -- The part that the UDP and the TCP loop share.
  unfoldable pub respond : Cache lru → Bytes → Bytes → Turn lru.Store → Cache lru × Bytes
  respond cache query buffer turn =
      let meta = query_meta lru cache query in
      let found = local_response cache query meta turn.now buffer in
      if found.2
      then (found.0, found.1)
      else forward (turn.others found.0) query meta turn.answer turn.later

  unfoldable pub udp_reply : Cache lru → Bytes → Turn lru.Store → Cache lru × Bytes
  udp_reply cache query turn =
      let limit = map_or (query_meta lru cache query) (udp_payload_size query) (λ m. m.udp_size) in
      ((respond cache query [] turn).0, truncate_to (respond cache query [] turn).1 limit)

  -- One round of `udp_loop`: `recv_from` clips a datagram at the buffer's 4097 bytes; `permit` says
  -- whether the limit on queries in flight has room.
  unfoldable pub udp_datagram : Cache lru → Bytes → Bool → Turn lru.Store → Cache lru × Option Bytes
  udp_datagram cache datagram permit turn =
      let query = take (max_query_size + 1) datagram in
      let reply = udp_reply cache query turn in
      if leb 12 (length query) && leb (length query) max_query_size && permit
      then (reply.0, some reply.1)
      else (cache, none)
