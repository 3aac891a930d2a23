-- ===== src/Proxy/Tcp.antt =====
-- src/proxy/mod.rs: `tcp_conn`, RFC 7766: length-prefixed messages, several per connection. The
-- bytes that the client sends before it stops or idles are an argument.
pub mod Framing
use dnsrivet.Prelude.{
  ℕ, zero, suc, ◌+◌, ◌-◌, ◌/◌, ◌%◌, Bool, true, false, ◌&&◌, Option, none, some, Bytes, [], ◌∷◌,
  ◌++◌, length, take, drop, slice?, leb, if◌then◌else◌, min,
}
use dnsrivet.Wire.Read.{read_u16}
use dnsrivet.Wire.Query.{QueryKey}
use dnsrivet.Proxy.Lru.{Lru}
use dnsrivet.Proxy.Cache.{Entry, Cache}
use dnsrivet.Proxy.Handlers.{max_query_size, Turn, respond}

-- The next message and the bytes behind it. `none` ends the connection: the length or the message is
-- incomplete, or the length is out of range.
unfoldable pub next_message : Bytes → Option (Bytes × Bytes)
next_message input = elim (read_u16 input 0) [
  | none ↦ none
  | some n ↦
      if leb 12 n && leb n max_query_size
      then (elim (slice? input 2 (2 + n)) [
        | none ↦ none
        | some query ↦ some (query, drop (2 + n) input)
      ])
      else none
]

-- `u16::try_from(response.len()).unwrap_or(u16::MAX)`, and the bytes that are written.
unfoldable pub frame : Bytes → Bytes
frame response = let len = min (length response) 65535 in len / 256 ∷ len % 256 ∷ take len response

-- What the n-th message of the connection meets, and whether its answer could be written.
pub record Exchange (S : Type 0) : Type 0 where
  pub turn : Turn S
  pub written : Bool

module _ (lru : Lru QueryKey Entry) where
  -- The loop, on fuel: each round takes at least 14 bytes off the input. `buffer` is the response of
  -- the round before. The result is the cache and the bytes that the client gets.
  unfoldable pub tcp_loop :
      ℕ → (ℕ → Exchange lru.Store) → ℕ → Cache lru → Bytes → Bytes → Cache lru × Bytes
  tcp_loop zero exchange n cache buffer input = (cache, [])
  tcp_loop (suc fuel) exchange n cache buffer input = elim (next_message input) [
    | none ↦ (cache, [])
    | some (query, rest) ↦
        let reply = respond lru cache query buffer (exchange n).turn in
        let later = tcp_loop fuel exchange (n + 1) reply.0 reply.1 rest in
        if (exchange n).written then (later.0, frame reply.1 ++ later.1) else (reply.0, [])
  ]

  unfoldable pub tcp_conn : (ℕ → Exchange lru.Store) → Cache lru → Bytes → Cache lru × Bytes
  tcp_conn exchange cache input = tcp_loop (length input) exchange 0 cache [] input
