-- ===== src/Upstream/Legacy.antt =====
-- src/upstream/legacy.rs: plain DNS over UDP and TCP. What the sockets deliver is an argument.
pub mod Genuine
use dnsrivet.Prelude.{
  ℕ, ◌+◌, ◌/◌, ◌%◌, Bool, true, false, not, ◌&&◌, ◌||◌, Option, none, some, Result, ok, err, List,
  [], ◌∷◌, ◌++◌, Bytes, length, byte, take, slice?, eq_bytes, leb, ltb, ◌==◌, if◌then◌else◌,
  bit_and,
}
use dnsrivet.Wire.Read.{read_u16}
use dnsrivet.Wire.Truncate.{truncate_to}
use dnsrivet.Wire.Validate.{ValidationError, validate_response}

-- `T` is the text of a socket's error.
pub data LegacyError (T : Type 0) : Type 0 where
  io : T → LegacyError T
  truncated_udp_rejected : ValidationError → LegacyError T
  query_too_large : LegacyError T
  end_of_stream : LegacyError T
  id_mismatch : LegacyError T
  tcp_rejected : ValidationError → LegacyError T

abbrev pub max_udp_response : ℕ
max_udp_response = 4096

unfoldable pub is_truncated : Bytes → Bool
is_truncated response = leb 12 (length response) && not (bit_and (byte response 2) 0x02 == 0)

abbrev pub is_ok : {A E : Type 0} → Result A E → Bool
is_ok (ok _) = true
is_ok (err _) = false

abbrev pub same_id : Bytes → Bytes → Bool
same_id response query = eq_bytes (take 2 response) (take 2 query)

-- The datagram carries the ID of the query and answers its question.
unfoldable pub accepts : Bytes → Bytes → Bool
accepts query datagram =
    leb 12 (length datagram) && same_id datagram query && is_ok (validate_response query datagram)

-- The query with its length before it.
unfoldable pub framed : Bytes → Bytes
framed query = length query / 256 % 256 ∷ length query % 256 ∷ query

module _ {T : Type 0} where
  abbrev pub checked :
      (ValidationError → LegacyError T) → Bytes → Bytes → Result Bytes (LegacyError T)
  checked rejected query response = elim (validate_response query response) [
    | ok _ ↦ ok response
    | err e ↦ err (rejected e)
  ]

  -- An accepted datagram that fills the buffer of 4097 bytes was clipped, or is too long.
  unfoldable pub deliver : Bytes → Bytes → Result Bytes (LegacyError T)
  deliver query datagram =
      if ltb max_udp_response (length datagram)
      then checked truncated_udp_rejected query (truncate_to datagram max_udp_response)
      else ok datagram

  -- The loop of `query_udp` over what `recv` returns, one datagram or error after the other; `none`
  -- means that it goes on waiting.
  unfoldable pub receive_loop :
      Bytes → List (Result Bytes T) → Option (Result Bytes (LegacyError T))
  receive_loop query [] = none
  receive_loop query (err e ∷ arrivals) = some (err (io e))
  receive_loop query (ok datagram ∷ arrivals) =
      let clipped = take (max_udp_response + 1) datagram in
      let rest = receive_loop query arrivals in
      if accepts query clipped then some (deliver query clipped) else rest

  -- `query_udp`; `sent` is the outcome of bind, connect and send.
  unfoldable pub query_udp :
      Bytes → Result (Unit {0}) T → List (Result Bytes T) → Option (Result Bytes (LegacyError T))
  query_udp query (err e) arrivals = some (err (io e))
  query_udp query (ok _) arrivals = receive_loop query arrivals

  unfoldable pub check_tcp : Bytes → Bytes → Result Bytes (LegacyError T)
  check_tcp query response =
      if ltb (length response) 12 || not (same_id response query)
      then err id_mismatch
      else checked tcp_rejected query response

  -- The two `read_exact` on the bytes that the peer sends before it closes the stream.
  unfoldable pub read_tcp : Bytes → Bytes → Result Bytes (LegacyError T)
  read_tcp query stream = elim (read_u16 stream 0) [
    | none ↦ err end_of_stream
    | some n ↦ elim (slice? stream 2 (2 + n)) [
      | none ↦ err end_of_stream
      | some response ↦ check_tcp query response
    ]
  ]

  -- `query_tcp`; `exchange` connects, writes its argument and gives the bytes that come back.
  unfoldable pub query_tcp : Bytes → (Bytes → Result Bytes T) → Result Bytes (LegacyError T)
  query_tcp query exchange =
      if ltb 65535 (length query)
      then err query_too_large
      else elim (exchange (framed query)) [ err e ↦ err (io e) | ok stream ↦ read_tcp query stream ]

  -- `query` behind its UDP exchange.
  unfoldable pub follow_up :
      Bytes
      → Bool
      → Option (Result Bytes (LegacyError T))
      → (Bytes → Result Bytes T)
      → Option (Result Bytes (LegacyError T))
  follow_up query tcp_retry none exchange = none
  follow_up query tcp_retry (some (err e)) exchange = some (err e)
  follow_up query tcp_retry (some (ok response)) exchange =
      if is_truncated response && tcp_retry
      then some (query_tcp query exchange)
      else some (ok response)

  unfoldable pub query_legacy :
      Bytes
      → Bool
      → Result (Unit {0}) T
      → List (Result Bytes T)
      → (Bytes → Result Bytes T)
      → Option (Result Bytes (LegacyError T))
  query_legacy query tcp_retry sent arrivals exchange =
      follow_up query tcp_retry (query_udp query sent arrivals) exchange
