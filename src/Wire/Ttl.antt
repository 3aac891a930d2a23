-- ===== src/Wire/Ttl.antt =====
-- src/wire.rs: ageing the TTLs of a message, and how long a response may be cached.
pub mod Adjust
pub mod Limits
pub mod Minimum
pub mod Records
use dnsrivet.Prelude.{
  ℕ, zero, suc, ◌+◌, ◌-◌, min, Bool, true, false, not, ◌&&◌, ◌||◌, Option, none, some, Bytes,
  length, byte, write, ◌==◌, leb, ltb, if◌then◌else◌, ◌>>=◌, ◌>>◌, guard, bit_and, map_or,
}
use dnsrivet.Wire.Read.{header_len, type_opt, type_soa, type_cname, read_u16, read_u32, to_be_bytes}
use dnsrivet.Wire.Name.{skip_name}
use dnsrivet.Wire.Record.{ResourceRecord, parse_rr, questions_end, total_rr_count}

abbrev pub u32_max : ℕ
u32_max = 4294967295

-- The message with the record's TTL lowered; an OPT record keeps its flags. `-` stops at 0, as
-- `saturating_sub` does.
unfoldable pub age_record : Bytes → ℕ → ResourceRecord → Bytes
age_record message elapsed rr =
    if rr.kind == type_opt
    then message
    else write message rr.ttl_offset (to_be_bytes (rr.ttl - elapsed))

-- The loop over the records that are left: the message as it then is, and the offset behind the
-- last record, or `none` where a record is malformed.
unfoldable pub adjust_loop : ℕ → ℕ → ℕ → Bytes → Bytes × Option ℕ
adjust_loop zero elapsed offset message = (message, some offset)
adjust_loop (suc count) elapsed offset message = elim (parse_rr message offset) [
  | none ↦ (message, none)
  | some rr ↦ adjust_loop count elapsed rr.end (age_record message elapsed rr)
]

-- `offset == message.len()` behind the loop; a malformed record is a failure.
abbrev pub reaches_end : Bytes × Option ℕ → Bytes × Bool
reaches_end r = (r.0, map_or r.1 false (λ offset. offset == length r.0))

-- The message after the call, and the result.
unfoldable pub adjust_ttls : Bytes → ℕ → Bytes × Bool
adjust_ttls message elapsed_secs =
    if ltb (length message) header_len then (message, false) else elim (questions_end message) [
      | none ↦ (message, false)
      | some offset ↦ elim (total_rr_count message) [
        | none ↦ (message, false)
        | some count ↦ reaches_end (adjust_loop count (min elapsed_secs u32_max) offset message)
      ]
    ]

unfoldable pub soa_minimum : Bytes → ResourceRecord → Option ℕ
soa_minimum message rr = do
  let rdata_end = rr.rdata_offset + rr.rdlen
  mname_end ← skip_name message rr.rdata_offset
  guard (leb mname_end rdata_end)
  rname_end ← skip_name message mname_end
  guard (leb (rname_end + 20) rdata_end)
  read_u32 message (rname_end + 16)

-- The locals of the loop of `cache_ttl`.
pub record Scan : Type 0 where
  pub offset : ℕ
  pub positive_min : Option ℕ
  pub soa_min : Option ℕ
  pub has_requested_answer : Bool
  pub has_cname : Bool

-- `Some(min.map_or(ttl, |m| m.min(ttl)))`
abbrev pub lower_min : Option ℕ → ℕ → Option ℕ
lower_min none ttl = some ttl
lower_min (some m) ttl = some (min m ttl)

-- An SOA record of the authority section: min(SOA TTL, SOA.MINIMUM).
unfoldable pub soa_negative : Bytes → ResourceRecord → Option ℕ → Option (Option ℕ)
soa_negative message rr soa_min = do
  minimum ← soa_minimum message rr
  some (lower_min soa_min (min rr.ttl minimum))

-- What one record adds to the SOA minimum; `none` is the early return of `cache_ttl`.
unfoldable pub scan_soa : Bytes → Bool → ResourceRecord → Option ℕ → Option (Option ℕ)
scan_soa message in_authority rr soa_min =
    if in_authority && rr.kind == type_soa then soa_negative message rr soa_min else some soa_min

unfoldable pub scan_record : Bytes → ℕ → ℕ → ℕ → ℕ → Scan → Option Scan
scan_record message query_type answers authorities index s = do
  rr ← parse_rr message s.offset
  let in_answer = ltb index answers
  let in_authority = leb answers index && ltb index (answers + authorities)
  soa_min ← scan_soa message in_authority rr s.soa_min
  some (record {
    offset = rr.end;
    positive_min =
        if in_answer || in_authority then lower_min s.positive_min rr.ttl else s.positive_min;
    soa_min = soa_min;
    has_requested_answer = s.has_requested_answer || (in_answer && rr.kind == query_type);
    has_cname = s.has_cname || (in_answer && rr.kind == type_cname);
  })

-- `count` records are left, the next has number `index`.
unfoldable pub scan_loop : Bytes → ℕ → ℕ → ℕ → ℕ → ℕ → Scan → Option Scan
scan_loop message query_type answers authorities zero index s = some s
scan_loop message query_type answers authorities (suc count) index s = do
  t ← scan_record message query_type answers authorities index s
  scan_loop message query_type answers authorities count (index + 1) t

-- `(ttl > 0).then_some(ttl.min(cap))`
unfoldable pub capped : ℕ → ℕ → Option ℕ
capped cap ttl = if ltb 0 ttl then some (min ttl cap) else none

unfoldable pub negative_ttl : Scan → Option ℕ
negative_ttl s = do
  soa ← s.soa_min
  ttl ← if s.has_cname then s.positive_min >>= (λ p. some (min soa p)) else some soa
  capped 600 ttl

unfoldable pub is_negative : ℕ → Scan → Bool
is_negative rcode s =
    rcode == 3 || (rcode == 0 && map_or s.soa_min false (λ _. true) && not s.has_requested_answer)

-- What follows the loop.
unfoldable pub choose_ttl : ℕ → Scan → Option ℕ
choose_ttl rcode s = if is_negative rcode s then negative_ttl s else s.positive_min >>= capped 86400

unfoldable pub cache_ttl : Bytes → ℕ → Option ℕ
cache_ttl message query_type = do
  guard (
      leb header_len (length message)
      && not (bit_and (byte message 2) 0x80 == 0)
      && bit_and (byte message 2) 0x02 == 0)
  let rcode = bit_and (byte message 3) 0x0f
  guard (rcode == 0 || rcode == 3)
  answers ← read_u16 message 6
  authorities ← read_u16 message 8
  additionals ← read_u16 message 10
  offset ← questions_end message
  s ←
      scan_loop message query_type answers authorities (answers + authorities + additionals) 0
        (record {
          offset = offset;
          positive_min = none;
          soa_min = none;
          has_requested_answer = false;
          has_cname = false;
        })
  guard (s.offset == length message)
  choose_ttl rcode s
