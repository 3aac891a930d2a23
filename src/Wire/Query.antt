-- ===== src/Wire/Query.antt =====
-- src/wire.rs: what the proxy reads of a client's query: the cache metadata, the UDP payload
-- size and the multi-question test.
pub mod Agree
use dnsrivet.Prelude.{
  ℕ, zero, suc, ◌+◌, Bool, true, false, not, ◌&&◌, Option, none, some, Bytes, length, byte,
  get_elem?, ◌==◌, leb, ltb, if◌then◌else◌, ◌>>=◌, ◌>>◌, guard, bit_and, map_or,
}
use dnsrivet.Wire.Read.{header_len, type_opt, read_u16, read_u32}
use dnsrivet.Wire.Name.{read_name}
use dnsrivet.Wire.Record.{ResourceRecord, parse_rr, skip_rrs, questions_end}

pub record QueryKey : Type 0 where
  pub qname : Bytes
  pub qtype : ℕ
  pub qclass : ℕ
  pub do_bit : Bool
  pub edns : Bool
  pub dnssec_header_bits : ℕ

pub record QueryMeta : Type 0 where
  pub key : QueryKey
  pub udp_size : ℕ

-- `usize::from(class).clamp(512, 4096)`
unfoldable pub clamp_udp : ℕ → ℕ
clamp_udp n = if ltb n 512 then 512 else if ltb 4096 n then 4096 else n

-- The locals of the loop over the additional section.
pub record Additional : Type 0 where
  pub offset : ℕ
  pub udp_size : ℕ
  pub do_bit : Bool
  pub saw_opt : Bool

-- One record of the additional section of a query: a first OPT of version 0 without options, or
-- the query bypasses the cache.
unfoldable pub additional_record : Bytes → Additional → Option Additional
additional_record message s = do
  rr ← parse_rr message s.offset
  guard (rr.kind == type_opt && not s.saw_opt)
  guard (rr.rdlen == 0)
  version ← get_elem? message (rr.ttl_offset + 1)
  guard (version == 0)
  flags ← read_u32 message rr.ttl_offset
  some (record {
    offset = rr.end;
    udp_size = clamp_udp rr.class;
    do_bit = not (bit_and flags 0x8000 == 0);
    saw_opt = true;
  })

unfoldable pub additional_loop : Bytes → ℕ → Additional → Option Additional
additional_loop message zero s = some s
additional_loop message (suc count) s = do
  t ← additional_record message s
  additional_loop message count t

-- The header test: a query with one question that wants recursion.
unfoldable pub is_plain_query : ℕ → ℕ → Bool
is_plain_query flags questions =
    bit_and flags 0x8000 == 0
    && bit_and flags 0x7800 == 0
    && not (bit_and flags 0x0100 == 0)
    && questions == 1

unfoldable pub parse_query_meta : Bytes → Option QueryMeta
parse_query_meta message = do
  guard (leb header_len (length message))
  flags ← read_u16 message 2
  questions ← read_u16 message 4
  guard (is_plain_query flags questions)
  (qname, name_end) ← read_name message header_len
  qtype ← read_u16 message name_end
  qclass ← read_u16 message (name_end + 2)
  answer_count ← read_u16 message 6
  authority_count ← read_u16 message 8
  offset ← skip_rrs message (answer_count + authority_count) (name_end + 4)
  additional_count ← read_u16 message 10
  s ←
      additional_loop message additional_count
        (record { offset = offset; udp_size = 512; do_bit = false; saw_opt = false })
  guard (s.offset == length message)
  some (record {
    key = record {
      qname = qname;
      qtype = qtype;
      qclass = qclass;
      do_bit = s.do_bit;
      edns = s.saw_opt;
      dnssec_header_bits = bit_and (byte message 3) 0x30;
    };
    udp_size = s.udp_size;
  })

-- The size that the first OPT record advertises; 512 if none is found or a record is malformed.
unfoldable pub advertised : Bytes → ℕ → ℕ → ℕ
advertised message zero offset = 512
advertised message (suc count) offset = elim (parse_rr message offset) [
  | none ↦ 512
  | some rr ↦
      let rest = advertised message count rr.end in
      if rr.kind == type_opt then clamp_udp rr.class else rest
]

-- Every early return of `udp_payload_size` returns 512.
unfoldable pub additional_start : Bytes → Option (ℕ × ℕ)
additional_start message = do
  offset ← questions_end message
  answer_count ← read_u16 message 6
  authority_count ← read_u16 message 8
  offset' ← skip_rrs message (answer_count + authority_count) offset
  additional_count ← read_u16 message 10
  some (additional_count, offset')

unfoldable pub udp_payload_size : Bytes → ℕ
udp_payload_size message = map_or (additional_start message) 512 (λ r. advertised message r.0 r.1)

unfoldable pub is_multi_question_query : Bytes → Bool
is_multi_question_query message =
    leb header_len (length message)
    && bit_and (byte message 2) 0x80 == 0
    && bit_and (byte message 2) 0x78 == 0
    && map_or (read_u16 message 4) false (λ count. ltb 1 count)
