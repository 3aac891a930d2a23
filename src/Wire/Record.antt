-- ===== src/Wire/Record.antt =====
-- src/wire.rs: resource records and the sections of a message.
pub mod Layout
use dnsrivet.Prelude.{
  ℕ, zero, suc, ◌+◌, Option, none, some, Bytes, length, leb, ltb, if◌then◌else◌, ◌>>=◌, ◌>>◌, guard,
}
use dnsrivet.Wire.Read.{header_len, read_u16, read_u32}
use dnsrivet.Wire.Name.{skip_name}

pub record ResourceRecord : Type 0 where
  pub kind : ℕ
  pub class : ℕ
  pub ttl : ℕ
  pub ttl_offset : ℕ
  pub rdata_offset : ℕ
  pub rdlen : ℕ
  pub end : ℕ

unfoldable pub parse_rr : Bytes → ℕ → Option ResourceRecord
parse_rr message start = do
  offset ← skip_name message start
  kind ← read_u16 message offset
  class ← read_u16 message (offset + 2)
  let ttl_offset = offset + 4
  ttl ← read_u32 message ttl_offset
  rdlen ← read_u16 message (offset + 8)
  let rdata_offset = offset + 10
  let end = rdata_offset + rdlen
  guard (leb end (length message))
  some (record {
    kind = kind;
    class = class;
    ttl = ttl;
    ttl_offset = ttl_offset;
    rdata_offset = rdata_offset;
    rdlen = rdlen;
    end = end;
  })

-- `for _ in 0..count { offset = parse_rr(message, offset)?.end; }`
unfoldable pub skip_rrs : Bytes → ℕ → ℕ → Option ℕ
skip_rrs message zero offset = some offset
skip_rrs message (suc count) offset = do rr ← parse_rr message offset; skip_rrs message count rr.end

-- The loop of `questions_end`, for the questions that are left.
unfoldable pub skip_questions : Bytes → ℕ → ℕ → Option ℕ
skip_questions message zero offset = some offset
skip_questions message (suc count) offset = do
  name_end ← skip_name message offset
  guard (leb (name_end + 4) (length message))
  skip_questions message count (name_end + 4)

unfoldable pub questions_end : Bytes → Option ℕ
questions_end message = do count ← read_u16 message 4; skip_questions message count header_len

unfoldable pub total_rr_count : Bytes → Option ℕ
total_rr_count message = do
  answers ← read_u16 message 6
  authorities ← read_u16 message 8
  additionals ← read_u16 message 10
  some (answers + authorities + additionals)
