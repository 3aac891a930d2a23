-- ===== src/Wire/Validate.antt =====
-- src/wire.rs: `validate_response`, which accepts a response only as an answer to its query.
pub mod Names
pub mod Accepts
use dnsrivet.Prelude.{
  ℕ, ◌+◌, Bool, true, false, not, ◌&&◌, ◌||◌, Option, none, some, Bytes, [], ◌∷◌, ◌++◌, length,
  byte, take, slice?, map, foldl, eq_bytes, ◌==◌, leb, ltb, if◌then◌else◌, ◌>>=◌, bit_and, bit_xor,
  map_or, Result, ok, err,
}
use dnsrivet.Wire.Read.{header_len, read_u16}
use dnsrivet.Wire.Name.{walk_name, copy_label, lower}

pub data ValidationError : Type 0 where
  too_short not_a_response opcode_mismatch qd_count_mismatch question_mismatch : ValidationError

abbrev pub Validation : Type 0
Validation = Result (Unit {0}) ValidationError

-- `[u8]::eq_ignore_ascii_case`
unfoldable pub eq_ignore_ascii_case : Bytes → Bytes → Bool
eq_ignore_ascii_case [] [] = true
eq_ignore_ascii_case (x ∷ xs) (y ∷ ys) = lower x == lower y && eq_ignore_ascii_case xs ys
eq_ignore_ascii_case _ _ = false

-- The closure over the response: the length of the labels walked, and whether they all match the
-- query's name.
pub record Echo : Type 0 where
  pub echoed_len : ℕ
  pub all_match : Bool

unfoldable pub match_label : Bytes → Echo → Bytes → Echo
match_label name s label = record {
  echoed_len = s.echoed_len + length label;
  all_match =
      s.all_match
      && map_or (slice? name s.echoed_len (s.echoed_len + length label)) false
          (λ sent. eq_ignore_ascii_case sent label);
}

unfoldable pub questions_match : Bytes → Bytes → Option Bool
questions_match query response = do
  (query_end, name) ← walk_name query copy_label header_len []
  sent_fields ← slice? query query_end (query_end + 4)
  (response_end, s) ←
      walk_name response (match_label name) header_len (record { echoed_len = 0; all_match = true })
  echoed_fields ← slice? response response_end (response_end + 4)
  some (s.all_match && length name == s.echoed_len && eq_bytes sent_fields echoed_fields)

-- The last comparison: `Some(true)` is the only acceptance.
abbrev pub question_verdict : Option Bool → Validation
question_verdict (some true) = ok tt
question_verdict _ = err question_mismatch

abbrev pub count_verdict : Bytes → Bytes → Option ℕ → Option ℕ → Validation
count_verdict query response (some qd_query) (some qd_response) =
    if not (qd_response == qd_query)
    then err qd_count_mismatch
    else if not (qd_query == 1)
    then ok tt
    else question_verdict (questions_match query response)
count_verdict query response _ _ = err too_short

unfoldable pub validate_response : Bytes → Bytes → Validation
validate_response query response =
    if ltb (length query) header_len || ltb (length response) header_len
    then err too_short
    else if bit_and (byte response 2) 0x80 == 0
    then err not_a_response
    else if not (bit_and (bit_xor (byte query 2) (byte response 2)) 0x78 == 0)
    then err opcode_mismatch
    else count_verdict query response (read_u16 query 4) (read_u16 response 4)
