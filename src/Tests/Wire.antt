-- ===== src/Tests/Wire.antt =====
-- src/wire.rs on a query for the A record of "A." and its answer.
use dnsrivet.Prelude.{
  ℕ, zero, suc, ◌+◌, ◌≤◌, ◌<◌, ◌≡◌, ◌≢◌, refl, arith, Option, none, some, true, false, Bytes, [],
  ◌∷◌, ◌++◌, List, ok, length, bit_and, byte, min, map, foldl, ◌>>=◌, get_elem?, IsBytes, ◌⊎◌, ◌↔◌,
}
use dnsrivet.Wire.Read.{read_u16, read_u32, to_be_bytes}
use dnsrivet.Wire.Name.{
  pointer_of, jump, label_step, walk_round, walk_loop, walk_name, skip_name, lower, read_name,
  copy_label, walk_fuel, initial, next,
}
use dnsrivet.Wire.Name.Halts.{walk_name_halts}
use dnsrivet.Wire.Name.Fold.{labels}
use dnsrivet.Wire.Name.Encode.{encode, read_name-encode}
use dnsrivet.Wire.Record.{
  ResourceRecord, parse_rr, skip_rrs, skip_questions, questions_end, total_rr_count,
}
use dnsrivet.Wire.Query.{
  QueryMeta, clamp_udp, additional_record, additional_loop, is_plain_query, parse_query_meta,
  advertised, additional_start, udp_payload_size, is_multi_question_query,
}
use dnsrivet.Wire.Query.Agree.{udp_payload_size-parse_query_meta}
use dnsrivet.Wire.Ttl.{
  age_record, adjust_loop, adjust_ttls, soa_minimum, soa_negative, scan_soa, scan_record, scan_loop,
  capped, negative_ttl, is_negative, choose_ttl, cache_ttl, u32_max,
}
use dnsrivet.Wire.Ttl.Minimum.{here, cache_ttl-le-RecordAt}
use dnsrivet.Wire.Ttl.Records.{Aged, adjust_ttls-Aged}
use dnsrivet.Wire.Truncate.{mark_truncated, drop_questions, cut, truncate_to}
use dnsrivet.Wire.Truncate.Marks.{truncate_to-marks}
use dnsrivet.Wire.Validate.{eq_ignore_ascii_case, match_label, questions_match, validate_response}
use dnsrivet.Wire.Validate.Accepts.{Answers, validate_response-Answers}

program : Unit {0}
unfolding read_u16 read_u32 to_be_bytes pointer_of jump label_step walk_round walk_loop walk_name
    skip_name lower read_name parse_rr skip_rrs skip_questions questions_end total_rr_count
    clamp_udp additional_record additional_loop is_plain_query parse_query_meta advertised
    additional_start udp_payload_size is_multi_question_query age_record adjust_loop adjust_ttls
    soa_minimum soa_negative scan_soa scan_record scan_loop capped negative_ttl is_negative
    choose_ttl cache_ttl mark_truncated drop_questions cut truncate_to eq_ignore_ascii_case
    match_label questions_match validate_response encode labels dnsrivet.Prelude.slice?
    dnsrivet.Prelude.write dnsrivet.Prelude.eq_bytes
program = tt

-- ID 0x1234, RD set, one question and one OPT record that offers 1232 bytes.
abbrev pub query : Bytes
query =
    18 ∷ 52 ∷ 1 ∷ 0 ∷ 0 ∷ 1 ∷ 0 ∷ 0 ∷ 0 ∷ 0 ∷ 0 ∷ 1 ∷ 1 ∷ 65 ∷ 0 ∷ 0 ∷ 1 ∷ 0 ∷ 1 ∷ 0 ∷ 0 ∷ 41 ∷ 4
    ∷ 208 ∷ 0 ∷ 0 ∷ 0 ∷ 0 ∷ 0 ∷ 0 ∷ []

-- The answer 10.0.0.1 with a TTL of 60 seconds; the question comes back in lowercase.
abbrev pub response : Bytes
response =
    18 ∷ 52 ∷ 129 ∷ 128 ∷ 0 ∷ 1 ∷ 0 ∷ 1 ∷ 0 ∷ 0 ∷ 0 ∷ 0 ∷ 1 ∷ 97 ∷ 0 ∷ 0 ∷ 1 ∷ 0 ∷ 1 ∷ 192 ∷ 12 ∷ 0
    ∷ 1 ∷ 0 ∷ 1 ∷ 0 ∷ 0 ∷ 0 ∷ 60 ∷ 0 ∷ 4 ∷ 10 ∷ 0 ∷ 0 ∷ 1 ∷ []

abbrev answer_record : ResourceRecord
answer_record = record {
  kind = 1;
  class = 1;
  ttl = 60;
  ttl_offset = 25;
  rdata_offset = 31;
  rdlen = 4;
  end = 35;
}

abbrev pub meta : QueryMeta
meta = record {
  key = record {
    qname = 1 ∷ 97 ∷ 0 ∷ [];
    qtype = 1;
    qclass = 1;
    do_bit = false;
    edns = true;
    dnssec_header_bits = 0;
  };
  udp_size = 1232;
}

pub query-meta : parse_query_meta query ≡ some meta
unfolding program
query-meta = refl

pub response-ttl : cache_ttl response 1 ≡ some 60
unfolding program
response-ttl = refl

first_record : parse_rr response 19 ≡ some answer_record
unfolding program
first_record = refl

accepted : validate_response query response ≡ ok tt
unfolding program
accepted = refl

pub query-IsBytes : IsBytes query
query-IsBytes = omega arith

response-IsBytes : IsBytes response
response-IsBytes = omega arith

-- A name that consists of a pointer to itself.
abbrev looping : Bytes
looping = 192 ∷ 0 ∷ []

looping_fails : read_name looping 0 ≡ none
unfolding program
looping_fails = refl

walk_name_halts_example :
    walk_loop looping copy_label walk_fuel (initial 0 []) ≢ next (initial 0 [])
walk_name_halts_example = walk_name_halts looping copy_label 0 [] (initial 0 [])

query_name : read_name query 12 ≡ some (1 ∷ 97 ∷ 0 ∷ [], 15)
unfolding program
query_name = refl

read_name-encode_example :
    read_name (0 ∷ (encode ((65 ∷ []) ∷ []) ++ (7 ∷ []))) 1
    ≡ some (map lower (encode ((65 ∷ []) ∷ [])), 1 + length (encode ((65 ∷ []) ∷ [])))
unfolding encode
read_name-encode_example =
    read_name-encode (0 ∷ []) ((65 ∷ []) ∷ []) (7 ∷ []) (omega arith) (omega arith)

udp_payload_size-parse_query_meta_example : udp_payload_size query ≡ 1232
udp_payload_size-parse_query_meta_example = udp_payload_size-parse_query_meta query query-meta

response_questions : questions_end response ≡ some 19
unfolding program
response_questions = refl

-- The answer after 20 seconds.
abbrev aged_response : Bytes
aged_response =
    18 ∷ 52 ∷ 129 ∷ 128 ∷ 0 ∷ 1 ∷ 0 ∷ 1 ∷ 0 ∷ 0 ∷ 0 ∷ 0 ∷ 1 ∷ 97 ∷ 0 ∷ 0 ∷ 1 ∷ 0 ∷ 1 ∷ 192 ∷ 12 ∷ 0
    ∷ 1 ∷ 0 ∷ 1 ∷ 0 ∷ 0 ∷ 0 ∷ 40 ∷ 0 ∷ 4 ∷ 10 ∷ 0 ∷ 0 ∷ 1 ∷ []

aged_20 : adjust_ttls response 20 ≡ (aged_response, true)
unfolding program
aged_20 = refl

response_count : total_rr_count response ≡ some 1
unfolding program
response_count = refl

adjust_ttls-Aged_example : Aged (min 20 u32_max) aged_response (length aged_response) 1 19 response
adjust_ttls-Aged_example =
    adjust_ttls-Aged response 20 19 1 response-IsBytes response_questions response_count aged_20

cache_ttl-le-RecordAt_example : 60 ≤ 60
unfolding program
cache_ttl-le-RecordAt_example =
    cache_ttl-le-RecordAt response 1 19 1 0 0 0 answer_record answer_record response-ttl refl
      response_questions refl refl (here first_record) (omega arith) refl (here first_record)
      (omega arith)

-- The answer at a limit of 20 bytes: the header and the question.
truncated :
    truncate_to response 20
    ≡ 18 ∷ 52 ∷ 131 ∷ 128 ∷ 0 ∷ 1 ∷ 0 ∷ 0 ∷ 0 ∷ 0 ∷ 0 ∷ 0 ∷ 1 ∷ 97 ∷ 0 ∷ 0 ∷ 1 ∷ 0 ∷ 1 ∷ []
unfolding program
truncated = refl

truncate_to-marks_example :
    (read_u16 (truncate_to response 20) 0 ≡ read_u16 response 0)
    × (bit_and (byte (truncate_to response 20) 2) 2 ≡ 2)
    × (total_rr_count (truncate_to response 20) ≡ some 0)
truncate_to-marks_example =
    truncate_to-marks response 20 response-IsBytes (omega arith) (omega arith)

validate_response-Answers_example :
    (validate_response query response ≡ ok tt) ↔ Answers query response
validate_response-Answers_example =
    validate_response-Answers query response query-IsBytes response-IsBytes
