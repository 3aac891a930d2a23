-- ===== src/Wire/Validate/Accepts.antt =====
-- src/wire.rs: the responses that `validate_response` accepts (RFC 5452).
use dnsrivet.Prelude.{
  ℕ, ◌/◌, ◌%◌, ◌≤◌, ◌≡◌, ◌↔◌, ap, ◌∙◌, arith, Option, none, some, inl, inr, Bytes, IsBytes, length,
  byte, eq_bytes→eq, eq_bytes_self, Option-cases, qr_clear, opcode_same, byte-lt, ok,
}
use dnsrivet.Wire.Read.{header_len, read_u16, read_u16-some}
use dnsrivet.Wire.Validate.{questions_match, question_verdict, count_verdict, validate_response}
use dnsrivet.Wire.Validate.Names.{canonical_question, questions_match-canonical}

-- The response answers the query: it is a response with the query's opcode and question count, and
-- a single question is the same one, up to the encoding and the case of its name.
pub record Answers (query response : Bytes) : Type 0 where
  pub query_header : header_len ≤ length query
  pub response_header : header_len ≤ length response
  pub qr : 128 ≤ byte response 2
  pub opcode : byte query 2 / 8 % 16 ≡ byte response 2 / 8 % 16
  pub count : read_u16 response 4 ≡ read_u16 query 4
  pub question :
      read_u16 query 4 ≡ some 1
      → (c : Bytes × Bytes) × (canonical_question query ≡ some c)
        × (canonical_question response ≡ some c)

question_sound :
    (q r : Bytes)
    → question_verdict (questions_match q r) ≡ ok tt
    → (c : Bytes × Bytes) × (canonical_question q ≡ some c) × (canonical_question r ≡ some c)
question_sound q r h = elim (Option-cases (canonical_question q)) [
  | inl e ↦ absurd (ground (arith, questions_match-canonical q r))
  | inr (a, ea) ↦ elim (Option-cases (canonical_question r)) [
    | inl e ↦ absurd (ground (arith, questions_match-canonical q r))
    | inr (b, eb) ↦ (
      a,
      ea,
      ground (arith, questions_match-canonical q r, eq_bytes→eq a.0 b.0, eq_bytes→eq a.1 b.1),
    )
  ]
]

question_complete :
    (q r : Bytes) (c : Bytes × Bytes)
    → canonical_question q ≡ some c
    → canonical_question r ≡ some c
    → question_verdict (questions_match q r) ≡ ok tt
question_complete q r c ea eb =
    ground (arith, questions_match-canonical q r, eq_bytes_self c.0, eq_bytes_self c.1)

count_sound :
    (q r : Bytes) (a b : Option ℕ)
    → count_verdict q r a b ≡ ok tt
    → (b ≡ a) × (a ≡ some 1 → question_verdict (questions_match q r) ≡ ok tt)
count_sound q r (some a) (some b) h = ground arith
count_sound q r none b h = cc
count_sound q r (some a) none h = cc

count_complete :
    (q r : Bytes) (n : ℕ)
    → (n ≡ 1 → question_verdict (questions_match q r) ≡ ok tt)
    → count_verdict q r (some n) (some n) ≡ ok tt
count_complete q r n h = ground arith

-- For messages of bytes, a response is accepted exactly when it answers the query: both have a header,
-- QR is set, the opcode and the question count are the query's, and where there is one question, both
-- have the same one, up to the encoding of its name and the case of its letters.
pub validate_response-Answers :
    (q r : Bytes) → IsBytes q → IsBytes r → (validate_response q r ≡ ok tt) ↔ Answers q r
unfolding validate_response
validate_response-Answers q r okq okr = (
  λ h.
      let c = count_sound q r (read_u16 q 4) (read_u16 r 4) in
      record {
        query_header = ground arith;
        response_header = ground arith;
        qr = ground (arith, qr_clear (byte r 2) (byte-lt r 2 okr));
        opcode =
            ground (arith, opcode_same (byte q 2) (byte r 2) (byte-lt q 2 okq) (byte-lt r 2 okr));
        count = ground (arith, c);
        question = λ one. question_sound q r (ground (arith, c));
      },
  λ a.
      let (n, en) = read_u16-some q 4 (omega arith) in
      ground (
        arith,
        en,
        qr_clear (byte r 2) (byte-lt r 2 okr),
        opcode_same (byte q 2) (byte r 2) (byte-lt q 2 okq) (byte-lt r 2 okr),
        count_complete q r n (λ one.
            let (c, ca, cb) = a.question (en ∙ ap some one) in question_complete q r c ca cb),
      ),
)
