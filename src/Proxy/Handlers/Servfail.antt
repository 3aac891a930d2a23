-- ===== src/Proxy/Handlers/Servfail.antt =====
-- src/proxy/mod.rs: `servfail` against the test that a stub resolver makes of an answer.
use dnsrivet.Prelude.{
  ℕ, ◌+◌, ◌-◌, ◌≤◌, ◌<◌, ◌≡◌, refl, ap, ◌∙◌, sym, arith, some, Bytes, IsBytes, List, ◌∷◌, ◌++◌,
  length, byte, set, take, drop, map, ok, IsBytes-set, byte-lt, length-append, slice?,
  drop-length-append, reply_bits,
}
use mathlib.Core.List.{append_assoc}
use dnsrivet.Wire.Read.{read_u16}
use dnsrivet.Wire.Name.{lower}
use dnsrivet.Wire.Name.Encode.{encode, ValidLabels, read_name-encode}
use dnsrivet.Wire.Validate.{validate_response}
use dnsrivet.Wire.Validate.Names.{canonical_question}
use dnsrivet.Wire.Validate.Accepts.{Answers, validate_response-Answers}
use dnsrivet.Proxy.Handlers.{response_bits, servfail}
use dnsrivet.Proxy.Handlers.Errors.{header_cases}

canonical_question-encode :
    (pre : Bytes) (ls : List Bytes) (rest : Bytes)
    → length pre ≡ 12
    → ValidLabels ls
    → length (encode ls) ≤ 255
    → 4 ≤ length rest
    → canonical_question (pre ++ (encode ls ++ rest)) ≡ some (map lower (encode ls), take 4 rest)
unfolding canonical_question slice?
canonical_question-encode pre ls rest h v room fields =
    let read = read_name-encode pre ls rest v room in
    let at_end : drop (length pre + length (encode ls)) (pre ++ (encode ls ++ rest)) ≡ rest =
      ap (λ n. drop n (pre ++ (encode ls ++ rest))) (sym (length-append {0} pre (encode ls)))
      ∙ (ap (drop (length (pre ++ encode ls))) (sym (append_assoc pre (encode ls) rest))
          ∙ drop-length-append (pre ++ encode ls) rest) in
    let four : length pre + length (encode ls) + 4 - (length pre + length (encode ls)) ≡ 4 =
      omega arith in
    rw (sym h, read, at_end, four)
      (ground
        (arith, length-append {0} pre (encode ls ++ rest), length-append {0} (encode ls) rest))

-- What `servfail` writes into a message that starts with a header.
servfail-append :
    (a b c d e f : ℕ) (r more : Bytes)
    → 6 ≤ length r
    → servfail ((a ∷ b ∷ c ∷ d ∷ e ∷ f ∷ r) ++ more)
      ≡ (a ∷ b ∷ response_bits c ∷ 0x82 ∷ e ∷ f ∷ r) ++ more
unfolding servfail
servfail-append a b c d e f r more h = ground (arith, length-append {0} r more)

IsBytes-servfail : (q : Bytes) → IsBytes q → IsBytes (servfail q)
unfolding servfail
IsBytes-servfail q bytes =
    let bits = reply_bits (byte q 2) (byte-lt q 2 bytes) in
    let one = IsBytes-set q 2 (response_bits (byte q 2)) bytes bits.1 in
    ground (arith, bytes, IsBytes-set (set q 2 (response_bits (byte q 2))) 3 0x82 one)

servfail-Answers :
    (header : Bytes) (ls : List Bytes) (rest : Bytes)
    → IsBytes (header ++ (encode ls ++ rest))
    → length header ≡ 12
    → ValidLabels ls
    → length (encode ls) ≤ 255
    → 4 ≤ length rest
    → Answers (header ++ (encode ls ++ rest)) (servfail (header ++ (encode ls ++ rest)))
unfolding read_u16
servfail-Answers header ls rest bytes h v room fields =
    let (a, b, c, d, e, f, r, eq) = header_cases header (omega arith) in
    let more = encode ls ++ rest in
    let six : length r ≡ 6 = omega (arith, sym h, ap length eq) in
    let eq' : header ++ more ≡ (a ∷ b ∷ c ∷ d ∷ e ∷ f ∷ r) ++ more = ap (λ x. x ++ more) eq in
    let sent = ap servfail eq' ∙ servfail-append a b c d e f r more (omega arith) in
    let low : c < 256 = rw eq' at (byte-lt (header ++ more) 2 bytes) in
    let bits = reply_bits c low in
    let long : 12 ≤ length ((a ∷ b ∷ c ∷ d ∷ e ∷ f ∷ r) ++ more) =
      omega (arith, length-append {0} r more) in
    let asked = canonical_question-encode header ls rest h v room fields in
    let back =
      canonical_question-encode (a ∷ b ∷ response_bits c ∷ 0x82 ∷ e ∷ f ∷ r) ls rest (omega arith) v
        room fields in
    record {
      query_header = rw eq' long;
      response_header = rw sent long;
      qr = rw sent bits.0;
      opcode = rw (sent, eq') (sym bits.2);
      count = rw (sent, eq') refl;
      question = λ one. ((map lower (encode ls), take 4 rest), asked, rw sent back);
    }

-- The SERVFAIL for a query whose question stands uncompressed behind the header, as clients send it,
-- passes the test that the proxy itself makes of an upstream's answer.
pub validate_response-servfail :
    (header : Bytes) (ls : List Bytes) (rest : Bytes)
    → IsBytes (header ++ (encode ls ++ rest))
    → length header ≡ 12
    → ValidLabels ls
    → length (encode ls) ≤ 255
    → 4 ≤ length rest
    → validate_response (header ++ (encode ls ++ rest)) (servfail (header ++ (encode ls ++ rest)))
      ≡ ok tt
validate_response-servfail header ls rest bytes h v room fields =
    let query = header ++ (encode ls ++ rest) in
    (validate_response-Answers query (servfail query) bytes (IsBytes-servfail query bytes)).1
      (servfail-Answers header ls rest bytes h v room fields)
