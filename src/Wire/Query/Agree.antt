-- ===== src/Wire/Query/Agree.antt =====
-- src/wire.rs: `parse_query_meta` and `udp_payload_size` walk the same sections.
use dnsrivet.Prelude.{
  ℕ, zero, suc, ◌+◌, ◌≤◌, ◌≡◌, refl, ap, ◌∙◌, arith, none, some, Bool, true, false, Bytes, length,
  leb, guard, >>=-eq-some,
}
use dnsrivet.Wire.Read.{header_len, read_u16, read_u16-in_range}
use dnsrivet.Wire.Name.{read_name}
use dnsrivet.Wire.Name.Canonical.{skip_name-read_name}
use dnsrivet.Wire.Record.{skip_rrs, skip_questions, questions_end}
use dnsrivet.Wire.Query.{
  QueryMeta, clamp_udp, Additional, additional_record, additional_loop, is_plain_query,
  parse_query_meta, advertised, additional_start, udp_payload_size,
}

pub clamp_udp_bounds : (n : ℕ) → (512 ≤ clamp_udp n) × (clamp_udp n ≤ 4096)
unfolding clamp_udp
clamp_udp_bounds n = ground arith

guard-true : (b : Bool) → guard b ≡ some tt → b ≡ true
guard-true true h = refl
guard-true false h = cc

-- After an OPT record no other record is accepted.
additional_record_saw :
    (m : Bytes) (s : Additional) → s.saw_opt ≡ true → additional_record m s ≡ none
unfolding additional_record
additional_record_saw m s h = ground arith

additional_record-advertised :
    (m : Bytes) (s t : Additional) (count : ℕ)
    → additional_record m s ≡ some t
    → (advertised m (suc count) s.offset ≡ t.udp_size) × (t.saw_opt ≡ true)
unfolding additional_record advertised
additional_record-advertised m s t count h = ground arith

additional_loop-advertised :
    (m : Bytes) (count : ℕ) (s t : Additional)
    → s.udp_size ≡ 512
    → additional_loop m count s ≡ some t
    → advertised m count s.offset ≡ t.udp_size
unfolding additional_loop
additional_loop-advertised m zero s t u h = unfold advertised in ground arith
additional_loop-advertised m (suc zero) s t u h =
    let (v, p, q) = >>=-eq-some (additional_record m s) _ h in
    ground (arith, additional_record-advertised m s v zero p)
additional_loop-advertised m (suc (suc count)) s t u h =
    let (v, p, q) = >>=-eq-some (additional_record m s) _ h in
    let (w, p', q') = >>=-eq-some (additional_record m v) _ q in
    absurd
      (ground (arith, additional_record-advertised m s v (suc count) p, additional_record_saw m v))

-- One question ends behind its name and its four bytes of type and class.
questions_end_one :
    (m : Bytes) {name : Bytes} {e c : ℕ}
    → read_u16 m 4 ≡ some 1
    → read_name m header_len ≡ some (name, e)
    → read_u16 m (e + 2) ≡ some c
    → questions_end m ≡ some (e + 4)
unfolding questions_end skip_questions
questions_end_one m {name} {e} {c} q n r =
    ground (arith, skip_name-read_name m header_len, read_u16-in_range m (e + 2) r)

is_plain_query-one : (flags n : ℕ) → is_plain_query flags n ≡ true → n ≡ 1
unfolding is_plain_query
is_plain_query-one flags n h = ground arith

-- A query with cache metadata has the UDP size that `udp_payload_size` finds in the message.
pub udp_payload_size-parse_query_meta :
    (m : Bytes) {meta : QueryMeta}
    → parse_query_meta m ≡ some meta
    → udp_payload_size m ≡ meta.udp_size
unfolding parse_query_meta udp_payload_size additional_start
udp_payload_size-parse_query_meta m h =
    let (_, _, h1) = >>=-eq-some (guard (leb header_len (length m))) _ h in
    let (flags, _, h2) = >>=-eq-some (read_u16 m 2) _ h1 in
    let (n, en, h3) = >>=-eq-some (read_u16 m 4) _ h2 in
    let (_, g, h4) = >>=-eq-some (guard (is_plain_query flags n)) _ h3 in
    let (r, er, h5) = >>=-eq-some (read_name m header_len) _ h4 in
    let (_, _, h6) = >>=-eq-some (read_u16 m r.1) _ h5 in
    let (_, ec, h7) = >>=-eq-some (read_u16 m (r.1 + 2)) _ h6 in
    let (a, ea, h8) = >>=-eq-some (read_u16 m 6) _ h7 in
    let (b, eb, h9) = >>=-eq-some (read_u16 m 8) _ h8 in
    let (o, eo, h10) = >>=-eq-some (skip_rrs m (a + b) (r.1 + 4)) _ h9 in
    let (c, ecount, h11) = >>=-eq-some (read_u16 m 10) _ h10 in
    let start : Additional = record {
      offset = o;
      udp_size = 512;
      do_bit = false;
      saw_opt = false;
    } in
    let (s, es, h12) = >>=-eq-some (additional_loop m c start) _ h11 in
    let one : n ≡ 1 = is_plain_query-one flags n (guard-true _ g) in
    let ends = questions_end_one m (en ∙ ap some one) er ec in
    ground (arith, ends, ea, eb, eo, ecount, additional_loop-advertised m c start s refl es, h12)
