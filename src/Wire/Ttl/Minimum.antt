-- ===== src/Wire/Ttl/Minimum.antt =====
-- src/wire.rs: a positive answer is cached no longer than its shortest record.
use dnsrivet.Prelude.{
  ℕ, zero, suc, ◌+◌, ◌≤◌, ◌<◌, ◌≡◌, refl, sym, arith, Option, none, some, inl, inr, true, false,
  Bytes, byte, bit_and, >>=-eq-some, Option-cases,
}
use dnsrivet.Wire.Read.{read_u16}
use dnsrivet.Wire.Record.{ResourceRecord, parse_rr, questions_end}
use dnsrivet.Wire.Ttl.{
  Scan, scan_record, scan_loop, choose_ttl, capped, negative_ttl, is_negative, cache_ttl,
}

-- The locals before the first record.
abbrev scan_start : ℕ → Scan
scan_start o = record {
  offset = o;
  positive_min = none;
  soa_min = none;
  has_requested_answer = false;
  has_cname = false;
}

-- `rr` is the record that comes after `n` others when the reading starts at the offset.
pub data RecordAt (m : Bytes) (rr : ResourceRecord) : ℕ → ℕ → Type 0 where
  here : {offset : ℕ} → parse_rr m offset ≡ some rr → RecordAt m rr zero offset
  there :
      {n offset : ℕ} {first : ResourceRecord}
      → parse_rr m offset ≡ some first
      → RecordAt m rr n first.end
      → RecordAt m rr (suc n) offset

abbrev AtMost : Option ℕ → ℕ → Type 0
AtMost none t = ⊥
AtMost (some p) t = p ≤ t

module _ (m : Bytes) (query_type answers authorities : ℕ) where
  scan_record_facts :
      (index : ℕ) (s t : Scan) (rr : ResourceRecord)
      → scan_record m query_type answers authorities index s ≡ some t
      → parse_rr m s.offset ≡ some rr
      → (t.offset ≡ rr.end)
        × (index < answers + authorities → AtMost t.positive_min rr.ttl)
        × (s.has_requested_answer ≡ true → t.has_requested_answer ≡ true)
        × (index < answers → rr.kind ≡ query_type → t.has_requested_answer ≡ true)
  unfolding scan_record
  scan_record_facts index s t rr h e = ground arith

  scan_record_requested :
      (index : ℕ) (s t : Scan)
      → scan_record m query_type answers authorities index s ≡ some t
      → s.has_requested_answer ≡ true
      → t.has_requested_answer ≡ true
  unfolding scan_record
  scan_record_requested index s t h b = ground arith

  scan_record_min :
      (index : ℕ) (s t : Scan) (bound : ℕ)
      → scan_record m query_type answers authorities index s ≡ some t
      → AtMost s.positive_min bound
      → AtMost t.positive_min bound
  unfolding scan_record
  scan_record_min index s t bound h b = ground arith

  scan_loop_min :
      (count index : ℕ) (s t : Scan) (bound : ℕ)
      → scan_loop m query_type answers authorities count index s ≡ some t
      → AtMost s.positive_min bound
      → AtMost t.positive_min bound
  unfolding scan_loop
  scan_loop_min zero index s t bound h b = ground arith
  scan_loop_min (suc count) index s t bound h b =
      let (u, p, q) = >>=-eq-some (scan_record m query_type answers authorities index s) _ h in
      scan_loop_min count (index + 1) u t bound q (scan_record_min index s u bound p b)

  scan_loop_requested :
      (count index : ℕ) (s t : Scan)
      → scan_loop m query_type answers authorities count index s ≡ some t
      → s.has_requested_answer ≡ true
      → t.has_requested_answer ≡ true
  unfolding scan_loop
  scan_loop_requested zero index s t h b = ground arith
  scan_loop_requested (suc count) index s t h b =
      let (u, p, q) = >>=-eq-some (scan_record m query_type answers authorities index s) _ h in
      scan_loop_requested count (index + 1) u t q (scan_record_requested index s u p b)

  -- Every record of the answer and authority sections bounds the minimum.
  scan_loop-RecordAt :
      (count index : ℕ) (s t : Scan) (rr : ResourceRecord) {n o : ℕ}
      → RecordAt m rr n o
      → o ≡ s.offset
      → scan_loop m query_type answers authorities count index s ≡ some t
      → n < count
      → index + n < answers + authorities
      → AtMost t.positive_min rr.ttl
        × (index + n < answers → rr.kind ≡ query_type → t.has_requested_answer ≡ true)
  unfolding scan_loop
  scan_loop-RecordAt zero index s t rr r e h lt inside = absurd (omega arith)
  scan_loop-RecordAt (suc count) index s t rr (here {offset} p) e h lt inside =
      let (u, q, q') = >>=-eq-some (scan_record m query_type answers authorities index s) _ h in
      let f = scan_record_facts index s u rr q (rw (← e) p) in
      (
        scan_loop_min count (index + 1) u t rr.ttl q' (f.1 (omega arith)),
        λ a k. scan_loop_requested count (index + 1) u t q' (f.3 (omega arith) k),
      )
  scan_loop-RecordAt (suc count) index s t rr (there {n} {offset} {first} p r) e h lt inside =
      let (u, q, q') = >>=-eq-some (scan_record m query_type answers authorities index s) _ h in
      let f = scan_record_facts index s u first q (rw (← e) p) in
      let rest =
        scan_loop-RecordAt count (index + 1) u t rr r (sym f.0) q' (omega arith) (omega arith) in
      (rest.0, λ a k. rest.1 (omega arith) k)

choose_ttl-positive :
    (rcode : ℕ) (s : Scan) (bound : ℕ) {t : ℕ}
    → choose_ttl rcode s ≡ some t
    → rcode ≡ 0
    → s.has_requested_answer ≡ true
    → AtMost s.positive_min bound
    → t ≤ bound
unfolding choose_ttl capped negative_ttl is_negative
choose_ttl-positive rcode s bound h z r b = ground arith

-- A TTL comes from a scan of all the records.
cache_ttl-scan :
    (m : Bytes) (query_type o a b : ℕ) {t : ℕ}
    → cache_ttl m query_type ≡ some t
    → questions_end m ≡ some o
    → read_u16 m 6 ≡ some a
    → read_u16 m 8 ≡ some b
    → (c : ℕ) × (s : Scan) × (scan_loop m query_type a b (a + b + c) 0 (scan_start o) ≡ some s)
      × (choose_ttl (bit_and (byte m 3) 0x0f) s ≡ some t)
unfolding cache_ttl
cache_ttl-scan m query_type o a b h eo ea eb = elim (Option-cases (read_u16 m 10)) [
  | inl e ↦ absurd (ground arith)
  | inr (c, ec) ↦ elim (Option-cases (scan_loop m query_type a b (a + b + c) 0 (scan_start o))) [
    | inl e ↦ absurd (ground arith)
    | inr (s, es) ↦ (c, s, es, ground arith)
  ]
]

-- Where the answer section holds a record of the requested type and the response is NOERROR, the
-- TTL is at most that of every record of the answer and authority sections.
pub cache_ttl-le-RecordAt :
    (m : Bytes) (query_type : ℕ) (o a b n k : ℕ) (asked rr : ResourceRecord) {t : ℕ}
    → cache_ttl m query_type ≡ some t
    → bit_and (byte m 3) 0x0f ≡ 0
    → questions_end m ≡ some o
    → read_u16 m 6 ≡ some a
    → read_u16 m 8 ≡ some b
    → RecordAt m asked k o
    → k < a
    → asked.kind ≡ query_type
    → RecordAt m rr n o
    → n < a + b
    → t ≤ rr.ttl
cache_ttl-le-RecordAt m query_type o a b n k asked rr {t} h z eo ea eb ra lta kind r lt =
    let (c, s, es, chosen) = cache_ttl-scan m query_type o a b h eo ea eb in
    let count = a + b + c in
    let start = scan_start o in
    let all =
      scan_loop-RecordAt m query_type a b count 0 start s rr r refl es (omega arith)
        (omega arith) in
    let first =
      scan_loop-RecordAt m query_type a b count 0 start s asked ra refl es (omega arith)
        (omega arith) in
    choose_ttl-positive (bit_and (byte m 3) 0x0f) s rr.ttl chosen z (first.1 (omega arith) kind)
      all.0
