-- ===== src/Wire/Ttl/Adjust.antt =====
-- src/wire.rs: what `adjust_ttls` may change.
use dnsrivet.Prelude.{
  ℕ, zero, suc, ◌+◌, ◌-◌, ◌≤◌, ◌<◌, ◌≡◌, refl, arith, some, inl, inr, ◌⊎◌, Bytes, length, get_elem?,
  Option-cases, length-write, get_elem?-write_outside,
}
use dnsrivet.Wire.Read.{to_be_bytes}
use dnsrivet.Wire.Record.{ResourceRecord, parse_rr, questions_end}
use dnsrivet.Wire.Record.Layout.{parse_rr-Fits}
use dnsrivet.Wire.Ttl.{age_record, adjust_loop, adjust_ttls}

length-to_be_bytes : (v : ℕ) → length (to_be_bytes v) ≡ 4
unfolding to_be_bytes
length-to_be_bytes v = refl

pub length-age_record :
    (m : Bytes) (k : ℕ) (rr : ResourceRecord) → length (age_record m k rr) ≡ length m
unfolding age_record
length-age_record m k rr = ground (arith, length-write (to_be_bytes (rr.ttl - k)) m rr.ttl_offset)

pub length-adjust_loop :
    (count k offset : ℕ) (m : Bytes) → length (adjust_loop count k offset m).0 ≡ length m
unfolding adjust_loop
length-adjust_loop zero k offset m = refl
length-adjust_loop (suc count) k offset m = elim (Option-cases (parse_rr m offset)) [
  | inl e ↦ ground arith
  | inr (rr, e) ↦
      ground
        (arith, length-adjust_loop count k rr.end (age_record m k rr), length-age_record m k rr)
]

-- The message keeps its length, whether the call succeeds or not.
pub length-adjust_ttls : (m : Bytes) (elapsed : ℕ) → length (adjust_ttls m elapsed).0 ≡ length m
unfolding adjust_ttls
length-adjust_ttls m elapsed = grind (arith, length-adjust_loop)

-- A record's ageing leaves every byte outside its TTL field alone.
get_elem?-age_record :
    (m : Bytes) (k : ℕ) (rr : ResourceRecord) (j : ℕ)
    → (j < rr.ttl_offset) ⊎ (rr.ttl_offset + 4 ≤ j)
    → get_elem? (age_record m k rr) j ≡ get_elem? m j
unfolding age_record
get_elem?-age_record m k rr j h = ground (
  arith,
  get_elem?-write_outside (to_be_bytes (rr.ttl - k)) m rr.ttl_offset j,
  length-to_be_bytes (rr.ttl - k),
)

-- The loop leaves every byte before its offset alone.
pub get_elem?-adjust_loop :
    (count k offset : ℕ) (m : Bytes) (j : ℕ)
    → j < offset
    → get_elem? (adjust_loop count k offset m).0 j ≡ get_elem? m j
unfolding adjust_loop
get_elem?-adjust_loop zero k offset m j h = refl
get_elem?-adjust_loop (suc count) k offset m j h = elim (Option-cases (parse_rr m offset)) [
  | inl e ↦ ground arith
  | inr (rr, e) ↦
      let f = parse_rr-Fits m offset e in
      ground (
        arith,
        get_elem?-adjust_loop count k rr.end (age_record m k rr) j,
        get_elem?-age_record m k rr j,
      )
]

-- The header and the question section are never touched.
pub adjust_ttls-question :
    (m : Bytes) (elapsed : ℕ) {o : ℕ} (j : ℕ)
    → questions_end m ≡ some o
    → j < o
    → get_elem? (adjust_ttls m elapsed).0 j ≡ get_elem? m j
unfolding adjust_ttls
adjust_ttls-question m elapsed j e h = grind (arith, get_elem?-adjust_loop)
