-- ===== src/Wire/Ttl/Records.antt =====
-- src/wire.rs: the TTLs that `adjust_ttls` leaves in the message.
use dnsrivet.Prelude.{
  ℕ, zero, suc, ◌-◌, ◌≡◌, ◌∙◌, arith, min, Option, none, some, inl, inr, true, Bytes, IsBytes,
  length, ◌==◌, if◌then◌else◌, Bool-cases, Option-cases, IsBytes-write,
}
use dnsrivet.Wire.Read.{
  type_opt, read_u32, to_be_bytes, read_u32-lt, to_be_bytes-IsBytes, read_u32-cong, read_u32-write,
}
use dnsrivet.Wire.Record.{ResourceRecord, parse_rr, questions_end, total_rr_count}
use dnsrivet.Wire.Record.Layout.{parse_rr-Fits}
use dnsrivet.Wire.Ttl.{age_record, adjust_loop, adjust_ttls, reaches_end, u32_max}
use dnsrivet.Wire.Ttl.Adjust.{get_elem?-adjust_loop}

-- What an aged record's TTL field reads: OPT keeps its flags, any other loses the seconds.
abbrev pub aged_ttl : ℕ → ResourceRecord → ℕ
aged_ttl k rr = if rr.kind == type_opt then rr.ttl else rr.ttl - k

-- The `count` records from the offset on, each parsed when the ones before it have been aged, read
-- their aged TTL in the final message; the last one ends at `last`.
pub data Aged (k : ℕ) (final : Bytes) (last : ℕ) : ℕ → ℕ → Bytes → Type 0 where
  finished : {m : Bytes} {offset : ℕ} → offset ≡ last → Aged k final last zero offset m
  aged :
      {m : Bytes} {offset count : ℕ} {rr : ResourceRecord}
      → parse_rr m offset ≡ some rr
      → read_u32 final rr.ttl_offset ≡ some (aged_ttl k rr)
      → Aged k final last count rr.end (age_record m k rr)
      → Aged k final last (suc count) offset m

age_record-IsBytes :
    (m : Bytes) (k : ℕ) (rr : ResourceRecord) → IsBytes m → IsBytes (age_record m k rr)
unfolding age_record
age_record-IsBytes m k rr ok = elim (Bool-cases (rr.kind == type_opt)) [
  | inl e ↦ rw e ok
  | inr e ↦ rw e (
      IsBytes-write (to_be_bytes (rr.ttl - k)) m rr.ttl_offset ok
        (to_be_bytes-IsBytes (rr.ttl - k)))
]

read_u32-age_record :
    (m : Bytes) (k offset : ℕ) {rr : ResourceRecord}
    → IsBytes m
    → parse_rr m offset ≡ some rr
    → read_u32 (age_record m k rr) rr.ttl_offset ≡ some (aged_ttl k rr)
unfolding age_record
read_u32-age_record m k offset {rr} ok e =
    let f = parse_rr-Fits m offset e in
    let lt = read_u32-lt m rr.ttl_offset ok f.ttl_read in
    elim (Bool-cases (rr.kind == type_opt)) [
      | inl o ↦ rw o f.ttl_read
      | inr o ↦ rw o (read_u32-write m rr.ttl_offset (rr.ttl - k) (omega arith) (omega arith))
    ]

adjust_loop-Aged :
    (count k offset : ℕ) (m final : Bytes) {last : ℕ}
    → IsBytes m
    → adjust_loop count k offset m ≡ (final, some last)
    → Aged k final last count offset m
unfolding adjust_loop
adjust_loop-Aged zero k offset m final ok h = finished (ground arith)
adjust_loop-Aged (suc count) k offset m final {last} ok h =
    elim (Option-cases (parse_rr m offset)) [
      | inl e ↦ absurd (ground arith)
      | inr (rr, e) ↦
          let f = parse_rr-Fits m offset e in
          let m' = age_record m k rr in
          let h' : adjust_loop count k rr.end m' ≡ (final, some last) = ground arith in
          let kept =
            read_u32-cong m' final rr.ttl_offset
              (λ j lo hi. ground (arith, get_elem?-adjust_loop count k rr.end m' j)) in
          aged e (kept ∙ read_u32-age_record m k offset ok e)
            (adjust_loop-Aged count k rr.end m' final (age_record-IsBytes m k rr ok) h')
    ]

reaches_end-true :
    (r : Bytes × Option ℕ) {final : Bytes}
    → reaches_end r ≡ (final, true)
    → r ≡ (final, some (length final))
reaches_end-true (m, none) h = absurd (ground arith)
reaches_end-true (m, some offset) h = ground arith

-- A successful call ages every record of the message, each by the whole elapsed time with 0 as the
-- floor, spares OPT records, and reaches exactly the end of the message.
pub adjust_ttls-Aged :
    (m : Bytes) (elapsed o count : ℕ) {final : Bytes}
    → IsBytes m
    → questions_end m ≡ some o
    → total_rr_count m ≡ some count
    → adjust_ttls m elapsed ≡ (final, true)
    → Aged (min elapsed u32_max) final (length final) count o m
unfolding adjust_ttls
adjust_ttls-Aged m elapsed o count {final} ok eo ec h =
    let loop = adjust_loop count (min elapsed u32_max) o m in
    let h' : reaches_end loop ≡ (final, true) = ground arith in
    adjust_loop-Aged count (min elapsed u32_max) o m final ok (reaches_end-true loop h')
