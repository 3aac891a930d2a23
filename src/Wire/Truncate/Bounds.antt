-- ===== src/Wire/Truncate/Bounds.antt =====
-- src/wire.rs: what `truncate_to` keeps, and how long its result is.
use dnsrivet.Prelude.{
  ℕ, ◌≤◌, ◌≡◌, arith, max, inl, inr, Bytes, [], ◌∷◌, length, byte, set, write, replicate, bit_or,
  length-write, length-set, length-take, Option-cases,
}
use dnsrivet.Wire.Read.{header_len}
use dnsrivet.Wire.Record.{questions_end}
use dnsrivet.Wire.Truncate.{mark_truncated, drop_questions, cut, truncate_to}

length-mark_truncated : (m : Bytes) → length (mark_truncated m) ≡ length m
unfolding mark_truncated
length-mark_truncated m = ground (
  arith,
  length-write (replicate 6 0) (set m 2 (bit_or (byte m 2) 2)) 6,
  length-set m 2 (bit_or (byte m 2) 2),
)

length-cut : (m : Bytes) (limit : ℕ) → length (cut m limit) ≤ max limit header_len
unfolding cut drop_questions
length-cut m limit = elim (Option-cases (questions_end m)) [
  | inl e ↦ ground (arith, length-take {0} header_len (write m 4 (0 ∷ 0 ∷ [])))
  | inr (end, e) ↦
      ground (arith, length-take {0} header_len (write m 4 (0 ∷ 0 ∷ [])), length-take {0} end m)
]

-- A message of at most `limit` bytes is left alone; the result is never longer than `limit`, or
-- than a header where `limit` is less.
pub length-truncate_to :
    (m : Bytes) (limit : ℕ)
    → (length m ≤ limit → truncate_to m limit ≡ m)
      × (length (truncate_to m limit) ≤ max limit header_len)
unfolding truncate_to
length-truncate_to m limit = ground (arith, length-cut (mark_truncated m) limit)
