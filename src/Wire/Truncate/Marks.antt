-- ===== src/Wire/Truncate/Marks.antt =====
-- src/wire.rs: what a client reads in a response that `truncate_to` cut.
use dnsrivet.Prelude.{
  ℕ, zero, suc, ◌+◌, ◌≤◌, ◌<◌, ◌≡◌, refl, ap, ◌∙◌, arith, some, inl, inr, ◌⊎◌, Bytes, IsBytes, [],
  ◌∷◌, length, byte, get_elem?, set, write, replicate, leb, bit_or, bit_and, Option-cases,
  get_elem?-take, get_elem?-write_inside, get_elem?-set_ne, get_elem?-set_self, length-set,
  get_elem?-write_outside, guard, tc_set, byte-lt, >>=-eq-some,
}
use dnsrivet.Wire.Read.{header_len, read_u16}
use dnsrivet.Wire.Name.{skip_name}
use dnsrivet.Wire.Record.{questions_end, skip_questions, total_rr_count}
use dnsrivet.Wire.Record.Layout.{skip_name_bounds}
use dnsrivet.Wire.Truncate.{mark_truncated, drop_questions, cut, truncate_to}

skip_questions-le : (m : Bytes) (count o : ℕ) {e : ℕ} → skip_questions m count o ≡ some e → o ≤ e
unfolding skip_questions
skip_questions-le m zero o h = ground arith
skip_questions-le m (suc count) o h =
    let (p, ep, h1) = >>=-eq-some (skip_name m o) _ h in
    let (_, _, h2) = >>=-eq-some (guard (leb (p + 4) (length m))) _ h1 in
    omega (arith, skip_name_bounds m o ep, skip_questions-le m count (p + 4) h2)

questions_end-le : (m : Bytes) {e : ℕ} → questions_end m ≡ some e → 12 ≤ e
unfolding questions_end
questions_end-le m h =
    let (n, _, h1) = >>=-eq-some (read_u16 m 4) _ h in skip_questions-le m n header_len h1

-- The cut leaves the header as it is, up to the question count.
drop_questions_header :
    (m : Bytes) (i : ℕ)
    → (i < 4) ⊎ (6 ≤ i)
    → i < 12
    → get_elem? (drop_questions m) i ≡ get_elem? m i
unfolding drop_questions
drop_questions_header m i out h =
    get_elem?-take 12 (write m 4 (0 ∷ 0 ∷ [])) i h
    ∙ get_elem?-write_outside (0 ∷ 0 ∷ []) m 4 i (omega arith)

cut_header :
    (m : Bytes) (limit i : ℕ)
    → (i < 4) ⊎ (6 ≤ i)
    → i < 12
    → get_elem? (cut m limit) i ≡ get_elem? m i
unfolding cut
cut_header m limit i out h = elim (Option-cases (questions_end m)) [
  | inl e ↦ ground (arith, e, drop_questions_header m i out h)
  | inr (end, e) ↦
      ground (
        arith,
        e,
        drop_questions_header m i out h,
        get_elem?-take {0} end m i,
        questions_end-le m e,
      )
]

get_elem?-mark_low :
    (m : Bytes) (i : ℕ)
    → i < 6
    → get_elem? (mark_truncated m) i ≡ get_elem? (set m 2 (bit_or (byte m 2) 2)) i
unfolding mark_truncated
get_elem?-mark_low m i h =
    get_elem?-write_outside (replicate 6 0) (set m 2 (bit_or (byte m 2) 2)) 6 i (inl h)

-- The marks on a header, byte by byte.
marked :
    (m : Bytes)
    → 12 ≤ length m
    → (get_elem? (mark_truncated m) 0 ≡ get_elem? m 0)
      × (get_elem? (mark_truncated m) 1 ≡ get_elem? m 1)
      × (get_elem? (mark_truncated m) 2 ≡ some (bit_or (byte m 2) 2))
      × ((i : ℕ) → i < 6 → get_elem? (mark_truncated m) (6 + i) ≡ get_elem? (replicate 6 0) i)
unfolding mark_truncated
marked m h =
    let flags = bit_or (byte m 2) 2 in
    let keep = get_elem?-mark_low m in
    (
      keep 0 (omega arith) ∙ get_elem?-set_ne m 2 0 flags (λ e. absurd (omega arith)),
      keep 1 (omega arith) ∙ get_elem?-set_ne m 2 1 flags (λ e. absurd (omega arith)),
      keep 2 (omega arith) ∙ get_elem?-set_self m 2 flags (omega arith),
      λ i lt.
          get_elem?-write_inside (replicate 6 0) (set m 2 flags) 6 i
            (omega (arith, length-set m 2 flags)) lt,
    )

cut_long :
    (m : Bytes) (limit : ℕ)
    → 12 ≤ length m
    → limit < length m
    → truncate_to m limit ≡ cut (mark_truncated m) limit
unfolding truncate_to
cut_long m limit h long = ground arith

-- The header of a response that was cut.
pub truncated_header :
    (m : Bytes) (limit : ℕ)
    → 12 ≤ length m
    → limit < length m
    → (get_elem? (truncate_to m limit) 0 ≡ get_elem? m 0)
      × (get_elem? (truncate_to m limit) 1 ≡ get_elem? m 1)
      × (get_elem? (truncate_to m limit) 2 ≡ some (bit_or (byte m 2) 2))
      × ((i : ℕ) → i < 6 → get_elem? (truncate_to m limit) (6 + i) ≡ get_elem? (replicate 6 0) i)
truncated_header m limit h long =
    let is_cut : truncate_to m limit ≡ cut (mark_truncated m) limit = cut_long m limit h long in
    let (a, b, c, zeros) = marked m h in
    let kept = cut_header (mark_truncated m) limit in
    (
      ap (λ x. get_elem? x 0) is_cut ∙ (kept 0 (inl (omega arith)) (omega arith) ∙ a),
      ap (λ x. get_elem? x 1) is_cut ∙ (kept 1 (inl (omega arith)) (omega arith) ∙ b),
      ap (λ x. get_elem? x 2) is_cut ∙ (kept 2 (inl (omega arith)) (omega arith) ∙ c),
      λ i lt.
          ap (λ x. get_elem? x (6 + i)) is_cut
          ∙ (kept (6 + i) (inr (omega arith)) (omega arith) ∙ zeros i lt),
    )

get_or-get_elem? : (m : Bytes) (i : ℕ) {b : ℕ} → get_elem? m i ≡ some b → byte m i ≡ b
get_or-get_elem? [] i h = absurd (ground arith)
get_or-get_elem? (x ∷ xs) zero h = ground arith
get_or-get_elem? (x ∷ xs) (suc i) h = get_or-get_elem? xs i h

-- A response that is too long and has a header keeps its ID, has the TC flag set, and counts no
-- records behind its questions.
pub truncate_to-marks :
    (m : Bytes) (limit : ℕ)
    → IsBytes m
    → 12 ≤ length m
    → limit < length m
    → (read_u16 (truncate_to m limit) 0 ≡ read_u16 m 0)
      × (bit_and (byte (truncate_to m limit) 2) 2 ≡ 2)
      × (total_rr_count (truncate_to m limit) ≡ some 0)
unfolding read_u16 total_rr_count
truncate_to-marks m limit bytes h long =
    let (a, b, c, zeros) = truncated_header m limit h long in
    (
      rw (a, b) refl,
      rw (get_or-get_elem? (truncate_to m limit) 2 c) (tc_set (byte m 2) (byte-lt m 2 bytes)),
      rw
          (
            zeros 0 (omega arith),
            zeros 1 (omega arith),
            zeros 2 (omega arith),
            zeros 3 (omega arith),
            zeros 4 (omega arith),
            zeros 5 (omega arith),
          )
          refl,
    )
