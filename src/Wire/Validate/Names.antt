-- ===== src/Wire/Validate/Names.antt =====
-- src/wire.rs: the label-by-label comparison of `questions_match` is equality of canonical names.
use dnsrivet.Prelude.{
  ℕ, suc, ◌+◌, ◌-◌, ◌≡◌, refl, ap, arith, Option, none, some, inl, inr, Bool, true, false, ◌&&◌,
  Bytes, List, [], ◌∷◌, ◌++◌, length, take, slice?, map, foldl, map_or, leb, ◌==◌, if◌then◌else◌,
  eq_bytes, ◌>>=◌, Option-cases, length-append,
}
use native.Mathlib.Nat.{suc-add}
use dnsrivet.Wire.Read.{header_len}
use dnsrivet.Wire.Name.{lower, copy_label, walk_name, read_name}
use dnsrivet.Wire.Name.Fold.{labels, walk_name-labels}
use dnsrivet.Wire.Name.Canonical.{spelled, read_name-labels}
use dnsrivet.Wire.Validate.{eq_ignore_ascii_case, match_label, questions_match}

-- The second list is a prefix of the first, up to the case of ASCII letters.
unfoldable starts : Bytes → Bytes → Bool
starts name [] = true
starts [] (y ∷ ys) = false
starts (x ∷ xs) (y ∷ ys) = lower x == lower y && starts xs ys

starts_nil : (name : Bytes) → starts name [] ≡ true
unfolding starts
starts_nil [] = refl
starts_nil (x ∷ xs) = refl

slice?_zero :
    (xs : Bytes) (b : ℕ) → slice? xs 0 b ≡ (if leb b (length xs) then some (take b xs) else none)
unfolding slice?
slice?_zero xs b = let e : b - 0 ≡ b = omega arith in rw e (ground arith)

slice?-cons : (x : ℕ) (xs : Bytes) (a b : ℕ) → slice? (x ∷ xs) (suc a) (suc b) ≡ slice? xs a b
unfolding slice?
slice?-cons x xs a b = let e : suc b - suc a ≡ b - a = omega arith in rw e (ground arith)

starts-take :
    (name label : Bytes)
    → starts name label
      ≡ (leb (length label) (length name) && eq_ignore_ascii_case (take (length label) name) label)
unfolding starts eq_ignore_ascii_case
starts-take name [] = ground arith
starts-take [] (y ∷ ys) = ground arith
starts-take (x ∷ xs) (y ∷ ys) = ground (arith, starts-take xs ys)

starts-append :
    (name acc label : Bytes)
    → starts name (acc ++ label) ≡ (
        starts name acc
        && map_or
            (slice? name (length acc) (length acc + length label))
            false
            (λ sent. eq_ignore_ascii_case sent label))
unfolding starts
starts-append name [] label =
    let e : 0 + length label ≡ length label = omega arith in
    rw (e, slice?_zero name (length label))
      (ground (arith, starts-take name label, starts_nil name))
starts-append [] (y ∷ ys) label = refl
starts-append (x ∷ xs) (y ∷ ys) label =
    rw (suc-add, slice?-cons x xs (length ys) (length ys + length label))
      (ground (arith, starts-append xs ys label))

match_label-starts :
    (name acc label : Bytes)
    → match_label name (record { echoed_len = length acc; all_match = starts name acc }) label
      ≡ record { echoed_len = length (acc ++ label); all_match = starts name (acc ++ label) }
unfolding match_label
match_label-starts name acc label = rw (starts-append name acc label, length-append acc label)

foldl-match_label :
    (name : Bytes) (ls : List Bytes) (acc : Bytes)
    → foldl (match_label name) (record { echoed_len = length acc; all_match = starts name acc }) ls
      ≡ record {
        echoed_len = length (foldl copy_label acc ls);
        all_match = starts name (foldl copy_label acc ls);
      }
foldl-match_label name [] acc = refl
foldl-match_label name (l ∷ ls) acc =
    rw (match_label-starts name acc l) (foldl-match_label name ls (acc ++ l))

starts-eq_bytes :
    (xs ys : Bytes)
    → (starts xs ys && length xs == length ys) ≡ eq_bytes (map lower xs) (map lower ys)
unfolding starts eq_bytes
starts-eq_bytes [] [] = refl
starts-eq_bytes [] (y ∷ ys) = refl
starts-eq_bytes (x ∷ xs) [] = ground arith
starts-eq_bytes (x ∷ xs) (y ∷ ys) = ground (arith, starts-eq_bytes xs ys)

walk_name-match_label :
    (name m : Bytes) (o : ℕ)
    → walk_name m (match_label name) o (record { echoed_len = 0; all_match = true }) ≡ (
        labels m o >>= λ r.
        some (
          r.0,
          record { echoed_len = length (spelled r.1); all_match = starts name (spelled r.1) },
        ))
walk_name-match_label name m o =
    rw (walk_name-labels m (match_label name) (record { echoed_len = 0; all_match = true }) o)
      (elim (Option-cases (labels m o)) [
        | inl e ↦ rw e
        | inr (r, e) ↦
            rw e (ap (λ s. some (r.0, s)) (rw (starts_nil name) at (foldl-match_label name r.1 [])))
      ])

-- The question in canonical form: the name that `read_name` gives, and the bytes of type and class.
unfoldable pub canonical_question : Bytes → Option (Bytes × Bytes)
canonical_question m = do
  (name, e) ← read_name m header_len
  fields ← slice? m e (e + 4)
  some (name, fields)

abbrev pub same_question : Bytes × Bytes → Bytes × Bytes → Bool
same_question a b = eq_bytes a.0 b.0 && eq_bytes a.1 b.1

-- `questions_match` compares the canonical forms of the two questions, which it never builds. It
-- gives no answer exactly where one of the questions is malformed.
pub questions_match-canonical :
    (query response : Bytes)
    → questions_match query response ≡ (
        canonical_question query >>= λ a.
        canonical_question response >>= λ b. some (same_question a b))
unfolding questions_match canonical_question
questions_match-canonical query response =
    rw
      (
        read_name-labels query header_len,
        read_name-labels response header_len,
        walk_name-labels query copy_label [] header_len,
      )
      (elim (Option-cases (labels query header_len)) [
        | inl e ↦ rw e
        | inr (q, e) ↦
            rw (e, walk_name-match_label (spelled q.1) response header_len)
              (elim (Option-cases (labels response header_len)) [
                | inl e' ↦ ground (arith, e')
                | inr (r, e') ↦ ground (arith, e', starts-eq_bytes (spelled q.1) (spelled r.1))
              ])
      ])
