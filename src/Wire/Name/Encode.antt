-- ===== src/Wire/Name/Encode.antt =====
-- src/wire.rs: `read_name` reads back every uncompressed name that fits its limits.
use dnsrivet.Prelude.{
  ℕ, zero, suc, ◌+◌, ◌-◌, ◌≤◌, ◌<◌, ◌≡◌, refl, ◌∙◌, arith, none, some, Bytes, List, [], ◌∷◌, ◌++◌,
  map, length, slice?, get_elem?, length-append, take-length-append, drop-length-append,
  get_elem?-append_right, label_bits,
}
use mathlib.Core.List.{append_assoc}
use dnsrivet.Wire.Name.{
  Walk, done, next, label_step, walk_round, walk_loop, walk_fuel, walk_name, read_name, copy_label,
  lower,
}

-- The wire form of a list of labels, root included.
unfoldable pub encode : List Bytes → Bytes
encode [] = 0 ∷ []
encode (l ∷ ls) = length l ∷ (l ++ encode ls)

-- Labels have 1 to 63 bytes.
abbrev pub ValidLabels : List Bytes → Type 0
ValidLabels [] = Unit
ValidLabels (l ∷ ls) = (0 < length l) × (length l < 64) × ValidLabels ls

-- The walk before the labels: it has followed no pointer.
abbrev at_cursor : ℕ → Bytes → Walk Bytes
at_cursor cursor acc = record {
  cursor = cursor;
  end = none;
  jumps = 0;
  name_len = length acc;
  visited = acc;
}

get_elem?-length : (pre rest : Bytes) (b : ℕ) → get_elem? (pre ++ (b ∷ rest)) (length pre) ≡ some b
get_elem?-length pre rest b =
    let e : length pre + 0 ≡ length pre = omega arith in
    rw e at (get_elem?-append_right pre (b ∷ rest) 0)

slice?-length :
    (pre s rest : Bytes) → slice? (pre ++ (s ++ rest)) (length pre) (length pre + length s) ≡ some s
unfolding slice?
slice?-length pre s rest =
    let e : length pre + length s - length pre ≡ length s = omega arith in
    rw (e, drop-length-append pre (s ++ rest), take-length-append s rest)
      (ground (arith, length-append {0} pre (s ++ rest), length-append {0} s rest))

walk_round_root :
    (pre rest acc : Bytes)
    → walk_round (pre ++ (0 ∷ rest)) copy_label (at_cursor (length pre) acc)
      ≡ done (length pre + 1) (acc ++ (0 ∷ []))
unfolding walk_round
walk_round_root pre rest acc = ground (arith, get_elem?-length pre rest 0, label_bits 0)

walk_round_label :
    (pre l rest acc : Bytes)
    → 0 < length l
    → length l < 64
    → length acc + 1 + length l < 255
    → walk_round (pre ++ (length l ∷ (l ++ rest))) copy_label (at_cursor (length pre) acc)
      ≡ next (at_cursor (length pre + 1 + length l) (acc ++ (length l ∷ l)))
unfolding walk_round label_step
walk_round_label pre l rest acc pos short room =
    let e : length pre + suc (length l) ≡ length pre + 1 + length l = omega arith in
    ground (
      arith,
      get_elem?-length pre (l ++ rest) (length l),
      label_bits (length l),
      rw e at (slice?-length pre (length l ∷ l) rest),
      length-append {0} acc (length l ∷ l),
    )

encode_pos : (ls : List Bytes) → 0 < length (encode ls)
unfolding encode
encode_pos [] = omega arith
encode_pos (l ∷ ls) = omega arith

length-le-encode : (ls : List Bytes) → length ls ≤ length (encode ls)
unfolding encode
length-le-encode [] = omega arith
length-le-encode (l ∷ ls) = omega (arith, length-le-encode ls, length-append {0} l (encode ls))

module _ (m : Bytes) where
  walk_loop-encode :
      (fuel : ℕ) (ls : List Bytes) (pre rest acc : Bytes)
      → ValidLabels ls
      → length acc + length (encode ls) ≤ 255
      → length ls < fuel
      → m ≡ pre ++ (encode ls ++ rest)
      → walk_loop m copy_label fuel (at_cursor (length pre) acc)
        ≡ done (length pre + length (encode ls)) (acc ++ encode ls)
  unfolding walk_loop encode
  walk_loop-encode zero ls pre rest acc v room lt h = elim lt [ ]
  walk_loop-encode (suc fuel) [] pre rest acc v room lt h =
      let round : walk_round m copy_label (at_cursor (length pre) acc)
          ≡ done (length pre + 1) (acc ++ (0 ∷ [])) =
        rw h (walk_round_root pre rest acc) in
      rw (round, walk_loop)
  walk_loop-encode (suc fuel) (l ∷ ls) pre rest acc v room lt h =
      let s = length l ∷ l in
      let behind = encode ls ++ rest in
      let h1 : m ≡ pre ++ (length l ∷ (l ++ behind)) = h ∙ simp append_assoc in
      let h2 : m ≡ (pre ++ s) ++ behind = h1 ∙ simp append_assoc in
      let fits : length acc + 1 + length l < 255 =
        omega (arith, encode_pos ls, length-append {0} l (encode ls)) in
      let c : length pre + 1 + length l ≡ length (pre ++ s) =
        omega (arith, length-append {0} pre s) in
      let round : walk_round m copy_label (at_cursor (length pre) acc)
          ≡ next (at_cursor (length (pre ++ s)) (acc ++ s)) =
        rw (h1, ← c) (walk_round_label pre l behind acc v.0 v.1 fits) in
      let rest_room : length (acc ++ s) + length (encode ls) ≤ 255 =
        omega (arith, length-append {0} acc s, length-append {0} l (encode ls)) in
      let e : length (pre ++ s) + length (encode ls) ≡ length pre + suc (length (l ++ encode ls)) =
        omega (arith, length-append {0} pre s, length-append {0} l (encode ls)) in
      rw (round, walk_loop)
        (walk_loop-encode fuel ls (pre ++ s) rest (acc ++ s) v.2 rest_room (omega arith) h2
          ∙ rw (e, append_assoc acc s (encode ls)))

-- A name of valid labels and at most 255 bytes, wherever it stands in a message, is read in full: in
-- lowercase, and up to the byte behind its root label.
pub read_name-encode :
    (pre : Bytes) (ls : List Bytes) (rest : Bytes)
    → ValidLabels ls
    → length (encode ls) ≤ 255
    → read_name (pre ++ (encode ls ++ rest)) (length pre)
      ≡ some (map lower (encode ls), length pre + length (encode ls))
unfolding read_name walk_name
read_name-encode pre ls rest v room = rw (
    walk_loop-encode (pre ++ (encode ls ++ rest)) walk_fuel ls pre rest [] v (omega arith)
      (omega (arith, length-le-encode ls)) refl)
