-- ===== src/Prelude/Texts.antt =====
-- Text, `&str` and `String`, as the list of its code points, with the methods of `str` that the
-- source calls.
use Prim.Native.Nat.{ℕ, ◌+◌, ◌-◌, ◌*◌, ◌<◌}
use Prim.Native.Char.{code}
use Prim.Native.String.{String}
use mathlib.Core.Path.{◌≡◌, refl}
use mathlib.Core.Logic.{inl, inr}
use mathlib.Core.Bool.{Bool, true, false, ◌&&◌, ◌||◌}
use mathlib.Core.Option.{Option, none, some}
use mathlib.Core.List.{List, [], ◌∷◌, reverse}
use native.Mathlib.Omega.{arith}
use dnsrivet.Prelude.Tests.{leb, ltb, ◌==◌, if◌then◌else◌, Bool-cases}
use dnsrivet.Prelude.Buffers.{eq_bytes, eq_bytes_self, eq_bytes→eq}

abbrev pub Text : Type 0
Text = List ℕ

-- The code points of a literal.
abbrev pub codes : String → Text
codes String.[] = []
codes (String.◌∷◌ c s) = code c ∷ codes s

abbrev pub eq_text : Text → Text → Bool
eq_text = eq_bytes

-- `char::is_whitespace`
unfoldable pub is_whitespace : ℕ → Bool
is_whitespace c =
    (leb 9 c && leb c 13)
    || c == 32
    || c == 0x85
    || c == 0xa0
    || c == 0x1680
    || (leb 0x2000 c && leb c 0x200a)
    || c == 0x2028
    || c == 0x2029
    || c == 0x202f
    || c == 0x205f
    || c == 0x3000

unfoldable pub trim_start : Text → Text
trim_start [] = []
trim_start (c ∷ s) = elim (is_whitespace c) [ true ↦ trim_start s | false ↦ c ∷ s ]

unfoldable pub trim : Text → Text
unfolding trim_start is_whitespace
trim s = reverse (trim_start (reverse (trim_start s)))

unfoldable pub is_empty : Text → Bool
is_empty [] = true
is_empty (_ ∷ _) = false

unfoldable pub strip_prefix : Text → Text → Option Text
strip_prefix [] s = some s
strip_prefix (c ∷ prefix) [] = none
strip_prefix (c ∷ prefix) (d ∷ s) =
    let rest = strip_prefix prefix s in if c == d then rest else none

unfoldable pub starts_with : Text → Text → Bool
unfolding strip_prefix
starts_with prefix s = elim (strip_prefix prefix s) [ none ↦ false | some _ ↦ true ]

abbrev with_head : ℕ → Option (Text × Text) → Option (Text × Text)
with_head c none = none
with_head c (some (left, right)) = some (c ∷ left, right)

-- `split_once` at a character
unfoldable pub split_once : ℕ → Text → Option (Text × Text)
split_once c [] = none
split_once c (d ∷ s) =
    let rest = with_head d (split_once c s) in if d == c then some ([], s) else rest

-- `split_once` at a text
unfoldable pub split_once_text : Text → Text → Option (Text × Text)
unfolding strip_prefix
split_once_text sep [] = elim (strip_prefix sep []) [ none ↦ none | some right ↦ some ([], right) ]
split_once_text sep (c ∷ s) = elim (strip_prefix sep (c ∷ s)) [
  | none ↦ with_head c (split_once_text sep s)
  | some right ↦ some ([], right)
]

-- `rsplit_once` at a character
unfoldable pub rsplit_once : ℕ → Text → Option (Text × Text)
rsplit_once c [] = none
rsplit_once c (d ∷ s) = elim (rsplit_once c s) [
  | none ↦ if d == c then some ([], s) else none
  | some (left, right) ↦ some (d ∷ left, right)
]

unfoldable pub contains_char : ℕ → Text → Bool
contains_char c [] = false
contains_char c (d ∷ s) = d == c || contains_char c s

-- `matches(c).count()`
unfoldable pub count_char : ℕ → Text → ℕ
count_char c [] = 0
count_char c (d ∷ s) = (if d == c then 1 else 0) + count_char c s

abbrev head_is : ℕ → Text → Bool
head_is c [] = false
head_is c (d ∷ _) = d == c

abbrev onto_first : ℕ → List Text → List Text
onto_first c [] = (c ∷ []) ∷ []
onto_first c (line ∷ lines) = (c ∷ line) ∷ lines

-- `lines`: split at line feeds, one carriage return before a line feed belongs to the line's end.
unfoldable pub lines : Text → List Text
lines [] = []
lines (c ∷ s) =
    let rest = lines s in
    if c == 10 then [] ∷ rest else if c == 13 && head_is 10 s then rest else onto_first c rest

unfoldable pub to_ascii_lowercase : Text → Text
to_ascii_lowercase [] = []
to_ascii_lowercase (c ∷ s) = (if leb b'A' c && leb c b'Z' then c + 32 else c) ∷ to_ascii_lowercase s

-- The digits of a number, with `checked` arithmetic below `limit`.
digits_onto : ℕ → ℕ → Text → Option ℕ
digits_onto limit n [] = some n
digits_onto limit n (c ∷ s) =
    let next = n * 10 + (c - 48) in
    elim (leb 48 c && leb c 57 && ltb next limit) [ true ↦ digits_onto limit next s | false ↦ none ]

unsigned : ℕ → Text → Option ℕ
unsigned limit [] = none
unsigned limit (c ∷ s) = digits_onto limit 0 (c ∷ s)

-- `parse` into an unsigned integer below `limit`: one plus sign is allowed.
unfoldable pub parse_unsigned : ℕ → Text → Option ℕ
unfolding unsigned digits_onto
parse_unsigned limit [] = none
parse_unsigned limit (c ∷ s) = if c == b'+' then unsigned limit s else unsigned limit (c ∷ s)

-- `contains` and `iter().any(|x| x == …)` on a list of texts.
unfoldable pub contains_text : List Text → Text → Bool
contains_text [] t = false
contains_text (s ∷ texts) t = eq_text s t || contains_text texts t

-- `==` on lists of texts.
unfoldable pub eq_texts : List Text → List Text → Bool
eq_texts [] [] = true
eq_texts (s ∷ xs) (t ∷ ys) = eq_text s t && eq_texts xs ys
eq_texts _ _ = false

pub eq_texts→eq : (xs ys : List Text) → eq_texts xs ys ≡ true → xs ≡ ys
unfolding eq_texts
eq_texts→eq [] [] h = refl
eq_texts→eq [] (y ∷ ys) h = cc
eq_texts→eq (x ∷ xs) [] h = cc
eq_texts→eq (x ∷ xs) (y ∷ ys) h = ground (arith, eq_bytes→eq x y, eq_texts→eq xs ys)

pub eq_texts_self : (xs : List Text) → eq_texts xs xs ≡ true
unfolding eq_texts
eq_texts_self [] = refl
eq_texts_self (x ∷ xs) = ground (arith, eq_bytes_self x, eq_texts_self xs)

digits_onto_bound :
    (limit n : ℕ) (s : Text) (m : ℕ) → n < limit → digits_onto limit n s ≡ some m → m < limit
unfolding digits_onto
digits_onto_bound limit n [] m h e = ground arith
digits_onto_bound limit n (c ∷ s) m h e =
    elim (Bool-cases (leb 48 c && leb c 57 && ltb (n * 10 + (c - 48)) limit)) [
      | inl digit ↦ digits_onto_bound limit (n * 10 + (c - 48)) s m (ground arith) (ground arith)
      | inr other ↦ absurd (ground arith)
    ]

unsigned_bound : (limit : ℕ) (s : Text) (m : ℕ) → unsigned limit s ≡ some m → m < limit
unfolding unsigned digits_onto
unsigned_bound limit [] m e = absurd (ground arith)
unsigned_bound limit (c ∷ s) m e =
    elim (Bool-cases (leb 48 c && leb c 57 && ltb (0 * 10 + (c - 48)) limit)) [
      | inl digit ↦ digits_onto_bound limit (0 * 10 + (c - 48)) s m (ground arith) (ground arith)
      | inr other ↦ absurd (ground arith)
    ]

pub parse_unsigned_bound :
    (limit : ℕ) (s : Text) (m : ℕ) → parse_unsigned limit s ≡ some m → m < limit
unfolding parse_unsigned
parse_unsigned_bound limit [] m e = absurd (ground arith)
parse_unsigned_bound limit (c ∷ s) m e = elim (Bool-cases (c == b'+')) [
  | inl plus ↦ unsigned_bound limit s m (ground arith)
  | inr digit ↦ unsigned_bound limit (c ∷ s) m (ground arith)
]
