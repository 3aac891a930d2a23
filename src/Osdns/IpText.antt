-- ===== src/Osdns/IpText.antt =====
-- The text of IP addresses as the standard library reads and prints it: `str::parse` into
-- `IpAddr` and `Ipv6Addr`, and `to_string`.
use mathlib.Core.List.{reverse}
use dnsrivet.Prelude.{
  ℕ, zero, suc, ◌+◌, ◌-◌, ◌*◌, ◌/◌, ◌%◌, Bool, true, false, ◌&&◌, ◌||◌, not, ltb, leb, ◌==◌,
  if◌then◌else◌, Option, none, some, ◌>>=◌, List, [], ◌∷◌, ◌++◌, foldl, length, take, drop,
  replicate,
}
use dnsrivet.Prelude.Texts.{Text, codes, strip_prefix}
use dnsrivet.Upstream.Net.{IpAddr, v4, v6}

digit : ℕ → ℕ → Option ℕ
digit radix c =
    let d = if leb c b'9' then c - b'0' else c - b'a' + 10 in
    let upper = c - b'A' + 10 in
    if leb b'0' c && leb c b'9'
    then some d
    else if leb b'a' c && ltb d radix
    then some d
    else if leb b'A' c && leb c b'Z' && ltb upper radix
    then some upper
    else none

-- The digits that stand next: their number, at most `most`, and their value, below `limit`.
digits_onto : ℕ → ℕ → ℕ → ℕ → ℕ → Text → Option (ℕ × ℕ × Text)
digits_onto radix most limit count n [] = some (count, n, [])
digits_onto radix most limit count n (c ∷ s) = elim (digit radix c) [
  | none ↦ some (count, n, c ∷ s)
  | some d ↦ elim (ltb (n * radix + d) limit && ltb count most) [
    | true ↦ digits_onto radix most limit (count + 1) (n * radix + d) s
    | false ↦ none
  ]
]

starts_with_zero : Text → Bool
starts_with_zero [] = false
starts_with_zero (c ∷ _) = c == b'0'

read_number : ℕ → ℕ → ℕ → Bool → Text → Option (ℕ × Text)
read_number radix most limit zeros s = do
  (count, n, rest) ← digits_onto radix most limit 0 0 s
  if count == 0 || (not zeros && starts_with_zero s && ltb 1 count) then none else some (n, rest)

octet : Text → Option (ℕ × Text)
octet = read_number 10 3 256 false

read_v4 : Text → Option (ℕ × Text)
read_v4 s = do
  (a, s₁) ← octet s
  (b, s₂) ← strip_prefix (codes ".") s₁ >>= octet
  (c, s₃) ← strip_prefix (codes ".") s₂ >>= octet
  (d, s₄) ← strip_prefix (codes ".") s₃ >>= octet
  some (((a * 256 + b) * 256 + c) * 256 + d, s₄)

separated : {A : Type 0} → Bool → (Text → Option A) → Text → Option A
separated first read s = if first then read s else strip_prefix (codes ":") s >>= read

-- Up to `count` groups of 16 bits, the last two possibly in the form of an IPv4 address.
groups : ℕ → Bool → Text → List ℕ × Bool × Text
groups zero first s = ([], false, s)
groups (suc k) first s = elim (if ltb 0 k then separated first read_v4 s else none) [
  | some (n, rest) ↦ (n / 65536 ∷ n % 65536 ∷ [], true, rest)
  | none ↦ elim (separated first (read_number 16 4 65536 true) s) [
    | none ↦ ([], false, s)
    | some (g, rest) ↦ let (gs, mapped, rest') = groups k false rest in (g ∷ gs, mapped, rest')
  ]
]

abbrev from_groups : List ℕ → ℕ
from_groups = foldl (λ n g. n * 65536 + g) 0

read_v6 : Text → Option (ℕ × Text)
read_v6 s =
    let (head_groups, mapped, rest) = groups 8 true s in
    if length head_groups == 8
    then some (from_groups head_groups, rest)
    else if mapped
    then none
    else do
      after ← strip_prefix (codes "::") rest
      let (tail_groups, _, rest') = groups (7 - length head_groups) true after
      let gap = 8 - length head_groups - length tail_groups
      some (from_groups (head_groups ++ (replicate gap 0 ++ tail_groups)), rest')

whole : {A : Type 0} → Option (A × Text) → Option A
whole none = none
whole (some (a, [])) = some a
whole (some (a, _ ∷ _)) = none

-- `parse::<Ipv6Addr>()`
unfoldable pub parse_v6 : Text → Option ℕ
unfolding whole read_v6 groups separated read_v4 octet read_number digits_onto digit
    starts_with_zero
parse_v6 s = whole (read_v6 s)

-- `parse::<IpAddr>()`
unfoldable pub parse_ip : Text → Option IpAddr
unfolding whole read_v6 groups separated read_v4 octet read_number digits_onto digit
    starts_with_zero
parse_ip s = elim (read_v4 s) [
  | some (n, rest) ↦ whole (some (v4 n, rest))
  | none ↦ whole (read_v6 s >>= λ (n, rest). some (v6 n, rest))
]

digit_text : ℕ → ℕ
digit_text d = if ltb d 10 then b'0' + d else b'a' + (d - 10)

-- The digits of a number, the lowest first; `fuel` bounds their count.
digits_text : ℕ → ℕ → ℕ → Text
digits_text zero radix n = []
digits_text (suc fuel) radix n =
    let more = digits_text fuel radix (n / radix) in
    digit_text (n % radix) ∷ (if n / radix == 0 then [] else more)

-- `to_string` of an unsigned number: twenty digits are enough for 64 bits.
unfoldable pub show_unsigned : ℕ → ℕ → Text
unfolding digits_text digit_text
show_unsigned radix n = reverse (digits_text 20 radix n)

show_v4 : ℕ → Text
unfolding show_unsigned
show_v4 n =
    show_unsigned 10 (n / 16777216)
    ++ (codes "."
        ++ (show_unsigned 10 (n / 65536 % 256)
            ++ (codes "."
                ++ (show_unsigned 10 (n / 256 % 256)
                    ++ (codes "." ++ show_unsigned 10 (n % 256))))))

-- The eight groups of 16 bits, the highest first.
groups_of : ℕ → ℕ → List ℕ → List ℕ
groups_of zero n out = out
groups_of (suc k) n out = groups_of k (n / 65536) (n % 65536 ∷ out)

zeros_here : List ℕ → ℕ
zeros_here [] = 0
zeros_here (g ∷ gs) = let rest = zeros_here gs in if g == 0 then suc rest else 0

-- The first of the longest runs of zero groups: its start and its length.
longest_zeros : ℕ → List ℕ → ℕ × ℕ → ℕ × ℕ
longest_zeros i [] best = best
longest_zeros i (g ∷ gs) best =
    let here = zeros_here (g ∷ gs) in
    longest_zeros (i + 1) gs (if ltb best.1 here then (i, here) else best)

join_groups : List ℕ → Text
join_groups [] = []
join_groups (g ∷ []) = show_unsigned 16 g
join_groups (g ∷ h ∷ gs) = show_unsigned 16 g ++ (codes ":" ++ join_groups (h ∷ gs))

show_v6 : ℕ → Text
unfolding show_v4 groups_of zeros_here longest_zeros join_groups
show_v6 n =
    let gs = groups_of 8 n [] in
    let (start, run) = longest_zeros 0 gs (0, 0) in
    if n / 4294967296 == 65535
    then codes "::ffff:" ++ show_v4 (n % 4294967296)
    else if ltb 1 run
    then join_groups (take start gs) ++ (codes "::" ++ join_groups (drop (start + run) gs))
    else join_groups gs

-- `to_string` of an `IpAddr`
unfoldable pub show_ip : IpAddr → Text
unfolding show_v4 show_v6
show_ip (v4 n) = show_v4 n
show_ip (v6 n) = show_v6 n
