-- ===== src/Wire/Read.antt =====
-- src/wire.rs: the constants and the big-endian reads. Offsets are `usize` in the source; an
-- offset is at most 65545 behind the end of a message, so no sum of them wraps around.
use dnsrivet.Prelude.{
  ℕ, ◌+◌, ◌*◌, ◌/◌, ◌%◌, ◌≤◌, ◌<◌, ◌≡◌, arith, Option, some, Bytes, IsBytes, length, get_elem?,
  write, set, get_elem?-write_head, ap, length-set, ◌>>=◌, [], ◌∷◌, zero, suc, get_elem?-lt-length,
  get_elem?-some,
}

abbrev pub header_len : ℕ
header_len = 12

abbrev pub type_cname : ℕ
type_cname = 5

abbrev pub type_soa : ℕ
type_soa = 6

abbrev pub type_opt : ℕ
type_opt = 41

unfoldable pub read_u16 : Bytes → ℕ → Option ℕ
read_u16 message offset = do
  a ← get_elem? message offset
  b ← get_elem? message (offset + 1)
  some (a * 256 + b)

unfoldable pub read_u32 : Bytes → ℕ → Option ℕ
read_u32 message offset = do
  a ← get_elem? message offset
  b ← get_elem? message (offset + 1)
  c ← get_elem? message (offset + 2)
  d ← get_elem? message (offset + 3)
  some (((a * 256 + b) * 256 + c) * 256 + d)

-- `u32::to_be_bytes`
unfoldable pub to_be_bytes : ℕ → Bytes
to_be_bytes n = n / 16777216 % 256 ∷ n / 65536 % 256 ∷ n / 256 % 256 ∷ n % 256 ∷ []

pub get_elem?-byte : (m : Bytes) (i : ℕ) {b : ℕ} → IsBytes m → get_elem? m i ≡ some b → b < 256
get_elem?-byte [] i ok h = absurd (ground arith)
get_elem?-byte (x ∷ xs) zero ok h = ground arith
get_elem?-byte (x ∷ xs) (suc i) ok h = get_elem?-byte xs i ok.1 h

pub read_u16-in_range : (m : Bytes) (o : ℕ) {v : ℕ} → read_u16 m o ≡ some v → o + 2 ≤ length m
unfolding read_u16
read_u16-in_range m o h = grind (arith, get_elem?-lt-length {A = ℕ})

-- Two bytes in range can be read.
pub read_u16-some : (m : Bytes) (o : ℕ) → o + 2 ≤ length m → (v : ℕ) × (read_u16 m o ≡ some v)
unfolding read_u16
read_u16-some m o h =
    let (a, ea) = get_elem?-some m o (omega arith) in
    let (b, eb) = get_elem?-some m (o + 1) (omega arith) in (a * 256 + b, rw (ea, eb))

pub read_u32-in_range : (m : Bytes) (o : ℕ) {v : ℕ} → read_u32 m o ≡ some v → o + 4 ≤ length m
unfolding read_u32
read_u32-in_range m o h = grind (arith, get_elem?-lt-length {A = ℕ})

pub read_u32-lt : (m : Bytes) (o : ℕ) {v : ℕ} → IsBytes m → read_u32 m o ≡ some v → v < 4294967296
unfolding read_u32
read_u32-lt m o ok h = grind (arith, get_elem?-byte)

pub to_be_bytes-IsBytes : (v : ℕ) → IsBytes (to_be_bytes v)
unfolding to_be_bytes
to_be_bytes-IsBytes v = omega arith

-- Reads depend on four bytes only.
pub read_u32-cong :
    (m m' : Bytes) (o : ℕ)
    → ((j : ℕ) → o ≤ j → j < o + 4 → get_elem? m' j ≡ get_elem? m j)
    → read_u32 m' o ≡ read_u32 m o
unfolding read_u32
read_u32-cong m m' o h = rw (
  h o (omega arith) (omega arith),
  h (o + 1) (omega arith) (omega arith),
  h (o + 2) (omega arith) (omega arith),
  h (o + 3) (omega arith) (omega arith),
)

module _ (m : Bytes) (o a b c d : ℕ) (fits : o + 4 ≤ length m) where
  written_second : get_elem? (write m o (a ∷ b ∷ c ∷ d ∷ [])) (o + 1) ≡ some b
  unfolding write
  written_second =
      get_elem?-write_head (c ∷ d ∷ []) (set m o a) (o + 1) b (omega (arith, length-set m o a))

  written_third : get_elem? (write m o (a ∷ b ∷ c ∷ d ∷ [])) (o + 2) ≡ some c
  unfolding write
  written_third =
      let m' = set (set m o a) (o + 1) b in
      let e : o + 2 ≡ o + 1 + 1 = omega arith in
      rw e (
        get_elem?-write_head (d ∷ []) m' (o + 1 + 1) c
          (omega (arith, length-set m o a, length-set (set m o a) (o + 1) b)))

  written_fourth : get_elem? (write m o (a ∷ b ∷ c ∷ d ∷ [])) (o + 3) ≡ some d
  unfolding write
  written_fourth =
      let m' = set (set m o a) (o + 1) b in
      let e : o + 3 ≡ o + 1 + 1 + 1 = omega arith in
      rw e (
        get_elem?-write_head [] (set m' (o + 1 + 1) c) (o + 1 + 1 + 1) d (
          omega (
            arith,
            length-set m o a,
            length-set (set m o a) (o + 1) b,
            length-set m' (o + 1 + 1) c,
          )))

-- `from_be_bytes` undoes `to_be_bytes`.
pub read_u32-write :
    (m : Bytes) (o v : ℕ)
    → o + 4 ≤ length m
    → v < 4294967296
    → read_u32 (write m o (to_be_bytes v)) o ≡ some v
unfolding read_u32 to_be_bytes
read_u32-write m o v fits lt =
    let a = v / 16777216 % 256 in
    let b = v / 65536 % 256 in
    let c = v / 256 % 256 in
    let d = v % 256 in
    rw
      (
        get_elem?-write_head (b ∷ c ∷ d ∷ []) m o a (omega arith),
        written_second m o a b c d fits,
        written_third m o a b c d fits,
        written_fourth m o a b c d fits,
      )
      (ap some (omega arith))
