-- ===== src/Prelude/Bits.antt =====
-- Bit tests on bytes, by a table over all bytes.
use Prim.Native.Nat.{ℕ, zero, suc, ◌+◌, ◌/◌, ◌%◌, ◌≤◌, ◌<◌, bit_and, bit_or, bit_xor}
use mathlib.Core.Path.{◌≡◌, refl}
use mathlib.Core.Bool.{Bool, true, false, not, ◌&&◌}
use native.Mathlib.Decide.{dec_le}
use native.Mathlib.Omega.{arith}
use dnsrivet.Prelude.Tests.{leb, ◌==◌, ==_iff}

-- A test of `count` numbers in a row.
passes : (ℕ → Bool) → ℕ → ℕ → Bool
passes test start zero = true
passes test start (suc count) = test start && passes test (start + 1) count

passes_each :
    (test : ℕ → Bool) (count start b : ℕ)
    → passes test start count ≡ true
    → start ≤ b
    → b < start + count
    → test b ≡ true
unfolding passes
passes_each test zero start b all low high = absurd (omega arith)
passes_each test (suc count) start b all low high = elim (dec_le b start) [
  | yes here ↦ let at_start : b ≡ start = omega arith in rw at_start (ground arith)
  | no past ↦ passes_each test count (start + 1) b (ground arith) (omega arith) (omega arith)
]

abbrev every_byte : (ℕ → Bool) → Bool
every_byte test = passes test 0 256

every_byte-lt : (test : ℕ → Bool) (b : ℕ) → every_byte test ≡ true → b < 256 → test b ≡ true
every_byte-lt test b all h = passes_each test 256 0 b all (omega arith) (omega arith)

abbrev same : Bool → Bool → Bool
same true b = b
same false b = not b

qr_table : every_byte (λ b. same (bit_and b 0x80 == 0) (not (leb 128 b))) ≡ true
unfolding passes
qr_table = refl

-- The QR flag is the top bit.
pub qr_clear : (b : ℕ) → b < 256 → (bit_and b 0x80 == 0) ≡ not (leb 128 b)
qr_clear b h =
    ground (arith, every_byte-lt (λ x. same (bit_and x 0x80 == 0) (not (leb 128 x))) b qr_table h)

tc_table : every_byte (λ b. bit_and (bit_or b 0x02) 0x02 == 0x02) ≡ true
unfolding passes
tc_table = refl

-- Setting the TC flag sets it.
pub tc_set : (b : ℕ) → b < 256 → bit_and (bit_or b 0x02) 0x02 ≡ 0x02
tc_set b h = (==_iff _ _).0 (every_byte-lt (λ x. bit_and (bit_or x 0x02) 0x02 == 0x02) b tc_table h)

opcode_test : ℕ → ℕ → Bool
opcode_test a b = same (bit_and (bit_xor a b) 0x78 == 0) (a / 8 % 16 == b / 8 % 16)

opcode_table : every_byte (λ a. every_byte (opcode_test a)) ≡ true
unfolding passes opcode_test
opcode_table = refl

-- Two header bytes agree under the mask 0x78 when their opcodes, bits 3 to 6, are equal.
pub opcode_same :
    (a b : ℕ) → a < 256 → b < 256 → (bit_and (bit_xor a b) 0x78 == 0) ≡ (a / 8 % 16 == b / 8 % 16)
unfolding opcode_test
opcode_same a b h k = ground (
  arith,
  every_byte-lt (opcode_test a) b (every_byte-lt (λ x. every_byte (opcode_test x)) a opcode_table h)
      k,
)

label_table : passes (λ b. bit_and b 0xc0 == 0) 0 64 ≡ true
unfolding passes
label_table = refl

-- A length byte of at most 63 has none of the bits of a compression pointer.
pub label_bits : (n : ℕ) → n < 64 → bit_and n 0xc0 ≡ 0
label_bits n h =
    (==_iff _ _).0
      (passes_each (λ b. bit_and b 0xc0 == 0) 64 0 n label_table (omega arith) (omega arith))

reply_test : ℕ → Bool
reply_test b =
    let r = bit_or (bit_and b 0x79) 0x80 in leb 128 r && not (leb 256 r) && r / 8 % 16 == b / 8 % 16

reply_table : every_byte reply_test ≡ true
unfolding passes reply_test
reply_table = refl

-- The flags of an answer that the proxy makes: QR is set, and the opcode is the query's.
pub reply_bits :
    (b : ℕ)
    → b < 256
    → (128 ≤ bit_or (bit_and b 0x79) 0x80)
      × (bit_or (bit_and b 0x79) 0x80 < 256)
      × (bit_or (bit_and b 0x79) 0x80 / 8 % 16 ≡ b / 8 % 16)
unfolding reply_test
reply_bits b h = ground (arith, every_byte-lt reply_test b reply_table h)
