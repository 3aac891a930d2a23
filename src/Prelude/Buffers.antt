-- ===== src/Prelude/Buffers.antt =====
-- Byte strings, `&[u8]` and `Vec<u8>`, as lists of numbers: reads, slices and writes.
use Prim.Native.Nat.{ℕ, zero, suc, ◌+◌, ◌-◌, ◌≤◌, ◌<◌}
use mathlib.Core.Path.{◌≡◌, refl, sym, ap, ◌∙◌}
use mathlib.Core.Logic.{◌⊎◌, inl}
use mathlib.Core.Bool.{Bool, true, false, ◌&&◌}
use mathlib.Core.List.{List, [], ◌∷◌}
use mathlib.Core.Option.{Option, none, some}
use native.Mathlib.Nat.{add-zero}
use native.Mathlib.Omega.{arith}
use dnsrivet.Prelude.Tests.{leb, ◌==◌, if◌then◌else◌}
use dnsrivet.Prelude.Lists.{
  length, get_elem?, get_or, set, take, drop, length-set, get_elem?-set_ne, get_elem?-set_self,
  length-take, length-drop,
}

abbrev pub Bytes : Type 0
Bytes = List ℕ

-- Every entry is a `u8`.
abbrev pub IsBytes : Bytes → Type 0
IsBytes [] = Unit
IsBytes (b ∷ bs) = (b < 256) × IsBytes bs

-- `bytes[i]` where the code has checked that `i` is in range.
abbrev pub byte : Bytes → ℕ → ℕ
byte m i = get_or m i 0

-- `bytes.get(a..b)`
unfoldable pub slice? : Bytes → ℕ → ℕ → Option Bytes
slice? m a b = if leb a b && leb b (length m) then some (take (b - a) (drop a m)) else none

-- `bytes[i..i + src.len()].copy_from_slice(src)` where the code has checked the range.
unfoldable pub write : Bytes → ℕ → Bytes → Bytes
write m i [] = m
write m i (b ∷ bs) = write (set m i b) (i + 1) bs

-- `==` on byte strings.
unfoldable pub eq_bytes : Bytes → Bytes → Bool
eq_bytes [] [] = true
eq_bytes (x ∷ xs) (y ∷ ys) = x == y && eq_bytes xs ys
eq_bytes _ _ = false

pub length-write : (bs m : Bytes) (i : ℕ) → length (write m i bs) ≡ length m
unfolding write
length-write [] m i = refl
length-write (b ∷ bs) m i = length-write bs (set m i b) (i + 1) ∙ length-set m i b

-- A write leaves every byte outside its range alone.
pub get_elem?-write_outside :
    (bs m : Bytes) (i j : ℕ)
    → (j < i) ⊎ (i + length bs ≤ j)
    → get_elem? (write m i bs) j ≡ get_elem? m j
unfolding write
get_elem?-write_outside [] m i j h = refl
get_elem?-write_outside (b ∷ bs) m i j h =
    get_elem?-write_outside bs (set m i b) (i + 1) j (omega arith)
    ∙ get_elem?-set_ne m i j b (omega arith)

pub get_elem?-write_head :
    (bs m : Bytes) (i b : ℕ) → i < length m → get_elem? (write m i (b ∷ bs)) i ≡ some b
unfolding write
get_elem?-write_head bs m i b h =
    get_elem?-write_outside bs (set m i b) (i + 1) i (inl (omega arith))
    ∙ get_elem?-set_self m i b h

-- The bytes of a write that fits are read back.
pub get_elem?-write_inside :
    (bs m : Bytes) (i j : ℕ)
    → i + length bs ≤ length m
    → j < length bs
    → get_elem? (write m i bs) (i + j) ≡ get_elem? bs j
unfolding write
get_elem?-write_inside [] m i j room h = absurd (omega arith)
get_elem?-write_inside (b ∷ bs) m i zero room h =
    rw add-zero (get_elem?-write_head bs m i b (omega arith))
get_elem?-write_inside (b ∷ bs) m i (suc j) room h =
    let next : i + 1 + j ≡ i + suc j = omega arith in
    ap (get_elem? (write (set m i b) (i + 1) bs)) (sym next)
    ∙ get_elem?-write_inside bs (set m i b) (i + 1) j (omega (arith, length-set m i b))
        (omega arith)

pub eq_bytes_self : (xs : Bytes) → eq_bytes xs xs ≡ true
unfolding eq_bytes
eq_bytes_self [] = refl
eq_bytes_self (x ∷ xs) = ground (arith, eq_bytes_self xs)

pub eq_bytes→eq : (xs ys : Bytes) → eq_bytes xs ys ≡ true → xs ≡ ys
unfolding eq_bytes
eq_bytes→eq [] [] h = refl
eq_bytes→eq [] (y ∷ ys) h = cc
eq_bytes→eq (x ∷ xs) [] h = cc
eq_bytes→eq (x ∷ xs) (y ∷ ys) h = ground (arith, eq_bytes→eq xs ys)

pub length-slice? :
    (m : Bytes) (a b : ℕ) {s : Bytes} → slice? m a b ≡ some s → (length s + a ≡ b) × (b ≤ length m)
unfolding slice?
length-slice? m a b h = ground (arith, length-take {0} (b - a) (drop a m), length-drop {0} a m)

pub IsBytes-set : (m : Bytes) (i b : ℕ) → IsBytes m → b < 256 → IsBytes (set m i b)
IsBytes-set [] i b ok h = tt
IsBytes-set (x ∷ xs) zero b ok h = (h, ok.1)
IsBytes-set (x ∷ xs) (suc i) b ok h = (ok.0, IsBytes-set xs i b ok.1 h)

pub IsBytes-write : (bs m : Bytes) (i : ℕ) → IsBytes m → IsBytes bs → IsBytes (write m i bs)
unfolding write
IsBytes-write [] m i ok h = ok
IsBytes-write (b ∷ bs) m i ok h =
    IsBytes-write bs (set m i b) (i + 1) (IsBytes-set m i b ok h.0) h.1

pub byte-lt : (m : Bytes) (i : ℕ) → IsBytes m → byte m i < 256
byte-lt [] i ok = omega arith
byte-lt (x ∷ xs) zero ok = ok.0
byte-lt (x ∷ xs) (suc i) ok = byte-lt xs i ok.1
