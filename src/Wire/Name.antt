-- ===== src/Wire/Name.antt =====
-- src/wire.rs: `walk_name` and its users `skip_name` and `read_name`.
pub mod Halts
pub mod Bounds
pub mod Fold
pub mod Canonical
pub mod Encode
use dnsrivet.Prelude.{
  arith, ℕ, zero, suc, ◌+◌, ◌*◌, Bool, true, false, not, ◌&&◌, ◌||◌, ◌∷◌, List, Option, none, some,
  Bytes, length, get_elem?, slice?, ◌==◌, ltb, leb, if◌then◌else◌, ◌>>=◌, ◌≡◌, refl, ◌⊎◌, inl, inr,
  bit_and, bit_or, map, ◌++◌, [], map_or,
}

-- The locals of the loop, and the state of the closure `visit`.
pub record Walk {ℓ} (S : Type ℓ) : Type ℓ where
  pub cursor : ℕ
  pub end : Option ℕ
  pub jumps : ℕ
  pub name_len : ℕ
  pub visited : S

-- What one round of the loop does: return `None`, return an offset, or go round again.
pub data Round {ℓ} (S : Type ℓ) : Type ℓ where
  fail : Round S
  done : ℕ → S → Round S
  next : Walk S → Round S

pub Round-cases {ℓ} :
    {S : Type ℓ} (r : Round S)
    → (r ≡ fail) ⊎ ((e : ℕ) × (s : S) × (r ≡ done e s)) ⊎ ((w : Walk S) × (r ≡ next w))
Round-cases fail = inl refl
Round-cases (done e s) = inr (inl (e, s, refl))
Round-cases (next w) = inr (inr (w, refl))

-- `end.get_or_insert(v)`
abbrev pub get_or_insert : Option ℕ → ℕ → Option ℕ
get_or_insert none v = some v
get_or_insert (some e) v = some e

-- `end.unwrap_or(v)`
abbrev pub unwrap_or : Option ℕ → ℕ → ℕ
unwrap_or none v = v
unwrap_or (some e) v = e

-- `(usize::from(len & 0x3f) << 8) | usize::from(next)`
unfoldable pub pointer_of : ℕ → ℕ → ℕ
pointer_of len low = bit_or (bit_and len 0x3f * 256) low

abbrev pub initial {ℓ} : {S : Type ℓ} → ℕ → S → Walk S
initial start s = record { cursor = start; end = none; jumps = 0; name_len = 0; visited = s }

-- A round uses up a jump or at least two bytes of the name, so 384 rounds are enough.
abbrev pub walk_fuel : ℕ
walk_fuel = 384

abbrev pub returned {ℓ} : {S : Type ℓ} → Round S → Option (ℕ × S)
returned (done e s) = some (e, s)
returned fail = none
returned (next _) = none

pub returned-eq-some {ℓ} :
    {S : Type ℓ} (r : Round S) {e : ℕ} {s : S} → returned r ≡ some (e, s) → r ≡ done e s
returned-eq-some fail h = cc
returned-eq-some (done _ _) h = ground arith
returned-eq-some (next _) h = cc

module _ {ℓ} {S : Type ℓ} (message : Bytes) (visit : S → Bytes → S) where
  -- The branch of a compression pointer.
  unfoldable pub jump : Walk S → ℕ → Round S
  jump w len = elim (get_elem? message (w.cursor + 1)) [
    | none ↦ fail
    | some low ↦
        let pointer = pointer_of len low in
        if leb (length message) pointer || leb 128 w.jumps
        then fail
        else next (record w {
          cursor = pointer;
          end = get_or_insert w.end (w.cursor + 2);
          jumps = w.jumps + 1;
        })
  ]

  -- The branch of a plain label; the slice starts at its length byte.
  unfoldable pub label_step : Walk S → ℕ → Round S
  label_step w len = elim (slice? message w.cursor (w.cursor + 1 + len)) [
    | none ↦ fail
    | some label ↦
        if leb 255 (w.name_len + (1 + len))
        then fail
        else next (record w {
          cursor = w.cursor + 1 + len;
          name_len = w.name_len + (1 + len);
          visited = visit w.visited label;
        })
  ]

  unfoldable pub walk_round : Walk S → Round S
  walk_round w = elim (get_elem? message w.cursor) [
    | none ↦ fail
    | some len ↦
        if bit_and len 0xc0 == 0xc0
        then jump w len
        else if not (bit_and len 0xc0 == 0) || ltb 63 len
        then fail
        else if len == 0
        then done (unwrap_or w.end (w.cursor + 1)) (visit w.visited (0 ∷ []))
        else label_step w len
  ]

  -- The loop, on fuel; `next` means that the fuel ran out.
  unfoldable pub walk_loop : ℕ → Walk S → Round S
  walk_loop zero w = next w
  walk_loop (suc fuel) w = elim (walk_round w) [
    | fail ↦ fail
    | done e s ↦ done e s
    | next w' ↦ walk_loop fuel w'
  ]

  unfoldable pub walk_name : ℕ → S → Option (ℕ × S)
  walk_name start s = returned (walk_loop walk_fuel (initial start s))

-- `visit(&message[cursor - 1..cursor])` at the root label passes its one byte, which is 0.

unfoldable pub skip_name : Bytes → ℕ → Option ℕ
skip_name message offset = do (e, _) ← walk_name message (λ (s : Unit {0}) _. s) offset tt; some e

-- `u8::to_ascii_lowercase`
unfoldable pub lower : ℕ → ℕ
lower b = if leb b'A' b && leb b b'Z' then b + 32 else b

-- The closure of `read_name` and `questions_match`; the list is `name[..name_len]`.
abbrev pub copy_label : Bytes → Bytes → Bytes
copy_label name label = name ++ label

unfoldable pub read_name : Bytes → ℕ → Option (Bytes × ℕ)
read_name message start = do
  (e, name) ← walk_name message copy_label start []
  some (map lower name, e)
