-- ===== src/Wire/Name/Canonical.antt =====
-- src/wire.rs: what `skip_name` and `read_name` return, by the labels of the name.
use dnsrivet.Prelude.{
  ℕ, zero, suc, ◌+◌, ◌≤◌, ◌<◌, ◌≡◌, refl, arith, some, Bytes, List, [], ◌∷◌, foldl, map, length,
  inl, inr, Option-cases, slice?, get_elem?, ◌>>=◌, ap, length-append, length-slice?, >>=-eq-some,
}
use dnsrivet.Wire.Name.{
  Walk, Round-cases, Round, fail, done, next, jump, label_step, walk_round, walk_loop, walk_fuel,
  initial, walk_name, skip_name, read_name, copy_label, lower, returned-eq-some,
}
use dnsrivet.Wire.Name.Fold.{labels, walk_name-labels}

-- The name that the labels spell, length bytes and root label included.
abbrev pub spelled : List Bytes → Bytes
spelled = foldl copy_label []

pub skip_name-labels : (m : Bytes) (o : ℕ) → skip_name m o ≡ (labels m o >>= λ r. some r.0)
unfolding skip_name
skip_name-labels m o =
    rw (walk_name-labels m (λ (s : Unit {0}) _. s) tt o)
      (elim (Option-cases (labels m o)) [ inl e ↦ rw e | inr (_, e) ↦ rw e ])

pub read_name-labels :
    (m : Bytes) (o : ℕ) → read_name m o ≡ (labels m o >>= λ r. some (map lower (spelled r.1), r.0))
unfolding read_name
read_name-labels m o =
    rw (walk_name-labels m copy_label [] o)
      (elim (Option-cases (labels m o)) [ inl e ↦ rw e | inr (_, e) ↦ rw e ])

-- `skip_name` accepts exactly the names that `read_name` decodes, and both end at the same offset.
pub skip_name-read_name : (m : Bytes) (o : ℕ) → skip_name m o ≡ (read_name m o >>= λ r. some r.1)
skip_name-read_name m o =
    rw (skip_name-labels, read_name-labels)
      (elim (Option-cases (labels m o)) [ inl e ↦ rw e | inr (_, e) ↦ rw e ])

abbrev RoundFits : Round Bytes → Type 0
RoundFits fail = Unit
RoundFits (done e name) = length name ≤ 255
RoundFits (next w) = (length w.visited ≡ w.name_len) × (w.name_len < 255)

jump-RoundFits :
    (m : Bytes) (w : Walk Bytes) (len : ℕ)
    → length w.visited ≡ w.name_len
    → w.name_len < 255
    → RoundFits (jump m copy_label w len)
unfolding jump
jump-RoundFits m w len e lt = ground arith

label_step-RoundFits :
    (m : Bytes) (w : Walk Bytes) (len : ℕ)
    → length w.visited ≡ w.name_len
    → RoundFits (label_step m copy_label w len)
unfolding label_step
label_step-RoundFits m w len e = elim (Option-cases (slice? m w.cursor (w.cursor + 1 + len))) [
  | inl q ↦ ground arith
  | inr (l, q) ↦
      ground (arith, length-slice? m w.cursor (w.cursor + 1 + len) q, length-append {0} w.visited l)
]

walk_round-RoundFits :
    (m : Bytes) (w : Walk Bytes)
    → length w.visited ≡ w.name_len
    → w.name_len < 255
    → RoundFits (walk_round m copy_label w)
unfolding walk_round
walk_round-RoundFits m w e lt = elim (Option-cases (get_elem? m w.cursor)) [
  | inl q ↦ ground arith
  | inr (len, q) ↦ ground (
    arith,
    jump-RoundFits m w len e lt,
    label_step-RoundFits m w len e,
    length-append {0} w.visited (0 ∷ []),
  )
]

walk_loop-RoundFits :
    (m : Bytes) (fuel : ℕ) (w : Walk Bytes)
    → length w.visited ≡ w.name_len
    → w.name_len < 255
    → RoundFits (walk_loop m copy_label fuel w)
unfolding walk_loop
walk_loop-RoundFits m zero w e lt = (e, lt)
walk_loop-RoundFits m (suc fuel) w e lt = elim (Round-cases (walk_round m copy_label w)) [
  | inl q ↦ rw (q, walk_loop) tt
  | inr (inl (_, _, q)) ↦ rw (q, walk_loop) (rw q at (walk_round-RoundFits m w e lt))
  | inr (inr (v, q)) ↦
      let ok : RoundFits (next v) = rw q at (walk_round-RoundFits m w e lt) in
      rw (q, walk_loop) (walk_loop-RoundFits m fuel v ok.0 ok.1)
]

length-map {ℓ κ} :
    {A : Type ℓ} {B : Type κ} (f : A → B) (xs : List A) → length (map f xs) ≡ length xs
length-map f [] = refl
length-map f (x ∷ xs) = ap suc (length-map f xs)

-- The buffer of 255 bytes holds every name that `read_name` decodes.
pub length-read_name :
    (m : Bytes) (o : ℕ) {name : Bytes} {e : ℕ} → read_name m o ≡ some (name, e) → length name ≤ 255
unfolding read_name walk_name
length-read_name m o h =
    let (r, p, q) = >>=-eq-some (walk_name m copy_label o []) _ h in
    let p' = returned-eq-some (walk_loop m copy_label walk_fuel (initial o [])) p in
    let fits : RoundFits (done r.0 r.1) =
      rw p' at (walk_loop-RoundFits m walk_fuel (initial o []) refl (omega arith)) in
    ground (arith, length-map lower r.1)
