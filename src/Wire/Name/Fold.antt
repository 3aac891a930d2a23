-- ===== src/Wire/Name/Fold.antt =====
-- src/wire.rs: the closure of `walk_name` only folds over the labels of the name. What the walk
-- reads, and where it ends, does not depend on it.
use dnsrivet.Prelude.{
  ℕ, zero, suc, ◌+◌, ◌≡◌, refl, arith, Option, some, Bytes, List, [], ◌∷◌, ◌++◌, foldl, inl, inr,
  Option-cases, slice?, get_elem?, ◌>>=◌,
}
use mathlib.Core.List.{foldl-append}
use dnsrivet.Wire.Name.{
  Walk, returned, Round-cases, Round, fail, done, next, jump, label_step, walk_round, walk_loop,
  walk_fuel, initial, walk_name,
}

-- The visitor that collects the labels.
abbrev pub collect : List Bytes → Bytes → List Bytes
collect ls l = ls ++ l ∷ []

unfoldable pub labels : Bytes → ℕ → Option (ℕ × List Bytes)
labels message start = walk_name message collect start []

module _ {ℓ} {S : Type ℓ} (message : Bytes) (visit : S → Bytes → S) (s : S) where
  -- The walk of `visit` that has seen the labels which `w` has collected.
  abbrev with_visit : Walk (List Bytes) → Walk S
  with_visit w = record {
    cursor = w.cursor;
    end = w.end;
    jumps = w.jumps;
    name_len = w.name_len;
    visited = foldl visit s w.visited;
  }

  abbrev round_with_visit : Round (List Bytes) → Round S
  round_with_visit fail = fail
  round_with_visit (done e ls) = done e (foldl visit s ls)
  round_with_visit (next w) = next (with_visit w)

  returned-with_visit :
      (r : Round (List Bytes))
      → returned (round_with_visit r) ≡ (returned r >>= λ r. some (r.0, foldl visit s r.1))
  returned-with_visit fail = refl
  returned-with_visit (done e ls) = refl
  returned-with_visit (next w) = refl

  foldl-collect :
      (ls : List Bytes) (l : Bytes) → foldl visit s (collect ls l) ≡ visit (foldl visit s ls) l
  foldl-collect ls l = foldl-append visit s ls (l ∷ [])

  jump-with_visit :
      (w : Walk (List Bytes)) (len : ℕ)
      → jump message visit (with_visit w) len ≡ round_with_visit (jump message collect w len)
  unfolding jump
  jump-with_visit w len = ground arith

  label_step-with_visit :
      (w : Walk (List Bytes)) (len : ℕ)
      → label_step message visit (with_visit w) len
        ≡ round_with_visit (label_step message collect w len)
  unfolding label_step
  label_step-with_visit w len = elim (Option-cases (slice? message w.cursor (w.cursor + 1 + len))) [
    | inl e ↦ ground arith
    | inr (l, e) ↦ ground (arith, foldl-collect w.visited l)
  ]

  walk_round-with_visit :
      (w : Walk (List Bytes))
      → walk_round message visit (with_visit w) ≡ round_with_visit (walk_round message collect w)
  unfolding walk_round
  walk_round-with_visit w = elim (Option-cases (get_elem? message w.cursor)) [
    | inl e ↦ ground arith
    | inr (len, e) ↦ ground (
      arith,
      foldl-collect w.visited (0 ∷ []),
      jump-with_visit w len,
      label_step-with_visit w len,
    )
  ]

  walk_loop-with_visit :
      (fuel : ℕ) (w : Walk (List Bytes))
      → walk_loop message visit fuel (with_visit w)
        ≡ round_with_visit (walk_loop message collect fuel w)
  unfolding walk_loop
  walk_loop-with_visit zero w = refl
  walk_loop-with_visit (suc fuel) w = elim (Round-cases (walk_round message collect w)) [
    | inl e ↦ ground (arith, walk_round-with_visit w)
    | inr (inl (_, _, e)) ↦ ground (arith, walk_round-with_visit w)
    | inr (inr (v, e)) ↦ ground (arith, walk_round-with_visit w, walk_loop-with_visit fuel v)
  ]

  -- The walk with a closure gives the labels' end, and the closure folded over the labels.
  pub walk_name-labels :
      (start : ℕ)
      → walk_name message visit start s
        ≡ (labels message start >>= λ r. some (r.0, foldl visit s r.1))
  unfolding walk_name labels
  walk_name-labels start =
      rw (walk_loop-with_visit walk_fuel (initial start []))
        (returned-with_visit (walk_loop message collect walk_fuel (initial start [])))
