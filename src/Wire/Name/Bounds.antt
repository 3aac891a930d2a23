-- ===== src/Wire/Name/Bounds.antt =====
-- src/wire.rs: where `walk_name` ends.
use dnsrivet.Prelude.{
  ℕ, zero, suc, ◌≤◌, ◌<◌, ◌≡◌, arith, Option, none, some, Bytes, length, inl, inr,
  get_elem?-lt-length, length-slice?,
}
use dnsrivet.Wire.Name.{
  Walk, returned-eq-some, Round-cases, Round, fail, done, next, jump, label_step, walk_round,
  walk_loop, walk_fuel, initial, walk_name,
}

-- The end, once a pointer fixed it, lies behind the start and in the message; before, the cursor
-- has not fallen behind the start.
abbrev EndOk : Bytes → ℕ → Option ℕ → ℕ → Type 0
EndOk message start none cursor = start ≤ cursor
EndOk message start (some e) cursor = (start < e) × (e ≤ length message)

abbrev RoundOk {ℓ} : {S : Type ℓ} → Bytes → ℕ → Round S → Type 0
RoundOk message start fail = Unit
RoundOk message start (done e _) = (start < e) × (e ≤ length message)
RoundOk message start (next w) = EndOk message start w.end w.cursor

module _ {ℓ} {S : Type ℓ} (message : Bytes) (visit : S → Bytes → S) (start : ℕ) where
  walk_round-RoundOk :
      (w : Walk S)
      → EndOk message start w.end w.cursor
      → RoundOk message start (walk_round message visit w)
  unfolding walk_round jump label_step
  walk_round-RoundOk w ok = grind (arith, get_elem?-lt-length {A = ℕ}, length-slice?)

  walk_loop-bounds :
      (fuel : ℕ) (w : Walk S)
      → EndOk message start w.end w.cursor
      → RoundOk message start (walk_loop message visit fuel w)
  unfolding walk_loop
  walk_loop-bounds zero w ok = ok
  walk_loop-bounds (suc fuel) w ok = elim (Round-cases (walk_round message visit w)) [
    | inl e ↦ rw (e, walk_loop) tt
    | inr (inl (_, _, e)) ↦ rw (e, walk_loop) (rw e at (walk_round-RoundOk w ok))
    | inr (inr (v, e)) ↦
        rw (e, walk_loop) (walk_loop-bounds fuel v (rw e at (walk_round-RoundOk w ok)))
  ]

  -- A name that is read ends behind its start and within the message.
  pub walk_name_bounds :
      (s : S) {e : ℕ} {t : S}
      → walk_name message visit start s ≡ some (e, t)
      → (start < e) × (e ≤ length message)
  unfolding walk_name
  walk_name_bounds s h =
      rw (returned-eq-some (walk_loop message visit walk_fuel (initial start s)) h) at
        (walk_loop-bounds walk_fuel (initial start s) (omega arith))
