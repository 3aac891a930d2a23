-- ===== src/Wire/Name/Halts.antt =====
-- src/wire.rs: the loop of `walk_name` ends: the fuel of the model always suffices.
use dnsrivet.Prelude.{ℕ, zero, suc, ◌+◌, ◌-◌, ◌≤◌, ◌<◌, ◌≡◌, ◌≢◌, arith, Bytes, inl, inr}
use dnsrivet.Wire.Name.{
  Walk, Round-cases, next, jump, label_step, walk_round, walk_loop, walk_fuel, initial,
}

-- The rounds that may still come.
abbrev budget {ℓ} : {S : Type ℓ} → Walk S → ℕ
budget w = 128 - w.jumps + (255 - w.name_len)

abbrev InBudget {ℓ} : {S : Type ℓ} → Walk S → Type 0
InBudget w = (w.jumps ≤ 128) × (w.name_len < 255)

module _ {ℓ} {S : Type ℓ} (message : Bytes) (visit : S → Bytes → S) where
  walk_round-budget :
      (w w' : Walk S)
      → walk_round message visit w ≡ next w'
      → InBudget w
      → InBudget w' × (budget w' < budget w)
  unfolding walk_round jump label_step
  walk_round-budget w w' h b = ground arith

  walk_loop_halts :
      (fuel : ℕ) (w w' : Walk S)
      → InBudget w
      → budget w < fuel
      → walk_loop message visit fuel w ≢ next w'
  unfolding walk_loop
  walk_loop_halts zero w w' b lt h = absurd (omega arith)
  walk_loop_halts (suc fuel) w w' b lt h = elim (Round-cases (walk_round message visit w)) [
    | inl e ↦ ground arith
    | inr (inl (_, _, e)) ↦ ground arith
    | inr (inr (v, e)) ↦ ground (arith, walk_round-budget w v e b, walk_loop_halts fuel v w')
  ]

  -- Whatever the message holds, compression loops included, and whatever the closure does, the walk
  -- returns within its 384 rounds.
  pub walk_name_halts :
      (start : ℕ) (s : S) (w : Walk S)
      → walk_loop message visit walk_fuel (initial start s) ≢ next w
  walk_name_halts start s w =
      walk_loop_halts walk_fuel (initial start s) w (omega arith) (omega arith)
