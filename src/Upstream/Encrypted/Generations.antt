-- ===== src/Upstream/Encrypted/Generations.antt =====
-- src/upstream/encrypted.rs: generations, backoff and sleep.
use dnsrivet.Prelude.{
  ℕ, zero, suc, ◌+◌, ◌*◌, ◌^◌, ◌≤◌, ◌<◌, ◌≡◌, refl, arith, min, true, false, none, some,
}
use native.Mathlib.Nat.{pow-suc}
use native.Mathlib.Decide.{dec_le}
use dnsrivet.Upstream.Encrypted.{
  second, max_backoff_shift, renew_after_sleep, u32_max, u64_mod, Stamp, Slot, lease, store,
  drop_if_slept, invalidate, backoff, backoff_time,
}

pow_mono : (k j : ℕ) → k ≤ j → 2 ^ k ≤ 2 ^ j
pow_mono k zero h = let e : k ≡ 0 = omega arith in rw e (omega arith)
pow_mono k (suc j) h = elim (dec_le k j) [
  | yes p ↦ omega (arith, pow_mono k j p, pow-suc 2 j)
  | no p ↦ let e : k ≡ suc j = omega arith in rw e (omega arith)
]

module _ {C : Type 0} (slot : Slot C) where
  -- A failure of an earlier lease leaves the connection that replaced it alone.
  pub invalidate-store :
      (exchange : C) (now : Stamp)
      → slot.generation < u64_mod
      → invalidate (store slot exchange now) slot.generation ≡ (store slot exchange now, false)
  unfolding invalidate store
  invalidate-store exchange now h = ground arith

  -- A lease gives up the connection that it names, once.
  pub invalidate_twice :
      (exchange : C) (generation : ℕ)
      → lease slot ≡ some (exchange, generation)
      → ((invalidate slot generation).1 ≡ true)
        × (lease (invalidate slot generation).0 ≡ none)
        × ((invalidate (invalidate slot generation).0 generation).1 ≡ false)
  unfolding invalidate lease
  invalidate_twice exchange generation h = ground arith

  -- Each backoff pauses dials for 2 to 32 seconds, and never for less than the one before it.
  pub backoff_bounds :
      (now : ℕ)
      → ((backoff slot now).cooldown_until ≡ some (now + backoff_time slot))
        × (2 * second ≤ backoff_time slot)
        × (backoff_time slot ≤ 32 * second)
        × (backoff_time slot ≤ backoff_time (backoff slot now))
  unfolding backoff backoff_time
  backoff_bounds now =
      let k = min (min (slot.connect_failures + 1) u32_max) max_backoff_shift in
      let j = min (min (min (slot.connect_failures + 1) u32_max + 1) u32_max) max_backoff_shift in
      let two : 2 ≤ 2 ^ k = pow_mono 1 k (omega arith) in
      let top : 2 ^ k ≤ 32 = pow_mono k 5 (omega arith) in
      let next : 2 ^ k ≤ 2 ^ j = pow_mono k j (omega arith) in
      (refl, omega arith, omega arith, omega arith)

  -- A drop after sleep keeps the generation, the failures and the cooldown: it is no backoff.
  pub drop_if_slept_lem :
      (now : Stamp) {t : ℕ}
      → (drop_if_slept slot now).1 ≡ some t
      → (renew_after_sleep < t)
        × (lease (drop_if_slept slot now).0 ≡ none)
        × ((drop_if_slept slot now).0.generation ≡ slot.generation)
        × ((drop_if_slept slot now).0.connect_failures ≡ slot.connect_failures)
        × ((drop_if_slept slot now).0.cooldown_until ≡ slot.cooldown_until)
  unfolding drop_if_slept lease
  drop_if_slept_lem now h = ground arith
