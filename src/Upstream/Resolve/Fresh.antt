-- ===== src/Upstream/Resolve/Fresh.antt =====
-- src/upstream/bootstrap.rs: where the addresses of `resolve` come from.
use dnsrivet.Prelude.{
  ℕ, ◌+◌, ◌≤◌, ◌≡◌, refl, ap, ◌∙◌, arith, Option, none, some, Result, ok, err, List, inl, inr, ◌⊎◌,
  Bool-cases,
}
use dnsrivet.Upstream.Net.{IpAddr}
use dnsrivet.Upstream.Bootstrap.{
  Entry, Failure, Slot, Plan, answer, refresh, plan, plan_entry, plan_stale, usable_entry,
  record_result, max_stale,
}
use dnsrivet.Upstream.Bootstrap.Plans.{Serves, plan_answer-Serves, record_failure}
use dnsrivet.Upstream.Resolve.{
  Contention, refresh_slot, second_plan, contended, first_plan, resolve,
}

plan_refresh_entry :
    {E : Type 0} (o : Option Entry) (f : Option (Failure E)) (now : ℕ) (ips : List IpAddr)
    → plan_entry o f now ≡ refresh (some ips)
    → (e : Entry) × (o ≡ some e) × (e.ips ≡ ips) × (now ≤ e.expires + max_stale)
unfolding plan_entry plan_stale usable_entry
plan_refresh_entry none none now ips h = absurd (ground arith)
plan_refresh_entry none (some f) now ips h = absurd (ground arith)
plan_refresh_entry (some e) none now ips h = (e, refl, ground arith, ground arith)
plan_refresh_entry (some e) (some f) now ips h = (e, refl, ground arith, ground arith)

plan-refresh-Serves :
    {E : Type 0} (slot : Slot E) (now : ℕ) (ips : List IpAddr)
    → (plan slot now).1 ≡ refresh (some ips)
    → Serves slot ips now
unfolding plan
plan-refresh-Serves slot now ips h = plan_refresh_entry slot.entry slot.failure now ips h

-- The slot behind the first and behind the second plan.
abbrev pub entered : {E : Type 0} → Contention E → Slot E → Slot E
entered c slot = (plan slot c.now).0

abbrev pub reentered : {E : Type 0} → Contention E → Slot E → Slot E
reentered c slot = (plan (c.waited (entered c slot)) c.after_wait).0

-- The addresses are what the lookup found.
abbrev pub Found : {E : Type 0} → Contention E → List IpAddr → Type 0
Found c ips = (ttl : ℕ) × (c.looked_up ≡ ok (ips, ttl))

-- The addresses are what the lookup found, or the slot had them at the start of the call, behind the
-- wait or behind the lookup, and they had expired at most a day before.
abbrev pub Known : {E : Type 0} → Contention E → Slot E → List IpAddr → Type 0
Known c slot ips =
    Found c ips
    ⊎ Serves slot ips c.now
    ⊎ Serves (c.waited (entered c slot)) ips c.after_wait
    ⊎ Serves (c.during (entered c slot)) ips c.after_lookup
    ⊎ Serves (c.during (reentered c slot)) ips c.after_lookup

module _ {E : Type 0} (c : Contention E) where
  record_found :
      (slot : Slot E) (r : Result (List IpAddr × ℕ) E) (now : ℕ) (ips : List IpAddr)
      → (record_result slot r now).1 ≡ ok ips
      → ((ttl : ℕ) × (r ≡ ok (ips, ttl))) ⊎ Serves slot ips now
  unfolding record_result
  record_found slot (ok (found, ttl)) now ips h =
      let same : found ≡ ips = ground arith in inl (ttl, ap (λ x. ok (x, ttl)) same)
  record_found slot (err e) now ips h = inr ((record_failure slot e now).0 ips h).0

  refresh_slot-Found :
      (slot : Slot E) (ips : List IpAddr)
      → (refresh_slot c slot).1 ≡ ok ips
      → Found c ips ⊎ Serves (c.during slot) ips c.after_lookup
  unfolding refresh_slot
  refresh_slot-Found slot ips h = record_found (c.during slot) c.looked_up c.after_lookup ips h

  second_plan-Known :
      (slot : Slot E) (p : Plan E) (ips : List IpAddr)
      → (plan (c.waited (entered c slot)) c.after_wait).1 ≡ p
      → (second_plan c (reentered c slot, p)).1 ≡ ok ips
      → Known c slot ips
  unfolding second_plan
  second_plan-Known slot (answer result) ips e h = inr (
      inr (inl (plan_answer-Serves (c.waited (entered c slot)) c.after_wait ips (e ∙ ap answer h))))
  second_plan-Known slot (refresh stale) ips e h =
      elim (refresh_slot-Found (reentered c slot) ips h) [
        | inl found ↦ inl found
        | inr held ↦ inr (inr (inr (inr held)))
      ]

  contended-Known :
      (slot : Slot E) (stale : Option (List IpAddr)) (ips : List IpAddr)
      → (plan slot c.now).1 ≡ refresh stale
      → (contended c (entered c slot) stale).1 ≡ ok ips
      → Known c slot ips
  unfolding contended
  contended-Known slot (some old) ips e h =
      let same : old ≡ ips = ground arith in
      inr (inl (plan-refresh-Serves slot c.now ips (e ∙ ap (λ x. refresh (some x)) same)))
  contended-Known slot none ips e h =
      second_plan-Known slot (plan (c.waited (entered c slot)) c.after_wait).1 ips refl h

  first_plan-Known :
      (slot : Slot E) (p : Plan E) (ips : List IpAddr)
      → (plan slot c.now).1 ≡ p
      → (first_plan c (entered c slot, p)).1 ≡ ok ips
      → Known c slot ips
  unfolding first_plan
  first_plan-Known slot (answer result) ips e h =
      inr (inl (plan_answer-Serves slot c.now ips (e ∙ ap answer h)))
  first_plan-Known slot (refresh stale) ips e h = elim (Bool-cases c.free) [
    | inl free ↦ elim (refresh_slot-Found (entered c slot) ips (ground arith)) [
      | inl found ↦ inl found
      | inr held ↦ inr (inr (inr (inl held)))
    ]
    | inr busy ↦ contended-Known slot stale ips e (ground arith)
  ]

  -- However the callers of `resolve` interleave, its addresses are those that its lookup found, or
  -- addresses that the slot had at one of the instants at which the call reads it, expired for at
  -- most a day.
  pub resolve-Known :
      (slot : Slot E) (ips : List IpAddr) → (resolve c slot).1 ≡ ok ips → Known c slot ips
  unfolding resolve
  resolve-Known slot ips h = first_plan-Known slot (plan slot c.now).1 ips refl h
