-- ===== src/Upstream/Bootstrap/Plans.antt =====
-- src/upstream/bootstrap.rs: how old a cached answer may be, and how often a host is looked up.
use dnsrivet.Prelude.{
  ℕ, ◌+◌, ◌*◌, ◌≤◌, ◌<◌, ◌≡◌, ◌≢◌, refl, arith, min, Option, none, some, ok, err, List,
}
use dnsrivet.Upstream.Net.{IpAddr}
use dnsrivet.Upstream.Bootstrap.{
  second, max_stale, retry_after_failure, Entry, Failure, Slot, answer, refresh, usable_entry,
  addresses, stale_or, plan_stale, plan_entry, plan, servable_entry, record_result, expire,
  invalidate_slot,
}

-- The slot has an answer, which expired at most a day ago.
abbrev pub Serves : {E : Type 0} → Slot E → List IpAddr → ℕ → Type 0
Serves slot ips now =
    (e : Entry) × (slot.entry ≡ some e) × (e.ips ≡ ips) × (now ≤ e.expires + max_stale)

plan-answer_entry :
    {E : Type 0} (o : Option Entry) (f : Option (Failure E)) (now : ℕ) (ips : List IpAddr)
    → plan_entry o f now ≡ answer (ok ips)
    → (e : Entry) × (o ≡ some e) × (e.ips ≡ ips) × (now ≤ e.expires + max_stale)
unfolding plan_entry plan_stale usable_entry
plan-answer_entry none f now ips h = absurd (ground arith)
plan-answer_entry (some e) f now ips h = (e, refl, ground arith, ground arith)

plan_entry_paused :
    {E : Type 0} (o : Option Entry) (f : Failure E) (now : ℕ) (stale : Option (List IpAddr))
    → now < f.retry_at
    → plan_entry o (some f) now ≢ refresh stale
unfolding plan_entry plan_stale usable_entry
plan_entry_paused none f now stale h p = ground arith
plan_entry_paused (some e) f now stale h p = ground arith

serve_failed :
    {E : Type 0} (o : Option Entry) (e : E) (now : ℕ) (ips : List IpAddr)
    → stale_or (addresses (servable_entry o now)) e ≡ ok ips
    → ((x : Entry) × (o ≡ some x) × (x.ips ≡ ips) × (now ≤ x.expires + max_stale))
      × (servable_entry o now ≡ o)
unfolding servable_entry
serve_failed none e now ips h = absurd (ground arith)
serve_failed (some x) e now ips h = ((x, refl, ground arith, ground arith), ground arith)

fail_failed :
    {E : Type 0} (o : Option Entry) (e : E) (now : ℕ) {e' : E}
    → stale_or (addresses (servable_entry o now)) e ≡ err e'
    → (e' ≡ e) × (servable_entry o now ≡ none)
unfolding servable_entry
fail_failed none e now h = ground arith
fail_failed (some x) e now h = ground arith

module _ {E : Type 0} (slot : Slot E) where
  -- Addresses that are answered with no lookup are the last recorded ones, and expired at most a day
  -- ago.
  pub plan_answer-Serves :
      (now : ℕ) (ips : List IpAddr) → (plan slot now).1 ≡ answer (ok ips) → Serves slot ips now
  unfolding plan
  plan_answer-Serves now ips h = plan-answer_entry slot.entry slot.failure now ips h

  -- After a failed refresh no new lookup starts for 30 seconds, whatever addresses are cached.
  pub plan_after_failure :
      (e : E) (t now : ℕ) (stale : Option (List IpAddr))
      → now < t + retry_after_failure
      → (plan (record_result slot (err e) t).0 now).1 ≢ refresh stale
  unfolding plan record_result
  plan_after_failure e t now stale h p =
      plan_entry_paused (servable_entry slot.entry t)
        (record { error = e; retry_at = t + retry_after_failure }) now stale h p

  -- Until its TTL is over a recorded answer is given with no lookup.
  pub plan_after_success :
      (ips : List IpAddr) (ttl t now : ℕ)
      → now < t + ttl * second
      → (plan (record_result slot (ok (ips, ttl)) t).0 now).1 ≡ answer (ok ips)
  unfolding plan record_result plan_entry
  plan_after_success ips ttl t now h = ground arith

  -- `invalidate` makes the next plan a refresh with the old addresses as a fallback, where no failure
  -- is pending.
  pub plan_after_invalidate :
      (e : Entry) (t now : ℕ)
      → slot.entry ≡ some e
      → slot.failure ≡ none
      → t ≤ now
      → now ≤ min e.expires t + max_stale
      → (plan (invalidate_slot slot t) now).1 ≡ refresh (some e.ips)
  unfolding plan invalidate_slot plan_entry plan_stale usable_entry expire
  plan_after_invalidate e t now he hf le servable = ground arith

  pub record_failure :
      (e : E) (now : ℕ)
      → ((ips : List IpAddr)
          → (record_result slot (err e) now).1 ≡ ok ips
          → Serves slot ips now × ((record_result slot (err e) now).0.entry ≡ slot.entry))
        × ((e' : E)
            → (record_result slot (err e) now).1 ≡ err e'
            → (e' ≡ e) × ((record_result slot (err e) now).0.entry ≡ none))
  unfolding record_result
  record_failure e now =
      (λ ips h. serve_failed slot.entry e now ips h, λ e' h. fail_failed slot.entry e now h)
