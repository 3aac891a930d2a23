-- ===== src/Upstream/Encrypted/Leases.antt =====
-- src/upstream/encrypted.rs: what `acquire` hands out.
use dnsrivet.Prelude.{
  ℕ, ◌-◌, ◌<◌, ◌≡◌, arith, Bool, false, none, some, List, [], ◌∷◌, Result, ok, err, Option-cases,
  Bool-cases, Result-cases, inl, inr, ap, ◌∙◌,
}
use mathlib.Core.Path.{subst}
use dnsrivet.Upstream.Net.{IpAddr, SocketAddr, is_self_address}
use dnsrivet.Upstream.Encrypted.{
  Stamp, Slot, Lease, Target, DialError, no_candidates, points_back, dial_failed, in_cooldown,
  lease, store, drop_if_slept, address, dial_loop, finish_dial, dial_candidates, candidates,
  is_cooling, renews_bootstrap, lease_or_dial, acquire,
}

module _ {C T : Type 0} (target : Target) where
  -- A dial never goes to one of our own listeners.
  dial_loop-safe :
      (dial : SocketAddr → Result C T) (ips : List IpAddr) (e : DialError T) (exchange : C)
      → dial_loop target dial ips e ≡ ok exchange
      → (addr : SocketAddr) × (dial addr ≡ ok exchange) × (is_self_address addr target.deny ≡ false)
  unfolding dial_loop
  dial_loop-safe dial [] e exchange h = absurd (ground arith)
  dial_loop-safe dial (ip ∷ ips) e exchange h =
      let addr = address target ip in
      elim (Bool-cases (is_self_address addr target.deny)) [
        | inl own ↦ dial_loop-safe dial ips (points_back addr) exchange (ground arith)
        | inr other ↦ elim (Result-cases (dial addr)) [
          | inl (c, d) ↦ (addr, ground arith, other)
          | inr (f, d) ↦ dial_loop-safe dial ips (dial_failed f) exchange (ground arith)
        ]
      ]

  -- What is promised of a lease: the slot holds its connection at its generation, and a connection
  -- that is not reused was dialed, at an address that is not one of our own listeners.
  abbrev Granted : (SocketAddr → Result C T) → Slot C → Lease C → Type 0
  Granted dial slot held =
      (lease slot ≡ some (held.exchange, held.generation))
      × (held.reused ≡ false
          → (addr : SocketAddr) × (dial addr ≡ ok held.exchange)
            × (is_self_address addr target.deny ≡ false))

  dial_candidates-lease :
      (slot : Slot C) (now : Stamp) (dial : SocketAddr → Result C T)
      (found : Result (List IpAddr) T) (held : Lease C)
      → (dial_candidates target slot now dial found).1 ≡ ok held
      → Granted dial (dial_candidates target slot now dial found).0 held
  unfolding dial_candidates finish_dial store lease
  dial_candidates-lease slot now dial (err e) held h = absurd (ground arith)
  dial_candidates-lease slot now dial (ok ips) held h =
      elim (Result-cases (dial_loop target dial ips no_candidates)) [
        | inl (c, e) ↦
            let safe = dial_loop-safe dial ips no_candidates c e in
            (ground (arith, h, e), λ _. (safe.0, ground (arith, h, e, safe.1), safe.2))
        | inr (f, e) ↦ absurd (ground arith)
      ]

  module _ (slot : Slot C) (now later : Stamp) (resolve : Bool → Result (List IpAddr) T)
      (dial : SocketAddr → Result C T) where
    -- A lease is of the connection that the slot then holds, at its generation; a connection that is
    -- not reused was dialed, at an address that is not one of our own listeners.
    pub acquire-lease :
        (held : Lease C)
        → (acquire target slot now later resolve dial).1 ≡ ok held
        → (lease (acquire target slot now later resolve dial).0
            ≡ some (held.exchange, held.generation))
          × (held.reused ≡ false
              → (addr : SocketAddr) × (dial addr ≡ ok held.exchange)
                × (is_self_address addr target.deny ≡ false))
    unfolding acquire lease_or_dial
    acquire-lease held h =
        let kept = (drop_if_slept slot now).0 in
        let end =
          dial_candidates target kept later dial
            (candidates target kept (renews_bootstrap target slot now) resolve) in
        elim (Option-cases (lease kept)) [
          | inr (p, e) ↦ ground arith
          | inl e ↦ elim (Option-cases (is_cooling kept.cooldown_until now.mono)) [
            | inr (left, c) ↦ absurd (ground arith)
            | inl c ↦
                let at_end : end ≡ acquire target slot now later resolve dial = ground arith in
                subst (λ r. Granted dial r.0 held) at_end
                  (dial_candidates-lease kept later dial
                    (candidates target kept (renews_bootstrap target slot now) resolve) held
                    (ap (λ r. r.1) at_end ∙ h))
          ]
        ]

    -- During a cooldown nothing is dialed, whatever the resolver and the dials would return.
    pub acquire_cooling :
        (until : ℕ)
        → lease slot ≡ none
        → slot.cooldown_until ≡ some until
        → now.mono < until
        → (acquire target slot now later resolve dial).1 ≡ err (in_cooldown (until - now.mono))
    unfolding acquire lease_or_dial is_cooling drop_if_slept lease
    acquire_cooling until none_held cooling early = ground arith
