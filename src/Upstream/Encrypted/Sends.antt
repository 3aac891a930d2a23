-- ===== src/Upstream/Encrypted/Sends.antt =====
-- src/upstream/encrypted.rs: `Channel::query`, with what other queries do between its locks.
use dnsrivet.Prelude.{
  ℕ, ◌+◌, ◌-◌, Bool, true, false, not, ◌&&◌, Option, none, some, Result, ok, err, List, ltb,
  if◌then◌else◌, Bytes,
}
use dnsrivet.Upstream.Net.{IpAddr, SocketAddr}
use dnsrivet.Upstream.Encrypted.{
  Slot, invalidate, backoff, Lease, ChannelError, no_answer, transport, redial_failed, SendResult,
  answered, deadline_passed, transport_failed, Target, acquire, Stamp, min_redial_budget,
}

unfoldable pub budget_allows_redial : Option ℕ → ℕ → Bool
budget_allows_redial none now = true
budget_allows_redial (some deadline) now = ltb min_redial_budget (deadline - now)

-- The arm of `SendFailure::Deadline`; at its time the lock is taken and `slot` is what it guards.
unfoldable pub after_deadline : {C : Type 0} → Slot C → Lease C → ℕ → Slot C
after_deadline slot held now =
    if (invalidate slot held.generation).1
    then backoff (invalidate slot held.generation).0 now
    else slot

-- The arm of `SendFailure::Transport`: the slot behind it, and whether the query is sent again.
unfoldable pub after_transport :
    {C : Type 0} → Option ℕ → Slot C → Lease C → Bool → ℕ → Slot C × Bool
after_transport deadline slot held retried now =
    if held.reused && not retried && budget_allows_redial deadline now
    then ((invalidate slot held.generation).0, true)
    else (after_deadline slot held now, false)

-- What a query meets: what other queries do to the slot before it takes the lock for the n-th time
-- (`turn`), the clock, and the outcomes of its lookups, dials and sends.
pub record World (C T : Type 0) : Type 0 where
  pub turn : ℕ → Slot C → Slot C
  pub now : ℕ → Stamp
  pub resolve : ℕ → Bool → Result (List IpAddr) T
  pub dial : ℕ → SocketAddr → Result C T
  pub send : ℕ → C → SendResult T

module _ {C T : Type 0} (target : Target) (deadline : Option ℕ) (world : World C T) where
  open world use {turn, now, resolve, dial, send}

  -- The n-th lock of a query, where it is an `acquire`.
  abbrev pub acquire_at : ℕ → Slot C → Slot C × Result (Lease C) (ChannelError T)
  acquire_at n slot = acquire target (turn n slot) (now n) (now (n + 1)) (resolve n) (dial n)

  -- The round of the loop with `retried` set: no further redial.
  unfoldable pub second_send :
      Slot C → Lease C → SendResult T → Slot C × Result Bytes (ChannelError T)
  second_send slot held (answered answer) = (slot, ok answer)
  second_send slot held deadline_passed =
      (after_deadline (turn 3 slot) held (now 4).mono, err no_answer)
  second_send slot held (transport_failed e) =
      ((after_transport deadline (turn 3 slot) held true (now 4).mono).0, err (transport e))

  -- Behind the second `acquire`, which follows the failure `e`.
  unfoldable pub resend :
      T → Slot C × Result (Lease C) (ChannelError T) → Slot C × Result Bytes (ChannelError T)
  resend e (slot, err redial) = (slot, err (redial_failed e redial))
  resend e (slot, ok held) = second_send slot held (send 1 held.exchange)

  unfoldable pub first_send :
      Slot C → Lease C → SendResult T → Slot C × Result Bytes (ChannelError T)
  first_send slot held (answered answer) = (slot, ok answer)
  first_send slot held deadline_passed =
      (after_deadline (turn 1 slot) held (now 2).mono, err no_answer)
  first_send slot held (transport_failed e) =
      let (behind, again) = after_transport deadline (turn 1 slot) held false (now 2).mono in
      if again then resend e (acquire_at 2 behind) else (behind, err (transport e))

  unfoldable pub start :
      Slot C × Result (Lease C) (ChannelError T) → Slot C × Result Bytes (ChannelError T)
  start (slot, err e) = (slot, err e)
  start (slot, ok held) = first_send slot held (send 0 held.exchange)

  -- `Channel::query`
  unfoldable pub query : Slot C → Slot C × Result Bytes (ChannelError T)
  query slot = start (acquire_at 0 slot)
