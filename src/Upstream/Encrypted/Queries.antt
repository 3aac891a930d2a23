-- ===== src/Upstream/Encrypted/Queries.antt =====
-- src/upstream/encrypted.rs: what `query` returns.
use dnsrivet.Prelude.{
  ℕ, ◌≡◌, refl, arith, true, false, Option, Result, ok, err, Bool-cases, inl, inr, ap, Bytes, ◌⊎◌,
}
use dnsrivet.Upstream.Encrypted.{
  Slot, Lease, Target, ChannelError, SendResult, answered, deadline_passed, transport_failed,
}
use dnsrivet.Upstream.Encrypted.Sends.{
  after_transport, World, acquire_at, second_send, resend, first_send, start, query,
}

module _ {C T : Type 0} (target : Target) (deadline : Option ℕ) (world : World C T) where
  open world use {turn, now, resolve, dial, send}

  -- `answer` is what one of two sends returned. The second one takes place only behind a failure of
  -- the transport on a connection that the slot already had.
  pub Sent : Slot C → Bytes → Type 0
  Sent slot answer =
      (c : C) × ((send 0 c ≡ answered answer)
        ⊎ ((send 1 c ≡ answered answer)
            × (held : Lease C) × ((acquire_at target deadline world 0 slot).1 ≡ ok held)
            × (held.reused ≡ true)
            × (e : T) × (send 0 held.exchange ≡ transport_failed e)))

  second_send-answered :
      (slot : Slot C) (held : Lease C) (r : SendResult T) (answer : Bytes)
      → (second_send target deadline world slot held r).1 ≡ ok answer
      → r ≡ answered answer
  unfolding second_send
  second_send-answered slot held (answered a) answer h = ground arith
  second_send-answered slot held deadline_passed answer h = absurd (ground arith)
  second_send-answered slot held (transport_failed e) answer h = absurd (ground arith)

  resend-answered :
      (e : T) (r : Slot C × Result (Lease C) (ChannelError T)) (answer : Bytes)
      → (resend target deadline world e r).1 ≡ ok answer
      → (c : C) × (send 1 c ≡ answered answer)
  unfolding resend
  resend-answered e (slot, err x) answer h = absurd (ground arith)
  resend-answered e (slot, ok held) answer h =
      (held.exchange, second_send-answered slot held (send 1 held.exchange) answer h)

  first_send-Sent :
      (before slot : Slot C) (held : Lease C) (r : SendResult T) (answer : Bytes)
      → (acquire_at target deadline world 0 before).1 ≡ ok held
      → send 0 held.exchange ≡ r
      → (first_send target deadline world slot held r).1 ≡ ok answer
      → Sent before answer
  unfolding first_send after_transport Sent
  first_send-Sent before slot held (answered a) answer l s h = (held.exchange, inl (ground arith))
  first_send-Sent before slot held deadline_passed answer l s h = absurd (ground arith)
  first_send-Sent before slot held (transport_failed e) answer l s h =
      let behind = after_transport deadline (turn 1 slot) held false (now 2).mono in
      elim (Bool-cases behind.1) [
        | inr stop ↦ absurd (ground arith)
        | inl again ↦
            let r =
              resend-answered e (acquire_at target deadline world 2 behind.0) answer
                (ground arith) in
            (r.0, inr (r.1, held, l, ground arith, e, s))
      ]

  start-Sent :
      (before : Slot C) (r : Slot C × Result (Lease C) (ChannelError T)) (answer : Bytes)
      → acquire_at target deadline world 0 before ≡ r
      → (start target deadline world r).1 ≡ ok answer
      → Sent before answer
  unfolding start
  start-Sent before (slot, err e) answer l h = absurd (ground arith)
  start-Sent before (slot, ok held) answer l h =
      first_send-Sent before slot held (send 0 held.exchange) answer (ap (λ r. r.1) l) refl h

  -- The answer of a query is what one of its at most two sends returned; a query is sent again only
  -- if the transport failed on a connection that the slot had before the query.
  pub query-Sent :
      (slot : Slot C) (answer : Bytes)
      → (query target deadline world slot).1 ≡ ok answer
      → Sent slot answer
  unfolding query
  query-Sent slot answer h = start-Sent slot (acquire_at target deadline world 0 slot) answer refl h
