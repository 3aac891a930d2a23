-- ===== src/Upstream/Legacy/Genuine.antt =====
-- src/upstream/legacy.rs: only genuine answers are returned, and stray datagrams are passed over.
use dnsrivet.Prelude.{
  ℕ, ◌+◌, ◌≤◌, ◌<◌, ◌≡◌, refl, sym, ap, ◌∙◌, arith, Bool, true, false, not, ◌&&◌, ◌||◌, some,
  Result, ok, err, List, [], ◌∷◌, ◌++◌, Bytes, length, take, slice?, ltb, map, eq_bytes→eq,
  get_elem?-take, get_elem?, Bool-cases, Option-cases, Result-cases, inl, inr, take_all,
}
use dnsrivet.Wire.Read.{read_u16}
use dnsrivet.Wire.Truncate.{truncate_to}
use dnsrivet.Wire.Truncate.Marks.{truncated_header}
use dnsrivet.Wire.Validate.{validate_response, ValidationError}
use dnsrivet.Upstream.Legacy.{
  LegacyError, truncated_udp_rejected, tcp_rejected, framed, max_udp_response, is_truncated, is_ok,
  same_id, accepts, checked, deliver, receive_loop, query_udp, check_tcp, read_tcp, query_tcp,
  follow_up, query_legacy,
}

-- The response carries the ID of the query and passes the test of an answer to it.
pub record Genuine (query response : Bytes) : Type 0 where
  pub id : read_u16 response 0 ≡ read_u16 query 0
  pub valid : validate_response query response ≡ ok tt

same_id-read_u16 : (r q : Bytes) → same_id r q ≡ true → read_u16 r 0 ≡ read_u16 q 0
unfolding read_u16
same_id-read_u16 r q h =
    let e = eq_bytes→eq (take 2 r) (take 2 q) h in
    let at = λ (i : ℕ) (lt : i < 2).
      sym (get_elem?-take 2 r i lt) ∙ (ap (λ x. get_elem? x i) e ∙ get_elem?-take 2 q i lt) in
    rw (at 0 (omega arith), at 1 (omega arith)) refl

truncated-id :
    (d : Bytes) → 12 ≤ length d → 4096 < length d → read_u16 (truncate_to d 4096) 0 ≡ read_u16 d 0
unfolding read_u16
truncated-id d h long = let (a, b, _, _) = truncated_header d 4096 h long in rw (a, b) refl

valid_header : (q r : Bytes) → validate_response q r ≡ ok tt → 12 ≤ length r
unfolding validate_response
valid_header q r h = ground arith

is_ok-eq : {A E : Type 0} (r : Result A E) → is_ok r ≡ true → (a : A) × (r ≡ ok a)
is_ok-eq (ok a) h = (a, refl)
is_ok-eq (err e) h = absurd (ground arith)

accepts-Genuine : (q d : Bytes) → accepts q d ≡ true → (12 ≤ length d) × Genuine q d
unfolding accepts
accepts-Genuine q d h =
    let (u, v) = is_ok-eq (validate_response q d) (ground arith) in
    (ground arith, record { id = same_id-read_u16 d q (ground arith); valid = v })

-- No datagram of the list is accepted.
abbrev pub AllStray : Bytes → List Bytes → Type 0
AllStray q [] = Unit
AllStray q (d ∷ ds) = (accepts q (take 4097 d) ≡ false) × AllStray q ds

module _ {T : Type 0} where
  checked-Genuine :
      (rejected : ValidationError → LegacyError T) (q d r : Bytes)
      → read_u16 d 0 ≡ read_u16 q 0
      → checked rejected q d ≡ ok r
      → Genuine q r
  checked-Genuine rejected q d r id h = elim (Result-cases (validate_response q d)) [
    | inl (u, e) ↦ record { id = ground arith; valid = ground arith }
    | inr (f, e) ↦ absurd (ground arith)
  ]

  deliver-Genuine : (q d r : Bytes) → accepts q d ≡ true → deliver {T = T} q d ≡ ok r → Genuine q r
  unfolding deliver
  deliver-Genuine q d r a h =
      let (long, g) = accepts-Genuine q d a in
      elim (Bool-cases (ltb max_udp_response (length d))) [
        | inl more ↦
            checked-Genuine truncated_udp_rejected q (truncate_to d 4096) r
              (truncated-id d long (ground arith) ∙ g.id) (ground arith)
        | inr fits ↦ let same : d ≡ r = ground arith in rw (← same) g
      ]

  receive_loop-Genuine :
      (q : Bytes) (ds : List (Result Bytes T)) (r : Bytes)
      → receive_loop q ds ≡ some (ok r)
      → Genuine q r
  unfolding receive_loop
  receive_loop-Genuine q [] r h = absurd (ground arith)
  receive_loop-Genuine q (err e ∷ ds) r h = absurd (ground arith)
  receive_loop-Genuine q (ok d ∷ ds) r h = elim (Bool-cases (accepts q (take 4097 d))) [
    | inl a ↦ deliver-Genuine q (take 4097 d) r a (ground arith)
    | inr a ↦ receive_loop-Genuine q ds r (ground arith)
  ]

  check_tcp-Genuine : (q d r : Bytes) → check_tcp {T = T} q d ≡ ok r → Genuine q r
  unfolding check_tcp
  check_tcp-Genuine q d r h = elim (Bool-cases (ltb (length d) 12 || not (same_id d q))) [
    | inl bad ↦ absurd (ground arith)
    | inr good ↦
        checked-Genuine tcp_rejected q d r (same_id-read_u16 d q (ground arith)) (ground arith)
  ]

  read_tcp-Genuine : (q stream r : Bytes) → read_tcp {T = T} q stream ≡ ok r → Genuine q r
  unfolding read_tcp
  read_tcp-Genuine q stream r h = elim (Option-cases (read_u16 stream 0)) [
    | inl e ↦ absurd (ground arith)
    | inr (n, e) ↦ elim (Option-cases (slice? stream 2 (2 + n))) [
      | inl e' ↦ absurd (ground arith)
      | inr (d, e') ↦ check_tcp-Genuine q d r (ground arith)
    ]
  ]

  query_tcp-Genuine :
      (q : Bytes) (exchange : Bytes → Result Bytes T) (r : Bytes)
      → query_tcp q exchange ≡ ok r
      → Genuine q r
  unfolding query_tcp
  query_tcp-Genuine q exchange r h = elim (Result-cases (exchange (framed q))) [
    | inl (stream, e) ↦ read_tcp-Genuine q stream r (ground arith)
    | inr (f, e) ↦ absurd (ground arith)
  ]

  -- Whatever arrives, on UDP or on TCP, a response is returned only if it has the ID of the query
  -- and passes the test of an answer to it, also after it was cut to 4096 bytes.
  pub query_legacy-Genuine :
      (q : Bytes) (tcp_retry : Bool) (sent : Result (Unit {0}) T) (ds : List (Result Bytes T))
      (exchange : Bytes → Result Bytes T) (r : Bytes)
      → query_legacy q tcp_retry sent ds exchange ≡ some (ok r)
      → Genuine q r
  unfolding query_legacy query_udp follow_up
  query_legacy-Genuine q tcp_retry (err e) ds exchange r h = absurd (ground arith)
  query_legacy-Genuine q tcp_retry (ok u) ds exchange r h =
      elim (Option-cases (receive_loop q ds)) [
        | inl e ↦ absurd (ground arith)
        | inr (outcome, e) ↦ elim (Result-cases outcome) [
          | inr (f, e') ↦ absurd (ground arith)
          | inl (first, e') ↦ elim (Bool-cases (is_truncated first && tcp_retry)) [
            | inl again ↦ query_tcp-Genuine q exchange r (ground arith)
            | inr stay ↦ receive_loop-Genuine q ds r (ground arith)
          ]
        ]
      ]

  -- Stray datagrams neither end the wait nor replace the genuine answer, which is returned as it is.
  pub receive_loop-AllStray :
      (q : Bytes) (strays : List Bytes) (d : Bytes) (rest : List (Result Bytes T))
      → AllStray q strays
      → accepts q d ≡ true
      → length d ≤ 4096
      → receive_loop q (map ok strays ++ (ok d ∷ rest)) ≡ some (ok d)
  unfolding receive_loop deliver
  receive_loop-AllStray q [] d rest stray a short = ground (arith, take_all 4097 d (omega arith))
  receive_loop-AllStray q (s ∷ strays) d rest stray a short =
      ground (arith, stray.0, receive_loop-AllStray q strays d rest stray.1 a short)
