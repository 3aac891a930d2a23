-- ===== src/Upstream/Manager.antt =====
-- src/upstream/mod.rs: the upstream manager: what one upstream returns, which answers are used, and
-- the fallback to the system's own servers. The transports' outcomes are arguments; a permit says
-- whether the limit on attempts has room.
pub mod Attempts
pub mod Fallback
use dnsrivet.Prelude.{
  ℕ, ◌+◌, ◌≤◌, Bool, true, false, not, ◌&&◌, Option, none, some, Result, ok, err, List, [], ◌∷◌,
  Bytes, byte, take, write, leb, ltb, ◌==◌, if◌then◌else◌, bit_and, map_or,
}
use dnsrivet.Wire.Validate.{ValidationError, validate_response}
use dnsrivet.Upstream.Net.{IpAddr, SocketAddr, is_self_address}

pub record Manager : Type 0 where
  pub system_fallback : List SocketAddr
  pub fallback_active : Bool
  pub fallback_failed : Bool

-- What an upstream needs of its configuration.
pub data Backend : Type 0 where
  legacy : ℕ → Option IpAddr → List SocketAddr → Backend
  encrypted : Backend

pub record Entry : Type 0 where
  pub timeout_ms : ℕ
  pub backend : Backend

-- `T` is the text of a transport.
pub data AttemptError (T : Type 0) : Type 0 where
  unparseable : T → AttemptError T
  unsupported_shape : AttemptError T
  failed : T → AttemptError T
  self_address : SocketAddr → AttemptError T
  no_addresses : AttemptError T
  rejected : ValidationError → AttemptError T
  timeout : AttemptError T

-- What the test reads of a parsed message of hickory.
pub record Message : Type 0 where
  pub is_query : Bool
  pub is_query_opcode : Bool
  pub queries : ℕ
  pub answers : ℕ
  pub authorities : ℕ
  pub additionals : ℕ
  pub signed : Bool

unfoldable pub safe_encrypted_query : Message → Bool
safe_encrypted_query m =
    m.is_query
    && m.is_query_opcode
    && m.queries == 1
    && m.answers == 0
    && m.authorities == 0
    && m.additionals == 0
    && not m.signed

-- `Request::message`; `parsed` is the outcome of `Message::from_vec`.
unfoldable pub message : {T : Type 0} → Result Message T → Result Message (AttemptError T)
message (err e) = err (unparseable e)
message (ok m) = if safe_encrypted_query m then ok m else err unsupported_shape

-- Milliseconds.
unfoldable pub outer_timeout : Entry → Option ℕ
outer_timeout entry = if entry.timeout_ms == 0 then none else elim entry.backend [
  | legacy _ _ _ ↦ some entry.timeout_ms
  | encrypted ↦ some (entry.timeout_ms + 250)
]

-- What an attempt meets outside this file.
pub record Transports (T : Type 0) : Type 0 where
  pub parsed : Result Message T
  pub resolve : Result (List IpAddr) T
  pub query_legacy : SocketAddr → Result Bytes T
  pub query_channel : Message → Result Bytes T

module _ {T : Type 0} where
  -- The loop over the resolved addresses; the last argument is `last_err`.
  unfoldable pub legacy_loop :
      (SocketAddr → Result Bytes T)
      → ℕ
      → List SocketAddr
      → List IpAddr
      → AttemptError T
      → Result Bytes (AttemptError T)
  legacy_loop ask port deny [] last_err = err last_err
  legacy_loop ask port deny (ip ∷ ips) last_err =
      let addr : SocketAddr = record { ip = ip; port = port } in
      let skipped = legacy_loop ask port deny ips (self_address addr) in
      if is_self_address addr deny then skipped else elim (ask addr) [
        | ok response ↦ ok response
        | err e ↦ legacy_loop ask port deny ips (failed e)
      ]

  abbrev pub as_failed : {A : Type 0} → Result A T → Result A (AttemptError T)
  as_failed (ok a) = ok a
  as_failed (err e) = err (failed e)

  unfoldable pub attempt_legacy :
      Transports T → ℕ → Option IpAddr → List SocketAddr → Result Bytes (AttemptError T)
  attempt_legacy net port (some ip) deny =
      as_failed (net.query_legacy (record { ip = ip; port = port }))
  attempt_legacy net port none deny = elim net.resolve [
    | err e ↦ err (failed e)
    | ok ips ↦ legacy_loop net.query_legacy port deny ips no_addresses
  ]

  -- `validate_response` on what the channel returned.
  unfoldable pub validated : Bytes → Result Bytes T → Result Bytes (AttemptError T)
  validated query (err e) = err (failed e)
  validated query (ok response) = elim (validate_response query response) [
    | ok _ ↦ ok response
    | err e ↦ err (rejected e)
  ]

  unfoldable pub attempt_encrypted : Transports T → Bytes → Result Bytes (AttemptError T)
  attempt_encrypted net query = elim (message net.parsed) [
    | err e ↦ err e
    | ok m ↦ validated query (net.query_channel m)
  ]

  unfoldable pub attempt : Entry → Transports T → Bytes → Result Bytes (AttemptError T)
  attempt entry net query = elim entry.backend [
    | legacy port ip deny ↦ attempt_legacy net port ip deny
    | encrypted ↦ attempt_encrypted net query
  ]

  -- `Entry::run`: `took` is how long the attempt takes, `none` if it never ends. The result is
  -- `none` where the wait has no end.
  unfoldable pub run :
      Entry → Transports T → Bytes → Option ℕ → Option (Result Bytes (AttemptError T))
  run entry net query took = elim (outer_timeout entry) [
    | none ↦ map_or took none (λ _. some (attempt entry net query))
    | some limit ↦
        some (if map_or took false (λ t. leb t limit) then attempt entry net query else err timeout)
  ]

abbrev pub is_servfail : Bytes → Bool
is_servfail response = bit_and (byte response 3) 0x0f == 2

unfoldable pub set_system_fallback : Manager → List SocketAddr → Manager
set_system_fallback manager servers = record manager { system_fallback = servers }

-- The manager after the call, and the answer, which gets the ID of the query.
unfoldable pub configured_answer :
    {E : Type 0} → Manager → Bytes → Result Bytes E → Manager × Option Bytes
configured_answer manager query (err e) = (manager, none)
configured_answer manager query (ok response) = if is_servfail response then (manager, none) else (
  record manager { fallback_active = false; fallback_failed = false },
  some (write response 0 (take 2 query)),
)

-- The loop over the servers of the fallback; a timeout of two seconds is one of the errors of `ask`.
unfoldable pub system_loop :
    {E : Type 0}
    → (SocketAddr → Result Bytes E)
    → Manager
    → List SocketAddr
    → Manager × Option Bytes
system_loop ask manager [] = (record manager { fallback_failed = true }, none)
system_loop ask manager (server ∷ servers) =
    let rest = system_loop ask manager servers in
    elim (ask server) [
      | err e ↦ rest
      | ok response ↦
          if is_servfail response
          then rest
          else (record manager { fallback_failed = false }, some response)
    ]

unfoldable pub forward_to_system :
    {E : Type 0} → Manager → Bool → (SocketAddr → Result Bytes E) → Manager × Option Bytes
forward_to_system manager permit ask =
    if not permit then (manager, none) else elim manager.system_fallback [
      | [] ↦ (record manager { fallback_failed = true }, none)
      | _ ∷ _ ↦ system_loop ask (record manager { fallback_active = true }) manager.system_fallback
    ]

-- The end of `forward`: the first permit is that of the fallback.
unfoldable pub or_system :
    {E : Type 0}
    → Manager × Option Bytes
    → Bool
    → (SocketAddr → Result Bytes E)
    → Manager × Option Bytes
or_system (manager, some response) permit ask = (manager, some response)
or_system (manager, none) permit ask = forward_to_system manager permit ask

-- `forward` with one configured upstream, whose run gives `outcome`; without a permit for it there is
-- no fallback either.
unfoldable pub forward_single :
    {E F : Type 0}
    → Manager
    → Bytes
    → Bool
    → Result Bytes E
    → Bool
    → (SocketAddr → Result Bytes F)
    → Manager × Option Bytes
forward_single manager query permit outcome system_permit ask =
    if permit
    then or_system (configured_answer manager query outcome) system_permit ask
    else (manager, none)
