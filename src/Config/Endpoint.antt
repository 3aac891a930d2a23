-- ===== src/Config/Endpoint.antt =====
-- The parts of an endpoint, of src/config.rs.
use dnsrivet.Prelude.{
  ℕ, ◌<◌, ◌≡◌, Option, none, some, if◌then◌else◌, ltb, arith, Option-cases, Bool-cases, inl, inr,
}
use dnsrivet.Prelude.Texts.{
  Text, codes, is_empty, strip_prefix, split_once, split_once_text, count_char, parse_unsigned,
  parse_unsigned_bound,
}

unfoldable pub split_scheme : Text → Option Text × Text
split_scheme endpoint = elim (split_once_text (codes "://") endpoint) [
  | some (scheme, rest) ↦ (some scheme, rest)
  | none ↦ (none, endpoint)
]

-- A host and the text of a `u16`.
unfoldable pub with_port : Text → Text → Option (Text × ℕ)
with_port host port = elim (parse_unsigned 65536 port) [ none ↦ none | some n ↦ some (host, n) ]

-- `[host]tail`
unfoldable pub bracketed : ℕ → Option (Text × Text) → Option (Text × ℕ)
unfolding with_port
bracketed default_port none = none
bracketed default_port (some (host, tail)) = elim (strip_prefix (codes ":") tail) [
  | some port ↦ with_port host port
  | none ↦ if is_empty tail then some (host, default_port) else none
]

unfoldable pub unbracketed : ℕ → Text → Option (Text × ℕ)
unfolding with_port
unbracketed default_port s =
    if ltb 1 (count_char b':' s) then some (s, default_port) else elim (split_once b':' s) [
      | some (host, port) ↦ with_port host port
      | none ↦ some (s, default_port)
    ]

unfoldable pub split_host_port : Text → ℕ → Option (Text × ℕ)
unfolding bracketed unbracketed
split_host_port s default_port = if is_empty s then none else elim (strip_prefix (codes "[") s) [
  | some rest ↦ bracketed default_port (split_once b']' rest)
  | none ↦ unbracketed default_port s
]

with_port_bound : (host port : Text) (r : Text × ℕ) → with_port host port ≡ some r → r.1 < 65536
unfolding with_port
with_port_bound host port r h = elim (Option-cases (parse_unsigned 65536 port)) [
  | inl no_number ↦ absurd (ground arith)
  | inr (n, is) ↦ ground (arith, parse_unsigned_bound 65536 port n is)
]

bracketed_bound :
    (default_port : ℕ) (parts : Option (Text × Text)) (r : Text × ℕ)
    → default_port < 65536
    → bracketed default_port parts ≡ some r
    → r.1 < 65536
unfolding bracketed
bracketed_bound default_port none r d h = absurd (ground arith)
bracketed_bound default_port (some (host, tail)) r d h =
    elim (Option-cases (strip_prefix (codes ":") tail)) [
      | inl no_colon ↦ elim (Bool-cases (is_empty tail)) [
        | inl nothing ↦ ground arith
        | inr rest ↦ absurd (ground arith)
      ]
      | inr (port, is) ↦ with_port_bound host port r (ground arith)
    ]

unbracketed_bound :
    (default_port : ℕ) (s : Text) (r : Text × ℕ)
    → default_port < 65536
    → unbracketed default_port s ≡ some r
    → r.1 < 65536
unfolding unbracketed
unbracketed_bound default_port s r d h = elim (Bool-cases (ltb 1 (count_char b':' s))) [
  | inl literal ↦ ground arith
  | inr one ↦ elim (Option-cases (split_once b':' s)) [
    | inl no_colon ↦ ground arith
    | inr ((host, port), is) ↦ with_port_bound host port r (ground arith)
  ]
]

pub split_host_port_bound :
    (s : Text) (default_port : ℕ) (r : Text × ℕ)
    → default_port < 65536
    → split_host_port s default_port ≡ some r
    → r.1 < 65536
unfolding split_host_port
split_host_port_bound s default_port r d h = elim (Bool-cases (is_empty s)) [
  | inl nothing ↦ absurd (ground arith)
  | inr some_text ↦ elim (Option-cases (strip_prefix (codes "[") s)) [
    | inl no_bracket ↦ unbracketed_bound default_port s r d (ground arith)
    | inr (rest, is) ↦ bracketed_bound default_port (split_once b']' rest) r d (ground arith)
  ]
]
