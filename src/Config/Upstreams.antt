-- ===== src/Config/Upstreams.antt =====
-- `parse_upstream` of src/config.rs.
use dnsrivet.Prelude.{
  ℕ, Bool, true, false, ◌||◌, Option, none, some, List, [], ◌∷◌, ◌++◌, Result, ok, err, and_then,
  if◌then◌else◌,
}
use dnsrivet.Prelude.Texts.{
  Text, codes, eq_text, is_empty, split_once, contains_char, to_ascii_lowercase,
}
use dnsrivet.Upstream.Net.{IpAddr}
use dnsrivet.Osdns.IpText.{parse_ip}
use dnsrivet.Config.Endpoint.{split_scheme, split_host_port}

pub record RawUpstream : Type 0 where
  pub name : Text
  pub kind : Text
  pub endpoint : Text
  pub bootstrap_ip : Text
  pub timeout : Option ℕ
  pub ip_stack : Text

pub data Proto : Type 0 where
  doh : Proto
  doh3 : Proto
  dot : Proto
  doq : Proto
  legacy : Proto

unfoldable pub default_port : Proto → ℕ
default_port doh = 443
default_port doh3 = 443
default_port dot = 853
default_port doq = 853
default_port legacy = 53

pub data IpStack : Type 0 where
  both : IpStack
  only_v4 : IpStack
  only_v6 : IpStack

pub record Upstream : Type 0 where
  pub name : Text
  pub proto : Proto
  pub host : Text
  pub port : ℕ
  pub path : Text
  pub bootstrap_ip : Option IpAddr
  pub timeout_ms : ℕ
  pub ip_stack : IpStack

pub data ConfigError : Type 0 where
  endpoint_required : ConfigError
  invalid_type : Text → ConfigError
  unsupported_scheme : Text → ConfigError
  conflicting_type : Proto → Proto → ConfigError
  type_required : Text → ConfigError
  not_a_url : Proto → ConfigError
  invalid_host : Text → ConfigError
  invalid_bootstrap_ip : Text → ConfigError
  invalid_ip_stack : Text → ConfigError

pub data Warning : Type 0 where
  bare_endpoint : Proto → Text → Warning
  split_as_both : Warning

infixl 5 ◌>>=◌
abbrev ◌>>=◌ :
    {A B : Type 0} → Result A ConfigError → (A → Result B ConfigError) → Result B ConfigError
◌>>=◌ r f = and_then r f

-- `raw.kind`, in lower case.
unfoldable pub explicit_type : Text → Result (Option Proto) ConfigError
explicit_type kind =
    if is_empty kind
    then ok none
    else if eq_text kind (codes "doh")
    then ok (some doh)
    else if eq_text kind (codes "doh3")
    then ok (some doh3)
    else if eq_text kind (codes "dot")
    then ok (some dot)
    else if eq_text kind (codes "doq")
    then ok (some doq)
    else if eq_text kind (codes "legacy")
    then ok (some legacy)
    else err (invalid_type kind)

unfoldable pub inferred_type : Option Text → Result (Option Proto) ConfigError
inferred_type none = ok none
inferred_type (some scheme) =
    if eq_text scheme (codes "https")
    then ok (some doh)
    else if eq_text scheme (codes "h3")
    then ok (some doh3)
    else if eq_text scheme (codes "quic")
    then ok (some doq)
    else if eq_text scheme (codes "tls") || eq_text scheme (codes "dot")
    then ok (some dot)
    else err (unsupported_scheme scheme)

-- `i == t || (i == Proto::Doh && t == Proto::Doh3)`
unfoldable pub is_compatible : Proto → Proto → Bool
is_compatible doh doh = true
is_compatible doh doh3 = true
is_compatible doh3 doh3 = true
is_compatible dot dot = true
is_compatible doq doq = true
is_compatible legacy legacy = true
is_compatible _ _ = false

abbrev is_some_ip : Option IpAddr → Bool
is_some_ip none = false
is_some_ip (some _) = true

-- Whether the endpoint is an address, with a port or without one.
unfoldable pub is_address : Text → Bool
is_address rest =
    is_some_ip (parse_ip rest)
    || elim (split_host_port rest 53) [ none ↦ false | some (host, _) ↦ is_some_ip (parse_ip host) ]

unfoldable pub choose_proto : Option Proto → Option Proto → Text → Text → Result Proto ConfigError
unfolding is_address
choose_proto (some t) none rest endpoint = ok t
choose_proto none (some i) rest endpoint = ok i
choose_proto (some t) (some i) rest endpoint =
    if is_compatible i t then ok t else err (conflicting_type i t)
choose_proto none none rest endpoint =
    if is_address rest then ok legacy else err (type_required endpoint)

unfoldable pub is_http : Proto → Bool
is_http doh = true
is_http doh3 = true
is_http dot = false
is_http doq = false
is_http legacy = false

abbrev pub split_at : Text → Option (Text × Text) → Text × Text
split_at rest none = (rest, [])
split_at rest (some (hostport, path)) = (hostport, b'/' ∷ path)

-- The path of a URL and the warning on a bare endpoint.
unfoldable pub url_path : Proto → Option Text → Text × Text → Text × Text × List Warning
url_path proto scheme (hostport, path) =
    if is_empty path || eq_text path (codes "/")
    then (
      hostport,
      codes "/dns-query",
      elim scheme [ none ↦ bare_endpoint proto hostport ∷ [] | some _ ↦ [] ],
    )
    else (hostport, path, [])

unfoldable pub place : Proto → Option Text → Text → Result (Text × Text × List Warning) ConfigError
unfolding url_path
place proto scheme rest =
    if is_http proto
    then ok (url_path proto scheme (split_at rest (split_once b'/' rest)))
    else if contains_char b'/' rest
    then err (not_a_url proto)
    else ok (rest, [], [])

unfoldable pub host_and_port : Proto → Text → Result (Text × ℕ) ConfigError
host_and_port proto hostport = elim (split_host_port hostport (default_port proto)) [
  | none ↦ err (invalid_host hostport)
  | some found ↦ ok found
]

-- The configured address, or that of a host that is one.
unfoldable pub pick_ip : Text → Text → Result (Option IpAddr) ConfigError
pick_ip bootstrap_ip host =
    if is_empty bootstrap_ip then ok (parse_ip host) else elim (parse_ip bootstrap_ip) [
      | none ↦ err (invalid_bootstrap_ip bootstrap_ip)
      | some a ↦ ok (some a)
    ]

-- `raw.ip_stack`, in lower case.
unfoldable pub parse_ip_stack : Text → Result (IpStack × List Warning) ConfigError
parse_ip_stack stack =
    if is_empty stack || eq_text stack (codes "both")
    then ok (both, [])
    else if eq_text stack (codes "v4")
    then ok (only_v4, [])
    else if eq_text stack (codes "v6")
    then ok (only_v6, [])
    else if eq_text stack (codes "split")
    then ok (both, split_as_both ∷ [])
    else err (invalid_ip_stack stack)

abbrev pub or_default : Option ℕ → ℕ
or_default none = 5000
or_default (some timeout) = timeout

abbrev pub scheme_of : RawUpstream → Option Text
scheme_of raw = (split_scheme raw.endpoint).0

abbrev pub rest_of : RawUpstream → Text
rest_of raw = (split_scheme raw.endpoint).1

-- The validation once the protocol is known: the upstream and the warnings of its section.
unfoldable pub parse_parts :
    Text → RawUpstream → Proto → Result (Upstream × List Warning) ConfigError
parse_parts key raw proto = do
  (hostport, path, bare) ← place proto (scheme_of raw) (rest_of raw)
  (host, port) ← host_and_port proto hostport
  ip ← pick_ip raw.bootstrap_ip host
  (stack, split) ← parse_ip_stack (to_ascii_lowercase raw.ip_stack)
  ok (
    record {
      name = if is_empty raw.name then codes "upstream." ++ key else raw.name;
      proto = proto;
      host = host;
      port = port;
      path = path;
      bootstrap_ip = ip;
      timeout_ms = or_default raw.timeout;
      ip_stack = stack;
    },
    bare ++ split,
  )

unfoldable pub parse_proto : RawUpstream → Result Proto ConfigError
parse_proto raw = do
  explicit ← explicit_type (to_ascii_lowercase raw.kind)
  inferred ← inferred_type (scheme_of raw)
  choose_proto explicit inferred (rest_of raw) raw.endpoint

unfoldable pub parse_upstream : Text → RawUpstream → Result (Upstream × List Warning) ConfigError
parse_upstream key raw =
    if is_empty raw.endpoint
    then err endpoint_required
    else and_then (parse_proto raw) (parse_parts key raw)
