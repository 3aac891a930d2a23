-- ===== src/Config/Valid.antt =====
-- What holds of every upstream that `parse_upstream`, of src/config.rs, accepts.
use dnsrivet.Prelude.{
  ℕ, ◌<◌, ◌≡◌, refl, true, false, Option, none, some, List, [], ◌∷◌, ok, arith, inl, inr,
  Bool-cases, Option-cases, Result-cases, if◌then◌else◌,
}
use dnsrivet.Prelude.Texts.{
  Text, codes, eq_text, is_empty, split_once, starts_with, to_ascii_lowercase, strip_prefix,
}
use dnsrivet.Upstream.Net.{IpAddr}
use dnsrivet.Osdns.IpText.{parse_ip}
use dnsrivet.Config.Endpoint.{split_host_port, split_host_port_bound}
use dnsrivet.Config.Upstreams.{
  RawUpstream, Proto, doh, doh3, dot, doq, legacy, default_port, Upstream, Warning, explicit_type,
  inferred_type, split_at, scheme_of, rest_of, parse_proto, parse_parts, choose_proto, or_default,
  is_http, url_path, place, host_and_port, pick_ip, parse_ip_stack, parse_upstream,
}

-- What an accepted upstream promises.
pub record IsValid (raw : RawUpstream) (u : Upstream) : Type 0 where
  pub port_bound : u.port < 65536
  -- A URL has a path, the other endpoints have none.
  pub path_fits : starts_with (codes "/") u.path ≡ is_http u.proto
  pub no_path : is_http u.proto ≡ false → u.path ≡ []
  -- A type that is given is the one that is used.
  pub type_kept :
      (t : Proto) → explicit_type (to_ascii_lowercase raw.kind) ≡ ok (some t) → u.proto ≡ t
  -- An address that is configured is used, else that of a host that is one.
  pub ip_known :
      (a : IpAddr)
      → parse_ip (if is_empty raw.bootstrap_ip then u.host else raw.bootstrap_ip) ≡ some a
      → u.bootstrap_ip ≡ some a
  pub timeout_is : u.timeout_ms ≡ or_default raw.timeout

default_port_bound : (proto : Proto) → default_port proto < 65536
unfolding default_port
default_port_bound doh = ground arith
default_port_bound doh3 = ground arith
default_port_bound dot = ground arith
default_port_bound doq = ground arith
default_port_bound legacy = ground arith

choose_proto-explicit :
    (t : Proto) (inferred : Option Proto) (rest endpoint : Text) (proto : Proto)
    → choose_proto (some t) inferred rest endpoint ≡ ok proto
    → proto ≡ t
unfolding choose_proto
choose_proto-explicit t none rest endpoint proto h = ground arith
choose_proto-explicit t (some i) rest endpoint proto h = ground arith

url_path-slash :
    (proto : Proto) (scheme : Option Text) (rest : Text) (parts : Option (Text × Text))
    → starts_with (codes "/") (url_path proto scheme (split_at rest parts)).1 ≡ true
unfolding url_path starts_with strip_prefix is_empty
url_path-slash proto scheme rest none = refl
url_path-slash proto scheme rest (some (hostport, path)) =
    elim (Bool-cases (eq_text (b'/' ∷ path) (codes "/"))) [
      | inl root ↦ rw root refl
      | inr other ↦ rw other refl
    ]

place-path :
    (proto : Proto) (scheme : Option Text) (rest : Text) (placed : Text × Text × List Warning)
    → place proto scheme rest ≡ ok placed
    → starts_with (codes "/") placed.1 ≡ is_http proto
unfolding place starts_with strip_prefix
place-path proto scheme rest placed h = elim (Bool-cases (is_http proto)) [
  | inl http ↦ ground (arith, url_path-slash proto scheme rest (split_once b'/' rest))
  | inr plain ↦ ground arith
]

place-plain :
    (proto : Proto) (scheme : Option Text) (rest : Text) (placed : Text × Text × List Warning)
    → place proto scheme rest ≡ ok placed
    → is_http proto ≡ false
    → placed.1 ≡ []
unfolding place
place-plain proto scheme rest placed h plain = ground arith

host_and_port_bound :
    (proto : Proto) (hostport : Text) (found : Text × ℕ)
    → host_and_port proto hostport ≡ ok found
    → found.1 < 65536
unfolding host_and_port
host_and_port_bound proto hostport found h =
    elim (Option-cases (split_host_port hostport (default_port proto))) [
      | inl none_found ↦ absurd (ground arith)
      | inr (r, is) ↦
          split_host_port_bound hostport (default_port proto) found (default_port_bound proto)
            (ground arith)
    ]

pick_ip-known :
    (bootstrap_ip host : Text) (ip : Option IpAddr) (a : IpAddr)
    → pick_ip bootstrap_ip host ≡ ok ip
    → parse_ip (if is_empty bootstrap_ip then host else bootstrap_ip) ≡ some a
    → ip ≡ some a
unfolding pick_ip
pick_ip-known bootstrap_ip host ip a h known = elim (Bool-cases (is_empty bootstrap_ip)) [
  | inl nothing ↦ ground arith
  | inr given ↦ ground arith
]

parse_proto-explicit :
    (raw : RawUpstream) (proto t : Proto)
    → parse_proto raw ≡ ok proto
    → explicit_type (to_ascii_lowercase raw.kind) ≡ ok (some t)
    → proto ≡ t
unfolding parse_proto
parse_proto-explicit raw proto t h given = elim (Result-cases (inferred_type (scheme_of raw))) [
  | inr (e, failed) ↦ absurd (ground arith)
  | inl (inferred, is) ↦
      choose_proto-explicit t inferred (rest_of raw) raw.endpoint proto (ground arith)
]

parse_parts-IsValid :
    (key : Text) (raw : RawUpstream) (proto : Proto) (u : Upstream) (warnings : List Warning)
    → parse_proto raw ≡ ok proto
    → parse_parts key raw proto ≡ ok (u, warnings)
    → IsValid raw u
unfolding parse_parts
parse_parts-IsValid key raw proto u warnings chosen h =
    elim (Result-cases (place proto (scheme_of raw) (rest_of raw))) [
      | inr (e, failed) ↦ absurd (ground arith)
      | inl ((hostport, path, bare), placed) ↦ elim (Result-cases (host_and_port proto hostport)) [
        | inr (e, failed) ↦ absurd (ground arith)
        | inl ((host, port), found) ↦ elim (Result-cases (pick_ip raw.bootstrap_ip host)) [
          | inr (e, failed) ↦ absurd (ground arith)
          | inl (ip, picked) ↦
              elim (Result-cases (parse_ip_stack (to_ascii_lowercase raw.ip_stack))) [
                | inr (e, failed) ↦ absurd (ground arith)
                | inl ((stack, split), stacked) ↦ record {
                  port_bound =
                      ground (arith, host_and_port_bound proto hostport (host, port) found);
                  path_fits = ground (
                    arith,
                    place-path proto (scheme_of raw) (rest_of raw) (hostport, path, bare) placed,
                  );
                  no_path = λ plain. ground (
                    arith,
                    place-plain proto (scheme_of raw) (rest_of raw) (hostport, path, bare) placed,
                  );
                  type_kept =
                      λ t given. ground (arith, parse_proto-explicit raw proto t chosen given);
                  ip_known =
                      λ a known. ground (arith, pick_ip-known raw.bootstrap_ip host ip a picked);
                  timeout_is = ground arith;
                }
              ]
        ]
      ]
    ]

-- An upstream that is accepted has a port of 16 bits, a path that begins with a slash if it is
-- asked over HTTP and an empty one otherwise, the type that was given, if one was, the address
-- that was configured or, without one, that its host is, if it is one, and the timeout that was
-- given or else 5000 ms.
pub parse_upstream-IsValid :
    (key : Text) (raw : RawUpstream) (u : Upstream) (warnings : List Warning)
    → parse_upstream key raw ≡ ok (u, warnings)
    → IsValid raw u
unfolding parse_upstream
parse_upstream-IsValid key raw u warnings h = elim (Bool-cases (is_empty raw.endpoint)) [
  | inl nothing ↦ absurd (ground arith)
  | inr some_endpoint ↦ elim (Result-cases (parse_proto raw)) [
    | inr (e, failed) ↦ absurd (ground arith)
    | inl (proto, chosen) ↦ parse_parts-IsValid key raw proto u warnings chosen (ground arith)
  ]
]
