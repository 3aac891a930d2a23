-- ===== src/Tests/Config.antt =====
-- src/config.rs on concrete sections.
use dnsrivet.Prelude.{List, true, ◌≡◌, refl, none, some, [], ◌∷◌, ok}
use dnsrivet.Prelude.Texts.{Text, codes}
use dnsrivet.Upstream.Net.{v4}
use dnsrivet.Config.Endpoint.{split_host_port}
use dnsrivet.Config.Upstreams.{
  RawUpstream, doh, dot, only_v4, bare_endpoint, Upstream, parse_upstream,
}
use dnsrivet.Config.Load.{RawService, level_info, Config, LoadWarning, in_upstream}
use dnsrivet.Config.Valid.{IsValid, parse_upstream-IsValid}

split_host_port-forms :
    (split_host_port (codes "[::1]:5353") 53 ≡ some (codes "::1", 5353))
    × (split_host_port (codes "[::1]") 53 ≡ some (codes "::1", 53))
    × (split_host_port (codes "::1") 53 ≡ some (codes "::1", 53))
    × (split_host_port (codes "dns.test:853") 53 ≡ some (codes "dns.test", 853))
    × (split_host_port (codes "dns.test:70000") 53 ≡ none)
unfolding split_host_port dnsrivet.Prelude.Texts.is_empty dnsrivet.Prelude.Texts.strip_prefix
    dnsrivet.Prelude.Texts.split_once dnsrivet.Prelude.Texts.parse_unsigned
    dnsrivet.Prelude.Texts.count_char
split_host_port-forms = (refl, refl, refl, refl, refl)

abbrev section : RawUpstream
section = record {
  name = [];
  kind = codes "DoH";
  endpoint = codes "9.9.9.9";
  bootstrap_ip = [];
  timeout = none;
  ip_stack = codes "v4";
}

abbrev nine : Upstream
nine = record {
  name = codes "upstream.0";
  proto = doh;
  host = codes "9.9.9.9";
  port = 443;
  path = codes "/dns-query";
  bootstrap_ip = some (v4 151587081);
  timeout_ms = 5000;
  ip_stack = only_v4;
}

parse_upstream-section :
    parse_upstream (codes "0") section ≡ ok (nine, bare_endpoint doh (codes "9.9.9.9") ∷ [])
unfolding parse_upstream dnsrivet.Prelude.Texts.is_empty dnsrivet.Config.Upstreams.parse_proto
    dnsrivet.Config.Upstreams.explicit_type dnsrivet.Prelude.Texts.to_ascii_lowercase
    dnsrivet.Prelude.eq_bytes dnsrivet.Config.Upstreams.inferred_type
    dnsrivet.Config.Endpoint.split_scheme dnsrivet.Prelude.Texts.split_once_text
    dnsrivet.Config.Upstreams.choose_proto dnsrivet.Config.Upstreams.parse_parts
    dnsrivet.Config.Upstreams.place dnsrivet.Config.Upstreams.is_http
    dnsrivet.Config.Upstreams.host_and_port split_host_port dnsrivet.Prelude.Texts.split_once
    dnsrivet.Prelude.Texts.count_char dnsrivet.Config.Upstreams.pick_ip
    dnsrivet.Config.Upstreams.parse_ip_stack dnsrivet.Config.Upstreams.default_port
    dnsrivet.Osdns.IpText.parse_ip
parse_upstream-section = refl

parse_upstream-IsValid_example : IsValid section nine
parse_upstream-IsValid_example =
    parse_upstream-IsValid (codes "0") section nine (bare_endpoint doh (codes "9.9.9.9") ∷ [])
      parse_upstream-section

abbrev defaults : RawService
defaults = record {
  log_level = codes "info";
  log_path = [];
  cache_enable = true;
  cache_size = 4096;
}

abbrev bare_dot : RawUpstream
bare_dot = record section { kind = []; endpoint = codes "tls://dns.test" }

abbrev sections : List (Text × RawUpstream)
sections = (codes "10", section) ∷ (codes "2", bare_dot) ∷ []

abbrev loaded : Config
loaded = record {
  service = record {
    log_level = level_info;
    log_path = none;
    cache_enable = true;
    cache_size = 4096;
  };
  listeners = record { ip = v4 2130706433; port = 53 } ∷ [];
  upstreams =
      record {
        name = codes "upstream.2";
        proto = dot;
        host = codes "dns.test";
        port = 853;
        path = [];
        bootstrap_ip = none;
        timeout_ms = 5000;
        ip_stack = only_v4;
      }
      ∷ record nine { name = codes "upstream.10" }
      ∷ [];
}

abbrev noted : List LoadWarning
noted = in_upstream (codes "10") (bare_endpoint doh (codes "9.9.9.9")) ∷ []
