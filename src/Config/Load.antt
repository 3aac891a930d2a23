-- ===== src/Config/Load.antt =====
-- `load_text` of src/config.rs, from the raw sections on.
pub mod Accepted
use dnsrivet.Prelude.{
  ℕ, ◌≡◌, ◌≢◌, refl, sym, ap, ◌∙◌, Bool, true, false, not, ◌&&◌, ◌||◌, ◌==◌, Option, none, some,
  List, [], ◌∷◌, ◌++◌, Result, ok, err, and_then, if◌then◌else◌, ltb, leb, arith, Result-cases,
  Bool-cases, inl, inr,
}
use dnsrivet.Prelude.Texts.{Text, codes, eq_text, is_empty, parse_unsigned, to_ascii_lowercase}
use dnsrivet.Upstream.Net.{IpAddr, v4}
use dnsrivet.Osdns.IpText.{parse_ip}
use dnsrivet.Config.Upstreams.{RawUpstream, Upstream, ConfigError, Warning, parse_upstream}
use dnsrivet.Config.Valid.{IsValid, parse_upstream-IsValid}

pub record RawService : Type 0 where
  pub log_level : Text
  pub log_path : Text
  pub cache_enable : Bool
  pub cache_size : ℕ

pub record RawListener : Type 0 where
  pub ip : Text
  pub port : ℕ

pub data LevelFilter : Type 0 where
  level_error : LevelFilter
  level_warn : LevelFilter
  level_info : LevelFilter
  level_debug : LevelFilter
  level_trace : LevelFilter

pub record Service : Type 0 where
  pub log_level : LevelFilter
  pub log_path : Option Text
  pub cache_enable : Bool
  pub cache_size : ℕ

pub record Listener : Type 0 where
  pub ip : IpAddr
  pub port : ℕ

pub record Config : Type 0 where
  pub service : Service
  pub listeners : List Listener
  pub upstreams : List Upstream

pub data LoadError : Type 0 where
  invalid_log_level : Text → LoadError
  invalid_listener : Text → Text → LoadError
  invalid_upstream : Text → ConfigError → LoadError
  no_upstream : LoadError

pub data LoadWarning : Type 0 where
  fatal_as_error : LoadWarning
  cache_disabled : LoadWarning
  in_upstream : Text → Warning → LoadWarning

-- `raw.log_level`, in lower case.
unfoldable pub parse_level : Text → Result (LevelFilter × List LoadWarning) LoadError
parse_level level =
    if is_empty level || eq_text level (codes "info")
    then ok (level_info, [])
    else if eq_text level (codes "trace")
    then ok (level_trace, [])
    else if eq_text level (codes "debug")
    then ok (level_debug, [])
    else if eq_text level (codes "warn") || eq_text level (codes "warning")
    then ok (level_warn, [])
    else if eq_text level (codes "error")
    then ok (level_error, [])
    else if eq_text level (codes "fatal")
    then ok (level_error, fatal_as_error ∷ [])
    else err (invalid_log_level level)

unfoldable pub parse_service : RawService → Result (Service × List LoadWarning) LoadError
parse_service raw = and_then (parse_level (to_ascii_lowercase raw.log_level)) (λ (level, warnings).
    ok (
      record {
        log_level = level;
        log_path = if is_empty raw.log_path then none else some raw.log_path;
        cache_enable = raw.cache_enable && ltb 0 raw.cache_size;
        cache_size = if leb raw.cache_size 1 then 1 else raw.cache_size;
      },
      if raw.cache_enable && raw.cache_size == 0
          then warnings ++ (cache_disabled ∷ [])
          else warnings,
    ))

-- `<=` on strings
unfoldable pub leb_text : Text → Text → Bool
leb_text [] t = true
leb_text (c ∷ s) [] = false
leb_text (c ∷ s) (d ∷ t) = ltb c d || (c == d && leb_text s t)

abbrev number_of : Text → ℕ
number_of key = elim (parse_unsigned 18446744073709551616 key) [
  | none ↦ 18446744073709551615
  | some n ↦ n
]

unfoldable pub comes_before : Text → Text → Bool
unfolding leb_text
comes_before a b = ltb (number_of a) (number_of b) || (number_of a == number_of b && leb_text a b)

unfoldable pub insert_section : {T : Type 0} → Text × T → List (Text × T) → List (Text × T)
insert_section section [] = section ∷ []
insert_section section (other ∷ sections) =
    let rest = insert_section section sections in
    if comes_before section.0 other.0 then section ∷ other ∷ sections else other ∷ rest

unfoldable pub sorted_numeric : {T : Type 0} → List (Text × T) → List (Text × T)
unfolding insert_section
sorted_numeric [] = []
sorted_numeric (section ∷ sections) = insert_section section (sorted_numeric sections)

unfoldable pub parse_listeners : List (Text × RawListener) → Result (List Listener) LoadError
parse_listeners [] = ok []
parse_listeners ((key, raw) ∷ sections) = elim (parse_ip raw.ip) [
  | none ↦ err (invalid_listener key raw.ip)
  | some a ↦
      and_then (parse_listeners sections)
        (λ listeners. ok (record { ip = a; port = raw.port } ∷ listeners))
]

abbrev in_section : Text → List Warning → List LoadWarning
in_section key [] = []
in_section key (w ∷ warnings) = in_upstream key w ∷ in_section key warnings

unfoldable pub parse_upstreams :
    List (Text × RawUpstream) → Result (List Upstream × List LoadWarning) LoadError
parse_upstreams [] = ok ([], [])
parse_upstreams ((key, raw) ∷ sections) = elim (parse_upstream key raw) [
  | err e ↦ err (invalid_upstream key e)
  | ok (u, warnings) ↦
      and_then (parse_upstreams sections)
        (λ (upstreams, more). ok (u ∷ upstreams, in_section key warnings ++ more))
]

abbrev pub or_local : List Listener → List Listener
or_local [] = record { ip = v4 2130706433; port = 53 } ∷ []
or_local (l ∷ listeners) = l ∷ listeners

abbrev pub some_upstream : List Upstream → Result (List Upstream) LoadError
some_upstream [] = err no_upstream
some_upstream (u ∷ upstreams) = ok (u ∷ upstreams)

-- The validation of `load_text`: the configuration and the warnings of the sections.
unfoldable pub load_sections :
    RawService
    → List (Text × RawListener)
    → List (Text × RawUpstream)
    → Result (Config × List LoadWarning) LoadError
load_sections service listeners upstreams =
    and_then (parse_service service) (λ (service', warnings).
      and_then (parse_listeners (sorted_numeric listeners)) (λ listeners'.
        and_then (parse_upstreams (sorted_numeric upstreams)) (λ (upstreams', more).
          and_then (some_upstream upstreams') (λ upstreams''. ok (
            record { service = service'; listeners = or_local listeners'; upstreams = upstreams'' },
            warnings ++ more,
          )))))
