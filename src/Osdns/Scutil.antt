-- ===== src/Osdns/Scutil.antt =====
-- `parse_scutil_global_dns` of src/osdns/macos.rs: the default resolvers in the output of
-- `scutil --dns`.
pub mod Blocks
use dnsrivet.Prelude.{
  ℕ, Bool, true, false, Option, none, some, List, [], ◌∷◌, ◌++◌, Result, ok, err, and_then,
  if◌then◌else◌,
}
use dnsrivet.Prelude.Texts.{Text, codes, eq_text, trim, lines, starts_with, split_once}
use dnsrivet.Osdns.Addresses.{DnsAddr, AddressError, parse_dns_socket}

-- What a line is, in the order in which the loop tests it.
pub data Line : Type 0 where
  global_title : Line
  other_title : Line
  resolver : Line
  domain : Line
  nameserver : Text → Line
  plain : Line

nameserver_line : Text → Line
unfolding starts_with split_once trim
nameserver_line line =
    if starts_with (codes "nameserver[") line
    then elim (split_once b':' line) [ none ↦ plain | some (_, value) ↦ nameserver (trim value) ]
    else plain

unfoldable pub line_kind : Text → Line
unfolding nameserver_line
line_kind line =
    if eq_text line (codes "DNS configuration")
    then global_title
    else if starts_with (codes "DNS configuration (") line
    then other_title
    else if starts_with (codes "resolver #") line
    then resolver
    else if starts_with (codes "domain") line
    then domain
    else nameserver_line line

-- The kind of each line, after the trim.
unfoldable pub kinds_of : List Text → List Line
unfolding line_kind trim
kinds_of [] = []
kinds_of (raw ∷ rest) = line_kind (trim raw) ∷ kinds_of rest

-- The variables of the loop.
pub record Scan : Type 0 where
  pub servers : List DnsAddr
  pub pending : List DnsAddr
  pub domain_scoped : Bool
  pub in_global : Bool

unfoldable pub commit : Scan → Scan
commit s = record s {
  servers = if s.domain_scoped then s.servers else s.servers ++ s.pending;
  pending = [];
  domain_scoped = false;
}

module _ (interface_index : Text → Option ℕ) where
  -- A line of a section that is read.
  unfoldable pub scan_global : Line → Scan → Result Scan AddressError
  unfolding commit
  scan_global resolver s = ok (commit s)
  scan_global domain s = ok (record s { domain_scoped = true })
  scan_global (nameserver value) s =
      and_then (parse_dns_socket interface_index value)
        (λ a. ok (record s { pending = s.pending ++ (a ∷ []) }))
  scan_global _ s = ok s

  unfoldable pub scan_line : Line → Scan → Result Scan AddressError
  unfolding commit scan_global
  scan_line global_title s = ok (record (commit s) { in_global = true })
  scan_line other_title s = ok (record (commit s) { in_global = false })
  scan_line line s = if s.in_global then scan_global line s else ok s

  unfoldable pub scan_lines : List Line → Scan → Result Scan AddressError
  unfolding scan_line
  scan_lines [] s = ok s
  scan_lines (line ∷ rest) s = and_then (scan_line line s) (scan_lines rest)

  unfoldable pub scan_kinds : List Line → Result (List DnsAddr) AddressError
  unfolding scan_lines commit
  scan_kinds kinds =
      and_then
        (scan_lines kinds
          (record { servers = []; pending = []; domain_scoped = false; in_global = false }))
        (λ s. ok (commit s).servers)

  unfoldable pub parse_scutil_global_dns : Text → Result (List DnsAddr) AddressError
  unfolding scan_kinds kinds_of lines
  parse_scutil_global_dns text = scan_kinds (kinds_of (lines text))
