-- ===== src/Osdns/Scutil/Blocks.antt =====
-- The parser of `scutil --dns` in src/osdns/macos.rs against the structure of its input: sections
-- of resolver blocks.
use dnsrivet.Prelude.{
  ℕ, Bool, true, false, Option, List, [], ◌∷◌, ◌++◌, Result, ok, and_then, if◌then◌else◌,
}
use dnsrivet.Prelude.Texts.{Text}
use dnsrivet.Osdns.Addresses.{DnsAddr, AddressError, parse_dns_socket}
use dnsrivet.Osdns.Scutil.{
  Line, global_title, other_title, resolver, domain, nameserver, plain, Scan, commit, scan_lines,
}

-- A line of a resolver block.
pub data Entry : Type 0 where
  restricted : Entry
  server : Text → Entry
  remark : Entry

-- A section of the output: whether its title is exactly `DNS configuration`, and its blocks; each
-- block but the first begins with a `resolver #` line.
pub record Section : Type 0 where
  pub global : Bool
  pub first : List Entry
  pub blocks : List (List Entry)

abbrev pub entry_line : Entry → Line
entry_line restricted = domain
entry_line (server value) = nameserver value
entry_line remark = plain

abbrev pub block_lines : List Entry → List Line → List Line
block_lines [] rest = rest
block_lines (e ∷ block) rest = entry_line e ∷ block_lines block rest

abbrev pub blocks_lines : List (List Entry) → List Line → List Line
blocks_lines [] rest = rest
blocks_lines (block ∷ blocks) rest = resolver ∷ block_lines block (blocks_lines blocks rest)

-- The lines of a sequence of sections.
abbrev pub section_lines : List Section → List Line
section_lines [] = []
section_lines (s ∷ sections) =
    (if s.global then global_title else other_title)
    ∷ block_lines s.first (blocks_lines s.blocks (section_lines sections))

module _ (interface_index : Text → Option ℕ) where
  -- All the servers of a block, and whether the block is restricted to a domain.
  abbrev pub read_block : List Entry → Result (List DnsAddr × Bool) AddressError
  read_block [] = ok ([], false)
  read_block (restricted ∷ block) = and_then (read_block block) (λ (addrs, _). ok (addrs, true))
  read_block (server value ∷ block) =
      and_then (parse_dns_socket interface_index value)
        (λ a. and_then (read_block block) (λ (addrs, scoped). ok (a ∷ addrs, scoped)))
  read_block (remark ∷ block) = read_block block

  -- The servers of the blocks that have no restriction.
  abbrev pub read_blocks : List (List Entry) → Result (List DnsAddr) AddressError
  read_blocks [] = ok []
  read_blocks (block ∷ blocks) = and_then (read_block block) (λ (addrs, scoped).
      and_then (read_blocks blocks) (λ more. ok (if scoped then more else addrs ++ more)))

  abbrev pub read_sections : List Section → Result (List DnsAddr) AddressError
  read_sections [] = ok []
  read_sections (s ∷ sections) =
      if s.global
      then and_then (read_blocks (s.first ∷ s.blocks))
          (λ addrs. and_then (read_sections sections) (λ more. ok (addrs ++ more)))
      else read_sections sections

abbrev scan_of : List DnsAddr → List DnsAddr → Bool → Bool → Scan
scan_of out pending scoped global = record {
  servers = out;
  pending = pending;
  domain_scoped = scoped;
  in_global = global;
}

abbrev committed : List DnsAddr → List DnsAddr → Bool → List DnsAddr
committed out pending scoped = if scoped then out else out ++ pending

module _ (interface_index : Text → Option ℕ) where
  -- The loop and the last commit.
  finish : List Line → Scan → Result (List DnsAddr) AddressError
  finish rest s = and_then (scan_lines interface_index rest s) (λ s'. ok (commit s').servers)
