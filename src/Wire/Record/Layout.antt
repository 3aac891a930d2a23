-- ===== src/Wire/Record/Layout.antt =====
-- src/wire.rs: where the fields of a parsed record lie.
use dnsrivet.Prelude.{ℕ, ◌+◌, ◌≤◌, ◌<◌, ◌≡◌, arith, some, Bytes, length, >>=-eq-some}
use dnsrivet.Wire.Read.{read_u32}
use dnsrivet.Wire.Name.{skip_name, walk_name}
use dnsrivet.Wire.Name.Bounds.{walk_name_bounds}
use dnsrivet.Wire.Record.{ResourceRecord, parse_rr}

pub skip_name_bounds :
    (m : Bytes) (o : ℕ) {e : ℕ} → skip_name m o ≡ some e → (o < e) × (e ≤ length m)
unfolding skip_name
skip_name_bounds m o h =
    let (r, p, q) = >>=-eq-some (walk_name m (λ (s : Unit {0}) _. s) o tt) _ h in
    ground (arith, walk_name_bounds m (λ (s : Unit {0}) _. s) o tt p)

pub record Fits (m : Bytes) (start : ℕ) (rr : ResourceRecord) : Type 0 where
  pub name_first : start + 4 < rr.ttl_offset
  pub rdata : rr.rdata_offset ≡ rr.ttl_offset + 6
  pub ends : rr.end ≡ rr.rdata_offset + rr.rdlen
  pub inside : rr.end ≤ length m
  pub ttl_read : read_u32 m rr.ttl_offset ≡ some rr.ttl

-- A record that is parsed lies within the message: its fields follow its name in their order, and the
-- value of its TTL is read where its TTL field stands.
pub parse_rr-Fits : (m : Bytes) (o : ℕ) {rr : ResourceRecord} → parse_rr m o ≡ some rr → Fits m o rr
unfolding parse_rr
parse_rr-Fits m o h = grind (arith, skip_name_bounds)
