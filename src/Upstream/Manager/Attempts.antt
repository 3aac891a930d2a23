-- ===== src/Upstream/Manager/Attempts.antt =====
-- src/upstream/mod.rs: what an attempt at one upstream returns.
use dnsrivet.Prelude.{◌≡◌, ok, Bytes}
use dnsrivet.Wire.Validate.{validate_response}
use dnsrivet.Upstream.Net.{SocketAddr}
use dnsrivet.Upstream.Manager.{Transports}

-- The plain transport returns only answers to the query.
abbrev pub Checks : {T : Type 0} → Transports T → Bytes → Type 0
Checks net query =
    (addr : SocketAddr) (d : Bytes)
    → net.query_legacy addr ≡ ok d
    → validate_response query d ≡ ok tt
