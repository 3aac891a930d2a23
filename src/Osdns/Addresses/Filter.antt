-- ===== src/Osdns/Addresses/Filter.antt =====
-- What `filter_fallback_servers` of src/osdns/macos.rs keeps.
use dnsrivet.Prelude.{◌≡◌, false, List, [], ◌∷◌}
use dnsrivet.Osdns.Addresses.{DnsAddr, contains_addr}

-- No address stands twice.
abbrev pub IsDistinct : List DnsAddr → Type 0
IsDistinct [] = Unit
IsDistinct (a ∷ addrs) = (contains_addr addrs a ≡ false) × IsDistinct addrs
