-- ===== src/Upstream/Setup/Endpoints.antt =====
-- src/upstream/mod.rs: no configured endpoint is one of our own listeners.
use dnsrivet.Prelude.{
  ◌≡◌, ap, ◌∙◌, arith, true, false, none, some, ok, err, List, [], ◌∷◌, inl, inr, length,
  Option-cases, Result-cases,
}
use dnsrivet.Upstream.Net.{IpAddr, SocketAddr, is_self_address}
use dnsrivet.Upstream.Manager.{Entry}
use dnsrivet.Upstream.Setup.{Upstream, static_self, new_entries}

-- No upstream of the list has a fixed address that is one of our own.
abbrev pub AllForeign : List SocketAddr → List Upstream → Type 0
AllForeign listeners [] = Unit
AllForeign listeners (up ∷ ups) =
    ((ip : IpAddr)
      → up.bootstrap_ip ≡ some ip
      → is_self_address (record { ip = ip; port = up.port }) listeners ≡ false)
    × AllForeign listeners ups

static_self-none :
    (up : Upstream) (listeners : List SocketAddr) (ip : IpAddr)
    → static_self up listeners ≡ none
    → up.bootstrap_ip ≡ some ip
    → is_self_address (record { ip = ip; port = up.port }) listeners ≡ false
unfolding static_self
static_self-none up listeners ip h e = ground arith

static_self-some :
    (up : Upstream) (listeners : List SocketAddr) (addr : SocketAddr)
    → static_self up listeners ≡ some addr
    → is_self_address addr listeners ≡ true
unfolding static_self
static_self-some up listeners addr h = elim (Option-cases up.bootstrap_ip) [
  | inl e ↦ absurd (ground arith)
  | inr (ip, e) ↦ ground arith
]

-- A manager is set up only if no fixed address of an upstream is one of our own listeners, with one
-- entry for each upstream; the endpoint that is refused is one of our own.
pub new_entries-AllForeign :
    (ups : List Upstream) (listeners : List SocketAddr)
    → ((entries : List Entry)
        → new_entries ups listeners ≡ ok entries
        → AllForeign listeners ups × (length entries ≡ length ups))
      × ((addr : SocketAddr)
          → new_entries ups listeners ≡ err addr
          → is_self_address addr listeners ≡ true)
unfolding new_entries
new_entries-AllForeign [] listeners =
    (λ entries h. (tt, ground arith), λ addr h. absurd (ground arith))
new_entries-AllForeign (up ∷ ups) listeners =
    let rec = new_entries-AllForeign ups listeners in
    elim (Option-cases (static_self up listeners)) [
      | inr (own, e) ↦ (
        λ entries h. absurd (ground arith),
        λ addr h.
            let same : own ≡ addr = ground arith in
            static_self-some up listeners addr (e ∙ ap some same),
      )
      | inl e ↦ elim (Result-cases (new_entries ups listeners)) [
        | inl (rest, r) ↦ (
          λ entries h.
              let size = (rec.0 rest r).1 in
              ((λ ip. static_self-none up listeners ip e, (rec.0 rest r).0), ground arith),
          λ addr h. absurd (ground arith),
        )
        | inr (own, r) ↦ (
          λ entries h. absurd (ground arith),
          λ addr h. let same : own ≡ addr = ground arith in rec.1 addr (r ∙ ap err same),
        )
      ]
    ]
