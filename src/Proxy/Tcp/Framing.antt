-- ===== src/Proxy/Tcp/Framing.antt =====
-- src/proxy/mod.rs: the frames of a TCP connection.
use dnsrivet.Prelude.{ℕ, ◌+◌, ◌≤◌, Bytes, List, [], ◌∷◌, ◌++◌, length}
use dnsrivet.Upstream.Legacy.{framed}
use dnsrivet.Wire.Query.{QueryKey}
use dnsrivet.Proxy.Lru.{Lru}
use dnsrivet.Proxy.Cache.{Entry, Cache}
use dnsrivet.Proxy.Handlers.{respond}
use dnsrivet.Proxy.Tcp.{frame, Exchange}

-- The bytes of a client that sends several queries at once.
abbrev pub pipelined : List Bytes → Bytes
pipelined [] = []
pipelined (q ∷ qs) = framed q ++ pipelined qs

-- Every query has a length that the connection takes.
abbrev pub AllFit : List Bytes → Type 0
AllFit [] = Unit
AllFit (q ∷ qs) = (12 ≤ length q) × (length q ≤ 4096) × AllFit qs

module _ (lru : Lru QueryKey Entry) (exchange : ℕ → Exchange lru.Store) where
  -- The queries answered one after the other, in their order, over one cache.
  unfoldable pub serve_all : ℕ → Cache lru → Bytes → List Bytes → Cache lru × Bytes
  serve_all n cache buffer [] = (cache, [])
  serve_all n cache buffer (q ∷ qs) =
      let reply = respond lru cache q buffer (exchange n).turn in
      let later = serve_all (n + 1) reply.0 reply.1 qs in (later.0, frame reply.1 ++ later.1)
