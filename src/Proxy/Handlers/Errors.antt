-- ===== src/Proxy/Handlers/Errors.antt =====
-- src/proxy/mod.rs: the answers that the proxy makes itself.
use dnsrivet.Prelude.{
  ℕ, ◌%◌, ◌≤◌, ◌≡◌, refl, arith, true, some, Bytes, [], ◌∷◌, length, byte, write,
}
use dnsrivet.Wire.Read.{read_u16}
use dnsrivet.Wire.Record.{total_rr_count}
use dnsrivet.Wire.Query.{QueryKey, is_multi_question_query}
use dnsrivet.Proxy.Lru.{Lru}
use dnsrivet.Proxy.Cache.{Entry, Cache}
use dnsrivet.Proxy.Handlers.{formerr, Turn, local_response, respond}

-- A query with a header, byte by byte.
pub header_cases :
    (q : Bytes)
    → 12 ≤ length q
    → (a b c d e f : ℕ) × (rest : Bytes) × (q ≡ a ∷ b ∷ c ∷ d ∷ e ∷ f ∷ rest)
header_cases (a ∷ b ∷ c ∷ d ∷ e ∷ f ∷ rest) h = (a, b, c, d, e, f, rest, refl)
header_cases [] h = absurd (omega arith)
header_cases (a ∷ []) h = absurd (omega arith)
header_cases (a ∷ b ∷ []) h = absurd (omega arith)
header_cases (a ∷ b ∷ c ∷ []) h = absurd (omega arith)
header_cases (a ∷ b ∷ c ∷ d ∷ []) h = absurd (omega arith)
header_cases (a ∷ b ∷ c ∷ d ∷ e ∷ []) h = absurd (omega arith)

-- The answer to a query with several questions: a header alone, with the query's ID, the code
-- FORMERR and no entries in any section.
pub IsFormerr : Bytes → Bytes → Type 0
IsFormerr query response =
    (length response ≡ 12)
    × (read_u16 response 0 ≡ read_u16 query 0)
    × (byte response 3 % 16 ≡ 1)
    × (read_u16 response 4 ≡ some 0)
    × (total_rr_count response ≡ some 0)

formerr-IsFormerr : (q : Bytes) → 12 ≤ length q → IsFormerr q (formerr q)
unfolding formerr write read_u16 total_rr_count IsFormerr
formerr-IsFormerr q h =
    let (a, b, c, d, e, f, rest, eq) = header_cases q h in rw eq (refl, refl, refl, refl, refl)

module _ (lru : Lru QueryKey Entry) where
  -- RFC 9619: a query with several questions is answered with FORMERR at once. The answer depends on
  -- neither the cache nor the upstreams, and the cache is left as it is.
  pub respond-formerr :
      (cache : Cache lru) (query buffer : Bytes) (turn : Turn lru.Store)
      → is_multi_question_query query ≡ true
      → (respond lru cache query buffer turn ≡ (cache, formerr query))
        × IsFormerr query (formerr query)
  unfolding respond local_response is_multi_question_query
  respond-formerr cache query buffer turn multi =
      (ground (arith, multi), formerr-IsFormerr query (ground (arith, multi)))
