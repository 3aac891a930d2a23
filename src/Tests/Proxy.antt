-- ===== src/Tests/Proxy.antt =====
-- src/proxy on concrete states. The map of the cache is a function that evicts nothing.
use dnsrivet.Prelude.{
  ℕ, ◌+◌, ◌*◌, ◌%◌, ◌≤◌, ◌<◌, ◌≡◌, ◌≢◌, refl, sym, arith, inl, inr, ◌⊎◌, Bool, true, false, Option,
  none, some, ok, Bytes, List, [], ◌∷◌, ◌++◌, length, byte, write, take, IsBytes,
}
use dnsrivet.Wire.Read.{read_u16}
use dnsrivet.Wire.Name.Encode.{encode}
use dnsrivet.Wire.Query.{QueryKey, udp_payload_size, is_multi_question_query}
use dnsrivet.Wire.Validate.{validate_response}
use dnsrivet.Proxy.Lru.{Lru}
use dnsrivet.Proxy.Cache.{Entry, nanos, refresh, query_meta, serve, get_into, insert, new}
use dnsrivet.Proxy.Cache.Expiry.{QueryKey-discrete, run, hit_before_expiry}
use dnsrivet.Proxy.Cache.Hits.{get_into-insert}
use dnsrivet.Proxy.Handlers.{
  servfail, formerr, Turn, respond, udp_reply, udp_datagram, local_response, forward,
}
use dnsrivet.Proxy.Handlers.Errors.{IsFormerr, respond-formerr}
use dnsrivet.Proxy.Handlers.Replies.{udp_datagram_bounds}
use dnsrivet.Proxy.Handlers.Servfail.{validate_response-servfail}
use dnsrivet.Proxy.Tcp.{Exchange}
use dnsrivet.Proxy.Watchdog.{
  TickOutcome, tick_failed, not_active, clean, reasserted, initial, clean_tick, after_clean,
  strikes_after, after_reassert, locals_step, locals_after,
}
use dnsrivet.Proxy.Watchdog.Consistency.{Consistent, locals_after-Consistent}
use dnsrivet.Proxy.Watchdog.Flaps.{clean_count, three_reasserts, Quiet-initial}
use dnsrivet.Tests.Wire.{query, response, meta, response-ttl}

abbrev Function : Type 0
Function = QueryKey → Option Entry

update : Function → QueryKey → Option Entry → Function
update s k v j = elim (QueryKey-discrete j k) [ yes _ ↦ v | no _ ↦ s j ]

update_self : (s : Function) (k : QueryKey) (v : Option Entry) → update s k v k ≡ v
unfolding update
update_self s k v = elim (QueryKey-discrete k k) as (λ d. elim d [ yes _ ↦ v | no _ ↦ s k ] ≡ v) [
  | yes _ ↦ refl
  | no n ↦ absurd (n refl)
]

update_ne : (s : Function) (k j : QueryKey) (v : Option Entry) → j ≢ k → update s k v j ≡ s j
unfolding update
update_ne s k j v n =
    elim (QueryKey-discrete j k) as (λ d. elim d [ yes _ ↦ v | no _ ↦ s j ] ≡ s j) [
      | yes p ↦ absurd (n p)
      | no _ ↦ refl
    ]

abbrev functions : Lru QueryKey Entry
functions = record {
  Store = Function;
  new = λ n k. none;
  lookup = λ s k. s k;
  promote = λ s k. s;
  assign = λ s k v. update s k (some v);
  pop = λ s k. update s k none;
  put = λ s k v. update s k (some v);
  lookup-new = λ n k. refl;
  lookup-promote = λ s k j. refl;
  lookup-assign_self = λ s k v w h. update_self s k (some v);
  lookup-assign_ne = λ s k j v h. update_ne s k j (some v) h;
  lookup-pop_self = λ s k. update_self s k none;
  lookup-pop_ne = λ s k j h. update_ne s k j none h;
  lookup-put_self = λ s k v. update_self s k (some v);
  lookup-put_ne = λ s k j v h. inl (update_ne s k j (some v) h);
}

abbrev empty : Function
empty k = none

abbrev client_id : Bytes
client_id = 9 ∷ 9 ∷ []

program : Unit {0}
unfolding update refresh serve get_into insert query_meta new servfail formerr respond udp_reply
    udp_datagram local_response forward clean_tick after_clean strikes_after after_reassert
    locals_step clean_count dnsrivet.Prelude.write
program = tt

hit :
    (get_into functions
      (run functions (insert functions (some empty) meta response 5) [])
      meta
      client_id
      6
      []).2
    ≡ true
unfolding run
hit =
    (get_into-insert functions empty meta response client_id [] 5 6 60 response-ttl (omega arith)).1

hit_before_expiry_example : 6 < 5 + 60 * nanos
hit_before_expiry_example =
    hit_before_expiry functions empty meta response 5 60 [] client_id [] 6 response-ttl tt hit

-- The upstreams' answer comes a second after the query.
abbrev turn : Option Bytes → Turn Function
turn answer = record { now = 5; later = 6; answer = answer; others = λ cache. cache }

-- A query with two questions.
abbrev two_questions : Bytes
two_questions =
    18 ∷ 52 ∷ 1 ∷ 0 ∷ 0 ∷ 2 ∷ 0 ∷ 0 ∷ 0 ∷ 0 ∷ 0 ∷ 0 ∷ 1 ∷ 65 ∷ 0 ∷ 0 ∷ 1 ∷ 0 ∷ 1 ∷ 1 ∷ 66 ∷ 0 ∷ 0
    ∷ 1 ∷ 0 ∷ 1 ∷ []

two : is_multi_question_query two_questions ≡ true
unfolding is_multi_question_query read_u16
two = refl

respond-formerr_example :
    (respond functions (some empty) two_questions [] (turn (some response))
      ≡ (some empty, formerr two_questions))
    × IsFormerr two_questions (formerr two_questions)
respond-formerr_example =
    respond-formerr functions (some empty) two_questions [] (turn (some response)) two

udp_datagram_bounds_example :
    (12 ≤ length query)
    × (length query ≤ 4096)
    × (true ≡ true)
    × (length (udp_reply functions (some empty) query (turn (some response))).1
        ≤ udp_payload_size query)
    × (udp_payload_size query ≤ 4096)
unfolding udp_datagram
udp_datagram_bounds_example =
    udp_datagram_bounds functions (some empty) query true (turn (some response))
      (udp_reply functions (some empty) query (turn (some response))).1 refl

-- A query without OPT record.
abbrev header : Bytes
header = 18 ∷ 52 ∷ 1 ∷ 0 ∷ 0 ∷ 1 ∷ 0 ∷ 0 ∷ 0 ∷ 0 ∷ 0 ∷ 0 ∷ []

abbrev fields : Bytes
fields = 0 ∷ 1 ∷ 0 ∷ 1 ∷ []

validate_response-servfail_example :
    validate_response
      (header ++ (encode ((65 ∷ []) ∷ []) ++ fields))
      (servfail (header ++ (encode ((65 ∷ []) ∷ []) ++ fields)))
    ≡ ok tt
unfolding encode
validate_response-servfail_example =
    validate_response-servfail header ((65 ∷ []) ∷ []) fields (omega arith) refl (omega arith)
      (omega arith) (omega arith)

-- Two clean ticks, with an idle and a failed one between them.
abbrev gap : List TickOutcome
gap = clean none ∷ not_active ∷ tick_failed ∷ clean none ∷ []

Quiet-initial_example : locals_after initial ((reasserted [] ∷ []) ++ (clean none ∷ gap)) ≡ initial
unfolding clean_count
Quiet-initial_example = Quiet-initial (reasserted [] ∷ []) (clean none ∷ gap) tt (inl (omega arith))

locals_after-Consistent_example : Consistent (locals_after initial (three_reasserts [] gap gap []))
locals_after-Consistent_example = locals_after-Consistent (three_reasserts [] gap gap [])

-- Nobody answers upstream, and every answer can be written.
abbrev exchanges : ℕ → Exchange Function
exchanges k = record { turn = turn none; written = true }
