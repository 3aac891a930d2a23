-- ===== src/Proxy/Cache/Expiry.antt =====
-- src/proxy/cache.rs: no sequence of calls serves an entry past its TTL.
use dnsrivet.Prelude.{
  ℕ, ◌+◌, ◌*◌, ◌≤◌, ◌<◌, ◌≡◌, ◌≢◌, inl, inr, sym, ap, ◌∙◌, arith, true, none, some, Bytes, [], ◌∷◌,
  List, write, some_inj, Option-cases,
}
use mathlib.Core.Path.{subst}
use native.Mathlib.Decide.{ℕ_discrete}
use dnsrivet.Wire.Query.{QueryKey, QueryMeta}
use dnsrivet.Wire.Ttl.{cache_ttl}
use dnsrivet.Proxy.Lru.{Lru}
use dnsrivet.Proxy.Cache.{Entry, nanos, refresh, Cache, serve, get_into, insert}

-- The instant at which the entry stops being served.
abbrev pub expiry : Entry → ℕ
expiry e = e.aged_at + e.ttl * nanos

refresh-expiry :
    (e : Entry) (now : ℕ) {e' : Entry}
    → refresh e now ≡ some e'
    → (expiry e' ≡ expiry e) × (now < expiry e)
unfolding refresh
refresh-expiry e now h = ground arith

pub QueryKey-discrete : Discrete QueryKey
QueryKey-discrete = hlevel ℕ_discrete

-- A call of one of the operations, with its time.
pub data Call : Type 0 where
  get : QueryMeta → Bytes → ℕ → Bytes → Call
  put : QueryMeta → Bytes → ℕ → Call

-- The call stores nothing under the key.
abbrev pub Spares : QueryKey → Call → Type 0
Spares k (get _ _ _ _) = Unit
Spares k (put meta _ _) = meta.key ≢ k

abbrev pub AllSpare : QueryKey → List Call → Type 0
AllSpare k [] = Unit
AllSpare k (c ∷ cs) = Spares k c × AllSpare k cs

module _ (lru : Lru QueryKey Entry) where
  open lru use {Store, lookup}

  unfoldable pub after : Cache lru → Call → Cache lru
  after cache (get meta id now out) = (get_into lru cache meta id now out).0
  after cache (put meta response now) = insert lru cache meta response now

  unfoldable pub run : Cache lru → List Call → Cache lru
  run cache [] = cache
  run cache (c ∷ cs) = run (after cache c) cs

  -- Whatever the cache holds under the key has to go by the deadline.
  abbrev ExpiresBy : QueryKey → ℕ → Cache lru → Type 0
  ExpiresBy k deadline none = Unit
  ExpiresBy k deadline (some s) = (e : Entry) → lookup s k ≡ some e → expiry e ≤ deadline

  pop-ExpiresBy :
      (s : Store) (key k : QueryKey) (deadline : ℕ)
      → ExpiresBy k deadline (some s)
      → ExpiresBy k deadline (some (lru.pop s key))
  pop-ExpiresBy s key k deadline ok e h = elim (QueryKey-discrete k key) [
    | yes p ↦ absurd (ground (arith, lru.lookup-pop_self s key, ap (lookup (lru.pop s key)) p))
    | no p ↦ ok e (sym (lru.lookup-pop_ne s key k p) ∙ h)
  ]

  assign-ExpiresBy :
      (s : Store) (key k : QueryKey) (deadline : ℕ) (e e' : Entry)
      → lookup s key ≡ some e
      → expiry e' ≡ expiry e
      → ExpiresBy k deadline (some s)
      → ExpiresBy k deadline (some (lru.assign s key e'))
  assign-ExpiresBy s key k deadline e e' found same ok f h = elim (QueryKey-discrete k key) [
    | yes p ↦
        let held = lru.lookup-assign_self s key e' e found in
        let f_is : e' ≡ f = some_inj (sym held ∙ sym (ap (lookup (lru.assign s key e')) p) ∙ h) in
        let old = ok e (ap (lookup s) p ∙ found) in rw (← f_is, same) old
    | no p ↦ ok f (sym (lru.lookup-assign_ne s key k e' p) ∙ h)
  ]

  promote-ExpiresBy :
      (s : Store) (key k : QueryKey) (deadline : ℕ)
      → ExpiresBy k deadline (some s)
      → ExpiresBy k deadline (some (lru.promote s key))
  promote-ExpiresBy s key k deadline ok e h = ok e (sym (lru.lookup-promote s key k) ∙ h)

  put-ExpiresBy :
      (s : Store) (key k : QueryKey) (deadline : ℕ) (v : Entry)
      → key ≢ k
      → ExpiresBy k deadline (some s)
      → ExpiresBy k deadline (some (lru.put s key v))
  put-ExpiresBy s key k deadline v other ok e h =
      elim (lru.lookup-put_ne s key k v (λ p. other (sym p))) [
        | inl same ↦ ok e (sym same ∙ h)
        | inr gone ↦ absurd (ground arith)
      ]

  serve-ExpiresBy :
      (s : Store) (key k : QueryKey) (deadline now : ℕ) (e : Entry) (id out : Bytes)
      → lookup s key ≡ some e
      → ExpiresBy k deadline (some s)
      → ExpiresBy k deadline (serve lru s key (refresh e now) id out).0
  unfolding serve
  serve-ExpiresBy s key k deadline now e id out found ok = elim (Option-cases (refresh e now)) [
    | inl r ↦ rw (r, serve) (pop-ExpiresBy s key k deadline ok)
    | inr (e', r) ↦
        rw (r, serve) (assign-ExpiresBy s key k deadline e e' found (refresh-expiry e now r).0 ok)
  ]

  after-ExpiresBy :
      (k : QueryKey) (deadline : ℕ) (cache : Cache lru) (c : Call)
      → Spares k c
      → ExpiresBy k deadline cache
      → ExpiresBy k deadline (after cache c)
  unfolding after get_into insert
  after-ExpiresBy k deadline none (get _ _ _ _) spare ok = tt
  after-ExpiresBy k deadline none (put _ _ _) spare ok = tt
  after-ExpiresBy k deadline (some s) (get meta id now out) spare ok =
      elim (Option-cases (lookup s meta.key)) [
        | inl e ↦
            let miss : (get_into lru (some s) meta id now out).0 ≡ some s = ground arith in
            subst (ExpiresBy k deadline) (sym miss) ok
        | inr (e, found) ↦
            let promoted = lru.promote s meta.key in
            let hit : (get_into lru (some s) meta id now out).0
                ≡ (serve lru promoted meta.key (refresh e now) id out).0 =
              ground arith in
            subst (ExpiresBy k deadline) (sym hit) (
              serve-ExpiresBy promoted meta.key k deadline now e id out
                (lru.lookup-promote s meta.key meta.key ∙ found)
                (promote-ExpiresBy s meta.key k deadline ok))
      ]
  after-ExpiresBy k deadline (some s) (put meta response now) spare ok =
      elim (Option-cases (cache_ttl response meta.key.qtype)) [
        | inl e ↦
            let same : insert lru (some s) meta response now ≡ some s = rw (e, insert) in
            subst (ExpiresBy k deadline) (sym same) ok
        | inr (ttl, e) ↦
            let entry : Entry = record {
              response = write response 0 (0 ∷ 0 ∷ []);
              aged_at = now;
              ttl = ttl;
            } in
            let stored : insert lru (some s) meta response now ≡ some (lru.put s meta.key entry) =
              rw (e, insert) in
            subst (ExpiresBy k deadline) (sym stored)
              (put-ExpiresBy s meta.key k deadline entry spare ok)
      ]

  run-ExpiresBy :
      (k : QueryKey) (deadline : ℕ) (cs : List Call) (cache : Cache lru)
      → AllSpare k cs
      → ExpiresBy k deadline cache
      → ExpiresBy k deadline (run cache cs)
  unfolding run
  run-ExpiresBy k deadline [] cache spare ok = ok
  run-ExpiresBy k deadline (c ∷ cs) cache spare ok =
      run-ExpiresBy k deadline cs (after cache c) spare.1
        (after-ExpiresBy k deadline cache c spare.0 ok)

  hit-ExpiresBy :
      (meta : QueryMeta) (deadline : ℕ) (cache : Cache lru) (id out : Bytes) (now : ℕ)
      → ExpiresBy meta.key deadline cache
      → (get_into lru cache meta id now out).2 ≡ true
      → now < deadline
  unfolding get_into serve
  hit-ExpiresBy meta deadline none id out now ok h = cc
  hit-ExpiresBy meta deadline (some s) id out now ok h = elim (Option-cases (lookup s meta.key)) [
    | inl e ↦ absurd (ground arith)
    | inr (e, found) ↦ elim (Option-cases (refresh e now)) [
      | inl r ↦ absurd (ground arith)
      | inr (e', r) ↦ omega (arith, (refresh-expiry e now r).1, ok e found)
    ]
  ]

  -- After a response was stored at `t0` with a TTL of `ttl` seconds, and whatever calls followed that
  -- stored nothing under its key, a hit for the key comes before `t0` + `ttl`: ageing the entry at
  -- hits never extends its life.
  pub hit_before_expiry :
      (s : Store) (meta : QueryMeta) (response : Bytes) (t0 ttl : ℕ) (cs : List Call)
      (id out : Bytes) (now : ℕ)
      → cache_ttl response meta.key.qtype ≡ some ttl
      → AllSpare meta.key cs
      → (get_into lru (run (insert lru (some s) meta response t0) cs) meta id now out).2 ≡ true
      → now < t0 + ttl * nanos
  unfolding insert
  hit_before_expiry s meta response t0 ttl cs id out now e spare h =
      let entry : Entry = record {
        response = write response 0 (0 ∷ 0 ∷ []);
        aged_at = t0;
        ttl = ttl;
      } in
      let stored : insert lru (some s) meta response t0 ≡ some (lru.put s meta.key entry) =
        rw (e, insert) in
      let first : ExpiresBy meta.key (expiry entry) (some (lru.put s meta.key entry)) = λ f found.
        let same : entry ≡ f = some_inj (sym (lru.lookup-put_self s meta.key entry) ∙ found) in
        rw (← same) (omega arith) in
      hit-ExpiresBy meta (expiry entry) (run (insert lru (some s) meta response t0) cs) id out now
        (rw stored (run-ExpiresBy meta.key (expiry entry) cs _ spare first)) h
