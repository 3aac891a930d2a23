-- ===== src/Proxy/Lru.antt =====
-- The map of src/proxy/cache.rs, `lru::LruCache`, as the cache uses it. The crate is not part of the
-- repository: these are its documented operations and laws.
use dnsrivet.Prelude.{ℕ, ◌≡◌, ◌≢◌, ◌⊎◌, Option, none, some}

pub record Lru (K V : Type 0) : Type 1 where
  pub Store : Type 0
  -- `LruCache::new(capacity)`
  pub new : ℕ → Store
  -- What the map holds at a key.
  pub lookup : Store → K → Option V
  -- `get_mut` marks the key as the most recently used one.
  pub promote : Store → K → Store
  -- A write through the reference that `get_mut` returned.
  pub assign : Store → K → V → Store
  pub pop : Store → K → Store
  pub put : Store → K → V → Store
  pub lookup-new : (n : ℕ) (k : K) → lookup (new n) k ≡ none
  pub lookup-promote : (s : Store) (k j : K) → lookup (promote s k) j ≡ lookup s j
  pub lookup-assign_self :
      (s : Store) (k : K) (v w : V) → lookup s k ≡ some w → lookup (assign s k v) k ≡ some v
  pub lookup-assign_ne :
      (s : Store) (k j : K) (v : V) → j ≢ k → lookup (assign s k v) j ≡ lookup s j
  pub lookup-pop_self : (s : Store) (k : K) → lookup (pop s k) k ≡ none
  pub lookup-pop_ne : (s : Store) (k j : K) → j ≢ k → lookup (pop s k) j ≡ lookup s j
  pub lookup-put_self : (s : Store) (k : K) (v : V) → lookup (put s k v) k ≡ some v
  -- The least recently used key may be evicted.
  pub lookup-put_ne :
      (s : Store) (k j : K) (v : V)
      → j ≢ k
      → (lookup (put s k v) j ≡ lookup s j) ⊎ (lookup (put s k v) j ≡ none)
