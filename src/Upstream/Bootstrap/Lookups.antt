-- ===== src/Upstream/Bootstrap/Lookups.antt =====
-- src/upstream/bootstrap.rs: the answer of a lookup.
use dnsrivet.Prelude.{
  ℕ, ◌≤◌, ◌≡◌, ◌≢◌, refl, arith, Bool, true, false, Result, ok, err, List, [], ◌∷◌, ◌++◌,
  Bool-cases, inl, inr, List-cases,
}
use mathlib.Core.List.{Perm, perm_middle}
use mathlib.Core.List.Perm
use dnsrivet.Upstream.Net.{IpAddr, SocketAddr, v4, v6, is_ipv6, eq_ip}
use dnsrivet.Upstream.Bootstrap.{min_ttl_secs, max_ttl_secs, IpStack}
use dnsrivet.Upstream.Bootstrap.Servers.{
  without, having, sort_by_key, dedup_after, dedup, ordered_servers, server_key, RecordType,
  clamp_ttl, Gathered, ask_server, lookup_result, lookup_loop, lookup,
}

clamp_ttl_bounds : (n : ℕ) → (60 ≤ clamp_ttl n) × (clamp_ttl n ≤ 86400)
unfolding clamp_ttl
clamp_ttl_bounds n = ground arith

-- IPv4 addresses stand before IPv6 addresses.
abbrev AllV6 : List IpAddr → Type 0
AllV6 [] = Unit
AllV6 (x ∷ xs) = (is_ipv6 x ≡ true) × AllV6 xs

abbrev pub V4First : List IpAddr → Type 0
V4First [] = Unit
V4First (v4 _ ∷ xs) = V4First xs
V4First (v6 _ ∷ xs) = AllV6 xs

-- No address equals the next one.
abbrev pub NoRepeat : List IpAddr → Type 0
NoRepeat [] = Unit
NoRepeat (x ∷ []) = Unit
NoRepeat (x ∷ (y ∷ ys)) = (eq_ip x y ≡ false) × NoRepeat (y ∷ ys)

dedup_after-NoRepeat : (x : IpAddr) (xs : List IpAddr) → NoRepeat (x ∷ dedup_after x xs)
unfolding dedup_after
dedup_after-NoRepeat x [] = tt
dedup_after-NoRepeat x (y ∷ ys) = elim (Bool-cases (eq_ip x y)) [
  | inl e ↦ rw e (dedup_after-NoRepeat x ys)
  | inr e ↦ rw e (e, dedup_after-NoRepeat y ys)
]

AllV6-V4First : (xs : List IpAddr) → AllV6 xs → V4First xs
AllV6-V4First [] h = tt
AllV6-V4First (v4 _ ∷ xs) h = absurd (ground arith)
AllV6-V4First (v6 _ ∷ xs) h = h.1

dedup_after-AllV6 : (x : IpAddr) (xs : List IpAddr) → AllV6 xs → AllV6 (dedup_after x xs)
unfolding dedup_after
dedup_after-AllV6 x [] h = tt
dedup_after-AllV6 x (y ∷ ys) h = elim (Bool-cases (eq_ip x y)) [
  | inl e ↦ rw e (dedup_after-AllV6 x ys h.1)
  | inr e ↦ rw e (h.0, dedup_after-AllV6 y ys h.1)
]

dedup_after-V4First : (x : IpAddr) (xs : List IpAddr) → V4First xs → V4First (dedup_after x xs)
unfolding dedup_after
dedup_after-V4First x [] h = tt
dedup_after-V4First x (v4 n ∷ ys) h = elim (Bool-cases (eq_ip x (v4 n))) [
  | inl e ↦ rw e (dedup_after-V4First x ys h)
  | inr e ↦ rw e (dedup_after-V4First (v4 n) ys h)
]
dedup_after-V4First x (v6 n ∷ ys) h = elim (Bool-cases (eq_ip x (v6 n))) [
  | inl e ↦ rw e (AllV6-V4First _ (dedup_after-AllV6 x ys h))
  | inr e ↦ rw e (dedup_after-AllV6 (v6 n) ys h)
]

having-AllV6 : (xs : List IpAddr) → AllV6 (having is_ipv6 xs)
unfolding having
having-AllV6 [] = tt
having-AllV6 (v4 _ ∷ xs) = having-AllV6 xs
having-AllV6 (v6 _ ∷ xs) = (refl, having-AllV6 xs)

without-V4First : (xs ys : List IpAddr) → AllV6 ys → V4First (without is_ipv6 xs ++ ys)
unfolding without
without-V4First [] ys h = AllV6-V4First ys h
without-V4First (v4 _ ∷ xs) ys h = without-V4First xs ys h
without-V4First (v6 _ ∷ xs) ys h = without-V4First xs ys h

dedup-NoRepeat : (xs : List IpAddr) → NoRepeat (dedup xs)
unfolding dedup
dedup-NoRepeat [] = tt
dedup-NoRepeat (x ∷ xs) = dedup_after-NoRepeat x xs

dedup-V4First : (xs : List IpAddr) → V4First xs → V4First (dedup xs)
unfolding dedup
dedup-V4First [] h = tt
dedup-V4First (v4 n ∷ xs) h = dedup_after-V4First (v4 n) xs h
dedup-V4First (v6 n ∷ xs) h = dedup_after-AllV6 (v6 n) xs h

-- The sort keeps every element.
sort_by_key-Perm : {A : Type 0} (key : A → Bool) (xs : List A) → Perm (sort_by_key key xs) xs
unfolding sort_by_key without having
sort_by_key-Perm key [] = Perm.refl []
sort_by_key-Perm key (x ∷ xs) = elim (Bool-cases (key x)) [
  | inl e ↦ rw e (
      Perm.trans (perm_middle (without key xs) (having key xs))
        (Perm.cons x (sort_by_key-Perm key xs)))
  | inr e ↦ rw e (Perm.cons x (sort_by_key-Perm key xs))
]

-- Every bootstrap server is asked, in an order that only prefers the family of the stack.
pub ordered_servers-Perm :
    (servers : List SocketAddr) (stack : IpStack) → Perm (ordered_servers servers stack) servers
unfolding ordered_servers
ordered_servers-Perm servers stack = sort_by_key-Perm (server_key stack) servers

dedup_sort-ne-nil : (xs : List IpAddr) → xs ≢ [] → dedup (sort_by_key is_ipv6 xs) ≢ []
unfolding dedup sort_by_key without having
dedup_sort-ne-nil [] h e = h refl
dedup_sort-ne-nil (v4 n ∷ xs) h e = cc
dedup_sort-ne-nil (v6 n ∷ xs) h e = elim (List-cases (without is_ipv6 xs)) [
  | inl nothing ↦ ground (arith, nothing)
  | inr (y, ys, some_v4) ↦ ground (arith, some_v4)
]

abbrev Sound : {E : Type 0} → Result (List IpAddr × ℕ) E → Type 0
Sound (ok (ips, ttl)) =
    (ips ≢ []) × V4First ips × NoRepeat ips × (min_ttl_secs ≤ ttl) × (ttl ≤ max_ttl_secs)
Sound (err _) = Unit

lookup_result-Sound : {E : Type 0} (g : Gathered E) → g.ips ≢ [] → Sound (lookup_result g)
unfolding lookup_result
lookup_result-Sound g ne =
    let sorted : V4First (sort_by_key is_ipv6 g.ips) =
      unfold sort_by_key in without-V4First g.ips (having is_ipv6 g.ips) (having-AllV6 g.ips) in
    (
      dedup_sort-ne-nil g.ips ne,
      dedup-V4First (sort_by_key is_ipv6 g.ips) sorted,
      dedup-NoRepeat (sort_by_key is_ipv6 g.ips),
      (clamp_ttl_bounds g.min_ttl).0,
      (clamp_ttl_bounds g.min_ttl).1,
    )

module _ {E : Type 0} (query : SocketAddr → RecordType → Result (List IpAddr × ℕ) E)
    (stack : IpStack) where
  lookup_loop-Sound :
      (servers : List SocketAddr) (e : E) → Sound (lookup_loop query stack servers e)
  unfolding lookup_loop
  lookup_loop-Sound [] e = tt
  lookup_loop-Sound (server ∷ servers) e =
      let g = ask_server query stack server e in
      elim (List-cases g.ips) [
        | inl nothing ↦ rw (nothing, lookup_loop) (lookup_loop-Sound servers g.last_err)
        | inr (y, ys, found) ↦
            rw (found, lookup_loop) (lookup_result-Sound g (λ n. ground (arith, n, found)))
      ]

  -- A lookup that succeeds, whatever the servers answer, gives at least one address, IPv4 before
  -- IPv6, no address twice in a row, and a TTL between a minute and a day.
  pub lookup_bounds :
      (servers : List SocketAddr) (no_servers : E) {ips : List IpAddr} {ttl : ℕ}
      → lookup query servers stack no_servers ≡ ok (ips, ttl)
      → (ips ≢ []) × V4First ips × NoRepeat ips × (min_ttl_secs ≤ ttl) × (ttl ≤ max_ttl_secs)
  unfolding lookup
  lookup_bounds servers no_servers h =
      rw h at (lookup_loop-Sound (ordered_servers servers stack) no_servers)
