-- ===== src/Upstream/Manager/Fallback.antt =====
-- src/upstream/mod.rs: the answers that the manager passes on, and the state of the fallback.
use dnsrivet.Prelude.{
  ◌≡◌, refl, sym, ap, ◌∙◌, arith, Bool, true, false, Option, none, some, Result, ok, err, List, [],
  ◌∷◌, Bytes, take, write, Bool-cases, Result-cases, List-cases, inl, inr, ◌⊎◌,
}
use mathlib.Core.Path.{subst}
use dnsrivet.Upstream.Net.{SocketAddr}
use dnsrivet.Upstream.Manager.{
  Manager, is_servfail, configured_answer, system_loop, forward_to_system, or_system,
  forward_single,
}

-- The outcome is an error or a SERVFAIL.
abbrev pub Useless : {E : Type 0} → Result Bytes E → Type 0
Useless (err e) = Unit
Useless (ok d) = is_servfail d ≡ true

-- The response comes from the first server whose outcome is of use.
abbrev pub FirstAnswer :
    {E : Type 0} → (SocketAddr → Result Bytes E) → List SocketAddr → Bytes → Type 0
FirstAnswer ask [] r = ⊥
FirstAnswer ask (s ∷ ss) r =
    ((ask s ≡ ok r) × (is_servfail r ≡ false)) ⊎ (Useless (ask s) × FirstAnswer ask ss r)

system_loop-FirstAnswer :
    {E : Type 0} (ask : SocketAddr → Result Bytes E) (m : Manager) (ss : List SocketAddr)
    (r : Bytes)
    → (system_loop ask m ss).1 ≡ some r
    → FirstAnswer ask ss r × ((system_loop ask m ss).0 ≡ record m { fallback_failed = false })
unfolding system_loop
system_loop-FirstAnswer ask m [] r h = absurd (ground arith)
system_loop-FirstAnswer ask m (s ∷ ss) r h = elim (Result-cases (ask s)) [
  | inr (f, e) ↦
      let (first, end) = system_loop-FirstAnswer ask m ss r (ground arith) in
      (inr (subst (λ o. Useless o) (sym e) tt, first), ground arith)
  | inl (d, e) ↦ elim (Bool-cases (is_servfail d)) [
    | inr fine ↦ (inl (ground arith, ground arith), ground arith)
    | inl bad ↦
        let (first, end) = system_loop-FirstAnswer ask m ss r (ground arith) in
        (inr (subst (λ o. Useless o) (sym e) bad, first), ground arith)
  ]
]

system_loop_failed :
    {E : Type 0} (ask : SocketAddr → Result Bytes E) (m : Manager) (ss : List SocketAddr)
    → (system_loop ask m ss).1 ≡ none
    → (system_loop ask m ss).0 ≡ record m { fallback_failed = true }
unfolding system_loop
system_loop_failed ask m [] h = refl
system_loop_failed ask m (s ∷ ss) h = elim (Result-cases (ask s)) [
  | inr (f, e) ↦ let rec = system_loop_failed ask m ss (ground arith) in ground arith
  | inl (d, e) ↦ elim (Bool-cases (is_servfail d)) [
    | inr fine ↦ absurd (ground arith)
    | inl bad ↦ let rec = system_loop_failed ask m ss (ground arith) in ground arith
  ]
]

FirstAnswer-fine :
    {E : Type 0} (ask : SocketAddr → Result Bytes E) (ss : List SocketAddr) (r : Bytes)
    → FirstAnswer ask ss r
    → is_servfail r ≡ false
FirstAnswer-fine ask (s ∷ ss) r (inl (_, fine)) = fine
FirstAnswer-fine ask (s ∷ ss) r (inr (_, first)) = FirstAnswer-fine ask ss r first
FirstAnswer-fine ask [] r first = elim first [ ]

pub forward_to_system-FirstAnswer :
    {E : Type 0} (m : Manager) (permit : Bool) (ask : SocketAddr → Result Bytes E) (r : Bytes)
    → (forward_to_system m permit ask).1 ≡ some r
    → FirstAnswer ask m.system_fallback r
      × ((forward_to_system m permit ask).0
          ≡ record m { fallback_active = true; fallback_failed = false })
unfolding forward_to_system
forward_to_system-FirstAnswer m permit ask r h = elim (Bool-cases permit) [
  | inr e ↦ absurd (ground arith)
  | inl e ↦ elim (List-cases m.system_fallback) [
    | inl e' ↦ absurd (ground arith)
    | inr (s, ss, e') ↦
        let (first, end) =
          system_loop-FirstAnswer ask (record m { fallback_active = true }) m.system_fallback r
            (ground arith) in
        (first, ground arith)
  ]
]

-- An answer keeps its code when it gets the ID of the query.
servfail_write : (q r : Bytes) → is_servfail (write r 0 (take 2 q)) ≡ is_servfail r
unfolding write
servfail_write [] r = refl
servfail_write (x ∷ []) [] = refl
servfail_write (x ∷ []) (a ∷ r) = refl
servfail_write (x ∷ y ∷ q) [] = refl
servfail_write (x ∷ y ∷ q) (a ∷ []) = refl
servfail_write (x ∷ y ∷ q) (a ∷ b ∷ r) = refl

-- What a client gets, and the state behind it: no SERVFAIL, and a failed fallback if nothing came.
abbrev Outcome : Manager × Option Bytes → Bool → Type 0
Outcome p permit =
    ((r : Bytes) → p.1 ≡ some r → is_servfail r ≡ false)
    × (p.1 ≡ none → permit ≡ true → p.0.fallback_failed ≡ true)

forward_to_system-Outcome :
    {E : Type 0} (m : Manager) (permit : Bool) (ask : SocketAddr → Result Bytes E)
    → Outcome (forward_to_system m permit ask) permit
unfolding forward_to_system
forward_to_system-Outcome m permit ask =
    let active : Manager = record m { fallback_active = true } in
    (
      λ r h.
          FirstAnswer-fine ask m.system_fallback r
            (forward_to_system-FirstAnswer m permit ask r h).0,
      λ h given. elim (List-cases m.system_fallback) [
        | inl e ↦ ground arith
        | inr (s, ss, e) ↦
            let end = system_loop_failed ask active m.system_fallback (ground arith) in ground arith
      ],
    )

or_system-Outcome :
    {E F : Type 0} (m : Manager) (query : Bytes) (outcome : Result Bytes E) (permit : Bool)
    (ask : SocketAddr → Result Bytes F)
    → Outcome (or_system (configured_answer m query outcome) permit ask) permit
unfolding or_system configured_answer
or_system-Outcome m query (err e) permit ask = forward_to_system-Outcome m permit ask
or_system-Outcome m query (ok d) permit ask = elim (Bool-cases (is_servfail d)) [
  | inl bad ↦
      let system = forward_to_system-Outcome m permit ask in
      (
        λ r h. system.0 r (ground arith),
        λ h given. let f = system.1 (ground arith) given in ground arith,
      )
  | inr fine ↦ (
    λ r h.
        let same : write d 0 (take 2 query) ≡ r = ground arith in
        ap is_servfail (sym same) ∙ (servfail_write query d ∙ fine),
    λ h given. absurd (ground arith),
  )
]

-- With one configured upstream: a client never gets a SERVFAIL of an upstream or of the system's
-- servers; if nothing is returned, the fallback counts as failed, provided that both permits were
-- given.
pub forward_single_lem :
    {E F : Type 0} (m : Manager) (query : Bytes) (permit : Bool) (outcome : Result Bytes E)
    (system_permit : Bool) (ask : SocketAddr → Result Bytes F)
    → ((r : Bytes)
        → (forward_single m query permit outcome system_permit ask).1 ≡ some r
        → is_servfail r ≡ false)
      × ((forward_single m query permit outcome system_permit ask).1 ≡ none
          → permit ≡ true
          → system_permit ≡ true
          → (forward_single m query permit outcome system_permit ask).0.fallback_failed ≡ true)
unfolding forward_single
forward_single_lem m query true outcome system_permit ask =
    let both = or_system-Outcome m query outcome system_permit ask in
    (both.0, λ h _ given. both.1 h given)
forward_single_lem m query false outcome system_permit ask =
    (λ r h. absurd (ground arith), λ h given _. absurd (ground arith))
