-- ===== src/Upstream/Hedged/Deadlines.antt =====
-- src/upstream/mod.rs: upstreams with a deadline.
use dnsrivet.Prelude.{
  ℕ, ◌<◌, ◌≡◌, arith, true, Option, some, List, [], ◌∷◌, ◌++◌, ◌==◌, get_elem?, Bool-cases,
  Option-cases, inl, inr,
}
use dnsrivet.Upstream.Manager.{Entry}
use dnsrivet.Upstream.Hedged.{remove, may_race}

-- The upstream at the index has a deadline.
abbrev pub Timed : List Entry → ℕ → Type 0
Timed entries i = (e : Entry) × (get_elem? entries i ≡ some e) × (0 < e.timeout_ms)

abbrev pub AllTimed : List Entry → List ℕ → Type 0
AllTimed entries [] = Unit
AllTimed entries (i ∷ is) = Timed entries i × AllTimed entries is

pub AllTimed-append :
    (entries : List Entry) (is js : List ℕ)
    → AllTimed entries is
    → AllTimed entries js
    → AllTimed entries (is ++ js)
AllTimed-append entries [] js a b = b
AllTimed-append entries (i ∷ is) js a b = (a.0, AllTimed-append entries is js a.1 b)

pub AllTimed-remove :
    (entries : List Entry) (i : ℕ) (js : List ℕ)
    → AllTimed entries js
    → AllTimed entries (remove i js)
unfolding remove
AllTimed-remove entries i [] a = tt
AllTimed-remove entries i (j ∷ js) a = elim (Bool-cases (i == j)) [
  | inl e ↦ rw e a.1
  | inr e ↦ rw e (a.0, AllTimed-remove entries i js a.1)
]

pub may_race-first :
    (entry : Entry) (racer : Option Entry) → may_race entry racer ≡ true → 0 < entry.timeout_ms
unfolding may_race
may_race-first entry racer h = ground arith

pub may_race-second :
    (entries : List Entry) (entry : Entry) (i : ℕ)
    → may_race entry (get_elem? entries i) ≡ true
    → Timed entries i
unfolding may_race
may_race-second entries entry i h = elim (Option-cases (get_elem? entries i)) [
  | inl e ↦ absurd (ground arith)
  | inr (racer, e) ↦ (racer, e, ground arith)
]
