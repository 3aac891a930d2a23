-- ===== src/Tests/Desk/Steady.antt =====
-- The machine of Desk where its script is empty: no command fails.
use mathlib.Core.Path.{subst}
use dnsrivet.Prelude.{
  ◌≡◌, ◌≢◌, refl, sym, ap, ◌∙◌, Bool, true, false, none, some, List, [], ◌∷◌, Result, ok, err,
  arith, inl, inr, Bool-cases, if◌then◌else◌,
}
use dnsrivet.Prelude.Texts.{Text, codes, eq_text, eq_texts, contains_text}
use dnsrivet.Osdns.Tools.{Output}
use dnsrivet.Osdns.Listing.{parse_dns_servers}
use dnsrivet.Osdns.Commands.{networksetup, scutil, list_args, get_args, set_args}
use dnsrivet.Osdns.Commands.Laws.{assign, settled, succeeded}
use dnsrivet.Osdns.Commands.Success.{IsReliable}
use dnsrivet.Tests.Desk.{
  Desk, wifi, modem, desk, desk_view, run_on, dispatch, get_output, get_text, reads_back, no_index,
  printed, list_text, list_dispatch, get_dispatch, quiet_dispatch,
}

-- A text of the servers reads back as they are.
abbrev pub Readable : List Text → Type 0
Readable servers = reads_back (parse_dns_servers no_index (get_text servers)) servers ≡ true

abbrev pub Steady : Desk → Type 0
Steady s = (s.fails ≡ []) × ((n : Text) → Readable (s.dns n))

abbrev pub Accepts : List Text → Type 0
Accepts servers = Readable (settled servers)

run_on-fine :
    (program : Text) (args : List Text) (s : Desk)
    → s.fails ≡ []
    → run_on s.fails program args s ≡ dispatch program args (record s { fails = [] })
unfolding run_on
run_on-fine program args s h = rw h refl

get_output-Readable :
    (servers : List Text) → Readable servers → get_output servers ≡ printed (get_text servers)
unfolding get_output
get_output-Readable servers h = rw h refl

list_args-Steady :
    (s : Desk)
    → s.fails ≡ []
    → desk.run networksetup list_args s ≡ (ok (printed list_text), record s { fails = [] })
unfolding desk
list_args-Steady s h =
    let ran = run_on-fine networksetup list_args s h ∙ list_dispatch (record s { fails = [] }) in
    ground arith

get_args-Steady :
    (s : Desk) (name : Text)
    → Steady s
    → desk.run networksetup (get_args name) s
      ≡ (ok (printed (get_text (s.dns name))), record s { fails = [] })
unfolding desk
get_args-Steady s name h =
    let ran =
      run_on-fine networksetup (get_args name) s h.0
      ∙ get_dispatch name (record s { fails = [] }) in
    let got = get_output-Readable (s.dns name) (h.1 name) in ground arith

set_known :
    (name : Text) (servers : List Text) (s : Desk)
    → contains_text (wifi ∷ modem ∷ []) name ≡ true
    → dispatch networksetup (set_args name servers) s
      ≡ (printed [], record s { dns = assign name (settled servers) s.dns })
unfolding eq_texts dispatch set_args dnsrivet.Prelude.eq_bytes
set_known name [] s known = ground arith
set_known name (x ∷ servers) s known = ground arith

assign_here :
    (name : Text) (servers : List Text) (dns : Text → List Text) (n : Text)
    → eq_text name n ≡ true
    → assign name servers dns n ≡ servers
assign_here name servers dns n h = ground arith

assign_other :
    (name : Text) (servers : List Text) (dns : Text → List Text) (n : Text)
    → eq_text name n ≡ false
    → assign name servers dns n ≡ dns n
assign_other name servers dns n h = ground arith

set_args-Steady :
    (s : Desk) (name : Text) (servers : List Text)
    → Steady s
    → contains_text (wifi ∷ modem ∷ []) name ≡ true
    → desk.run networksetup (set_args name servers) s
      ≡ (ok (printed []), record s { dns = assign name (settled servers) s.dns; fails = [] })
unfolding desk
set_args-Steady s name servers h there =
    let ran =
      run_on-fine networksetup (set_args name servers) s h.0
      ∙ set_known name servers (record s { fails = [] }) there in
    ground arith

run-Steady :
    (program : Text) (args : List Text) (s : Desk)
    → ((s' : Desk) → (dispatch program args s').1 ≡ s')
    → Steady s
    → Steady (desk.run program args s).1
unfolding desk
run-Steady program args s keeps h =
    subst Steady
      (sym (
        ap (λ (out : Output × Desk). out.1) (run_on-fine program args s h.0)
        ∙ keeps (record s { fails = [] })))
      (refl, h.1)

pub desk-IsReliable : IsReliable desk desk_view Steady Accepts
desk-IsReliable = record {
  list_prints = λ s h.
      subst
        (λ (out : Result Output Text × Desk).
          Steady out.1
          × (o : Output) × (text : Text) × (out.0 ≡ ok o)
          × (o.success ≡ true)
          × (o.out ≡ some text))
        (sym (list_args-Steady s h.0))
        ((refl, h.1), printed list_text, list_text, refl, refl, refl);
  get_prints = λ s name h there.
      subst
        (λ (out : Result Output Text × Desk).
          Steady out.1
          × (o : Output) × (text : Text) × (out.0 ≡ ok o)
          × (o.success ≡ true)
          × (o.out ≡ some text))
        (sym (get_args-Steady s name h))
        ((refl, h.1), printed (get_text (s.dns name)), get_text (s.dns name), refl, refl, refl);
  set_succeeds = λ s name servers h there accepted.
      subst (λ (out : Result Output Text × Desk). Steady out.1 × (succeeded out.0 ≡ true))
        (sym (set_args-Steady s name servers h there))
        (
          (
            refl,
            λ n. elim (Bool-cases (eq_text name n)) [
              | inl here ↦
                  subst Readable (sym (assign_here name (settled servers) s.dns n here)) accepted
              | inr other ↦
                  subst Readable (sym (assign_other name (settled servers) s.dns n other)) (h.1 n)
            ],
          ),
          refl,
        );
  scutil_good = λ s h. run-Steady scutil (codes "--dns" ∷ []) s (λ s'. (quiet_dispatch s').0) h;
  flush_good = λ s h.
      run-Steady (codes "/usr/bin/dscacheutil") (codes "-flushcache" ∷ []) s
        (λ s'. (quiet_dispatch s').1) h;
  restart_good = λ s h.
      run-Steady (codes "/usr/bin/killall") (codes "-HUP" ∷ codes "mDNSResponder" ∷ []) s
        (λ s'. (quiet_dispatch s').2) h;
}
