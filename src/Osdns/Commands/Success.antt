-- ===== src/Osdns/Commands/Success.antt =====
-- Commands that do not fail, of src/osdns/macos.rs: on a machine in a good state they succeed and
-- leave it in a good state.
use mathlib.Core.Path.{subst}
use dnsrivet.Prelude.{◌≡◌, refl, sym, true, some, List, [], ◌∷◌, Result, ok, arith}
use dnsrivet.Prelude.Texts.{Text, codes, contains_text}
use dnsrivet.Osdns.Tools.{Error, Output, Host, World}
use dnsrivet.Osdns.Commands.{
  networksetup, scutil, list_args, get_args, set_args, run, list_services, list_all_services,
  get_dns_servers, set_dns_servers, effective_dns_servers, flush_caches, stdout,
}
use dnsrivet.Osdns.Commands.Laws.{View, succeeded, IsNetworksetup}

-- A command that printed something and left a good state.
abbrev Prints : {S : Type 0} → (S → Type 0) → Result Output Text × S → Type 0
Prints good out =
    good out.1
    × (o : Output) × (text : Text) × (out.0 ≡ ok o)
    × (o.success ≡ true)
    × (o.out ≡ some text)

-- On a good state, lists are printed and the servers of a service that exists can be read, and set
-- to servers that `networksetup` accepts.
pub record IsReliable {S : Type 0} (host : Host S) (view : S → View) (good : S → Type 0)
    (accepts : List Text → Type 0) : Type 0 where
  pub list_prints : (s : S) → good s → Prints good (host.run networksetup list_args s)
  pub get_prints :
      (s : S) (name : Text)
      → good s
      → contains_text (view s).all name ≡ true
      → Prints good (host.run networksetup (get_args name) s)
  pub set_succeeds :
      (s : S) (name : Text) (servers : List Text)
      → good s
      → contains_text (view s).all name ≡ true
      → accepts servers
      → good (host.run networksetup (set_args name servers) s).1
        × (succeeded (host.run networksetup (set_args name servers) s).0 ≡ true)
  pub scutil_good : (s : S) → good s → good (host.run scutil (codes "--dns" ∷ []) s).1
  pub flush_good :
      (s : S)
      → good s
      → good (host.run (codes "/usr/bin/dscacheutil") (codes "-flushcache" ∷ []) s).1
  pub restart_good :
      (s : S)
      → good s
      → good (host.run (codes "/usr/bin/killall") (codes "-HUP" ∷ codes "mDNSResponder" ∷ []) s).1

module _ {S : Type 0} (good : S → Type 0) where
  -- A good state in which no file operation will fail.
  abbrev pub IsCalm : World S → Type 0
  IsCalm w = good w.machine × (w.disk ≡ [])

  -- An action that succeeds and leaves such a state.
  abbrev pub Succeeds : {A : Type 0} → A → Result A Error × World S → Type 0
  Succeeds a out = (out.0 ≡ ok a) × IsCalm out.1

  pub Succeeds-done :
      {A : Type 0} {a : A} (out : Result A Error × World S) (w' : World S)
      → IsCalm w'
      → out ≡ (ok a, w')
      → Succeeds a out
  Succeeds-done out w' calm e = subst (Succeeds _) (sym e) (refl, calm)

success→stdout :
    (o : Output) (text : Text) → o.success ≡ true → o.out ≡ some text → stdout o ≡ ok text
unfolding stdout
success→stdout o text success out = ground arith

module _ {S : Type 0} {host : Host S} {view : S → View} {good : S → Type 0}
    {accepts : List Text → Type 0} (law : IsNetworksetup host view)
    (reliable : IsReliable host view good accepts) (w : World S) (calm : IsCalm good w) where
  abbrev after : Text → List Text → World S
  after program args = record w { machine = (host.run program args w.machine).1 }

  pub list_services-Succeeds : Succeeds good (view w.machine).enabled (list_services host w)
  unfolding list_services run
  list_services-Succeeds =
      let (now, o, text, ran, success, out) = reliable.list_prints w.machine calm.0 in
      let printed = success→stdout o text success out in
      let shown = law.list_shows w.machine o text ran success out in
      Succeeds-done good (list_services host w) (after networksetup list_args) (now, calm.1)
        (ground arith)

  pub list_all_services-Succeeds : Succeeds good (view w.machine).all (list_all_services host w)
  unfolding list_all_services run
  list_all_services-Succeeds =
      let (now, o, text, ran, success, out) = reliable.list_prints w.machine calm.0 in
      let printed = success→stdout o text success out in
      let shown = law.list_shows w.machine o text ran success out in
      Succeeds-done good (list_all_services host w) (after networksetup list_args) (now, calm.1)
        (ground arith)

  pub get_dns_servers-Succeeds :
      (name : Text)
      → contains_text (view w.machine).all name ≡ true
      → Succeeds good ((view w.machine).dns name) (get_dns_servers host name w)
  unfolding get_dns_servers run
  get_dns_servers-Succeeds name there =
      let (now, o, text, ran, success, out) = reliable.get_prints w.machine name calm.0 there in
      let printed = success→stdout o text success out in
      let shown = law.get_shows w.machine name o text ran success out in
      Succeeds-done good (get_dns_servers host name w) (after networksetup (get_args name))
        (now, calm.1) (ground arith)

  pub set_dns_servers-Succeeds :
      (name : Text) (servers : List Text)
      → contains_text (view w.machine).all name ≡ true
      → accepts servers
      → Succeeds good tt (set_dns_servers host name servers w)
  unfolding set_dns_servers run
  set_dns_servers-Succeeds name servers there accepted =
      let (now, set) = reliable.set_succeeds w.machine name servers calm.0 there accepted in
      Succeeds-done good (set_dns_servers host name servers w)
        (after networksetup (set_args name servers)) (now, calm.1) (ground arith)

  pub effective_dns_servers-IsCalm : IsCalm good (effective_dns_servers host w).1
  unfolding effective_dns_servers run
  effective_dns_servers-IsCalm =
      let same : (effective_dns_servers host w).1 ≡ after scutil (codes "--dns" ∷ []) =
        ground arith in
      subst (IsCalm good) (sym same) (reliable.scutil_good w.machine calm.0, calm.1)

  pub flush_caches-IsCalm : IsCalm good (flush_caches host w)
  unfolding flush_caches run
  flush_caches-IsCalm = (
    reliable.restart_good
        (host.run (codes "/usr/bin/dscacheutil") (codes "-flushcache" ∷ []) w.machine).1
        (reliable.flush_good w.machine calm.0),
    calm.1,
  )
