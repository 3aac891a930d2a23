-- ===== src/Osdns/Commands/Laws.antt =====
-- What src/osdns/macos.rs relies on of `networksetup` and `scutil`, as laws of a `Host` seen
-- through a view of the settings, and what each command of the program does under these laws.
use dnsrivet.Prelude.{
  ℕ, ◌≡◌, ◌∙◌, refl, Bool, true, false, if◌then◌else◌, Option, some, List, [], ◌∷◌, Result, ok, err,
  arith, Result-cases, some_inj, eq_bytes→eq, Bool-cases, inl, inr,
}
use dnsrivet.Prelude.Texts.{
  Text, codes, eq_text, eq_texts, contains_text, trim, strip_prefix, rsplit_once, lines,
}
use dnsrivet.Osdns.IpText.{parse_ip}
use dnsrivet.Osdns.Addresses.{parse_dns_socket, invalid_address}
use dnsrivet.Osdns.Listing.{
  parse_services, parse_all_services, parse_dns_servers, all_sockets, filled, is_none_set,
}
use dnsrivet.Osdns.Tools.{Error, Output, Host, World}
use dnsrivet.Osdns.Commands.{
  networksetup, scutil, list_args, get_args, set_args, run, list_services, list_all_services,
  get_dns_servers, set_dns_servers, effective_dns_servers, flush_caches, stdout,
}

-- The settings: the services that exist and those that are enabled, and the DNS servers that are
-- set on a service.
pub record View : Type 0 where
  pub all : List Text
  pub enabled : List Text
  pub dns : Text → List Text

abbrev pub assign : Text → List Text → (Text → List Text) → Text → List Text
assign name servers dns n = if eq_text name n then servers else dns n

-- `Empty` stands for no server.
abbrev pub settled : List Text → List Text
settled servers = if eq_texts servers (codes "Empty" ∷ []) then [] else servers

abbrev pub succeeded : Result Output Text → Bool
succeeded (ok o) = o.success
succeeded (err _) = false

-- `networksetup` lists the services and the servers of a service as they are set, changes the
-- servers of one service where it succeeds, and nothing where it fails. No other command changes
-- a setting.
pub record IsNetworksetup {S : Type 0} (host : Host S) (view : S → View) : Type 0 where
  -- An enabled service is one that exists.
  pub enabled_exist :
      (s : S) (name : Text)
      → contains_text (view s).enabled name ≡ true
      → contains_text (view s).all name ≡ true
  pub list_keeps : (s : S) → view (host.run networksetup list_args s).1 ≡ view s
  pub list_shows :
      (s : S) (o : Output) (text : Text)
      → (host.run networksetup list_args s).0 ≡ ok o
      → o.success ≡ true
      → o.out ≡ some text
      → (parse_services text ≡ (view s).enabled) × (parse_all_services text ≡ (view s).all)
  pub get_keeps : (s : S) (name : Text) → view (host.run networksetup (get_args name) s).1 ≡ view s
  pub get_shows :
      (s : S) (name : Text) (o : Output) (text : Text)
      → (host.run networksetup (get_args name) s).0 ≡ ok o
      → o.success ≡ true
      → o.out ≡ some text
      → parse_dns_servers host.interface_index text ≡ some ((view s).dns name)
  pub set_writes :
      (s : S) (name : Text) (servers : List Text)
      → succeeded (host.run networksetup (set_args name servers) s).0 ≡ true
      → view (host.run networksetup (set_args name servers) s).1
        ≡ record (view s) { dns = assign name (settled servers) (view s).dns }
  pub set_keeps :
      (s : S) (name : Text) (servers : List Text)
      → succeeded (host.run networksetup (set_args name servers) s).0 ≡ false
      → view (host.run networksetup (set_args name servers) s).1 ≡ view s
  pub scutil_keeps : (s : S) → view (host.run scutil (codes "--dns" ∷ []) s).1 ≡ view s
  pub flush_keeps :
      (s : S)
      → view (host.run (codes "/usr/bin/dscacheutil") (codes "-flushcache" ∷ []) s).1 ≡ view s
  pub restart_keeps :
      (s : S)
      → view (host.run (codes "/usr/bin/killall") (codes "-HUP" ∷ codes "mDNSResponder" ∷ []) s).1
        ≡ view s

empty_is_no_address :
    (interface_index : Text → Option ℕ)
    → parse_dns_socket interface_index (codes "Empty") ≡ err (invalid_address (codes "Empty"))
unfolding parse_dns_socket trim parse_ip strip_prefix rsplit_once
empty_is_no_address interface_index = refl

all_sockets-settled :
    (interface_index : Text → Option ℕ) (lines servers : List Text)
    → all_sockets interface_index lines ≡ some servers
    → settled servers ≡ servers
unfolding all_sockets eq_texts
all_sockets-settled interface_index [] servers h = rw (← some_inj h) refl
all_sockets-settled interface_index (line ∷ rest) servers h =
    elim (Bool-cases (eq_text line (codes "Empty"))) [
      | inr other ↦ ground arith
      | inl same ↦ absurd (
          ground
            (arith, eq_bytes→eq line (codes "Empty") same, empty_is_no_address interface_index))
    ]

parse_dns_servers-settled :
    (interface_index : Text → Option ℕ) (text : Text) (servers : List Text)
    → parse_dns_servers interface_index text ≡ some servers
    → settled servers ≡ servers
unfolding parse_dns_servers
parse_dns_servers-settled interface_index text servers h =
    elim (Bool-cases (is_none_set (filled (lines text)))) [
      | inl none_set ↦ ground arith
      | inr some_set ↦
          all_sockets-settled interface_index (filled (lines text)) servers (ground arith)
    ]

stdout→success :
    (o : Output) (text : Text) → stdout o ≡ ok text → (o.success ≡ true) × (o.out ≡ some text)
unfolding stdout
stdout→success o text h = ground arith

module _ {S : Type 0} (view : S → View) where
  -- What stays as it was.
  abbrev pub Keeps : World S → World S → Type 0
  Keeps w w' = (view w'.machine ≡ view w.machine) × (w'.backup ≡ w.backup) × (w'.marker ≡ w.marker)

  pub Keeps-trans : (u v x : World S) → Keeps u v → Keeps v x → Keeps u x
  Keeps-trans u v x p q = (q.0 ∙ p.0, q.1 ∙ p.1, q.2 ∙ p.2)

module _ {S : Type 0} {host : Host S} {view : S → View} (law : IsNetworksetup host view) where
  list_shown :
      (s : S) (o : Output) (text : Text)
      → (host.run networksetup list_args s).0 ≡ ok o
      → stdout o ≡ ok text
      → (parse_services text ≡ (view s).enabled) × (parse_all_services text ≡ (view s).all)
  list_shown s o text ran printed =
      let (success, out) = stdout→success o text printed in law.list_shows s o text ran success out

  pub list_services_lem :
      (w : World S)
      → Keeps view w (list_services host w).1
        × ((names : List Text)
            → (list_services host w).0 ≡ ok names
            → names ≡ (view w.machine).enabled)
  unfolding list_services run
  list_services_lem w = (
    ground (arith, law.list_keeps w.machine),
    λ names h. elim (Result-cases (host.run networksetup list_args w.machine).0) [
      | inr (e, failed) ↦ absurd (ground arith)
      | inl (o, ran) ↦ elim (Result-cases (stdout o)) [
        | inr (e, failed) ↦ absurd (ground arith)
        | inl (text, printed) ↦ ground (arith, list_shown w.machine o text ran printed)
      ]
    ],
  )

  pub list_all_services_lem :
      (w : World S)
      → Keeps view w (list_all_services host w).1
        × ((names : List Text)
            → (list_all_services host w).0 ≡ ok names
            → names ≡ (view w.machine).all)
  unfolding list_all_services run
  list_all_services_lem w = (
    ground (arith, law.list_keeps w.machine),
    λ names h. elim (Result-cases (host.run networksetup list_args w.machine).0) [
      | inr (e, failed) ↦ absurd (ground arith)
      | inl (o, ran) ↦ elim (Result-cases (stdout o)) [
        | inr (e, failed) ↦ absurd (ground arith)
        | inl (text, printed) ↦ ground (arith, list_shown w.machine o text ran printed)
      ]
    ],
  )

  get_shown :
      (s : S) (name : Text) (o : Output) (text : Text)
      → (host.run networksetup (get_args name) s).0 ≡ ok o
      → stdout o ≡ ok text
      → parse_dns_servers host.interface_index text ≡ some ((view s).dns name)
  get_shown s name o text ran printed =
      let (success, out) = stdout→success o text printed in
      law.get_shows s name o text ran success out

  pub get_dns_servers_lem :
      (name : Text) (w : World S)
      → Keeps view w (get_dns_servers host name w).1
        × ((servers : List Text)
            → (get_dns_servers host name w).0 ≡ ok servers
            → (servers ≡ (view w.machine).dns name) × (settled servers ≡ servers))
  unfolding get_dns_servers run
  get_dns_servers_lem name w = (
    ground (arith, law.get_keeps w.machine name),
    λ servers h. elim (Result-cases (host.run networksetup (get_args name) w.machine).0) [
      | inr (e, failed) ↦ absurd (ground arith)
      | inl (o, ran) ↦ elim (Result-cases (stdout o)) [
        | inr (e, failed) ↦ absurd (ground arith)
        | inl (text, printed) ↦
            let shown : parse_dns_servers host.interface_index text ≡ some servers =
              ground (arith, get_shown w.machine name o text ran printed) in
            (
              ground (arith, get_shown w.machine name o text ran printed),
              parse_dns_servers-settled host.interface_index text servers shown,
            )
      ]
    ],
  )

  pub set_dns_servers_lem :
      (name : Text) (servers : List Text) (w : World S)
      → let (r, w') = set_dns_servers host name servers w in
        (w'.backup ≡ w.backup)
        × (w'.marker ≡ w.marker)
        × (r ≡ ok tt
            → view w'.machine ≡ record (view w.machine) {
              dns = assign name (settled servers) (view w.machine).dns;
            })
        × ((e : Error) → r ≡ err e → view w'.machine ≡ view w.machine)
  unfolding set_dns_servers run
  set_dns_servers_lem name servers w = (
    ground arith,
    ground arith,
    λ h.
        ground (arith, law.set_writes w.machine name servers, law.set_keeps w.machine name servers),
    λ e h.
        ground (arith, law.set_writes w.machine name servers, law.set_keeps w.machine name servers),
  )

  pub effective_dns_servers_lem : (w : World S) → Keeps view w (effective_dns_servers host w).1
  unfolding effective_dns_servers run
  effective_dns_servers_lem w = ground (arith, law.scutil_keeps w.machine)

  pub flush_caches_lem : (w : World S) → Keeps view w (flush_caches host w)
  unfolding flush_caches run
  flush_caches_lem w = ground (
    arith,
    law.flush_keeps w.machine,
    law.restart_keeps
        (host.run (codes "/usr/bin/dscacheutil") (codes "-flushcache" ∷ []) w.machine).1,
  )
