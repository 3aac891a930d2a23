-- ===== src/Tests/Desk.antt =====
-- A concrete machine with two services, one of them disabled, on which `networksetup` behaves as
-- src/osdns/macos.rs relies on, and fails when a script says so.
mod Steady
mod Runs
use dnsrivet.Prelude.{
  ℕ, ◌⊎◌, ◌≡◌, refl, sym, ap, ◌∙◌, Bool, true, false, Option, none, some, List, [], ◌∷◌, ◌++◌,
  arith, Result, ok, err, inl, inr, Bool-cases, if◌then◌else◌,
}
use dnsrivet.Prelude.Texts.{
  Text, codes, eq_text, eq_texts, eq_texts→eq, contains_text, lines, trim, is_empty, starts_with,
  strip_prefix,
}
use dnsrivet.Osdns.Listing.{parse_services, parse_all_services, parse_dns_servers}
use dnsrivet.Osdns.Tools.{Output, Host}
use dnsrivet.Osdns.Commands.{networksetup, scutil, list_args, get_args, set_args}
use dnsrivet.Osdns.Commands.Laws.{View, assign, settled, succeeded, IsNetworksetup}

pub record Desk : Type 0 where
  pub dns : Text → List Text
  -- For each coming command, whether it fails.
  pub fails : List Bool

abbrev pub wifi : Text
wifi = codes "Wi-Fi"

abbrev pub modem : Text
modem = codes "Modem"

abbrev printed : Text → Output
printed text = record { success = true; out = some text; complaint = [] }

abbrev failure : Output
failure = record { success = false; out = some []; complaint = codes "failed" }

abbrev no_index : Text → Option ℕ
no_index _ = none

list_text : Text
list_text = codes "An asterisk (*) denotes that a network service is disabled.\nWi-Fi\n*Modem\n"

each_line : List Text → Text
each_line [] = []
each_line (s ∷ servers) = s ++ (codes "\n" ++ each_line servers)

pub get_text : List Text → Text
unfolding each_line
get_text [] = codes "There aren't any DNS Servers set on the service.\n"
get_text (s ∷ servers) = each_line (s ∷ servers)

pub reads_back : Option (List Text) → List Text → Bool
reads_back none servers = false
reads_back (some read) servers = eq_texts read servers

get_output : List Text → Output
unfolding reads_back get_text
get_output servers =
    if reads_back (parse_dns_servers no_index (get_text servers)) servers
    then printed (get_text servers)
    else failure

abbrev given : List Text → List Text
given servers = if eq_texts servers (codes "Empty" ∷ []) then [] else servers

-- What a command does that does not fail by the script.
act : List Text → Desk → Output × Desk
unfolding get_output list_text
act [] s = (failure, s)
act (verb ∷ []) s =
    (if eq_text verb (codes "-listallnetworkservices") then printed list_text else failure, s)
act (verb ∷ name ∷ rest) s =
    if eq_text verb (codes "-getdnsservers")
    then (get_output (s.dns name), s)
    else if contains_text (wifi ∷ modem ∷ []) name
    then (printed [], record s { dns = assign name (given rest) s.dns })
    else (failure, s)

scutil_text : Text
scutil_text = codes "DNS configuration\n\nresolver #1\n  nameserver[0] : 9.9.9.9\n"

dispatch : Text → List Text → Desk → Output × Desk
unfolding act scutil_text
dispatch program args s =
    if eq_text program networksetup
    then act args s
    else (printed (if eq_text program scutil then scutil_text else []), s)

run_on : List Bool → Text → List Text → Desk → Output × Desk
unfolding dispatch
run_on [] program args s = dispatch program args (record s { fails = [] })
run_on (false ∷ rest) program args s = dispatch program args (record s { fails = rest })
run_on (true ∷ rest) program args s = (failure, record s { fails = rest })

abbrev pub desk : Host Desk
unfolding run_on
desk = record {
  run = λ program args s. let (o, s') = run_on s.fails program args s in (ok o, s');
  interface_index = no_index;
}

abbrev pub desk_view : Desk → View
desk_view s = record { all = wifi ∷ modem ∷ []; enabled = wifi ∷ []; dns = s.dns }

run_on_ends :
    (fails : List Bool) (program : Text) (args : List Text) (s : Desk)
    → (rest : List Bool) × ((run_on fails program args s ≡ (failure, record s { fails = rest }))
        ⊎ (run_on fails program args s ≡ dispatch program args (record s { fails = rest })))
unfolding run_on
run_on_ends [] program args s = ([], inr refl)
run_on_ends (false ∷ rest) program args s = (rest, inr refl)
run_on_ends (true ∷ rest) program args s = (rest, inl refl)

listing :
    (parse_services list_text ≡ wifi ∷ []) × (parse_all_services list_text ≡ wifi ∷ modem ∷ [])
unfolding list_text parse_services parse_all_services lines trim is_empty starts_with strip_prefix
listing = (refl, refl)

list_dispatch : (s : Desk) → dispatch networksetup list_args s ≡ (printed list_text, s)
unfolding dispatch dnsrivet.Prelude.eq_bytes
list_dispatch s = refl

get_dispatch :
    (name : Text) (s : Desk)
    → dispatch networksetup (get_args name) s ≡ (get_output (s.dns name), s)
unfolding dispatch dnsrivet.Prelude.eq_bytes
get_dispatch name s = refl

-- What setting the servers does, in the two cases.
set_dispatch :
    (name : Text) (servers : List Text) (s : Desk)
    → ((contains_text (wifi ∷ modem ∷ []) name ≡ true)
        × (dispatch networksetup (set_args name servers) s
            ≡ (printed [], record s { dns = assign name (settled servers) s.dns })))
      ⊎ (dispatch networksetup (set_args name servers) s ≡ (failure, s))
unfolding eq_texts dispatch set_args dnsrivet.Prelude.eq_bytes
set_dispatch name [] s = elim (Bool-cases (contains_text (wifi ∷ modem ∷ []) name)) [
  | inl known ↦ inl (known, ground arith)
  | inr unknown ↦ inr (ground arith)
]
set_dispatch name (x ∷ servers) s = elim (Bool-cases (contains_text (wifi ∷ modem ∷ []) name)) [
  | inl known ↦ inl (known, ground arith)
  | inr unknown ↦ inr (ground arith)
]

keep_law :
    (program : Text) (args : List Text) (s : Desk)
    → ((s' : Desk) → (dispatch program args s').1 ≡ s')
    → desk_view (desk.run program args s).1 ≡ desk_view s
unfolding desk
keep_law program args s keeps = elim (run_on_ends s.fails program args s).1 [
  | inl failed ↦ ap (λ (out : Output × Desk). desk_view out.1) failed
  | inr ran ↦
      ap (λ (out : Output × Desk). desk_view out.1) ran
      ∙ ap desk_view (keeps (record s { fails = (run_on_ends s.fails program args s).0 }))
]

-- An output of a command that succeeded.
output_law :
    (program : Text) (args : List Text) (s : Desk) (o : Output)
    → (desk.run program args s).0 ≡ ok o
    → o.success ≡ true
    → (rest : List Bool) × ((dispatch program args (record s { fails = rest })).0 ≡ o)
unfolding desk
output_law program args s o ran success = elim (run_on_ends s.fails program args s).1 [
  | inl failed ↦ absurd (ground arith)
  | inr fine ↦ ((run_on_ends s.fails program args s).0, ground arith)
]

list_law :
    (s : Desk) (o : Output) (text : Text)
    → (desk.run networksetup list_args s).0 ≡ ok o
    → o.success ≡ true
    → o.out ≡ some text
    → list_text ≡ text
list_law s o text ran success out =
    let (rest, was) = output_law networksetup list_args s o ran success in
    let shown = list_dispatch (record s { fails = rest }) in ground arith

reads_back→eq :
    (parsed : Option (List Text)) (servers : List Text)
    → reads_back parsed servers ≡ true
    → parsed ≡ some servers
unfolding reads_back
reads_back→eq none servers h = absurd (ground arith)
reads_back→eq (some read) servers h = ap some (eq_texts→eq read servers h)

get_output_law :
    (servers : List Text) (text : Text)
    → (get_output servers).success ≡ true
    → (get_output servers).out ≡ some text
    → parse_dns_servers no_index text ≡ some servers
unfolding get_output reads_back
get_output_law servers text success out =
    elim (Bool-cases (reads_back (parse_dns_servers no_index (get_text servers)) servers)) [
      | inr differs ↦ absurd (ground arith)
      | inl same ↦
          let shown : get_text servers ≡ text = ground arith in
          ap (parse_dns_servers no_index) (sym shown)
          ∙ reads_back→eq (parse_dns_servers no_index (get_text servers)) servers same
    ]

get_law :
    (s : Desk) (name : Text) (o : Output) (text : Text)
    → (desk.run networksetup (get_args name) s).0 ≡ ok o
    → o.success ≡ true
    → o.out ≡ some text
    → parse_dns_servers no_index text ≡ some (s.dns name)
get_law s name o text ran success out =
    let (rest, was) = output_law networksetup (get_args name) s o ran success in
    let shown = get_dispatch name (record s { fails = rest }) in
    get_output_law (s.dns name) text (ground arith) (ground arith)

-- Setting succeeds and writes, or fails and keeps.
set_law :
    (s : Desk) (name : Text) (servers : List Text)
    → ((succeeded (desk.run networksetup (set_args name servers) s).0 ≡ true)
        × (desk_view (desk.run networksetup (set_args name servers) s).1
            ≡ record (desk_view s) { dns = assign name (settled servers) s.dns }))
      ⊎ ((succeeded (desk.run networksetup (set_args name servers) s).0 ≡ false)
          × (desk_view (desk.run networksetup (set_args name servers) s).1 ≡ desk_view s))
unfolding desk
set_law s name servers =
    let ends = run_on_ends s.fails networksetup (set_args name servers) s in
    elim ends.1 [
      | inl failed ↦ inr (ground arith, ap (λ (out : Output × Desk). desk_view out.1) failed)
      | inr ran ↦ elim (set_dispatch name servers (record s { fails = ends.0 })) [
        | inl (known, wrote) ↦
            inl (ground arith, ap (λ (out : Output × Desk). desk_view out.1) (ran ∙ wrote))
        | inr kept ↦ inr (ground arith, ap (λ (out : Output × Desk). desk_view out.1) (ran ∙ kept))
      ]
    ]

quiet_dispatch :
    (s : Desk)
    → ((dispatch scutil (codes "--dns" ∷ []) s).1 ≡ s)
      × ((dispatch (codes "/usr/bin/dscacheutil") (codes "-flushcache" ∷ []) s).1 ≡ s)
      × ((dispatch (codes "/usr/bin/killall") (codes "-HUP" ∷ codes "mDNSResponder" ∷ []) s).1 ≡ s)
unfolding dispatch dnsrivet.Prelude.eq_bytes
quiet_dispatch s = (refl, refl, refl)

exist_law :
    (name : Text)
    → contains_text (wifi ∷ []) name ≡ true
    → contains_text (wifi ∷ modem ∷ []) name ≡ true
unfolding contains_text
exist_law name h = ground arith

pub desk_laws : IsNetworksetup desk desk_view
unfolding desk
desk_laws = record {
  enabled_exist = λ s name h. exist_law name h;
  list_keeps = λ s.
      keep_law networksetup list_args s
        (λ s'. ap (λ (out : Output × Desk). out.1) (list_dispatch s'));
  list_shows = λ s o text ran success out.
      let same = list_law s o text ran success out in
      (ap parse_services (sym same) ∙ listing.0, ap parse_all_services (sym same) ∙ listing.1);
  get_keeps = λ s name.
      keep_law networksetup (get_args name) s
        (λ s'. ap (λ (out : Output × Desk). out.1) (get_dispatch name s'));
  get_shows = get_law;
  set_writes = λ s name servers fine. elim (set_law s name servers) [
    | inl (_, wrote) ↦ wrote
    | inr (failed, _) ↦ absurd (cc)
  ];
  set_keeps = λ s name servers failed. elim (set_law s name servers) [
    | inl (fine, _) ↦ absurd (cc)
    | inr (_, kept) ↦ kept
  ];
  scutil_keeps = λ s. keep_law scutil (codes "--dns" ∷ []) s (λ s'. (quiet_dispatch s').0);
  flush_keeps = λ s.
      keep_law (codes "/usr/bin/dscacheutil") (codes "-flushcache" ∷ []) s
        (λ s'. (quiet_dispatch s').1);
  restart_keeps = λ s.
      keep_law (codes "/usr/bin/killall") (codes "-HUP" ∷ codes "mDNSResponder" ∷ []) s
        (λ s'. (quiet_dispatch s').2);
}
