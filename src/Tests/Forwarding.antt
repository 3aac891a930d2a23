-- ===== src/Tests/Forwarding.antt =====
-- src/upstream/legacy.rs and src/upstream/mod.rs on concrete messages.
use dnsrivet.Prelude.{
  get_elem?, length, Bytes, map, ◌++◌, if◌then◌else◌, ◌==◌, ℕ, ◌+◌, ◌*◌, ◌≤◌, ◌<◌, ◌≡◌, ◌≢◌, refl,
  arith, Bool, true, false, none, some, Result, ok, err, List, [], ◌∷◌,
}
use dnsrivet.Upstream.Net.{
  v4, SocketAddr, is_loopback, is_unspecified, to_canonical, eq_ip, is_self_address,
}
use dnsrivet.Upstream.Legacy.{
  accepts, receive_loop, query_udp, follow_up, query_legacy, deliver, is_truncated,
}
use dnsrivet.Upstream.Legacy.Genuine.{Genuine, query_legacy-Genuine, receive_loop-AllStray}
use dnsrivet.Upstream.Manager
use dnsrivet.Upstream.Hedged
use dnsrivet.Upstream.Hedged.Races.{Fair, race_after-Fair}
use dnsrivet.Upstream.Hedged.Exhaustion.{AllPermitted, race_after-Exhausted}
use dnsrivet.Upstream.Setup
use dnsrivet.Upstream.Setup.Endpoints.{AllForeign, new_entries-AllForeign}
use dnsrivet.Upstream.Manager.Fallback.{forward_single_lem}
use dnsrivet.Wire.Validate.{validate_response, question_mismatch}
use dnsrivet.Wire.Read.{read_u16}
use dnsrivet.Wire.Name.{pointer_of, jump, label_step, walk_round, walk_loop, walk_name, lower}
use dnsrivet.Wire.Validate.{match_label, questions_match, eq_ignore_ascii_case}
use dnsrivet.Tests.Wire
use dnsrivet.Tests.Upstream.{target}

addressing : Unit {0}
unfolding is_loopback is_unspecified to_canonical eq_ip is_self_address
addressing = tt

wire : Unit {0}
unfolding read_u16 pointer_of jump label_step walk_round walk_loop walk_name lower match_label
    questions_match eq_ignore_ascii_case validate_response dnsrivet.Prelude.slice?
    dnsrivet.Prelude.write dnsrivet.Prelude.eq_bytes
wire = tt

abbrev no_reply : Bytes → Result Bytes ℕ
no_reply frame = err 4

-- A datagram with another ID, then the answer.
abbrev stray : Bytes
stray = 9 ∷ 9 ∷ 129 ∷ 128 ∷ 0 ∷ 1 ∷ 0 ∷ 0 ∷ 0 ∷ 0 ∷ 0 ∷ 0 ∷ 1 ∷ 97 ∷ 0 ∷ 0 ∷ 1 ∷ 0 ∷ 1 ∷ []

stray_refused : accepts Wire.query stray ≡ false
unfolding accepts dnsrivet.Prelude.eq_bytes
stray_refused = refl

answer_accepted : accepts Wire.query Wire.response ≡ true
unfolding accepts wire
answer_accepted = refl

receive_loop-AllStray_example :
    receive_loop {T = ℕ} Wire.query (map ok (stray ∷ []) ++ (ok Wire.response ∷ []))
    ≡ some (ok Wire.response)
receive_loop-AllStray_example =
    receive_loop-AllStray Wire.query (stray ∷ []) Wire.response [] (stray_refused, tt)
      answer_accepted (omega arith)

answered_legacy :
    query_legacy {T = ℕ} Wire.query true (ok tt) (ok Wire.response ∷ []) no_reply
    ≡ some (ok Wire.response)
unfolding query_legacy follow_up query_udp receive_loop accepts deliver is_truncated wire
answered_legacy = refl

query_legacy-Genuine_example : Genuine Wire.query Wire.response
query_legacy-Genuine_example =
    query_legacy-Genuine Wire.query true (ok tt) (ok Wire.response ∷ []) no_reply Wire.response
      answered_legacy

-- The system's servers: the first one fails, the second one answers.
abbrev system : SocketAddr → Result Bytes ℕ
system server = if server.port == 53 then ok Wire.response else err 1

abbrev manager : Manager.Manager
manager = record {
  system_fallback = record { ip = v4 9; port = 5353 } ∷ record { ip = v4 9; port = 53 } ∷ [];
  fallback_active = false;
  fallback_failed = false;
}

abbrev failed_run : Result Bytes ℕ
failed_run = err 3

forward_single_lem_example :
    ((r : Bytes)
      → (Manager.forward_single manager Wire.query true failed_run true system).1 ≡ some r
      → Manager.is_servfail r ≡ false)
    × ((Manager.forward_single manager Wire.query true failed_run true system).1 ≡ none
        → true ≡ true
        → true ≡ true
        → (Manager.forward_single manager Wire.query true failed_run true system).0.fallback_failed
          ≡ true)
forward_single_lem_example = forward_single_lem manager Wire.query true failed_run true system

-- A channel that returns the answer.
abbrev transports : Manager.Transports ℕ
transports = record {
  parsed = ok (record {
    is_query = true;
    is_query_opcode = true;
    queries = 1;
    answers = 0;
    authorities = 0;
    additionals = 0;
    signed = false;
  });
  resolve = err 0;
  query_legacy = λ addr. err 0;
  query_channel = λ m. ok Wire.response;
}

abbrev channel_entry : Manager.Entry
channel_entry = record { timeout_ms = 5000; backend = Manager.encrypted }

-- The question of this answer is a pointer to the ID, which the channel sets to 0. The answer is valid
-- for a query for the root name; with the ID of the query it is not.
abbrev root_query : Bytes
root_query = 18 ∷ 52 ∷ 1 ∷ 0 ∷ 0 ∷ 1 ∷ 0 ∷ 0 ∷ 0 ∷ 0 ∷ 0 ∷ 0 ∷ 0 ∷ 0 ∷ 2 ∷ 0 ∷ 1 ∷ []

abbrev root_answer : ℕ → ℕ → Bytes
root_answer a b = a ∷ b ∷ 129 ∷ 128 ∷ 0 ∷ 1 ∷ 0 ∷ 0 ∷ 0 ∷ 0 ∷ 0 ∷ 0 ∷ 192 ∷ 0 ∷ 0 ∷ 2 ∷ 0 ∷ 1 ∷ []

id_in_question :
    (validate_response root_query (root_answer 0 0) ≡ ok tt)
    × ((Manager.configured_answer {E = ℕ} manager root_query (ok (root_answer 0 0))).1
        ≡ some (root_answer 18 52))
    × (validate_response root_query (root_answer 18 52) ≡ err question_mismatch)
unfolding Manager.configured_answer wire
id_in_question = (refl, refl, refl)

-- Two upstreams with deadlines; the second one is raced against the first one, and both fail.
abbrev raced : List Manager.Entry
raced = channel_entry ∷ channel_entry ∷ []

abbrev race_events : List (Hedged.Event ℕ)
race_events =
    Hedged.pass false true
    ∷ Hedged.expired
    ∷ Hedged.pass true true
    ∷ Hedged.pass false true
    ∷ Hedged.joined 1 (err 1)
    ∷ Hedged.pass false true
    ∷ Hedged.joined 0 (err 1)
    ∷ Hedged.pass false true
    ∷ []

race_lost :
    (Hedged.race_after raced Wire.query (Hedged.begin manager) race_events).phase
    ≡ Hedged.finished none
unfolding Hedged.race_after Hedged.race_step Hedged.at_phase Hedged.start_next Hedged.launch
    Hedged.give_up Hedged.may_race Hedged.contains Hedged.remove Manager.configured_answer
race_lost = refl

race_after-Fair_example :
    Fair raced (Hedged.race_after raced Wire.query (Hedged.begin manager) race_events)
race_after-Fair_example = race_after-Fair raced Wire.query manager race_events

permitted : AllPermitted race_events
permitted = (refl, (refl, (refl, (refl, (refl, tt)))))

race_after-Exhausted_example :
    ((Hedged.race_after raced Wire.query (Hedged.begin manager) race_events).pending ≡ [])
    × (get_elem? raced (Hedged.race_after raced Wire.query (Hedged.begin manager) race_events).next
        ≡ none)
race_after-Exhausted_example =
    race_after-Exhausted raced Wire.query manager race_events permitted race_lost

-- An upstream at our own listener.
abbrev own_upstream : Setup.Upstream
own_upstream = record {
  is_legacy = true;
  port = 853;
  bootstrap_ip = some (v4 2130706433);
  timeout_ms = 5000;
}

new_entries-AllForeign_example :
    ((entries : List Manager.Entry)
      → Setup.new_entries (own_upstream ∷ []) target.deny ≡ ok entries
      → AllForeign target.deny (own_upstream ∷ []) × (length entries ≡ 1))
    × ((addr : SocketAddr)
        → Setup.new_entries (own_upstream ∷ []) target.deny ≡ err addr
        → is_self_address addr target.deny ≡ true)
new_entries-AllForeign_example = new_entries-AllForeign (own_upstream ∷ []) target.deny

own_refused :
    Setup.new_entries (own_upstream ∷ []) target.deny
    ≡ err (record { ip = v4 2130706433; port = 853 })
unfolding Setup.new_entries Setup.static_self addressing
own_refused = refl
