-- ===== src/Console/Requests.antt =====
-- What client.cpp asks of the service, over a whole run.
use mathlib.Core.List.{append_assoc}
use quote_server.Base.{
  String, ◌==◌, ℕ, true, ◌≡◌, refl, sym, ap, ◌∙◌, arith, some, List, [], ◌∷◌, ◌++◌, Result, ok,
  push_back, List-cases, Result-cases, inl, inr, >>=-eq-ok, Bool-cases, if◌then◌else◌,
}
use quote_server.Json.{Json}
use quote_server.Console.{
  Console, ScenarioEntry, endpoints_of, handle_typed, handle_reply, next_request, product_request,
  transform,
}
use quote_server.Console.Program.{
  Options, connects, asks, new_console, start, main_round, handle_scenario,
}

-- Time only moves an entry on.
handle_scenario-keeps :
    (scenario : List ScenarioEntry) (c : Console) {scenario' : List ScenarioEntry} {c' : Console}
    → handle_scenario scenario c ≡ (scenario', c')
    → c'.scenario_messages ++ scenario' ≡ c.scenario_messages ++ scenario
unfolding handle_scenario
handle_scenario-keeps [] c e = ap (λ p. p.1.scenario_messages ++ p.0) (sym e)
handle_scenario-keeps (entry ∷ scenario) c e =
    ap (λ p. p.1.scenario_messages ++ p.0) (sym e)
    ∙ append_assoc c.scenario_messages (entry ∷ []) scenario

asks-injective :
    {J : Type 0} {request request' : J} {c c' : Console}
    → ok (asks request c) ≡ ok (asks request' c')
    → ◌≡◌ {A = J × Console} (request, c) (request', c')
asks-injective e = cc

module _ {J : Type 0} ⦃json : Json J⦄ where
  abbrev pub heartbeat_request : String → J
  heartbeat_request client_id =
      json.object (("type", json.text "heartbeat") ∷ ("client_id", json.text client_id) ∷ [])

  abbrev pub entry_request : String → ScenarioEntry → J
  entry_request client_id entry =
      product_request (if entry.subscribes then "subscribe_request" else "unsubscribe_request")
        client_id entry.product_id

  -- The requests are heartbeats and, for each entry in order, one request.
  pub data Asked : List J → List ScenarioEntry → Type 0 where
    nothing : Asked [] []
    heartbeat :
        {requests requests' : List J} {entries : List ScenarioEntry} (client_id : String)
        → Asked requests entries
        → requests' ≡ push_back requests (heartbeat_request client_id)
        → Asked requests' entries
    asked_for :
        {requests requests' : List J} {entries entries' : List ScenarioEntry} (client_id : String)
        (entry : ScenarioEntry)
        → Asked requests entries
        → requests' ≡ push_back requests (entry_request client_id entry)
        → entries' ≡ push_back entries entry
        → Asked requests' entries'

  -- A run of the program: the requests sent in the loop, what is left of the scenario, and the state.
  pub data Run (stoi : String → Result ℕ) (o : Options)
      : List J → List ScenarioEntry → Console → Type 0 where
    started :
        {server_endpoint : String} {scenario : List ScenarioEntry} {request : J} {c : Console}
        → start stoi true o ≡ ok (connects server_endpoint scenario request)
        → c ≡ new_console
        → Run stoi o [] scenario c
    time_passes :
        {requests : List J} {scenario scenario' : List ScenarioEntry} {c c' : Console}
        → Run stoi o requests scenario c
        → handle_scenario scenario c ≡ (scenario', c')
        → Run stoi o requests scenario' c'
    replied :
        {requests requests' : List J} {scenario : List ScenarioEntry} {c c' : Console}
        (message : String) (request : J)
        → Run stoi o requests scenario c
        → main_round true message c ≡ ok (asks request c')
        → requests' ≡ push_back requests request
        → Run stoi o requests' scenario c'
    endpoints_taken :
        {requests : List J} {scenario : List ScenarioEntry} {c c' : Console}
        → Run stoi o requests scenario c
        → c' ≡ record c { endpoints_to_subscribe = []; endpoints_to_unsubscribe = [] }
        → Run stoi o requests scenario c'

  -- A reply leaves the entries alone.
  handle_reply-entries :
      (jmsg : J) (c c' : Console)
      → handle_reply jmsg c ≡ ok c'
      → c'.scenario_messages ≡ c.scenario_messages
  unfolding handle_reply handle_typed endpoints_of
  handle_reply-entries jmsg c c' e = ground arith

  start-scenario :
      (stoi : String → Result ℕ) (o : Options) (words : List String) {server_endpoint : String}
      {scenario : List ScenarioEntry} {request : J}
      → o.prod_ids ≡ some words
      → start stoi true o ≡ ok (connects server_endpoint scenario request)
      → transform stoi words ≡ ok scenario
  unfolding start
  start-scenario stoi o words {server_endpoint} {scenario} {request} given e =
      elim (Result-cases (transform stoi words)) [
        | inl (read, done) ↦ ground (arith, done, given)
        | inr (fault, failed) ↦ ground (arith, failed, given)
      ]

  main_round-asks :
      (message : String) (c : Console) {request : J} {c' : Console}
      → main_round true message c ≡ ok (asks request c')
      → (d : Console) × (d.scenario_messages ≡ c.scenario_messages)
        × (next_request d ≡ (request, c'))
  unfolding main_round
  main_round-asks message c e = elim (Bool-cases (message == "")) [
    | inl empty ↦ let clash = rw empty at e in cc
    | inr some_text ↦
        let (jmsg, parsed, rest) = >>=-eq-ok (json.parse message) _ (rw some_text at e) in
        let (d, handled, sent) = >>=-eq-ok (handle_reply jmsg c) _ rest in
        (d, handle_reply-entries jmsg c d handled, asks-injective sent)
  ]

  -- One request more.
  next_request-Asked :
      (d : Console) {requests : List J} (sent scenario : List ScenarioEntry) {request : J}
      {c' : Console}
      → Asked requests sent
      → next_request d ≡ (request, c')
      → (sent' : List ScenarioEntry) × Asked (push_back requests request) sent'
        × (sent' ++ (c'.scenario_messages ++ scenario) ≡ sent ++ (d.scenario_messages ++ scenario))
  unfolding next_request
  next_request-Asked d sent scenario asked e = elim (List-cases d.scenario_messages) [
    | inl none_waits ↦
        let done = rw (none_waits, next_request) at e in
        let asks_this = ap (λ p. p.0) done in
        let leaves = ap (λ p. p.1.scenario_messages) done in
        (
          sent,
          heartbeat d.client_id asked (ap (push_back _) (sym asks_this)),
          ap (λ l. sent ++ (l ++ scenario)) (sym leaves),
        )
    | inr (entry, entries, waiting) ↦
        let done = rw (waiting, next_request) at e in
        let asks_this = ap (λ p. p.0) done in
        let leaves = ap (λ p. p.1.scenario_messages) done in
        (
          push_back sent entry,
          asked_for d.client_id entry asked (ap (push_back _) (sym asks_this)) refl,
          append_assoc sent (entry ∷ []) _
              ∙ ap (λ l. sent ++ (l ++ scenario)) (ap (λ l. entry ∷ l) (sym leaves) ∙ sym waiting),
        )
  ]

  -- In every run of the program that the command line `words` starts, the requests sent so far are
  -- heartbeats and one request for each of some entries, in order; these entries, those that wait to
  -- be sent and those whose time has not come are together, in order, the entries that `transform`
  -- reads of the words: none is lost, none is sent twice, none overtakes another.
  pub Run-asks-all :
      (stoi : String → Result ℕ) (o : Options) (words : List String) {requests : List J}
      {scenario : List ScenarioEntry} {c : Console}
      → o.prod_ids ≡ some words
      → Run stoi o requests scenario c
      → (sent : List ScenarioEntry) × Asked requests sent
        × (transform stoi words ≡ ok (sent ++ (c.scenario_messages ++ scenario)))
  unfolding new_console
  Run-asks-all stoi o words given (started e k) =
      ([], nothing, rw k (start-scenario stoi o words given e))
  Run-asks-all stoi o words given (time_passes {scenario = scenario} {c = c} r e) =
      let (sent, asked, all) = Run-asks-all stoi o words given r in
      (sent, asked, rw (handle_scenario-keeps scenario c e) all)
  Run-asks-all stoi o words given (replied {scenario = scenario} {c = c} message request r e k) =
      let (sent, asked, all) = Run-asks-all stoi o words given r in
      let (d, same, next) = main_round-asks message c e in
      let (sent', asked', kept) = next_request-Asked d sent scenario asked next in
      (sent', rw k asked', all ∙ ap ok (rw (sym same) (sym kept)))
  Run-asks-all stoi o words given (endpoints_taken r e) =
      let (sent, asked, all) = Run-asks-all stoi o words given r in (sent, asked, rw e all)
