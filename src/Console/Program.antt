-- ===== src/Console/Program.antt =====
-- client.cpp: `main` and `handleScenario`. The values of the command line, `std::stoi`, what the
-- socket receives and whether it sends are parameters and arguments.
use quote_server.Base.{
  String, ◌==◌, ℕ, Bool, Option, none, some, List, [], ◌∷◌, Result, ok, push_back, ◌>>=◌,
  if◌then◌else◌,
}
use quote_server.Json.{Json}
use quote_server.Console.{Console, ScenarioEntry, transform, handle_reply, next_request}

-- `po::variables_map`
pub record Options : Type 0 where
  pub help : Bool
  pub prod_ids : Option (List String)
  pub server_endpoint : Option String

unfoldable pub new_console : Console
new_console = record {
  client_id = "";
  endpoints_to_subscribe = [];
  endpoints_to_unsubscribe = [];
  scenario_messages = [];
}

-- The thread that waits for the scenario's times takes an entry, sleeps and hands it over.
unfoldable pub handle_scenario : List ScenarioEntry → Console → List ScenarioEntry × Console
handle_scenario [] c = ([], c)
handle_scenario (entry ∷ scenario) c =
    (scenario, record c { scenario_messages = push_back c.scenario_messages entry })

-- `main` up to its loop: it returns a code, or has connected to the endpoint and sent the first
-- request, with the scenario for the other threads.
pub data Start (J : Type 0) : Type 0 where
  exits : ℕ → Start J
  connects : String → List ScenarioEntry → J → Start J

-- A round of the loop: the client waits on, it has sent a request, or it returns a code.
pub data Round (J : Type 0) : Type 0 where
  waits : Console → Round J
  asks : J → Console → Round J
  returns : ℕ → Round J

module _ {J : Type 0} ⦃json : Json J⦄ where
  unfoldable pub start : (String → Result ℕ) → Bool → Options → Result (Start J)
  start stoi sends o = if o.help then ok (exits 0) else elim o.prod_ids [
    | none ↦ ok (exits 1)
    | some words ↦ elim o.server_endpoint [
      | none ↦ ok (exits 1)
      | some server_endpoint ↦ do
        scenario ← transform stoi words
        ok (
            if sends
            then connects server_endpoint scenario
                (json.object (("type", json.text "client_id_request") ∷ []))
            else exits 1)
    ]
  ]

  unfoldable pub main_round : Bool → String → Console → Result (Round J)
  main_round sends message c = if message == "" then ok (waits c) else do
    jmsg ← json.parse message
    c' ← handle_reply jmsg c
    let (request, c'') = next_request c'
    ok (if sends then asks request c'' else returns 1)
