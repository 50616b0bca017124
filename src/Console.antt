-- ===== src/Console.antt =====
-- client.cpp: the console client, between a reply of the service and its next request. The thread that
-- waits for the scenario's times only decides when an entry is there.
pub mod Words
pub mod Threads
pub mod Steps
pub mod Wired
pub mod Listening
pub mod Delivery
pub mod Program
pub mod Requests
pub mod Conversation
use quote_server.Base.{
  String, ◌==◌, ℕ, Bool, true, false, not, List, [], ◌∷◌, Result, ok, err, undefined, push_back,
  ◌>>=◌, if◌then◌else◌,
}
use quote_server.Json.{Json, string_at}

pub record ScenarioEntry : Type 0 where
  pub subscribes : Bool
  pub product_id : String
  pub time_in_s : ℕ

-- The state that the main thread reads and writes.
pub record Console : Type 0 where
  pub client_id : String
  pub endpoints_to_subscribe : List String
  pub endpoints_to_unsubscribe : List String
  pub scenario_messages : List ScenarioEntry

-- The words of the command line, three to an entry; words that are missing are read all the same. A
-- negative time does not occur in the model.
unfoldable pub transform : (String → Result ℕ) → List String → Result (List ScenarioEntry)
transform stoi [] = ok []
transform stoi (command ∷ product_id ∷ time ∷ words) = do
  time_in_s ← stoi time
  out ← transform stoi words
  ok (
      record { subscribes = command == "sub"; product_id = product_id; time_in_s = time_in_s }
      ∷ out)
transform stoi _ = err undefined

module _ {J : Type 0} ⦃json : Json J⦄ where
  -- The two endpoints of a confirmation, in order.
  unfoldable pub endpoints_of : J → Result (String × String)
  endpoints_of jmsg = do
    product_endpoint ← string_at jmsg "product_endpoint"
    trade_endpoint ← string_at jmsg "trade_endpoint"
    ok (product_endpoint, trade_endpoint)

  unfoldable pub handle_typed : J → J → Console → Result Console
  handle_typed type jmsg c =
      if json.is_text type "client_id_request"
      then (do id ← string_at jmsg "client_id"; ok (record c { client_id = id }))
      else if json.is_text type "subscribe_request"
      then (do
        (product_endpoint, trade_endpoint) ← endpoints_of jmsg
        ok (record c {
          endpoints_to_subscribe =
              push_back (push_back c.endpoints_to_subscribe product_endpoint) trade_endpoint;
        }))
      else if json.is_text type "unsubscribe_request"
      then (do
        (product_endpoint, trade_endpoint) ← endpoints_of jmsg
        ok (record c {
          endpoints_to_unsubscribe =
              push_back (push_back c.endpoints_to_unsubscribe product_endpoint) trade_endpoint;
        }))
      else ok c

  -- A reply of the service.
  unfoldable pub handle_reply : J → Console → Result Console
  handle_reply jmsg c =
      if not (json.contains jmsg "type")
      then ok c
      else do type ← json.at jmsg "type"; handle_typed type jmsg c

  abbrev pub product_request : String → String → String → J
  product_request type client_id product_id = json.object (
      ("type", json.text type)
      ∷ ("client_id", json.text client_id)
      ∷ ("product_id", json.text product_id)
      ∷ [])

  -- The next request: the next entry of the scenario, or a heartbeat.
  unfoldable pub next_request : Console → J × Console
  next_request c = elim c.scenario_messages [
    | [] ↦ (
      json.object (("type", json.text "heartbeat") ∷ ("client_id", json.text c.client_id) ∷ []),
      c,
    )
    | entry ∷ entries ↦ (
      product_request (if entry.subscribes then "subscribe_request" else "unsubscribe_request")
          c.client_id entry.product_id,
      record c { scenario_messages = entries },
    )
  ]
