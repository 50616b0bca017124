-- ===== src/Console/Conversation.antt =====
-- The console client and the client service, one after the other.
use quote_server.Base.{String, ◌<>◌, ◌≡◌, ◌∙◌, refl, true, some, List, [], ◌∷◌, ok, push_back}
use quote_server.Base.Dict
use quote_server.Json.{Json, JsonLaws, string_at, string_member}
use quote_server.ProductSubscriber.{ProductSubscriber}
use quote_server.EndpointService
use quote_server.EndpointService.{Provider, Endpoint, prod_id_to_port}
use quote_server.ClientService.{
  ClientService, replied, count, insert, confirmation, subscribe_request, subscribe_ids,
  request_error, dispatch, handle_json,
}
use quote_server.ClientService.Malformed.{is_text-eq}
use quote_server.Console.{
  Console, ScenarioEntry, endpoints_of, handle_typed, handle_reply, next_request, product_request,
}

module _ {J : Type 0} ⦃json : Json J⦄ (laws : JsonLaws json) where
  pub text_at :
      (fields : List (String × J)) (key s : String)
      → Dict.find key fields ≡ some (json.text s)
      → string_at (json.object fields) key ≡ ok s
  text_at fields key s e = rw (laws.at-object fields key (json.text s) e) (laws.get_string-text s)

  text_member :
      (fields : List (String × J)) (key s : String)
      → Dict.find key fields ≡ some (json.text s)
      → string_member (json.object fields) key ≡ ok s
  text_member fields key s e =
      rw
        (laws.member_present (json.object fields) key
          (rw (laws.contains-object fields key, e) refl))
        (text_at fields key s e)

  -- A reply that confirms a subscription, read by the client.
  abbrev confirmed : String → String → Endpoint → List (String × J)
  confirmed client_id product_id e =
      ("type", json.text "subscribe_request")
      ∷ ("client_id", json.text client_id)
      ∷ ("product_id", json.text product_id)
      ∷ ("product_endpoint", json.text ("tcp://" <> e.address <> ":" <> e.orderbook_port))
      ∷ ("trade_endpoint", json.text ("tcp://" <> e.address <> ":" <> e.trade_port))
      ∷ []

  handle_reply-confirmed :
      (client_id product_id : String) (e : Endpoint) (c : Console)
      → handle_reply (json.object (confirmed client_id product_id e)) c
        ≡ ok (record c {
          endpoints_to_subscribe =
              push_back
                (push_back c.endpoints_to_subscribe
                  ("tcp://" <> e.address <> ":" <> e.orderbook_port))
                ("tcp://" <> e.address <> ":" <> e.trade_port);
        })
  unfolding handle_reply handle_typed endpoints_of Dict.find
  handle_reply-confirmed client_id product_id e c =
      let fields = confirmed client_id product_id e in
      simp (
        laws.contains-object,
        laws.at-object fields "type" (json.text "subscribe_request") refl,
        is_text-eq laws (json.text "subscribe_request") "subscribe_request" "client_id_request"
            (laws.get_string-text "subscribe_request"),
        is_text-eq laws (json.text "subscribe_request") "subscribe_request" "subscribe_request"
            (laws.get_string-text "subscribe_request"),
        text_at fields "product_endpoint" ("tcp://" <> e.address <> ":" <> e.orderbook_port) refl,
        text_at fields "trade_endpoint" ("tcp://" <> e.address <> ":" <> e.trade_port) refl,
      )

module _ {J M : Type 0} ⦃json : Json J⦄ (laws : JsonLaws json) (subscriber : ProductSubscriber M)
    (endpoints : Provider) where
  confirmation-known :
      (client_id product_id : String) (e : Endpoint)
      → Dict.find product_id endpoints.product_ids ≡ some e
      → confirmation {J = J} subscriber endpoints "subscribe_request" client_id product_id
        ≡ ok (json.object (confirmed laws client_id product_id e))
  unfolding confirmation prod_id_to_port
  confirmation-known client_id product_id e there = rw (there, prod_id_to_port, confirmation) refl

  subscribe_ids-known :
      (client_id product_id : String) (e : Endpoint) (s : ClientService) (m m' : M)
      → count client_id s.registered_client_ids ≡ true
      → Dict.find product_id endpoints.product_ids ≡ some e
      → subscriber.subscribe client_id product_id m ≡ ok m'
      → subscribe_ids subscriber endpoints client_id product_id s m
        ≡ ok (replied (json.object (confirmed laws client_id product_id e)), s, m')
  unfolding subscribe_ids request_error EndpointService.contains insert
  subscribe_ids-known client_id product_id e s m m' known there done =
      simp (known, there, done, confirmation-known client_id product_id e there) refl

  handle_json-request :
      (uuid client_id product_id : String) (s : ClientService) (m : M)
      → handle_json {J = J} subscriber endpoints uuid
          (product_request "subscribe_request" client_id product_id)
          s
          m
        ≡ subscribe_ids subscriber endpoints client_id product_id s m
  unfolding handle_json dispatch subscribe_request Dict.find
  handle_json-request uuid client_id product_id s m =
      let fields : List (String × J) =
        ("type", json.text "subscribe_request")
        ∷ ("client_id", json.text client_id)
        ∷ ("product_id", json.text product_id)
        ∷ [] in
      simp (
        laws.contains-object,
        laws.member_present (json.object fields) "type"
            (rw (laws.contains-object fields "type") refl),
        laws.at-object fields "type" (json.text "subscribe_request") refl,
        is_text-eq laws (json.text "subscribe_request") "subscribe_request" "client_id_request"
            (laws.get_string-text "subscribe_request"),
        is_text-eq laws (json.text "subscribe_request") "subscribe_request" "subscribe_request"
            (laws.get_string-text "subscribe_request"),
        text_member laws fields "client_id" client_id refl,
        text_member laws fields "product_id" product_id refl,
      )

  next_request-entry :
      (c : Console) (entry : ScenarioEntry) (entries : List ScenarioEntry)
      → c.scenario_messages ≡ entry ∷ entries
      → entry.subscribes ≡ true
      → next_request {J = J} c ≡ (
        product_request "subscribe_request" c.client_id entry.product_id,
        record c { scenario_messages = entries },
      )
  unfolding next_request
  next_request-entry c entry entries planned subscribes =
      rw (planned, next_request) (rw subscribes refl)

  -- The client's request for the next entry of its scenario, a subscription, is answered by the
  -- service, for a registered client, a known product and a market that accepts, with a reply
  -- from which the client queues the two endpoints of that product, in order, and nothing else.
  pub next_request-subscribes :
      (uuid : String) (c : Console) (entry : ScenarioEntry) (entries : List ScenarioEntry)
      (e : Endpoint) (s : ClientService) (m m' : M)
      → c.scenario_messages ≡ entry ∷ entries
      → entry.subscribes ≡ true
      → count c.client_id s.registered_client_ids ≡ true
      → Dict.find entry.product_id endpoints.product_ids ≡ some e
      → subscriber.subscribe c.client_id entry.product_id m ≡ ok m'
      → (reply : J) × (handle_json {J = J} subscriber endpoints uuid (next_request {J = J} c).0 s m
          ≡ ok (replied reply, s, m'))
        × (handle_reply reply (next_request {J = J} c).1
            ≡ ok (record c {
              scenario_messages = entries;
              endpoints_to_subscribe =
                  push_back
                    (push_back c.endpoints_to_subscribe
                      ("tcp://" <> e.address <> ":" <> e.orderbook_port))
                    ("tcp://" <> e.address <> ":" <> e.trade_port);
            }))
  next_request-subscribes uuid c entry entries e s m m' planned subscribes known there done =
      let asks = next_request-entry c entry entries planned subscribes in
      (
        json.object (confirmed laws c.client_id entry.product_id e),
        rw asks (
            handle_json-request uuid c.client_id entry.product_id s m
            ∙ subscribe_ids-known c.client_id entry.product_id e s m m' known there done),
        rw asks (
            handle_reply-confirmed laws c.client_id entry.product_id e
              (record c { scenario_messages = entries })),
      )
