-- ===== src/Tests/Service.antt =====
-- Rounds of the client service before a market that records the calls that it gets.
use quote_server.Base.{
  String, true, ◌≡◌, refl, List, [], ◌∷◌, Result, ok, err, parse_error, ◌==◌, if◌then◌else◌,
}
use quote_server.Base.Dict
use quote_server.Json.{Json}
use quote_server.ProductSubscriber.{ProductSubscriber}
use quote_server.EndpointService
use quote_server.EndpointService.{Provider, endpoint_at}
use quote_server.ClientService.{
  ClientService, silent, replied, insert, handle_message, handle_parsed, handle_json, dispatch,
  subscribe_request, subscribe_ids, request_error, count, confirmation,
}
use quote_server.ClientService.Guarded.{IsGuarded, IsRegistered, handle_message-IsGuarded}
use quote_server.ClientService.Replies.{HasType, LacksId, handle_message-silent}
use quote_server.ZmqPublisher.{new_zmq_publisher, order_book_publisher, trade_publisher}
use quote_server.ZmqPublisher.Addresses.{confirmation-addresses}
use quote_server.Console.{endpoints_of, Console, next_request, handle_reply}
use quote_server.Console.Conversation.{next_request-subscribes}
use quote_server.Tests.Value.{Value, value_json, value_laws, str}

abbrev literal : List (String × Value) → Value
literal fields = (value_json (λ s. err parse_error)).object fields

abbrev pub no_product : Value
no_product = literal (("type", str "subscribe_request") ∷ ("client_id", str "u1") ∷ [])

abbrev no_client : Value
no_client = literal (("type", str "unsubscribe_request") ∷ ("product_id", str "ETH-USD") ∷ [])

abbrev complete : Value
complete = literal (
    ("type", str "subscribe_request")
    ∷ ("client_id", str "u1")
    ∷ ("product_id", str "ETH-USD")
    ∷ [])

abbrev pub table : String → Result Value
table s =
    if s == "no product"
    then ok no_product
    else if s == "no client"
    then ok no_client
    else if s == "complete"
    then ok complete
    else err parse_error

instance abbrev pub service_json : Json Value
service_json = value_json table

-- Calls, latest first.
abbrev pub recorder : ProductSubscriber (List (String × String))
recorder = record {
  subscribe = λ c p calls. ok ((c, p) ∷ calls);
  unsubscribe = λ c p calls. ok ((c, p) ∷ calls);
}

abbrev pub endpoints : Provider
endpoints = record {
  product_ids = ("ETH-USD", endpoint_at 83000 93000) ∷ [];
  order_port = 83001;
  trade_port = 93001;
}

abbrev pub service : ClientService
service = record { registered_client_ids = "u1" ∷ []; endpoint_address = "127.0.0.1:10090" }

abbrev pub accepted : Value
accepted = literal (
    ("type", str "subscribe_request")
    ∷ ("client_id", str "u1")
    ∷ ("product_id", str "ETH-USD")
    ∷ ("product_endpoint", str "tcp://127.0.0.1:83000")
    ∷ ("trade_endpoint", str "tcp://127.0.0.1:93000")
    ∷ [])

-- A complete subscription of a registered client is confirmed, and calls the market once.
subscribes :
    handle_message recorder endpoints "u2" "complete" service []
    ≡ ok (replied accepted, service, ("u1", "ETH-USD") ∷ [])
unfolding handle_message handle_parsed handle_json dispatch subscribe_request subscribe_ids
    request_error EndpointService.contains confirmation insert EndpointService.to_string
    EndpointService.prod_id_to_port count Dict.find
subscribes = refl

handle_message-IsGuarded_example :
    IsGuarded recorder endpoints service [] (("u1", "ETH-USD") ∷ [])
    × IsRegistered "u2" service service
handle_message-IsGuarded_example =
    handle_message-IsGuarded recorder endpoints "u2" "complete" service [] (replied accepted)
      service (("u1", "ETH-USD") ∷ []) subscribes

dropped :
    handle_message {J = Value} recorder endpoints "u2" "no product" service []
    ≡ ok (silent, service, [])
unfolding handle_message handle_parsed handle_json dispatch subscribe_request
dropped = refl

handle_message-silent_example :
    (jmsg : Value) × (table "no product" ≡ ok jmsg)
    × HasType jmsg "subscribe_request"
    × LacksId recorder endpoints jmsg
handle_message-silent_example =
    handle_message-silent recorder endpoints (value_laws table) "u2" "no product" service service []
      [] dropped

abbrev console : Console
console = record {
  client_id = "u1";
  endpoints_to_subscribe = [];
  endpoints_to_unsubscribe = [];
  scenario_messages = record { subscribes = true; product_id = "ETH-USD"; time_in_s = 1 } ∷ [];
}

next_request-subscribes_example :
    (reply : Value) × (handle_json {J = Value} recorder endpoints "u2"
        (next_request {J = Value} console).0
        service
        []
      ≡ ok (replied reply, service, ("u1", "ETH-USD") ∷ []))
    × (handle_reply reply (next_request {J = Value} console).1
        ≡ ok (record console {
          scenario_messages = [];
          endpoints_to_subscribe = "tcp://127.0.0.1:83000" ∷ "tcp://127.0.0.1:93000" ∷ [];
        }))
unfolding count Dict.find EndpointService.to_string
next_request-subscribes_example =
    next_request-subscribes (value_laws table) recorder endpoints "u2" console
      (record { subscribes = true; product_id = "ETH-USD"; time_in_s = 1 }) []
      (endpoint_at 83000 93000) service [] (("u1", "ETH-USD") ∷ []) refl refl refl refl refl

confirmation-addresses_example :
    endpoints_of accepted ≡ ok ("tcp://127.0.0.1:83000", "tcp://127.0.0.1:93000")
unfolding order_book_publisher trade_publisher new_zmq_publisher confirmation Dict.find
    EndpointService.to_string EndpointService.prod_id_to_port
confirmation-addresses_example =
    confirmation-addresses (value_laws table) recorder "subscribe_request" "u1" "ETH-USD" endpoints
      accepted (record { bind_addr = "tcp://127.0.0.1:83000"; messages = [] })
      (record { bind_addr = "tcp://127.0.0.1:93000"; messages = [] }) refl refl refl
