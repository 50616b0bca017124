-- ===== src/ClientService.antt =====
-- include/ClientService.hpp and src/ClientService.cpp: one round of the loop that answers clients
-- over a REP socket, from the bytes received to the reply. `uuid` is the id that `generate_uuid`
-- would give in this round. What is printed is not modelled.
pub mod Replies
pub mod Malformed
pub mod Guarded
pub mod Loop
pub mod Ending
use quote_server.Base.{
  String, ◌<>◌, ◌==◌, ℕ, Bool, true, false, not, ◌||◌, Option, none, some, List, [], ◌∷◌, Result,
  ok, err, parse_error, type_error, invalid_argument, undefined, deadlock, too_deep, ◌>>=◌,
  if◌then◌else◌,
}
use quote_server.Json.{Json, string_member}
use quote_server.ProductSubscriber.{ProductSubscriber}
use quote_server.EndpointService
use quote_server.EndpointService.{Endpoint, Provider, prod_id_to_port}

-- `std::unordered_set<std::string>`
unfoldable pub count : String → List String → Bool
count id [] = false
count id (x ∷ xs) = x == id || count id xs

unfoldable pub insert : String → List String → List String
insert id xs = if count id xs then xs else id ∷ xs

pub record ClientService : Type 0 where
  pub registered_client_ids : List String
  pub endpoint_address : String

-- What a round leaves on the socket: a reply, or nothing (`continue`).
pub data Outcome (J : Type 0) : Type 0 where
  replied : J → Outcome J
  silent : Outcome J

-- What a round ends in: its outcome, the service and the subscriber.
abbrev pub Round : Type 0 → Type 0 → Type 0
Round J M = Result (Outcome J × ClientService × M)

-- The error of a request, where the later check wins.
unfoldable pub request_error : String → String → String → Provider → ClientService → String
request_error before client_id product_id endpoints s =
    let unknown_client =
      if count client_id s.registered_client_ids then before else "UnknownClientId" in
    if EndpointService.contains product_id endpoints then unknown_client else "UnknownProductId"

module _ {J : Type 0} ⦃json : Json J⦄ where
  unfoldable pub error_message : String → J
  error_message error = json.object (("type", json.text "error") ∷ ("error", json.text error) ∷ [])

  -- The error that a missing id sets, before the ids are read.
  unfoldable pub malformed : J → String
  malformed jmsg =
      let no_client = if json.contains jmsg "client_id" then "" else "MalformedMsgNoClient" in
      if json.contains jmsg "product_id" then no_client else "MalformedMsgNoProduct"

module _ {J M : Type 0} ⦃json : Json J⦄ (subscriber : ProductSubscriber M)
    (endpoints : Provider) where
  -- The confirmation with the two endpoints of a product.
  unfoldable pub confirmation : String → String → String → Result J
  confirmation type client_id product_id = do
    e ← prod_id_to_port product_id endpoints
    ok (
        json.object (
          ("type", json.text type)
          ∷ ("client_id", json.text client_id)
          ∷ ("product_id", json.text product_id)
          ∷ ("product_endpoint", json.text ("tcp://" <> e.address <> ":" <> e.orderbook_port))
          ∷ ("trade_endpoint", json.text ("tcp://" <> e.address <> ":" <> e.trade_port))
          ∷ []))

  unfoldable pub client_id_request : String → ClientService → M → Round J M
  client_id_request uuid s m = ok (
    replied (
        json.object (
          ("type", json.text "client_id_request")
          ∷ ("client_id", json.text uuid)
          ∷ ("status", json.text "registered")
          ∷ [])),
    record s { registered_client_ids = insert uuid s.registered_client_ids },
    m,
  )

  unfoldable pub subscribe_ids : String → String → ClientService → M → Round J M
  subscribe_ids client_id product_id s m =
      let error = request_error "" client_id product_id endpoints s in
      if not (error == "") then ok (replied (error_message error), s, m) else do
        m' ← subscriber.subscribe client_id product_id m
        reply ← confirmation "subscribe_request" client_id product_id
        ok (
          replied reply,
          record s { registered_client_ids = insert client_id s.registered_client_ids },
          m',
        )

  -- A request with an id missing is dropped with no reply.
  unfoldable pub subscribe_request : J → ClientService → M → Round J M
  subscribe_request jmsg s m =
      if not (json.contains jmsg "client_id")
      then ok (silent, s, m)
      else if not (json.contains jmsg "product_id")
      then ok (silent, s, m)
      else do
        client_id ← string_member jmsg "client_id"
        product_id ← string_member jmsg "product_id"
        subscribe_ids client_id product_id s m

  unfoldable pub unsubscribe_ids : String → String → String → ClientService → M → Round J M
  unsubscribe_ids before client_id product_id s m =
      let error = request_error before client_id product_id endpoints s in
      if not (error == "") then ok (replied (error_message error), s, m) else do
        m' ← subscriber.unsubscribe client_id product_id m
        reply ← confirmation "unsubscribe_request" client_id product_id
        ok (replied reply, s, m')

  -- Here a missing id sets an error and is read all the same.
  unfoldable pub unsubscribe_request : J → ClientService → M → Round J M
  unsubscribe_request jmsg s m = do
    client_id ← string_member jmsg "client_id"
    product_id ← string_member jmsg "product_id"
    unsubscribe_ids (malformed jmsg) client_id product_id s m

  unfoldable pub heartbeat : J → ClientService → M → Round J M
  heartbeat jmsg s m = do
    client_id ← string_member jmsg "client_id"
    let before = if json.contains jmsg "client_id" then "" else "MalformedMsgNoClient"
    let error = if count client_id s.registered_client_ids then before else "UnknownClientId"
    if not (error == "")
        then ok (replied (error_message error), s, m)
        else ok (
          replied (
              json.object
                (("type", json.text "heartbeat") ∷ ("client_id", json.text client_id) ∷ [])),
          s,
          m,
        )

  unfoldable pub unsupported_type : J → ClientService → M → Round J M
  unsupported_type type s m = ok (
    replied (
        json.object (
          ("type", json.text "error")
          ∷ ("error", json.text "usnsupported message type")
          ∷ ("message_type", type)
          ∷ [])),
    s,
    m,
  )

  unfoldable pub dispatch : String → J → J → ClientService → M → Round J M
  dispatch uuid type jmsg s m =
      if json.is_text type "client_id_request"
      then client_id_request uuid s m
      else if json.is_text type "subscribe_request"
      then subscribe_request jmsg s m
      else if json.is_text type "unsubscribe_request"
      then unsubscribe_request jmsg s m
      else if json.is_text type "heartbeat"
      then heartbeat jmsg s m
      else unsupported_type type s m

  unfoldable pub handle_json : String → J → ClientService → M → Round J M
  handle_json uuid jmsg s m =
      if json.contains jmsg "type"
      then (do type ← json.member jmsg "type"; dispatch uuid type jmsg s m)
      else ok (replied (error_message "usnsupported message"), s, m)

  -- `catch(nlohmann::detail::parse_error)`; any other fault leaves the loop. In the model only `parse`
  -- throws that one: the endpoint provider is there already, while the source makes it at its first use,
  -- where a parse_error from the list of the products would be caught here too.
  unfoldable pub handle_parsed : String → Result J → ClientService → M → Round J M
  handle_parsed uuid (ok jmsg) s m = handle_json uuid jmsg s m
  handle_parsed uuid (err parse_error) s m = ok (replied (error_message "Invalid message"), s, m)
  handle_parsed uuid (err fault) s m = err fault

  unfoldable pub handle_message : String → String → ClientService → M → Round J M
  handle_message uuid message s m = handle_parsed uuid (json.parse message) s m
