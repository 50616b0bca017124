-- ===== src/CoinbaseFeedClient.antt =====
-- include/coinbase/CoinbaseFeedClient.hpp and src/coinbase/CoinbaseFeedClient.cpp: the messages of the
-- feed, given to the product that they are about and to the listener of trades. Each function is one
-- critical section under `m_mutexFeedData`. The time stamps, which are kept for a metric that nothing
-- sends, and what is printed are not modelled.
pub mod Routing
pub mod Delivers
pub mod Trades
use quote_server.Base.{
  String, Bool, true, false, not, ◌||◌, Option, none, some, List, [], ◌∷◌, Result, ok, err,
  parse_error, type_error, invalid_argument, undefined, deadlock, too_deep, ◌>>=◌, map,
  if◌then◌else◌,
}
use quote_server.Base.Dict
use quote_server.Base.Dict.{Dict}
use quote_server.Base.Floating.{Floating}
use quote_server.Json.{Json, string_member}
use quote_server.Trade.{Trade, get_trade}
use quote_server.FeedProduct
use quote_server.FeedProduct.{FeedProduct, new_feed_product}
use quote_server.FeedClient.{FeedClient}
use quote_server.WebsocketTransport
use quote_server.WebsocketTransport.{WebsocketTransport, new_transport, connect, send}

pub record CoinbaseFeedClient (J : Type 0) : Type 0 where
  pub prod_id_to_listener : Dict (FeedProduct J)
  -- whether `m_tradeListener` is set
  pub has_trade_listener : Bool
  -- The only receiver is the client itself.
  pub feed_transport : WebsocketTransport (Unit {0})
  pub connected : Bool

abbrev pub new_coinbase_feed_client : {J : Type 0} → CoinbaseFeedClient J
new_coinbase_feed_client = record {
  prod_id_to_listener = [];
  has_trade_listener = false;
  feed_transport = new_transport;
  connected = false;
}

-- What a message leaves: the client, and the pointers that the trade listener was called with.
abbrev pub Received : Type 0 → Type 0 → Type 0
Received J F = Result (CoinbaseFeedClient J × List (Option (Trade F)))

module _ {J : Type 0} where
  -- the destructor
  destroy_client : CoinbaseFeedClient J → CoinbaseFeedClient J
  destroy_client c = record c {
    feed_transport = WebsocketTransport.unsubscribe "coinbaseFeed" c.feed_transport;
  }

  unfoldable pub set_trade_listener : CoinbaseFeedClient J → CoinbaseFeedClient J
  set_trade_listener c = record c { has_trade_listener = true }

-- A request with the template's channels for one product.
unfoldable pub request_message : {J : Type 0} → Json J → String → List String → String → String
request_message json type channels product_id = json.dump (
    json.object (
      ("type", json.text type)
      ∷ ("product_ids", json.array (json.text product_id ∷ []))
      ∷ ("channels", json.array (map json.text channels))
      ∷ []))

unfoldable pub generate_subscribe_message : {J : Type 0} → Json J → String → String
generate_subscribe_message json product_id =
    request_message json "subscribe" ("full" ∷ "heartbeat" ∷ "ticker" ∷ []) product_id

unfoldable pub generate_unsubscribe_message : {J : Type 0} → Json J → String → String
generate_unsubscribe_message json product_id =
    request_message json "unsubscribe" ("ticker" ∷ "full" ∷ "heartbeat" ∷ []) product_id

module _ {J : Type 0} ⦃json : Json J⦄ where
  unfoldable pub is_trade_msg : J → Result Bool
  is_trade_msg msg = if not (json.contains msg "type") then ok false else do
    type ← json.at msg "type"
    ok (json.is_text type "activate" || json.is_text type "received" || json.is_text type "match")

  is_product_change_msg : J → Result Bool
  is_product_change_msg msg = if not (json.contains msg "type") then ok false else do
    type ← json.at msg "type"
    ok (
        json.is_text type "change"
        || json.is_text type "done"
        || json.is_text type "open"
        || json.is_text type "match")

  -- A message of a product that nobody subscribed to is not passed on.
  unfoldable pub to_product : String → J → CoinbaseFeedClient J → Result (CoinbaseFeedClient J)
  to_product product_id jmsg c = elim (Dict.find product_id c.prod_id_to_listener) [
    | none ↦ ok c
    | some listener ↦ (do
      listener' ← FeedProduct.on_message_received jmsg listener
      ok (record c {
        prod_id_to_listener = Dict.assign product_id listener' c.prod_id_to_listener;
      }))
  ]

  -- `if(jmsg.contains("sequence"))`
  unfoldable pub sequenced : J → CoinbaseFeedClient J → Result (CoinbaseFeedClient J)
  sequenced jmsg c =
      if json.contains jmsg "sequence"
      then (do product_id ← string_member jmsg "product_id"; to_product product_id jmsg c)
      else ok c

  -- The calls of the trade listener.
  unfoldable pub report_trade :
      {F : Type 0} ⦃f : Floating F⦄ → Bool → J → Result (List (Option (Trade F)))
  report_trade listens jmsg = do
    is_trade ← is_trade_msg jmsg
    if is_trade then (if listens then (do t ← get_trade jmsg; ok (t ∷ [])) else ok []) else ok []

  unfoldable pub receive_json :
      {F : Type 0} ⦃f : Floating F⦄ → J → CoinbaseFeedClient J → Received J F
  receive_json jmsg c = if not (json.contains jmsg "type") then ok (c, []) else do
    c' ← sequenced jmsg c
    trades ← report_trade c.has_trade_listener jmsg
    ok (c', trades)

  -- Only the fault of `parse` is caught.
  unfoldable pub receive_parsed :
      {F : Type 0} ⦃f : Floating F⦄ → Result J → CoinbaseFeedClient J → Received J F
  receive_parsed (ok jmsg) c = receive_json jmsg c
  receive_parsed (err parse_error) c = ok (c, [])
  receive_parsed (err fault) c = err fault

  unfoldable pub on_message_received :
      {F : Type 0} ⦃f : Floating F⦄ → String → CoinbaseFeedClient J → Received J F
  on_message_received message c = receive_parsed (json.parse message) c

  -- The transport is asked to connect once, and is taken to be connected whatever comes of it.
  unfoldable pub connect_once : (String → Bool) → CoinbaseFeedClient J → CoinbaseFeedClient J
  connect_once is_valid c = if c.connected then c else record c {
    feed_transport =
        connect is_valid "wss://ws-feed.pro.coinbase.com"
          (WebsocketTransport.subscribe "coinbaseFeed" tt c.feed_transport);
    connected = true;
  }

  unfoldable pub subscribe : (String → Bool) → String → CoinbaseFeedClient J → CoinbaseFeedClient J
  subscribe is_valid product_id c =
      let c' = connect_once is_valid c in
      record c' {
        prod_id_to_listener =
            Dict.insert product_id (new_feed_product product_id) c'.prod_id_to_listener;
        feed_transport = send (generate_subscribe_message json product_id) c'.feed_transport;
      }

  unfoldable pub unsubscribe : String → CoinbaseFeedClient J → CoinbaseFeedClient J
  unsubscribe product_id c = record c {
    prod_id_to_listener = Dict.erase product_id c.prod_id_to_listener;
    feed_transport = send (generate_unsubscribe_message json product_id) c.feed_transport;
  }

-- The feed that the market is built on.
abbrev pub coinbase_feed :
    {J : Type 0} ⦃json : Json J⦄ → (String → Bool) → FeedClient (CoinbaseFeedClient J)
coinbase_feed is_valid = record {
  subscribe = λ product_id c. ok (subscribe is_valid product_id c);
  unsubscribe = λ product_id c. ok (unsubscribe product_id c);
}
