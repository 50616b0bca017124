-- ===== src/Tests/Whole.antt =====
-- The market over the Coinbase feed.
use quote_server.Base.{
  String, ◌==◌, ◌≡◌, refl, true, false, Option, none, some, List, [], ◌∷◌, ok, err, undefined, has,
  All,
}
use quote_server.Base.Dict
use quote_server.Trade.{
  Trade, trade_match, trade_receive, receive_of, optional_at, get_trade, generate_message, match_of,
  get_product_id, trade_message,
}
use quote_server.OrderBook.{buy}
use quote_server.FeedMessageHandler.{side_of}
use quote_server.FeedProduct
use quote_server.FeedProduct.{FeedProduct, new_feed_product}
use quote_server.WebsocketTransport
use quote_server.CoinbaseFeedClient
use quote_server.CoinbaseFeedClient.{
  CoinbaseFeedClient, new_coinbase_feed_client, set_trade_listener, on_message_received,
  receive_parsed, receive_json, sequenced, to_product, report_trade, is_trade_msg, coinbase_feed,
}
use quote_server.CoinbaseFeedClient.Routing.{Delivered, on_message_received-delivers}
use quote_server.CoinbaseFeedClient.Trades.{on_message_received-trades}
use quote_server.Market
use quote_server.Market.{Market, subscribe_feed}
use quote_server.Market.Clients
use quote_server.Product.{new_client, new_product}
use quote_server.System.{
  System, new_system, calls, receives, Reach, start, more, on_feed_message, on_trades,
}
use quote_server.System.Served.{IsServed, Reach-new-IsServed}
use quote_server.System.Trading.{Published, on_feed_message-publishes, limit_order-undefined}
use quote_server.Tests.Value.{Value, value_laws}
use quote_server.Tests.Messages.{match_msg, limit_msg, table, whole_json, text_floating, plain}

abbrev pub fresh : FeedProduct Value
fresh = new_feed_product "ETH-USD"

abbrev waiting : FeedProduct Value
waiting = record fresh { message_queue = match_msg ∷ [] }

abbrev pub listening : CoinbaseFeedClient Value
listening = record {
  prod_id_to_listener = ("ETH-USD", fresh) ∷ [];
  has_trade_listener = true;
  feed_transport = record {
    subscribers = ("coinbaseFeed", tt) ∷ [];
    connections = "wss://ws-feed.pro.coinbase.com" ∷ [];
    sent = "" ∷ [];
  };
  connected = true;
}

abbrev after_match : CoinbaseFeedClient Value
after_match = record listening { prod_id_to_listener = ("ETH-USD", waiting) ∷ [] }

-- the calls of the trade listener
abbrev reported : List (Option (Trade String))
reported = some (trade_match "t" "2" "ETH-USD") ∷ []

-- The match goes to the product and to the trade listener.
receives_match :
    on_message_received {J = Value} {F = String} "match" listening ≡ ok (after_match, reported)
unfolding on_message_received receive_parsed receive_json sequenced to_product report_trade
    is_trade_msg get_trade match_of new_feed_product FeedProduct.on_message_received Dict.find
    Dict.assign
receives_match = refl

on_message_received-delivers_example :
    Delivered match_msg fresh (Dict.find "ETH-USD" after_match.prod_id_to_listener)
    × ((id : String)
        → ("ETH-USD" == id) ≡ false
        → Dict.find id after_match.prod_id_to_listener ≡ Dict.find id listening.prod_id_to_listener)
unfolding Dict.find
on_message_received-delivers_example =
    on_message_received-delivers "match" "ETH-USD" match_msg listening after_match fresh reported
      refl refl refl refl refl receives_match

on_message_received-trades_example : All (λ (t : Option (Trade String)). has t ≡ true) reported
on_message_received-trades_example =
    on_message_received-trades (value_laws table) "match" listening after_match reported
      receives_match

abbrev pub subscribed : System String Value
subscribed = record {
  feed_client = listening;
  products = ("ETH-USD", new_product "ETH-USD") ∷ [];
  clients = ("u1", new_client "u1") ∷ [];
  product_changes = [];
  is_running = true;
  trade_publishers = ("ETH-USD", []) ∷ [];
}

abbrev traded : System String Value
traded = record subscribed {
  feed_client = after_match;
  trade_publishers = ("ETH-USD", "payload" ∷ []) ∷ [];
}

subscribes_u1 :
    Market.subscribe (coinbase_feed (λ uri. true)) "u1" "ETH-USD" (new_system {F = String})
    ≡ ok subscribed
unfolding Market.subscribe subscribe_feed CoinbaseFeedClient.subscribe new_feed_product Dict.find
    Dict.insert Dict.assign set_trade_listener CoinbaseFeedClient.connect_once
    WebsocketTransport.send WebsocketTransport.connect WebsocketTransport.subscribe
    CoinbaseFeedClient.generate_subscribe_message CoinbaseFeedClient.request_message
subscribes_u1 = refl

trades_match : on_feed_message plain "match" subscribed ≡ ok traded
unfolding on_feed_message on_trades on_message_received receive_parsed receive_json sequenced
    to_product report_trade is_trade_msg get_trade match_of new_feed_product
    FeedProduct.on_message_received Dict.find Dict.assign generate_message trade_message
    get_product_id Market.on_trade
trades_match = refl

Reach-traded : Reach plain (λ uri. true) new_system traded
Reach-traded =
    more (more start (calls (Clients.subscribes "u1" "ETH-USD" subscribes_u1)))
      (receives "match" trades_match)

Reach-new-IsServed_example : IsServed traded
Reach-new-IsServed_example = Reach-new-IsServed plain (λ uri. true) Reach-traded

Reach-subscribed : Reach plain (λ uri. true) new_system subscribed
Reach-subscribed = more start (calls (Clients.subscribes "u1" "ETH-USD" subscribes_u1))

on_feed_message-publishes_example :
    (t : Trade String) × (payload : String) × (get_trade match_msg ≡ ok (some t))
    × (generate_message plain t ≡ ok payload)
    × Published plain "ETH-USD" [] payload subscribed traded
unfolding Dict.find
on_feed_message-publishes_example =
    on_feed_message-publishes (value_laws table) plain (λ uri. true) "match" "ETH-USD" match_msg []
      subscribed traded Reach-subscribed refl refl refl (unfold is_trade_msg in refl) refl
      trades_match

abbrev limit_waiting : CoinbaseFeedClient Value
limit_waiting = record listening {
  prod_id_to_listener = ("ETH-USD", record fresh { message_queue = limit_msg ∷ [] }) ∷ [];
}

abbrev limit_trade : Trade String
limit_trade = trade_receive "a" (some "2") none (some "10") buy "limit" "ETH-USD"

receives_limit :
    on_message_received {J = Value} {F = String} "limit" listening
    ≡ ok (limit_waiting, some limit_trade ∷ [])
unfolding on_message_received receive_parsed receive_json sequenced to_product report_trade
    is_trade_msg get_trade receive_of optional_at side_of new_feed_product
    FeedProduct.on_message_received Dict.find Dict.assign
receives_limit = refl

limit_order-undefined_example : on_feed_message plain "limit" subscribed ≡ err undefined
unfolding Dict.find
limit_order-undefined_example =
    limit_order-undefined (value_laws table) plain (λ uri. true) "limit" "ETH-USD" limit_msg []
      subscribed limit_waiting (some limit_trade ∷ []) Reach-subscribed refl refl refl refl refl
      refl refl receives_limit
