-- ===== src/System.antt =====
-- The market over the Coinbase feed, as server.cpp puts them together: the feed client is the market's
-- `FeedClient`, and the market is the feed client's `TradeListener`.
pub mod Exchange
pub mod Line
pub mod Listens
pub mod Merging
pub mod Mirror
pub mod Fed
pub mod Installed
pub mod Stale
pub mod Synced
pub mod Trading
pub mod Pipeline
pub mod Published
pub mod Replayed
pub mod Requests
pub mod Served
use quote_server.Base.{
  String, Bool, true, Option, none, some, List, [], ◌∷◌, Result, ok, err, undefined, ◌≡◌, ◌>>=◌,
}
use quote_server.Base.Dict
use quote_server.Base.Floating.{Floating}
use quote_server.Json.{Json}
use quote_server.Protobuf.{Protobuf}
use quote_server.Trade.{Trade}
use quote_server.FeedProduct.{FeedProduct}
use quote_server.FeedProduct.Steps
use quote_server.CoinbaseFeedClient
use quote_server.CoinbaseFeedClient.{
  CoinbaseFeedClient, new_coinbase_feed_client, set_trade_listener, coinbase_feed,
}
use quote_server.ProductChange.{ProductChange}
use quote_server.Market.{
  Market, Arrangement, new_market, on_trade, begin_subscribe, add_trade_publisher, take_changes,
  apply_changes,
}
use quote_server.Market.Clients

-- The whole state: the market holds the feed client.
abbrev pub System : Type 0 → Type 0 → Type 0
System F J = Market F (CoinbaseFeedClient J)

-- `client->setTradeListener(&market)` of a new feed client and a new market
abbrev pub new_system : {F J : Type 0} → System F J
new_system = new_market (set_trade_listener new_coinbase_feed_client)

module _ {F J : Type 0} ⦃json : Json J⦄ ⦃f : Floating F⦄ (proto : Protobuf F) where
  -- The calls of the listener, in order. A null pointer is looked into.
  unfoldable pub on_trades : List (Option (Trade F)) → System F J → Result (System F J)
  on_trades [] m = ok m
  on_trades (none ∷ ts) m = err undefined
  on_trades (some t ∷ ts) m = do m' ← on_trade proto t m; on_trades ts m'

  -- A message of the websocket.
  unfoldable pub on_feed_message : String → System F J → Result (System F J)
  on_feed_message message m = do
    (c, trades) ← CoinbaseFeedClient.on_message_received message m.feed_client
    on_trades trades (record m { feed_client = c })

  -- A call or a round of the market, also one critical section of it alone, a message of the feed, or
  -- a step of the threads of a product. A round may apply whatever it has taken.
  pub data Step (is_valid : String → Bool) (m n : System F J) : Type 0 where
    calls : Clients.Step f proto (coinbase_feed is_valid) m n → Step is_valid m n
    begins :
        (client_id product_id : String)
        → begin_subscribe (coinbase_feed is_valid) client_id product_id m ≡ ok n
        → Step is_valid m n
    finishes : (product_id : String) → n ≡ add_trade_publisher product_id m → Step is_valid m n
    collects : n ≡ take_changes m → Step is_valid m n
    applies :
        (arrange : Arrangement F) (current : List (String × ProductChange F))
        → n ≡ apply_changes f arrange current m
        → Step is_valid m n
    receives : (message : String) → on_feed_message message m ≡ ok n → Step is_valid m n
    works :
        (product_id : String) (p q : FeedProduct J)
        → Dict.find product_id m.feed_client.prod_id_to_listener ≡ some p
        → Steps.Step p q
        → n ≡ record m {
          feed_client = record m.feed_client {
            prod_id_to_listener = Dict.assign product_id q m.feed_client.prod_id_to_listener;
          };
        }
        → Step is_valid m n

  pub data Reach (is_valid : String → Bool) (m : System F J) : System F J → Type 0 where
    start : Reach is_valid m m
    more : {n o : System F J} → Reach is_valid m n → Step is_valid n o → Reach is_valid m o
