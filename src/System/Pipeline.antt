-- ===== src/System/Pipeline.antt =====
-- The way of a product's messages to its book: `messageLoop` of src/coinbase/CoinbaseFeedProduct.cpp
-- hands each message to the product's message handler, whose listener is the market.
use quote_server.Base.{String, ℕ, List, [], ◌∷◌, not, Result, ok, ◌>>=◌, if◌then◌else◌}
use quote_server.Base.Floating.{Floating}
use quote_server.Json.{Json}
use quote_server.ProductChange.{ProductChange}
use quote_server.FeedMessageHandler
use quote_server.FeedProduct.{FeedProduct, message_loop}
use quote_server.Market.{Market, on_product_change}

module _ {F D : Type 0} where
  -- The calls of the listener for one message.
  unfoldable pub report_changes : List (ProductChange F) → Market F D → Market F D
  report_changes [] m = m
  report_changes (pc ∷ pcs) m = report_changes pcs (on_product_change pc m)

module _ {J : Type 0} where
  -- What a round of `messageLoop` takes from the queue.
  unfoldable pub taken : FeedProduct J → List J
  taken p = if not p.is_running then [] else if p.requesting_orderbook then [] else p.message_queue

module _ {J F D : Type 0} ⦃json : Json J⦄ ⦃f : Floating F⦄ where
  -- `for(const auto& msg: messages){ m_msgHandler.onMessageReceived(msg); }`
  unfoldable pub handle_messages : ℕ → String → List J → Market F D → Result (Market F D)
  handle_messages fuel product_id [] m = ok m
  handle_messages fuel product_id (msg ∷ msgs) m = do
    pcs ← FeedMessageHandler.on_message_received fuel product_id msg
    handle_messages fuel product_id msgs (report_changes pcs m)

  -- The whole round.
  unfoldable pub loop_round : ℕ → FeedProduct J → Market F D → Result (FeedProduct J × Market F D)
  loop_round fuel p m = do
    m' ← handle_messages fuel p.product_id (taken p) m
    ok (message_loop p, m')
