-- ===== src/System/Line.antt =====
-- One product from the exchange to its book, with what runs beside it as interleaved steps: the feed,
-- which may lose messages, the request thread, the message loop, which hands on one message at a
-- time, and the rounds of the market.
use mathlib.Core.List.{Permᴰ}
use quote_server.Base.{
  String, ℕ, suc, ◌<◌, ◌≤◌, ◌≡◌, ◌≢◌, ◌==◌, true, false, Option, List, [], ◌∷◌, ok, somes,
  if◌then◌else◌,
}
use quote_server.Base.Floating.{Floating}
use quote_server.Json.{Json}
use quote_server.ProductChange.{ProductChange, get_product_id}
use quote_server.FeedProduct.{
  FeedProduct, running, ulong_mod, on_message_received, message_loop, destroy,
  request_full_order_book_impl,
}
use quote_server.FeedClient.{FeedClient}
use quote_server.Protobuf.{Protobuf}
use quote_server.Trade.{Trade}
use quote_server.Market.{
  Market, Arrangement, take_changes, apply_changes, on_product_change, on_trade, stop,
  begin_subscribe, add_trade_publisher, unsubscribe,
}
use quote_server.Market.Changes.{only}
use quote_server.System.Exchange.{Exchange, message, full_book_message}
use quote_server.System.Pipeline.{handle_messages, taken}

-- `in_hand` is what the message loop has taken and not handed on yet, `in_round` the changes that a
-- round of the market has taken and not applied yet, `sent` the number of the last message that the
-- exchange sent, and `needed` what a full book must have reached so that it and the queue together leave
-- out nothing: the last number that neither the handler nor the queue gets.
pub record Line (J F D : Type 0) : Type 0 where
  pub product : FeedProduct J
  pub in_hand : List J
  pub market : Market F D
  pub in_round : List (String × ProductChange F)
  pub sent : ℕ
  pub needed : ℕ

module _ {J F D : Type 0} ⦃json : Json J⦄ ⦃f : Floating F⦄ (ex : Exchange json f)
    (proto : Protobuf F) (feed : FeedClient D) (fuel : ℕ) where
  pub data Step (l n : Line J F D) : Type 0 where
    receives :
        (q : FeedProduct J)
        → suc (suc l.sent) < ulong_mod
        → on_message_received (message ex (suc l.sent)) l.product ≡ ok q
        → n ≡ record l {
          product = q;
          sent = suc l.sent;
          needed = if l.product.requesting_orderbook then l.needed else suc l.sent;
        }
        → Step l n
    loses :
        suc (suc l.sent) < ulong_mod
        → n ≡ record l { sent = suc l.sent; needed = suc l.sent }
        → Step l n
    -- a full book that is as new as it must be
    responds :
        (response : String) (s : ℕ) (q : FeedProduct J)
        → l.product.request_thread ≡ running
        → (response == "") ≡ false
        → json.parse response ≡ ok (full_book_message ex s)
        → 0 < s
        → suc s < ulong_mod
        → l.needed ≤ s
        → request_full_order_book_impl response l.product ≡ ok q
        → n ≡ record l { product = q }
        → Step l n
    fails :
        (q : FeedProduct J)
        → l.product.request_thread ≡ running
        → request_full_order_book_impl "" l.product ≡ ok q
        → n ≡ record l { product = q }
        → Step l n
    takes :
        l.in_hand ≡ []
        → n ≡ record l { product = message_loop l.product; in_hand = taken l.product }
        → Step l n
    hands :
        (msg : J) (msgs : List J) (m : Market F D)
        → l.in_hand ≡ msg ∷ msgs
        → handle_messages (suc (suc fuel)) ex.product_id (msg ∷ []) l.market ≡ ok m
        → n ≡ record l { in_hand = msgs; market = m }
        → Step l n
    closes :
        l.product.request_thread ≢ running → n ≡ record l { product = destroy l.product } → Step l n
    -- the two critical sections of a round
    collects :
        l.in_round ≡ []
        → l.market.is_running ≡ true
        → n ≡ record l { in_round = l.market.product_changes; market = take_changes l.market }
        → Step l n
    -- A multimap hands out what is under a key in any order; the round has one change of the product
    -- at most.
    applies :
        (arrange : Arrangement F) (change : Option (ProductChange F))
        → ((xs : List (String × ProductChange F))
            → Permᴰ (only ex.product_id (arrange xs)) (only ex.product_id xs))
        → only ex.product_id l.in_round ≡ somes (change ∷ [])
        → n ≡ record l { in_round = []; market = apply_changes f arrange l.in_round l.market }
        → Step l n
    -- the calls of the market that leave the product there, a subscription in its critical sections
    begins :
        (client_id product_id : String) (m : Market F D)
        → begin_subscribe feed client_id product_id l.market ≡ ok m
        → n ≡ record l { market = m }
        → Step l n
    finishes :
        (product_id : String)
        → n ≡ record l { market = add_trade_publisher product_id l.market }
        → Step l n
    unsubscribes :
        (client_id product_id : String) (m : Market F D)
        → (product_id == ex.product_id) ≡ false
        → unsubscribe feed client_id product_id l.market ≡ ok m
        → n ≡ record l { market = m }
        → Step l n
    trades :
        (t : Trade F) (m : Market F D)
        → on_trade proto t l.market ≡ ok m
        → n ≡ record l { market = m }
        → Step l n
    changes :
        (pc : ProductChange F)
        → (get_product_id pc == ex.product_id) ≡ false
        → n ≡ record l { market = on_product_change pc l.market }
        → Step l n
    stops : n ≡ record l { market = stop l.market } → Step l n

  pub data Reach (l : Line J F D) : Line J F D → Type 0 where
    start : Reach l l
    more : {n o : Line J F D} → Reach l n → Step n o → Reach l o
