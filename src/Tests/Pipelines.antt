-- ===== src/Tests/Pipelines.antt =====
-- A message from a product's queue to the book of the market.
use mathlib.Core.Option
use quote_server.Base.{
  String, ◌≡◌, refl, true, false, Option, List, [], ◌∷◌, ◌++◌, ok, somes, map_results,
}
use quote_server.OrderBook.{sell, empty_book}
use quote_server.ProductChange.{ProductChange, opened, get_product_id}
use quote_server.FeedMessageHandler
use quote_server.FeedMessageHandler.{get_product_change, typed_change, opened_of, side_of}
use quote_server.FeedMessageHandler.Wire.{event_message}
use quote_server.FeedProduct.{FeedProduct, ended, message_loop}
use quote_server.Product.Batches.{books}
use quote_server.Market.{Market, on_product_change, process_product_changes}
use quote_server.Market.Changes.{only, book_of}
use quote_server.System.Pipeline.{report_changes, handle_messages, taken, loop_round}
use quote_server.System.Replayed.{keyed, loop_round-books}
use quote_server.Tests.Value.{Value}
use quote_server.Tests.Handler.{handler_json, text_floating, show, timed, opening}

abbrev open_msg : Value
open_msg = event_message handler_json show timed "ETH-USD" opening

abbrev waiting : FeedProduct Value
waiting = record {
  product_id = "ETH-USD";
  message_queue = open_msg ∷ [];
  last_sequence_number = 12;
  is_running = true;
  requesting_orderbook = false;
  request_thread = ended;
  handled = [];
}

abbrev market : Market String String
market = record {
  feed_client = "feed";
  products =
      (
        "ETH-USD",
        record { product_id = "ETH-USD"; clients = []; order_book = empty_book; published = [] },
      )
      ∷ [];
  clients = [];
  product_changes = [];
  is_running = true;
  trade_publishers = [];
}

abbrev change : ProductChange String
change = opened "c" "11" "4" sell "ETH-USD" 12

abbrev told : Market String String
told = record market { product_changes = ("ETH-USD", change) ∷ [] }

abbrev drained : FeedProduct Value
drained = record waiting { message_queue = []; handled = open_msg ∷ [] }

round : loop_round 1 waiting market ≡ ok (drained, told)
unfolding loop_round handle_messages taken report_changes on_product_change get_product_id
    FeedMessageHandler.on_message_received get_product_change typed_change opened_of side_of
    message_loop
round = refl

loop_round-books_example :
    (pcs : List (Option (ProductChange String))) × (drained.handled ≡ [] ++ open_msg ∷ [])
    × (drained.message_queue ≡ [])
    × (map_results (get_product_change 1 "ETH-USD") (open_msg ∷ []) ≡ ok pcs)
    × (book_of "ETH-USD" (process_product_changes text_floating (λ xs. xs) told).products
        ≡ Option.map
            (books text_floating (only "ETH-USD" ([] ++ keyed "ETH-USD" (somes pcs))))
            (book_of "ETH-USD" market.products))
loop_round-books_example =
    loop_round-books 1 (λ xs. xs) waiting drained market told "ETH-USD" refl refl refl round
