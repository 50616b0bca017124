-- ===== src/Tests/Mirrors.antt =====
-- A product from its subscription to a book of the market that has all of what the exchange sent.
use mathlib.Core.List.Permᴰ
use quote_server.Base.{
  String, ℕ, ◌+◌, ◌≡◌, refl, true, false, none, some, List, [], ◌∷◌, Result, ok, err, parse_error,
  ◌==◌, ◌<>◌, All, if◌then◌else◌, arith, map,
}
use quote_server.Base.Dict
use quote_server.Base.Floating.{Floating}
use quote_server.Json.{Json}
use quote_server.OrderBook.{Order, sell, empty_book}
use quote_server.ProductChange.{ProductChange, reset_order_book, opened, to_changes, get_product_id}
use quote_server.FeedMessageHandler
use quote_server.FeedMessageHandler.{
  get_product_change, typed_change, opened_of, side_of, full_book, order_of, merged_changes,
}
use quote_server.FeedMessageHandler.Wire.{FeedEvent, opens, order_row}
use quote_server.FeedProduct.{
  FeedProduct, running, ended, new_feed_product, on_message_received, message_loop,
  request_full_order_book_impl, install_or_give_up, install_book, merge_queue, merge_message,
}
use quote_server.Product.{Product, new_product}
use quote_server.FeedClient.{FeedClient}
use quote_server.Protobuf.{Protobuf}
use quote_server.Market.{Market, on_product_change, take_changes, apply_changes}
use quote_server.Market.Changes.{only, book_of}
use quote_server.System.Exchange.{Exchange, message, book_after}
use quote_server.System.Line.{
  Line, Reach, start, more, receives, responds, takes, hands, collects, applies,
}
use quote_server.System.Mirror.{IsFresh, IsExchangeBook}
use quote_server.System.Mirror.Books.{Reach-caught_up, Reach-publishes}
use quote_server.System.Stale.{stale_book-unnoticed}
use quote_server.System.Pipeline.{report_changes, handle_messages, taken}
use quote_server.Tests.Value.{Value, value_json, value_laws}

abbrev text : String → String
text s = s

abbrev bid : Order String
bid = record { price = "10.5"; size = "2"; order_id = "a" }

instance abbrev mirror_floating : Floating String
mirror_floating = record { sub = λ a b. a <> "-" <> b; same = ◌==◌; stod = ok }

abbrev bare_json : Json Value
bare_json = value_json (λ s. err parse_error)

abbrev rows : List (Order String) → Value
rows os = bare_json.array (map (order_row bare_json text) os)

abbrev book_10 : Value
book_10 =
    bare_json.object
      (("sequence", bare_json.number 10) ∷ ("bids", rows (bid ∷ [])) ∷ ("asks", rows []) ∷ [])

abbrev table : String → Result Value
table s = if s == "book" then ok book_10 else err parse_error

instance abbrev mirror_json : Json Value
mirror_json = value_json table

abbrev timed : FeedEvent String → List (String × Value)
timed e = ("time", bare_json.text "2014-11-07T08:19:27.028459Z") ∷ []

timed-plain : (e : FeedEvent String) → Dict.find "bids" (timed e) ≡ none
unfolding Dict.find
timed-plain e = refl

abbrev exchange : Exchange mirror_json mirror_floating
exchange = record {
  product_id = "ETH-USD";
  show = text;
  stod-show = λ s. refl;
  further = timed;
  plain = timed-plain;
  events = λ n. opens "c" "11" "4" sell n;
  numbered = λ n. refl;
  bids = λ s. bid ∷ [];
  asks = λ s. [];
}

abbrev subscribed : Market String String
subscribed = record {
  feed_client = "feed";
  products =
      (
        "ETH-USD",
        record { product_id = "ETH-USD"; clients = []; order_book = empty_book; published = [] },
      )
      ∷ [];
  clients = [];
  product_changes = [];
  is_running = true;
  trade_publishers = [];
}

abbrev asking : FeedProduct Value
asking = record {
  product_id = "ETH-USD";
  message_queue = [];
  last_sequence_number = 0;
  is_running = true;
  requesting_orderbook = true;
  request_thread = running;
  handled = [];
}

abbrev fresh : Line Value String String
fresh = record {
  product = asking;
  in_hand = [];
  market = subscribed;
  in_round = [];
  sent = 10;
  needed = 10;
}

abbrev plain : Protobuf String
plain = record { narrow = λ x. x; serialize = λ message. "payload" }

-- the feed as the market sees it
abbrev quiet : FeedClient String
quiet = record { subscribe = λ product_id d. ok d; unsubscribe = λ product_id d. ok d }

fresh-IsFresh : IsFresh exchange fresh
unfolding new_feed_product new_product Dict.find
fresh-IsFresh = record {
  product = refl;
  in_hand = refl;
  bound = omega arith;
  needed = refl;
  changes = refl;
  there = refl;
}

abbrev waiting : FeedProduct Value
waiting = record asking { message_queue = message exchange 11 ∷ [] }

abbrev merged : Value
merged = bare_json.object (
    ("sequence", bare_json.number 10)
    ∷ ("bids", rows (bid ∷ []))
    ∷ ("asks", rows [])
    ∷ ("to_merge", bare_json.array (message exchange 11 ∷ []))
    ∷ [])

abbrev installed : FeedProduct Value
installed = record asking {
  message_queue = merged ∷ [];
  last_sequence_number = 11;
  requesting_orderbook = false;
  request_thread = ended;
}

abbrev drained : FeedProduct Value
drained = record installed { message_queue = []; handled = merged ∷ [] }

abbrev reset : ProductChange String
reset =
    reset_order_book (bid ∷ []) [] (to_changes (opened "c" "11" "4" sell "ETH-USD" 11 ∷ []))
      "ETH-USD" 10

abbrev told : Market String String
told = record subscribed { product_changes = ("ETH-USD", reset) ∷ [] }

abbrev finished : Line Value String String
finished = record fresh {
  product = drained;
  market = apply_changes mirror_floating (λ xs. xs) told.product_changes (take_changes told);
  sent = 11;
}

received : on_message_received (message exchange 11) asking ≡ ok waiting
unfolding on_message_received
received = refl

answered : request_full_order_book_impl "book" waiting ≡ ok installed
unfolding request_full_order_book_impl install_or_give_up install_book merge_queue merge_message
answered = refl

taken_all : taken installed ≡ merged ∷ []
unfolding taken
taken_all = refl

looped : message_loop installed ≡ drained
unfolding message_loop
looped = refl

handled : handle_messages 2 "ETH-USD" (merged ∷ []) subscribed ≡ ok told
unfolding handle_messages report_changes on_product_change get_product_id to_changes
    FeedMessageHandler.on_message_received get_product_change typed_change opened_of side_of
    full_book order_of merged_changes
handled = refl

run : Reach exchange plain quiet 0 fresh finished
unfolding taken message_loop
run =
    more
      (more
        (more
          (more
            (more (more start (receives waiting (omega arith) received refl)) (
              responds "book" 10 installed refl refl refl (omega arith) (omega arith) (omega arith)
                answered refl))
            (takes refl refl))
          (hands merged [] told refl handled refl))
        (collects refl refl refl))
      (applies (λ xs. xs) (some reset) (λ xs. Permᴰ.refl (only "ETH-USD" xs)) refl refl)

Reach-caught_up_example :
    (s : ℕ) × (d : ℕ) × (s + d ≡ 11)
    × (book_of "ETH-USD" finished.market.products ≡ some (book_after exchange s d))
Reach-caught_up_example =
    Reach-caught_up (value_laws table) exchange plain quiet 0 fresh finished fresh-IsFresh run refl
      refl refl refl

Reach-publishes_example :
    (p : Product String) × (Dict.find "ETH-USD" finished.market.products ≡ some p)
    × All (IsExchangeBook exchange) p.published
Reach-publishes_example =
    Reach-publishes (value_laws table) exchange plain quiet 0 fresh finished fresh-IsFresh run

-- The messages up to 12 are lost, and the book is of number 10.
abbrev behind : FeedProduct Value
behind = record asking { message_queue = message exchange 13 ∷ [] }

abbrev merged_late : Value
merged_late = bare_json.object (
    ("sequence", bare_json.number 10)
    ∷ ("bids", rows (bid ∷ []))
    ∷ ("asks", rows [])
    ∷ ("to_merge", bare_json.array (message exchange 13 ∷ []))
    ∷ [])

abbrev caught : FeedProduct Value
caught = record installed { message_queue = merged_late ∷ []; last_sequence_number = 13 }

answered_late : request_full_order_book_impl "book" behind ≡ ok caught
unfolding request_full_order_book_impl install_or_give_up install_book merge_queue merge_message
answered_late = refl

stale_book-unnoticed_example :
    (b : Value) × (r : FeedProduct Value) × (caught.message_queue ≡ b ∷ [])
    × (get_product_change 2 "ETH-USD" b
        ≡ ok (
            some (
              reset_order_book
                (bid ∷ [])
                []
                (to_changes (opened "c" "11" "4" sell "ETH-USD" 13 ∷ []))
                "ETH-USD"
                10)))
    × (on_message_received (message exchange 14) caught ≡ ok r)
    × (r.requesting_orderbook ≡ false)
stale_book-unnoticed_example =
    stale_book-unnoticed (value_laws table) exchange 0 "book" 10 12 0 behind caught refl refl
      (omega arith) (omega arith) (omega arith) refl answered_late
