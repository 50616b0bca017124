-- ===== src/Tests/Handler.antt =====
-- Messages of the feed, read; prices and sizes are texts here.
use quote_server.Base.{
  String, ◌≡◌, refl, none, some, List, [], ◌∷◌, Result, ok, err, parse_error, too_deep, ◌≢◌, ◌<>◌,
  ◌==◌, arith,
}
use quote_server.Base.Dict.{find}
use quote_server.Base.Floating.{Floating}
use quote_server.Json.{Json}
use quote_server.OrderBook.{Order, sell}
use quote_server.ProductChange.{reset_order_book, opened, to_changes}
use quote_server.FeedMessageHandler.{get_product_change}
use quote_server.FeedMessageHandler.Wire.{FeedEvent, opens, beats, book_message}
use quote_server.FeedMessageHandler.Decode.{get_product_change-book}
use quote_server.FeedMessageHandler.Ends.{IsOutside, get_product_change-ends}
use quote_server.Tests.Value.{
  Value, value_json, value_laws, value_laws-depth, value_json-IsOutside, depth_of, str,
}

abbrev pub table : String → Result Value
table s = err parse_error

instance abbrev pub handler_json : Json Value
handler_json = value_json table

instance abbrev pub text_floating : Floating String
text_floating = record { sub = λ a b. a <> "-" <> b; same = ◌==◌; stod = ok }

abbrev pub show : String → String
show s = s

abbrev pub timed : FeedEvent String → List (String × Value)
timed e = ("time", str "2014-11-07T08:19:27.028459Z") ∷ []

timed-plain : (e : FeedEvent String) → find "bids" (timed e) ≡ none
unfolding find
timed-plain e = refl

abbrev bid : Order String
bid = record { price = "10.5"; size = "2"; order_id = "a" }

abbrev pub opening : FeedEvent String
opening = opens "c" "11" "4" sell 12

get_product_change-book_example :
    get_product_change {F = String} 2 "ETH-USD"
      (book_message handler_json show timed "ETH-USD" (bid ∷ []) [] (opening ∷ beats 13 ∷ []) 11)
    ≡ ok (
        some (
          reset_order_book
            (bid ∷ [])
            []
            (to_changes (opened "c" "11" "4" sell "ETH-USD" 12 ∷ []))
            "ETH-USD"
            11))
get_product_change-book_example =
    get_product_change-book (value_laws table) show (λ s. refl) timed timed-plain 0 "ETH-USD"
      (bid ∷ []) [] (opening ∷ beats 13 ∷ []) 11 (omega arith) (omega arith)

abbrev whole_book : Value
whole_book =
    book_message handler_json show timed "ETH-USD" (bid ∷ []) [] (opening ∷ beats 13 ∷ []) 11

whole_book-depth : (value_laws table).depth whole_book ≡ 3
unfolding depth_of
whole_book-depth = value_laws-depth table whole_book

text-IsOutside : IsOutside handler_json text_floating
text-IsOutside = value_json-IsOutside table text_floating (λ s e. cc)

get_product_change-ends_example :
    (get_product_change {F = String} 4 "ETH-USD" whole_book ≢ err too_deep)
    × (get_product_change {F = String} 4 "ETH-USD" whole_book
        ≡ get_product_change 9 "ETH-USD" whole_book)
get_product_change-ends_example =
    get_product_change-ends (value_laws table) text-IsOutside 4 9 "ETH-USD" whole_book
      (omega (arith, whole_book-depth)) (omega (arith, whole_book-depth))
