-- ===== src/Tests/Markets.antt =====
-- A market with two clients, over a feed that accepts every call.
use quote_server.Base.{String, ℕ, ◌≡◌, refl, true, none, some, List, [], ◌∷◌, ok}
use quote_server.Base.Dict
use quote_server.OrderBook.{buy, empty_book}
use quote_server.ProductChange.{ProductChange, opened, done}
use quote_server.Product.{Product, new_product, new_client, has_clients, remove_client}
use quote_server.Product.Batches.{books}
use quote_server.FeedClient.{FeedClient}
use quote_server.Protobuf.{Protobuf}
use quote_server.Market.{
  Market, new_market, subscribe, subscribe_feed, unsubscribe, process_product_changes,
}
use quote_server.Market.Maps.{IsCoherent}
use quote_server.Market.Clients.{
  subscribes, Reach, here, next, Reach-new-IsCoherent, unsubscribe-drops_for_all,
}
use quote_server.Market.Changes.{book_of, process_product_changes-books}
use quote_server.Tests.Books.{nat_floating}

instance abbrev nat_protobuf : Protobuf ℕ
nat_protobuf = record { narrow = λ n. n; serialize = λ message. "payload" }

-- The products that the feed was asked for.
abbrev feed : FeedClient (List String)
feed = record { subscribe = λ p d. ok (p ∷ d); unsubscribe = λ p d. ok d }

abbrev entry : String → Product ℕ
entry id = record { product_id = id; clients = []; order_book = empty_book; published = [] }

abbrev one_client : Market ℕ (List String)
one_client = record {
  feed_client = "ETH-USD" ∷ [];
  products = ("ETH-USD", entry "ETH-USD") ∷ [];
  clients = ("u1", record { client_id = "u1"; order_ids = [] }) ∷ [];
  product_changes = [];
  is_running = true;
  trade_publishers = ("ETH-USD", []) ∷ [];
}

abbrev two_clients : Market ℕ (List String)
two_clients = record one_client {
  clients =
      ("u1", record { client_id = "u1"; order_ids = [] })
      ∷ ("u2", record { client_id = "u2"; order_ids = [] })
      ∷ [];
}

Reach-two_clients : Reach nat_floating nat_protobuf feed (new_market []) two_clients
unfolding subscribe subscribe_feed new_product new_client Dict.find Dict.insert
Reach-two_clients =
    next (next here (subscribes "u1" "ETH-USD" refl)) (subscribes "u2" "ETH-USD" refl)

abbrev emptied : Market ℕ (List String)
emptied = record two_clients { products = []; trade_publishers = [] }

leaves : unsubscribe feed "u2" "ETH-USD" two_clients ≡ ok emptied
unfolding unsubscribe Dict.find Dict.assign Dict.erase has_clients remove_client
leaves = refl

Reach-new-IsCoherent_example : IsCoherent two_clients
Reach-new-IsCoherent_example =
    Reach-new-IsCoherent nat_floating nat_protobuf feed [] Reach-two_clients

-- Client "u1" loses the product when "u2" unsubscribes.
unsubscribe-drops_for_all_example :
    (Dict.find "ETH-USD" emptied.products ≡ none)
    × (Dict.find "ETH-USD" emptied.trade_publishers ≡ none)
unsubscribe-drops_for_all_example =
    unsubscribe-drops_for_all nat_floating nat_protobuf feed [] "u2" "ETH-USD" two_clients emptied
      "ETH-USD" Reach-two_clients leaves

abbrev opening : ProductChange ℕ
opening = opened "a" 10 5 buy "ETH-USD" 7

abbrev other : ProductChange ℕ
other = opened "b" 11 5 buy "BTC-USD" 3

abbrev closing : ProductChange ℕ
closing = done "a" buy "ETH-USD" 8

abbrev busy : Market ℕ (List String)
busy = record two_clients {
  product_changes = ("ETH-USD", opening) ∷ ("BTC-USD", other) ∷ ("ETH-USD", closing) ∷ [];
}

process_product_changes-books_example :
    (book_of "ETH-USD" (process_product_changes nat_floating (λ xs. xs) busy).products
      ≡ some (books nat_floating (opening ∷ closing ∷ []) empty_book))
    × ((process_product_changes nat_floating (λ xs. xs) busy).product_changes ≡ [])
unfolding Dict.find
process_product_changes-books_example =
    process_product_changes-books nat_floating (λ xs. xs) busy "ETH-USD" refl
