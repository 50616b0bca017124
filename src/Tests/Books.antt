-- ===== src/Tests/Books.antt =====
-- Order books, changes and products at concrete inputs, over natural numbers for prices and sizes.
use quote_server.Base.{
  ℕ, ◌-◌, ◌≡◌, refl, ◌≢◌, true, none, [], ◌∷◌, err, invalid_argument, nat_eq, push_back,
}
use quote_server.Base.Floating.{Floating}
use quote_server.OrderBook.{
  Order, find_order, sell, buy, OrderBook, add_order, remove_order, match_orders, write_order,
}
use quote_server.OrderBook.Unique.{IsUnique}
use quote_server.OrderBook.View.{view}
use quote_server.OrderBook.Lifecycle.{remove_order-add_order, remove_order-add_order_same_side}
use quote_server.ProductChange.{ProductChange, done, matched, update_order_book}
use quote_server.ProductChange.Refines.{effect, Admits, update_order_book-refines}
use quote_server.Product.{Product, on_product_changes}
use quote_server.Product.Batches.{books, on_product_changes-publishes}

instance abbrev pub nat_floating : Floating ℕ
nat_floating = record { sub = ◌-◌; same = nat_eq; stod = λ s. err invalid_argument }

abbrev pub bid : Order ℕ
bid = record { price = 10; size = 5; order_id = "a" }

abbrev pub ask : Order ℕ
ask = record { price = 12; size = 7; order_id = "b" }

abbrev pub book : OrderBook ℕ
book = record { bids = bid ∷ []; asks = ask ∷ [] }

-- A buy that took two units of the ask.
abbrev pub bought : ProductChange ℕ
bought = matched "b" "a" 12 2 buy "ETH-USD" 7

abbrev pub withdrawn : ProductChange ℕ
withdrawn = done "b" buy "ETH-USD" 8

update_order_book_runs : update_order_book nat_floating bought book ≡ (
  true,
  record {
    bids = record { price = 10; size = 3; order_id = "a" } ∷ [];
    asks = record { price = 12; size = 5; order_id = "b" } ∷ [];
  },
)
unfolding update_order_book match_orders find_order write_order
update_order_book_runs = refl

book-IsUnique : IsUnique book
unfolding find_order
book-IsUnique = record { bids = (refl, tt); asks = (refl, tt) }

update_order_book-refines_example :
    IsUnique (update_order_book nat_floating bought book).1
    × (view (update_order_book nat_floating bought book).1 ≡ effect nat_floating bought (view book))
unfolding Admits
update_order_book-refines_example =
    update_order_book-refines nat_floating bought book book-IsUnique tt

remove_order-add_order_example : remove_order "b" sell (add_order ask buy book) ≡ book
unfolding find_order
remove_order-add_order_example = remove_order-add_order ask buy book refl

remove_order-add_order_same_side_example :
    view
      (remove_order "c" buy (add_order (record { price = 9; size = 1; order_id = "c" }) buy book))
      buy
      "c"
    ≢ none
remove_order-add_order_same_side_example =
    remove_order-add_order_same_side (record { price = 9; size = 1; order_id = "c" }) buy book

abbrev pub product : Product ℕ
product = record { product_id = "ETH-USD"; clients = []; order_book = book; published = [] }

on_product_changes-publishes_example :
    on_product_changes nat_floating (bought ∷ withdrawn ∷ []) product ≡ record product {
      order_book = books nat_floating (bought ∷ withdrawn ∷ []) book;
      published = push_back [] (books nat_floating (bought ∷ withdrawn ∷ []) book);
    }
on_product_changes-publishes_example =
    on_product_changes-publishes nat_floating bought (withdrawn ∷ []) product
