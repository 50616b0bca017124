-- ===== src/OrderBookPublisher/Contents.antt =====
-- What a published message holds, and what the batches of a product send.
use quote_server.Base.{String, ◌≡◌, ap, ◌∙◌, sym, List, [], ◌∷◌, ◌++◌, map, push_back}
use mathlib.Core.List.{append_assoc, append-nil}
use quote_server.OrderBook.{Order, OrderBook, get_asks, get_bids}
use quote_server.Protobuf.{Protobuf, WireBook, order_book}
use quote_server.OrderBookPublisher.{
  wire_order, add_asks, add_bids, order_book_message, empty_wire_book,
}

module _ {F : Type 0} (proto : Protobuf F) where
  add_asks-map :
      (orders : List (Order F)) (book : WireBook F)
      → add_asks proto orders book
        ≡ record book { asks = book.asks ++ map (wire_order proto) orders }
  unfolding add_asks
  add_asks-map [] book = ap (λ asks. record book { asks = asks }) (sym (append-nil book.asks))
  add_asks-map (order ∷ orders) book =
      add_asks-map orders (record book { asks = push_back book.asks (wire_order proto order) })
      ∙ ap (λ asks. record book { asks = asks })
          (append_assoc book.asks (wire_order proto order ∷ []) (map (wire_order proto) orders))

  add_bids-map :
      (orders : List (Order F)) (book : WireBook F)
      → add_bids proto orders book
        ≡ record book { bids = book.bids ++ map (wire_order proto) orders }
  unfolding add_bids
  add_bids-map [] book = ap (λ bids. record book { bids = bids }) (sym (append-nil book.bids))
  add_bids-map (order ∷ orders) book =
      add_bids-map orders (record book { bids = push_back book.bids (wire_order proto order) })
      ∙ ap (λ bids. record book { bids = bids })
          (append_assoc book.bids (wire_order proto order ∷ []) (map (wire_order proto) orders))

  -- The published message has the product's id and an entry for every order of the book, asks among
  -- the asks and bids among the bids, in the book's order, with price and size narrowed.
  pub order_book_message-orders :
      (product_id : String) (view : OrderBook F)
      → order_book_message proto product_id view
        ≡ order_book (record {
          product_id = product_id;
          asks = map (wire_order proto) view.asks;
          bids = map (wire_order proto) view.bids;
        })
  unfolding order_book_message get_asks get_bids
  order_book_message-orders product_id view =
      ap (λ (book : WireBook F). order_book (record book { product_id = product_id }))
        (add_bids-map view.bids (add_asks proto view.asks empty_wire_book)
          ∙ ap
              (λ (book : WireBook F). record book {
                bids = book.bids ++ map (wire_order proto) view.bids;
              })
              (add_asks-map view.asks empty_wire_book))
