-- ===== src/OrderBookPublisher.antt =====
-- include/product/ProductChangePublisherZMQ.hpp, the variant with PROTOCOL_BUF_PUB that is compiled,
-- and its factory: the message that a book is published in. The time stamps are printed only, and the
-- socket is the list of the payloads that were sent.
pub mod Contents
use quote_server.Base.{String, List, [], ◌∷◌, push_back}
use quote_server.OrderBook.{Order, OrderBook, get_asks, get_bids}
use quote_server.Protobuf.{Protobuf, QsMessage, WireOrder, WireBook, order_book}

pub record Publisher : Type 0 where
  pub product_id : String
  pub sent : List String

-- `createPublisher`
unfoldable pub create_publisher : String → Publisher
create_publisher product_id = record { product_id = product_id; sent = [] }

-- a new `qs::OrderBook`
abbrev pub empty_wire_book : {F : Type 0} → WireBook F
empty_wire_book = record { product_id = ""; asks = []; bids = [] }

module _ {F : Type 0} (proto : Protobuf F) where
  -- the three setters of a `qs::Order`
  abbrev pub wire_order : Order F → WireOrder F
  wire_order order = record {
    order_id = order.order_id;
    price = proto.narrow order.price;
    size = proto.narrow order.size;
  }

  -- `for(const auto& order: view->getAsks())`, each added to `mutable_asks()`
  unfoldable pub add_asks : List (Order F) → WireBook F → WireBook F
  add_asks [] book = book
  add_asks (order ∷ orders) book =
      add_asks orders (record book { asks = push_back book.asks (wire_order order) })

  unfoldable pub add_bids : List (Order F) → WireBook F → WireBook F
  add_bids [] book = book
  add_bids (order ∷ orders) book =
      add_bids orders (record book { bids = push_back book.bids (wire_order order) })

  -- The message that `publish` builds of a view.
  unfoldable pub order_book_message : String → OrderBook F → QsMessage F
  order_book_message product_id view =
      let book = add_bids (get_bids view) (add_asks (get_asks view) empty_wire_book) in
      order_book (record book { product_id = product_id })

  unfoldable pub publish : OrderBook F → Publisher → Publisher
  publish view p = record p {
    sent = push_back p.sent (proto.serialize (order_book_message p.product_id view));
  }
