-- ===== src/OrderBook.antt =====
-- include/Side.hpp, include/OrderBookView.hpp, include/OrderBook.hpp and src/OrderBook.cpp: the two
-- vectors of orders and the operations on them, each branch as it is written there. What an
-- operation prints is not modelled.
mod Orders
pub mod Unique
pub mod View
pub mod Lifecycle
unfoldable pub use Orders.*
use mathlib.Core.Option
use quote_server.Base.{String, Option, none, some, List, [], push_back, push_all}
use quote_server.Base.Floating.{Floating, minus}

pub data Side : Type 0 where
  sell buy : Side

pub record OrderBook (F : Type 0) : Type 0 where
  pub bids : List (Order F)
  pub asks : List (Order F)

-- `std::make_unique<OrderBook>()`
abbrev pub empty_book : {F : Type 0} → OrderBook F
empty_book = record { bids = []; asks = [] }

module _ {F : Type 0} where
  -- The earlier contents are cleared.
  unfoldable pub init : List (Order F) → List (Order F) → OrderBook F → OrderBook F
  init bids asks book = record { bids = push_all [] bids; asks = push_all [] asks }

  unfoldable pub add_order : Order F → Side → OrderBook F → OrderBook F
  add_order order buy book = record book { bids = push_back book.bids order }
  add_order order sell book = record book { asks = push_back book.asks order }

  unfoldable pub remove_order : String → Side → OrderBook F → OrderBook F
  remove_order id buy book = elim (find_order id book.asks) [
    | none ↦ book
    | some it ↦ record book { asks = erase_order id book.asks }
  ]
  remove_order id sell book = elim (find_order id book.bids) [
    | none ↦ book
    | some it ↦ record book { bids = erase_order id book.bids }
  ]

  -- `it->size = newSize`
  abbrev pub resize : F → Order F → Order F
  resize size it = record it { size = size }

  unfoldable pub update_order : String → F → Side → OrderBook F → OrderBook F
  update_order id size buy book = elim (find_order id book.asks) [
    | none ↦ book
    | some it ↦ record book { asks = write_order id (resize size) book.asks }
  ]
  update_order id size sell book = elim (find_order id book.bids) [
    | none ↦ book
    | some it ↦ record book { bids = write_order id (resize size) book.bids }
  ]

  unfoldable pub get_asks : OrderBook F → List (Order F)
  get_asks book = book.asks

  unfoldable pub get_bids : OrderBook F → List (Order F)
  get_bids book = book.bids

module _ {F : Type 0} ⦃f : Floating F⦄ where
  -- `it->size = it->size - matchedSize`
  abbrev pub reduce : F → Order F → Order F
  reduce matched it = record it { size = minus it.size matched }

  -- the taker's half on each side
  take_asks : String → F → OrderBook F → OrderBook F
  take_asks taker matched book = elim (find_order taker book.asks) [
    | none ↦ book
    | some it ↦ record book { asks = write_order taker (reduce matched) book.asks }
  ]

  take_bids : String → F → OrderBook F → OrderBook F
  take_bids taker matched book = elim (find_order taker book.bids) [
    | none ↦ book
    | some it ↦ record book { bids = write_order taker (reduce matched) book.bids }
  ]

  -- A maker that is not found ends the call before the taker is looked for.
  unfoldable pub match_orders : String → String → F → Side → OrderBook F → OrderBook F
  unfolding take_asks take_bids
  match_orders maker taker matched sell book = elim (find_order maker book.bids) [
    | none ↦ book
    | some it ↦
        take_asks taker matched
          (record book { bids = write_order maker (reduce matched) book.bids })
  ]
  match_orders maker taker matched buy book = elim (find_order maker book.asks) [
    | none ↦ book
    | some it ↦
        take_bids taker matched
          (record book { asks = write_order maker (reduce matched) book.asks })
  ]
