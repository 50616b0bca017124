-- ===== src/OrderBook/Lifecycle.antt =====
-- An order that is added and then removed.
use quote_server.Base.{◌≡◌, ◌≢◌, none, [], ◌∷◌, arith, eq_iff}
use quote_server.OrderBook.{
  Order, find_order, find_order-append, erase_order-last, Side, sell, buy, OrderBook, add_order,
  remove_order,
}
use quote_server.OrderBook.Unique.{orders_on}
use quote_server.OrderBook.View.{opposite, view}

module _ {F : Type 0} (o : Order F) where
  -- Removing an order under the side opposite to the one that it was added under restores the book,
  -- if its id was new on that side.
  pub remove_order-add_order :
      (side : Side) (book : OrderBook F)
      → find_order o.order_id (orders_on side book) ≡ none
      → remove_order o.order_id (opposite side) (add_order o side book) ≡ book
  unfolding remove_order add_order find_order
  remove_order-add_order buy book fresh = ground (
    arith,
    find_order-append o.order_id book.bids (o ∷ []),
    erase_order-last o book.bids fresh,
    eq_iff o.order_id o.order_id,
  )
  remove_order-add_order sell book fresh = ground (
    arith,
    find_order-append o.order_id book.asks (o ∷ []),
    erase_order-last o book.asks fresh,
    eq_iff o.order_id o.order_id,
  )

  -- Adding an order to a side and removing its id under the same side leaves an order with that id
  -- on that side, whatever the book was.
  pub remove_order-add_order_same_side :
      (side : Side) (book : OrderBook F)
      → view (remove_order o.order_id side (add_order o side book)) side o.order_id ≢ none
  unfolding remove_order add_order find_order
  remove_order-add_order_same_side buy book e =
      ground (arith, find_order-append o.order_id book.bids (o ∷ []), eq_iff o.order_id o.order_id)
  remove_order-add_order_same_side sell book e =
      ground (arith, find_order-append o.order_id book.asks (o ∷ []), eq_iff o.order_id o.order_id)
