-- ===== src/OrderBook/Unique.antt =====
-- Order ids stay unique on each side.
use quote_server.Base.{
  String, ◌≡◌, refl, none, List, [], ◌∷◌, ◌++◌, arith, eq_iff, push_all-eq-append, sym,
}
use quote_server.Base.Floating.{Floating}
use quote_server.OrderBook.{
  Order, find_order, erase_order, write_order, UniqueIds, find_order-append, find_order-write, Side,
  sell, buy, OrderBook, add_order, remove_order, update_order, match_orders, resize, reduce, init,
}
use mathlib.Core.Path.{subst}

pub record IsUnique {F : Type 0} (book : OrderBook F) : Type 0 where
  pub bids : UniqueIds book.bids
  pub asks : UniqueIds book.asks

module _ {F : Type 0} where
  push_back-UniqueIds :
      (o : Order F) (os : List (Order F))
      → find_order o.order_id os ≡ none
      → UniqueIds os
      → UniqueIds (os ++ o ∷ [])
  unfolding find_order
  push_back-UniqueIds o [] fresh u = (refl, tt)
  push_back-UniqueIds o (p ∷ os) fresh u = ground (
    arith,
    eq_iff p.order_id o.order_id,
    eq_iff o.order_id p.order_id,
    push_back-UniqueIds o os,
    find_order-append p.order_id os (o ∷ []),
  )

  find_order-erase_none :
      (id other : String) (os : List (Order F))
      → find_order other os ≡ none
      → find_order other (erase_order id os) ≡ none
  unfolding find_order erase_order
  find_order-erase_none id other [] h = refl
  find_order-erase_none id other (o ∷ os) h = ground (arith, find_order-erase_none id other os)

  pub erase_order-UniqueIds :
      (id : String) (os : List (Order F)) → UniqueIds os → UniqueIds (erase_order id os)
  unfolding erase_order
  erase_order-UniqueIds id [] u = tt
  erase_order-UniqueIds id (o ∷ os) u =
      ground (arith, erase_order-UniqueIds id os u.1, find_order-erase_none id o.order_id os u.0)

  pub write_order-UniqueIds :
      (id : String) (write : Order F → Order F) (os : List (Order F))
      → ((o : Order F) → (write o).order_id ≡ o.order_id)
      → UniqueIds os
      → UniqueIds (write_order id write os)
  unfolding write_order
  write_order-UniqueIds id write [] h u = tt
  write_order-UniqueIds id write (o ∷ os) h u = ground (
    arith,
    h o,
    write_order-UniqueIds id write os h u.1,
    find_order-write id o.order_id write os h,
  )

-- Where an order with side `side` is put, and where one with that side is looked for.
abbrev pub orders_on : {F : Type 0} → Side → OrderBook F → List (Order F)
orders_on buy book = book.bids
orders_on sell book = book.asks

module _ {F : Type 0} where
  pub init-IsUnique :
      (bids asks : List (Order F)) (book : OrderBook F)
      → UniqueIds bids
      → UniqueIds asks
      → IsUnique (init bids asks book)
  unfolding init
  init-IsUnique bids asks book ub ua = record {
    bids = subst UniqueIds (sym (push_all-eq-append [] bids)) ub;
    asks = subst UniqueIds (sym (push_all-eq-append [] asks)) ua;
  }

  pub add_order-IsUnique :
      (o : Order F) (side : Side) (book : OrderBook F)
      → find_order o.order_id (orders_on side book) ≡ none
      → IsUnique book
      → IsUnique (add_order o side book)
  unfolding add_order
  add_order-IsUnique o buy book fresh u = record {
    bids = push_back-UniqueIds o book.bids fresh u.bids;
    asks = u.asks;
  }
  add_order-IsUnique o sell book fresh u = record {
    bids = u.bids;
    asks = push_back-UniqueIds o book.asks fresh u.asks;
  }

  pub remove_order-IsUnique :
      (id : String) (side : Side) (book : OrderBook F)
      → IsUnique book
      → IsUnique (remove_order id side book)
  unfolding remove_order
  remove_order-IsUnique id buy book u = ground (arith, erase_order-UniqueIds id book.asks)
  remove_order-IsUnique id sell book u = ground (arith, erase_order-UniqueIds id book.bids)

  pub update_order-IsUnique :
      (id : String) (size : F) (side : Side) (book : OrderBook F)
      → IsUnique book
      → IsUnique (update_order id size side book)
  unfolding update_order
  update_order-IsUnique id size buy book u =
      ground (arith, write_order-UniqueIds id (resize size) book.asks (λ o. refl))
  update_order-IsUnique id size sell book u =
      ground (arith, write_order-UniqueIds id (resize size) book.bids (λ o. refl))

module _ {F : Type 0} ⦃f : Floating F⦄ where
  pub match_orders-IsUnique :
      (maker taker : String) (matched : F) (side : Side) (book : OrderBook F)
      → IsUnique book
      → IsUnique (match_orders maker taker matched side book)
  unfolding match_orders
  match_orders-IsUnique maker taker matched buy book u = ground (
    arith,
    write_order-UniqueIds maker (reduce matched) book.asks (λ o. refl),
    write_order-UniqueIds taker (reduce matched) book.bids (λ o. refl),
  )
  match_orders-IsUnique maker taker matched sell book u = ground (
    arith,
    write_order-UniqueIds maker (reduce matched) book.bids (λ o. refl),
    write_order-UniqueIds taker (reduce matched) book.asks (λ o. refl),
  )
