-- ===== src/OrderBook/View.antt =====
-- The book as a client thinks of it, a partial map from a side and an order id to an order, and
-- what each operation does to that map.
use mathlib.Core.Option
use quote_server.Base.{
  String, ◌≡◌, refl, Bool, ◌&&◌, Option, none, some, List, [], ◌∷◌, arith, ◌==◌, eq_iff,
  if◌then◌else◌,
}
use quote_server.Base.Floating.{Floating}
use quote_server.OrderBook.{
  Order, find_order, erase_order, UniqueIds, or_first, find_order-append, find_order-erase_ne,
  find_order-erase_self, find_order-write, Side, sell, buy, OrderBook, add_order, remove_order,
  update_order, match_orders, resize, reduce,
}
use quote_server.OrderBook.Unique.{IsUnique, orders_on}

abbrev pub opposite : Side → Side
opposite sell = buy
opposite buy = sell

abbrev pub same_side : Side → Side → Bool
same_side sell sell = Bool.true
same_side buy buy = Bool.true
same_side _ _ = Bool.false

-- An abstract book.
abbrev pub BookMap : Type 0 → Type 0
BookMap F = Side → String → Option (Order F)

abbrev pub view : {F : Type 0} → OrderBook F → BookMap F
view book side id = find_order id (orders_on side book)

module _ {F : Type 0} where
  -- The first order of an id wins.
  abbrev pub put : Side → Order F → BookMap F → BookMap F
  put side o m t id =
      if same_side t side && id == o.order_id then or_first (m t id) (some o) else m t id

  abbrev pub drop : Side → String → BookMap F → BookMap F
  drop side k m t id = if same_side t side && k == id then none else m t id

  abbrev pub rewrite : Side → String → (Order F → Order F) → BookMap F → BookMap F
  rewrite side k write m t id =
      if same_side t side && k == id then Option.map write (m t id) else m t id

  pub view-add :
      (o : Order F) (side t : Side) (book : OrderBook F) (id : String)
      → view (add_order o side book) t id ≡ put side o (view book) t id
  unfolding add_order find_order
  view-add o buy buy book id =
      ground
        (arith, find_order-append id book.bids (o ∷ []), eq_iff id o.order_id, eq_iff o.order_id id)
  view-add o sell sell book id =
      ground
        (arith, find_order-append id book.asks (o ∷ []), eq_iff id o.order_id, eq_iff o.order_id id)
  view-add o buy sell book id = refl
  view-add o sell buy book id = refl

  -- What `erase` at the found iterator leaves, where ids are unique.
  find_order-erase :
      (id other : String) (os : List (Order F))
      → UniqueIds os
      → find_order other (erase_order id os) ≡ (if id == other then none else find_order other os)
  find_order-erase id other os u =
      ground
        (arith, eq_iff id other, find_order-erase_self id os u, find_order-erase_ne id other os)

  pub view-remove :
      (k : String) (side t : Side) (book : OrderBook F) (id : String)
      → IsUnique book
      → view (remove_order k side book) t id ≡ drop (opposite side) k (view book) t id
  unfolding remove_order
  view-remove k buy sell book id u =
      ground (arith, find_order-erase k id book.asks u.asks, eq_iff k id)
  view-remove k sell buy book id u =
      ground (arith, find_order-erase k id book.bids u.bids, eq_iff k id)
  view-remove k buy buy book id u = ground arith
  view-remove k sell sell book id u = ground arith

  pub view-update :
      (k : String) (size : F) (side t : Side) (book : OrderBook F) (id : String)
      → view (update_order k size side book) t id
        ≡ rewrite (opposite side) k (resize size) (view book) t id
  unfolding update_order
  view-update k size buy sell book id =
      ground (arith, find_order-write k id (resize size) book.asks (λ o. refl), eq_iff k id)
  view-update k size sell buy book id =
      ground (arith, find_order-write k id (resize size) book.bids (λ o. refl), eq_iff k id)
  view-update k size buy buy book id = ground arith
  view-update k size sell sell book id = ground arith

module _ {F : Type 0} ⦃f : Floating F⦄ where
  -- The maker stands on the side opposite to the message's, the taker on its own; without the maker
  -- nothing changes.
  abbrev pub trade : String → String → F → Side → BookMap F → BookMap F
  trade maker taker matched side m t id = elim (m (opposite side) maker) [
    | none ↦ m t id
    | some it ↦
        rewrite side taker (reduce matched) (rewrite (opposite side) maker (reduce matched) m) t id
  ]

  pub view-match :
      (maker taker : String) (matched : F) (side t : Side) (book : OrderBook F) (id : String)
      → view (match_orders maker taker matched side book) t id
        ≡ trade maker taker matched side (view book) t id
  unfolding match_orders
  view-match maker taker matched buy buy book id =
      ground
        (arith, find_order-write taker id (reduce matched) book.bids (λ o. refl), eq_iff taker id)
  view-match maker taker matched buy sell book id =
      ground
        (arith, find_order-write maker id (reduce matched) book.asks (λ o. refl), eq_iff maker id)
  view-match maker taker matched sell buy book id =
      ground
        (arith, find_order-write maker id (reduce matched) book.bids (λ o. refl), eq_iff maker id)
  view-match maker taker matched sell sell book id =
      ground
        (arith, find_order-write taker id (reduce matched) book.asks (λ o. refl), eq_iff taker id)
