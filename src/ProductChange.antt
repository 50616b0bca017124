-- ===== src/ProductChange.antt =====
-- include/product/ProductChange.hpp and its five subclasses: one constructor for each class, with the
-- members of the base class last, and `updateOrderBook` by cases on the class.
pub mod Refines
use quote_server.Base.{String, ℕ, Bool, true, List, [], ◌∷◌}
use quote_server.Base.Floating.{Floating}
use quote_server.OrderBook.{
  Order, Side, OrderBook, init, add_order, remove_order, update_order, match_orders,
}

-- `Changes` is `std::vector<std::unique_ptr<ProductChange>>`, in order.
mutual
  pub data ProductChange (F : Type 0) : Type 0 where
    reset_order_book : List (Order F) → List (Order F) → Changes F → String → ℕ → ProductChange F
    opened : String → F → F → Side → String → ℕ → ProductChange F
    done : String → Side → String → ℕ → ProductChange F
    matched : String → String → F → F → Side → String → ℕ → ProductChange F
    changed : String → F → F → Side → String → ℕ → ProductChange F

  pub data Changes (F : Type 0) : Type 0 where
    nil : Changes F
    cons : ProductChange F → Changes F → Changes F

module _ {F : Type 0} where
  unfoldable pub get_product_id : ProductChange F → String
  get_product_id (reset_order_book bids asks to_merge product_id sequence) = product_id
  get_product_id (opened id price size side product_id sequence) = product_id
  get_product_id (done id side product_id sequence) = product_id
  get_product_id (matched maker taker price size side product_id sequence) = product_id
  get_product_id (changed id price size side product_id sequence) = product_id

  unfoldable pub get_sequence_number : ProductChange F → ℕ
  get_sequence_number (reset_order_book bids asks to_merge product_id sequence) = sequence
  get_sequence_number (opened id price size side product_id sequence) = sequence
  get_sequence_number (done id side product_id sequence) = sequence
  get_sequence_number (matched maker taker price size side product_id sequence) = sequence
  get_sequence_number (changed id price size side product_id sequence) = sequence

  -- the vector that `push_back` fills
  unfoldable pub to_changes : List (ProductChange F) → Changes F
  to_changes [] = nil
  to_changes (pc ∷ pcs) = cons pc (to_changes pcs)

-- The constructors of the five classes, with the arguments in the order of the source.
module _ {F : Type 0} where
  abbrev pub new_reset_order_book :
      List (Order F) → List (Order F) → List (ProductChange F) → String → ℕ → ProductChange F
  new_reset_order_book bids asks to_merge product_id sequence_number =
      reset_order_book bids asks (to_changes to_merge) product_id sequence_number

  abbrev pub new_open : String → F → F → Side → String → ℕ → ProductChange F
  new_open order_id price remaining_size side product_id sequence_number =
      opened order_id price remaining_size side product_id sequence_number

  abbrev pub new_done : String → Side → String → ℕ → ProductChange F
  new_done order_id side product_id sequence_number = done order_id side product_id sequence_number

  abbrev pub new_match : String → String → F → F → Side → String → ℕ → ProductChange F
  new_match maker_order_id taker_order_id price size side product_id sequence_number =
      matched maker_order_id taker_order_id price size side product_id sequence_number

  abbrev pub new_change : String → F → F → Side → String → ℕ → ProductChange F
  new_change order_id price remaining_size side product_id sequence_number =
      changed order_id price remaining_size side product_id sequence_number

-- `updateOrderBook` of the four classes that have no changes in them: whether the book was updated,
-- and the book. The price of a match or of a change is not used.
module _ {F : Type 0} where
  abbrev pub update_opened : String → F → F → Side → OrderBook F → Bool × OrderBook F
  update_opened id price size side book =
      (true, add_order (record { price = price; size = size; order_id = id }) side book)

  abbrev pub update_done : String → Side → OrderBook F → Bool × OrderBook F
  update_done id side book = (true, remove_order id side book)

  abbrev pub update_matched :
      Floating F → String → String → F → Side → OrderBook F → Bool × OrderBook F
  update_matched f maker taker size side book =
      (true, match_orders ⦃f = f⦄ maker taker size side book)

  abbrev pub update_changed : String → F → Side → OrderBook F → Bool × OrderBook F
  update_changed id size side book = (true, update_order id size side book)

-- The virtual call, and `updateOrderBook` of the full book.
unfoldable mutual
  pub update_order_book :
      {F : Type 0} → Floating F → ProductChange F → OrderBook F → Bool × OrderBook F
  update_order_book f (reset_order_book bids asks to_merge product_id sequence) book =
      (true, merge_changes f to_merge (init bids asks book))
  update_order_book f (opened id price size side product_id sequence) book =
      update_opened id price size side book
  update_order_book f (done id side product_id sequence) book = update_done id side book
  update_order_book f (matched maker taker price size side product_id sequence) book =
      update_matched f maker taker size side book
  update_order_book f (changed id price size side product_id sequence) book =
      update_changed id size side book

  -- `for(const auto& pc: m_toMerge) pc->updateOrderBook(orderBook);`
  pub merge_changes : {F : Type 0} → Floating F → Changes F → OrderBook F → OrderBook F
  merge_changes f nil book = book
  merge_changes f (cons pc pcs) book = merge_changes f pcs (update_order_book f pc book).1
