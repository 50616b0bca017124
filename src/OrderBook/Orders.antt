-- ===== src/OrderBook/Orders.antt =====
-- include/Order.hpp, src/Order.cpp, and the searches that OrderBook makes in a vector of orders:
-- `std::find_if` by order id, `erase` of what it found, a write to what it found.
use quote_server.Base.{
  String, ◌≡◌, refl, Bool, ◌&&◌, Option, none, some, List, [], ◌∷◌, ◌++◌, arith, ◌==◌, eq_iff,
  if◌then◌else◌,
}
use quote_server.Base.Floating.{Floating}
use mathlib.Core.Option

pub record Order (F : Type 0) : Type 0 where
  pub price : F
  pub size : F
  pub order_id : String

-- `operator==`
unfoldable pub same_order : {F : Type 0} ⦃f : Floating F⦄ → Order F → Order F → Bool
same_order ⦃f⦄ lhs rhs =
    f.same lhs.price rhs.price && f.same lhs.size rhs.size && lhs.order_id == rhs.order_id

module _ {F : Type 0} where
  -- `std::find_if(v.begin(), v.end(), [&](const Order& o){ return o.order_id == id; })`
  unfoldable pub find_order : String → List (Order F) → Option (Order F)
  find_order id [] = none
  find_order id (o ∷ os) = if o.order_id == id then some o else find_order id os

  -- `v.erase(it)` at the iterator that `find_if` returned
  unfoldable pub erase_order : String → List (Order F) → List (Order F)
  erase_order id [] = []
  erase_order id (o ∷ os) = if o.order_id == id then os else o ∷ erase_order id os

  -- a write through that iterator
  unfoldable pub write_order : String → (Order F → Order F) → List (Order F) → List (Order F)
  write_order id write [] = []
  write_order id write (o ∷ os) =
      if o.order_id == id then write o ∷ os else o ∷ write_order id write os

  -- No two orders of a vector have one id.
  abbrev pub UniqueIds : List (Order F) → Type 0
  UniqueIds [] = Unit {0}
  UniqueIds (o ∷ os) = (find_order o.order_id os ≡ none) × UniqueIds os

  abbrev pub or_first : Option (Order F) → Option (Order F) → Option (Order F)
  or_first none o = o
  or_first (some p) o = some p

  pub find_order-append :
      (id : String) (xs ys : List (Order F))
      → find_order id (xs ++ ys) ≡ or_first (find_order id xs) (find_order id ys)
  unfolding find_order
  find_order-append id [] ys = refl
  find_order-append id (o ∷ os) ys = ground (arith, find_order-append id os ys)

  pub find_order-erase_ne :
      (id other : String) (os : List (Order F))
      → (id == other) ≡ Bool.false
      → find_order other (erase_order id os) ≡ find_order other os
  unfolding find_order erase_order
  find_order-erase_ne id other [] h = refl
  find_order-erase_ne id other (o ∷ os) h = ground (
    arith,
    eq_iff o.order_id id,
    eq_iff o.order_id other,
    eq_iff id other,
    find_order-erase_ne id other os h,
  )

  pub find_order-erase_self :
      (id : String) (os : List (Order F)) → UniqueIds os → find_order id (erase_order id os) ≡ none
  unfolding find_order erase_order
  find_order-erase_self id [] u = refl
  find_order-erase_self id (o ∷ os) u =
      ground (arith, eq_iff o.order_id id, find_order-erase_self id os u.1)

  -- A write that keeps the id is seen by the search for that id, and by no other.
  pub find_order-write :
      (id other : String) (write : Order F → Order F) (os : List (Order F))
      → ((o : Order F) → (write o).order_id ≡ o.order_id)
      → find_order other (write_order id write os)
        ≡ (if id == other then Option.map write (find_order other os) else find_order other os)
  unfolding find_order write_order
  find_order-write id other write [] h = ground arith
  find_order-write id other write (o ∷ os) h = ground (
    arith,
    h o,
    eq_iff o.order_id id,
    eq_iff o.order_id other,
    eq_iff id other,
    find_order-write id other write os h,
  )

  -- Nothing is erased where nothing is found.
  pub erase_order-missing :
      (id : String) (os : List (Order F)) → find_order id os ≡ none → erase_order id os ≡ os
  unfolding find_order erase_order
  erase_order-missing id [] h = refl
  erase_order-missing id (o ∷ os) h = ground (arith, erase_order-missing id os)

  pub erase_order-last :
      (o : Order F) (os : List (Order F))
      → find_order o.order_id os ≡ none
      → erase_order o.order_id (os ++ o ∷ []) ≡ os
  unfolding find_order erase_order
  erase_order-last o [] h = ground (arith, eq_iff o.order_id o.order_id)
  erase_order-last o (p ∷ os) h = ground (arith, erase_order-last o os)
