-- ===== src/ProductChange/Refines.antt =====
-- `updateOrderBook` against the abstract book of OrderBook/View: what each change does to the map,
-- which changes a book is ready for, and that the vectors follow the map.
use mathlib.Core.Path.{fun_ext, subst}
use quote_server.Base.{String, ◌≡◌, refl, none, List, ap, ◌∙◌, push_all-eq-append, [], sym, true}
use quote_server.Base.Floating.{Floating}
use quote_server.OrderBook.{Order, find_order, UniqueIds, Side, buy, sell, OrderBook, init, resize}
use quote_server.OrderBook.Unique.{
  IsUnique, init-IsUnique, add_order-IsUnique, remove_order-IsUnique, update_order-IsUnique,
  match_orders-IsUnique,
}
use quote_server.OrderBook.View.{
  BookMap, view, opposite, put, drop, rewrite, trade, view-add, view-remove, view-update,
  view-match,
}
use quote_server.ProductChange.{
  ProductChange, Changes, reset_order_book, opened, done, matched, changed, nil, cons,
  update_order_book, merge_changes,
}

-- The map that two lists of orders stand for.
abbrev pub snapshot : {F : Type 0} → List (Order F) → List (Order F) → BookMap F
snapshot bids asks buy id = find_order id bids
snapshot bids asks sell id = find_order id asks

-- What a change does to the map, and a vector of changes one after the other.
unfoldable mutual
  pub effect : {F : Type 0} → Floating F → ProductChange F → BookMap F → BookMap F
  effect f (reset_order_book bids asks to_merge product_id sequence) m =
      effects f to_merge (snapshot bids asks)
  effect f (opened id price size side product_id sequence) m =
      put side (record { price = price; size = size; order_id = id }) m
  effect f (done id side product_id sequence) m = drop (opposite side) id m
  effect f (matched maker taker price size side product_id sequence) m =
      trade ⦃f = f⦄ maker taker size side m
  effect f (changed id price size side product_id sequence) m =
      rewrite (opposite side) id (resize size) m

  pub effects : {F : Type 0} → Floating F → Changes F → BookMap F → BookMap F
  effects f nil m = m
  effects f (cons pc pcs) m = effects f pcs (effect f pc m)

-- An order that opens is new on its side; a full book has no id twice on a side.
unfoldable mutual
  pub Admits : {F : Type 0} → Floating F → ProductChange F → BookMap F → Type 0
  Admits f (reset_order_book bids asks to_merge product_id sequence) m =
      UniqueIds bids × UniqueIds asks × AdmitsAll f to_merge (snapshot bids asks)
  Admits f (opened id price size side product_id sequence) m = m side id ≡ none
  Admits f (done id side product_id sequence) m = Unit
  Admits f (matched maker taker price size side product_id sequence) m = Unit
  Admits f (changed id price size side product_id sequence) m = Unit

  pub AdmitsAll : {F : Type 0} → Floating F → Changes F → BookMap F → Type 0
  AdmitsAll f nil m = Unit
  AdmitsAll f (cons pc pcs) m = Admits f pc m × AdmitsAll f pcs (effect f pc m)

view-init :
    {F : Type 0} (bids asks : List (Order F)) (book : OrderBook F) (t : Side) (id : String)
    → view (init bids asks book) t id ≡ snapshot bids asks t id
unfolding init
view-init bids asks book buy id = ap (find_order id) (push_all-eq-append [] bids)
view-init bids asks book sell id = ap (find_order id) (push_all-eq-append [] asks)

abbrev Follows : {F : Type 0} → OrderBook F → BookMap F → Type 0
Follows book m = IsUnique book × (view book ≡ m)

pointwise : {F : Type 0} {m n : BookMap F} → ((t : Side) (id : String) → m t id ≡ n t id) → m ≡ n
pointwise h = fun_ext λ t. fun_ext λ id. h t id

mutual
  unfolding update_order_book effect Admits

  follows :
      {F : Type 0} (f : Floating F) (pc : ProductChange F) (book : OrderBook F)
      → IsUnique book
      → Admits f pc (view book)
      → Follows (update_order_book f pc book).1 (effect f pc (view book))
  follows f (reset_order_book bids asks to_merge product_id sequence) book u a =
      Follows-all f to_merge (init bids asks book) (snapshot bids asks)
        (init-IsUnique bids asks book a.0 a.1, pointwise (view-init bids asks book)) a.2
  follows f (opened id price size side product_id sequence) book u a = (
    add_order-IsUnique _ side book a u,
    pointwise
        (λ t k. view-add (record { price = price; size = size; order_id = id }) side t book k),
  )
  follows f (done id side product_id sequence) book u a =
      (remove_order-IsUnique id side book u, pointwise (λ t k. view-remove id side t book k u))
  follows f (matched maker taker price size side product_id sequence) book u a = (
    match_orders-IsUnique ⦃f = f⦄ maker taker size side book u,
    pointwise (λ t k. view-match ⦃f = f⦄ maker taker size side t book k),
  )
  follows f (changed id price size side product_id sequence) book u a = (
    update_order-IsUnique id size side book u,
    pointwise (λ t k. view-update id size side t book k),
  )

  Follows-all :
      {F : Type 0} (f : Floating F) (pcs : Changes F) (book : OrderBook F) (m : BookMap F)
      → Follows book m
      → AdmitsAll f pcs m
      → Follows (merge_changes f pcs book) (effects f pcs m)
  Follows-all f nil book m h a = h
  Follows-all f (cons pc pcs) book m h a =
      let step = follows f pc book h.0 (subst (Admits f pc) (sym h.1) a.0) in
      Follows-all f pcs (update_order_book f pc book).1 (effect f pc m)
        (step.0, step.1 ∙ ap (effect f pc) h.1) a.1

-- From a book with unique ids that is ready for a change, the change leaves a book with unique ids
-- whose map is what the change makes of the map before.
pub update_order_book-refines :
    {F : Type 0} (f : Floating F) (pc : ProductChange F) (book : OrderBook F)
    → IsUnique book
    → Admits f pc (view book)
    → IsUnique (update_order_book f pc book).1
      × (view (update_order_book f pc book).1 ≡ effect f pc (view book))
update_order_book-refines f pc book u a = follows f pc book u a

-- From a book with unique ids that is ready for each change of a full book's vector as it comes, the
-- loop over the vector leaves a book with unique ids whose map is what the changes, in order, make of
-- the map before.
pub merge_changes-refines :
    {F : Type 0} (f : Floating F) (pcs : Changes F) (book : OrderBook F)
    → IsUnique book
    → AdmitsAll f pcs (view book)
    → IsUnique (merge_changes f pcs book)
      × (view (merge_changes f pcs book) ≡ effects f pcs (view book))
merge_changes-refines f pcs book u a = Follows-all f pcs book (view book) (u, refl) a

-- Every change reports that it updated the book.
pub update_order_book-true :
    {F : Type 0} (f : Floating F) (pc : ProductChange F) (book : OrderBook F)
    → (update_order_book f pc book).0 ≡ true
unfolding update_order_book
update_order_book-true f (reset_order_book bids asks to_merge product_id sequence) book = refl
update_order_book-true f _ book = refl
