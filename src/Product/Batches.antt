-- ===== src/Product/Batches.antt =====
-- What a batch of changes does to a product, and that the way the feed is cut into batches changes
-- what is published, not where the book ends.
use quote_server.Base.{◌≡◌, refl, true, List, [], ◌∷◌, ◌++◌, ap, push_back, ◌∙◌, sym}
use quote_server.Base.Floating.{Floating}
use quote_server.OrderBook.{OrderBook}
use quote_server.ProductChange.{ProductChange, update_order_book}
use quote_server.ProductChange.Refines.{update_order_book-true}
use quote_server.Product.{Product, update_all, on_product_changes}

-- The book after the changes, one by one.
abbrev pub books : {F : Type 0} → Floating F → List (ProductChange F) → OrderBook F → OrderBook F
books f [] book = book
books f (pc ∷ pcs) book = books f pcs (update_order_book f pc book).1

module _ {F : Type 0} where
  update_all-true :
      (f : Floating F) (pcs : List (ProductChange F)) (book : OrderBook F)
      → update_all f pcs (true, book) ≡ (true, books f pcs book)
  unfolding update_all
  update_all-true f [] book = refl
  update_all-true f (pc ∷ pcs) book =
      rw (update_order_book-true f pc book) (update_all-true f pcs (update_order_book f pc book).1)

  -- A batch with a change in it moves the book through all its changes in order and publishes the
  -- book once, where it ends; the product's id and clients stay.
  pub on_product_changes-publishes :
      (f : Floating F) (pc : ProductChange F) (pcs : List (ProductChange F)) (p : Product F)
      → on_product_changes f (pc ∷ pcs) p ≡ record p {
        order_book = books f (pc ∷ pcs) p.order_book;
        published = push_back p.published (books f (pc ∷ pcs) p.order_book);
      }
  unfolding on_product_changes
  on_product_changes-publishes f pc pcs p = rw (
    update_order_book-true f pc p.order_book,
    update_all-true f pcs (update_order_book f pc p.order_book).1,
  )

  pub books-append :
      (f : Floating F) (xs ys : List (ProductChange F)) (book : OrderBook F)
      → books f (xs ++ ys) book ≡ books f ys (books f xs book)
  books-append f [] ys book = refl
  books-append f (x ∷ xs) ys book = books-append f xs ys (update_order_book f x book).1

  pub order_book-eq-books :
      (f : Floating F) (pcs : List (ProductChange F)) (p : Product F)
      → (on_product_changes f pcs p).order_book ≡ books f pcs p.order_book
  unfolding on_product_changes
  order_book-eq-books f [] p = refl
  order_book-eq-books f (pc ∷ pcs) p =
      ap (λ (q : Product F). q.order_book) (on_product_changes-publishes f pc pcs p)

  -- Two batches one after the other end in the book of the one batch that joins them.
  pub on_product_changes-append :
      (f : Floating F) (xs ys : List (ProductChange F)) (p : Product F)
      → (on_product_changes f ys (on_product_changes f xs p)).order_book
        ≡ (on_product_changes f (xs ++ ys) p).order_book
  on_product_changes-append f xs ys p =
      order_book-eq-books f ys (on_product_changes f xs p)
      ∙ ap (books f ys) (order_book-eq-books f xs p)
      ∙ sym (order_book-eq-books f (xs ++ ys) p ∙ books-append f xs ys p.order_book)
