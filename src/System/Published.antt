-- ===== src/System/Published.antt =====
-- What a round of the market publishes of a product whose queued changes each lead to a book that the
-- exchange has had.
use mathlib.Core.Option
use mathlib.Core.List.{append_assoc}
use mathlib.Core.Path.{subst}
use quote_server.Base.{
  Bool, String, ◌≡◌, refl, sym, ◌∙◌, inl, inr, Option-cases, some, List, [], ◌∷◌, ◌++◌, All, arith,
  Bool-cases, if◌then◌else◌, ◌==◌, eq_iff,
}
use quote_server.Base.Dict
use quote_server.Base.Dict.{Dict, find-assign}
use quote_server.Base.Floating.{Floating}
use quote_server.OrderBook.{OrderBook}
use quote_server.ProductChange.{ProductChange, update_order_book}
use quote_server.Product.{Product, on_product_changes}
use quote_server.Product.Batches.{books, on_product_changes-publishes}
use quote_server.Market.{update_product, update_products}
use quote_server.Market.Changes.{only_runs}
use quote_server.System.Synced.{All-append}

find-update_product :
    {F : Type 0} (f : Floating F) (k j : String) (pcs : List (ProductChange F))
    (products : Dict (Product F))
    → Dict.find k (update_product f (j, pcs) products) ≡ (
        if j == k
        then Option.map (on_product_changes f pcs) (Dict.find k products)
        else Dict.find k products)
unfolding update_product
find-update_product f k j pcs products = elim (Option-cases (Dict.find j products)) [
  | inl missing ↦ ground (arith, eq_iff j k)
  | inr (p, there) ↦
      ground (arith, find-assign k j (on_product_changes f pcs p) products, eq_iff j k)
]

module _ {F : Type 0} (f : Floating F) (Good : OrderBook F → Type 0) where
  -- Each of the changes, one after the other, leaves a good book.
  abbrev pub Tracks : OrderBook F → List (ProductChange F) → Type 0
  Tracks book [] = Unit
  Tracks book (pc ∷ pcs) =
      Good (update_order_book f pc book).1 × Tracks (update_order_book f pc book).1 pcs

  pub Tracks-append :
      (book : OrderBook F) (xs ys : List (ProductChange F))
      → Tracks book xs
      → Tracks (books f xs book) ys
      → Tracks book (xs ++ ys)
  Tracks-append book [] ys h k = k
  Tracks-append book (x ∷ xs) ys h k =
      (h.0, Tracks-append (update_order_book f x book).1 xs ys h.1 k)

  Tracks-after :
      (book : OrderBook F) (xs ys : List (ProductChange F))
      → Tracks book (xs ++ ys)
      → Tracks (books f xs book) ys
  Tracks-after book [] ys h = h
  Tracks-after book (x ∷ xs) ys h = Tracks-after (update_order_book f x book).1 xs ys h.1

  Tracks-last :
      (book : OrderBook F) (x : ProductChange F) (xs ys : List (ProductChange F))
      → Tracks book (x ∷ (xs ++ ys))
      → Good (books f (x ∷ xs) book)
  Tracks-last book x [] ys h = h.0
  Tracks-last book x (y ∷ xs) ys h = Tracks-last (update_order_book f x book).1 y xs ys h.1

  -- A product with good books only, for which changes wait.
  pub record IsPublic (p : Product F) (waiting : List (ProductChange F)) : Type 0 where
    pub tracks : Tracks p.order_book waiting
    pub published : All Good p.published

  batch-IsPublic :
      (p : Product F) (xs ys : List (ProductChange F))
      → IsPublic p (xs ++ ys)
      → IsPublic (on_product_changes f xs p) ys
  unfolding on_product_changes
  batch-IsPublic p [] ys h = h
  batch-IsPublic p (x ∷ xs) ys h =
      subst (λ q. IsPublic q ys) (sym (on_product_changes-publishes f x xs p))
        (record {
          tracks = Tracks-after p.order_book (x ∷ xs) ys h.tracks;
          published =
              All-append Good p.published (books f (x ∷ xs) p.order_book ∷ []) h.published
                (Tracks-last p.order_book x xs ys h.tracks, tt);
        })

  -- `waiting` are the changes that are queued beside those that the round applies.
  pub update_products-IsPublic :
      (k : String) (rs : List (String × List (ProductChange F))) (waiting : List (ProductChange F))
      (products : Dict (Product F)) (p : Product F)
      → Dict.find k products ≡ some p
      → IsPublic p (only_runs k rs ++ waiting)
      → (q : Product F) × (Dict.find k (update_products f rs products) ≡ some q)
        × IsPublic q waiting
  unfolding update_products
  update_products-IsPublic k [] waiting products p there h = (p, there, h)
  update_products-IsPublic k ((j, pcs) ∷ rs) waiting products p there h =
      let split = λ (b : Bool).
        IsPublic p ((if b then pcs ++ only_runs k rs else only_runs k rs) ++ waiting) in
      elim (Bool-cases (j == k)) [
        | inl same ↦
            update_products-IsPublic k rs waiting (update_product f (j, pcs) products)
              (on_product_changes f pcs p)
              (find-update_product f k j pcs products ∙ rw (same, there) refl)
              (batch-IsPublic p pcs (only_runs k rs ++ waiting) (
                subst (IsPublic p) (append_assoc pcs (only_runs k rs) waiting)
                  (subst split same h)))
        | inr other ↦
            update_products-IsPublic k rs waiting (update_product f (j, pcs) products) p
              (find-update_product f k j pcs products ∙ rw (other, there) refl)
              (subst split other h)
      ]
