-- ===== src/Market/Changes.antt =====
-- What one round of the loop does to the book of a product.
use mathlib.Core.Option
use mathlib.Core.List.{Permᴰ, cons≢nil, head-eq_of_cons-eq, tail-eq_of_cons-eq}
use mathlib.Core.Path.{ap₂}
use quote_server.Base.{
  String, ◌==◌, ◌≡◌, refl, sym, ap, ◌∙◌, true, Option, none, some, List, [], ◌∷◌, ◌++◌, arith,
  eq_iff, if◌then◌else◌, somes, inl, inr, Option-cases, Bool-cases,
}
use quote_server.Base.Dict
use quote_server.Base.Dict.{Dict, find-assign}
use quote_server.Base.Floating.{Floating}
use quote_server.OrderBook.{OrderBook}
use quote_server.ProductChange.{ProductChange}
use quote_server.Product.{Product, on_product_changes}
use quote_server.Product.Batches.{books, books-append, order_book-eq-books}
use quote_server.Market.{
  Market, Arrangement, runs, join, update_product, update_products, process_product_changes,
}

-- What stands under a key, in the order of the list.
abbrev pub only {ℓ} : {A : Type ℓ} → String → List (String × A) → List A
only k [] = []
only k ((j, a) ∷ xs) = if j == k then a ∷ only k xs else only k xs

abbrev pub only_runs {ℓ} : {A : Type ℓ} → String → List (String × List A) → List A
only_runs k [] = []
only_runs k ((j, as') ∷ rest) = if j == k then as' ++ only_runs k rest else only_runs k rest

only_runs-join {ℓ} :
    {A : Type ℓ} (k j : String) (a : A) (rs : List (String × List A))
    → only_runs k (join j a rs) ≡ (if j == k then a ∷ only_runs k rs else only_runs k rs)
only_runs-join k j a [] = refl
only_runs-join k j a ((i, as') ∷ rs) = ground (arith, eq_iff i j, eq_iff i k, eq_iff j k)

-- The runs lose nothing and keep the order under each key.
pub only_runs-runs {ℓ} :
    {A : Type ℓ} (k : String) (xs : List (String × A)) → only_runs k (runs xs) ≡ only k xs
unfolding runs
only_runs-runs k [] = refl
only_runs-runs k ((j, a) ∷ xs) = rw (only_runs-join k j a (runs xs), only_runs-runs k xs)

-- The book of a product, if the product is there.
abbrev pub book_of : {F : Type 0} → String → Dict (Product F) → Option (OrderBook F)
book_of k products = Option.map (λ p. p.order_book) (Dict.find k products)

module _ {F : Type 0} (f : Floating F) where
  book_of-update_product :
      (k j : String) (changes : List (ProductChange F)) (products : Dict (Product F))
      → book_of k (update_product f (j, changes) products)
        ≡ (if j == k then Option.map (books f changes) (book_of k products) else book_of k products)
  unfolding update_product
  book_of-update_product k j changes products = elim (Option-cases (Dict.find j products)) [
    | inl missing ↦ ground (arith, eq_iff j k)
    | inr (p, there) ↦ ground (
      arith,
      find-assign k j (on_product_changes f changes p) products,
      order_book-eq-books f changes p,
      eq_iff j k,
    )
  ]

  pub map-books-append :
      (xs ys : List (ProductChange F)) (o : Option (OrderBook F))
      → Option.map (books f ys) (Option.map (books f xs) o) ≡ Option.map (books f (xs ++ ys)) o
  map-books-append xs ys none = refl
  map-books-append xs ys (some book) = ap some (sym (books-append f xs ys book))

  pub map-books-nil : (o : Option (OrderBook F)) → o ≡ Option.map (books f []) o
  map-books-nil none = refl
  map-books-nil (some book) = refl

  pub book_of-update_products :
      (k : String) (rs : List (String × List (ProductChange F))) (products : Dict (Product F))
      → book_of k (update_products f rs products)
        ≡ Option.map (books f (only_runs k rs)) (book_of k products)
  unfolding update_products
  book_of-update_products k [] products = map-books-nil (book_of k products)
  book_of-update_products k ((j, changes) ∷ rs) products =
      let later = book_of-update_products k rs (update_product f (j, changes) products) in
      elim (Bool-cases (j == k)) [
        | inl same ↦ rw same (
            later
            ∙ ap (Option.map (books f (only_runs k rs)))
                (rw (book_of-update_product k j changes products) (rw same))
            ∙ map-books-append changes (only_runs k rs) (book_of k products))
        | inr other ↦ rw other (
            later
            ∙ ap (Option.map (books f (only_runs k rs)))
                (rw (book_of-update_product k j changes products) (rw other)))
      ]

module _ {F D : Type 0} (f : Floating F) where
  -- A round of a market that runs moves the book of every product through the changes queued for
  -- it, in the order in which the multimap is visited, however the changes of other products lie
  -- between them; and it leaves no change queued.
  pub process_product_changes-books :
      (arrange : Arrangement F) (m : Market F D) (k : String)
      → m.is_running ≡ true
      → (book_of k (process_product_changes f arrange m).products
          ≡ Option.map (books f (only k (arrange m.product_changes))) (book_of k m.products))
        × ((process_product_changes f arrange m).product_changes ≡ [])
  unfolding process_product_changes
  process_product_changes-books arrange m k runs_on = simp runs_on (
    book_of-update_products f k (runs (arrange m.product_changes)) m.products
        ∙ ap (λ changes. Option.map (books f changes) (book_of k m.products))
            (only_runs-runs k (arrange m.product_changes)),
    refl,
  )

-- A multimap hands out what is under a key in some order; a single change has only one.
nil_of_Perm {ℓ} : {A : Type ℓ} {xs ys : List A} → Permᴰ xs ys → ys ≡ [] → xs ≡ []
nil_of_Perm Permᴰ.nil e = refl
nil_of_Perm (Permᴰ.cons a p) e = absurd (cons≢nil e)
nil_of_Perm (Permᴰ.swap a b) e = absurd (cons≢nil e)
nil_of_Perm (Permᴰ.trans p q) e = nil_of_Perm p (nil_of_Perm q e)

one_of_Perm {ℓ} : {A : Type ℓ} {xs ys : List A} (a : A) → Permᴰ xs ys → ys ≡ a ∷ [] → xs ≡ a ∷ []
one_of_Perm a Permᴰ.nil e = e
one_of_Perm a (Permᴰ.cons {b = b} same p) e =
    ap₂ (λ x xs. x ∷ xs) (same ∙ head-eq_of_cons-eq e) (nil_of_Perm p (tail-eq_of_cons-eq e))
one_of_Perm a (Permᴰ.swap x y) e = absurd (cons≢nil (tail-eq_of_cons-eq e))
one_of_Perm a (Permᴰ.trans p q) e = one_of_Perm a p (one_of_Perm a q e)

pub at_most_one {ℓ} :
    {A : Type ℓ} {xs ys : List A} (o : Option A) → Permᴰ xs ys → ys ≡ somes (o ∷ []) → xs ≡ ys
at_most_one none p e = nil_of_Perm p e ∙ sym e
at_most_one (some a) p e = one_of_Perm a p e ∙ sym e
