-- ===== src/System/Merging/Reading.antt =====
-- What the handler reads of a full book into which messages were put, and what it makes of a book.
use quote_server.Base.{
  String, ℕ, zero, suc, ◌+◌, ◌<◌, ◌≡◌, refl, ap, ◌∙◌, inl, inr, true, false, some, List, [], ◌∷◌,
  ◌++◌, map, Result, ok, map_results, somes, arith, ◌==◌, push_all, push_all-eq-append,
  ok-injective, >>=-eq-ok,
}
use quote_server.Base.Dict.{find}
use quote_server.Base.Floating.{Floating}
use quote_server.Json.{Json, JsonLaws, ulong_at, ulong_member}
use quote_server.OrderBook.{Order, OrderBook, init}
use quote_server.ProductChange.{
  ProductChange, reset_order_book, to_changes, update_order_book, merge_changes,
}
use quote_server.Product.Batches.{books}
use quote_server.FeedProduct.{ulong_mod}
use quote_server.FeedMessageHandler.{get_product_change, full_book, merged_changes, order_of}
use quote_server.FeedMessageHandler.Decode.{
  get_product_change-event, rows-orders, first_level, event-sequence,
}
use quote_server.FeedMessageHandler.Wire.{order_row}
use quote_server.System.Exchange.{
  Exchange, message, change, changes, messages, book_fields, book_after,
}
use quote_server.System.Merging.{Carries, Holds, contains-Carries, at-Carries, Carries-Holds}

map_results-append {ℓ κ} :
    {A : Type ℓ} {B : Type κ} (g : A → Result B) (xs ys : List A) (us vs : List B)
    → map_results g xs ≡ ok us
    → map_results g ys ≡ ok vs
    → map_results g (xs ++ ys) ≡ ok (us ++ vs)
map_results-append g [] ys us vs e h = h ∙ ap (λ l. ok (l ++ vs)) (ok-injective e)
map_results-append g (x ∷ xs) ys us vs e h =
    let (u, first, rest) = >>=-eq-ok (g x) _ e in
    let (ws, others, done) = >>=-eq-ok (map_results g xs) _ rest in
    rw (first, map_results-append g xs ys ws vs others h)
      (ap (λ l. ok (l ++ vs)) (ok-injective done))

merge_changes-books :
    {F : Type 0} (f : Floating F) (pcs : List (ProductChange F)) (book : OrderBook F)
    → merge_changes f (to_changes pcs) book ≡ books f pcs book
unfolding to_changes update_order_book
merge_changes-books f [] book = refl
merge_changes-books f (pc ∷ pcs) book = merge_changes-books f pcs (update_order_book f pc book).1

module _ {J F : Type 0} ⦃json : Json J⦄ ⦃f : Floating F⦄ (laws : JsonLaws json)
    (ex : Exchange json f) where
  pub message-read :
      (fuel n : ℕ)
      → n < ulong_mod
      → get_product_change (suc fuel) ex.product_id (message ex n) ≡ ok (change ex n)
  message-read fuel n bound =
      get_product_change-event laws ex.show ex.stod-show ex.further ex.plain fuel ex.product_id
        (ex.events n) (rw ex.numbered bound)

  messages-read :
      (fuel a d : ℕ)
      → a + d < ulong_mod
      → map_results (get_product_change (suc fuel) ex.product_id) (messages ex a d)
        ≡ ok (changes ex a d)
  messages-read fuel a zero bound = refl
  messages-read fuel a (suc d) bound =
      map_results-append (get_product_change (suc fuel) ex.product_id) (messages ex a d)
        (message ex (suc (a + d)) ∷ []) (changes ex a d) (change ex (suc (a + d)) ∷ [])
        (messages-read fuel a d (omega arith)) (rw (message-read fuel (suc (a + d)) (omega arith)))

  merged_changes-Holds :
      (fuel a : ℕ) (b : J) (d : ℕ)
      → a + d < ulong_mod
      → Holds ex a b d
      → merged_changes (get_product_change (suc fuel) ex.product_id) b ≡ ok (somes (changes ex a d))
  unfolding merged_changes
  merged_changes-Holds fuel a b d bound (inl (missing, none_put)) = rw (missing, none_put)
  merged_changes-Holds fuel a b d bound (inr (v, present, there, all)) =
      rw (present, there, all, messages-read fuel a d bound)

  rows :
      (os : List (Order F))
      → map_results order_of (json.elements (json.array (map (order_row json ex.show) os))) ≡ ok os
  rows os = rw (laws.elements-array) (rows-orders laws ex.show ex.stod-show ex.further ex.plain os)

  at-book :
      (s a d : ℕ) (b : J) (key : String) (value : J)
      → Carries ex s a b d
      → ("to_merge" == key) ≡ false
      → find key (book_fields ex s) ≡ some value
      → json.at b key ≡ ok value
  at-book s a d b key value h ne there =
      at-Carries laws ex s a b d key h ne ∙ laws.at-object (book_fields ex s) key value there

  -- A full book with messages put into it is read as a reset to its orders and to the changes that the
  -- messages stand for.
  pub Carries-read :
      (fuel s a : ℕ) (b : J) (d : ℕ)
      → s < ulong_mod
      → a + d < ulong_mod
      → Carries ex s a b d
      → get_product_change (suc (suc fuel)) ex.product_id b
        ≡ ok (
            some (
              reset_order_book
                (ex.bids s)
                (ex.asks s)
                (to_changes (somes (changes ex a d)))
                ex.product_id
                s))
  unfolding find full_book
  Carries-read fuel s a b d low bound h =
      first_level laws ex.show ex.stod-show ex.further ex.plain (suc fuel) ex.product_id b
        (contains-Carries laws ex s a b d "bids" h refl
          ∙ laws.contains-object (book_fields ex s) "bids")
        (contains-Carries laws ex s a b d "asks" h refl
          ∙ laws.contains-object (book_fields ex s) "asks")
      ∙ simp (
        at-book s a d b "asks" (json.array (map (order_row json ex.show) (ex.asks s))) h refl refl,
        at-book s a d b "bids" (json.array (map (order_row json ex.show) (ex.bids s))) h refl refl,
        at-book s a d b "sequence" (json.number s) h refl refl,
        rows (ex.asks s),
        rows (ex.bids s),
        merged_changes-Holds fuel a b d bound (Carries-Holds laws ex s a b d h),
        laws.get_ulong-number s low,
      )

  -- Such a book takes the place of whatever book there was.
  pub Carries-book :
      (s d : ℕ) (book : OrderBook F)
      → (update_order_book f
          (reset_order_book
            (ex.bids s)
            (ex.asks s)
            (to_changes (somes (changes ex s d)))
            ex.product_id
            s)
          book).1
        ≡ book_after ex s d
  unfolding update_order_book book_after init
  Carries-book s d book =
      merge_changes-books f (somes (changes ex s d)) (init (ex.bids s) (ex.asks s) book)
      ∙ ap (books f (somes (changes ex s d))) (
          ap (λ l. record { bids = l; asks = push_all [] (ex.asks s) })
            (push_all-eq-append [] (ex.bids s))
          ∙ ap (λ l. record { bids = ex.bids s; asks = l }) (push_all-eq-append [] (ex.asks s)))

  -- The sequence number of such a book, and of a message.
  pub Carries-sequence :
      (s a : ℕ) (b : J) (d : ℕ)
      → s < ulong_mod
      → Carries ex s a b d
      → (json.contains b "sequence" ≡ true) × (ulong_member b "sequence" ≡ ok s)
  unfolding find
  Carries-sequence s a b d bound h =
      let there =
        contains-Carries laws ex s a b d "sequence" h refl
        ∙ laws.contains-object (book_fields ex s) "sequence" in
      (
        there,
        rw
            (
              laws.member_present b "sequence" there,
              at-book s a d b "sequence" (json.number s) h refl refl,
            )
            (laws.get_ulong-number s bound),
      )

  pub message-sequence :
      (n : ℕ)
      → n < ulong_mod
      → (json.contains (message ex n) "sequence" ≡ true)
        × (ulong_member (message ex n) "sequence" ≡ ok n)
        × (ulong_at (message ex n) "sequence" ≡ ok n)
  message-sequence n bound =
      let (there, read) =
        event-sequence laws ex.show ex.stod-show ex.further ex.plain ex.product_id (ex.events n) n
          (ex.numbered n) bound in
      (there, rw (laws.member_present (message ex n) "sequence" there) read, read)
