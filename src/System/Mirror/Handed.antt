-- ===== src/System/Mirror/Handed.antt =====
-- What one message that is handed on, and a round of the market, make of the product in the market.
use mathlib.Core.Option
use mathlib.Core.Path.{subst}
use text.Mathlib.TextPositions.{eq_refl}
use quote_server.Base.{
  String, ℕ, suc, ◌+◌, ◌<◌, ◌≡◌, refl, sym, ap, ◌∙◌, inl, inr, Option, none, some, List, [], ◌∷◌,
  ◌++◌, ok, arith, somes, ok-injective, some-injective, if◌then◌else◌,
}
use quote_server.Base.Floating.{Floating}
use quote_server.Json.{Json, JsonLaws}
use quote_server.OrderBook.{OrderBook}
use quote_server.ProductChange.{ProductChange}
use quote_server.Product.Batches.{books}
use quote_server.FeedProduct.{ulong_mod}
use quote_server.FeedMessageHandler.{get_product_change}
use quote_server.Market.{Market, Arrangement, apply_changes}
use quote_server.Market.Changes.{
  only, only_runs, book_of, book_of-update_products, map-books-append,
}
use quote_server.System.Exchange.{Exchange, change, book_at, book_after, book_after-suc}
use quote_server.System.Merging.Reading.{Carries-read, Carries-book, message-read}
use quote_server.System.Pipeline.{handle_messages}
use quote_server.System.Replayed.{keyed, queued, only-append, only-keyed, handle_messages-queued}
use quote_server.System.Synced.{Next}
use quote_server.System.Published.{IsPublic, Tracks, Tracks-append, update_products-IsPublic}
use quote_server.Market.{runs}
use quote_server.Market.Changes.{only_runs-runs}
use quote_server.System.Mirror.Kept.{front}
use quote_server.System.Mirror.{IsExchangeBook, IsPosted, book_to_be}

module _ {J F : Type 0} ⦃json : Json J⦄ ⦃f : Floating F⦄ (laws : JsonLaws json)
    (ex : Exchange json f) (fuel : ℕ) where
  -- A message that may be handled moves the book as far as it says.
  Next-moves :
      (at : Option (ℕ × ℕ)) (x : J) (s d : ℕ)
      → s + d < ulong_mod
      → Next ex at x s d
      → (pc : Option (ProductChange F)) × (get_product_change (suc (suc fuel)) ex.product_id x
          ≡ ok pc)
        × (books f (somes (pc ∷ [])) (book_at ex at) ≡ book_after ex s d)
  Next-moves at x s d bound (inl carries) = (
    _,
    Carries-read laws ex fuel s s x d (omega arith) bound carries,
    Carries-book laws ex s d (book_at ex at),
  )
  Next-moves at x s d bound (inr (k, before, one_more, same)) = (
    change ex (suc (s + k)),
    ap (get_product_change (suc (suc fuel)) ex.product_id) same
        ∙ message-read laws ex (suc fuel) (suc (s + k)) (omega arith),
    ap (λ o. books f (somes (change ex (suc (s + k)) ∷ [])) (book_at ex o)) before
        ∙ sym (book_after-suc ex s k)
        ∙ ap (book_after ex s) (sym one_more),
  )

module _ {J F D : Type 0} ⦃json : Json J⦄ ⦃f : Floating F⦄ (ex : Exchange json f) where
  -- What is queued of the product once more is queued.
  own_changes :
      (pcs : List (Option (ProductChange F))) (m : Market F D)
      → only ex.product_id (queued ex.product_id pcs m).product_changes
        ≡ only ex.product_id m.product_changes ++ somes pcs
  own_changes pcs m =
      only-append ex.product_id m.product_changes (keyed ex.product_id (somes pcs))
      ∙ ap (λ l. only ex.product_id m.product_changes ++ l)
          (only-keyed ex.product_id ex.product_id (somes pcs)
            ∙ ap (λ b. if b then somes pcs else []) (eq_refl ex.product_id))

module _ {J F : Type 0} ⦃json : Json J⦄ ⦃f : Floating F⦄ (ex : Exchange json f) where
  last_tracked :
      (pc : Option (ProductChange F)) (book : OrderBook F) (s d : ℕ)
      → books f (somes (pc ∷ [])) book ≡ book_after ex s d
      → Tracks f (IsExchangeBook ex) book (somes (pc ∷ []))
  last_tracked none book s d e = tt
  last_tracked (some pc) book s d e = ((s, d, e), tt)

module _ {J F D : Type 0} ⦃json : Json J⦄ ⦃f : Floating F⦄ (laws : JsonLaws json)
    (ex : Exchange json f) (fuel : ℕ) where
  pub handed-stored :
      (at : Option (ℕ × ℕ)) (x : J) (s d : ℕ) (m m' : Market F D)
      → s + d < ulong_mod
      → Next ex at x s d
      → handle_messages (suc (suc fuel)) ex.product_id (x ∷ []) m ≡ ok m'
      → book_to_be ex m ≡ some (book_at ex at)
      → book_to_be ex m' ≡ some (book_after ex s d)
  handed-stored at x s d m m' bound step e h =
      let (pc, read, moved) = Next-moves laws ex fuel at x s d bound step in
      let (pcs, all, same) =
        handle_messages-queued (suc (suc fuel)) ex.product_id (x ∷ []) m m' e in
      let one : pc ∷ [] ≡ pcs = ok-injective (sym (rw read refl) ∙ all) in
      ap (book_to_be ex) same
      ∙ ap (λ l. Option.map (books f l) (book_of ex.product_id m.products)) (own_changes ex pcs m)
      ∙ sym (
          map-books-append f (only ex.product_id m.product_changes) (somes pcs)
            (book_of ex.product_id m.products))
      ∙ ap (Option.map (books f (somes pcs))) h
      ∙ ap (λ l. some (books f (somes l) (book_at ex at))) (sym one)
      ∙ ap some moved

  pub hands-IsPosted :
      (at : Option (ℕ × ℕ)) (x : J) (s d : ℕ) (m m' : Market F D)
      → s + d < ulong_mod
      → Next ex at x s d
      → handle_messages (suc (suc fuel)) ex.product_id (x ∷ []) m ≡ ok m'
      → book_to_be ex m ≡ some (book_at ex at)
      → IsPosted ex m
      → IsPosted ex m'
  hands-IsPosted at x s d m m' bound step e stored h =
      let (pc, read, moved) = Next-moves laws ex fuel at x s d bound step in
      let (pcs, all, same) =
        handle_messages-queued (suc (suc fuel)) ex.product_id (x ∷ []) m m' e in
      let one : pc ∷ [] ≡ pcs = ok-injective (sym (rw read refl) ∙ all) in
      let book_now : books f (only ex.product_id m.product_changes) h.own.order_book
          ≡ book_at ex at =
        some-injective (rw h.there at stored) in
      subst (IsPosted ex) (sym same) (record {
        own = h.own;
        there = h.there;
        posted = record {
          tracks =
              subst (Tracks f (IsExchangeBook ex) h.own.order_book) (sym (own_changes ex pcs m)) (
                Tracks-append f (IsExchangeBook ex) h.own.order_book
                  (only ex.product_id m.product_changes) (somes pcs) h.posted.tracks
                  (subst (λ b. Tracks f (IsExchangeBook ex) b (somes pcs)) (sym book_now)
                    (subst (λ l. Tracks f (IsExchangeBook ex) (book_at ex at) (somes l)) one
                      (last_tracked ex pc (book_at ex at) s d moved))));
          published = h.posted.published;
        };
      })

module _ {J F D : Type 0} ⦃json : Json J⦄ ⦃f : Floating F⦄ (ex : Exchange json f)
    (arrange : Arrangement F) (taken : List (String × ProductChange F))
    (kept : only ex.product_id (arrange taken) ≡ only ex.product_id taken) where
  -- What the round hands the product, and then what is queued.
  round_changes :
      (m : Market F D)
      → only_runs ex.product_id (runs (arrange taken)) ++ only ex.product_id m.product_changes
        ≡ only ex.product_id (front taken m).product_changes
  round_changes m =
      ap (λ l. l ++ only ex.product_id m.product_changes)
        (only_runs-runs ex.product_id (arrange taken) ∙ kept)
      ∙ sym (only-append ex.product_id taken m.product_changes)

  -- A round in which the product's changes keep their order.
  pub applies-stored :
      (m : Market F D)
      → book_to_be ex (apply_changes f arrange taken m) ≡ book_to_be ex (front taken m)
  applies-stored m =
      ap (Option.map (books f (only ex.product_id m.product_changes)))
        (book_of-update_products f ex.product_id (runs (arrange taken)) m.products)
      ∙ map-books-append f (only_runs ex.product_id (runs (arrange taken)))
          (only ex.product_id m.product_changes) (book_of ex.product_id m.products)
      ∙ ap (λ l. Option.map (books f l) (book_of ex.product_id m.products)) (round_changes m)

  pub applies-IsPosted :
      (m : Market F D) → IsPosted ex (front taken m) → IsPosted ex (apply_changes f arrange taken m)
  applies-IsPosted m h =
      let (own, there, posted) =
        update_products-IsPublic f (IsExchangeBook ex) ex.product_id (runs (arrange taken))
          (only ex.product_id m.product_changes) m.products h.own h.there
          (subst (IsPublic f (IsExchangeBook ex) h.own) (sym (round_changes m)) h.posted) in
      record { own = own; there = there; posted = posted }
