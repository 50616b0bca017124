-- ===== src/System/Merging.antt =====
-- A full book of the exchange into which the request thread has put messages that come after it, as a
-- JSON value.
pub mod Reading
use mathlib.Core.Path.{subst}
use quote_server.Base.{
  String, ℕ, zero, suc, ◌+◌, ◌<◌, ◌≡◌, refl, sym, ap, ◌∙◌, ◌⊎◌, inl, inr, true, false, some, List,
  [], ◌∷◌, ◌++◌, map, Result, ok, map_results, somes, arith, ◌==◌, push_all, push_all-eq-append,
  ok-injective, >>=-eq-ok,
}
use quote_server.Base.Dict.{find}
use quote_server.Base.Floating.{Floating}
use quote_server.Json.{Json, JsonLaws, ulong_at, ulong_member}
use quote_server.OrderBook.{Order, OrderBook, init}
use quote_server.ProductChange.{
  ProductChange, reset_order_book, to_changes, update_order_book, merge_changes,
}
use quote_server.Product.Batches.{books}
use quote_server.FeedProduct.{ulong_mod}
use quote_server.FeedMessageHandler.{get_product_change, full_book, merged_changes, order_of}
use quote_server.FeedMessageHandler.Decode.{
  get_product_change-event, rows-orders, first_level, event-sequence,
}
use quote_server.FeedMessageHandler.Wire.{order_row}
use quote_server.System.Exchange.{
  Exchange, message, change, changes, messages, book_fields, full_book_message, book_after,
}

module _ {J F : Type 0} ⦃json : Json J⦄ ⦃f : Floating F⦄ (ex : Exchange json f) where
  -- `b` is the full book of number `s` with the messages of the `d` numbers after `a` put into it.
  pub data Carries (s a : ℕ) : J → ℕ → Type 0 where
    bare : {b : J} {d : ℕ} → b ≡ full_book_message ex s → d ≡ 0 → Carries s a b d
    merged :
        {b : J} {d : ℕ} (c : J) (k : ℕ)
        → Carries s a c k
        → json.append_to "to_merge" (message ex (suc (a + k))) c ≡ ok b
        → d ≡ suc k
        → Carries s a b d

  -- The messages that were put in, if any were, stand in order under one key.
  abbrev pub Holds : ℕ → J → ℕ → Type 0
  Holds a b d =
      ((json.contains b "to_merge" ≡ false) × (d ≡ 0))
      ⊎ ((v : J) × (json.contains b "to_merge" ≡ true)
          × (json.at b "to_merge" ≡ ok v)
          × (json.elements v ≡ messages ex a d))

module _ {J F : Type 0} ⦃json : Json J⦄ ⦃f : Floating F⦄ (laws : JsonLaws json)
    (ex : Exchange json f) where
  pub contains-Carries :
      (s a : ℕ) (b : J) (d : ℕ) (key : String)
      → Carries ex s a b d
      → ("to_merge" == key) ≡ false
      → json.contains b key ≡ json.contains (full_book_message ex s) key
  contains-Carries s a b d key (bare e z) ne = ap (λ j. json.contains j key) e
  contains-Carries s a b d key (merged c k h e z) ne =
      laws.contains-append_to "to_merge" key (message ex (suc (a + k))) c b e
      ∙ rw ne (contains-Carries s a c k key h ne)

  pub at-Carries :
      (s a : ℕ) (b : J) (d : ℕ) (key : String)
      → Carries ex s a b d
      → ("to_merge" == key) ≡ false
      → json.at b key ≡ json.at (full_book_message ex s) key
  at-Carries s a b d key (bare e z) ne = ap (λ j. json.at j key) e
  at-Carries s a b d key (merged c k h e z) ne =
      laws.at-append_to_ne "to_merge" key (message ex (suc (a + k))) c b e ne
      ∙ at-Carries s a c k key h ne

  Holds-append :
      (a : ℕ) (b c : J) (k : ℕ)
      → json.append_to "to_merge" (message ex (suc (a + k))) c ≡ ok b
      → Holds ex a c k
      → Holds ex a b (suc k)
  Holds-append a b c k e (inl (missing, first)) =
      let (v, there, only) =
        laws.at-append_to_new "to_merge" (message ex (suc (a + k))) c b e missing in
      inr (
        v,
        laws.contains-append_to "to_merge" "to_merge" (message ex (suc (a + k))) c b e,
        there,
        only ∙ subst (λ n. message ex (suc (a + n)) ∷ [] ≡ messages ex a (suc n)) (sym first) refl,
      )
  Holds-append a b c k e (inr (w, present, there, all)) =
      let (v, there', more) =
        laws.at-append_to_self "to_merge" (message ex (suc (a + k))) c b w e there in
      inr (
        v,
        laws.contains-append_to "to_merge" "to_merge" (message ex (suc (a + k))) c b e,
        there',
        more ∙ ap (λ l. l ++ message ex (suc (a + k)) ∷ []) all,
      )

  pub Carries-Holds : (s a : ℕ) (b : J) (d : ℕ) → Carries ex s a b d → Holds ex a b d
  unfolding find
  Carries-Holds s a b d (bare e z) =
      inl (rw e (laws.contains-object (book_fields ex s) "to_merge"), z)
  Carries-Holds s a b d (merged c k h e z) =
      subst (Holds ex a b) (sym z) (Holds-append a b c k e (Carries-Holds s a c k h))
