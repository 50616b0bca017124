-- ===== src/FeedMessageHandler/Named.antt =====
-- The product id of the changes that src/coinbase/CoinbaseFeedMessageHandler.cpp reads of messages.
use quote_server.Base.{
  String, ℕ, zero, suc, ◌≡◌, refl, sym, ap, ◌∙◌, Bool, true, false, Option, none, some, List,
  Result, ok, err, ◌>>=◌, if◌then◌else◌, ok-injective, some-injective,
}
use quote_server.Base.Floating.{Floating}
use quote_server.Json.{Json}
use quote_server.OrderBook.{Order, Side}
use quote_server.ProductChange.{
  ProductChange, reset_order_book, opened, done, matched, changed, Changes, get_product_id,
}
use quote_server.FeedMessageHandler.{
  opened_of, done_of, matched_of, changed_of, typed_change, full_book, get_product_change,
}

module _ {F : Type 0} (product_id : String) where
  -- What is given, if anything is, is a change of the product.
  record NamesChange (r : Result (ProductChange F)) : Type 0 where
    named_change : (pc : ProductChange F) → r ≡ ok pc → get_product_id pc ≡ product_id

  record Names (r : Result (Option (ProductChange F))) : Type 0 where
    named : (pc : ProductChange F) → r ≡ ok (some pc) → get_product_id pc ≡ product_id

  NamesChange-bind {ℓ} :
      {A : Type ℓ} (r : Result A) (k : A → Result (ProductChange F))
      → ((a : A) → NamesChange (k a))
      → NamesChange (r >>= k)
  NamesChange-bind (ok a) k h = h a
  NamesChange-bind (err e) k h = record { named_change = λ pc e. cc }

  NamesChange-ok : (pc : ProductChange F) → get_product_id pc ≡ product_id → NamesChange (ok pc)
  NamesChange-ok pc e = record {
    named_change = λ pc' same. ap get_product_id (sym (ok-injective same)) ∙ e;
  }

  NamesChange-opened :
      (id : String) (p s : F) (side : Side) (n : ℕ)
      → NamesChange (ok (opened id p s side product_id n))
  unfolding get_product_id
  NamesChange-opened id p s side n = NamesChange-ok _ refl

  NamesChange-done :
      (id : String) (side : Side) (n : ℕ) → NamesChange (ok (done id side product_id n))
  unfolding get_product_id
  NamesChange-done id side n = NamesChange-ok _ refl

  NamesChange-matched :
      (maker taker : String) (p s : F) (side : Side) (n : ℕ)
      → NamesChange (ok (matched maker taker p s side product_id n))
  unfolding get_product_id
  NamesChange-matched maker taker p s side n = NamesChange-ok _ refl

  NamesChange-changed :
      (id : String) (p s : F) (side : Side) (n : ℕ)
      → NamesChange (ok (changed id p s side product_id n))
  unfolding get_product_id
  NamesChange-changed id p s side n = NamesChange-ok _ refl

  ruleset changes = (
    NamesChange-bind, NamesChange-opened, NamesChange-done, NamesChange-matched,
    NamesChange-changed,
  )

  Names-some : (r : Result (ProductChange F)) → NamesChange r → Names (do pc ← r; ok (some pc))
  Names-some (ok pc) h = record {
    named = λ pc' e. h.named_change pc' (ap ok (some-injective (ok-injective e)));
  }
  Names-some (err fault) h = record { named = λ pc e. cc }

  Names-none : Names (ok none)
  Names-none = record { named = λ pc e. cc }

  Names-bind {ℓ} :
      {A : Type ℓ} (r : Result A) (k : A → Result (Option (ProductChange F)))
      → ((a : A) → Names (k a))
      → Names (r >>= k)
  Names-bind (ok a) k h = h a
  Names-bind (err e) k h = record { named = λ pc e. cc }

  Names-if :
      (b : Bool) (r q : Result (Option (ProductChange F)))
      → Names r
      → Names q
      → Names (if b then r else q)
  Names-if true r q h k = h
  Names-if false r q h k = k

  Names-book :
      (bids asks : List (Order F)) (to_merge : Changes F) (n : ℕ)
      → Names (ok (some (reset_order_book bids asks to_merge product_id n)))
  unfolding get_product_id
  Names-book bids asks to_merge n = record {
    named = λ pc e. ap get_product_id (sym (some-injective (ok-injective e)));
  }

module _ {J F : Type 0} ⦃json : Json J⦄ ⦃f : Floating F⦄ (product_id : String) where
  opened_of-NamesChange : (jmsg : J) → NamesChange {F = F} product_id (opened_of product_id jmsg)
  unfolding opened_of
  opened_of-NamesChange jmsg = search changes depth 12

  done_of-NamesChange : (jmsg : J) → NamesChange {F = F} product_id (done_of product_id jmsg)
  unfolding done_of
  done_of-NamesChange jmsg = search changes depth 12

  matched_of-NamesChange : (jmsg : J) → NamesChange {F = F} product_id (matched_of product_id jmsg)
  unfolding matched_of
  matched_of-NamesChange jmsg = search changes depth 12

  changed_of-NamesChange : (jmsg : J) → NamesChange {F = F} product_id (changed_of product_id jmsg)
  unfolding changed_of
  changed_of-NamesChange jmsg = search changes depth 12

  ruleset results = (
    Names-none, Names-bind, Names-if, Names-book, Names-some, opened_of-NamesChange,
    done_of-NamesChange, matched_of-NamesChange, changed_of-NamesChange,
  )

  typed_change-Names :
      (type : String) (jmsg : J) → Names {F = F} product_id (typed_change type product_id jmsg)
  unfolding typed_change
  typed_change-Names type jmsg = search results depth 9

  full_book-Names :
      (change_of : J → Result (Option (ProductChange F))) (jmsg : J)
      → Names {F = F} product_id (full_book change_of product_id jmsg)
  unfolding full_book
  full_book-Names change_of jmsg = search results depth 12

  ruleset readings = (results, typed_change-Names, full_book-Names)

  get_product_change-Names :
      (fuel : ℕ) (jmsg : J) → Names {F = F} product_id (get_product_change fuel product_id jmsg)
  unfolding get_product_change
  get_product_change-Names zero jmsg = record { named = λ pc e. cc }
  get_product_change-Names (suc fuel) jmsg = search readings depth 9

  pub get_product_change-named :
      (fuel : ℕ) (jmsg : J) (pc : ProductChange F)
      → get_product_change fuel product_id jmsg ≡ ok (some pc)
      → get_product_id pc ≡ product_id
  get_product_change-named fuel jmsg pc e = (get_product_change-Names fuel jmsg).named pc e
