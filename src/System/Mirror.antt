-- ===== src/System/Mirror.antt =====
-- The book of a product against the exchange, from its subscription on: what is known of it in every
-- state. Books has what follows.
pub mod Handed
pub mod Kept
pub mod Books
use mathlib.Core.Option
use mathlib.Core.Path.{subst}
use mathlib.Core.List.{append-nil}
use text.Mathlib.TextPositions.{eq_refl}
use quote_server.Base.{
  String, ℕ, suc, ◌+◌, ◌<◌, ◌≤◌, ◌≡◌, refl, sym, ap, ◌∙◌, inl, inr, true, false, not, ◌||◌, Option,
  none, some, List, [], ◌∷◌, ◌++◌, ok, arith, somes, map_results, nat_eq, ok-injective, >>=-eq-ok,
  Bool-cases, if◌then◌else◌, ◌==◌,
}
use quote_server.Base.Floating.{Floating}
use quote_server.Json.{Json, JsonLaws}
use quote_server.OrderBook.{OrderBook, empty_book}
use quote_server.ProductChange.{ProductChange}
use quote_server.Product.Batches.{books}
use quote_server.FeedProduct.{
  FeedProduct, ulong_mod, running, new_feed_product, message_loop, destroy, install_book,
  install_or_give_up, request_full_order_book_impl, give_up,
}
use quote_server.FeedProduct.Steps
use quote_server.FeedProduct.Steps.{IsJoinable, Step-IsJoinable}
use quote_server.FeedProduct.Progress.{requesting-running}
use quote_server.FeedMessageHandler.{get_product_change}
use quote_server.Market.{Market, Arrangement, process_product_changes}
use quote_server.Market.Changes.{
  only, book_of, process_product_changes-books, map-books-append, map-books-nil,
}
use quote_server.System.Exchange.{
  Exchange, message, change, full_book_message, book_at, book_after, book_after-suc,
}
use quote_server.System.Fed.{IsFed, receive-IsFed, lose-IsFed}
use quote_server.System.Installed.{respond-IsFed, fail-IsFed, destroy-IsFed, take-IsFed}
use quote_server.System.Line.{
  Line, Step, receives, loses, responds, fails, takes, hands, closes, Reach, start, more,
}
use quote_server.System.Merging.{Carries, bare}
use quote_server.System.Merging.Reading.{Carries-sequence, Carries-read, Carries-book, message-read}
use quote_server.System.Pipeline.{taken, handle_messages}
use quote_server.System.Replayed.{keyed, queued, only-append, only-keyed, handle_messages-queued}
use quote_server.System.Synced.{Next, InSync}
use quote_server.Base.Dict
use quote_server.Product.{Product, new_product}
use quote_server.System.Mirror.Kept.{front}
use quote_server.System.Published.{IsPublic, Tracks, Tracks-append, update_products-IsPublic}

module _ {J F : Type 0} ⦃json : Json J⦄ ⦃f : Floating F⦄ (ex : Exchange json f) where
  -- A book that the exchange has had, as the program reads it.
  abbrev pub IsExchangeBook : OrderBook F → Type 0
  IsExchangeBook book = (s : ℕ) × (d : ℕ) × (book ≡ book_after ex s d)

module _ {J F D : Type 0} ⦃json : Json J⦄ ⦃f : Floating F⦄ (ex : Exchange json f) where
  -- The book of the product in the market, with the changes that are queued for it.
  abbrev pub book_to_be : Market F D → Option (OrderBook F)
  book_to_be m =
      Option.map (books f (only ex.product_id m.product_changes)) (book_of ex.product_id m.products)

  -- The product is there, and has published such books only, as it will of the changes that wait.
  pub record IsPosted (m : Market F D) : Type 0 where
    pub own : Product F
    pub there : Dict.find ex.product_id m.products ≡ some own
    pub posted : IsPublic f (IsExchangeBook ex) own (only ex.product_id m.product_changes)

  pub record IsMirror (l : Line J F D) : Type 0 where
    pub at : Option (ℕ × ℕ)
    pub ahead : Option (ℕ × ℕ)
    pub stored : book_to_be (front l.in_round l.market) ≡ some (book_at ex at)
    pub held : InSync ex at l.in_hand ahead
    pub fed : IsFed ex l.product ahead l.sent l.needed
    pub joinable : IsJoinable l.product
    pub market : IsPosted (front l.in_round l.market)

  -- A product that has just been subscribed, its book, and no change of it that is queued or in a
  -- round, as an earlier subscription may leave.
  pub record IsFresh (l : Line J F D) : Type 0 where
    pub product : l.product ≡ new_feed_product ex.product_id
    pub in_hand : l.in_hand ≡ []
    pub bound : suc l.sent < ulong_mod
    pub needed : l.needed ≡ l.sent
    pub changes : only ex.product_id (front l.in_round l.market).product_changes ≡ []
    pub there : Dict.find ex.product_id l.market.products ≡ some (new_product ex.product_id)

  pub IsFresh-IsMirror : (l : Line J F D) → IsFresh l → IsMirror l
  unfolding new_feed_product new_product
  IsFresh-IsMirror l h = record {
    at = none;
    ahead = none;
    stored = rw (h.changes, h.there) refl;
    held = rw h.in_hand refl;
    fed = record {
      bound = h.bound;
      settled = λ idle. absurd (let p = h.product in ground arith);
      waiting = λ busy. (
        [],
        0,
        ap (λ (p : FeedProduct J). p.message_queue) h.product,
        let e = h.needed in omega arith,
        tt,
      );
    };
    joinable = λ idle. absurd (let p = h.product in ground arith);
    market = record {
      own = new_product ex.product_id;
      there = h.there;
      posted = rw h.changes (record { tracks = tt; published = tt });
    };
  }
