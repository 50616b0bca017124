-- ===== src/System/Exchange.antt =====
-- The exchange's side of one product, a description that is independent of the program: an event for
-- every sequence number, and for every number the full book that the exchange answers with.
use quote_server.Base.{
  String, ℕ, zero, suc, ◌+◌, ◌≡◌, refl, ap, ◌∙◌, Option, none, some, List, [], ◌∷◌, ◌++◌, map, ok,
  somes,
}
use quote_server.Base.Dict.{find}
use quote_server.Base.Floating.{Floating}
use quote_server.Json.{Json}
use quote_server.OrderBook.{Order, OrderBook, empty_book}
use quote_server.ProductChange.{ProductChange}
use quote_server.Product.Batches.{books, books-append}
use quote_server.FeedMessageHandler.Wire.{
  FeedEvent, event_change, sequence_of, event_message, order_row,
}

-- `show` writes a number as the exchange does, and `further` are the members of a message that are
-- not read.
pub record Exchange {J F : Type 0} (json : Json J) (f : Floating F) : Type 0 where
  pub product_id : String
  pub show : F → String
  pub stod-show : (x : F) → f.stod (show x) ≡ ok x
  pub further : FeedEvent F → List (String × J)
  pub plain : (e : FeedEvent F) → find "bids" (further e) ≡ none
  pub events : ℕ → FeedEvent F
  pub numbered : (n : ℕ) → sequence_of (events n) ≡ n
  pub bids : ℕ → List (Order F)
  pub asks : ℕ → List (Order F)

pub somes-append {ℓ} :
    {A : Type ℓ} (xs ys : List (Option A)) → somes (xs ++ ys) ≡ somes xs ++ somes ys
somes-append [] ys = refl
somes-append (none ∷ xs) ys = somes-append xs ys
somes-append (some x ∷ xs) ys = ap (λ l. x ∷ l) (somes-append xs ys)

module _ {J F : Type 0} ⦃json : Json J⦄ ⦃f : Floating F⦄ (ex : Exchange json f) where
  -- the message of a number, and the change that it stands for
  abbrev pub message : ℕ → J
  message n = event_message json ex.show ex.further ex.product_id (ex.events n)

  abbrev pub change : ℕ → Option (ProductChange F)
  change n = event_change ex.product_id (ex.events n)

  -- the changes of the `d` numbers that come after `s`
  abbrev pub changes : ℕ → ℕ → List (Option (ProductChange F))
  changes s zero = []
  changes s (suc d) = changes s d ++ change (suc (s + d)) ∷ []

  -- the messages of these numbers
  abbrev pub messages : ℕ → ℕ → List J
  messages s zero = []
  messages s (suc d) = messages s d ++ message (suc (s + d)) ∷ []

  abbrev pub book_fields : ℕ → List (String × J)
  book_fields s =
      ("sequence", json.number s)
      ∷ ("bids", json.array (map (order_row json ex.show) (ex.bids s)))
      ∷ ("asks", json.array (map (order_row json ex.show) (ex.asks s)))
      ∷ []

  -- the full book of a number, as it is sent
  abbrev pub full_book_message : ℕ → J
  full_book_message s = json.object (book_fields s)

  abbrev pub full_book_orders : ℕ → OrderBook F
  full_book_orders s = record { bids = ex.bids s; asks = ex.asks s }

  -- The book of number `s`, moved through the changes of the next `d` numbers, each once and in order.
  unfoldable pub book_after : ℕ → ℕ → OrderBook F
  book_after s d = books f (somes (changes s d)) (full_book_orders s)

  pub book_after-suc :
      (s d : ℕ)
      → book_after s (suc d) ≡ books f (somes (change (suc (s + d)) ∷ [])) (book_after s d)
  unfolding book_after
  book_after-suc s d =
      ap (λ pcs. books f pcs (full_book_orders s))
        (somes-append (changes s d) (change (suc (s + d)) ∷ []))
      ∙ books-append f (somes (changes s d)) (somes (change (suc (s + d)) ∷ []))
          (full_book_orders s)

  -- What is known of the exchange: nothing yet, or a full book and how many changes after it.
  abbrev pub book_at : Option (ℕ × ℕ) → OrderBook F
  book_at none = empty_book
  book_at (some (s, d)) = book_after s d
