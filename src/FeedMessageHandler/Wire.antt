-- ===== src/FeedMessageHandler/Wire.antt =====
-- The messages of the feed, as the comments of include/product/*.hpp and include/trade/*.hpp show
-- them: an independent description, against which Decode checks the handler. Prices and sizes are
-- texts. A message has further members that no change depends on, such as its time.
use quote_server.Base.{String, ℕ, Option, none, some, List, [], ◌∷◌, map}
use quote_server.Json.{Json}
use quote_server.OrderBook.{Order, Side, sell, buy}
use quote_server.ProductChange.{ProductChange, opened, done, matched, changed}

-- What happens to an order, and the messages that change no book, by their type.
pub data FeedEvent (F : Type 0) : Type 0 where
  opens : String → F → F → Side → ℕ → FeedEvent F
  finishes : String → Side → ℕ → FeedEvent F
  trades : String → String → F → F → Side → ℕ → FeedEvent F
  changes : String → F → F → Side → ℕ → FeedEvent F
  ticks beats receives : ℕ → FeedEvent F

abbrev pub event_change : {F : Type 0} → String → FeedEvent F → Option (ProductChange F)
event_change product_id (opens id price size side n) = some (opened id price size side product_id n)
event_change product_id (finishes id side n) = some (done id side product_id n)
event_change product_id (trades maker taker price size side n) =
    some (matched maker taker price size side product_id n)
event_change product_id (changes id price size side n) =
    some (changed id price size side product_id n)
event_change product_id (ticks n) = none
event_change product_id (beats n) = none
event_change product_id (receives n) = none

abbrev pub sequence_of : {F : Type 0} → FeedEvent F → ℕ
sequence_of (opens id price size side n) = n
sequence_of (finishes id side n) = n
sequence_of (trades maker taker price size side n) = n
sequence_of (changes id price size side n) = n
sequence_of (ticks n) = n
sequence_of (beats n) = n
sequence_of (receives n) = n

abbrev pub side_text : Side → String
side_text sell = "sell"
side_text buy = "buy"

-- A row of a full book, where `show` writes a number as the exchange does.
abbrev pub order_row : {J F : Type 0} → Json J → (F → String) → Order F → J
order_row json show o =
    json.array (json.text (show o.price) ∷ json.text (show o.size) ∷ json.text o.order_id ∷ [])

-- `further` are the members that a message has beside those that are read.
module _ {J F : Type 0} (json : Json J) (show : F → String)
    (further : FeedEvent F → List (String × J)) (product_id : String) where
  abbrev pub event_fields : FeedEvent F → List (String × J)
  event_fields (opens id price size side n) =
      ("type", json.text "open")
      ∷ ("product_id", json.text product_id)
      ∷ ("order_id", json.text id)
      ∷ ("price", json.text (show price))
      ∷ ("remaining_size", json.text (show size))
      ∷ ("side", json.text (side_text side))
      ∷ ("sequence", json.number n)
      ∷ further (opens id price size side n)
  event_fields (finishes id side n) =
      ("type", json.text "done")
      ∷ ("product_id", json.text product_id)
      ∷ ("order_id", json.text id)
      ∷ ("side", json.text (side_text side))
      ∷ ("sequence", json.number n)
      ∷ further (finishes id side n)
  event_fields (trades maker taker price size side n) =
      ("type", json.text "match")
      ∷ ("product_id", json.text product_id)
      ∷ ("maker_order_id", json.text maker)
      ∷ ("taker_order_id", json.text taker)
      ∷ ("size", json.text (show size))
      ∷ ("price", json.text (show price))
      ∷ ("side", json.text (side_text side))
      ∷ ("sequence", json.number n)
      ∷ further (trades maker taker price size side n)
  event_fields (changes id price size side n) =
      ("type", json.text "change")
      ∷ ("product_id", json.text product_id)
      ∷ ("order_id", json.text id)
      ∷ ("size", json.text (show size))
      ∷ ("price", json.text (show price))
      ∷ ("side", json.text (side_text side))
      ∷ ("sequence", json.number n)
      ∷ further (changes id price size side n)
  event_fields (ticks n) =
      ("type", json.text "ticker")
      ∷ ("product_id", json.text product_id)
      ∷ ("sequence", json.number n)
      ∷ further (ticks n)
  event_fields (beats n) =
      ("type", json.text "heartbeat")
      ∷ ("product_id", json.text product_id)
      ∷ ("sequence", json.number n)
      ∷ further (beats n)
  event_fields (receives n) =
      ("type", json.text "received")
      ∷ ("product_id", json.text product_id)
      ∷ ("sequence", json.number n)
      ∷ further (receives n)

  abbrev pub event_message : FeedEvent F → J
  event_message e = json.object (event_fields e)

  -- Without a message to merge the key is not made.
  abbrev pub merge_fields : List (FeedEvent F) → List (String × J)
  merge_fields [] = []
  merge_fields (e ∷ es) = ("to_merge", json.array (map event_message (e ∷ es))) ∷ []

  -- A full book into which the messages of `events` were merged.
  abbrev pub book_fields :
      List (Order F) → List (Order F) → List (FeedEvent F) → ℕ → List (String × J)
  book_fields bids asks events n =
      ("sequence", json.number n)
      ∷ ("bids", json.array (map (order_row json show) bids))
      ∷ ("asks", json.array (map (order_row json show) asks))
      ∷ merge_fields events

  abbrev pub book_message : List (Order F) → List (Order F) → List (FeedEvent F) → ℕ → J
  book_message bids asks events n = json.object (book_fields bids asks events n)
