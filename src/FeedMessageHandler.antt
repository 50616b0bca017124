-- ===== src/FeedMessageHandler.antt =====
-- include/coinbase/CoinbaseFeedMessageHandler.hpp and src/coinbase/CoinbaseFeedMessageHandler.cpp:
-- the product change that a feed message stands for. `getProductChange` calls itself on the messages
-- of a full book, which nest as deep as the JSON value: the first argument is the fuel for that.
pub mod Depth
pub mod Ends
pub mod Named
pub mod Wire
pub mod Decode
use quote_server.Base.{
  String, ℕ, zero, suc, Bool, true, false, ◌&&◌, Option, none, some, List, [], ◌∷◌, Result, ok, err,
  too_deep, map_results, somes, ◌>>=◌, ◌==◌, if◌then◌else◌,
}
use quote_server.Base.Floating.{Floating, stod}
use quote_server.Json.{Json, string_at, ulong_at}
use quote_server.OrderBook.{Order, Side, sell, buy}
use quote_server.ProductChange.{
  ProductChange, new_reset_order_book, new_open, new_done, new_match, new_change,
}

-- `text == "sell" ? Side::Sell : Side::Buy`
unfoldable pub side_of : String → Side
side_of text = if text == "sell" then sell else buy

-- `pc = std::make_unique<...>(...)`
some_change : {F : Type 0} → Result (ProductChange F) → Result (Option (ProductChange F))
some_change r = do pc ← r; ok (some pc)

module _ {J F : Type 0} ⦃json : Json J⦄ ⦃f : Floating F⦄ where
  -- One entry of "asks" or "bids": price, size and order id.
  unfoldable pub order_of : J → Result (Order F)
  order_of order = do
    price_value ← json.item order 0
    price ← json.get_string price_value
    size_value ← json.item order 1
    size ← json.get_string size_value
    id_value ← json.item order 2
    order_id ← json.get_string id_value
    p ← stod price
    s ← stod size
    ok (record { price = p; size = s; order_id = order_id })

  unfoldable pub opened_of : String → J → Result (ProductChange F)
  unfolding side_of
  opened_of product_id jmsg = do
    order_id ← string_at jmsg "order_id"
    sequence ← ulong_at jmsg "sequence"
    price ← string_at jmsg "price"
    size ← string_at jmsg "remaining_size"
    side ← string_at jmsg "side"
    p ← stod price
    s ← stod size
    ok (new_open order_id p s (side_of side) product_id sequence)

  unfoldable pub done_of : String → J → Result (ProductChange F)
  unfolding side_of
  done_of product_id jmsg = do
    order_id ← string_at jmsg "order_id"
    side ← string_at jmsg "side"
    sequence ← ulong_at jmsg "sequence"
    ok (new_done order_id (side_of side) product_id sequence)

  unfoldable pub matched_of : String → J → Result (ProductChange F)
  unfolding side_of
  matched_of product_id jmsg = do
    maker_order_id ← string_at jmsg "maker_order_id"
    taker_order_id ← string_at jmsg "taker_order_id"
    sequence ← ulong_at jmsg "sequence"
    price ← string_at jmsg "price"
    size ← string_at jmsg "size"
    side ← string_at jmsg "side"
    p ← stod price
    s ← stod size
    ok (new_match maker_order_id taker_order_id p s (side_of side) product_id sequence)

  unfoldable pub changed_of : String → J → Result (ProductChange F)
  unfolding side_of
  changed_of product_id jmsg = do
    order_id ← string_at jmsg "order_id"
    price ← string_at jmsg "price"
    size ← string_at jmsg "size"
    sequence ← ulong_at jmsg "sequence"
    side ← string_at jmsg "side"
    p ← stod price
    s ← stod size
    ok (new_change order_id p s (side_of side) product_id sequence)

  -- "ticker", "received", "heartbeat" and types that are not supported give no change.
  unfoldable pub typed_change : String → String → J → Result (Option (ProductChange F))
  unfolding some_change
  typed_change type product_id jmsg =
      if type == "open"
      then some_change (opened_of product_id jmsg)
      else if type == "done"
      then some_change (done_of product_id jmsg)
      else if type == "match"
      then some_change (matched_of product_id jmsg)
      else if type == "change"
      then some_change (changed_of product_id jmsg)
      else ok none

  -- The messages of "to_merge" that give a change, each by `change_of`.
  unfoldable pub merged_changes :
      (J → Result (Option (ProductChange F))) → J → Result (List (ProductChange F))
  merged_changes change_of jmsg =
      if json.contains jmsg "to_merge"
      then (do
        msgs ← json.at jmsg "to_merge"
        pcs ← map_results change_of (json.elements msgs)
        ok (somes pcs))
      else ok []

  unfoldable pub full_book :
      (J → Result (Option (ProductChange F))) → String → J → Result (Option (ProductChange F))
  full_book change_of product_id jmsg = do
    jasks ← json.at jmsg "asks"
    asks ← map_results order_of (json.elements jasks)
    jbids ← json.at jmsg "bids"
    bids ← map_results order_of (json.elements jbids)
    to_merge ← merged_changes change_of jmsg
    sequence ← ulong_at jmsg "sequence"
    ok (some (new_reset_order_book bids asks to_merge product_id sequence))

  unfoldable pub get_product_change : ℕ → String → J → Result (Option (ProductChange F))
  unfolding full_book typed_change
  get_product_change zero product_id jmsg = err too_deep
  get_product_change (suc fuel) product_id jmsg =
      if json.contains jmsg "bids" && json.contains jmsg "asks"
      then full_book (get_product_change fuel product_id) product_id jmsg
      else if json.contains jmsg "type"
      then (do type ← string_at jmsg "type"; typed_change type product_id jmsg)
      else ok none

  -- The changes that the listener gets: one, or none.
  unfoldable pub on_message_received : ℕ → String → J → Result (List (ProductChange F))
  on_message_received fuel product_id jmsg = do
    pc ← get_product_change fuel product_id jmsg
    ok (somes (pc ∷ []))
