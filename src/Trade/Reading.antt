-- ===== src/Trade/Reading.antt =====
-- What is read of a trade message, and what becomes of it.
use quote_server.Base.{String, ℕ, ◌≡◌, refl, true, false, some, ok, err, undefined, arith}
use quote_server.Base.Floating.{Floating, stod}
use quote_server.Json.{Json, string_at, ulong_at}
use quote_server.Protobuf.{Protobuf, trade, bare_trade, match_type}
use quote_server.Trade.{
  Trade, trade_match, get_product_id, trade_message, generate_message, optional_at, activate_of,
  receive_of, match_of, get_trade,
}

module _ {J F : Type 0} ⦃json : Json J⦄ ⦃f : Floating F⦄ where
  activate_of-product_id :
      (jmsg : J) (t : Trade F)
      → activate_of jmsg ≡ ok t
      → string_at jmsg "product_id" ≡ ok (get_product_id t)
  unfolding activate_of get_product_id
  activate_of-product_id jmsg t e = ground arith

  receive_of-product_id :
      (jmsg : J) (t : Trade F)
      → receive_of jmsg ≡ ok t
      → string_at jmsg "product_id" ≡ ok (get_product_id t)
  unfolding receive_of get_product_id
  receive_of-product_id jmsg t e = ground arith

  match_of-product_id :
      (jmsg : J) (t : Trade F)
      → match_of jmsg ≡ ok t
      → string_at jmsg "product_id" ≡ ok (get_product_id t)
  unfolding match_of get_product_id
  match_of-product_id jmsg t e = ground arith

  -- Every trade that is read of a message is of the product that the message names, so that the market
  -- publishes it where the clients of that product listen.
  pub get_trade-product_id :
      (jmsg : J) (t : Trade F)
      → get_trade jmsg ≡ ok (some t)
      → string_at jmsg "product_id" ≡ ok (get_product_id t)
  unfolding get_trade
  get_trade-product_id jmsg t e = ground (
    arith,
    activate_of-product_id jmsg t,
    receive_of-product_id jmsg t,
    match_of-product_id jmsg t,
  )

  receive_of-undefined :
      (proto : Protobuf F) (jmsg : J) (t : Trade F)
      → json.contains jmsg "price" ≡ true
      → json.contains jmsg "founds" ≡ false
      → receive_of jmsg ≡ ok t
      → generate_message proto t ≡ err undefined
  unfolding receive_of optional_at generate_message trade_message
  receive_of-undefined proto jmsg t priced unfunded e = ground arith

  -- A received order with a price and no funds, which is what a limit order is, is read as a trade
  -- whose message cannot be generated: the funds that are not there are read.
  pub get_trade-limit_order :
      (proto : Protobuf F) (jmsg : J) (t : Trade F)
      → string_at jmsg "type" ≡ ok "received"
      → json.contains jmsg "price" ≡ true
      → json.contains jmsg "founds" ≡ false
      → get_trade jmsg ≡ ok (some t)
      → generate_message proto t ≡ err undefined
  unfolding get_trade
  get_trade-limit_order proto jmsg t typed priced unfunded e =
      ground (arith, receive_of-undefined proto jmsg t priced unfunded)

  -- A match whose members can be read is published as a trade of its product with the id of the
  -- taker's order and the narrowed size; the maker's order and the price are not in it.
  pub get_trade-match :
      (proto : Protobuf F) (jmsg : J) (maker taker price text product_id side : String)
      (sequence : ℕ) (size : F)
      → string_at jmsg "type" ≡ ok "match"
      → string_at jmsg "maker_order_id" ≡ ok maker
      → string_at jmsg "taker_order_id" ≡ ok taker
      → ulong_at jmsg "sequence" ≡ ok sequence
      → string_at jmsg "price" ≡ ok price
      → string_at jmsg "size" ≡ ok text
      → string_at jmsg "product_id" ≡ ok product_id
      → string_at jmsg "side" ≡ ok side
      → stod text ≡ ok size
      → (t : Trade F) × (get_trade jmsg ≡ ok (some t))
        × (generate_message proto t
            ≡ ok (
                proto.serialize (
                  trade (record (bare_trade match_type product_id taker) {
                    size = some (proto.narrow size);
                  }))))
  unfolding get_trade match_of generate_message trade_message
  get_trade-match proto jmsg maker taker price text product_id side sequence size typed h₁ h₂ h₃ h₄
        h₅ h₆ h₇ h₈ =
      (trade_match taker size product_id, ground arith, refl)
