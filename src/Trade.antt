-- ===== src/Trade.antt =====
-- include/trade/Trade.hpp and its three subclasses, and src/coinbase/MessageToTrade.cpp: the trades
-- that feed messages stand for, and the messages to the clients that are generated from them.
pub mod Reading
use quote_server.Base.{
  String, Option, none, some, Result, ok, err, undefined, ◌>>=◌, ◌==◌, if◌then◌else◌,
}
use quote_server.Base.Floating.{Floating, stod}
use quote_server.Json.{Json, string_at, ulong_at}
use quote_server.OrderBook.{Side}
use quote_server.FeedMessageHandler.{side_of}
use quote_server.Protobuf.{
  Protobuf, QsMessage, WireTrade, trade, bare_trade, activate_type, match_type,
}

-- One constructor for each class, its arguments those of the class's constructor.
pub data Trade (F : Type 0) : Type 0 where
  trade_activate : String → F → F → F → F → String → String → Trade F
  trade_match : String → F → String → Trade F
  trade_receive : String → Option F → Option F → Option F → Side → String → String → Trade F

module _ {F : Type 0} where
  unfoldable pub get_product_id : Trade F → String
  get_product_id (trade_activate id size price founds stop_price stop_type product_id) = product_id
  get_product_id (trade_match id size product_id) = product_id
  get_product_id (trade_receive id size founds price side order_type product_id) = product_id

  unfoldable pub order_id : Trade F → String
  order_id (trade_activate id size price founds stop_price stop_type product_id) = id
  order_id (trade_match id size product_id) = id
  order_id (trade_receive id size founds price side order_type product_id) = id

-- The constructors of the three classes, with the arguments in the order of the source.
module _ {F : Type 0} where
  abbrev pub new_trade_activate : String → F → F → F → F → String → String → Trade F
  new_trade_activate order_id size price founds stop_price stop_type product_id =
      trade_activate order_id size price founds stop_price stop_type product_id

  abbrev pub new_trade_match : String → F → String → Trade F
  new_trade_match order_id size product_id = trade_match order_id size product_id

  abbrev pub new_trade_receive :
      String → Option F → Option F → Option F → Side → String → String → Trade F
  new_trade_receive order_id size founds price side order_type product_id =
      trade_receive order_id size founds price side order_type product_id

-- `trade = std::make_unique<...>(...)`
abbrev pub some_trade : {F : Type 0} → Result (Trade F) → Result (Option (Trade F))
some_trade r = do t ← r; ok (some t)

module _ {F : Type 0} (proto : Protobuf F) where
  -- `if(m_size) trade->set_size(*m_size);` and the like
  abbrev pub narrow_optional : Option F → Option F
  narrow_optional none = none
  narrow_optional (some x) = some (proto.narrow x)

  -- `if(m_price) trade->set_founds(*m_founds);`: the price is looked at, and the funds are read, which
  -- have to be there.
  abbrev pub founds_if_price : Option F → Option F → Result (Option F)
  founds_if_price none founds = ok none
  founds_if_price (some price) none = err undefined
  founds_if_price (some price) (some founds) = ok (some (proto.narrow founds))

  -- The message of each class before it is serialized, from the members of the class.
  abbrev pub activate_message : String → F → F → F → F → String → String → WireTrade F
  activate_message id size price founds stop_price stop_type product_id =
      record (bare_trade activate_type product_id id) {
        size = some (proto.narrow size);
        price = some (proto.narrow price);
        founds = some (proto.narrow founds);
        stop_price = some (proto.narrow stop_price);
        stop_type = some stop_type;
      }

  abbrev pub match_message : String → F → String → WireTrade F
  match_message id size product_id = record (bare_trade match_type product_id id) {
    size = some (proto.narrow size);
  }

  abbrev pub receive_message :
      String → Option F → Option F → Option F → String → String → Result (WireTrade F)
  receive_message id size founds price order_type product_id = do
    founds' ← founds_if_price price founds
    ok (record (bare_trade activate_type product_id id) {
      size = narrow_optional size;
      price = narrow_optional price;
      founds = founds';
      order_type = some order_type;
    })

  unfoldable pub trade_message : Trade F → Result (WireTrade F)
  trade_message (trade_activate id size price founds stop_price stop_type product_id) =
      ok (activate_message id size price founds stop_price stop_type product_id)
  trade_message (trade_match id size product_id) = ok (match_message id size product_id)
  trade_message (trade_receive id size founds price side order_type product_id) =
      receive_message id size founds price order_type product_id

  unfoldable pub generate_message : Trade F → Result String
  generate_message t = do message ← trade_message t; ok (proto.serialize (trade message))

module _ {J F : Type 0} ⦃json : Json J⦄ ⦃f : Floating F⦄ where
  -- A number that is optional, by its key.
  unfoldable pub optional_at : J → String → Result (Option F)
  optional_at jmsg key =
      if json.contains jmsg key
      then (do text ← string_at jmsg key; x ← stod text; ok (some x))
      else ok none

  unfoldable pub activate_of : J → Result (Trade F)
  activate_of jmsg = do
    order_id ← string_at jmsg "order_id"
    sequence ← ulong_at jmsg "sequence"
    price ← string_at jmsg "price"
    size ← string_at jmsg "size"
    stop_type ← string_at jmsg "stop_type"
    stop_price ← string_at jmsg "stop_price"
    founds ← string_at jmsg "founds"
    side ← string_at jmsg "side"
    product_id ← string_at jmsg "product_id"
    s ← stod size
    p ← stod price
    m ← stod founds
    sp ← stod stop_price
    ok (new_trade_activate order_id s p m sp stop_type product_id)

  unfoldable pub receive_of : J → Result (Trade F)
  receive_of jmsg = do
    order_id ← string_at jmsg "order_id"
    sequence ← ulong_at jmsg "sequence"
    order_type ← string_at jmsg "order_type"
    founds ← optional_at jmsg "founds"
    size ← optional_at jmsg "size"
    price ← optional_at jmsg "price"
    side ← string_at jmsg "side"
    product_id ← string_at jmsg "product_id"
    ok (new_trade_receive order_id size founds price (side_of side) order_type product_id)

  unfoldable pub match_of : J → Result (Trade F)
  match_of jmsg = do
    maker_order_id ← string_at jmsg "maker_order_id"
    taker_order_id ← string_at jmsg "taker_order_id"
    sequence ← ulong_at jmsg "sequence"
    price ← string_at jmsg "price"
    size ← string_at jmsg "size"
    product_id ← string_at jmsg "product_id"
    side ← string_at jmsg "side"
    s ← stod size
    ok (new_trade_match taker_order_id s product_id)

  -- A message of another type gives no trade.
  unfoldable pub get_trade : J → Result (Option (Trade F))
  get_trade jmsg = do
    type ← string_at jmsg "type"
    if type == "activate"
        then some_trade (activate_of jmsg)
        else if type == "received"
        then some_trade (receive_of jmsg)
        else if type == "match"
        then some_trade (match_of jmsg)
        else ok none
