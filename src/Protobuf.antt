-- ===== src/Protobuf.antt =====
-- protos/qs_protos/Message.proto: the messages as values. The classes that `protoc` generates from
-- it are not in the repository: that their setters narrow a `double` to a `float`, and how a message is
-- serialized, are the fields of `Protobuf`.
use quote_server.Base.{String, Option, none, List}

pub data TradeType : Type 0 where
  activate_type change_type done_type match_type open_type : TradeType

-- `message Order`, `message OrderBook` and `message Trade`
pub record WireOrder (F : Type 0) : Type 0 where
  pub order_id : String
  pub price : F
  pub size : F

pub record WireBook (F : Type 0) : Type 0 where
  pub product_id : String
  pub asks : List (WireOrder F)
  pub bids : List (WireOrder F)

pub record WireTrade (F : Type 0) : Type 0 where
  pub type : TradeType
  pub product_id : String
  pub order_id : String
  pub size : Option F
  pub price : Option F
  pub founds : Option F
  pub stop_price : Option F
  pub stop_type : Option String
  pub order_type : Option String
  pub funds : Option F

-- `message qsMessage`: a trade or an order book
pub data QsMessage (F : Type 0) : Type 0 where
  trade : WireTrade F → QsMessage F
  order_book : WireBook F → QsMessage F

-- A trade with its required fields, and nothing else set.
abbrev pub bare_trade : {F : Type 0} → TradeType → String → String → WireTrade F
bare_trade type product_id order_id = record {
  type = type;
  product_id = product_id;
  order_id = order_id;
  size = none;
  price = none;
  founds = none;
  stop_price = none;
  stop_type = none;
  order_type = none;
  funds = none;
}

pub record Protobuf (F : Type 0) : Type 0 where
  -- `double` to `float`
  pub narrow : F → F
  -- `SerializeAsString`
  pub serialize : QsMessage F → String
