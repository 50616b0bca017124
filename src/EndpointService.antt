-- ===== src/EndpointService.antt =====
-- transport/include/CoinbaseEndpointService.hpp: the endpoints of the products that are online, as
-- the constructor of `EndpointProvider` fills them in from the answer of the exchange.
pub mod Ports
use quote_server.Base.{
  String, ◌<>◌, ℕ, zero, suc, ◌+◌, ◌/◌, ◌%◌, Bool, none, some, List, [], ◌∷◌, Result, ok, err,
  undefined, has, nat_eq, ltb, ◌>>=◌, if◌then◌else◌,
}
use quote_server.Base.Dict
use quote_server.Base.Dict.{Dict}
use quote_server.Json.{Json, string_at}

pub record Endpoint : Type 0 where
  pub address : String
  pub orderbook_port : String
  pub trade_port : String

-- `std::to_string`: the decimal digits, most significant first.
digit : ℕ → String
digit n =
    if nat_eq n 0
    then "0"
    else if nat_eq n 1
    then "1"
    else if nat_eq n 2
    then "2"
    else if nat_eq n 3
    then "3"
    else if nat_eq n 4
    then "4"
    else if nat_eq n 5
    then "5"
    else if nat_eq n 6
    then "6"
    else if nat_eq n 7
    then "7"
    else if nat_eq n 8
    then "8"
    else "9"

-- A number below 10 ^ fuel has its digits written with this fuel.
digits : ℕ → ℕ → String
digits zero n = ""
digits (suc fuel) n =
    let front = digits fuel (n / 10) in if ltb n 10 then digit n else front <> digit (n % 10)

-- An `int` has at most ten digits.
unfoldable pub to_string : ℕ → String
unfolding digit digits
to_string = digits 10

abbrev pub first_order_port : ℕ
first_order_port = 83000

abbrev pub first_trade_port : ℕ
first_trade_port = 93000

-- The map and the two counters of the constructor's loop.
pub record Provider : Type 0 where
  pub product_ids : Dict Endpoint
  pub order_port : ℕ
  pub trade_port : ℕ

abbrev pub endpoint_at : ℕ → ℕ → Endpoint
endpoint_at order_port trade_port = record {
  address = "127.0.0.1";
  orderbook_port = to_string order_port;
  trade_port = to_string trade_port;
}

abbrev pub no_products : Provider
no_products = record {
  product_ids = [];
  order_port = first_order_port;
  trade_port = first_trade_port;
}

module _ {J : Type 0} ⦃json : Json J⦄ where
  -- One product of the answer. A port is used up also where the id is there already.
  unfoldable pub add_product : J → Provider → Result Provider
  add_product product p = do
    status ← json.at product "status"
    if json.is_text status "online"
        then (do
          id ← string_at product "id"
          ok (record {
            product_ids = Dict.insert id (endpoint_at p.order_port p.trade_port) p.product_ids;
            order_port = p.order_port + 1;
            trade_port = p.trade_port + 1;
          }))
        else ok p

  unfoldable pub add_products : List J → Provider → Result Provider
  add_products [] p = ok p
  add_products (product ∷ products) p = do p' ← add_product product p; add_products products p'

-- `EndpointProvider()`, from the text of the answer on
unfoldable pub new_provider : {J : Type 0} → Json J → String → Result Provider
new_provider json results = do
  jmsg ← json.parse results
  add_products ⦃json = json⦄ (json.elements jmsg) no_products

unfoldable pub contains : String → Provider → Bool
contains product_id p = has (Dict.find product_id p.product_ids)

-- The product has to be there.
unfoldable pub prod_id_to_port : String → Provider → Result Endpoint
prod_id_to_port product_id p = elim (Dict.find product_id p.product_ids) [
  | none ↦ err undefined
  | some endpoint ↦ ok endpoint
]
