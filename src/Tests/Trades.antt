-- ===== src/Tests/Trades.antt =====
-- Trades that are read and published, and the ports of the endpoints.
use quote_server.Base.{String, ℕ, ◌<◌, ◌≡◌, refl, [], ◌∷◌, ok}
use quote_server.Base.Dict
use quote_server.Protobuf.{order_book}
use quote_server.OrderBook.{Order}
use quote_server.OrderBookPublisher.{wire_order, order_book_message}
use quote_server.OrderBookPublisher.Contents.{order_book_message-orders}
use quote_server.EndpointService.{
  Provider, endpoint_at, new_provider, add_product, add_products, prod_id_to_port,
}
use quote_server.EndpointService.Ports.{numbered, prod_id_to_port-numbered}
use quote_server.Tests.Messages.{listed, whole_json, text_floating, plain}

abbrev provider : Provider
provider = record {
  product_ids = ("ETH-USD", endpoint_at 83000 93000) ∷ [];
  order_port = 83001;
  trade_port = 93001;
}

provides : new_provider whole_json "listed" ≡ ok provider
unfolding new_provider add_products add_product Dict.insert
provides = refl

asked : prod_id_to_port "ETH-USD" provider ≡ ok (endpoint_at 83000 93000)
unfolding prod_id_to_port Dict.find
asked = refl

prod_id_to_port-numbered_example : (k : ℕ) × (k < 2) × (endpoint_at 83000 93000 ≡ numbered k)
prod_id_to_port-numbered_example =
    prod_id_to_port-numbered "listed" listed provider "ETH-USD" (endpoint_at 83000 93000) refl
      provides asked

abbrev ask : Order String
ask = record { price = "11"; size = "3"; order_id = "s" }

order_book_message-orders_example :
    order_book_message plain "ETH-USD" (record { bids = []; asks = ask ∷ [] })
    ≡ order_book (record { product_id = "ETH-USD"; asks = wire_order plain ask ∷ []; bids = [] })
order_book_message-orders_example =
    order_book_message-orders plain "ETH-USD" (record { bids = []; asks = ask ∷ [] })
