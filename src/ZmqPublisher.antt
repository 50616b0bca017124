-- ===== src/ZmqPublisher.antt =====
-- transport/include/ZMQPublisher.hpp, and where the two classes with a publisher bind theirs:
-- include/product/ProductChangePublisherZMQ.hpp for order books, include/TradePublisher.hpp for
-- trades. Whether ZMQ accepts the address is not modelled.
pub mod Addresses
use quote_server.Base.{String, ◌<>◌, List, [], Result, ok, push_back, ◌>>=◌}
use quote_server.EndpointService.{Provider, Endpoint, prod_id_to_port}

pub record ZmqPublisher : Type 0 where
  pub bind_addr : String
  pub messages : List String

unfoldable pub new_zmq_publisher : String → ZmqPublisher
new_zmq_publisher address = record { bind_addr = "tcp://" <> address; messages = [] }

unfoldable pub publish_payload : String → ZmqPublisher → ZmqPublisher
publish_payload payload p = record p { messages = push_back p.messages payload }

-- The publisher of a ProductChangePublisherZMQ
unfoldable pub order_book_publisher : String → Provider → Result ZmqPublisher
order_book_publisher product_id endpoints = do
  e ← prod_id_to_port product_id endpoints
  ok (new_zmq_publisher (e.address <> ":" <> e.orderbook_port))

-- The publisher of a TradePublisher
unfoldable pub trade_publisher : String → Provider → Result ZmqPublisher
trade_publisher product_id endpoints = do
  e ← prod_id_to_port product_id endpoints
  ok (new_zmq_publisher (e.address <> ":" <> e.trade_port))
