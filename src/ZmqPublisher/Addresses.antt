-- ===== src/ZmqPublisher/Addresses.antt =====
-- The addresses that clients are told, and those at which a product's publishers are bound.
use quote_server.Base.{String, ◌<>◌, ◌≡◌, refl, sym, ap, ok, >>=-eq-ok, ok-injective}
use quote_server.Base.Dict
use quote_server.Json.{Json, JsonLaws}
use quote_server.EndpointService.{Provider, prod_id_to_port}
use quote_server.ProductSubscriber.{ProductSubscriber}
use quote_server.ClientService.{confirmation}
use quote_server.Console.{endpoints_of}
use quote_server.Console.Conversation.{text_at}
use quote_server.ZmqPublisher.{
  ZmqPublisher, new_zmq_publisher, order_book_publisher, trade_publisher,
}

module _ {J M : Type 0} ⦃json : Json J⦄ (laws : JsonLaws json)
    (subscriber : ProductSubscriber M) where
  -- Where the client service confirms a request for a product that has publishers, the console client
  -- reads in the confirmation the very addresses at which the publisher of the product's order books
  -- and that of its trades are bound.
  pub confirmation-addresses :
      (type client_id product_id : String) (endpoints : Provider) (reply : J)
      (books trades : ZmqPublisher)
      → order_book_publisher product_id endpoints ≡ ok books
      → trade_publisher product_id endpoints ≡ ok trades
      → confirmation {J = J} subscriber endpoints type client_id product_id ≡ ok reply
      → endpoints_of reply ≡ ok (books.bind_addr, trades.bind_addr)
  unfolding order_book_publisher trade_publisher new_zmq_publisher confirmation endpoints_of
      Dict.find
  confirmation-addresses type client_id product_id endpoints reply books trades b t c =
      let (e, found, made) = >>=-eq-ok (prod_id_to_port product_id endpoints) _ b in
      let bound = ap (λ (p : ZmqPublisher). p.bind_addr) (ok-injective made) in
      let traded = ap (λ (p : ZmqPublisher). p.bind_addr) (ok-injective (rw found at t)) in
      let told = ok-injective (rw found at c) in
      rw (sym told) (
        rw
          (
            text_at laws _ "product_endpoint" ("tcp://" <> e.address <> ":" <> e.orderbook_port)
                refl,
            text_at laws _ "trade_endpoint" ("tcp://" <> e.address <> ":" <> e.trade_port) refl,
          )
          (λ i. ok (bound i, traded i)))
