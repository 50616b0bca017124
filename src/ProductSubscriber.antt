-- ===== src/ProductSubscriber.antt =====
-- include/product/ProductSubscriber.hpp: what the client service asks of the market, as an interface
-- over the state of whoever implements it. A call may fault.
use quote_server.Base.{String, Result}

pub record ProductSubscriber (M : Type 0) : Type 0 where
  -- client id, then product id
  pub subscribe : String → String → M → Result M
  pub unsubscribe : String → String → M → Result M
