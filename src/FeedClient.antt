-- ===== src/FeedClient.antt =====
-- include/FeedClient.hpp: what the market asks of a feed, as an interface over its state.
use quote_server.Base.{String, Result}

pub record FeedClient (D : Type 0) : Type 0 where
  pub subscribe : String → D → Result D
  pub unsubscribe : String → D → Result D
