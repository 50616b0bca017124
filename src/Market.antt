-- ===== src/Market.antt =====
-- include/Market.hpp and src/Market.cpp. `subscribe` and the loop of `processProductChanges` have two
-- critical sections each: `begin_subscribe` and `add_trade_publisher`, `take_changes` and
-- `apply_changes`; a function of that name is both, with nothing in between. A trade publisher keeps
-- the payloads that it was given, oldest first, and `D` is the state of the feed.
pub mod Maps
pub mod Clients
pub mod Changes
use quote_server.Base.{
  String, ◌==◌, Bool, true, false, not, Option, none, some, List, [], ◌∷◌, Result, ok, err,
  undefined, push_back, nat_eq, has, ◌>>=◌, if◌then◌else◌, map,
}
use quote_server.Base.Dict
use quote_server.Base.Dict.{Dict}
use quote_server.Base.Floating.{Floating}
use quote_server.ProductChange.{ProductChange, get_product_id}
use quote_server.Product.{
  Product, Client, new_client, new_product, has_clients, remove_client, on_product_changes,
}
use quote_server.Protobuf.{Protobuf}
use quote_server.Trade
use quote_server.Trade.{Trade, generate_message}
use quote_server.FeedClient
use quote_server.FeedClient.{FeedClient}
use quote_server.ProductSubscriber.{ProductSubscriber}

pub record Market (F D : Type 0) : Type 0 where
  pub feed_client : D
  pub products : Dict (Product F)
  pub clients : Dict Client
  -- the multimap, in the order of the insertions
  pub product_changes : List (String × ProductChange F)
  pub is_running : Bool
  pub trade_publishers : Dict (List String)

abbrev pub new_market : {F D : Type 0} → D → Market F D
new_market feed = record {
  feed_client = feed;
  products = [];
  clients = [];
  product_changes = [];
  is_running = true;
  trade_publishers = [];
}

-- Neighbours with one key, as the two nested loops over the multimap cut them.
abbrev pub join {ℓ} : {A : Type ℓ} → String → A → List (String × List A) → List (String × List A)
join k a [] = (k, a ∷ []) ∷ []
join k a ((j, as') ∷ runs) = if j == k then (k, a ∷ as') ∷ runs else (k, a ∷ []) ∷ (j, as') ∷ runs

unfoldable pub runs {ℓ} : {A : Type ℓ} → List (String × A) → List (String × List A)
runs [] = []
runs ((k, a) ∷ xs) = join k a (runs xs)

module _ {F D : Type 0} where
  unfoldable pub stop : Market F D → Market F D
  stop m = record m { is_running = false }

  unfoldable pub on_product_change : ProductChange F → Market F D → Market F D
  on_product_change pc m = record m {
    product_changes = push_back m.product_changes (get_product_id pc, pc);
  }

  -- `it->second->publish(std::move(trade))`, once the message is generated
  unfoldable pub publish_trade : String → String → Market F D → Market F D
  publish_trade product_id payload m = elim (Dict.find product_id m.trade_publishers) [
    | none ↦ m
    | some published ↦ record m {
      trade_publishers = Dict.assign product_id (push_back published payload) m.trade_publishers;
    }
  ]

  -- A trade of a product that nobody asked for is dropped, and its message is not generated.
  unfoldable pub on_trade : Protobuf F → Trade F → Market F D → Result (Market F D)
  unfolding publish_trade
  on_trade proto t m =
      if not (has (Dict.find (Trade.get_product_id t) m.trade_publishers)) then ok m else (do
        payload ← generate_message proto t
        ok (publish_trade (Trade.get_product_id t) payload m))

module _ {F : Type 0} where
  -- The changes of one product, if the product is there.
  unfoldable pub update_product :
      Floating F → String × List (ProductChange F) → Dict (Product F) → Dict (Product F)
  update_product f (product_id, changes) products = elim (Dict.find product_id products) [
    | none ↦ products
    | some p ↦ Dict.assign product_id (on_product_changes f changes p) products
  ]

  unfoldable pub update_products :
      Floating F → List (String × List (ProductChange F)) → Dict (Product F) → Dict (Product F)
  update_products f [] products = products
  update_products f (run ∷ rest) products = update_products f rest (update_product f run products)

-- The order in which an `unordered_multimap` is visited is the library's choice: an argument.
abbrev pub Arrangement : Type 0 → Type 0
Arrangement F = List (String × ProductChange F) → List (String × ProductChange F)

module _ {F D : Type 0} where
  -- The first critical section of a round: the multimap is emptied.
  abbrev pub take_changes : Market F D → Market F D
  take_changes m = record m { product_changes = [] }

  -- The second one: the changes that were taken are visited.
  abbrev pub apply_changes :
      Floating F → Arrangement F → List (String × ProductChange F) → Market F D → Market F D
  apply_changes f arrange current m = record m {
    products = update_products f (runs (arrange current)) m.products;
  }

  -- One round.
  unfoldable pub process_product_changes : Floating F → Arrangement F → Market F D → Market F D
  unfolding runs update_product update_products
  process_product_changes f arrange m =
      if not m.is_running then m else apply_changes f arrange m.product_changes (take_changes m)

-- The second critical section of `subscribe`.
abbrev pub add_trade_publisher : {F D : Type 0} → String → Market F D → Market F D
add_trade_publisher product_id m = record m {
  trade_publishers = Dict.insert product_id [] m.trade_publishers;
}

module _ {F D : Type 0} (feed : FeedClient D) where
  unfoldable pub subscribe_feed : String → Market F D → Result (Market F D)
  subscribe_feed product_id m = elim (Dict.find product_id m.products) [
    | some p ↦ ok m
    | none ↦ (do
      d ← feed.subscribe product_id m.feed_client
      ok (record m {
        products = Dict.insert product_id (new_product product_id) m.products;
        feed_client = d;
      }))
  ]

  -- The first critical section: `insert` where `find` found nothing.
  abbrev pub begin_subscribe : String → String → Market F D → Result (Market F D)
  begin_subscribe client_id product_id m =
      subscribe_feed product_id
        (record m { clients = Dict.insert client_id (new_client client_id) m.clients })

  unfoldable pub subscribe : String → String → Market F D → Result (Market F D)
  unfolding subscribe_feed
  subscribe client_id product_id m = do
    m' ← begin_subscribe client_id product_id m
    ok (add_trade_publisher product_id m')

  -- A product that is not there is looked into all the same: `it->second` at `end()`.
  unfoldable pub unsubscribe : String → String → Market F D → Result (Market F D)
  unsubscribe client_id product_id m = elim (Dict.find product_id m.products) [
    | none ↦ err undefined
    | some p ↦
        let p' = remove_client client_id p in
        let kept = record m { products = Dict.assign product_id p' m.products } in
        if nat_eq (has_clients p') 0
        then (do
          d ← feed.unsubscribe product_id kept.feed_client
          ok (record kept {
            feed_client = d;
            products = Dict.erase product_id kept.products;
            trade_publishers = Dict.erase product_id kept.trade_publishers;
          }))
        else ok kept
  ]

-- The market is the subscriber that the client service calls.
instance abbrev pub market_subscriber :
    {F D : Type 0} ⦃feed : FeedClient D⦄ → ProductSubscriber (Market F D)
market_subscriber ⦃feed⦄ = record { subscribe = subscribe feed; unsubscribe = unsubscribe feed }
