-- ===== src/System/Served.antt =====
-- The feed client listens for exactly the products that the market has.
use quote_server.Base.{
  String, ◌≡◌, refl, sym, ap, ◌∙◌, Bool, Option, none, some, List, [], ◌∷◌, Result, ok, err,
  parse_error, arith, eq_iff, has, >>=-eq-ok, ok-injective, Bool-cases, Option-cases, inl, inr,
}
use mathlib.Core.Path.{subst}
use quote_server.Base.Dict
use quote_server.Base.Dict.{Dict, find-assign, find-insert, find-erase}
use quote_server.Base.Floating.{Floating}
use quote_server.Json.{Json, string_member}
use quote_server.Protobuf.{Protobuf}
use quote_server.Trade.{Trade}
use quote_server.Product.{new_product, remove_client}
use quote_server.FeedProduct
use quote_server.FeedProduct.{FeedProduct, new_feed_product}
use quote_server.CoinbaseFeedClient
use quote_server.CoinbaseFeedClient.{
  CoinbaseFeedClient, Received, set_trade_listener, coinbase_feed, connect_once, to_product,
  sequenced, report_trade, receive_json, receive_parsed,
}
use quote_server.Market
use quote_server.Market.{
  Market, Arrangement, subscribe_feed, on_product_change, on_trade, publish_trade,
  process_product_changes, stop, begin_subscribe, runs,
}
use quote_server.Market.Maps.{
  Unclaimed, update_products-keeps, subscribe-products, begin_subscribe-products, unsubscribe-drops,
}
use quote_server.Market.Clients
use quote_server.Market.Clients.{changes, trades, processes, subscribes, unsubscribes, stops}
use quote_server.System.{
  System, new_system, on_trades, on_feed_message, Step, calls, begins, finishes, collects, applies,
  receives, works, Reach, start, more,
}

-- Two maps with the same keys.
abbrev pub SameKeys : {A B : Type 0} → Dict A → Dict B → Type 0
SameKeys a b = (id : String) → has (Dict.find id a) ≡ has (Dict.find id b)

pub record IsServed {F J : Type 0} (m : System F J) : Type 0 where
  pub unclaimed : Unclaimed m.products
  pub served : SameKeys m.feed_client.prod_id_to_listener m.products

-- A write under a key that is there keeps the keys.
assign-SameKeys :
    {A : Type 0} (k : String) (old new : A) (m : Dict A)
    → Dict.find k m ≡ some old
    → SameKeys (Dict.assign k new m) m
assign-SameKeys k old new m there id = ground (arith, find-assign id k new m, eq_iff k id)

module _ {J : Type 0} ⦃json : Json J⦄ where
  to_product-SameKeys :
      (product_id : String) (jmsg : J) (c d : CoinbaseFeedClient J)
      → to_product product_id jmsg c ≡ ok d
      → SameKeys d.prod_id_to_listener c.prod_id_to_listener
  unfolding to_product
  to_product-SameKeys product_id jmsg c d e id =
      elim (Option-cases (Dict.find product_id c.prod_id_to_listener)) [
        | inl missing ↦ ground arith
        | inr (p, there) ↦
            let (q, e₁, e₂) =
              >>=-eq-ok (FeedProduct.on_message_received jmsg p) _ (rw (there, to_product) at e) in
            subst
              (λ (x : CoinbaseFeedClient J).
                has (Dict.find id x.prod_id_to_listener) ≡ has (Dict.find id c.prod_id_to_listener))
              (ok-injective e₂) (assign-SameKeys product_id p q c.prod_id_to_listener there id)
      ]

  sequenced-SameKeys :
      (jmsg : J) (c d : CoinbaseFeedClient J)
      → sequenced jmsg c ≡ ok d
      → SameKeys d.prod_id_to_listener c.prod_id_to_listener
  unfolding sequenced
  sequenced-SameKeys jmsg c d e id = elim (Bool-cases (json.contains jmsg "sequence")) [
    | inr unnumbered ↦ ground arith
    | inl numbered ↦
        let (product_id, e₁, e₂) =
          >>=-eq-ok (string_member jmsg "product_id") _ (rw (numbered, sequenced) at e) in
        to_product-SameKeys product_id jmsg c d e₂ id
  ]

  received-SameKeys :
      {F : Type 0} ⦃f : Floating F⦄ (parsed : Result J) (c d : CoinbaseFeedClient J)
      (ts : List (Option (Trade F)))
      → receive_parsed parsed c ≡ ok (d, ts)
      → SameKeys d.prod_id_to_listener c.prod_id_to_listener
  unfolding receive_parsed receive_json
  received-SameKeys (ok jmsg) c d ts e id = elim (Bool-cases (json.contains jmsg "type")) [
    | inr untyped ↦ ground arith
    | inl typed ↦
        let (x, e₁, e₂) = >>=-eq-ok (sequenced jmsg c) _ (rw (typed, receive_json) at e) in
        let (us, e₃, e₄) = >>=-eq-ok (report_trade c.has_trade_listener jmsg) _ e₂ in
        let same : x ≡ d = ground arith in
        ap (λ (y : CoinbaseFeedClient J). has (Dict.find id y.prod_id_to_listener)) (sym same)
        ∙ sequenced-SameKeys jmsg c x e₁ id
  ]
  received-SameKeys (err parse_error) c d ts e id = ground arith
  received-SameKeys (err fault) c d ts e id = absurd (ground arith)

module _ {F J : Type 0} ⦃json : Json J⦄ ⦃f : Floating F⦄ (proto : Protobuf F)
    (is_valid : String → Bool) where
  on_trade-keeps :
      (t : Trade F) (m n : System F J)
      → on_trade proto t m ≡ ok n
      → (n.feed_client ≡ m.feed_client) × (n.products ≡ m.products)
  unfolding on_trade publish_trade
  on_trade-keeps t m n e = ground arith

  on_trades-IsServed :
      (ts : List (Option (Trade F))) (m n : System F J)
      → on_trades proto ts m ≡ ok n
      → IsServed m
      → IsServed n
  unfolding on_trades
  on_trades-IsServed [] m n e h = subst IsServed (ok-injective e) h
  on_trades-IsServed (none ∷ ts) m n e h = absurd (ground arith)
  on_trades-IsServed (some t ∷ ts) m n e h =
      let (x, e₁, e₂) = >>=-eq-ok (on_trade proto t m) _ e in
      let (feed, products) = on_trade-keeps t m x e₁ in
      on_trades-IsServed ts x n e₂ (record {
        unclaimed = subst Unclaimed (sym products) h.unclaimed;
        served = λ id. rw (feed, products) (h.served id);
      })

  subscribed :
      (client_id product_id : String) (m n : System F J)
      → Market.subscribe (coinbase_feed is_valid) client_id product_id m ≡ ok n
      → SameKeys m.feed_client.prod_id_to_listener m.products
      → SameKeys n.feed_client.prod_id_to_listener n.products
  unfolding Market.subscribe subscribe_feed CoinbaseFeedClient.subscribe connect_once
  subscribed client_id product_id m n e h id = ground (
    arith,
    h id,
    h product_id,
    find-insert id product_id (new_product product_id) m.products,
    find-insert id product_id (new_feed_product product_id) m.feed_client.prod_id_to_listener,
    eq_iff product_id id,
  )

  -- What an unsubscription that ends makes of the two maps: both lose the product, or neither.
  unsubscribed :
      (client_id product_id : String) (m n : System F J)
      → Market.unsubscribe (coinbase_feed is_valid) client_id product_id m ≡ ok n
      → SameKeys m.feed_client.prod_id_to_listener m.products
      → SameKeys n.feed_client.prod_id_to_listener n.products
  unfolding Market.unsubscribe CoinbaseFeedClient.unsubscribe
  unsubscribed client_id product_id m n e h id =
      elim (Option-cases (Dict.find product_id m.products)) [
        | inl missing ↦ absurd (ground arith)
        | inr (p, there) ↦ ground (
          arith,
          h id,
          h product_id,
          find-assign id product_id (remove_client client_id p) m.products,
          find-erase id product_id (Dict.assign product_id (remove_client client_id p) m.products),
          find-erase id product_id m.feed_client.prod_id_to_listener,
          eq_iff product_id id,
        )
      ]

  call-served :
      (m n : System F J)
      → Clients.Step f proto (coinbase_feed is_valid) m n
      → IsServed m
      → SameKeys n.feed_client.prod_id_to_listener n.products
  unfolding on_product_change stop process_product_changes
  call-served m n (changes pc e) h id = rw e (h.served id)
  call-served m n (trades t e) h id =
      let (feed, products) = on_trade-keeps t m n e in rw (feed, products) (h.served id)
  call-served m n (processes arrange e) h id = elim (Bool-cases m.is_running) [
    | inr stopped ↦ let same : m ≡ n = ground arith in rw (sym same) (h.served id)
    | inl runs_on ↦ rw e (
        simp runs_on (
          h.served id
          ∙ sym (
              (update_products-keeps f (runs (arrange m.product_changes)) m.products h.unclaimed).0
                id)))
  ]
  call-served m n (subscribes c p e) h id = subscribed c p m n e h.served id
  call-served m n (unsubscribes c p e) h id = unsubscribed c p m n e h.served id
  call-served m n (stops e) h id = rw e (h.served id)

  call-Unclaimed :
      (m n : System F J)
      → Clients.Step f proto (coinbase_feed is_valid) m n
      → Unclaimed m.products
      → Unclaimed n.products
  unfolding on_product_change stop process_product_changes new_product
  call-Unclaimed m n (changes pc e) u = rw e u
  call-Unclaimed m n (trades t e) u = rw (on_trade-keeps t m n e).1 u
  call-Unclaimed m n (processes arrange e) u = elim (Bool-cases m.is_running) [
    | inr stopped ↦
        let same : m ≡ n = ground arith in subst (λ (x : System F J). Unclaimed x.products) same u
    | inl runs_on ↦
        rw e
          (simp runs_on (update_products-keeps f (runs (arrange m.product_changes)) m.products u).1)
  ]
  call-Unclaimed m n (subscribes c k e) u =
      λ id p q. ground (arith, subscribe-products (coinbase_feed is_valid) c k m n id e, u id p)
  call-Unclaimed m n (unsubscribes c k e) u =
      λ id p q. ground (arith, unsubscribe-drops (coinbase_feed is_valid) c k m n id u e, u id p)
  call-Unclaimed m n (stops e) u = rw e u

  -- The first critical section of a subscription.
  begun-IsServed :
      (client_id product_id : String) (m n : System F J)
      → begin_subscribe (coinbase_feed is_valid) client_id product_id m ≡ ok n
      → IsServed m
      → IsServed n
  unfolding subscribe_feed CoinbaseFeedClient.subscribe connect_once new_product
  begun-IsServed client_id product_id m n e h = record {
    unclaimed = λ id p q. ground (
      arith,
      begin_subscribe-products (coinbase_feed is_valid) client_id product_id m n id e,
      h.unclaimed id p,
    );
    served = λ id. ground (
      arith,
      h.served id,
      h.served product_id,
      find-insert id product_id (new_product product_id) m.products,
      find-insert id product_id (new_feed_product product_id) m.feed_client.prod_id_to_listener,
      eq_iff product_id id,
    );
  }

  Step-IsServed : {m n : System F J} → Step proto is_valid m n → IsServed m → IsServed n
  unfolding on_feed_message CoinbaseFeedClient.on_message_received
  Step-IsServed {m} {n} (calls s) h = record {
    unclaimed = call-Unclaimed m n s h.unclaimed;
    served = call-served m n s h;
  }
  Step-IsServed {m} {n} (begins client_id product_id e) h =
      begun-IsServed client_id product_id m n e h
  Step-IsServed (finishes product_id e) h =
      subst IsServed (sym e) (record { unclaimed = h.unclaimed; served = h.served })
  Step-IsServed (collects e) h =
      subst IsServed (sym e) (record { unclaimed = h.unclaimed; served = h.served })
  Step-IsServed {m} (applies arrange current e) h =
      let kept = update_products-keeps f (runs (arrange current)) m.products h.unclaimed in
      subst IsServed (sym e)
        (record { unclaimed = kept.1; served = λ id. h.served id ∙ sym (kept.0 id) })
  Step-IsServed {m} {n} (receives message e) h =
      let ((d, ts), e₁, e₂) =
        >>=-eq-ok (CoinbaseFeedClient.on_message_received message m.feed_client) _ e in
      on_trades-IsServed ts (record m { feed_client = d }) n e₂
        (record {
          unclaimed = h.unclaimed;
          served =
              λ id. received-SameKeys (json.parse message) m.feed_client d ts e₁ id ∙ h.served id;
        })
  Step-IsServed {m} {n} (works product_id p q there s e) h = subst IsServed (sym e) (record {
    unclaimed = h.unclaimed;
    served = λ id.
        assign-SameKeys product_id p q m.feed_client.prod_id_to_listener there id ∙ h.served id;
  })

  -- In every state that the new system reaches in which no critical section of the market is under way,
  -- which may be between the two of a subscription or of a round, the feed client listens for exactly
  -- the products that the market has, and no product has a client, whatever the clients, the feed and
  -- the threads have done.
  pub Reach-new-IsServed : {m : System F J} → Reach proto is_valid new_system m → IsServed m
  unfolding Dict.find set_trade_listener
  Reach-new-IsServed start = record { unclaimed = λ id p e. cc; served = λ id. refl }
  Reach-new-IsServed (more r s) = Step-IsServed s (Reach-new-IsServed r)
