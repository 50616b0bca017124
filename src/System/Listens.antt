-- ===== src/System/Listens.antt =====
-- The market stays the feed client's trade listener.
use quote_server.Base.{
  String, ◌≡◌, refl, sym, ap, ◌∙◌, inl, inr, Bool, true, Option, none, some, List, [], ◌∷◌, ok, err,
  arith, parse_error, Result, ok-injective, >>=-eq-ok, Bool-cases,
}
use quote_server.Base.Floating.{Floating}
use quote_server.Json.{Json}
use quote_server.Protobuf.{Protobuf}
use quote_server.Trade.{Trade}
use quote_server.CoinbaseFeedClient
use quote_server.CoinbaseFeedClient.{
  CoinbaseFeedClient, set_trade_listener, connect_once, to_product, sequenced, report_trade,
  receive_json, receive_parsed, coinbase_feed,
}
use quote_server.Market
use quote_server.Market.{
  Market, on_product_change, on_trade, publish_trade, process_product_changes, stop, subscribe_feed,
  begin_subscribe,
}
use quote_server.Market.Clients
use quote_server.Market.Clients.{changes, trades, processes, subscribes, unsubscribes, stops}
use quote_server.System.{
  System, new_system, on_trades, on_feed_message, calls, begins, finishes, collects, applies,
  receives, works, Reach, start, more,
}

module _ {J : Type 0} ⦃json : Json J⦄ where
  sequenced-listens :
      (jmsg : J) (c d : CoinbaseFeedClient J)
      → sequenced jmsg c ≡ ok d
      → d.has_trade_listener ≡ c.has_trade_listener
  unfolding sequenced to_product
  sequenced-listens jmsg c d e = ground arith

  received-listens :
      {F : Type 0} ⦃f : Floating F⦄ (parsed : Result J) (c d : CoinbaseFeedClient J)
      (ts : List (Option (Trade F)))
      → receive_parsed parsed c ≡ ok (d, ts)
      → d.has_trade_listener ≡ c.has_trade_listener
  unfolding receive_parsed
  received-listens (ok jmsg) c d ts e = elim (Bool-cases (json.contains jmsg "type")) [
    | inl typed ↦
        unfold receive_json in
        (let (c', passed, rest) = >>=-eq-ok (sequenced jmsg c) _ (rw (typed, receive_json) at e) in
          let (us, reported, done) = >>=-eq-ok (report_trade c.has_trade_listener jmsg) _ rest in
          ap (λ (p : CoinbaseFeedClient J × List (Option (Trade _))). p.0.has_trade_listener)
            (sym (ok-injective done))
          ∙ sequenced-listens jmsg c c' passed)
    | inr untyped ↦ unfold receive_json in ground arith
  ]
  received-listens (err parse_error) c d ts e = ground arith
  received-listens (err fault) c d ts e = absurd (ground arith)

module _ {F J : Type 0} ⦃json : Json J⦄ ⦃f : Floating F⦄ (proto : Protobuf F) where
  on_trade-feed :
      (t : Trade F) (m n : System F J) → on_trade proto t m ≡ ok n → n.feed_client ≡ m.feed_client
  unfolding on_trade publish_trade
  on_trade-feed t m n e = ground arith

  on_trades-feed :
      (ts : List (Option (Trade F))) (m n : System F J)
      → on_trades proto ts m ≡ ok n
      → n.feed_client ≡ m.feed_client
  unfolding on_trades
  on_trades-feed [] m n e = ap (λ (x : System F J). x.feed_client) (sym (ok-injective e))
  on_trades-feed (none ∷ ts) m n e = absurd (ground arith)
  on_trades-feed (some t ∷ ts) m n e =
      let (x, one, rest) = >>=-eq-ok (on_trade proto t m) _ e in
      on_trades-feed ts x n rest ∙ on_trade-feed t m x one

  on_feed_message-listens :
      (message : String) (m n : System F J)
      → on_feed_message proto message m ≡ ok n
      → n.feed_client.has_trade_listener ≡ m.feed_client.has_trade_listener
  unfolding on_feed_message CoinbaseFeedClient.on_message_received
  on_feed_message-listens message m n e =
      let (r, received, rest) =
        >>=-eq-ok (CoinbaseFeedClient.on_message_received message m.feed_client) _ e in
      ap (λ (c : CoinbaseFeedClient J). c.has_trade_listener)
        (on_trades-feed r.1 (record m { feed_client = r.0 }) n rest)
      ∙ received-listens (json.parse message) m.feed_client r.0 r.1 received

module _ {F J : Type 0} ⦃json : Json J⦄ ⦃f : Floating F⦄ (proto : Protobuf F)
    (is_valid : String → Bool) where
  called-listens :
      (m n : System F J)
      → Clients.Step f proto (coinbase_feed is_valid) m n
      → n.feed_client.has_trade_listener ≡ m.feed_client.has_trade_listener
  unfolding on_product_change stop process_product_changes Market.subscribe subscribe_feed
      Market.unsubscribe CoinbaseFeedClient.subscribe CoinbaseFeedClient.unsubscribe connect_once
  called-listens m n (changes pc e) = ground arith
  called-listens m n (trades t e) =
      ap (λ (c : CoinbaseFeedClient J). c.has_trade_listener) (on_trade-feed proto t m n e)
  called-listens m n (processes arrange e) = ground arith
  called-listens m n (subscribes client_id product_id e) = ground arith
  called-listens m n (unsubscribes client_id product_id e) = ground arith
  called-listens m n (stops e) = ground arith

  begun-listens :
      (client_id product_id : String) (m n : System F J)
      → begin_subscribe (coinbase_feed is_valid) client_id product_id m ≡ ok n
      → n.feed_client.has_trade_listener ≡ m.feed_client.has_trade_listener
  unfolding subscribe_feed CoinbaseFeedClient.subscribe connect_once
  begun-listens client_id product_id m n e = ground arith

  pub Reach-listens :
      {m : System F J} → Reach proto is_valid new_system m → m.feed_client.has_trade_listener ≡ true
  unfolding set_trade_listener
  Reach-listens start = refl
  Reach-listens (more {n = m} {o = n} r (calls s)) = called-listens m n s ∙ Reach-listens r
  Reach-listens (more {n = m} {o = n} r (begins client_id product_id e)) =
      begun-listens client_id product_id m n e ∙ Reach-listens r
  Reach-listens (more r (finishes product_id e)) =
      ap (λ (x : System F J). x.feed_client.has_trade_listener) e ∙ Reach-listens r
  Reach-listens (more r (collects e)) =
      ap (λ (x : System F J). x.feed_client.has_trade_listener) e ∙ Reach-listens r
  Reach-listens (more r (applies arrange current e)) =
      ap (λ (x : System F J). x.feed_client.has_trade_listener) e ∙ Reach-listens r
  Reach-listens (more {n = m} {o = n} r (receives message e)) =
      on_feed_message-listens proto message m n e ∙ Reach-listens r
  Reach-listens (more {n = m} {o = n} r (works product_id p q there s e)) =
      ap (λ (x : System F J). x.feed_client.has_trade_listener) e ∙ Reach-listens r
