-- ===== src/System/Trading.antt =====
-- What becomes of a trade message of the feed: from the feed client through the market to the
-- publisher of the product's trades.
use mathlib.Core.Path.{subst}
use text.Mathlib.TextPositions.{eq_refl}
use quote_server.Base.{
  Bool, String, ◌==◌, ◌≡◌, refl, sym, ap, ◌∙◌, inl, inr, true, false, Option, some, List, [], ◌∷◌,
  ok, err, undefined, arith, push_back, ok-injective, >>=-eq-ok, Option-cases,
}
use quote_server.Base.Dict
use quote_server.Base.Dict.{Dict, find-assign}
use quote_server.Base.Floating.{Floating}
use quote_server.Json.{Json, JsonLaws, string_at}
use quote_server.Protobuf.{Protobuf}
use quote_server.Trade
use quote_server.Trade.{Trade, get_trade, generate_message}
use quote_server.Trade.Reading.{get_trade-product_id, get_trade-limit_order}
use quote_server.CoinbaseFeedClient
use quote_server.CoinbaseFeedClient.{
  CoinbaseFeedClient, is_trade_msg, report_trade, receive_json, receive_parsed, sequenced,
}
use quote_server.CoinbaseFeedClient.Trades.{get_trade-has}
use quote_server.Market.{Market, on_trade, publish_trade}
use quote_server.System.{System, Reach, new_system, on_trades, on_feed_message}
use quote_server.System.Listens.{Reach-listens}

module _ {F D : Type 0} (proto : Protobuf F) where
  -- A payload has been put behind those of one product, and the others' are as before.
  abbrev pub Published : String → List String → String → Market F D → Market F D → Type 0
  Published product_id published payload m n =
      (Dict.find product_id n.trade_publishers ≡ some (push_back published payload))
      × ((other : String)
          → (product_id == other) ≡ false
          → Dict.find other n.trade_publishers ≡ Dict.find other m.trade_publishers)

  on_trade-Published :
      (t : Trade F) (product_id : String) (published : List String) (m n : Market F D)
      → product_id ≡ Trade.get_product_id t
      → Dict.find product_id m.trade_publishers ≡ some published
      → on_trade proto t m ≡ ok n
      → (payload : String) × (generate_message proto t ≡ ok payload)
        × Published product_id published payload m n
  unfolding on_trade publish_trade
  on_trade-Published t product_id published m n named there e =
      let found = ap (λ k. Dict.find k m.trade_publishers) (sym named) ∙ there in
      let (payload, generated, done) =
        >>=-eq-ok (generate_message proto t) _ (rw (found, on_trade) at e) in
      (
        payload,
        generated,
        subst (Published product_id published payload m) (ok-injective done) (
            (
              ground (
                arith,
                eq_refl product_id,
                find-assign product_id product_id (push_back published payload) m.trade_publishers,
                named,
                found,
              ),
              (λ other ne. ground (
                arith,
                find-assign other product_id (push_back published payload) m.trade_publishers,
                named,
                found,
              )),
            )),
      )

module _ {F J : Type 0} ⦃json : Json J⦄ ⦃f : Floating F⦄ (laws : JsonLaws json)
    (proto : Protobuf F) where
  -- The one call of the listener.
  report_trade-one :
      (jmsg : J) (trades : List (Option (Trade F)))
      → is_trade_msg jmsg ≡ ok true
      → report_trade true jmsg ≡ ok trades
      → (t : Trade F) × (get_trade jmsg ≡ ok (some t)) × (trades ≡ some t ∷ [])
  unfolding report_trade
  report_trade-one jmsg trades is_trade e =
      let (o, read, done) = >>=-eq-ok (get_trade jmsg) _ (rw is_trade at e) in
      elim (Option-cases o) [
        | inl none_read ↦ absurd (let h = get_trade-has laws jmsg o is_trade read in ground arith)
        | inr (t, some_read) ↦ (
          t,
          read ∙ ap ok some_read,
          sym (ok-injective done) ∙ ap (λ (x : Option (Trade F)). x ∷ []) some_read,
        )
      ]

  received_trade :
      (jmsg : J) (c c' : CoinbaseFeedClient J) (trades : List (Option (Trade F)))
      → json.contains jmsg "type" ≡ true
      → c.has_trade_listener ≡ true
      → is_trade_msg jmsg ≡ ok true
      → receive_json jmsg c ≡ ok (c', trades)
      → (t : Trade F) × (get_trade jmsg ≡ ok (some t)) × (trades ≡ some t ∷ [])
  unfolding receive_json
  received_trade jmsg c c' trades typed listens is_trade e =
      let (d, e₁, e₂) = >>=-eq-ok (sequenced jmsg c) _ (rw (typed, receive_json) at e) in
      let (ts, e₃, e₄) = >>=-eq-ok (report_trade c.has_trade_listener jmsg) _ e₂ in
      report_trade-one jmsg trades is_trade
        (rw listens at e₃ ∙ ap ok (ap (λ p. p.1) (ok-injective e₄)))

  listened_trade :
      (message product_id : String) (jmsg : J) (published : List String) (m n : System F J)
      → json.parse message ≡ ok jmsg
      → json.contains jmsg "type" ≡ true
      → is_trade_msg jmsg ≡ ok true
      → string_at jmsg "product_id" ≡ ok product_id
      → m.feed_client.has_trade_listener ≡ true
      → Dict.find product_id m.trade_publishers ≡ some published
      → on_feed_message proto message m ≡ ok n
      → (t : Trade F) × (payload : String) × (get_trade jmsg ≡ ok (some t))
        × (generate_message proto t ≡ ok payload)
        × Published proto product_id published payload m n
  unfolding on_feed_message CoinbaseFeedClient.on_message_received receive_parsed on_trades
  listened_trade message product_id jmsg published m n parsed typed is_trade names listens there e =
      let (received, e₁, e₂) =
        >>=-eq-ok (CoinbaseFeedClient.on_message_received message m.feed_client) _ e in
      let (t, read, called) =
        received_trade jmsg m.feed_client received.0 received.1 typed listens is_trade
          (rw parsed at e₁) in
      let after = record m { feed_client = received.0 } in
      let (m', traded, done) =
        >>=-eq-ok (on_trade proto t after) _
          (subst (λ l. on_trades proto l after ≡ ok n) called e₂) in
      let (payload, generated, out) =
        on_trade-Published proto t product_id published after m'
          (ok-injective (sym names ∙ get_trade-product_id jmsg t read)) there traded in
      (
        t,
        payload,
        read,
        generated,
        subst (Published proto product_id published payload m) (ok-injective done) out,
      )

  received-is_trade :
      (jmsg : J)
      → json.contains jmsg "type" ≡ true
      → string_at jmsg "type" ≡ ok "received"
      → is_trade_msg jmsg ≡ ok true
  unfolding is_trade_msg
  received-is_trade jmsg typed type =
      let (v, there, text) = >>=-eq-ok (json.at jmsg "type") _ type in
      let same = (laws.is_text_iff v "received").1 text in rw (typed, there, same) (ground arith)

module _ {F J : Type 0} ⦃json : Json J⦄ ⦃f : Floating F⦄ (laws : JsonLaws json) (proto : Protobuf F)
    (is_valid : String → Bool) where
  -- In every state that the new system reaches: a trade message of a product that has a trade
  -- publisher, if it is dealt with without a fault, is read as a trade, whose message is published to
  -- the product's clients, once and behind those before it; what was published of other products stays
  -- as it is.
  pub on_feed_message-publishes :
      (message product_id : String) (jmsg : J) (published : List String) (m n : System F J)
      → Reach proto is_valid new_system m
      → Dict.find product_id m.trade_publishers ≡ some published
      → json.parse message ≡ ok jmsg
      → json.contains jmsg "type" ≡ true
      → is_trade_msg jmsg ≡ ok true
      → string_at jmsg "product_id" ≡ ok product_id
      → on_feed_message proto message m ≡ ok n
      → (t : Trade F) × (payload : String) × (get_trade jmsg ≡ ok (some t))
        × (generate_message proto t ≡ ok payload)
        × Published proto product_id published payload m n
  on_feed_message-publishes message product_id jmsg published m n r there parsed typed is_trade
        names e =
      listened_trade laws proto message product_id jmsg published m n parsed typed is_trade names
        (Reach-listens proto is_valid r) there e

  -- In every state that the new system reaches: once the feed client has taken a received limit order,
  -- which has a price and no funds, of a product that has a trade publisher, the call of the trade
  -- listener has undefined behaviour, since it reads the funds that are not there.
  pub limit_order-undefined :
      (message product_id : String) (jmsg : J) (published : List String) (m : System F J)
      (c : CoinbaseFeedClient J) (trades : List (Option (Trade F)))
      → Reach proto is_valid new_system m
      → Dict.find product_id m.trade_publishers ≡ some published
      → json.parse message ≡ ok jmsg
      → json.contains jmsg "type" ≡ true
      → string_at jmsg "type" ≡ ok "received"
      → json.contains jmsg "price" ≡ true
      → json.contains jmsg "founds" ≡ false
      → string_at jmsg "product_id" ≡ ok product_id
      → CoinbaseFeedClient.on_message_received message m.feed_client ≡ ok (c, trades)
      → on_feed_message proto message m ≡ err undefined
  unfolding on_feed_message on_trades on_trade CoinbaseFeedClient.on_message_received receive_parsed
  limit_order-undefined message product_id jmsg published m c trades r there parsed typed type
        priced unfunded names e =
      let (t, read, called) =
        received_trade laws proto jmsg m.feed_client c trades typed (Reach-listens proto is_valid r)
          (received-is_trade laws proto jmsg typed type) (rw parsed at e) in
      let named : product_id ≡ Trade.get_product_id t =
        ok-injective (sym names ∙ get_trade-product_id jmsg t read) in
      let found = ap (λ k. Dict.find k m.trade_publishers) (sym named) ∙ there in
      let broken = get_trade-limit_order proto jmsg t type priced unfunded read in
      rw (e, called, found, broken) refl
