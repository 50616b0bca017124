-- ===== src/System/Requests.antt =====
-- The requests of the clients, served over the market and the Coinbase feed.
use mathlib.Core.Path.{subst}
use quote_server.Base.{
  String, eq_iff, ◌≡◌, sym, ap, ◌∙◌, ◌⊎◌, arith, inl, inr, Bool, true, false, ok, has, >>=-eq-ok,
  ok-injective, Option-cases,
}
use quote_server.Base.Dict
use quote_server.Base.Dict.{Dict, find-insert}
use quote_server.Base.Floating.{Floating}
use quote_server.Json.{Json}
use quote_server.Protobuf.{Protobuf}
use quote_server.EndpointService
use quote_server.EndpointService.{Provider}
use quote_server.ClientService.{ClientService, Outcome, count, handle_message}
use quote_server.ClientService.Guarded.{handle_message-IsGuarded}
use quote_server.CoinbaseFeedClient.{coinbase_feed}
use quote_server.Product.{new_product, new_client}
use quote_server.FeedClient.{FeedClient}
use quote_server.Market
use quote_server.Market.{Market, market_subscriber, subscribe_feed}
use quote_server.Market.Clients
use quote_server.Market.Maps.{unsubscribe-drops}
use quote_server.System.{System, new_system, calls, Reach, more}
use quote_server.System.Served.{Reach-new-IsServed}

subscribe_feed-has :
    {F D : Type 0} (feed : FeedClient D) (product_id : String) (m n : Market F D)
    → subscribe_feed feed product_id m ≡ ok n
    → has (Dict.find product_id n.products) ≡ true
unfolding subscribe_feed
subscribe_feed-has feed product_id m n e = elim (Option-cases (Dict.find product_id m.products)) [
  | inr (p, there) ↦
      let same = ok-injective (rw (there, subscribe_feed) at e) in
      ap (λ (m : Market _ _). has (Dict.find product_id m.products)) (sym same) ∙ ap has there
  | inl absent ↦
      let (d, fed, done) =
        >>=-eq-ok (feed.subscribe product_id m.feed_client) _ (rw (absent, subscribe_feed) at e) in
      ap (λ (m : Market _ _). has (Dict.find product_id m.products)) (sym (ok-injective done))
      ∙ ground (
        arith,
        find-insert product_id product_id (new_product product_id) m.products,
        eq_iff product_id product_id,
      )
]

-- A subscription leaves the product in the market.
subscribe-has :
    {F D : Type 0} (feed : FeedClient D) (client_id product_id : String) (m n : Market F D)
    → Market.subscribe feed client_id product_id m ≡ ok n
    → has (Dict.find product_id n.products) ≡ true
unfolding Market.subscribe
subscribe-has feed client_id product_id m n e =
    let known = record m { clients = Dict.insert client_id (new_client client_id) m.clients } in
    let (fed, added, done) = >>=-eq-ok (subscribe_feed feed product_id known) _ e in
    ap (λ (m : Market _ _). has (Dict.find product_id m.products)) (sym (ok-injective done))
    ∙ subscribe_feed-has feed product_id known fed added

module _ {F J : Type 0} ⦃json : Json J⦄ ⦃f : Floating F⦄ (proto : Protobuf F)
    (is_valid : String → Bool) where
  -- The feed client listens for the product.
  abbrev pub IsListening : String → System F J → Type 0
  IsListening product_id m = has (Dict.find product_id m.feed_client.prod_id_to_listener) ≡ true

  -- A call of the market for a client, and what it leaves: after a subscription the feed client listens
  -- for the product, and after an unsubscription it does not.
  abbrev pub IsCarriedOut : ClientService → Provider → System F J → System F J → Type 0
  IsCarriedOut s endpoints m n =
      (client_id : String) × (product_id : String) × (count client_id s.registered_client_ids
        ≡ true)
      × (EndpointService.contains product_id endpoints ≡ true)
      × (((Market.subscribe (coinbase_feed is_valid) client_id product_id m ≡ ok n)
            × IsListening product_id n)
          ⊎ ((Market.unsubscribe (coinbase_feed is_valid) client_id product_id m ≡ ok n)
              × ¬ IsListening product_id n))

  -- In every state that the new system reaches, whatever the bytes of a client's request: a round of the
  -- client service that ends without a fault leads to a state that the system reaches as well; it has
  -- left the system alone or carried out one subscription or unsubscription, of a registered client
  -- and a known product, after which the feed client listens for that product or does not.
  pub handle_message-IsCarriedOut :
      (endpoints : Provider) (uuid message : String) (s s' : ClientService) (m n : System F J)
      (o : Outcome J)
      → Reach proto is_valid new_system m
      → handle_message
          (market_subscriber ⦃feed = coinbase_feed is_valid⦄)
          endpoints
          uuid
          message
          s
          m
        ≡ ok (o, s', n)
      → Reach proto is_valid new_system n × ((n ≡ m) ⊎ IsCarriedOut s endpoints m n)
  handle_message-IsCarriedOut endpoints uuid message s s' m n o r e =
      elim (handle_message-IsGuarded (market_subscriber ⦃feed = coinbase_feed is_valid⦄) endpoints
        uuid message s m o s' n e).0 [
          | inl same ↦ (subst (Reach proto is_valid new_system) (sym same) r, inl same)
          | inr (client_id, product_id, known, there, inl done) ↦
              let reached = more r (calls (Clients.subscribes client_id product_id done)) in
              let served = (Reach-new-IsServed proto is_valid reached).served product_id in
              let kept = subscribe-has (coinbase_feed is_valid) client_id product_id m n done in
              (reached, inr (client_id, product_id, known, there, inl (done, served ∙ kept)))
          | inr (client_id, product_id, known, there, inr done) ↦
              let reached = more r (calls (Clients.unsubscribes client_id product_id done)) in
              let served = (Reach-new-IsServed proto is_valid reached).served product_id in
              let unclaimed = (Reach-new-IsServed proto is_valid r).unclaimed in
              let dropped =
                (unsubscribe-drops (coinbase_feed is_valid) client_id product_id m n product_id
                  unclaimed done).0 in
              let gone : has (Dict.find product_id n.products) ≡ false =
                ground (arith, dropped, eq_iff product_id product_id) in
              (
                reached,
                inr (
                  client_id,
                  product_id,
                  known,
                  there,
                  inr (done, λ listens. ground (arith, served, gone, listens)),
                ),
              )
        ]
