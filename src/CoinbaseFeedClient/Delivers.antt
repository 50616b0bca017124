-- ===== src/CoinbaseFeedClient/Delivers.antt =====
-- Every message of the exchange, as Wire has it, is one that the feed client gives to its product.
use quote_server.Base.{String, ◌≡◌, refl, ◌∙◌, some, List, ok, true, has}
use quote_server.Base.Dict
use quote_server.Base.Dict.{find}
use quote_server.Json.{Json, JsonLaws, string_member}
use quote_server.FeedMessageHandler.Wire.{
  FeedEvent, opens, finishes, trades, changes, ticks, beats, receives, event_fields, event_message,
}
use quote_server.FeedProduct
use quote_server.FeedProduct.{FeedProduct}
use quote_server.CoinbaseFeedClient.{CoinbaseFeedClient, sequenced, to_product}

module _ {J F : Type 0} ⦃json : Json J⦄ (laws : JsonLaws json) (show : F → String)
    (further : FeedEvent F → List (String × J)) (product_id : String) where
  -- The members that every message has.
  common_members :
      (e : FeedEvent F)
      → (find "product_id" (event_fields json show further product_id e)
          ≡ some (json.text product_id))
        × (has (find "sequence" (event_fields json show further product_id e)) ≡ true)
        × (has (find "product_id" (event_fields json show further product_id e)) ≡ true)
  unfolding find
  common_members (opens id price size side n) = (refl, refl, refl)
  common_members (finishes id side n) = (refl, refl, refl)
  common_members (trades maker taker price size side n) = (refl, refl, refl)
  common_members (changes id price size side n) = (refl, refl, refl)
  common_members (ticks n) = (refl, refl, refl)
  common_members (beats n) = (refl, refl, refl)
  common_members (receives n) = (refl, refl, refl)

  -- Where the client has the product of an event, and the product takes the event's message, the
  -- message is given to that product and to no other.
  pub sequenced-event :
      (e : FeedEvent F) (c : CoinbaseFeedClient J) (p q : FeedProduct J)
      → Dict.find product_id c.prod_id_to_listener ≡ some p
      → FeedProduct.on_message_received (event_message json show further product_id e) p ≡ ok q
      → sequenced (event_message json show further product_id e) c
        ≡ ok (record c { prod_id_to_listener = Dict.assign product_id q c.prod_id_to_listener })
  unfolding sequenced to_product
  sequenced-event e c p q there takes =
      let fields = event_fields json show further product_id e in
      let (named, numbered, has_name) = common_members e in
      let message = event_message json show further product_id e in
      let present = laws.contains-object fields "product_id" ∙ has_name in
      let name : string_member message "product_id" ≡ ok product_id =
        rw
          (
            laws.member_present message "product_id" present,
            laws.at-object fields "product_id" (json.text product_id) named,
          )
          (laws.get_string-text product_id) in
      rw (laws.contains-object fields "sequence", numbered, name, to_product, there, takes) refl
