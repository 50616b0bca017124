-- ===== src/CoinbaseFeedClient/Routing.antt =====
-- Whom a message of the feed reaches.
use quote_server.Base.{
  String, ◌==◌, ◌≡◌, inl, inr, true, false, Option, some, List, ok, arith, >>=-eq-ok, ok-injective,
  Option-cases,
}
use mathlib.Core.Path.{subst}
use text.Mathlib.TextPositions.{eq_refl}
use quote_server.Base.Dict
use quote_server.Base.Dict.{Dict, find-assign, find-insert, find-erase}
use quote_server.Base.Floating.{Floating}
use quote_server.Json.{Json, string_member}
use quote_server.Trade.{Trade}
use quote_server.FeedProduct
use quote_server.FeedProduct.{FeedProduct}
use quote_server.CoinbaseFeedClient.{
  CoinbaseFeedClient, to_product, sequenced, receive_json, receive_parsed, on_message_received,
}

-- The listener that a message reaches, after it.
abbrev pub Delivered :
    {J : Type 0} ⦃json : Json J⦄ → J → FeedProduct J → Option (FeedProduct J) → Type 0
Delivered {J} jmsg before after =
    (q : FeedProduct J) × (FeedProduct.on_message_received jmsg before ≡ ok q) × (after ≡ some q)

module _ {J : Type 0} ⦃json : Json J⦄ where
  to_product-others :
      (product_id : String) (jmsg : J) (c c' : CoinbaseFeedClient J) (id : String)
      → to_product product_id jmsg c ≡ ok c'
      → (product_id == id) ≡ false
      → Dict.find id c'.prod_id_to_listener ≡ Dict.find id c.prod_id_to_listener
  unfolding to_product
  to_product-others product_id jmsg c c' id e other =
      elim (Option-cases (Dict.find product_id c.prod_id_to_listener)) [
        | inl missing ↦ ground arith
        | inr (p, there) ↦
            let (q, e₁, e₂) =
              >>=-eq-ok (FeedProduct.on_message_received jmsg p) _ (rw (there, to_product) at e) in
            subst
              (λ (d : CoinbaseFeedClient J).
                Dict.find id d.prod_id_to_listener ≡ Dict.find id c.prod_id_to_listener)
              (ok-injective e₂) (ground (arith, find-assign id product_id q c.prod_id_to_listener))
      ]

  to_product-Delivered :
      (product_id : String) (jmsg : J) (c c' : CoinbaseFeedClient J) (p : FeedProduct J)
      → to_product product_id jmsg c ≡ ok c'
      → Dict.find product_id c.prod_id_to_listener ≡ some p
      → Delivered jmsg p (Dict.find product_id c'.prod_id_to_listener)
  unfolding to_product
  to_product-Delivered product_id jmsg c c' p e there =
      let (q, e₁, e₂) =
        >>=-eq-ok (FeedProduct.on_message_received jmsg p) _ (rw (there, to_product) at e) in
      subst
        (λ (d : CoinbaseFeedClient J).
          Delivered jmsg p (Dict.find product_id d.prod_id_to_listener))
        (ok-injective e₂)
        (
          q,
          e₁,
          ground (
            arith,
            eq_refl product_id,
            find-assign product_id product_id q c.prod_id_to_listener,
          ),
        )

  -- A message of the feed with a sequence number is received by the product that it names, if that is
  -- subscribed to, and by no other.
  pub on_message_received-delivers :
      {F : Type 0} ⦃f : Floating F⦄ (message product_id : String) (jmsg : J)
      (c c' : CoinbaseFeedClient J) (p : FeedProduct J) (trades : List (Option (Trade F)))
      → json.parse message ≡ ok jmsg
      → json.contains jmsg "type" ≡ true
      → json.contains jmsg "sequence" ≡ true
      → string_member jmsg "product_id" ≡ ok product_id
      → Dict.find product_id c.prod_id_to_listener ≡ some p
      → on_message_received message c ≡ ok (c', trades)
      → Delivered jmsg p (Dict.find product_id c'.prod_id_to_listener)
        × ((id : String)
            → (product_id == id) ≡ false
            → Dict.find id c'.prod_id_to_listener ≡ Dict.find id c.prod_id_to_listener)
  unfolding on_message_received receive_parsed receive_json sequenced
  on_message_received-delivers message product_id jmsg c c' p trades parsed typed numbered names
        there e =
      let passed : to_product product_id jmsg c ≡ ok c' = ground arith in
      (
        to_product-Delivered product_id jmsg c c' p passed there,
        λ id other. to_product-others product_id jmsg c c' id passed other,
      )
