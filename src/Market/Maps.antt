-- ===== src/Market/Maps.antt =====
-- The market's maps under each operation: a product and its trade publisher come and go together,
-- and no product has a client.
use quote_server.Base.{
  String, ◌==◌, ◌≡◌, refl, sym, ap, ◌∙◌, none, some, List, [], ◌∷◌, arith, eq_iff, if◌then◌else◌,
  inl, inr, Option-cases, Bool-cases, ok, has, push_back, not, ok-injective, >>=-eq-ok,
}
use mathlib.Core.Path.{subst}
use quote_server.Base.Dict
use quote_server.Base.Dict.{Dict, find-assign, find-insert, find-erase}
use quote_server.Base.Floating.{Floating}
use quote_server.ProductChange.{ProductChange}
use quote_server.Product.{Product, on_product_changes, new_product, has_clients, remove_client}
use quote_server.Product.Batches.{on_product_changes-publishes}
use quote_server.Protobuf.{Protobuf}
use quote_server.Trade
use quote_server.Trade.{Trade, generate_message}
use quote_server.FeedClient.{FeedClient}
use quote_server.Market.{
  Market, Arrangement, runs, update_product, update_products, process_product_changes,
  publish_trade, on_trade, subscribe, unsubscribe, begin_subscribe, subscribe_feed,
}

pub record IsCoherent {F D : Type 0} (m : Market F D) : Type 0 where
  pub paired : (id : String) → has (Dict.find id m.trade_publishers) ≡ has (Dict.find id m.products)
  pub unclaimed : (id : String) (p : Product F) → Dict.find id m.products ≡ some p → p.clients ≡ []

-- No product has a client.
abbrev pub Unclaimed : {F : Type 0} → Dict (Product F) → Type 0
Unclaimed {F} products =
    (id : String) (p : Product F) → Dict.find id products ≡ some p → p.clients ≡ []

-- Two maps with the same keys.
abbrev SameKeys : {A B : Type 0} → Dict A → Dict B → Type 0
SameKeys a b = (id : String) → has (Dict.find id a) ≡ has (Dict.find id b)

module _ {F : Type 0} (f : Floating F) where
  clients-on_product_changes :
      (pcs : List (ProductChange F)) (p : Product F)
      → (on_product_changes f pcs p).clients ≡ p.clients
  clients-on_product_changes [] p = unfold on_product_changes in refl
  clients-on_product_changes (pc ∷ pcs) p =
      ap (λ (q : Product F). q.clients) (on_product_changes-publishes f pc pcs p)

  update_product-keeps :
      (j : String) (pcs : List (ProductChange F)) (products : Dict (Product F))
      → Unclaimed products
      → SameKeys (update_product f (j, pcs) products) products
        × Unclaimed (update_product f (j, pcs) products)
  unfolding update_product
  update_product-keeps j pcs products u = elim (Option-cases (Dict.find j products)) [
    | inl missing ↦ rw (missing, update_product) ((λ id. refl), u)
    | inr (p, there) ↦
        rw (there, update_product)
          (
            (λ id.
                ground
                  (arith, find-assign id j (on_product_changes f pcs p) products, eq_iff j id)),
            (λ id q e. ground (
              arith,
              find-assign id j (on_product_changes f pcs p) products,
              eq_iff j id,
              clients-on_product_changes pcs p,
              u id q,
              u j p there,
            )),
          )
  ]

  pub update_products-keeps :
      (rs : List (String × List (ProductChange F))) (products : Dict (Product F))
      → Unclaimed products
      → SameKeys (update_products f rs products) products
        × Unclaimed (update_products f rs products)
  unfolding update_products
  update_products-keeps [] products u = ((λ id. refl), u)
  update_products-keeps ((j, pcs) ∷ rs) products u =
      let one = update_product-keeps j pcs products u in
      let rest = update_products-keeps rs (update_product f (j, pcs) products) one.1 in
      ((λ id. rest.0 id ∙ one.0 id), rest.1)

module _ {F D : Type 0} where
  publish_trade-IsCoherent :
      (product_id trade : String) (m : Market F D)
      → IsCoherent m
      → IsCoherent (publish_trade product_id trade m)
  unfolding publish_trade
  publish_trade-IsCoherent product_id trade m h =
      elim (Option-cases (Dict.find product_id m.trade_publishers)) [
        | inl missing ↦ rw (missing, publish_trade) h
        | inr (published, there) ↦
            rw (there, publish_trade)
              (record {
                paired = λ id. ground (
                  arith,
                  find-assign id product_id (push_back published trade) m.trade_publishers,
                  eq_iff product_id id,
                  h.paired id,
                );
                unclaimed = h.unclaimed;
              })
      ]

  pub on_trade-IsCoherent :
      (proto : Protobuf F) (t : Trade F) (m n : Market F D)
      → on_trade proto t m ≡ ok n
      → IsCoherent m
      → IsCoherent n
  unfolding on_trade
  on_trade-IsCoherent proto t m n e h =
      elim (Bool-cases (not (has (Dict.find (Trade.get_product_id t) m.trade_publishers)))) [
        | inl dropped ↦ let same : m ≡ n = ground arith in subst IsCoherent same h
        | inr known ↦
            let (payload, e₁, e₂) = >>=-eq-ok (generate_message proto t) _ (rw known at e) in
            subst IsCoherent (ok-injective e₂)
              (publish_trade-IsCoherent (Trade.get_product_id t) payload m h)
      ]

  pub process_product_changes-IsCoherent :
      (f : Floating F) (arrange : Arrangement F) (m : Market F D)
      → IsCoherent m
      → IsCoherent (process_product_changes f arrange m)
  unfolding process_product_changes
  process_product_changes-IsCoherent f arrange m h = elim (Bool-cases m.is_running) [
    | inr stopped ↦
        let same : m ≡ process_product_changes f arrange m = ground arith in subst IsCoherent same h
    | inl runs_on ↦
        let kept =
          update_products-keeps f (runs (arrange m.product_changes)) m.products h.unclaimed in
        simp runs_on (record { paired = λ id. h.paired id ∙ sym (kept.0 id); unclaimed = kept.1 })
  ]

none_after :
    {F : Type 0} (client_id : String) (p : Product F)
    → p.clients ≡ []
    → has_clients (remove_client client_id p) ≡ 0
unfolding has_clients remove_client Dict.erase
none_after client_id p e = ground arith

module _ {F D : Type 0} (feed : FeedClient D) where
  -- What a subscription makes of the two maps.
  pub subscribe-products :
      (client_id product_id : String) (m n : Market F D) (id : String)
      → subscribe feed client_id product_id m ≡ ok n
      → Dict.find id n.products ≡ (
          if product_id == id
          then some (Dict.or_else (Dict.find id m.products) (new_product product_id))
          else Dict.find id m.products)
  unfolding subscribe
  subscribe-products client_id product_id m n id e =
      ground
        (arith, find-insert id product_id (new_product product_id) m.products, eq_iff product_id id)

  pub begin_subscribe-products :
      (client_id product_id : String) (m n : Market F D) (id : String)
      → begin_subscribe feed client_id product_id m ≡ ok n
      → Dict.find id n.products ≡ (
          if product_id == id
          then some (Dict.or_else (Dict.find id m.products) (new_product product_id))
          else Dict.find id m.products)
  unfolding subscribe_feed
  begin_subscribe-products client_id product_id m n id e =
      ground
        (arith, find-insert id product_id (new_product product_id) m.products, eq_iff product_id id)

  subscribe-publishers :
      (client_id product_id : String) (m n : Market F D) (id : String)
      → subscribe feed client_id product_id m ≡ ok n
      → Dict.find id n.trade_publishers ≡ (
          if product_id == id
          then some (Dict.or_else (Dict.find id m.trade_publishers) [])
          else Dict.find id m.trade_publishers)
  unfolding subscribe
  subscribe-publishers client_id product_id m n id e =
      ground (arith, find-insert id product_id [] m.trade_publishers, eq_iff product_id id)

  pub subscribe-IsCoherent :
      (client_id product_id : String) (m n : Market F D)
      → subscribe feed client_id product_id m ≡ ok n
      → IsCoherent m
      → IsCoherent n
  unfolding new_product
  subscribe-IsCoherent client_id product_id m n e h = record {
    paired = λ id. ground (
      arith,
      subscribe-products client_id product_id m n id e,
      subscribe-publishers client_id product_id m n id e,
      h.paired id,
    );
    unclaimed = λ id p q.
        ground (arith, subscribe-products client_id product_id m n id e, h.unclaimed id p);
  }

  -- Where no product has a client, an unsubscription of anybody drops the product and its publisher.
  pub unsubscribe-drops :
      (client_id product_id : String) (m n : Market F D) (id : String)
      → Unclaimed m.products
      → unsubscribe feed client_id product_id m ≡ ok n
      → (Dict.find id n.products ≡ (if product_id == id then none else Dict.find id m.products))
        × (Dict.find id n.trade_publishers
            ≡ (if product_id == id then none else Dict.find id m.trade_publishers))
  unfolding unsubscribe
  unsubscribe-drops client_id product_id m n id h e =
      elim (Option-cases (Dict.find product_id m.products)) [
        | inl missing ↦ absurd (ground arith)
        | inr (p, there) ↦
            let none_left = none_after client_id p (h product_id p there) in
            ground (
              arith,
              none_left,
              find-erase id product_id
                  (Dict.assign product_id (remove_client client_id p) m.products),
              find-assign id product_id (remove_client client_id p) m.products,
              find-erase id product_id m.trade_publishers,
              eq_iff product_id id,
            )
      ]

  pub unsubscribe-IsCoherent :
      (client_id product_id : String) (m n : Market F D)
      → unsubscribe feed client_id product_id m ≡ ok n
      → IsCoherent m
      → IsCoherent n
  unsubscribe-IsCoherent client_id product_id m n e h = record {
    paired = λ id.
        ground (arith, unsubscribe-drops client_id product_id m n id h.unclaimed e, h.paired id);
    unclaimed = λ id p q.
        ground
          (arith, unsubscribe-drops client_id product_id m n id h.unclaimed e, h.unclaimed id p);
  }
