-- ===== src/EndpointService/Ports.antt =====
-- The ports of the endpoints.
use quote_server.Base.{
  String, ℕ, ◌+◌, ◌<◌, ◌≤◌, length, ◌≡◌, refl, sym, ◌∙◌, ap, ◌⊎◌, inl, inr, some, Option-cases,
  List, [], ◌∷◌, ok, arith, >>=-eq-ok, ok-injective, Bool-cases,
}
use mathlib.Core.Path.{subst}
use quote_server.Base.Dict
use quote_server.Base.Dict.{Dict, find-insert}
use quote_server.Json.{Json, string_at}
use quote_server.EndpointService.{
  Endpoint, first_order_port, first_trade_port, Provider, endpoint_at, no_products, add_product,
  add_products, new_provider, prod_id_to_port,
}

-- The endpoint of number `k`.
abbrev pub numbered : ℕ → Endpoint
numbered k = endpoint_at (first_order_port + k) (first_trade_port + k)

-- So many numbers are used, and every endpoint has one of them.
pub record IsNumbered (p : Provider) (count : ℕ) : Type 0 where
  pub order : p.order_port ≡ first_order_port + count
  pub trade : p.trade_port ≡ first_trade_port + count
  pub below :
      (id : String) (e : Endpoint)
      → Dict.find id p.product_ids ≡ some e
      → (k : ℕ) × (k < count) × (e ≡ numbered k)

-- An entry after an insertion was there before, or is the one inserted.
inserted :
    (id j : String) (new e : Endpoint) (m : Dict Endpoint)
    → Dict.find j (Dict.insert id new m) ≡ some e
    → (Dict.find j m ≡ some e) ⊎ (new ≡ e)
inserted id j new e m there = elim (Option-cases (Dict.find j m)) [
  | inr (old, before) ↦ inl (ground (arith, find-insert j id new m))
  | inl missing ↦ inr (ground (arith, find-insert j id new m))
]

insert-IsNumbered :
    (id : String) (p : Provider) (count : ℕ)
    → IsNumbered p count
    → IsNumbered
        (record {
          product_ids = Dict.insert id (endpoint_at p.order_port p.trade_port) p.product_ids;
          order_port = p.order_port + 1;
          trade_port = p.trade_port + 1;
        })
        (count + 1)
insert-IsNumbered id p count h = record {
  order = omega (arith, h.order);
  trade = omega (arith, h.trade);
  below = λ j e there.
      elim (inserted id j (endpoint_at p.order_port p.trade_port) e p.product_ids there) [
        | inl before ↦ let (k, less, same) = h.below j e before in (k, omega arith, same)
        | inr new ↦ (
          count,
          omega arith,
          sym new
              ∙ ap (λ o. endpoint_at o p.trade_port) h.order
              ∙ ap (endpoint_at (first_order_port + count)) h.trade,
        )
      ];
}

module _ {J : Type 0} ⦃json : Json J⦄ where
  add_product-IsNumbered :
      (product : J) (p q : Provider) (count : ℕ)
      → add_product product p ≡ ok q
      → IsNumbered p count
      → (n : ℕ) × (n ≤ count + 1) × IsNumbered q n
  unfolding add_product
  add_product-IsNumbered product p q count e h =
      let (status, e₁, e₂) = >>=-eq-ok (json.at product "status") _ e in
      elim (Bool-cases (json.is_text status "online")) [
        | inl online ↦
            let (id, e₃, e₄) = >>=-eq-ok (string_at product "id") _ (rw online at e₂) in
            (
              count + 1,
              omega arith,
              subst (λ x. IsNumbered x (count + 1)) (ok-injective e₄)
                  (insert-IsNumbered id p count h),
            )
        | inr offline ↦
            let same : p ≡ q = ok-injective (rw offline at e₂) in
            (count, omega arith, subst (λ x. IsNumbered x count) same h)
      ]

  add_products-IsNumbered :
      (products : List J) (p q : Provider) (count : ℕ)
      → add_products products p ≡ ok q
      → IsNumbered p count
      → (n : ℕ) × (n ≤ count + length products) × IsNumbered q n
  unfolding add_products
  add_products-IsNumbered [] p q count e h =
      (count, omega arith, subst (λ x. IsNumbered x count) (ok-injective e) h)
  add_products-IsNumbered (product ∷ products) p q count e h =
      let (r, e₁, e₂) = >>=-eq-ok (add_product product p) _ e in
      let (n, n_le, hr) = add_product-IsNumbered product p r count e₁ h in
      let (o, o_le, hq) = add_products-IsNumbered products r q n e₂ hr in (o, omega arith, hq)

  -- Every endpoint that the provider gives out has the order port 83000 + k and the trade port
  -- 93000 + k for a number k below the number of products that the exchange listed.
  pub prod_id_to_port-numbered :
      (results : String) (jmsg : J) (p : Provider) (id : String) (e : Endpoint)
      → json.parse results ≡ ok jmsg
      → new_provider json results ≡ ok p
      → prod_id_to_port id p ≡ ok e
      → (k : ℕ) × (k < length (json.elements jmsg)) × (e ≡ numbered k)
  unfolding new_provider prod_id_to_port Dict.find
  prod_id_to_port-numbered results jmsg p id e parsed built asked =
      let all : add_products (json.elements jmsg) no_products ≡ ok p = ground arith in
      let (n, n_le, h) =
        add_products-IsNumbered (json.elements jmsg) no_products p 0 all
          (record { order = refl; trade = refl; below = λ j x there. absurd (ground arith) }) in
      let there : Dict.find id p.product_ids ≡ some e = ground arith in
      let (k, less, same) = h.below id e there in (k, omega arith, same)
