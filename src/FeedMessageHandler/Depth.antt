-- ===== src/FeedMessageHandler/Depth.antt =====
-- Fuel above the depth of the message makes no difference.
use mathlib.Core.List.{Memᴰ}
use quote_server.Base.{
  String, ℕ, zero, suc, ◌<◌, ◌≡◌, refl, Option, List, [], ◌∷◌, Result, map_results, arith, inl, inr,
  Result-cases,
}
use quote_server.Base.Floating.{Floating}
use quote_server.Json.{Json, JsonLaws}
use quote_server.ProductChange.{ProductChange}
use quote_server.FeedMessageHandler.{merged_changes, full_book, get_product_change}

map_results-cong {ℓ κ} :
    {A : Type ℓ} {B : Type κ} (f g : A → Result B) (xs : List A)
    → ((x : A) → Memᴰ x xs → f x ≡ g x)
    → map_results f xs ≡ map_results g xs
map_results-cong f g [] h = refl
map_results-cong f g (x ∷ xs) h =
    rw (h x (Memᴰ.head refl), map_results-cong f g xs (λ y m. h y (Memᴰ.tail m)))

module _ {J F : Type 0} ⦃json : Json J⦄ ⦃f : Floating F⦄ (laws : JsonLaws json) where
  merged_changes-cong :
      (g h : J → Result (Option (ProductChange F))) (jmsg : J)
      → ((x : J) → laws.depth x < laws.depth jmsg → g x ≡ h x)
      → merged_changes g jmsg ≡ merged_changes h jmsg
  unfolding merged_changes
  merged_changes-cong g h jmsg same = elim (Result-cases (json.at jmsg "to_merge")) [
    | inl (msgs, e) ↦
        let loop =
          map_results-cong g h (json.elements msgs)
            (λ x m. same x (laws.depth-at jmsg msgs x "to_merge" e m)) in
        rw (e, loop)
    | inr (fault, e) ↦ rw e
  ]

  full_book-cong :
      (g h : J → Result (Option (ProductChange F))) (product_id : String) (jmsg : J)
      → ((x : J) → laws.depth x < laws.depth jmsg → g x ≡ h x)
      → full_book g product_id jmsg ≡ full_book h product_id jmsg
  unfolding full_book
  full_book-cong g h product_id jmsg same = simp (merged_changes-cong g h jmsg same)

  -- With fuel above the depth of the message, more fuel changes nothing: the result is that of the
  -- recursion in the source, which has no bound.
  pub get_product_change-fuel :
      (n m : ℕ) (product_id : String) (jmsg : J)
      → laws.depth jmsg < n
      → laws.depth jmsg < m
      → get_product_change {F = F} n product_id jmsg ≡ get_product_change m product_id jmsg
  unfolding get_product_change
  get_product_change-fuel zero m product_id jmsg a b = absurd (omega arith)
  get_product_change-fuel (suc n) zero product_id jmsg a b = absurd (omega arith)
  get_product_change-fuel (suc n) (suc m) product_id jmsg a b = rw (
      full_book-cong (get_product_change n product_id) (get_product_change m product_id) product_id
        jmsg (λ x d. get_product_change-fuel n m product_id x (omega arith) (omega arith)))
