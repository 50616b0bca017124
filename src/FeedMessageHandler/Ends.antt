-- ===== src/FeedMessageHandler/Ends.antt =====
-- Reading a message ends: with fuel above the depth of the message it never runs out.
use mathlib.Core.List.{Memᴰ}
use quote_server.Base.{
  Bool-cases, String, ℕ, zero, suc, ◌<◌, ◌≡◌, ◌≢◌, refl, ap, ◌&&◌, ◌==◌, Option, List, [], ◌∷◌,
  Result, ok, err, too_deep, ◌>>=◌, map_results, arith, inl, inr,
}
use quote_server.Base.Floating.{Floating, stod}
use quote_server.Json.{Json, JsonLaws, string_at, ulong_at}
use quote_server.ProductChange.{ProductChange}
use quote_server.FeedMessageHandler.{
  some_change, order_of, opened_of, done_of, matched_of, changed_of, typed_change, merged_changes,
  full_book, get_product_change,
}
use quote_server.FeedMessageHandler.Depth.{get_product_change-fuel}

-- No call that is not the model's own runs out of the model's fuel.
pub record IsOutside {J F : Type 0} (json : Json J) (f : Floating F) : Type 0 where
  pub at : (j : J) (key : String) → json.at j key ≢ err too_deep
  pub item : (j : J) (i : ℕ) → json.item j i ≢ err too_deep
  pub get_string : (j : J) → json.get_string j ≢ err too_deep
  pub get_ulong : (j : J) → json.get_ulong j ≢ err too_deep
  pub stod : (s : String) → f.stod s ≢ err too_deep

-- A computation ends where its first part and its rest do.
bind-ends {ℓ κ} :
    {A : Type ℓ} {B : Type κ} (first : Result A) (rest : A → Result B)
    → first ≢ err too_deep
    → ((a : A) → first ≡ ok a → rest a ≢ err too_deep)
    → (first >>= rest) ≢ err too_deep
bind-ends (ok a) rest h k = k a refl
bind-ends (err fault) rest h k = λ e. h (let same : fault ≡ too_deep = cc in ap err same)

map_results-ends {ℓ κ} :
    {A : Type ℓ} {B : Type κ} (g : A → Result B) (xs : List A)
    → ((x : A) → Memᴰ x xs → g x ≢ err too_deep)
    → map_results g xs ≢ err too_deep
map_results-ends g [] h = λ e. cc
map_results-ends g (x ∷ xs) h = bind-ends (g x) _ (h x (Memᴰ.head refl)) (λ y _.
    bind-ends (map_results g xs) _ (map_results-ends g xs (λ z m. h z (Memᴰ.tail m)))
      (λ ys _ e. cc))

module _ {J F : Type 0} ⦃json : Json J⦄ ⦃f : Floating F⦄ (outside : IsOutside json f) where
  string_at-ends :
      {B : Type 0} (j : J) (key : String) (rest : String → Result B)
      → ((s : String) → rest s ≢ err too_deep)
      → (string_at j key >>= rest) ≢ err too_deep
  string_at-ends j key rest k =
      bind-ends (string_at j key) rest
        (bind-ends (json.at j key) _ (outside.at j key) (λ v _. outside.get_string v)) (λ s _. k s)

  ulong_at-ends :
      {B : Type 0} (j : J) (key : String) (rest : ℕ → Result B)
      → ((n : ℕ) → rest n ≢ err too_deep)
      → (ulong_at j key >>= rest) ≢ err too_deep
  ulong_at-ends j key rest k =
      bind-ends (ulong_at j key) rest
        (bind-ends (json.at j key) _ (outside.at j key) (λ v _. outside.get_ulong v)) (λ n _. k n)

  stod-ends :
      {B : Type 0} (s : String) (rest : F → Result B)
      → ((x : F) → rest x ≢ err too_deep)
      → (stod s >>= rest) ≢ err too_deep
  stod-ends s rest k = bind-ends (stod s) rest (outside.stod s) (λ x _. k x)

  text_item-ends :
      {B : Type 0} (j : J) (i : ℕ) (rest : String → Result B)
      → ((s : String) → rest s ≢ err too_deep)
      → (json.item j i >>= (λ v. json.get_string v >>= rest)) ≢ err too_deep
  text_item-ends j i rest k =
      bind-ends (json.item j i) _ (outside.item j i)
        (λ v _. bind-ends (json.get_string v) rest (outside.get_string v) (λ s _. k s))

  order_of-ends : (order : J) → order_of {F = F} order ≢ err too_deep
  unfolding order_of
  order_of-ends order = text_item-ends order 0 _ (λ price. text_item-ends order 1 _ (λ size.
      text_item-ends order 2 _ (λ id. stod-ends price _ (λ p. stod-ends size _ (λ s e. cc)))))

  opened_of-ends :
      (product_id : String) (jmsg : J) → opened_of {F = F} product_id jmsg ≢ err too_deep
  unfolding opened_of
  opened_of-ends product_id jmsg = string_at-ends jmsg "order_id" _ (λ id.
      ulong_at-ends jmsg "sequence" _ (λ n. string_at-ends jmsg "price" _ (λ price.
        string_at-ends jmsg "remaining_size" _ (λ size.
          string_at-ends jmsg "side" _
            (λ side. stod-ends price _ (λ p. stod-ends size _ (λ s e. cc)))))))

  done_of-ends : (product_id : String) (jmsg : J) → done_of {F = F} product_id jmsg ≢ err too_deep
  unfolding done_of
  done_of-ends product_id jmsg =
      string_at-ends jmsg "order_id" _
        (λ id. string_at-ends jmsg "side" _ (λ side. ulong_at-ends jmsg "sequence" _ (λ n e. cc)))

  matched_of-ends :
      (product_id : String) (jmsg : J) → matched_of {F = F} product_id jmsg ≢ err too_deep
  unfolding matched_of
  matched_of-ends product_id jmsg = string_at-ends jmsg "maker_order_id" _ (λ maker.
      string_at-ends jmsg "taker_order_id" _ (λ taker. ulong_at-ends jmsg "sequence" _ (λ n.
        string_at-ends jmsg "price" _ (λ price. string_at-ends jmsg "size" _ (λ size.
          string_at-ends jmsg "side" _
            (λ side. stod-ends price _ (λ p. stod-ends size _ (λ s e. cc))))))))

  changed_of-ends :
      (product_id : String) (jmsg : J) → changed_of {F = F} product_id jmsg ≢ err too_deep
  unfolding changed_of
  changed_of-ends product_id jmsg = string_at-ends jmsg "order_id" _ (λ id.
      string_at-ends jmsg "price" _ (λ price. string_at-ends jmsg "size" _ (λ size.
        ulong_at-ends jmsg "sequence" _ (λ n.
          string_at-ends jmsg "side" _
            (λ side. stod-ends price _ (λ p. stod-ends size _ (λ s e. cc)))))))

  some_change-ends :
      (r : Result (ProductChange F)) → r ≢ err too_deep → some_change r ≢ err too_deep
  unfolding some_change
  some_change-ends r h = bind-ends r _ h (λ pc _ e. cc)

  typed_change-ends :
      (type product_id : String) (jmsg : J)
      → typed_change {F = F} type product_id jmsg ≢ err too_deep
  unfolding typed_change
  typed_change-ends type product_id jmsg = elim (Bool-cases (type == "open")) [
    | inl a ↦ rw a (some_change-ends (opened_of product_id jmsg) (opened_of-ends product_id jmsg))
    | inr a ↦ elim (Bool-cases (type == "done")) [
      | inl b ↦
          rw (a, b) (some_change-ends (done_of product_id jmsg) (done_of-ends product_id jmsg))
      | inr b ↦ elim (Bool-cases (type == "match")) [
        | inl c ↦
            rw (a, b, c)
              (some_change-ends (matched_of product_id jmsg) (matched_of-ends product_id jmsg))
        | inr c ↦ elim (Bool-cases (type == "change")) [
          | inl d ↦
              rw (a, b, c, d)
                (some_change-ends (changed_of product_id jmsg) (changed_of-ends product_id jmsg))
          | inr d ↦ rw (a, b, c, d) (λ e. cc)
        ]
      ]
    ]
  ]

module _ {J F : Type 0} ⦃json : Json J⦄ ⦃f : Floating F⦄ (laws : JsonLaws json)
    (outside : IsOutside json f) where
  merged_changes-ends :
      (g : J → Result (Option (ProductChange F))) (jmsg : J)
      → ((x : J) → laws.depth x < laws.depth jmsg → g x ≢ err too_deep)
      → merged_changes g jmsg ≢ err too_deep
  unfolding merged_changes
  merged_changes-ends g jmsg h = elim (Bool-cases (json.contains jmsg "to_merge")) [
    | inr missing ↦ rw missing (λ e. cc)
    | inl present ↦ rw present (
        bind-ends (json.at jmsg "to_merge") _ (outside.at jmsg "to_merge") (λ msgs there.
          bind-ends (map_results g (json.elements msgs)) _
            (map_results-ends g (json.elements msgs)
              (λ x m. h x (laws.depth-at jmsg msgs x "to_merge" there m)))
            (λ pcs _ e. cc)))
  ]

  full_book-ends :
      (g : J → Result (Option (ProductChange F))) (product_id : String) (jmsg : J)
      → ((x : J) → laws.depth x < laws.depth jmsg → g x ≢ err too_deep)
      → full_book g product_id jmsg ≢ err too_deep
  unfolding full_book
  full_book-ends g product_id jmsg h =
      bind-ends (json.at jmsg "asks") _ (outside.at jmsg "asks") (λ jasks _.
        bind-ends (map_results order_of (json.elements jasks)) _
          (map_results-ends order_of (json.elements jasks) (λ x m. order_of-ends outside x))
          (λ asks _. bind-ends (json.at jmsg "bids") _ (outside.at jmsg "bids") (λ jbids _.
            bind-ends (map_results order_of (json.elements jbids)) _
              (map_results-ends order_of (json.elements jbids) (λ x m. order_of-ends outside x))
              (λ bids _.
                bind-ends (merged_changes g jmsg) _ (merged_changes-ends g jmsg h)
                  (λ merged _. ulong_at-ends outside jmsg "sequence" _ (λ n e. cc))))))

  reading-ends :
      (fuel : ℕ) (product_id : String) (jmsg : J)
      → laws.depth jmsg < fuel
      → get_product_change {F = F} fuel product_id jmsg ≢ err too_deep
  unfolding get_product_change
  reading-ends zero product_id jmsg above = absurd (omega arith)
  reading-ends (suc fuel) product_id jmsg above =
      elim (Bool-cases (json.contains jmsg "bids" && json.contains jmsg "asks")) [
        | inl book ↦ rw book (
            full_book-ends (get_product_change fuel product_id) product_id jmsg
              (λ x below. reading-ends fuel product_id x (omega arith)))
        | inr no_book ↦ elim (Bool-cases (json.contains jmsg "type")) [
          | inl typed ↦
              rw (no_book, typed)
                (string_at-ends outside jmsg "type" _
                  (λ type. typed_change-ends outside type product_id jmsg))
          | inr untyped ↦ rw (no_book, untyped) (λ e. cc)
        ]
      ]

  -- Where no library call runs out of the model's fuel: with fuel above the depth of the message the
  -- handler's recursion over merged messages ends before the fuel does, and its result is the same for
  -- all such fuel.
  pub get_product_change-ends :
      (fuel more : ℕ) (product_id : String) (jmsg : J)
      → laws.depth jmsg < fuel
      → laws.depth jmsg < more
      → (get_product_change {F = F} fuel product_id jmsg ≢ err too_deep)
        × (get_product_change {F = F} fuel product_id jmsg
            ≡ get_product_change more product_id jmsg)
  get_product_change-ends fuel more product_id jmsg a b = (
    reading-ends fuel product_id jmsg a,
    get_product_change-fuel laws fuel more product_id jmsg a b,
  )
