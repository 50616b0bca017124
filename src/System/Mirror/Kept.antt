-- ===== src/System/Mirror/Kept.antt =====
-- The calls of the market that leave a product, and the changes that are queued for it, alone.
use quote_server.Base.{
  String, ℕ, ◌==◌, ◌≡◌, refl, sym, ap, ◌∙◌, inl, inr, false, some, List, [], ◌∷◌, ◌++◌, arith, ok,
  Option-cases, ok-injective, >>=-eq-ok,
}
use mathlib.Core.List.{append-nil, append_assoc}
use quote_server.Base.Dict
use quote_server.Base.Dict.{Dict, find-assign, find-insert, find-erase}
use quote_server.Base.Floating.{Floating}
use quote_server.Json.{Json}
use quote_server.FeedMessageHandler
use quote_server.FeedClient.{FeedClient}
use quote_server.Product.{Product, remove_client}
use quote_server.ProductChange.{ProductChange, get_product_id}
use quote_server.Protobuf.{Protobuf}
use quote_server.Trade.{Trade}
use quote_server.Market.{
  Market, on_product_change, on_trade, publish_trade, stop, begin_subscribe, subscribe_feed,
  unsubscribe,
}
use quote_server.Market.Changes.{only}
use quote_server.Market.Maps.{begin_subscribe-products}
use quote_server.System.Pipeline.{report_changes, handle_messages}
use quote_server.System.Replayed.{only-append}

pub record Keeps {F D : Type 0} (k : String) (m n : Market F D) : Type 0 where
  pub changes : only k n.product_changes ≡ only k m.product_changes
  pub product : Dict.find k n.products ≡ Dict.find k m.products

module _ {F D : Type 0} (k : String) where
  pub stop-Keeps : (m : Market F D) → Keeps k m (stop m)
  unfolding stop
  stop-Keeps m = record { changes = refl; product = refl }

  pub on_product_change-Keeps :
      (pc : ProductChange F) (m : Market F D)
      → (get_product_id pc == k) ≡ false
      → Keeps k m (on_product_change pc m)
  unfolding on_product_change
  on_product_change-Keeps pc m other = record {
    changes =
        only-append k m.product_changes ((get_product_id pc, pc) ∷ [])
        ∙ rw other (append-nil (only k m.product_changes));
    product = refl;
  }

  pub on_trade-Keeps :
      (proto : Protobuf F) (t : Trade F) (m n : Market F D)
      → on_trade proto t m ≡ ok n
      → Keeps k m n
  unfolding on_trade publish_trade
  on_trade-Keeps proto t m n e =
      let changes : n.product_changes ≡ m.product_changes = ground arith in
      let products : n.products ≡ m.products = ground arith in
      record { changes = ap (only k) changes; product = ap (Dict.find k) products }

  pub begin_subscribe-Keeps :
      (feed : FeedClient D) (client_id product_id : String) (m n : Market F D) (p : Product F)
      → Dict.find k m.products ≡ some p
      → begin_subscribe feed client_id product_id m ≡ ok n
      → Keeps k m n
  unfolding subscribe_feed
  begin_subscribe-Keeps feed client_id product_id m n p there e = record {
    changes = let same : n.product_changes ≡ m.product_changes = ground arith in ap (only k) same;
    product = ground (arith, begin_subscribe-products feed client_id product_id m n k e, there);
  }

  pub unsubscribe-Keeps :
      (feed : FeedClient D) (client_id product_id : String) (m n : Market F D)
      → (product_id == k) ≡ false
      → unsubscribe feed client_id product_id m ≡ ok n
      → Keeps k m n
  unfolding unsubscribe
  unsubscribe-Keeps feed client_id product_id m n other e = record {
    changes = let same : n.product_changes ≡ m.product_changes = ground arith in ap (only k) same;
    product = elim (Option-cases (Dict.find product_id m.products)) [
      | inl missing ↦ absurd (ground arith)
      | inr (p, there) ↦ ground (
        arith,
        find-erase k product_id (Dict.assign product_id (remove_client client_id p) m.products),
        find-assign k product_id (remove_client client_id p) m.products,
      )
    ];
  }

-- The market with changes that a round has taken from it put back in front.
abbrev pub front : {F D : Type 0} → List (String × ProductChange F) → Market F D → Market F D
front taken m = record m { product_changes = taken ++ m.product_changes }

pub front-Keeps :
    {F D : Type 0} (k : String) (taken : List (String × ProductChange F)) (m n : Market F D)
    → Keeps k m n
    → Keeps k (front taken m) (front taken n)
front-Keeps k taken m n h = record {
  changes =
      only-append k taken n.product_changes
      ∙ ap (λ l. only k taken ++ l) h.changes
      ∙ sym (only-append k taken m.product_changes);
  product = h.product;
}

module _ {F D : Type 0} where
  report_changes-front :
      (taken : List (String × ProductChange F)) (pcs : List (ProductChange F)) (m : Market F D)
      → report_changes pcs (front taken m) ≡ front taken (report_changes pcs m)
  unfolding report_changes on_product_change
  report_changes-front taken [] m = refl
  report_changes-front taken (pc ∷ pcs) m =
      ap (λ changes. report_changes pcs (record m { product_changes = changes }))
        (append_assoc taken m.product_changes ((get_product_id pc, pc) ∷ []))
      ∙ report_changes-front taken pcs (on_product_change pc m)

module _ {J F D : Type 0} ⦃json : Json J⦄ ⦃f : Floating F⦄ where
  -- Handling a message does not depend on what is queued.
  pub handle_messages-front :
      (fuel : ℕ) (product_id : String) (taken : List (String × ProductChange F)) (msgs : List J)
      (m n : Market F D)
      → handle_messages fuel product_id msgs m ≡ ok n
      → handle_messages fuel product_id msgs (front taken m) ≡ ok (front taken n)
  unfolding handle_messages
  handle_messages-front fuel product_id taken [] m n e =
      ap (λ (m : Market F D). ok (front taken m)) (ok-injective e)
  handle_messages-front fuel product_id taken (msg ∷ msgs) m n e =
      let (given, one, rest) =
        >>=-eq-ok (FeedMessageHandler.on_message_received {F = F} fuel product_id msg) _ e in
      rw one (
        ap (handle_messages fuel product_id msgs) (report_changes-front taken given m)
        ∙ handle_messages-front fuel product_id taken msgs (report_changes given m) n rest)
