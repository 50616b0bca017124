-- ===== src/FeedProduct/Progress.antt =====
-- What becomes of a request for the full book: a usable response ends it, and an unusable one is
-- never followed by another.
use quote_server.Base.{
  String, ◌≡◌, refl, ◌∙◌, ◌≢◌, ◌⊎◌, inl, inr, true, false, arith, ok, Bool-cases, ap, ◌==◌,
}
use quote_server.Json.{Json, ulong_member}
use quote_server.FeedProduct.{
  FeedProduct, running, new_feed_product, message_loop, destroy, on_message_received,
  install_or_give_up, request_full_order_book_impl, give_up,
}
use quote_server.FeedProduct.Steps.{
  Step, receive, respond, poll, close, Reach, here, next, Reach-IsJoinable, IsJoinable,
}

-- A response that cannot be used: none, or a JSON text with no sequence number or number 0.
abbrev pub IsUnusable : {J : Type 0} → Json J → String → Type 0
IsUnusable {J} json response =
    (response == "") ≡ true
    ⊎ ((book : J) × (json.parse response ≡ ok book)
        × ((json.contains book "sequence" ≡ false)
            ⊎ ((json.contains book "sequence" ≡ true)
                × (ulong_member ⦃json = json⦄ book "sequence" ≡ ok 0))))

module _ {J : Type 0} ⦃json : Json J⦄ where
  -- Messages wait for a book, and nobody requests one.
  pub record IsStuck (p : FeedProduct J) : Type 0 where
    pub waits : p.requesting_orderbook ≡ true
    pub unasked : p.request_thread ≢ running

  receive-IsStuck :
      (message : J) (p q : FeedProduct J)
      → on_message_received message p ≡ ok q
      → IsStuck p
      → IsStuck q × (q.handled ≡ p.handled)
  unfolding on_message_received
  receive-IsStuck message p q e h = ground arith

  Step-IsStuck : {p q : FeedProduct J} → Step p q → IsStuck p → IsStuck q × (q.handled ≡ p.handled)
  unfolding message_loop destroy
  Step-IsStuck {p} {q} (receive message e) h = receive-IsStuck message p q e h
  Step-IsStuck (respond response r e) h = absurd (h.unasked r)
  Step-IsStuck (poll e) h = ground arith
  Step-IsStuck (close n e) h = ground arith

  Reach-IsStuck :
      {p q : FeedProduct J} → IsStuck p → Reach p q → IsStuck q × (q.handled ≡ p.handled)
  Reach-IsStuck h here = (h, refl)
  Reach-IsStuck h (next r s) =
      let before = Reach-IsStuck h r in
      let after = Step-IsStuck s before.0 in (after.0, after.1 ∙ before.1)

  gives_up :
      (response : String) (p q : FeedProduct J)
      → IsUnusable json response
      → request_full_order_book_impl response p ≡ ok q
      → q ≡ give_up p
  unfolding request_full_order_book_impl install_or_give_up
  gives_up response p q bad e = ground arith

  pub requesting-running :
      (p : FeedProduct J)
      → IsJoinable p
      → p.request_thread ≡ running
      → p.requesting_orderbook ≡ true
  requesting-running p h r = elim (Bool-cases p.requesting_orderbook) [
    | inl busy ↦ busy
    | inr idle ↦ absurd (h idle r)
  ]

  -- Once a response that cannot be used ends a request of a product, nothing is handed to its handler
  -- in any later state, whatever is received: the product waits for a book that is not requested again.
  pub unusable_response-stops :
      (product_id response : String) {p q r : FeedProduct J}
      → Reach (new_feed_product product_id) p
      → p.request_thread ≡ running
      → IsUnusable json response
      → request_full_order_book_impl response p ≡ ok q
      → Reach q r
      → (r.handled ≡ p.handled) × (r.requesting_orderbook ≡ true)
  unfolding new_feed_product
  unusable_response-stops product_id response {p} {q} reached r bad e later =
      let ended_p = gives_up response p q bad e in
      let busy = requesting-running p (Reach-IsJoinable (λ a. cc) reached) r in
      let stuck : IsStuck q = ground arith in
      let after = Reach-IsStuck stuck later in
      (after.1 ∙ ap (λ (x : FeedProduct J). x.handled) ended_p, after.0.waits)
