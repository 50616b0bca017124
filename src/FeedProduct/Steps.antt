-- ===== src/FeedProduct/Steps.antt =====
-- The threads that share a feed product, as interleaved steps: the feed delivers a message, the
-- request thread gets its response, the handler thread makes a round. A step that faults ends the
-- process, so it leads nowhere.
use quote_server.Base.{String, ◌≡◌, ok, false, ◌≢◌, inl, inr, arith, Result-cases, ℕ}
use quote_server.Json.{Json, ulong_at}
use quote_server.FeedProduct.{
  FeedProduct, running, new_feed_product, request_full_order_book, message_loop, destroy,
  on_message_received, install_book, request_full_order_book_impl, install_or_give_up,
}

module _ {J : Type 0} ⦃json : Json J⦄ where
  pub data Step (p q : FeedProduct J) : Type 0 where
    receive : (message : J) → on_message_received message p ≡ ok q → Step p q
    respond :
        (response : String)
        → p.request_thread ≡ running
        → request_full_order_book_impl response p ≡ ok q
        → Step p q
    poll : q ≡ message_loop p → Step p q
    close : p.request_thread ≢ running → q ≡ destroy p → Step p q

  pub data Reach (p : FeedProduct J) : FeedProduct J → Type 0 where
    here : Reach p p
    next : {q r : FeedProduct J} → Reach p q → Step q r → Reach p r

  pub Reach-trans : {p q r : FeedProduct J} → Reach p q → Reach q r → Reach p r
  Reach-trans h here = h
  Reach-trans h (next k s) = next (Reach-trans h k) s

  -- While no request is under way, the request thread does not run.
  abbrev pub IsJoinable : FeedProduct J → Type 0
  IsJoinable p = p.requesting_orderbook ≡ false → p.request_thread ≢ running

  receive-IsJoinable :
      (message : J) (p q : FeedProduct J)
      → on_message_received message p ≡ ok q
      → IsJoinable p
      → IsJoinable q
  unfolding on_message_received request_full_order_book
  receive-IsJoinable message p q e h a b = ground (arith, h)

  respond-IsJoinable :
      (response : String) (p q : FeedProduct J)
      → request_full_order_book_impl response p ≡ ok q
      → IsJoinable q
  unfolding request_full_order_book_impl install_or_give_up install_book
  respond-IsJoinable response p q e a b = ground arith

  pub Step-IsJoinable : {p q : FeedProduct J} → Step p q → IsJoinable p → IsJoinable q
  unfolding message_loop destroy
  Step-IsJoinable {p} {q} (receive message e) h a b = receive-IsJoinable message p q e h a b
  Step-IsJoinable {p} {q} (respond response r e) h a b = respond-IsJoinable response p q e a b
  Step-IsJoinable (poll e) h a b = ground (arith, h)
  Step-IsJoinable (close n e) h a b = ground arith

  pub Reach-IsJoinable : {p q : FeedProduct J} → IsJoinable p → Reach p q → IsJoinable q
  Reach-IsJoinable h here = h
  Reach-IsJoinable h (next r s) = Step-IsJoinable s (Reach-IsJoinable h r)

  received :
      (p : FeedProduct J) (message : J) (n : ℕ)
      → ulong_at message "sequence" ≡ ok n
      → IsJoinable p
      → (q : FeedProduct J) × (on_message_received message p ≡ ok q)
  unfolding on_message_received request_full_order_book
  received p message n e h = elim (Result-cases (on_message_received message p)) [
    | inl (q, ok_q) ↦ (q, ok_q)
    | inr (fault, err_f) ↦ absurd (ground (arith, h))
  ]

  -- In every state that a new feed product reaches, a message with a sequence number is received
  -- without a fault: the join that a gap leads to does not wait for a thread that wants the mutex.
  pub on_message_received-total :
      (product_id : String) {p : FeedProduct J} (message : J) (n : ℕ)
      → Reach (new_feed_product product_id) p
      → ulong_at message "sequence" ≡ ok n
      → (q : FeedProduct J) × (on_message_received message p ≡ ok q)
  unfolding new_feed_product
  on_message_received-total product_id {p} message n r e =
      received p message n e (Reach-IsJoinable (λ a. cc) r)
