-- ===== src/FeedProduct/Bounds.antt =====
-- The sequence numbers of a feed product as 64-bit numbers: where the test for a gap, which is
-- computed with wrap-around, is the test on the numbers themselves.
use quote_server.Base.{
  String, ℕ, ◌+◌, ◌<◌, ◌^◌, ◌%◌, ◌==◌, ◌≡◌, refl, ◌⊎◌, inl, inr, arith, ok, >>=-eq-ok, Bool-cases,
  ltb, leb, if◌then◌else◌, push_back, true, nat_eq,
}
use native.Mathlib.Decide.{dec_lt}
use quote_server.Json.{Json, JsonLaws, ulong_at, ulong_member}
use quote_server.FeedProduct.{
  FeedProduct, running, new_feed_product, request_full_order_book, message_loop, destroy,
  on_message_received, install_book, install_or_give_up, request_full_order_book_impl, merge_queue,
}
use quote_server.FeedProduct.Merge.{Merged, start, add, merge_queue-Merged, IsAny, All-IsAny}
use quote_server.FeedProduct.Steps.{
  Step, receive, respond, poll, close, Reach, here, next, IsJoinable, Reach-IsJoinable,
}

-- What a message of number `n` does, told with no wrap-around: it is queued while the full book is
-- requested, a gap asks for the book, an old message is dropped, the next one is queued.
abbrev pub sorted_message : {J : Type 0} → ℕ → J → FeedProduct J → FeedProduct J
sorted_message n message p =
    if p.requesting_orderbook
    then record p { message_queue = push_back p.message_queue message }
    else if ltb (p.last_sequence_number + 1) n
    then record p {
      last_sequence_number = 0;
      requesting_orderbook = true;
      request_thread = running;
    }
    else if leb n p.last_sequence_number
    then p
    else record p { message_queue = push_back p.message_queue message; last_sequence_number = n }

module _ {J : Type 0} ⦃json : Json J⦄ (laws : JsonLaws json) where
  ulong_at-bound : (j : J) (key : String) (n : ℕ) → ulong_at j key ≡ ok n → n < 2 ^ 64
  ulong_at-bound j key n e =
      let (value, there, number) = >>=-eq-ok (json.at j key) _ e in laws.ulong_bound value n number

  ulong_member-bound : (j : J) (key : String) (n : ℕ) → ulong_member j key ≡ ok n → n < 2 ^ 64
  ulong_member-bound j key n e =
      let (value, there, number) = >>=-eq-ok (json.member j key) _ e in
      laws.ulong_bound value n number

  Merged-bound :
      (s : ℕ) (book : J) {b : J} {n : ℕ} → s < 2 ^ 64 → Merged IsAny s book b n → n < 2 ^ 64
  Merged-bound s book h (start e k) = omega (arith, h, k)
  Merged-bound s book {b} {n} h (add c message k m any number younger put) =
      ulong_member-bound message "sequence" n number

  abbrev IsBounded : FeedProduct J → Type 0
  IsBounded p = p.last_sequence_number < 2 ^ 64

  receive-IsBounded :
      (message : J) (p q : FeedProduct J)
      → on_message_received message p ≡ ok q
      → IsBounded p
      → IsBounded q
  unfolding on_message_received request_full_order_book
  receive-IsBounded message p q e h =
      let (n, number, rest) = >>=-eq-ok (ulong_at message "sequence") _ e in
      let small = ulong_at-bound message "sequence" n number in ground arith

  install_book-IsBounded :
      (book : J) (s : ℕ) (p q : FeedProduct J)
      → install_book book s p ≡ ok q
      → s < 2 ^ 64
      → IsBounded q
  unfolding install_book
  install_book-IsBounded book s p q e small =
      let (r, merged, done) = >>=-eq-ok (merge_queue s p.message_queue (book, s)) _ e in
      let bound = Merged-bound s book small (
        merge_queue-Merged IsAny s book p.message_queue book s r (All-IsAny p.message_queue) merged
          (start refl refl)) in
      ground (arith, bound)

  answered-IsBounded :
      (book : J) (p q : FeedProduct J)
      → install_or_give_up book p ≡ ok q
      → IsBounded p
      → IsBounded q
  unfolding install_or_give_up
  answered-IsBounded book p q e h = elim (Bool-cases (json.contains book "sequence")) [
    | inr missing ↦ let done = rw missing at e in ground (arith, done, h)
    | inl present ↦
        let (s, number, rest) = >>=-eq-ok (ulong_member book "sequence") _ (rw present at e) in
        let small = ulong_member-bound book "sequence" s number in
        elim (Bool-cases (nat_eq s 0)) [
          | inl none ↦ let done = rw none at rest in ground (arith, done, h)
          | inr some ↦ install_book-IsBounded book s p q (rw some at rest) small
        ]
  ]

  respond-IsBounded :
      (response : String) (p q : FeedProduct J)
      → request_full_order_book_impl response p ≡ ok q
      → IsBounded p
      → IsBounded q
  unfolding request_full_order_book_impl install_or_give_up
  respond-IsBounded response p q e h = elim (Bool-cases (response == "")) [
    | inl empty ↦ let done = rw empty at e in ground (arith, done, h)
    | inr some_text ↦
        let (book, parsed, rest) = >>=-eq-ok (json.parse response) _ (rw some_text at e) in
        answered-IsBounded book p q rest h
  ]

  Step-IsBounded : {p q : FeedProduct J} → Step p q → IsBounded p → IsBounded q
  unfolding message_loop destroy
  Step-IsBounded {p} {q} (receive message e) h = receive-IsBounded message p q e h
  Step-IsBounded {p} {q} (respond response r e) h = respond-IsBounded response p q e h
  Step-IsBounded (poll e) h = ground (arith, h)
  Step-IsBounded (close n e) h = ground (arith, h)

  Reach-IsBounded : {p q : FeedProduct J} → IsBounded p → Reach p q → IsBounded q
  Reach-IsBounded h here = h
  Reach-IsBounded h (next r s) = Step-IsBounded s (Reach-IsBounded h r)

  sorted :
      (p : FeedProduct J) (message : J) (n : ℕ)
      → ulong_at message "sequence" ≡ ok n
      → IsJoinable p
      → p.last_sequence_number + 1 < 2 ^ 64
      → on_message_received message p ≡ ok (sorted_message n message p)
  unfolding on_message_received request_full_order_book
  sorted p message n e h small =
      let wraps_not : (p.last_sequence_number + 1) % 2 ^ 64 ≡ p.last_sequence_number + 1 =
        omega arith in
      rw e (rw wraps_not (ground (arith, h)))

  -- In every state that a new feed product reaches, the last sequence number is below 2 ^ 64, and
  -- unless it is the largest such number, a message is sorted by the order of the numbers
  -- themselves, as if nothing could wrap around: it is queued while the full book is requested; a
  -- number beyond the next one asks for the full book; a number that is not beyond the last one is
  -- dropped; the next number is queued.
  pub on_message_received-bounds :
      (product_id : String) {p : FeedProduct J} (message : J) (n : ℕ)
      → Reach (new_feed_product product_id) p
      → ulong_at message "sequence" ≡ ok n
      → (p.last_sequence_number + 1 ≡ 2 ^ 64)
        ⊎ ((p.last_sequence_number + 1 < 2 ^ 64)
            × (on_message_received message p ≡ ok (sorted_message n message p)))
  unfolding new_feed_product
  on_message_received-bounds product_id {p} message n r e =
      let bound : p.last_sequence_number < 2 ^ 64 = Reach-IsBounded (omega arith) r in
      elim (dec_lt (p.last_sequence_number + 1) (2 ^ 64)) [
        | yes small ↦ inr (small, sorted p message n e (Reach-IsJoinable (λ a. cc) r) small)
        | no largest ↦ inl (omega arith)
      ]
