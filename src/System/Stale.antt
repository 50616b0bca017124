-- ===== src/System/Stale.antt =====
-- A full book that is older than what the queue begins with.
use quote_server.Base.{
  String, ℕ, suc, ◌+◌, ◌<◌, ◌%◌, ◌≡◌, refl, sym, ap, ◌∙◌, false, some, [], ◌∷◌, ◌++◌, ok, arith,
  somes, ltb, leb, nat_eq, ok-injective, >>=-eq-ok, ◌==◌,
}
use quote_server.Base.Floating.{Floating}
use quote_server.Json.{Json, JsonLaws}
use quote_server.ProductChange.{reset_order_book, to_changes}
use quote_server.FeedMessageHandler.{get_product_change}
use quote_server.FeedProduct.{
  FeedProduct, ulong_mod, on_message_received, merge_queue, install_book, install_or_give_up,
  request_full_order_book_impl,
}
use quote_server.System.Exchange.{Exchange, message, changes, full_book_message}
use quote_server.System.Merging.{bare}
use quote_server.System.Merging.Reading.{Carries-read, Carries-sequence, message-sequence}
use quote_server.System.Synced.{run, merge_queue-bare}

module _ {J F : Type 0} ⦃json : Json J⦄ ⦃f : Floating F⦄ (laws : JsonLaws json)
    (ex : Exchange json f) (fuel : ℕ) where
  -- What has been installed goes on without a request.
  goes_on :
      (q : FeedProduct J) (n : ℕ)
      → suc n < ulong_mod
      → q.requesting_orderbook ≡ false
      → q.last_sequence_number ≡ n
      → (r : FeedProduct J) × (on_message_received (message ex (suc n)) q ≡ ok r)
        × (r.requesting_orderbook ≡ false)
  unfolding on_message_received
  goes_on q n bound idle last =
      let (there, member, number) = message-sequence laws ex (suc n) bound in
      let no_gap : ltb ((q.last_sequence_number + 1) % ulong_mod) (suc n) ≡ false = ground arith in
      let new : leb (suc n) q.last_sequence_number ≡ false = ground arith in
      (
        record q {
          message_queue = q.message_queue ++ message ex (suc n) ∷ [];
          last_sequence_number = suc n;
        },
        ground arith,
        idle,
      )

  -- A full book of number `s` comes while the queue is the messages of the numbers after `a`, one
  -- after the other, and `s` is below `a`: what is handed on is read as that book with the changes of
  -- the queued messages only, and the message after them is received without another request. So the
  -- changes of the numbers from `s + 1` to `a` are left out, and nothing notices.
  pub stale_book-unnoticed :
      (response : String) (s a k : ℕ) (p q : FeedProduct J)
      → (response == "") ≡ false
      → json.parse response ≡ ok (full_book_message ex s)
      → 0 < s
      → s < a
      → suc (a + suc k) < ulong_mod
      → p.message_queue ≡ run ex a (suc k)
      → request_full_order_book_impl response p ≡ ok q
      → (b : J) × (r : FeedProduct J) × (q.message_queue ≡ b ∷ [])
        × (get_product_change (suc (suc fuel)) ex.product_id b
            ≡ ok (
                some (
                  reset_order_book
                    (ex.bids s)
                    (ex.asks s)
                    (to_changes (somes (changes ex a (suc k))))
                    ex.product_id
                    s)))
        × (on_message_received (message ex (suc (a + suc k))) q ≡ ok r)
        × (r.requesting_orderbook ≡ false)
  unfolding request_full_order_book_impl install_or_give_up install_book
  stale_book-unnoticed response s a k p q full parsed positive older bound queue e =
      let (there, number) =
        Carries-sequence laws ex s a (full_book_message ex s) 0 (omega arith) (bare refl refl) in
      let not_null : nat_eq s 0 ≡ false = ground arith in
      let (state, merge, rest) =
        >>=-eq-ok (merge_queue s p.message_queue (full_book_message ex s, s)) _
          (rw (full, parsed, there, number, not_null) at e) in
      let (carries, total) =
        merge_queue-bare laws ex s a k state (omega arith) (omega arith)
          (ap (λ l. merge_queue s l (full_book_message ex s, s)) (sym queue) ∙ merge) in
      let installed = ok-injective rest in
      let (r, next, idle) =
        goes_on q (a + suc k) bound
          (ap (λ (x : FeedProduct J). x.requesting_orderbook) (sym installed))
          (ap (λ (x : FeedProduct J). x.last_sequence_number) (sym installed) ∙ total) in
      (
        state.0,
        r,
        ap (λ (x : FeedProduct J). x.message_queue) (sym installed),
        Carries-read laws ex fuel s a state.0 (suc k) (omega arith) (omega arith) carries,
        next,
        idle,
      )
