-- ===== src/System/Installed.antt =====
-- What the request thread and the message loop make of the queue of a feed product that gets the
-- messages of the exchange.
use mathlib.Core.Path.{subst}
use quote_server.Base.{
  String, ℕ, suc, ◌+◌, ◌<◌, ◌≤◌, ◌≡◌, refl, sym, ap, ◌∙◌, inl, inr, true, false, not, ◌||◌, Option,
  some, [], ◌++◌, ok, arith, leb, nat_eq, ok-injective, >>=-eq-ok, Bool-cases, if◌then◌else◌, ◌==◌,
}
use quote_server.Base.Floating.{Floating}
use quote_server.Json.{Json, JsonLaws}
use quote_server.FeedProduct.{
  FeedProduct, ulong_mod, message_loop, destroy, merge_queue, install_book, install_or_give_up,
  request_full_order_book_impl,
}
use quote_server.System.Exchange.{Exchange, full_book_message}
use quote_server.System.Fed.{IsFed}
use quote_server.System.Merging.{bare}
use quote_server.System.Merging.Reading.{Carries-sequence}
use quote_server.System.Pipeline.{taken}
use quote_server.System.Synced.{All-map, IsOld-mono, run, InSync, merge_queue-old, merge_queue-run}

abbrev larger : ℕ → ℕ → ℕ
larger a b = if leb a b then b else a

module _ {J F : Type 0} ⦃json : Json J⦄ ⦃f : Floating F⦄ (laws : JsonLaws json)
    (ex : Exchange json f) where
  -- The full book and what is put into it are the whole queue.
  pub install-IsFed :
      (p q : FeedProduct J) (at : Option (ℕ × ℕ)) (sent needed s : ℕ)
      → suc s < ulong_mod
      → needed ≤ s
      → p.requesting_orderbook ≡ true
      → install_book (full_book_message ex s) s p ≡ ok q
      → IsFed ex p at sent needed
      → IsFed ex q at sent needed
  unfolding install_book
  install-IsFed p q at sent needed s bound fresh busy e h =
      let (state, merge, rest) =
        >>=-eq-ok (merge_queue s p.message_queue (full_book_message ex s, s)) _ e in
      let (old, k, queue, count, all) = h.waiting busy in
      let zero_more : s ≡ s + 0 = omega arith in
      let top = h.bound in
      let (x, carries, number, up, down) =
        merge_queue-run laws ex s (larger s sent) needed k 0 (full_book_message ex s) state
          (inl (fresh, refl)) (ground arith) (ground arith) (ground arith) (bare refl refl)
          (ap (λ n. merge_queue s (run ex needed k) (full_book_message ex s, n)) (sym zero_more)
            ∙ sym (
                merge_queue-old laws ex s old (run ex needed k) (full_book_message ex s) s
                  (All-map old (λ x. IsOld-mono ex needed s x fresh) all))
            ∙ ap (λ l. merge_queue s l (full_book_message ex s, s)) (sym queue)
            ∙ merge) in
      subst (λ y. IsFed ex y at sent needed) (ok-injective rest)
        (record {
          bound = h.bound;
          settled = λ idle. (
            s,
            x,
            (s, x, ground arith, inl carries, refl),
            sym number,
            ground arith,
            (
              (
                s,
                (Carries-sequence laws ex s s state.0 x (omega arith) carries).0,
                (Carries-sequence laws ex s s state.0 x (omega arith) carries).1,
                omega arith,
              ),
              tt,
            ),
          );
          waiting = λ b. cc;
        })

  pub respond-IsFed :
      (response : String) (p q : FeedProduct J) (at : Option (ℕ × ℕ)) (sent needed s : ℕ)
      → (response == "") ≡ false
      → json.parse response ≡ ok (full_book_message ex s)
      → 0 < s
      → suc s < ulong_mod
      → needed ≤ s
      → p.requesting_orderbook ≡ true
      → request_full_order_book_impl response p ≡ ok q
      → IsFed ex p at sent needed
      → IsFed ex q at sent needed
  unfolding request_full_order_book_impl install_or_give_up
  respond-IsFed response p q at sent needed s full parsed positive bound fresh busy e h =
      let (there, number) =
        Carries-sequence laws ex s s (full_book_message ex s) 0 (omega arith) (bare refl refl) in
      let not_null : nat_eq s 0 ≡ false = ground arith in
      install-IsFed p q at sent needed s bound fresh busy
        (rw (full, parsed, there, number, not_null) at e) h

module _ {J F : Type 0} ⦃json : Json J⦄ ⦃f : Floating F⦄ (ex : Exchange json f) where
  pub fail-IsFed :
      (p q : FeedProduct J) (at : Option (ℕ × ℕ)) (sent needed : ℕ)
      → request_full_order_book_impl "" p ≡ ok q
      → IsFed ex p at sent needed
      → IsFed ex q at sent needed
  unfolding request_full_order_book_impl
  fail-IsFed p q at sent needed e h =
      subst (λ x. IsFed ex x at sent needed) (ok-injective e)
        (record { bound = h.bound; settled = h.settled; waiting = h.waiting })

  pub destroy-IsFed :
      (p : FeedProduct J) (at : Option (ℕ × ℕ)) (sent needed : ℕ)
      → IsFed ex p at sent needed
      → IsFed ex (destroy p) at sent needed
  unfolding destroy
  destroy-IsFed p at sent needed h = record {
    bound = h.bound;
    settled = h.settled;
    waiting = h.waiting;
  }

  -- The loop takes the queue, or leaves everything as it is.
  pub take-IsFed :
      (p : FeedProduct J) (at : Option (ℕ × ℕ)) (sent needed : ℕ)
      → IsFed ex p at sent needed
      → (next : Option (ℕ × ℕ)) × InSync ex at (taken p) next
        × IsFed ex (message_loop p) next sent needed
  unfolding message_loop taken
  take-IsFed p at sent needed h = elim (Bool-cases (not p.is_running || p.requesting_orderbook)) [
    | inl waits ↦
        let same : p ≡ message_loop p = ground arith in
        let nothing : [] ≡ taken p = ground arith in
        (
          at,
          subst (λ l. InSync ex at l at) nothing refl,
          subst (λ x. IsFed ex x at sent needed) same h,
        )
    | inr goes ↦
        let idle : p.requesting_orderbook ≡ false = ground arith in
        let all : p.message_queue ≡ taken p = ground arith in
        let same : record p { message_queue = []; handled = p.handled ++ p.message_queue }
            ≡ message_loop p =
          ground arith in
        let (s, d, in_sync, count, top, old) = h.settled idle in
        (
          some (s, d),
          subst (λ l. InSync ex at l (some (s, d))) all in_sync,
          subst (λ x. IsFed ex x (some (s, d)) sent needed) same
              (record {
                bound = h.bound;
                settled = λ i. (s, d, refl, count, top, tt);
                waiting = λ busy. cc;
              }),
        )
  ]
