-- ===== src/System/Fed.antt =====
-- What is known of the queue of a feed product that gets the messages of the exchange, whether they
-- wait for a full book or go on from one.
use mathlib.Core.Path.{subst}
use mathlib.Core.List.{append_assoc, append-nil}
use quote_server.Base.{
  ℕ, suc, ◌+◌, ◌<◌, ◌≤◌, ◌%◌, ◌≡◌, refl, sym, ap, ◌∙◌, inl, inr, true, false, Option, some, List,
  [], ◌∷◌, ◌++◌, All, ok, arith, ltb, leb, push_back, Bool-cases, if◌then◌else◌,
}
use quote_server.Base.Floating.{Floating}
use quote_server.Json.{Json, JsonLaws}
use quote_server.FeedProduct.{FeedProduct, ulong_mod, on_message_received, request_full_order_book}
use quote_server.System.Exchange.{Exchange, message}
use quote_server.System.Merging.Reading.{message-sequence}
use quote_server.System.Synced.{
  All-append, All-map, IsOld, IsOld-mono, run, run-snoc, InSync, InSync-append, message-IsOld,
  run-IsOld,
}

module _ {J F : Type 0} ⦃json : Json J⦄ ⦃f : Floating F⦄ (ex : Exchange json f) where
  -- While no request is under way, the queue goes on from what was taken before, up to the last
  -- number.
  abbrev pub IsSettled : FeedProduct J → Option (ℕ × ℕ) → Type 0
  IsSettled p taken_at =
      (s : ℕ) × (d : ℕ) × InSync ex taken_at p.message_queue (some (s, d))
      × (s + d ≡ p.last_sequence_number)
      × (suc p.last_sequence_number < ulong_mod)
      × All (IsOld ex p.last_sequence_number) p.message_queue

  -- While one is, the queue ends in every message after the number that is needed.
  abbrev pub IsWaiting : FeedProduct J → ℕ → ℕ → Type 0
  IsWaiting p sent needed =
      (old : List J) × (k : ℕ) × (p.message_queue ≡ old ++ run ex needed k)
      × (sent ≡ needed + k)
      × All (IsOld ex needed) old

  pub record IsFed (p : FeedProduct J) (taken_at : Option (ℕ × ℕ)) (sent needed : ℕ) : Type 0 where
    pub bound : suc sent < ulong_mod
    pub settled : p.requesting_orderbook ≡ false → IsSettled p taken_at
    pub waiting : p.requesting_orderbook ≡ true → IsWaiting p sent needed

module _ {J F : Type 0} ⦃json : Json J⦄ ⦃f : Floating F⦄ (laws : JsonLaws json)
    (ex : Exchange json f) where
  -- A message that waits for the full book.
  wait-IsFed :
      (p : FeedProduct J) (at : Option (ℕ × ℕ)) (sent needed : ℕ)
      → suc (suc sent) < ulong_mod
      → p.requesting_orderbook ≡ true
      → IsFed ex p at sent needed
      → IsFed ex
          (record p { message_queue = push_back p.message_queue (message ex (suc sent)) })
          at
          (suc sent)
          needed
  wait-IsFed p at sent needed bound busy h = record {
    bound = bound;
    settled = λ idle. cc;
    waiting = λ b.
        let (old, k, queue, count, all) = h.waiting busy in
        (
          old,
          suc k,
          ap (λ l. l ++ message ex (suc sent) ∷ []) queue
              ∙ append_assoc old (run ex needed k) (message ex (suc sent) ∷ [])
              ∙ ap (λ l. old ++ l)
                  (ap (λ n. run ex needed k ++ message ex (suc n) ∷ []) count
                    ∙ run-snoc ex needed k),
          omega arith,
          all,
        );
  }

  -- A message beyond the next one: the full book must be as new as this message.
  gap-IsFed :
      (p q : FeedProduct J) (at : Option (ℕ × ℕ)) (sent needed : ℕ)
      → suc (suc sent) < ulong_mod
      → p.requesting_orderbook ≡ false
      → p.last_sequence_number ≤ suc sent
      → q.requesting_orderbook ≡ true
      → q.message_queue ≡ p.message_queue
      → IsFed ex p at sent needed
      → IsFed ex q at (suc sent) (suc sent)
  gap-IsFed p q at sent needed bound idle le busy same h = record {
    bound = bound;
    settled = λ i. cc;
    waiting = λ b.
        let (s, d, in_sync, count, top, all) = h.settled idle in
        (
          p.message_queue,
          0,
          same ∙ sym (append-nil p.message_queue),
          omega arith,
          All-map p.message_queue (λ x. IsOld-mono ex p.last_sequence_number (suc sent) x le) all,
        );
  }

  -- A message that is there already.
  old-IsFed :
      (p : FeedProduct J) (at : Option (ℕ × ℕ)) (sent needed : ℕ)
      → suc (suc sent) < ulong_mod
      → p.requesting_orderbook ≡ false
      → IsFed ex p at sent needed
      → IsFed ex p at (suc sent) (suc sent)
  old-IsFed p at sent needed bound idle h = record {
    bound = bound;
    settled = h.settled;
    waiting = λ busy. cc;
  }

  -- The next message.
  next-IsFed :
      (p : FeedProduct J) (at : Option (ℕ × ℕ)) (sent needed : ℕ)
      → suc (suc sent) < ulong_mod
      → p.requesting_orderbook ≡ false
      → suc sent ≡ suc p.last_sequence_number
      → IsFed ex p at sent needed
      → IsFed ex
          (record p {
            message_queue = push_back p.message_queue (message ex (suc sent));
            last_sequence_number = suc sent;
          })
          at
          (suc sent)
          (suc sent)
  next-IsFed p at sent needed bound idle is_next h = record {
    bound = bound;
    settled = λ i.
        let (s, d, in_sync, count, top, all) = h.settled idle in
        let here : s + d ≡ sent = omega arith in
        (
          s,
          suc d,
          InSync-append ex at (some (s, d)) (some (s, suc d)) p.message_queue
              (message ex (suc sent) ∷ []) in_sync
              (
                s,
                suc d,
                omega arith,
                inr (d, refl, refl, ap (λ n. message ex (suc n)) (sym here)),
                refl,
              ),
          omega arith,
          bound,
          All-append (IsOld ex (suc sent)) p.message_queue (message ex (suc sent) ∷ [])
              (All-map p.message_queue
                (λ x. IsOld-mono ex p.last_sequence_number (suc sent) x (omega arith)) all)
              (message-IsOld laws ex (suc sent) (omega arith), tt),
        );
    waiting = λ busy. cc;
  }

  settled-receive :
      (p q : FeedProduct J) (at : Option (ℕ × ℕ)) (sent needed : ℕ)
      → suc (suc sent) < ulong_mod
      → p.requesting_orderbook ≡ false
      → on_message_received (message ex (suc sent)) p ≡ ok q
      → IsFed ex p at sent needed
      → IsFed ex q at (suc sent) (suc sent)
  unfolding on_message_received request_full_order_book
  settled-receive p q at sent needed bound idle e h =
      let (there, member, number) = message-sequence laws ex (suc sent) (omega arith) in
      let (s, d, in_sync, count, top, all) = h.settled idle in
      elim (Bool-cases (ltb ((p.last_sequence_number + 1) % ulong_mod) (suc sent))) [
        | inl gap ↦
            gap-IsFed p q at sent needed bound idle (ground (arith, top)) (ground arith)
              (ground arith) h
        | inr no_gap ↦ elim (Bool-cases (leb (suc sent) p.last_sequence_number)) [
          | inl old ↦
              let same : p ≡ q = ground arith in
              subst (λ x. IsFed ex x at (suc sent) (suc sent)) same
                (old-IsFed p at sent needed bound idle h)
          | inr new ↦
              let same : record p {
                message_queue = push_back p.message_queue (message ex (suc sent));
                last_sequence_number = suc sent;
              }
                  ≡ q =
                ground arith in
              subst (λ x. IsFed ex x at (suc sent) (suc sent)) same
                (next-IsFed p at sent needed bound idle (ground (arith, top)) h)
        ]
      ]

  pub receive-IsFed :
      (p q : FeedProduct J) (at : Option (ℕ × ℕ)) (sent needed : ℕ)
      → suc (suc sent) < ulong_mod
      → on_message_received (message ex (suc sent)) p ≡ ok q
      → IsFed ex p at sent needed
      → IsFed ex q at (suc sent) (if p.requesting_orderbook then needed else suc sent)
  unfolding on_message_received
  receive-IsFed p q at sent needed bound e h = elim (Bool-cases p.requesting_orderbook) [
    | inl busy ↦
        let (there, member, number) = message-sequence laws ex (suc sent) (omega arith) in
        let same : record p { message_queue = push_back p.message_queue (message ex (suc sent)) }
            ≡ q =
          ground arith in
        subst (λ b. IsFed ex q at (suc sent) (if b then needed else suc sent)) (sym busy)
          (subst (λ x. IsFed ex x at (suc sent) needed) same
            (wait-IsFed p at sent needed bound busy h))
    | inr idle ↦
        subst (λ b. IsFed ex q at (suc sent) (if b then needed else suc sent)) (sym idle)
          (settled-receive p q at sent needed bound idle e h)
  ]

  pub lose-IsFed :
      (p : FeedProduct J) (at : Option (ℕ × ℕ)) (sent needed : ℕ)
      → suc (suc sent) < ulong_mod
      → IsFed ex p at sent needed
      → IsFed ex p at (suc sent) (suc sent)
  lose-IsFed p at sent needed bound h = record {
    bound = bound;
    settled = h.settled;
    waiting = λ busy.
        let (old, k, queue, count, all) = h.waiting busy in
        (
          p.message_queue,
          0,
          sym (append-nil p.message_queue),
          omega arith,
          subst (All (IsOld ex (suc sent))) (sym queue) (
              All-append (IsOld ex (suc sent)) old (run ex needed k)
                (All-map old (λ x. IsOld-mono ex needed (suc sent) x (omega arith)) all)
                (run-IsOld laws ex needed k (suc sent) (omega arith) (omega arith))),
        );
  }
