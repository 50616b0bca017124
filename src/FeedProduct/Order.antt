-- ===== src/FeedProduct/Order.antt =====
-- What reaches the message handler is in the order of the sequence numbers.
use mathlib.Core.Path.{subst}
use mathlib.Core.List.{append-nil, append_assoc}
use quote_server.Base.{
  String, ℕ, suc, ◌+◌, ◌<◌, ◌%◌, ◌≡◌, refl, sym, ◌⊎◌, inl, inr, true, false, Option, none, some,
  List, [], ◌∷◌, ◌++◌, All, arith, ok, >>=-eq-ok, Bool-cases, ltb, ok-injective, leb, push_back,
  ◌==◌, nat_eq, not, ◌||◌,
}
use quote_server.Json.{Json, ulong_at, ulong_member}
use quote_server.FeedProduct.{
  FeedProduct, ulong_mod, new_feed_product, request_full_order_book, message_loop, destroy,
  on_message_received, merge_queue, install_book, request_full_order_book_impl, install_or_give_up,
  give_up,
}
use quote_server.FeedProduct.Merge.{Merged, start, merge_queue-Merged, IsAny, Merged-IsAny}
use quote_server.FeedProduct.Steps.{Step, receive, respond, poll, close, Reach, here, next}

-- The number that is neither a gap nor old is the next one, whether or not the sum wraps.
next_number :
    (last n : ℕ) → ltb ((last + 1) % ulong_mod) n ≡ false → leb n last ≡ false → n ≡ suc last
next_number last n no_gap not_old = ground arith

All-snoc {ℓ κ} :
    {A : Type ℓ} (P : A → Type κ) (xs : List A) (x : A) → All P xs → P x → All P (xs ++ x ∷ [])
All-snoc P [] x h k = (k, tt)
All-snoc P (y ∷ xs) x h k = (h.0, All-snoc P xs x h.1 k)

-- `Book` and `Message` are any two predicates that tell what comes as a response from what comes from
-- the feed.
module _ {J : Type 0} ⦃json : Json J⦄ (Book Message : J → Type 0) where
  -- What waits in the queue: a message, or a full book that was merged before and not handed over.
  abbrev pub IsQueued : J → Type 0
  IsQueued x = Message x ⊎ ((book : J) × Book book × (s : ℕ) × (n : ℕ) × Merged IsAny s book x n)

  -- A full book came as a response, and younger messages of the queue were put into it.
  abbrev pub IsSnapshot : J → ℕ → Type 0
  IsSnapshot m n =
      (book : J) × Book book
      × (s : ℕ) × (ulong_member book "sequence" ≡ ok s)
      × (0 < s)
      × Merged IsQueued s book m n

  -- `m` may come after the number `o`, and leads to the number `n`.
  abbrev pub Follows : Option ℕ → J → ℕ → Type 0
  Follows o m n =
      IsSnapshot m n
      ⊎ (Message m × (k : ℕ) × (o ≡ some k) × (ulong_at m "sequence" ≡ ok n) × (n ≡ suc k))

  -- A full book first, and then messages whose numbers go up by one, up to the next full book.
  abbrev pub InOrder : Option ℕ → List J → Option ℕ → Type 0
  InOrder o [] last = o ≡ last
  InOrder o (m ∷ ms) last = (n : ℕ) × Follows o m n × InOrder (some n) ms last

  InOrder-snoc :
      (o last : Option ℕ) (ms : List J) (m : J) (n : ℕ)
      → InOrder o ms last
      → Follows last m n
      → InOrder o (ms ++ m ∷ []) (some n)
  InOrder-snoc o last [] m n h f = (n, subst (λ x. Follows x m n) (sym h) f, refl)
  InOrder-snoc o last (x ∷ ms) m n h f = (h.0, h.1, InOrder-snoc (some h.0) last ms m n h.2 f)

  pub record IsOrdered (p : FeedProduct J) : Type 0 where
    pub settled :
        p.requesting_orderbook ≡ false
        → InOrder none (p.handled ++ p.message_queue) (some p.last_sequence_number)
    pub queued : All IsQueued p.message_queue
    pub last : Option ℕ
    pub delivered : InOrder none p.handled last

  -- The responses of a run parse to books, and what it receives are messages.
  abbrev pub IsFrom : {p q : FeedProduct J} → Step p q → Type 0
  IsFrom (receive message e) = Message message
  IsFrom (respond response r e) = (book : J) → json.parse response ≡ ok book → Book book
  IsFrom (poll e) = Unit
  IsFrom (close n e) = Unit

  abbrev pub AreFrom : {p q : FeedProduct J} → Reach p q → Type 0
  AreFrom here = Unit
  AreFrom (next r s) = AreFrom r × IsFrom s

  install_book-IsOrdered :
      (book : J) (s : ℕ) (p q : FeedProduct J)
      → Book book
      → ulong_member book "sequence" ≡ ok s
      → 0 < s
      → install_book book s p ≡ ok q
      → IsOrdered p
      → IsOrdered q
  unfolding install_book
  install_book-IsOrdered book s p q from number positive e h =
      let (state, merged, rest) = >>=-eq-ok (merge_queue s p.message_queue (book, s)) _ e in
      let put =
        merge_queue-Merged IsQueued s book p.message_queue book s state h.queued merged
          (start refl refl) in
      subst IsOrdered (ok-injective rest) (record {
        settled = λ _.
            InOrder-snoc none h.last p.handled state.0 state.1 h.delivered
              (inl (book, from, s, number, positive, put));
        queued = (inr (book, from, s, state.1, Merged-IsAny put), tt);
        last = h.last;
        delivered = h.delivered;
      })

  -- A step that starts or keeps up a request, and hands nothing over.
  requesting-IsOrdered :
      (p q : FeedProduct J)
      → q.requesting_orderbook ≡ true
      → q.handled ≡ p.handled
      → All IsQueued q.message_queue
      → IsOrdered p
      → IsOrdered q
  requesting-IsOrdered p q busy same queued h = record {
    settled = λ a. cc;
    queued = queued;
    last = h.last;
    delivered = subst (λ l. InOrder none l h.last) (sym same) h.delivered;
  }

  abbrev accept : J → ℕ → FeedProduct J → FeedProduct J
  accept message n p = record p {
    message_queue = push_back p.message_queue message;
    last_sequence_number = n;
  }

  accept-IsOrdered :
      (message : J) (n : ℕ) (p : FeedProduct J)
      → Message message
      → ulong_at message "sequence" ≡ ok n
      → p.requesting_orderbook ≡ false
      → n ≡ suc p.last_sequence_number
      → IsOrdered p
      → IsOrdered (accept message n p)
  accept-IsOrdered message n p from number idle is_next h = record {
    settled = λ _.
        subst (λ l. InOrder none l (some n)) (append_assoc p.handled p.message_queue (message ∷ []))
          (InOrder-snoc none (some p.last_sequence_number) (p.handled ++ p.message_queue) message n
            (h.settled idle) (inr (from, p.last_sequence_number, refl, number, is_next)));
    queued = All-snoc IsQueued p.message_queue message h.queued (inl from);
    last = h.last;
    delivered = h.delivered;
  }

  receive-IsOrdered :
      (message : J) (p q : FeedProduct J)
      → Message message
      → on_message_received message p ≡ ok q
      → IsOrdered p
      → IsOrdered q
  unfolding on_message_received request_full_order_book
  receive-IsOrdered message p q from e h = elim (Bool-cases p.requesting_orderbook) [
    | inl busy ↦
        let queue : p.message_queue ++ message ∷ [] ≡ q.message_queue = ground arith in
        requesting-IsOrdered p q (ground arith) (ground arith)
          (subst (All IsQueued) queue
            (All-snoc IsQueued p.message_queue message h.queued (inl from)))
          h
    | inr idle ↦
        let (n, number, rest) = >>=-eq-ok (ulong_at message "sequence") _ e in
        elim (Bool-cases (ltb ((p.last_sequence_number + 1) % ulong_mod) n)) [
          | inl gap ↦
              let queue : p.message_queue ≡ q.message_queue = ground arith in
              requesting-IsOrdered p q (ground arith) (ground arith)
                (subst (All IsQueued) queue h.queued) h
          | inr no_gap ↦ elim (Bool-cases (leb n p.last_sequence_number)) [
            | inl old ↦ let same : p ≡ q = ground arith in subst IsOrdered same h
            | inr new ↦
                let accepted : accept message n p ≡ q = ground arith in
                subst IsOrdered accepted (
                  accept-IsOrdered message n p from number idle
                    (next_number p.last_sequence_number n no_gap new) h)
          ]
        ]
  ]

  give_up-IsOrdered : (p : FeedProduct J) → IsOrdered p → IsOrdered (give_up p)
  give_up-IsOrdered p h = record {
    settled = h.settled;
    queued = h.queued;
    last = h.last;
    delivered = h.delivered;
  }

  parsed-IsOrdered :
      (book : J) (p q : FeedProduct J)
      → Book book
      → install_or_give_up book p ≡ ok q
      → IsOrdered p
      → IsOrdered q
  unfolding install_or_give_up
  parsed-IsOrdered book p q from e h = elim (Bool-cases (json.contains book "sequence")) [
    | inr missing ↦
        let same : give_up p ≡ q = ground arith in subst IsOrdered same (give_up-IsOrdered p h)
    | inl present ↦
        let (s, number, rest) = >>=-eq-ok (ulong_member book "sequence") _ (rw present at e) in
        elim (Bool-cases (nat_eq s 0)) [
          | inl null ↦
              let same : give_up p ≡ q = ground arith in
              subst IsOrdered same (give_up-IsOrdered p h)
          | inr positive ↦
              install_book-IsOrdered book s p q from number (ground arith) (ground arith) h
        ]
  ]

  respond-IsOrdered :
      (response : String) (p q : FeedProduct J)
      → ((book : J) → json.parse response ≡ ok book → Book book)
      → request_full_order_book_impl response p ≡ ok q
      → IsOrdered p
      → IsOrdered q
  unfolding request_full_order_book_impl
  respond-IsOrdered response p q from e h = elim (Bool-cases (response == "")) [
    | inl empty ↦
        let same : give_up p ≡ q = ground arith in subst IsOrdered same (give_up-IsOrdered p h)
    | inr full ↦
        let (book, parsed, rest) = >>=-eq-ok (json.parse response) _ (rw full at e) in
        parsed-IsOrdered book p q (from book parsed) rest h
  ]

  abbrev hand_over : FeedProduct J → FeedProduct J
  hand_over p = record p { message_queue = []; handled = p.handled ++ p.message_queue }

  hand_over-IsOrdered :
      (p : FeedProduct J) → p.requesting_orderbook ≡ false → IsOrdered p → IsOrdered (hand_over p)
  hand_over-IsOrdered p idle h = record {
    settled = λ _.
        subst (λ l. InOrder none l (some p.last_sequence_number))
          (sym (append-nil (p.handled ++ p.message_queue))) (h.settled idle);
    queued = tt;
    last = some p.last_sequence_number;
    delivered = h.settled idle;
  }

  message_loop-IsOrdered : (p : FeedProduct J) → IsOrdered p → IsOrdered (message_loop p)
  unfolding message_loop
  message_loop-IsOrdered p h = elim (Bool-cases (not p.is_running || p.requesting_orderbook)) [
    | inl waits ↦ let same : p ≡ message_loop p = ground arith in subst IsOrdered same h
    | inr hands ↦
        let idle : p.requesting_orderbook ≡ false = ground arith in
        let same : hand_over p ≡ message_loop p = ground arith in
        subst IsOrdered same (hand_over-IsOrdered p idle h)
  ]

  Step-IsOrdered : {p q : FeedProduct J} (s : Step p q) → IsFrom s → IsOrdered p → IsOrdered q
  unfolding destroy
  Step-IsOrdered {p} {q} (receive message e) from h = receive-IsOrdered message p q from e h
  Step-IsOrdered {p} {q} (respond response r e) from h = respond-IsOrdered response p q from e h
  Step-IsOrdered {p} (poll e) from h = subst IsOrdered (sym e) (message_loop-IsOrdered p h)
  Step-IsOrdered {p} (close n e) from h =
      subst IsOrdered (sym e)
        (record { settled = h.settled; queued = h.queued; last = h.last; delivered = h.delivered })

  Reach-IsOrdered : {p q : FeedProduct J} → IsOrdered p → (r : Reach p q) → AreFrom r → IsOrdered q
  Reach-IsOrdered h here from = h
  Reach-IsOrdered h (next r s) from = Step-IsOrdered s from.1 (Reach-IsOrdered h r from.0)

  -- Take any run of a new product, and any two predicates such that the first holds of what its
  -- responses parse to and the second of the messages that it receives. Then what its handler has got
  -- is a full book first, and then messages whose numbers go up by one from the last number of the
  -- book, up to the next full book. Each of these messages is of the second kind; and each full book is
  -- one of the first kind, into which messages of the second kind, or merged books that had not been
  -- handed over, were put, each with a number above that of the book.
  pub handled-InOrder :
      (product_id : String) {p : FeedProduct J} (r : Reach (new_feed_product product_id) p)
      → AreFrom r
      → (last : Option ℕ) × InOrder none p.handled last
  unfolding new_feed_product
  handled-InOrder product_id r from =
      let h =
        Reach-IsOrdered (record { settled = λ a. cc; queued = tt; last = none; delivered = refl }) r
          from in
      (h.last, h.delivered)
