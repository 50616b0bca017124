-- ===== src/Console/Delivery.antt =====
-- The way of the feed's messages through client.cpp: from the listening threads over the shared queue
-- to the thread that prints a line for each.
use quote_server.Base.{
  String, eq_iff, ℕ, ◌≡◌, ◌≢◌, refl, sym, ap, ◌∙◌, arith, some, List, [], ◌∷◌, ◌++◌, ok, get_elem?,
  push_back, map,
}
use mathlib.Core.List.{append_assoc, append-nil, map-append}
use quote_server.Protobuf.{QsMessage}
use quote_server.Console.Threads.{
  Listener, Threads, receiving, no_threads, listen, handle_new_endpoints, listener_tests,
  listener_receives, queue_message, report, handle_feed_messages,
}
use quote_server.Console.Steps.{kept-handle_new_endpoints}
use quote_server.Console.Wired.{silence-eq-ok}

module _ {F : Type 0} (parse_from_string : String → QsMessage F) where
  -- A run from the start of the program: the messages that the sockets gave, over all threads in the
  -- order in which they were queued, the lines that were printed, and the state.
  pub data Run : List String → List String → Threads → Type 0 where
    started : {t : Threads} → t ≡ no_threads → Run [] [] t
    handle :
        {given printed : List String} {t u : Threads} (subscribed unsubscribed : List String)
        → Run given printed t
        → handle_new_endpoints subscribed unsubscribed t ≡ ok u
        → Run given printed u
    test :
        {given printed : List String} {t u : Threads} (i : ℕ)
        → Run given printed t
        → u ≡ listener_tests i t
        → Run given printed u
    time_out :
        {given printed : List String} {t u : Threads} (i : ℕ)
        → Run given printed t
        → u ≡ listener_receives i "" t
        → Run given printed u
    receive :
        {given printed : List String} {given' : List String} {t u : Threads} (i : ℕ) (l : Listener)
        (message : String)
        → Run given printed t
        → get_elem? t.listeners i ≡ some l
        → l.place ≡ receiving
        → message ≢ ""
        → u ≡ listener_receives i message t
        → given' ≡ push_back given message
        → Run given' printed u
    print :
        {given printed printed' : List String} {t u : Threads}
        → Run given printed t
        → handle_feed_messages parse_from_string t ≡ (printed', u)
        → Run given (printed ++ printed') u

  queue-handle :
      (subscribed unsubscribed : List String) (t u : Threads)
      → handle_new_endpoints subscribed unsubscribed t ≡ ok u
      → u.feed_messages_queue ≡ t.feed_messages_queue
  unfolding listen
  queue-handle subscribed unsubscribed t u e =
      kept-handle_new_endpoints (λ u. u.feed_messages_queue ≡ t.feed_messages_queue) (λ k v h. h)
        (λ k v w done h.
          let (a, found, same) = silence-eq-ok k v w done in
          sym (ap (λ (w : Threads). w.feed_messages_queue) same) ∙ h)
        subscribed unsubscribed t u e refl

  queue-time_out :
      (i : ℕ) (t : Threads) → (listener_receives i "" t).feed_messages_queue ≡ t.feed_messages_queue
  unfolding listener_receives queue_message
  queue-time_out i t = ground arith

  queue-receive :
      (i : ℕ) (l : Listener) (message : String) (t : Threads)
      → get_elem? t.listeners i ≡ some l
      → l.place ≡ receiving
      → message ≢ ""
      → (listener_receives i message t).feed_messages_queue
        ≡ push_back t.feed_messages_queue message
  unfolding listener_receives queue_message
  queue-receive i l message t there place some_text =
      rw (there, listener_receives)
        (rw (place, queue_message) (ground (arith, some_text, eq_iff message "")))

  -- Every message that a socket gives to a listening thread is printed as one line, in the order in
  -- which the messages were queued and none twice: at any time the lines printed, followed by those
  -- for what the queue still holds, are the lines for all the messages given.
  pub Run-prints-all :
      {given printed : List String} {t : Threads}
      → Run given printed t
      → printed ++ map (report parse_from_string) t.feed_messages_queue
        ≡ map (report parse_from_string) given
  unfolding no_threads listener_tests handle_feed_messages
  Run-prints-all (started e) =
      ap (λ (t : Threads). map (report parse_from_string) t.feed_messages_queue) e
  Run-prints-all {printed = printed} (handle {t = t} {u = u} subscribed unsubscribed r e) =
      rw (queue-handle subscribed unsubscribed t u e) (Run-prints-all r)
  Run-prints-all (test i r e) = rw e (Run-prints-all r)
  Run-prints-all (time_out {t = t} i r e) = rw (e, queue-time_out i t) (Run-prints-all r)
  Run-prints-all (receive {given} {printed} {t = t} i l message r there place some_text e k) =
      let line = report parse_from_string in
      let queue = t.feed_messages_queue in
      rw
        (
          e,
          k,
          queue-receive i l message t there place some_text,
          map-append line queue (message ∷ []),
          map-append line given (message ∷ []),
        )
        (sym (append_assoc printed (map line queue) _)
          ∙ ap (λ (lines : List String). lines ++ line message ∷ []) (Run-prints-all r))
  Run-prints-all (print {printed} {printed'} {t} r e) =
      let line = report parse_from_string in
      let lines : map line t.feed_messages_queue ≡ printed' = ap (λ p. p.0) e in
      let queue : [] ≡ _ = ap (λ p. p.1.feed_messages_queue) e in
      rw (sym queue, sym lines) (append-nil _ ∙ Run-prints-all r)
