-- ===== src/FeedProduct.antt =====
-- include/coinbase/CoinbaseFeedProduct.hpp and src/coinbase/CoinbaseFeedProduct.cpp: the messages of
-- one product, kept in the order of their sequence numbers around the requests for the full book.
-- Each function is one critical section under `m_messagesMutex`, or the part of a thread's body
-- that ends in one; `handled` keeps what `messageLoop` passed to its message handler, oldest first.
pub mod Steps
pub mod Merge
pub mod Order
pub mod Progress
pub mod Bounds
pub mod Request
use quote_server.Base.{
  String, ℕ, ◌+◌, ◌%◌, ◌^◌, Bool, true, false, not, List, [], ◌∷◌, ◌++◌, Result, ok, err, deadlock,
  push_back, ◌>>=◌, ◌==◌, if◌then◌else◌, ltb, leb, nat_eq,
}
use quote_server.Json.{Json, ulong_at, ulong_member}

-- The thread that requests the full order book: it runs, it has ended and can be joined, or it has
-- been joined.
pub data RequestThread : Type 0 where
  running ended joined : RequestThread

pub record FeedProduct (J : Type 0) : Type 0 where
  pub product_id : String
  pub message_queue : List J
  pub last_sequence_number : ℕ
  pub is_running : Bool
  pub requesting_orderbook : Bool
  pub request_thread : RequestThread
  pub handled : List J

-- `unsigned long` has 64 bits.
abbrev pub ulong_mod : ℕ
ulong_mod = 2 ^ 64

module _ {J : Type 0} where
  unfoldable pub new_feed_product : String → FeedProduct J
  new_feed_product product_id = record {
    product_id = product_id;
    message_queue = [];
    last_sequence_number = 0;
    is_running = true;
    requesting_orderbook = true;
    request_thread = running;
    handled = [];
  }

  -- The caller holds the mutex, so to join a thread that still runs is to wait for ever.
  unfoldable pub request_full_order_book : FeedProduct J → Result (FeedProduct J)
  request_full_order_book p = elim p.request_thread [
    | running ↦ err deadlock
    | ended ↦ ok (record p { requesting_orderbook = true; request_thread = running })
    | joined ↦ ok (record p { requesting_orderbook = true; request_thread = running })
  ]

  -- The thread gives up.
  abbrev pub give_up : FeedProduct J → FeedProduct J
  give_up p = record p { request_thread = ended }

  -- One round of the loop, its test first: what is queued goes to the handler unless a request is
  -- under way.
  unfoldable pub message_loop : FeedProduct J → FeedProduct J
  message_loop p =
      if not p.is_running
      then p
      else if p.requesting_orderbook
      then p
      else record p { message_queue = []; handled = p.handled ++ p.message_queue }

  -- The destructor, once the request thread has ended: it joins that and ends the loop.
  unfoldable pub destroy : FeedProduct J → FeedProduct J
  destroy p = record p { request_thread = joined; is_running = false }

module _ {J : Type 0} ⦃json : Json J⦄ where
  unfoldable pub on_message_received : J → FeedProduct J → Result (FeedProduct J)
  on_message_received message p = do
    sequence ← ulong_at message "sequence"
    if p.requesting_orderbook
        then ok (record p { message_queue = push_back p.message_queue message })
        else if ltb ((p.last_sequence_number + 1) % ulong_mod) sequence
        then request_full_order_book (record p { last_sequence_number = 0 })
        else if leb sequence p.last_sequence_number
        then ok p
        else ok (record p {
          message_queue = push_back p.message_queue message;
          last_sequence_number = sequence;
        })

  -- One queued message, put into the book if it is younger than the book.
  unfoldable pub merge_message : ℕ → J → J × ℕ → Result (J × ℕ)
  merge_message book_sequence message (book, last) =
      if json.contains message "sequence"
      then (do
        sequence ← ulong_member message "sequence"
        if ltb book_sequence sequence
            then (do book' ← json.append_to "to_merge" message book; ok (book', sequence))
            else ok (book, last))
      else ok (book, last)

  -- `while(!m_messageQueue.empty())`
  unfoldable pub merge_queue : ℕ → List J → J × ℕ → Result (J × ℕ)
  merge_queue book_sequence [] state = ok state
  merge_queue book_sequence (message ∷ queue) state = do
    state' ← merge_message book_sequence message state
    merge_queue book_sequence queue state'

  -- The critical section: the book goes to the front of the emptied queue.
  unfoldable pub install_book : J → ℕ → FeedProduct J → Result (FeedProduct J)
  install_book book book_sequence p = do
    (book', last) ← merge_queue book_sequence p.message_queue (book, book_sequence)
    ok (record p {
      message_queue = book' ∷ [];
      last_sequence_number = last;
      requesting_orderbook = false;
      request_thread = ended;
    })

  -- A book with no sequence number, or with number 0, is refused.
  unfoldable pub install_or_give_up : J → FeedProduct J → Result (FeedProduct J)
  install_or_give_up book p = if not (json.contains book "sequence") then ok (give_up p) else do
    book_sequence ← ulong_member book "sequence"
    if nat_eq book_sequence 0 then ok (give_up p) else install_book book book_sequence p

  -- The body of the request thread, from the response on. A fault ends the process.
  unfoldable pub request_full_order_book_impl : String → FeedProduct J → Result (FeedProduct J)
  request_full_order_book_impl response p =
      if response == ""
      then ok (give_up p)
      else do book ← json.parse response; install_or_give_up book p
