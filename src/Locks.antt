-- ===== src/Locks.antt =====
-- The mutexes that the market (include/Market.hpp, src/Market.cpp), the feed client
-- (src/coinbase/CoinbaseFeedClient.cpp) and its products (src/coinbase/CoinbaseFeedProduct.cpp) lock
-- over each other's calls. Of each call only its guards are kept, in the order in which they are made
-- and destroyed; a guard is a scope's `lock_guard`, `unique_lock` or `scoped_lock`. What a condition
-- variable's wait does to its own guard is left out, and so are joins of threads.
pub mod Steps
pub mod Order
pub mod Deadlock
pub mod Progress
use quote_server.Base.{
  String, ◌==◌, ℕ, zero, suc, Bool, true, false, not, ◌&&◌, ◌||◌, List, [], ◌∷◌, ◌++◌,
  if◌then◌else◌,
}

pub data Mutex : Type 0 where
  product_change_handler_mutex market_data_mutex mutex_trades mutex_feed_data : Mutex
  messages_mutex : String → Mutex

unfoldable pub same_mutex : Mutex → Mutex → Bool
same_mutex product_change_handler_mutex product_change_handler_mutex = true
same_mutex market_data_mutex market_data_mutex = true
same_mutex mutex_trades mutex_trades = true
same_mutex mutex_feed_data mutex_feed_data = true
same_mutex (messages_mutex p) (messages_mutex q) = p == q
same_mutex _ _ = false

-- A guard is made over some mutexes, all of which it takes at once, or the innermost one is destroyed.
pub data Action : Type 0 where
  acquire : List Mutex → Action
  release : Action

abbrev pub guarded : List Mutex → List Action → List Action
guarded mutexes actions = acquire mutexes ∷ (actions ++ release ∷ [])

-- CoinbaseFeedProduct::onMessageReceived
unfoldable pub product_on_message_received_guards : String → List Action
product_on_message_received_guards product_id = guarded (messages_mutex product_id ∷ []) []

-- CoinbaseFeedProduct::requestFullOrderBookImpl
unfoldable pub request_full_order_book_impl_guards : String → List Action
request_full_order_book_impl_guards product_id = guarded (messages_mutex product_id ∷ []) []

-- Market::onProductChange
unfoldable pub on_product_change_guards : List Action
on_product_change_guards = guarded (product_change_handler_mutex ∷ []) []

-- One product change for each message that the round takes from the queue.
unfoldable pub hand_over : ℕ → List Action
hand_over zero = []
hand_over (suc n) = on_product_change_guards ++ hand_over n

-- A round of CoinbaseFeedProduct::messageLoop
unfoldable pub message_loop_guards : String → ℕ → List Action
message_loop_guards product_id messages =
    guarded (messages_mutex product_id ∷ []) [] ++ hand_over messages

-- Market::onTrade
unfoldable pub on_trade_guards : List Action
on_trade_guards = guarded (mutex_trades ∷ []) []

-- CoinbaseFeedClient::onMessageReceived, with whether the message reaches a product and whether it is
-- a trade for a listener
unfoldable pub feed_on_message_received_guards : String → Bool → Bool → List Action
feed_on_message_received_guards product_id sequenced is_trade = guarded (mutex_feed_data ∷ []) (
    (if sequenced then product_on_message_received_guards product_id else [])
    ++ (if is_trade then on_trade_guards else []))

-- CoinbaseFeedClient::subscribe and CoinbaseFeedClient::unsubscribe
unfoldable pub feed_subscribe_guards : List Action
feed_subscribe_guards = guarded (mutex_feed_data ∷ []) []

unfoldable pub feed_unsubscribe_guards : List Action
feed_unsubscribe_guards = guarded (mutex_feed_data ∷ []) []

-- A round of Market::processProductChanges
unfoldable pub process_product_changes_guards : List Action
process_product_changes_guards =
    guarded (product_change_handler_mutex ∷ []) [] ++ guarded (market_data_mutex ∷ []) []

-- Market::subscribe, with whether the product is new
unfoldable pub subscribe_guards : Bool → List Action
subscribe_guards is_new =
    guarded (market_data_mutex ∷ []) (if is_new then feed_subscribe_guards else [])
    ++ guarded (mutex_trades ∷ []) []

-- Market::unsubscribe, with whether no client is left
unfoldable pub unsubscribe_guards : Bool → List Action
unsubscribe_guards is_last =
    guarded (market_data_mutex ∷ mutex_trades ∷ [])
      (if is_last then feed_unsubscribe_guards else [])

-- What a thread of the server may call.
pub data Call : Type 0 where
  subscribes unsubscribes : Bool → Call
  processes : Call
  receives : String → Bool → Bool → Call
  requests : String → Call
  handles : String → ℕ → Call

unfoldable pub actions : Call → List Action
actions (subscribes is_new) = subscribe_guards is_new
actions (unsubscribes is_last) = unsubscribe_guards is_last
actions processes = process_product_changes_guards
actions (receives product_id sequenced is_trade) =
    feed_on_message_received_guards product_id sequenced is_trade
actions (requests product_id) = request_full_order_book_impl_guards product_id
actions (handles product_id messages) = message_loop_guards product_id messages

-- A thread: its guards, the innermost one first, and what is left of its call.
pub record Thread : Type 0 where
  pub guards : List (List Mutex)
  pub todo : List Action

abbrev pub idle : Thread
idle = record { guards = []; todo = [] }

unfoldable pub is_in : Mutex → List Mutex → Bool
is_in m [] = false
is_in m (n ∷ ns) = same_mutex m n || is_in m ns

unfoldable pub is_guarded : Mutex → List (List Mutex) → Bool
is_guarded m [] = false
is_guarded m (g ∷ gs) = is_in m g || is_guarded m gs

-- Some thread holds the mutex.
unfoldable pub is_locked : Mutex → List Thread → Bool
is_locked m [] = false
is_locked m (t ∷ ts) = is_guarded m t.guards || is_locked m ts

unfoldable pub are_free : List Mutex → List Thread → Bool
are_free [] ts = true
are_free (m ∷ ms) ts = not (is_locked m ts) && are_free ms ts

-- The thread has something to do and need not wait.
unfoldable pub can_run : List Thread → Thread → Bool
can_run ts t = elim t.todo [
  | [] ↦ false
  | acquire ms ∷ rest ↦ are_free ms ts
  | release ∷ rest ↦ true
]

abbrev pub drop_guard : List (List Mutex) → List (List Mutex)
drop_guard [] = []
drop_guard (g ∷ gs) = gs

unfoldable pub advance : Thread → Thread
advance t = elim t.todo [
  | [] ↦ t
  | acquire ms ∷ rest ↦ record { guards = ms ∷ t.guards; todo = rest }
  | release ∷ rest ↦ record { guards = drop_guard t.guards; todo = rest }
]
