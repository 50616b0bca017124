-- ===== src/Locks/Order.antt =====
-- The order in which the guards of the server's calls take the mutexes.
use quote_server.Base.{
  ℕ, zero, suc, ◌<◌, ◌≤◌, ◌≡◌, refl, arith, Bool, true, false, not, List, [], ◌∷◌, All,
}
use quote_server.Locks.{
  Mutex, product_change_handler_mutex, market_data_mutex, mutex_trades, mutex_feed_data,
  messages_mutex, same_mutex, Action, acquire, release, Call, subscribes, unsubscribes, processes,
  receives, requests, handles, actions, hand_over, subscribe_guards, unsubscribe_guards,
  on_trade_guards, on_product_change_guards, feed_subscribe_guards, feed_on_message_received_guards,
  product_on_message_received_guards, request_full_order_book_impl_guards, message_loop_guards,
  process_product_changes_guards,
}

-- The order of the mutexes. Those of rank 2 are never held together.
abbrev pub rank : Mutex → ℕ
rank market_data_mutex = 0
rank mutex_feed_data = 1
rank product_change_handler_mutex = 2
rank mutex_trades = 2
rank (messages_mutex product_id) = 2

pub rank-le : (m : Mutex) → rank m ≤ 2
rank-le market_data_mutex = omega arith
rank-le mutex_feed_data = omega arith
rank-le product_change_handler_mutex = omega arith
rank-le mutex_trades = omega arith
rank-le (messages_mutex product_id) = omega arith

pub rank-same : (m n : Mutex) → same_mutex m n ≡ true → rank m ≡ rank n
unfolding same_mutex
rank-same product_change_handler_mutex product_change_handler_mutex e = refl
rank-same market_data_mutex market_data_mutex e = refl
rank-same mutex_trades mutex_trades e = refl
rank-same mutex_feed_data mutex_feed_data e = refl
rank-same (messages_mutex p) (messages_mutex q) e = refl
rank-same _ _ e = cc

abbrev pub Below : Mutex → List Mutex → Type 0
Below h ms = All (λ m. rank h < rank m) ms

-- Every mutex of the guards is below every one of the list.
abbrev pub Above : List (List Mutex) → List Mutex → Type 0
Above gs ms = All (λ g. All (λ h. Below h ms) g) gs

-- What is left of a call climbs, and destroys every guard.
abbrev pub Follows : List (List Mutex) → List Action → Type 0
Follows gs [] = gs ≡ []
Follows gs (acquire ms ∷ rest) = Above gs ms × Follows (ms ∷ gs) rest
Follows [] (release ∷ rest) = ⊥
Follows (g ∷ gs) (release ∷ rest) = Follows gs rest

-- All calls but the one that lets go of a product.
abbrev pub climbs : Call → Bool
climbs (unsubscribes is_last) = not is_last
climbs (subscribes is_new) = true
climbs processes = true
climbs (receives product_id sequenced is_trade) = true
climbs (requests product_id) = true
climbs (handles product_id messages) = true

hand_over-Follows : (n : ℕ) → Follows [] (hand_over n)
unfolding hand_over on_product_change_guards
hand_over-Follows zero = refl
hand_over-Follows (suc n) = (tt, hand_over-Follows n)

pub actions-Follows : (call : Call) → climbs call ≡ true → Follows [] (actions call)
unfolding actions subscribe_guards unsubscribe_guards feed_subscribe_guards
    process_product_changes_guards feed_on_message_received_guards
    product_on_message_received_guards on_trade_guards request_full_order_book_impl_guards
    message_loop_guards
actions-Follows (subscribes true) e = ground arith
actions-Follows (subscribes false) e = ground arith
actions-Follows (unsubscribes true) e = cc
actions-Follows (unsubscribes false) e = ground arith
actions-Follows processes e = ground arith
actions-Follows (receives p true true) e = ground arith
actions-Follows (receives p true false) e = ground arith
actions-Follows (receives p false true) e = ground arith
actions-Follows (receives p false false) e = ground arith
actions-Follows (requests p) e = ground arith
actions-Follows (handles p n) e = (tt, hand_over-Follows n)
