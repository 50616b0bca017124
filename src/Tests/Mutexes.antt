-- ===== src/Tests/Mutexes.antt =====
-- The server's threads and their mutexes, with two threads.
use quote_server.Base.{ℕ, ◌≡◌, refl, true, List, [], ◌∷◌, some, get_elem?, modify}
use quote_server.Locks.{
  Thread, Call, receives, idle, actions, is_locked, is_guarded, can_run, are_free, advance,
  feed_on_message_received_guards, product_on_message_received_guards, on_trade_guards,
}
use quote_server.Locks.Steps.{entered, Reach, here, next, begins, runs}
use quote_server.Locks.Order.{climbs}
use quote_server.Locks.Progress.{Reach-SomeRuns}
use quote_server.Locks.Deadlock.{any_call, IsEmbraced, unsubscribe-deadlocks}

abbrev two : List Thread
two = idle ∷ idle ∷ []

abbrev message : Call
message = receives "ETH-USD" true true

-- Both threads are given a message of the feed, and the first one takes the mutex of the feed.
abbrev both : List Thread
both = entered message ∷ entered message ∷ []

Reach-both : Reach climbs two (modify 0 advance both)
unfolding can_run are_free is_locked is_guarded actions feed_on_message_received_guards
    product_on_message_received_guards on_trade_guards
Reach-both =
    next {us = both}
      (next {us = entered message ∷ idle ∷ []} (next here (begins 0 message refl refl refl))
        (begins 1 message refl refl refl))
      (runs 0 (entered message) refl refl refl)

Reach-SomeRuns_example :
    (j : ℕ) × (u : Thread) × (get_elem? (modify 0 advance both) j ≡ some u)
    × (can_run (modify 0 advance both) u ≡ true)
unfolding actions feed_on_message_received_guards
Reach-SomeRuns_example = Reach-SomeRuns 2 1 (entered message) Reach-both refl (λ e. cc)

unsubscribe-deadlocks_example :
    (us : List Thread) × Reach any_call two us
    × ((vs : List Thread) → Reach any_call us vs → IsEmbraced 0 1 vs)
unfolding is_locked is_guarded
unsubscribe-deadlocks_example =
    unsubscribe-deadlocks "ETH-USD" true 0 1 two (λ e. cc) refl refl refl refl refl refl
