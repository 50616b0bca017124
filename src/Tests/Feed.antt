-- ===== src/Tests/Feed.antt =====
-- A feed product through a request, a gap and a request that fails.
use quote_server.Base.{
  String, ℕ, ◌+◌, ◌^◌, ◌<◌, ◌⊎◌, ◌≡◌, refl, true, false, Option, none, [], ◌∷◌, Result, ok, err,
  parse_error, ◌==◌, if◌then◌else◌, inl, ok-injective,
}
use mathlib.Core.Path.{subst}
use quote_server.Json.{Json}
use quote_server.FeedProduct.{
  FeedProduct, running, ended, new_feed_product, on_message_received, request_full_order_book,
  message_loop, request_full_order_book_impl, install_or_give_up, install_book, merge_queue,
  merge_message, give_up,
}
use quote_server.FeedProduct.Steps.{
  receive, respond, poll, Reach, here, next, on_message_received-total,
}
use quote_server.FeedProduct.Bounds.{sorted_message, on_message_received-bounds}
use quote_server.FeedProduct.Order.{InOrder, handled-InOrder}
use quote_server.FeedProduct.Progress.{unusable_response-stops}
use quote_server.Tests.Value.{Value, num, str, value_json, value_laws}

abbrev message : ℕ → Value
message n =
    (value_json (λ s. err parse_error)).object (("type", str "done") ∷ ("sequence", num n) ∷ [])

abbrev book_value : Value
book_value = (value_json (λ s. err parse_error)).object (("sequence", num 10) ∷ [])

abbrev merged_value : Value
merged_value = (value_json (λ s. err parse_error)).object (
    ("sequence", num 10)
    ∷ ("to_merge", (value_json (λ s. err parse_error)).array (message 11 ∷ []))
    ∷ [])

abbrev table : String → Result Value
table s = if s == "book" then ok book_value else err parse_error

instance abbrev feed_json : Json Value
feed_json = value_json table

abbrev start : FeedProduct Value
start = record {
  product_id = "ETH-USD";
  message_queue = [];
  last_sequence_number = 0;
  is_running = true;
  requesting_orderbook = true;
  request_thread = running;
  handled = [];
}

start-eq : new_feed_product "ETH-USD" ≡ start
unfolding new_feed_product
start-eq = refl

abbrev queued : FeedProduct Value
queued = record start { message_queue = message 9 ∷ message 11 ∷ [] }

abbrev installed : FeedProduct Value
installed = record start {
  message_queue = merged_value ∷ [];
  last_sequence_number = 11;
  requesting_orderbook = false;
  request_thread = ended;
}

abbrev handed : FeedProduct Value
handed = record installed {
  message_queue = message 12 ∷ [];
  last_sequence_number = 12;
  handled = merged_value ∷ [];
}

abbrev gapped : FeedProduct Value
gapped = record handed {
  message_queue = message 12 ∷ [];
  last_sequence_number = 0;
  requesting_orderbook = true;
  request_thread = running;
}

-- Number 9 is older than the book; 11 is merged into it, and 12 follows.
Reach-handed : Reach (new_feed_product "ETH-USD") handed
unfolding new_feed_product on_message_received request_full_order_book_impl install_or_give_up
    install_book merge_queue merge_message message_loop
Reach-handed =
    next
      (next
        (next (next (next here (receive (message 9) refl)) (receive (message 11) refl))
          (respond "book" refl refl))
        (poll refl))
      (receive (message 12) refl)

-- Number 20 leaves a gap behind 12.
Reach-gapped : Reach (new_feed_product "ETH-USD") gapped
unfolding on_message_received request_full_order_book
Reach-gapped = next Reach-handed (receive (message 20) refl)

-- A message of the feed has a type, and a book has none.
abbrev IsBook : Value → Type 0
IsBook v = feed_json.contains v "type" ≡ false

abbrev IsMessage : Value → Type 0
IsMessage v = feed_json.contains v "type" ≡ true

handled-InOrder_example : (last : Option ℕ) × InOrder IsBook IsMessage none gapped.handled last
unfolding Reach-gapped Reach-handed
handled-InOrder_example =
    handled-InOrder IsBook IsMessage "ETH-USD" Reach-gapped
      ((((((tt, refl), refl), (λ book e. subst IsBook (ok-injective e) refl)), tt), refl), refl)

on_message_received-total_example :
    (q : FeedProduct Value) × (on_message_received (message 20) handed ≡ ok q)
on_message_received-total_example =
    on_message_received-total "ETH-USD" (message 20) 20 Reach-handed refl

on_message_received-bounds_example :
    (handed.last_sequence_number + 1 ≡ 2 ^ 64)
    ⊎ ((handed.last_sequence_number + 1 < 2 ^ 64)
        × (on_message_received (message 20) handed ≡ ok (sorted_message 20 (message 20) handed)))
on_message_received-bounds_example =
    on_message_received-bounds (value_laws table) "ETH-USD" (message 20) 20 Reach-handed refl

gives_up_empty : request_full_order_book_impl "" gapped ≡ ok (give_up gapped)
unfolding request_full_order_book_impl
gives_up_empty = refl

ignores_next :
    on_message_received (message 21) (give_up gapped)
    ≡ ok (record (give_up gapped) { message_queue = message 12 ∷ message 21 ∷ [] })
unfolding on_message_received
ignores_next = refl

unusable_response-stops_example :
    (gapped.handled ≡ gapped.handled) × (gapped.requesting_orderbook ≡ true)
unusable_response-stops_example =
    unusable_response-stops "ETH-USD" "" Reach-gapped refl (inl refl) gives_up_empty
      (next here (receive (message 21) ignores_next))
