-- ===== src/Tests/Consoles.antt =====
-- The console client through a subscription, an unsubscription and a second subscription.
use quote_server.Base.{
  String, ◌==◌, eq_iff, ℕ, zero, suc, ◌≡◌, ◌≢◌, ◌∙◌, sym, ◌↔◌, refl, arith, true, false, some, List,
  [], ◌∷◌, ◌++◌, Result, ok, err, undefined, invalid_argument, parse_error, length, get_elem?, map,
  if◌then◌else◌,
}
use quote_server.Base.Dict.{find, insert}
use quote_server.Json.{Json}
use quote_server.Protobuf.{QsMessage, order_book}
use quote_server.Console.{ScenarioEntry, transform, handle_typed, handle_reply, next_request}
use quote_server.Console.Threads.{
  Listener, Threads, ended, receiving, testing, no_threads, store, listen, listen_all, silence,
  silence_all, handle_new_endpoints, listener_tests, test_flag, listener_receives, queue_message,
  received, report,
}
use quote_server.Console.Steps.{Reach, here, next, handle}
use quote_server.Console.Listening.{
  Listens, silence-undefined_iff, silence-stops, listen-again-stays,
}
use quote_server.Console.Delivery
use quote_server.Console.Delivery.{Run-prints-all}
use quote_server.Console.Program.{Options, start, new_console, handle_scenario, main_round}
use quote_server.Console.Requests
use quote_server.Console.Requests.{Asked, Run-asks-all}
use quote_server.Tests.Value.{Value, value_json, str}

abbrev two : Threads
two = record {
  flags = true ∷ true ∷ [];
  endpoint_to_handler = ("a", 0) ∷ ("b", 1) ∷ [];
  listeners =
      record { endpoint = "a"; flag = 0; place = testing }
      ∷ record { endpoint = "b"; flag = 1; place = testing }
      ∷ [];
  feed_messages_queue = [];
}

Reach-two : Reach no_threads two
unfolding no_threads handle_new_endpoints listen_all listen silence_all insert
Reach-two = next here (handle ("a" ∷ "b" ∷ []) [] refl)

abbrev stopped : Threads
stopped = record two { flags = false ∷ true ∷ [] }

silenced : silence "a" two ≡ ok stopped
unfolding silence find store
silenced = refl

silence-undefined_iff_example : (silence "c" two ≡ err undefined) ↔ (¬ Listens "c" two)
silence-undefined_iff_example = silence-undefined_iff "c" Reach-two

only_first : (i : ℕ) (l : Listener) → get_elem? two.listeners i ≡ some l → l.endpoint ≡ "a" → i ≡ 0
only_first zero l e p = refl
only_first (suc zero) l e p = ground (arith, eq_iff "b" "a", e, p)
only_first (suc (suc i)) l e p = cc

Once-two :
    (i j : ℕ) (l m : Listener)
    → get_elem? two.listeners i ≡ some l
    → get_elem? two.listeners j ≡ some m
    → l.endpoint ≡ "a"
    → m.endpoint ≡ "a"
    → i ≡ j
Once-two i j l m e f p q = only_first i l e p ∙ sym (only_first j m f q)

silence-stops_example :
    (get_elem? stopped.listeners 0 ≡ some (record { endpoint = "a"; flag = 0; place = testing }))
    × (get_elem? stopped.flags 0 ≡ (if "a" == "a" then some false else get_elem? two.flags 0))
silence-stops_example =
    silence-stops "a" Reach-two Once-two silenced 0
      (record { endpoint = "a"; flag = 0; place = testing }) refl

-- Subscribed again and unsubscribed again.
abbrev again : Threads
again = record stopped {
  flags = false ∷ true ∷ true ∷ [];
  listeners = stopped.listeners ++ record { endpoint = "a"; flag = 2; place = testing } ∷ [];
}

Reach-stopped : Reach no_threads stopped
unfolding handle_new_endpoints listen_all silence_all silence find store
Reach-stopped = next Reach-two (handle [] ("a" ∷ []) refl)

Reach-again : Reach (listen "a" stopped) again
unfolding listen insert handle_new_endpoints listen_all silence_all silence find store
Reach-again = next here (handle [] ("a" ∷ []) refl)

listen-again-stays_example :
    (l : Listener) × (get_elem? again.listeners (length stopped.listeners) ≡ some l)
    × (l.endpoint ≡ "a")
    × (l.place ≢ ended)
listen-again-stays_example = listen-again-stays "a" Reach-stopped (0, _, refl, refl) Reach-again

abbrev read : String → QsMessage ℕ
read product_id = order_book (record { product_id = product_id; asks = []; bids = [] })

abbrev asleep : Threads
asleep = record two {
  listeners =
      record { endpoint = "a"; flag = 0; place = receiving }
      ∷ record { endpoint = "b"; flag = 1; place = testing }
      ∷ [];
}

abbrev queued : Threads
queued = record two { feed_messages_queue = "ETH-USD" ∷ [] }

Run-queued : Delivery.Run read ("ETH-USD" ∷ []) [] queued
unfolding no_threads handle_new_endpoints listen_all listen silence_all insert listener_tests
    test_flag listener_receives queue_message received
Run-queued =
    Delivery.Run.receive {t = asleep} 0 (record { endpoint = "a"; flag = 0; place = receiving })
      "ETH-USD"
      (Delivery.Run.test {t = two} 0
        (Delivery.Run.handle ("a" ∷ "b" ∷ []) [] (Delivery.Run.started refl) refl) refl)
      refl refl (λ e. ground (arith, eq_iff "ETH-USD" "")) refl refl

Run-prints-all_example :
    [] ++ map (report read) queued.feed_messages_queue ≡ map (report read) ("ETH-USD" ∷ [])
Run-prints-all_example = Run-prints-all read Run-queued

-- A scenario of one entry.
abbrev words : List String
words = "sub" ∷ "ETH-USD" ∷ "1" ∷ []

abbrev options : Options
options = record { help = false; prod_ids = some words; server_endpoint = some "tcp://127.0.0.1:1" }

abbrev seconds : String → Result ℕ
seconds s = if s == "1" then ok 1 else err invalid_argument

abbrev registered : Value
registered =
    (value_json (λ s. err parse_error)).object
      (("type", str "client_id_request") ∷ ("client_id", str "u1") ∷ [])

abbrev table : String → Result Value
table s = if s == "registered" then ok registered else err parse_error

instance abbrev console_json : Json Value
console_json = value_json table

abbrev entry : ScenarioEntry
entry = record { subscribes = true; product_id = "ETH-USD"; time_in_s = 1 }

Run-heartbeat :
    Requests.Run {J = Value} seconds options
      (Requests.heartbeat_request "u1" ∷ [])
      (entry ∷ [])
      (record new_console { client_id = "u1" })
unfolding start transform main_round handle_reply handle_typed next_request new_console find
Run-heartbeat =
    Requests.Run.replied "registered" (Requests.heartbeat_request "u1")
      (Requests.Run.started {c = new_console} refl refl) refl refl

-- The time of the entry comes, and the next reply is answered with its request.
abbrev subscribed : Value
subscribed = Requests.entry_request "u1" entry

Run-subscribed :
    Requests.Run {J = Value} seconds options
      (Requests.heartbeat_request "u1" ∷ subscribed ∷ [])
      []
      (record new_console { client_id = "u1" })
unfolding handle_scenario main_round handle_reply handle_typed next_request new_console find
Run-subscribed =
    Requests.Run.replied "registered" subscribed (Requests.Run.time_passes Run-heartbeat refl) refl
      refl

Run-asks-all_example :
    (sent : List ScenarioEntry) × Asked (Requests.heartbeat_request "u1" ∷ subscribed ∷ []) sent
    × (transform seconds words ≡ ok (sent ++ []))
unfolding new_console
Run-asks-all_example = Run-asks-all seconds options words refl Run-subscribed
