-- ===== src/Console/Threads.antt =====
-- client.cpp: `hendleNewEndpoints` with the threads that listen to the endpoints, and
-- `handleFeedMessages`. A `std::atomic<bool>` that a thread shares with `endpointToHandler` is an
-- address in a list of flags. Parsing a message is protocol buffers', a parameter. The time stamps
-- that a listening thread collects for a rate that nothing reads are left out.
use quote_server.Base.{
  String, ◌<>◌, ◌==◌, ℕ, Bool, true, false, none, some, List, [], ◌∷◌, Result, ok, err, undefined,
  length, get_elem?, push_back, modify, map, ◌>>=◌, if◌then◌else◌,
}
use quote_server.Base.Dict.{Dict, find, insert}
use quote_server.Protobuf.{QsMessage, trade, order_book}
use quote_server.Console.Words.{trade_to_string}

-- A listening thread is before its test of the flag, in the wait for a message, or at its end.
pub data Place : Type 0 where
  testing receiving ended : Place

pub record Listener : Type 0 where
  pub endpoint : String
  pub flag : ℕ
  pub place : Place

pub record Threads : Type 0 where
  pub flags : List Bool
  pub endpoint_to_handler : Dict ℕ
  pub listeners : List Listener
  pub feed_messages_queue : List String

unfoldable pub no_threads : Threads
no_threads = record {
  flags = [];
  endpoint_to_handler = [];
  listeners = [];
  feed_messages_queue = [];
}

-- `at->store(value)`
unfoldable pub store : ℕ → Bool → List Bool → List Bool
store a value flags = modify a (λ (old : Bool). value) flags

-- The body of the loop over the endpoints to subscribe: a new flag, a thread that shares it, and an
-- `emplace`, which keeps the entry of an endpoint that is there.
unfoldable pub listen : String → Threads → Threads
listen endpoint t = record t {
  flags = push_back t.flags true;
  listeners =
      push_back t.listeners
        (record { endpoint = endpoint; flag = length t.flags; place = testing });
  endpoint_to_handler = insert endpoint (length t.flags) t.endpoint_to_handler;
}

unfoldable pub listen_all : List String → Threads → Threads
listen_all [] t = t
listen_all (endpoint ∷ endpoints) t = listen_all endpoints (listen endpoint t)

-- `(*endpointToHandler[endpoint]).store(false)`: an endpoint that is not there has no flag, and the
-- null pointer that `operator[]` makes for it is dereferenced.
unfoldable pub silence : String → Threads → Result Threads
silence endpoint t = elim (find endpoint t.endpoint_to_handler) [
  | none ↦ err undefined
  | some a ↦ ok (record t { flags = store a false t.flags })
]

unfoldable pub silence_all : List String → Threads → Result Threads
silence_all [] t = ok t
silence_all (endpoint ∷ endpoints) t = do t' ← silence endpoint t; silence_all endpoints t'

-- What `hendleNewEndpoints` does with the two queues that it has taken.
unfoldable pub handle_new_endpoints : List String → List String → Threads → Result Threads
handle_new_endpoints subscribed unsubscribed t = silence_all unsubscribed (listen_all subscribed t)

-- `while(*at)`
unfoldable pub test_flag : List Bool → Listener → Listener
test_flag flags l = elim l.place [
  | testing ↦ elim (get_elem? flags l.flag) [
    | none ↦ l
    | some true ↦ record l { place = receiving }
    | some false ↦ record l { place = ended }
  ]
  | receiving ↦ l
  | ended ↦ l
]

-- The wait for a message is over, with a message or after half a second.
unfoldable pub received : Listener → Listener
received l = elim l.place [ testing ↦ l | receiving ↦ record l { place = testing } | ended ↦ l ]

-- What is put into the queue: nothing for an empty message.
unfoldable pub queue_message : String → Listener → List String → List String
queue_message message l queue = elim l.place [
  | testing ↦ queue
  | receiving ↦ (if message == "" then queue else push_back queue message)
  | ended ↦ queue
]

-- The listening thread at a place of the list takes a step.
unfoldable pub listener_tests : ℕ → Threads → Threads
listener_tests i t = record t { listeners = modify i (test_flag t.flags) t.listeners }

unfoldable pub listener_receives : ℕ → String → Threads → Threads
listener_receives i message t = elim (get_elem? t.listeners i) [
  | none ↦ t
  | some l ↦ record t {
    listeners = modify i received t.listeners;
    feed_messages_queue = queue_message message l t.feed_messages_queue;
  }
]

module _ {F : Type 0} (parse_from_string : String → QsMessage F) where
  -- The line that is printed for a message.
  unfoldable pub report : String → String
  report message = elim (parse_from_string message) [
    | order_book book ↦ "[" <> book.product_id <> "] Received new ORDERBOOK message"
    | trade t ↦
        "[" <> t.product_id <> "]  Received new trade message of type: " <> trade_to_string t.type
  ]

  -- One round: the lines printed of what was queued, and an empty queue.
  unfoldable pub handle_feed_messages : Threads → List String × Threads
  handle_feed_messages t = (map report t.feed_messages_queue, record t { feed_messages_queue = [] })
