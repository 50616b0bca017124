-- ===== src/WebsocketTransport.antt =====
-- transport/include/WebsocketTransport.hpp and transport/src/WebsocketTransport.cpp: who is told of a
-- message, and what was sent. websocketpp is not in the repository: whether `get_connection` finds a
-- URI good is an argument; `R` stands for the pointers to receivers.
use quote_server.Base.{String, Bool, not, List, [], map, push_back, if◌then◌else◌}
use quote_server.Base.Dict
use quote_server.Base.Dict.{Dict}

pub record WebsocketTransport (R : Type 0) : Type 0 where
  pub subscribers : Dict R
  -- the connections that were made, and the messages sent, oldest first
  pub connections : List String
  pub sent : List String

abbrev pub new_transport : {R : Type 0} → WebsocketTransport R
new_transport = record { subscribers = []; connections = []; sent = [] }

module _ {R : Type 0} where
  unfoldable pub connect : (String → Bool) → String → WebsocketTransport R → WebsocketTransport R
  connect is_valid uri t =
      if not (is_valid uri) then t else record t { connections = push_back t.connections uri }

  -- An error of the library is not looked at.
  unfoldable pub send : String → WebsocketTransport R → WebsocketTransport R
  send msg t = record t { sent = push_back t.sent msg }

  unfoldable pub subscribe : String → R → WebsocketTransport R → WebsocketTransport R
  subscribe id receiver t = record t { subscribers = Dict.assign id receiver t.subscribers }

  unfoldable pub unsubscribe : String → WebsocketTransport R → WebsocketTransport R
  unsubscribe id t = record t { subscribers = Dict.erase id t.subscribers }

  -- The calls of `onMessageReceived` that a message leads to.
  on_message : String → WebsocketTransport R → List (R × String)
  on_message payload t = map (λ (s : String × R). (s.1, payload)) t.subscribers
