-- ===== src/Tests/Sockets.antt =====
-- The loop of the client service over a socket that keeps what is sent, and gives what a test says.
use quote_server.Base.{
  String, ◌≡◌, refl, inl, inr, Bool, true, false, List, [], ◌∷◌, Result, ok, err, undefined,
  deadlock, push_back, Fault, arith,
}
use quote_server.Json.{Json}
use quote_server.ClientService.Loop.{Socket, SocketLaws, Serving, run_impl}
use quote_server.ClientService.Ending.{incomplete_request-ends}
use quote_server.Tests.Value.{Value, value_json, value_laws}
use quote_server.Tests.Service.{table, no_product, recorder, endpoints}

record Rep : Type 0 where
  incoming : List String
  owes_reply : Bool
  sent : List String

abbrev receive : Rep → Result (String × Rep)
receive s = elim s.owes_reply [
  | true ↦ err undefined
  | false ↦ elim s.incoming [
    | [] ↦ err deadlock
    | message ∷ messages ↦ ok (message, record s { incoming = messages; owes_reply = true })
  ]
]

abbrev rep : Socket Rep
rep = record {
  recv = receive;
  send = λ message s. ok (record s { owes_reply = false; sent = push_back s.sent message });
}

receive-again :
    (s s' : Rep) (message : String)
    → receive s ≡ ok (message, s')
    → (fault : Fault) × (receive s' ≡ err fault)
receive-again s s' message e = (undefined, ground arith)

abbrev rep_laws : SocketLaws rep
rep_laws = record { recv_again = receive-again }

instance abbrev socket_json : Json Value
socket_json = value_json table

abbrev serving : Serving Rep (List (String × String))
serving = record {
  socket = record { incoming = "no product" ∷ "complete" ∷ []; owes_reply = false; sent = [] };
  service = record { registered_client_ids = "u1" ∷ []; endpoint_address = "127.0.0.1:10090" };
  market = [];
}

incomplete_request-ends_example :
    (fault : Fault) × (run_impl Value recorder endpoints rep ("u2" ∷ "u3" ∷ []) serving ≡ err fault)
incomplete_request-ends_example =
    incomplete_request-ends (value_laws table) recorder endpoints rep rep_laws "u2" "u3" [] serving
      "no product" (record serving.socket { incoming = "complete" ∷ []; owes_reply = true })
      no_product refl refl refl (inl (refl, inr refl))
