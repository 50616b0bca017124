-- ===== src/ClientService/Loop.antt =====
-- src/ClientService.cpp: the constructor and the loop of `runImpl` over its socket. The socket is
-- ZMQ's, a parameter: what it receives and whether it sends is up to its own state. Nothing sets
-- `isRunning` to false, so the loop ends by a fault alone.
use quote_server.Base.{String, List, [], ◌∷◌, Result, ok, err, ◌≡◌, ◌>>=◌, Fault}
use quote_server.Json.{Json}
use quote_server.ProductSubscriber.{ProductSubscriber}
use quote_server.EndpointService.{Provider}
use quote_server.ClientService.{ClientService, Outcome, replied, silent, handle_message}

-- `sock.recv` and `sock.send`, which throw where the socket is not in the right state for them.
pub record Socket (S : Type 0) : Type 0 where
  pub recv : S → Result (String × S)
  pub send : String → S → Result S

-- The documented behaviour of a socket of type `rep`: what has been received must be answered before
-- the next message can be received.
pub record SocketLaws {S : Type 0} (sock : Socket S) : Type 0 where
  pub recv_again :
      (s s' : S) (message : String)
      → sock.recv s ≡ ok (message, s')
      → (fault : Fault) × (sock.recv s' ≡ err fault)

unfoldable pub new_client_service : String → ClientService
new_client_service endpoint_address = record {
  registered_client_ids = [];
  endpoint_address = endpoint_address;
}

-- The state of the loop: the socket, the service and the market.
pub record Serving (S M : Type 0) : Type 0 where
  pub socket : S
  pub service : ClientService
  pub market : M

module _ {M S : Type 0} (J : Type 0) ⦃json : Json J⦄ (subscriber : ProductSubscriber M)
    (endpoints : Provider) (sock : Socket S) where
  unfoldable pub answer : Outcome J → S → Result S
  answer (replied reply) s = sock.send (json.dump reply) s
  answer silent s = ok s

  -- One round, with the id that `generate_uuid` would give in it.
  unfoldable pub serve_round : String → Serving S M → Result (Serving S M)
  serve_round uuid t = do
    (message, received) ← sock.recv t.socket
    (outcome, service, market) ←
        handle_message {J = J} subscriber endpoints uuid message t.service t.market
    answered ← answer outcome received
    ok (record { socket = answered; service = service; market = market })

  -- As many rounds as there are ids.
  unfoldable pub run_impl : List String → Serving S M → Result (Serving S M)
  run_impl [] t = ok t
  run_impl (uuid ∷ uuids) t = do t' ← serve_round uuid t; run_impl uuids t'
