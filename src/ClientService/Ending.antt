-- ===== src/ClientService/Ending.antt =====
-- The requests that end the loop of the client service.
use quote_server.Base.{
  String, ◌≡◌, refl, ◌⊎◌, inl, inr, false, true, List, ◌∷◌, ok, err, type_error, Fault,
}
use quote_server.Json.{Json, JsonLaws}
use quote_server.ProductSubscriber.{ProductSubscriber}
use quote_server.EndpointService.{Provider}
use quote_server.ClientService.Replies.{HasType, LacksId}
use quote_server.ClientService.Malformed.{subscribe_request-dropped, missing_client_id-throws}
use quote_server.ClientService.Loop.{Socket, SocketLaws, Serving, answer, serve_round, run_impl}

module _ {J M S : Type 0} ⦃json : Json J⦄ (laws : JsonLaws json) (subscriber : ProductSubscriber M)
    (endpoints : Provider) (sock : Socket S) (socket_laws : SocketLaws sock) where
  -- A subscription with an id missing, or an unsubscription or a heartbeat with no client id.
  abbrev pub IsIncomplete : J → Type 0
  IsIncomplete jmsg =
      (HasType jmsg "subscribe_request" × LacksId subscriber endpoints jmsg)
      ⊎ ((HasType jmsg "unsubscribe_request" ⊎ HasType jmsg "heartbeat")
          × (json.contains jmsg "client_id" ≡ false))

  -- One incomplete request of any client ends the service for all of them: from a state in which it is
  -- received, the loop gets through at most one more round, and faults in any run of two rounds or more.
  pub incomplete_request-ends :
      (uuid uuid' : String) (uuids : List String) (t : Serving S M) (message : String) (s : S)
      (jmsg : J)
      → sock.recv t.socket ≡ ok (message, s)
      → json.parse message ≡ ok jmsg
      → json.contains jmsg "type" ≡ true
      → IsIncomplete jmsg
      → (fault : Fault) × (run_impl J subscriber endpoints sock (uuid ∷ uuid' ∷ uuids) t
          ≡ err fault)
  unfolding run_impl serve_round answer
  incomplete_request-ends uuid uuid' uuids t message s jmsg got parsed typed (inl (name, missing)) =
      let (fault, again) = socket_laws.recv_again t.socket s message got in
      let dropped =
        subscribe_request-dropped laws subscriber endpoints uuid message jmsg t.service t.market
          parsed typed name missing in
      (fault, rw (got, dropped) (rw again refl))
  incomplete_request-ends uuid uuid' uuids t message s jmsg got parsed typed (inr (name, missing)) =
      (
        type_error,
        rw
            (
              got,
              missing_client_id-throws laws subscriber endpoints uuid message jmsg t.service
                  t.market parsed typed name missing,
            )
            refl,
      )
