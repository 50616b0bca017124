-- ===== src/ClientService/Malformed.antt =====
-- Requests that lack an id: those that get no reply, and those that end the service.
use quote_server.Base.{
  String, ◌==◌, ◌≡◌, inl, inr, ◌⊎◌, true, false, ok, err, type_error, arith, eq_iff, Bool-cases,
  >>=-eq-ok, ap, ◌∙◌, sym, ok-injective,
}
use quote_server.Json.{Json, JsonLaws}
use quote_server.ClientService.Replies.{HasType}
use quote_server.ProductSubscriber.{ProductSubscriber}
use quote_server.EndpointService.{Provider}
use quote_server.ClientService.{
  ClientService, silent, subscribe_request, unsubscribe_request, heartbeat, dispatch, handle_json,
  handle_parsed, handle_message,
}

pub is_text-eq :
    {J : Type 0} {json : Json J} (laws : JsonLaws json) (j : J) (name s : String)
    → json.get_string j ≡ ok name
    → json.is_text j s ≡ (name == s)
is_text-eq {json} laws j name s e = elim (Bool-cases (name == s)) [
  | inl same ↦ rw same ((laws.is_text_iff j s).1 (e ∙ ap ok ((eq_iff name s).0 same)))
  | inr differ ↦ elim (Bool-cases (json.is_text j s)) [
    | inr other ↦ other ∙ sym differ
    | inl text ↦
        let same = ok-injective (sym e ∙ (laws.is_text_iff j s).0 text) in
        absurd (ground (arith, eq_iff name s, same))
  ]
]

module _ {J M : Type 0} ⦃json : Json J⦄ (laws : JsonLaws json) (subscriber : ProductSubscriber M)
    (endpoints : Provider) (uuid message : String) (jmsg : J) (s : ClientService) (m : M)
    (parsed : json.parse message ≡ ok jmsg) (typed : json.contains jmsg "type" ≡ true) where
  handled :
      (type : J)
      → json.member jmsg "type" ≡ ok type
      → handle_message {J = J} subscriber endpoints uuid message s m
        ≡ dispatch subscriber endpoints uuid type jmsg s m
  unfolding handle_message handle_parsed handle_json
  handled type e = ground arith

  -- A subscription that parses and has no client id or no product id is dropped: the round ends with
  -- no reply, and neither the service nor the market changes.
  pub subscribe_request-dropped :
      HasType jmsg "subscribe_request"
      → (json.contains jmsg "client_id" ≡ false) ⊎ (json.contains jmsg "product_id" ≡ false)
      → handle_message {J = J} subscriber endpoints uuid message s m ≡ ok (silent, s, m)
  unfolding dispatch subscribe_request
  subscribe_request-dropped name missing =
      let (type, e, text) = >>=-eq-ok (json.member jmsg "type") _ name in
      rw (handled type e) (
        ground (
          arith,
          is_text-eq laws type "subscribe_request" "client_id_request" text,
          is_text-eq laws type "subscribe_request" "subscribe_request" text,
        ))

  -- An unsubscription or a heartbeat that parses and has no client id ends in a `type_error`, which
  -- nothing catches: the missing id is read as null, which is no text.
  pub missing_client_id-throws :
      HasType jmsg "unsubscribe_request" ⊎ HasType jmsg "heartbeat"
      → json.contains jmsg "client_id" ≡ false
      → handle_message {J = J} subscriber endpoints uuid message s m ≡ err type_error
  unfolding dispatch unsubscribe_request heartbeat
  missing_client_id-throws (inl name) missing =
      let (type, e, text) = >>=-eq-ok (json.member jmsg "type") _ name in
      rw (handled type e) (
        ground (
          arith,
          is_text-eq laws type "unsubscribe_request" "client_id_request" text,
          is_text-eq laws type "unsubscribe_request" "subscribe_request" text,
          is_text-eq laws type "unsubscribe_request" "unsubscribe_request" text,
          laws.member_missing jmsg "client_id" "type" typed missing,
        ))
  missing_client_id-throws (inr name) missing =
      let (type, e, text) = >>=-eq-ok (json.member jmsg "type") _ name in
      rw (handled type e) (
        ground (
          arith,
          is_text-eq laws type "heartbeat" "client_id_request" text,
          is_text-eq laws type "heartbeat" "subscribe_request" text,
          is_text-eq laws type "heartbeat" "unsubscribe_request" text,
          is_text-eq laws type "heartbeat" "heartbeat" text,
          laws.member_missing jmsg "client_id" "type" typed missing,
        ))
