-- ===== src/ClientService/Replies.antt =====
-- A round that does not fault replies, but for a subscription with an id missing.
use quote_server.Base.{
  String, ◌≡◌, refl, inl, inr, ◌⊎◌, Bool, true, false, Result, ok, err, parse_error, arith,
  Bool-cases, >>=-eq-ok, ◌>>=◌, if◌then◌else◌, Fault, ◌≢◌,
}
use quote_server.Json.{Json, JsonLaws, string_member}
use quote_server.ProductSubscriber.{ProductSubscriber}
use quote_server.EndpointService.{Provider}
use quote_server.ClientService.{
  ClientService, replied, silent, Round, client_id_request, subscribe_ids, subscribe_request,
  unsubscribe_ids, unsubscribe_request, heartbeat, unsupported_type, dispatch, handle_json,
  handle_parsed, handle_message,
}

-- A request of a type.
abbrev pub HasType : {J : Type 0} ⦃json : Json J⦄ → J → String → Type 0
HasType jmsg name = string_member jmsg "type" ≡ ok name

module _ {J M : Type 0} ⦃json : Json J⦄ (subscriber : ProductSubscriber M)
    (endpoints : Provider) where
  record Speaks (r : Round J M) : Type 0 where
    at : (s : ClientService) (m : M) → r ≢ ok (silent, s, m)

  Speaks-replied : (reply : J) (s : ClientService) (m : M) → Speaks (ok (replied reply, s, m))
  Speaks-replied reply s m = record { at = λ s' m' e. cc }

  Speaks-err : (e : Fault) → Speaks (err e)
  Speaks-err e = record { at = λ s m p. cc }

  Speaks-if : (b : Bool) (r q : Round J M) → Speaks r → Speaks q → Speaks (if b then r else q)
  Speaks-if true r q kr kq = kr
  Speaks-if false r q kr kq = kq

  Speaks-bind {ℓ} :
      {A : Type ℓ} (r : Result A) (k : A → Round J M) → ((a : A) → Speaks (k a)) → Speaks (r >>= k)
  Speaks-bind (ok a) k h = h a
  Speaks-bind (err e) k h = Speaks-err e

  ruleset speaks = (Speaks-replied, Speaks-err, Speaks-if, Speaks-bind)

  subscribe_ids-Speaks :
      (client_id product_id : String) (s : ClientService) (m : M)
      → Speaks (subscribe_ids subscriber endpoints client_id product_id s m)
  unfolding subscribe_ids
  subscribe_ids-Speaks client_id product_id s m = search speaks depth 9

  unsubscribe_request-Speaks :
      (jmsg : J) (s : ClientService) (m : M)
      → Speaks (unsubscribe_request subscriber endpoints jmsg s m)
  unfolding unsubscribe_request unsubscribe_ids
  unsubscribe_request-Speaks jmsg s m = search speaks depth 12

  heartbeat-Speaks :
      (jmsg : J) (s : ClientService) (m : M) → Speaks (heartbeat subscriber endpoints jmsg s m)
  unfolding heartbeat
  heartbeat-Speaks jmsg s m = search speaks depth 12

  abbrev pub LacksId : J → Type 0
  LacksId jmsg =
      (json.contains jmsg "client_id" ≡ false) ⊎ (json.contains jmsg "product_id" ≡ false)

  subscribe_request-silent :
      (jmsg : J) (s s' : ClientService) (m m' : M)
      → subscribe_request subscriber endpoints jmsg s m ≡ ok (silent, s', m')
      → LacksId jmsg
  unfolding subscribe_request
  subscribe_request-silent jmsg s s' m m' e = elim (Bool-cases (json.contains jmsg "client_id")) [
    | inr no_client ↦ inl no_client
    | inl client ↦ elim (Bool-cases (json.contains jmsg "product_id")) [
      | inr no_product ↦ inr no_product
      | inl product ↦ absurd (ids-Speaks.at s' m' (rw (client, product) at e))
    ]
  ]
    where
      ids-Speaks : Speaks (do
        client_id ← string_member jmsg "client_id"
        product_id ← string_member jmsg "product_id"
        subscribe_ids subscriber endpoints client_id product_id s m)
      ids-Speaks = search (speaks, subscribe_ids-Speaks) depth 9

  dispatch-silent :
      (uuid : String) (type jmsg : J) (s s' : ClientService) (m m' : M)
      → dispatch subscriber endpoints uuid type jmsg s m ≡ ok (silent, s', m')
      → (json.is_text type "subscribe_request" ≡ true) × LacksId jmsg
  unfolding dispatch client_id_request unsupported_type
  dispatch-silent uuid type jmsg s s' m m' e =
      elim (Bool-cases (json.is_text type "client_id_request")) [
        | inl t ↦ absurd (ground arith)
        | inr f ↦ elim (Bool-cases (json.is_text type "subscribe_request")) [
          | inl t ↦ (t, subscribe_request-silent jmsg s s' m m' (rw (f, t) at e))
          | inr g ↦ absurd (others-Speaks.at s' m' (rw (f, g) at e))
        ]
      ]
    where
      others-Speaks : Speaks (
          if json.is_text type "unsubscribe_request"
          then unsubscribe_request subscriber endpoints jmsg s m
          else if json.is_text type "heartbeat"
          then heartbeat subscriber endpoints jmsg s m
          else unsupported_type subscriber endpoints type s m)
      others-Speaks = search (speaks, unsubscribe_request-Speaks, heartbeat-Speaks) depth 9

  json_silent :
      (uuid : String) (jmsg : J) (s s' : ClientService) (m m' : M)
      → handle_json subscriber endpoints uuid jmsg s m ≡ ok (silent, s', m')
      → (type : J) × (json.member jmsg "type" ≡ ok type)
        × (dispatch subscriber endpoints uuid type jmsg s m ≡ ok (silent, s', m'))
  unfolding handle_json
  json_silent uuid jmsg s s' m m' e = elim (Bool-cases (json.contains jmsg "type")) [
    | inl typed ↦ >>=-eq-ok (json.member jmsg "type") _ (rw typed at e)
    | inr untyped ↦ absurd (ground arith)
  ]

  parsed_silent :
      (uuid : String) (parsed : Result J) (s s' : ClientService) (m m' : M)
      → handle_parsed subscriber endpoints uuid parsed s m ≡ ok (silent, s', m')
      → (jmsg : J) × (parsed ≡ ok jmsg)
        × (handle_json subscriber endpoints uuid jmsg s m ≡ ok (silent, s', m'))
  unfolding handle_parsed
  parsed_silent uuid (ok jmsg) s s' m m' e = (jmsg, refl, e)
  parsed_silent uuid (err parse_error) s s' m m' e = absurd (cc)
  parsed_silent uuid (err fault) s s' m m' e = absurd (cc)

  -- A round that ends without a fault and sends no reply had a subscription with an id missing.
  pub handle_message-silent :
      JsonLaws json
      → (uuid message : String) (s s' : ClientService) (m m' : M)
      → handle_message {J = J} subscriber endpoints uuid message s m ≡ ok (silent, s', m')
      → (jmsg : J) × (json.parse message ≡ ok jmsg)
        × HasType jmsg "subscribe_request"
        × LacksId jmsg
  unfolding handle_message
  handle_message-silent laws uuid message s s' m m' e =
      let (jmsg, parsed, e₁) = parsed_silent uuid (json.parse message) s s' m m' e in
      let (type, typed, e₂) = json_silent uuid jmsg s s' m m' e₁ in
      let (text, lacks) = dispatch-silent uuid type jmsg s s' m m' e₂ in
      (jmsg, parsed, rw typed ((laws.is_text_iff type "subscribe_request").0 text), lacks)
