-- ===== src/ClientService/Guarded.antt =====
-- What a round can do to the service and to the market behind it.
use quote_server.Base.{
  String, ◌==◌, ◌≡◌, inl, inr, ◌⊎◌, Bool, true, false, List, Result, ok, err, parse_error, arith,
  Bool-cases, >>=-eq-ok, ◌>>=◌, if◌then◌else◌, Fault,
}
use quote_server.Json.{Json}
use quote_server.ProductSubscriber.{ProductSubscriber}
use quote_server.EndpointService
use quote_server.EndpointService.{Provider}
use quote_server.ClientService.{
  ClientService, Outcome, Round, count, insert, request_error, client_id_request, subscribe_ids,
  subscribe_request, unsubscribe_ids, unsubscribe_request, heartbeat, unsupported_type, dispatch,
  handle_json, handle_parsed, handle_message, confirmation,
}

count-cons_self : (id : String) (xs : List String) → count id xs ≡ true → insert id xs ≡ xs
unfolding insert
count-cons_self id xs e = rw e

-- The registered clients are those of before, but for the new id.
abbrev pub IsRegistered : String → ClientService → ClientService → Type 0
IsRegistered uuid s s' =
    (s'.registered_client_ids ≡ s.registered_client_ids)
    ⊎ (s'.registered_client_ids ≡ insert uuid s.registered_client_ids)

-- The subscriber is left alone, or is called once, for a client that is registered and a product
-- that has endpoints.
abbrev pub IsGuarded :
    {M : Type 0} → ProductSubscriber M → Provider → ClientService → M → M → Type 0
IsGuarded subscriber endpoints s m m' =
    (m' ≡ m)
    ⊎ ((client_id : String) × (product_id : String) × (count client_id s.registered_client_ids
          ≡ true)
        × (EndpointService.contains product_id endpoints ≡ true)
        × ((subscriber.subscribe client_id product_id m ≡ ok m')
            ⊎ (subscriber.unsubscribe client_id product_id m ≡ ok m')))

request_error-empty :
    (before client_id product_id : String) (endpoints : Provider) (s : ClientService)
    → (request_error before client_id product_id endpoints s == "") ≡ true
    → (count client_id s.registered_client_ids ≡ true)
      × (EndpointService.contains product_id endpoints ≡ true)
unfolding request_error
request_error-empty before client_id product_id endpoints s e =
    elim (Bool-cases (EndpointService.contains product_id endpoints)) [
      | inr nowhere ↦ let wrong : false ≡ true = rw nowhere at e in cc
      | inl there ↦ elim (Bool-cases (count client_id s.registered_client_ids)) [
        | inr unknown ↦ let wrong : false ≡ true = rw (there, unknown) at e in cc
        | inl known ↦ (known, there)
      ]
    ]

module _ {J M : Type 0} ⦃json : Json J⦄ (subscriber : ProductSubscriber M)
    (endpoints : Provider) where
  record Keeps (uuid : String) (s : ClientService) (m : M) (r : Round J M) : Type 0 where
    at :
        (o : Outcome J) (s' : ClientService) (m' : M)
        → r ≡ ok (o, s', m')
        → IsGuarded subscriber endpoints s m m' × IsRegistered uuid s s'

  Keeps-unchanged :
      (uuid : String) (s : ClientService) (m : M) (o : Outcome J) → Keeps uuid s m (ok (o, s, m))
  Keeps-unchanged uuid s m o = record {
    at = λ o' s' m' e. (inl (ground arith), inl (ground arith));
  }

  subscribe_ids-Keeps :
      (uuid client_id product_id : String) (s : ClientService) (m : M)
      → Keeps uuid s m (subscribe_ids subscriber endpoints client_id product_id s m)
  unfolding subscribe_ids
  subscribe_ids-Keeps uuid client_id product_id s m = record {
    at = λ o s' m' e. elim (Bool-cases (request_error "" client_id product_id endpoints s == "")) [
      | inr bad ↦ (Keeps-unchanged uuid s m _).at o s' m' (rw bad at e)
      | inl fine ↦
          let (known, there) = request_error-empty "" client_id product_id endpoints s fine in
          let (m₁, called, rest) =
            >>=-eq-ok (subscriber.subscribe client_id product_id m) _ (rw fine at e) in
          let (reply, sent, last) =
            >>=-eq-ok (confirmation subscriber endpoints "subscribe_request" client_id product_id) _
              rest in
          let same = count-cons_self client_id s.registered_client_ids known in
          (
            inr (client_id, product_id, known, there, inl (ground arith)),
            inl (ground (arith, same)),
          )
    ];
  }

  unsubscribe_ids-Keeps :
      (uuid before client_id product_id : String) (s : ClientService) (m : M)
      → Keeps uuid s m (unsubscribe_ids subscriber endpoints before client_id product_id s m)
  unfolding unsubscribe_ids
  unsubscribe_ids-Keeps uuid before client_id product_id s m = record {
    at = λ o s' m' e.
        elim (Bool-cases (request_error before client_id product_id endpoints s == "")) [
          | inr bad ↦ (Keeps-unchanged uuid s m _).at o s' m' (rw bad at e)
          | inl fine ↦
              let (known, there) =
                request_error-empty before client_id product_id endpoints s fine in
              let (m₁, called, rest) =
                >>=-eq-ok (subscriber.unsubscribe client_id product_id m) _ (rw fine at e) in
              let (reply, sent, last) =
                >>=-eq-ok
                  (confirmation subscriber endpoints "unsubscribe_request" client_id product_id) _
                  rest in
              (inr (client_id, product_id, known, there, inr (ground arith)), inl (ground arith))
        ];
  }

  -- The rules for the shapes of the handlers.
  Keeps-if :
      (uuid : String) (s : ClientService) (m : M) (b : Bool) (r q : Round J M)
      → Keeps uuid s m r
      → Keeps uuid s m q
      → Keeps uuid s m (if b then r else q)
  Keeps-if uuid s m true r q kr kq = kr
  Keeps-if uuid s m false r q kr kq = kq

  Keeps-bind {ℓ} :
      {A : Type ℓ} (uuid : String) (s : ClientService) (m : M) (r : Result A) (k : A → Round J M)
      → ((a : A) → Keeps uuid s m (k a))
      → Keeps uuid s m (r >>= k)
  Keeps-bind uuid s m (ok a) k h = h a
  Keeps-bind uuid s m (err e) k h = record { at = λ o s' m' p. cc }

  Keeps-err : (uuid : String) (s : ClientService) (m : M) (e : Fault) → Keeps uuid s m (err e)
  Keeps-err uuid s m e = record { at = λ o s' m' p. cc }

  client_id_request-Keeps :
      (uuid : String) (s : ClientService) (m : M)
      → Keeps uuid s m (client_id_request subscriber endpoints uuid s m)
  unfolding client_id_request
  client_id_request-Keeps uuid s m = record {
    at = λ o s' m' e. (inl (ground arith), inr (ground arith));
  }

  ruleset keeps = (
    Keeps-unchanged, Keeps-if, Keeps-bind, Keeps-err, subscribe_ids-Keeps, unsubscribe_ids-Keeps,
    client_id_request-Keeps,
  )

  subscribe_request-Keeps :
      (uuid : String) (jmsg : J) (s : ClientService) (m : M)
      → Keeps uuid s m (subscribe_request subscriber endpoints jmsg s m)
  unfolding subscribe_request
  subscribe_request-Keeps uuid jmsg s m = search keeps depth 9

  unsubscribe_request-Keeps :
      (uuid : String) (jmsg : J) (s : ClientService) (m : M)
      → Keeps uuid s m (unsubscribe_request subscriber endpoints jmsg s m)
  unfolding unsubscribe_request
  unsubscribe_request-Keeps uuid jmsg s m = search keeps depth 9

  heartbeat-Keeps :
      (uuid : String) (jmsg : J) (s : ClientService) (m : M)
      → Keeps uuid s m (heartbeat subscriber endpoints jmsg s m)
  unfolding heartbeat
  heartbeat-Keeps uuid jmsg s m = search keeps depth 9

  dispatch-Keeps :
      (uuid : String) (type jmsg : J) (s : ClientService) (m : M)
      → Keeps uuid s m (dispatch subscriber endpoints uuid type jmsg s m)
  unfolding dispatch unsupported_type
  dispatch-Keeps uuid type jmsg s m =
      search (keeps, subscribe_request-Keeps, unsubscribe_request-Keeps, heartbeat-Keeps) depth 9

  handle_json-Keeps :
      (uuid : String) (jmsg : J) (s : ClientService) (m : M)
      → Keeps uuid s m (handle_json subscriber endpoints uuid jmsg s m)
  unfolding handle_json
  handle_json-Keeps uuid jmsg s m = search (keeps, dispatch-Keeps) depth 9

  handle_parsed-Keeps :
      (uuid : String) (parsed : Result J) (s : ClientService) (m : M)
      → Keeps uuid s m (handle_parsed subscriber endpoints uuid parsed s m)
  unfolding handle_parsed
  handle_parsed-Keeps uuid (ok jmsg) s m = handle_json-Keeps uuid jmsg s m
  handle_parsed-Keeps uuid (err parse_error) s m = Keeps-unchanged uuid s m _
  handle_parsed-Keeps uuid (err fault) s m = Keeps-err uuid s m _

  -- Whatever the bytes of a request, a round that ends without a fault leaves the market as it was or
  -- has made one call of it, for a registered client and a known product; and it registers nobody
  -- but the id that it generated.
  pub handle_message-IsGuarded :
      (uuid message : String) (s : ClientService) (m : M) (o : Outcome J) (s' : ClientService)
      (m' : M)
      → handle_message subscriber endpoints uuid message s m ≡ ok (o, s', m')
      → IsGuarded subscriber endpoints s m m' × IsRegistered uuid s s'
  unfolding handle_message
  handle_message-IsGuarded uuid message s m o s' m' e =
      (handle_parsed-Keeps uuid (json.parse message) s m).at o s' m' e
