-- ===== src/CoinbaseFeedClient/Trades.antt =====
-- The calls of the trade listener.
use quote_server.Base.{
  String, ◌==◌, ◌≡◌, sym, ◌∙◌, ◌⊎◌, inl, inr, Bool, true, false, Option, none, List, [], ◌∷◌,
  Result, ok, err, arith, eq_iff, has, if◌then◌else◌, >>=-eq-ok, ok-injective, ◌>>=◌, ◌||◌, All,
  parse_error, Bool-cases,
}
use mathlib.Core.Path.{subst}
use quote_server.Base.Floating.{Floating}
use quote_server.Json.{Json, JsonLaws, string_at}
use quote_server.Trade.{Trade, some_trade, activate_of, receive_of, match_of, get_trade}
use quote_server.CoinbaseFeedClient.{
  CoinbaseFeedClient, is_trade_msg, sequenced, report_trade, receive_json, receive_parsed,
  on_message_received,
}

-- The three types that `getTrade` reads.
abbrev IsTradeType : String → Type 0
IsTradeType text = (text ≡ "activate") ⊎ (text ≡ "received") ⊎ (text ≡ "match")

abbrev AreTrades : {F : Type 0} → List (Option (Trade F)) → Type 0
AreTrades ts = All (λ t. has t ≡ true) ts

some_trade-has :
    {F : Type 0} (text : String) (a r m : Result (Trade F)) (o : Option (Trade F))
    → IsTradeType text
    → (if text == "activate"
        then some_trade a
        else if text == "received"
        then some_trade r
        else if text == "match"
        then some_trade m
        else ok none)
      ≡ ok o
    → has o ≡ true
some_trade-has text a r m o type e =
    ground (arith, eq_iff text "activate", eq_iff text "received", eq_iff text "match")

module _ {J : Type 0} ⦃json : Json J⦄ where
  IsTradeType-text :
      (laws : JsonLaws json) (type : J) (text : String)
      → json.get_string type ≡ ok text
      → (json.is_text type "activate" || json.is_text type "received" || json.is_text type "match")
        ≡ true
      → IsTradeType text
  IsTradeType-text laws type text e is_trade =
      let reads : (s : String) → json.is_text type s ≡ true → text ≡ s =
        λ s t. ok-injective (sym e ∙ (laws.is_text_iff type s).0 t) in
      elim (Bool-cases (json.is_text type "activate")) [
        | inl same ↦ inl (reads "activate" same)
        | inr other ↦ elim (Bool-cases (json.is_text type "received")) [
          | inl same ↦ inr (inl (reads "received" same))
          | inr neither ↦ inr (inr (reads "match" (ground arith)))
        ]
      ]

  named :
      {F : Type 0} ⦃f : Floating F⦄ (laws : JsonLaws json) (jmsg type : J) (o : Option (Trade F))
      → json.at jmsg "type" ≡ ok type
      → (json.is_text type "activate" || json.is_text type "received" || json.is_text type "match")
        ≡ true
      → get_trade jmsg ≡ ok o
      → has o ≡ true
  unfolding get_trade
  named laws jmsg type o there is_trade e =
      let (text, e₁, e₂) = >>=-eq-ok (string_at jmsg "type") _ e in
      let text_type : json.get_string type ≡ ok text = (rw there at e₁) in
      some_trade-has text (activate_of jmsg) (receive_of jmsg) (match_of jmsg) o
        (IsTradeType-text laws type text text_type is_trade) e₂

  -- A trade message, where it is read, is read as a trade.
  pub get_trade-has :
      {F : Type 0} ⦃f : Floating F⦄ (laws : JsonLaws json) (jmsg : J) (o : Option (Trade F))
      → is_trade_msg jmsg ≡ ok true
      → get_trade jmsg ≡ ok o
      → has o ≡ true
  unfolding is_trade_msg get_trade
  get_trade-has laws jmsg o is_trade e = elim (Bool-cases (json.contains jmsg "type")) [
    | inr untyped ↦ absurd (ground arith)
    | inl typed ↦
        let (type, e₁, e₂) =
          >>=-eq-ok (json.at jmsg "type") _ (rw (typed, is_trade_msg) at is_trade) in
        named laws jmsg type o e₁ (ok-injective e₂) e
  ]

  calls :
      {F : Type 0} ⦃f : Floating F⦄ (laws : JsonLaws json) (jmsg : J) (is_trade listens : Bool)
      (trades : List (Option (Trade F)))
      → is_trade_msg jmsg ≡ ok is_trade
      → (if is_trade
          then (if listens then (get_trade jmsg >>= λ t. ok (t ∷ [])) else ok [])
          else ok [])
        ≡ ok trades
      → AreTrades trades
  calls laws jmsg true true trades h e =
      let (o, e₁, e₂) = >>=-eq-ok (get_trade jmsg) _ e in
      subst AreTrades (ok-injective e₂) (get_trade-has laws jmsg o h e₁, tt)
  calls laws jmsg true false trades h e = subst AreTrades (ok-injective e) tt
  calls laws jmsg false listens trades h e = subst AreTrades (ok-injective e) tt

  reported_trades :
      {F : Type 0} ⦃f : Floating F⦄ (laws : JsonLaws json) (listens : Bool) (jmsg : J)
      (trades : List (Option (Trade F)))
      → report_trade listens jmsg ≡ ok trades
      → AreTrades trades
  unfolding report_trade
  reported_trades laws listens jmsg trades e =
      let (is_trade, e₁, e₂) = >>=-eq-ok (is_trade_msg jmsg) _ e in
      calls laws jmsg is_trade listens trades e₁ e₂

  typed_trades :
      {F : Type 0} ⦃f : Floating F⦄ (laws : JsonLaws json) (jmsg : J) (c c' : CoinbaseFeedClient J)
      (trades : List (Option (Trade F)))
      → json.contains jmsg "type" ≡ true
      → receive_json jmsg c ≡ ok (c', trades)
      → AreTrades trades
  unfolding receive_json
  typed_trades laws jmsg c c' trades typed e =
      let (d, e₁, e₂) = >>=-eq-ok (sequenced jmsg c) _ (rw (typed, receive_json) at e) in
      let (ts, e₃, e₄) = >>=-eq-ok (report_trade c.has_trade_listener jmsg) _ e₂ in
      let same : ts ≡ trades = ground arith in
      subst AreTrades same (reported_trades laws c.has_trade_listener jmsg ts e₃)

  parsed_trades :
      {F : Type 0} ⦃f : Floating F⦄ (laws : JsonLaws json) (parsed : Result J)
      (c c' : CoinbaseFeedClient J) (trades : List (Option (Trade F)))
      → receive_parsed parsed c ≡ ok (c', trades)
      → AreTrades trades
  unfolding receive_parsed
  parsed_trades laws (ok jmsg) c c' trades e = elim (Bool-cases (json.contains jmsg "type")) [
    | inl typed ↦ typed_trades laws jmsg c c' trades typed e
    | inr untyped ↦
        let none_called : [] ≡ trades = unfold receive_json in ground arith in
        subst AreTrades none_called tt
  ]
  parsed_trades laws (err parse_error) c c' trades e =
      let none_called : [] ≡ trades = ground arith in subst AreTrades none_called tt
  parsed_trades laws (err fault) c c' trades e = absurd (ground arith)

  -- The trade listener is never called with a null pointer.
  pub on_message_received-trades :
      {F : Type 0} ⦃f : Floating F⦄
      → JsonLaws json
      → (message : String) (c c' : CoinbaseFeedClient J) (trades : List (Option (Trade F)))
      → on_message_received message c ≡ ok (c', trades)
      → AreTrades trades
  unfolding on_message_received
  on_message_received-trades laws message c c' trades e =
      parsed_trades laws (json.parse message) c c' trades e
