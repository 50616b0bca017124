-- ===== src/Tests/Messages.antt =====
-- Messages of the feed and of the exchange, over the values of Value; numbers are texts.
use quote_server.Base.{String, ◌==◌, List, [], ◌∷◌, Result, ok, err, parse_error, if◌then◌else◌}
use quote_server.Base.Floating.{Floating}
use quote_server.Json.{Json}
use quote_server.Protobuf.{Protobuf}
use quote_server.Tests.Value.{Value, value_json, str, num}

abbrev pub literal : List (String × Value) → Value
literal fields = (value_json (λ s. err parse_error)).object fields

abbrev pub match_msg : Value
match_msg = literal (
    ("type", str "match")
    ∷ ("maker_order_id", str "m")
    ∷ ("taker_order_id", str "t")
    ∷ ("sequence", num 7)
    ∷ ("price", str "10")
    ∷ ("size", str "2")
    ∷ ("product_id", str "ETH-USD")
    ∷ ("side", str "buy")
    ∷ [])

abbrev pub limit_msg : Value
limit_msg = literal (
    ("type", str "received")
    ∷ ("order_id", str "a")
    ∷ ("sequence", num 8)
    ∷ ("order_type", str "limit")
    ∷ ("size", str "2")
    ∷ ("price", str "10")
    ∷ ("side", str "buy")
    ∷ ("product_id", str "ETH-USD")
    ∷ [])

abbrev pub listed : Value
listed = (value_json (λ s. err parse_error)).array (
    literal (("id", str "BTC-USD") ∷ ("status", str "offline") ∷ [])
    ∷ literal (("id", str "ETH-USD") ∷ ("status", str "online") ∷ [])
    ∷ [])

abbrev pub table : String → Result Value
table s =
    if s == "match"
    then ok match_msg
    else if s == "limit"
    then ok limit_msg
    else if s == "listed"
    then ok listed
    else err parse_error

instance abbrev pub whole_json : Json Value
whole_json = value_json table

-- Numbers are texts here.
instance abbrev pub text_floating : Floating String
text_floating = record { sub = λ a b. a; same = ◌==◌; stod = ok }

abbrev pub plain : Protobuf String
plain = record { narrow = λ x. x; serialize = λ message. "payload" }
