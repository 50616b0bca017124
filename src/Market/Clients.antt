-- ===== src/Market/Clients.antt =====
-- The market's maps after any calls and rounds, each of which ends before the next begins.
use quote_server.Base.{String, ◌==◌, ◌≡◌, refl, sym, none, if◌then◌else◌, ok}
use mathlib.Core.Path.{subst}
use quote_server.Base.Dict
use quote_server.Base.Dict.{Dict, find-assign, find-insert, find-erase}
use quote_server.Base.Floating.{Floating}
use quote_server.ProductChange.{ProductChange}
use quote_server.Protobuf.{Protobuf}
use quote_server.Trade.{Trade}
use quote_server.FeedClient.{FeedClient}
use quote_server.Market.Maps.{
  IsCoherent, on_trade-IsCoherent, process_product_changes-IsCoherent, subscribe-IsCoherent,
  unsubscribe-drops, unsubscribe-IsCoherent,
}
use quote_server.Market.{
  Market, Arrangement, new_market, process_product_changes, stop, on_product_change, on_trade,
  subscribe, unsubscribe,
}

-- The calls that a market gets, and the rounds of its thread.
module _ {F D : Type 0} (f : Floating F) (proto : Protobuf F) (feed : FeedClient D) where
  pub data Step (m n : Market F D) : Type 0 where
    changes : (pc : ProductChange F) → n ≡ on_product_change pc m → Step m n
    trades : (t : Trade F) → on_trade proto t m ≡ ok n → Step m n
    processes : (arrange : Arrangement F) → n ≡ process_product_changes f arrange m → Step m n
    subscribes :
        (client_id product_id : String) → subscribe feed client_id product_id m ≡ ok n → Step m n
    unsubscribes :
        (client_id product_id : String) → unsubscribe feed client_id product_id m ≡ ok n → Step m n
    stops : n ≡ stop m → Step m n

  pub data Reach (m : Market F D) : Market F D → Type 0 where
    here : Reach m m
    next : {n o : Market F D} → Reach m n → Step n o → Reach m o

module _ {F D : Type 0} (f : Floating F) (proto : Protobuf F) (feed : FeedClient D) where
  pub Step-IsCoherent : {m n : Market F D} → Step f proto feed m n → IsCoherent m → IsCoherent n
  unfolding on_product_change stop
  Step-IsCoherent (changes pc e) h =
      subst IsCoherent (sym e) (record { paired = h.paired; unclaimed = h.unclaimed })
  Step-IsCoherent {m} {n} (trades t e) h = on_trade-IsCoherent proto t m n e h
  Step-IsCoherent {m} (processes arrange e) h =
      subst IsCoherent (sym e) (process_product_changes-IsCoherent f arrange m h)
  Step-IsCoherent {m} {n} (subscribes c id e) h = subscribe-IsCoherent feed c id m n e h
  Step-IsCoherent {m} {n} (unsubscribes c id e) h = unsubscribe-IsCoherent feed c id m n e h
  Step-IsCoherent (stops e) h =
      subst IsCoherent (sym e) (record { paired = h.paired; unclaimed = h.unclaimed })

  Reach-IsCoherent : {m n : Market F D} → IsCoherent m → Reach f proto feed m n → IsCoherent n
  Reach-IsCoherent h here = h
  Reach-IsCoherent h (next r s) = Step-IsCoherent s (Reach-IsCoherent h r)

  -- After any calls and rounds, each ended before the next, a product id has a trade publisher exactly
  -- when it has a product, and no product has a client.
  pub Reach-new-IsCoherent :
      (d : D) {m : Market F D} → Reach f proto feed (new_market d) m → IsCoherent m
  unfolding Dict.find
  Reach-new-IsCoherent d r =
      Reach-IsCoherent (record { paired = λ id. refl; unclaimed = λ id p e. cc }) r

  -- After any calls and rounds, each ended before the next, whoever unsubscribes from a product takes its
  -- book and its trade publisher from everybody, subscribed or not; the other products keep theirs.
  pub unsubscribe-drops_for_all :
      (d : D) (client_id product_id : String) (m n : Market F D) (id : String)
      → Reach f proto feed (new_market d) m
      → unsubscribe feed client_id product_id m ≡ ok n
      → (Dict.find id n.products ≡ (if product_id == id then none else Dict.find id m.products))
        × (Dict.find id n.trade_publishers
            ≡ (if product_id == id then none else Dict.find id m.trade_publishers))
  unsubscribe-drops_for_all d client_id product_id m n id r e =
      unsubscribe-drops feed client_id product_id m n id (Reach-new-IsCoherent d r).unclaimed e
