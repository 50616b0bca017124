-- ===== src/System/Mirror/Books.antt =====
-- The book of a product in every state: a full book of the exchange, moved through the changes that
-- come after it, each once and in order; and what of it is published.
use mathlib.Core.Option
use mathlib.Core.Path.{subst}
use quote_server.Base.{
  ℕ, suc, ◌+◌, ◌≡◌, refl, sym, ap, ◌∙◌, false, Option, some, List, [], ◌∷◌, ◌++◌, All, ok,
}
use quote_server.Base.Floating.{Floating}
use quote_server.Json.{Json, JsonLaws}
use quote_server.Product.Batches.{books}
use quote_server.FeedProduct.{message_loop}
use quote_server.FeedProduct.Steps
use quote_server.FeedProduct.Steps.{IsJoinable, Step-IsJoinable}
use quote_server.FeedProduct.Progress.{requesting-running}
use mathlib.Core.List.{append-nil}
use quote_server.Market.{Market, on_product_change, stop, take_changes, add_trade_publisher}
use quote_server.Market.Changes.{only, book_of, map-books-nil, at_most_one}
use quote_server.FeedClient.{FeedClient}
use quote_server.Protobuf.{Protobuf}
use quote_server.System.Mirror.Kept.{
  Keeps, front, front-Keeps, handle_messages-front, begin_subscribe-Keeps, unsubscribe-Keeps,
  on_trade-Keeps, on_product_change-Keeps, stop-Keeps,
}
use quote_server.System.Exchange.{Exchange, message, book_at, book_after}
use quote_server.System.Fed.{receive-IsFed, lose-IsFed}
use quote_server.System.Installed.{respond-IsFed, fail-IsFed, destroy-IsFed, take-IsFed}
use quote_server.System.Line.{
  Line, Step, receives, loses, responds, fails, takes, hands, closes, collects, applies, begins,
  finishes, unsubscribes, trades, changes, stops, Reach, start, more,
}
use quote_server.System.Pipeline.{taken, handle_messages}
use quote_server.System.Synced.{InSync}
use quote_server.Base.Dict
use quote_server.Product.{Product}
use quote_server.System.Mirror.{
  IsExchangeBook, IsPosted, IsMirror, IsFresh, IsFresh-IsMirror, book_to_be,
}
use quote_server.System.Mirror.Handed.{
  handed-stored, hands-IsPosted, applies-stored, applies-IsPosted,
}

module _ {J F D : Type 0} ⦃json : Json J⦄ ⦃f : Floating F⦄ (laws : JsonLaws json)
    (ex : Exchange json f) (proto : Protobuf F) (feed : FeedClient D) (fuel : ℕ) where
  hands-IsMirror :
      (l : Line J F D) (msg : J) (msgs : List J) (m : Market F D)
      → l.in_hand ≡ msg ∷ msgs
      → handle_messages (suc (suc fuel)) ex.product_id (msg ∷ []) l.market ≡ ok m
      → IsMirror ex l
      → IsMirror ex (record l { in_hand = msgs; market = m })
  hands-IsMirror l msg msgs m first e h =
      let (s, d, bound, step, rest) = subst (λ xs. InSync ex h.at xs h.ahead) first h.held in
      let all =
        handle_messages-front (suc (suc fuel)) ex.product_id l.in_round (msg ∷ []) l.market m e in
      record {
        at = some (s, d);
        ahead = h.ahead;
        stored =
            handed-stored laws ex fuel h.at msg s d (front l.in_round l.market) (front l.in_round m)
              bound step all h.stored;
        held = rest;
        fed = h.fed;
        joinable = h.joinable;
        market =
            hands-IsPosted laws ex fuel h.at msg s d (front l.in_round l.market)
              (front l.in_round m) bound step all h.stored h.market;
      }

  takes-IsMirror :
      (l : Line J F D)
      → l.in_hand ≡ []
      → IsMirror ex l
      → IsMirror ex (record l { product = message_loop l.product; in_hand = taken l.product })
  takes-IsMirror l empty h =
      let none_held : h.at ≡ h.ahead = subst (λ xs. InSync ex h.at xs h.ahead) empty h.held in
      let (next, in_sync, fed) = take-IsFed ex l.product h.ahead l.sent l.needed h.fed in
      record {
        at = h.at;
        ahead = next;
        stored = h.stored;
        market = h.market;
        held = subst (λ o. InSync ex o (taken l.product) next) (sym none_held) in_sync;
        fed = fed;
        joinable = Step-IsJoinable (Steps.poll refl) h.joinable;
      }

  Keeps-IsMirror :
      (l : Line J F D) (m : Market F D)
      → Keeps ex.product_id l.market m
      → IsMirror ex l
      → IsMirror ex (record l { market = m })
  Keeps-IsMirror l m alone h =
      let same = front-Keeps ex.product_id l.in_round l.market m alone in
      record {
        at = h.at;
        ahead = h.ahead;
        stored = rw (same.changes, same.product) h.stored;
        held = h.held;
        fed = h.fed;
        joinable = h.joinable;
        market = record {
          own = h.market.own;
          there = same.product ∙ h.market.there;
          posted = rw same.changes h.market.posted;
        };
      }

  collects-IsMirror :
      (l : Line J F D)
      → l.in_round ≡ []
      → IsMirror ex l
      → IsMirror ex
          (record l { in_round = l.market.product_changes; market = take_changes l.market })
  collects-IsMirror l empty h =
      let same : front l.in_round l.market
          ≡ front l.market.product_changes (take_changes l.market) =
        ap (λ changes. record l.market { product_changes = changes })
          (ap (λ taken. taken ++ l.market.product_changes) empty
            ∙ sym (append-nil l.market.product_changes)) in
      record {
        at = h.at;
        ahead = h.ahead;
        stored = ap (book_to_be ex) (sym same) ∙ h.stored;
        held = h.held;
        fed = h.fed;
        joinable = h.joinable;
        market = subst (IsPosted ex) same h.market;
      }

  Step-IsMirror : {l n : Line J F D} → Step ex proto feed fuel l n → IsMirror ex l → IsMirror ex n
  Step-IsMirror {l} {n} (receives q bound e same) h = subst (IsMirror ex) (sym same) (record {
    at = h.at;
    ahead = h.ahead;
    stored = h.stored;
    held = h.held;
    market = h.market;
    fed = receive-IsFed laws ex l.product q h.ahead l.sent l.needed bound e h.fed;
    joinable = Step-IsJoinable (Steps.receive (message ex (suc l.sent)) e) h.joinable;
  })
  Step-IsMirror {l} {n} (loses bound same) h = subst (IsMirror ex) (sym same) (record {
    at = h.at;
    ahead = h.ahead;
    stored = h.stored;
    held = h.held;
    market = h.market;
    fed = lose-IsFed laws ex l.product h.ahead l.sent l.needed bound h.fed;
    joinable = h.joinable;
  })
  Step-IsMirror {l} {n} (responds response s q r full parsed positive bound fresh e same) h =
      subst (IsMirror ex) (sym same) (record {
        at = h.at;
        ahead = h.ahead;
        stored = h.stored;
        held = h.held;
        market = h.market;
        fed =
            respond-IsFed laws ex response l.product q h.ahead l.sent l.needed s full parsed
              positive bound fresh (requesting-running l.product h.joinable r) e h.fed;
        joinable = Step-IsJoinable (Steps.respond response r e) h.joinable;
      })
  Step-IsMirror {l} {n} (fails q r e same) h = subst (IsMirror ex) (sym same) (record {
    at = h.at;
    ahead = h.ahead;
    stored = h.stored;
    held = h.held;
    market = h.market;
    fed = fail-IsFed ex l.product q h.ahead l.sent l.needed e h.fed;
    joinable = Step-IsJoinable (Steps.respond "" r e) h.joinable;
  })
  Step-IsMirror {l} {n} (takes empty same) h =
      subst (IsMirror ex) (sym same) (takes-IsMirror l empty h)
  Step-IsMirror {l} {n} (hands msg msgs m first e same) h =
      subst (IsMirror ex) (sym same) (hands-IsMirror l msg msgs m first e h)
  Step-IsMirror {l} {n} (closes r same) h = subst (IsMirror ex) (sym same) (record {
    at = h.at;
    ahead = h.ahead;
    stored = h.stored;
    held = h.held;
    market = h.market;
    fed = destroy-IsFed ex l.product h.ahead l.sent l.needed h.fed;
    joinable = Step-IsJoinable (Steps.close r refl) h.joinable;
  })
  Step-IsMirror {l} {n} (collects empty on same) h =
      subst (IsMirror ex) (sym same) (collects-IsMirror l empty h)
  Step-IsMirror {l} {n} (applies arrange change some_order one same) h =
      let kept = at_most_one change (some_order l.in_round) one in
      subst (IsMirror ex) (sym same) (record {
        at = h.at;
        ahead = h.ahead;
        stored = applies-stored ex arrange l.in_round kept l.market ∙ h.stored;
        market = applies-IsPosted ex arrange l.in_round kept l.market h.market;
        held = h.held;
        fed = h.fed;
        joinable = h.joinable;
      })
  Step-IsMirror {l} {n} (begins client_id product_id m e same) h = subst (IsMirror ex) (sym same) (
      Keeps-IsMirror l m
        (begin_subscribe-Keeps ex.product_id feed client_id product_id l.market m h.market.own
          h.market.there e)
        h)
  Step-IsMirror {l} {n} (finishes product_id same) h = subst (IsMirror ex) (sym same) (
      Keeps-IsMirror l (add_trade_publisher product_id l.market)
        (record { changes = refl; product = refl }) h)
  Step-IsMirror {l} {n} (unsubscribes client_id product_id m other e same) h =
      subst (IsMirror ex) (sym same) (
        Keeps-IsMirror l m
          (unsubscribe-Keeps ex.product_id feed client_id product_id l.market m other e) h)
  Step-IsMirror {l} {n} (trades t m e same) h =
      subst (IsMirror ex) (sym same)
        (Keeps-IsMirror l m (on_trade-Keeps ex.product_id proto t l.market m e) h)
  Step-IsMirror {l} {n} (changes pc other same) h = subst (IsMirror ex) (sym same) (
      Keeps-IsMirror l (on_product_change pc l.market)
        (on_product_change-Keeps ex.product_id pc l.market other) h)
  Step-IsMirror {l} {n} (stops same) h =
      subst (IsMirror ex) (sym same)
        (Keeps-IsMirror l (stop l.market) (stop-Keeps ex.product_id l.market) h)

  Reach-IsMirror : {l n : Line J F D} → Reach ex proto feed fuel l n → IsMirror ex l → IsMirror ex n
  Reach-IsMirror start h = h
  Reach-IsMirror (more r s) h = Step-IsMirror s (Reach-IsMirror r h)

  -- However the steps of a product that has just been subscribed interleave: its book, moved through the
  -- changes of it that are in a round or queued, is a full book of the exchange moved through the changes of the
  -- numbers after it, in order and none left out, or still empty.
  pub Reach-mirrors :
      (l n : Line J F D)
      → IsFresh ex l
      → Reach ex proto feed fuel l n
      → (at : Option (ℕ × ℕ)) × (book_to_be ex (front n.in_round n.market) ≡ some (book_at ex at))
  Reach-mirrors l n fresh r =
      let h = Reach-IsMirror r (IsFresh-IsMirror ex l fresh) in (h.at, h.stored)

  -- A product has just been subscribed, none of its changes is queued or in a round, and it is not
  -- unsubscribed. From there the messages of the exchange, some of which may be lost, the requests, the
  -- message loop, the calls of the market and its rounds interleave in any way, each critical section
  -- of a subscription or of a round a step of its own, where the numbers stay below 2 ^ 64 - 1, every
  -- full book that comes is at least as new as the last message that neither the handler nor the queue
  -- gets, and a round has at most one change of the product: the multimap may hand out the changes
  -- under a key in any order. Once no request is under way, and no message and no change of the product
  -- waits or is in a round, its book is a full book of the exchange, moved in order through the changes
  -- of all the numbers after it, up to the last number of the product.
  pub Reach-caught_up :
      (l n : Line J F D)
      → IsFresh ex l
      → Reach ex proto feed fuel l n
      → n.product.requesting_orderbook ≡ false
      → n.product.message_queue ≡ []
      → n.in_hand ≡ []
      → only ex.product_id (n.in_round ++ n.market.product_changes) ≡ []
      → (s : ℕ) × (d : ℕ) × (s + d ≡ n.product.last_sequence_number)
        × (book_of ex.product_id n.market.products ≡ some (book_after ex s d))
  Reach-caught_up l n fresh r idle queue hand none_wait =
      let h = Reach-IsMirror r (IsFresh-IsMirror ex l fresh) in
      let (s, d, in_sync, count, top, old) = h.fed.settled idle in
      let taken_at : h.at ≡ h.ahead = subst (λ xs. InSync ex h.at xs h.ahead) hand h.held in
      let last : h.ahead ≡ some (s, d) =
        subst (λ xs. InSync ex h.ahead xs (some (s, d))) queue in_sync in
      (
        s,
        d,
        count,
        map-books-nil f (book_of ex.product_id n.market.products)
            ∙ ap (λ l. Option.map (books f l) (book_of ex.product_id n.market.products))
                (sym none_wait)
            ∙ h.stored
            ∙ ap (λ o. some (book_at ex o)) (taken_at ∙ last),
      )

  -- A product has just been subscribed, none of its changes is queued or in a round, and it is not
  -- unsubscribed. In every state to which the steps of Line lead from there, with numbers below
  -- 2 ^ 64 - 1, full books that are at least as new as the last message that neither the handler nor the
  -- queue gets, and rounds that have at most one change of the product: the product is there, and every
  -- book that it has published is a full book of the exchange, moved in order through the changes of the
  -- numbers from the next one on up to some number, none of them left out.
  pub Reach-publishes :
      (l n : Line J F D)
      → IsFresh ex l
      → Reach ex proto feed fuel l n
      → (p : Product F) × (Dict.find ex.product_id n.market.products ≡ some p)
        × All (IsExchangeBook ex) p.published
  Reach-publishes l n fresh r =
      let h = Reach-IsMirror r (IsFresh-IsMirror ex l fresh) in
      (h.market.own, h.market.there, h.market.posted.published)
