-- ===== src/System/Replayed.antt =====
-- What the messages that a feed product hands on do to the books of the market.
use mathlib.Core.Option
use mathlib.Core.List.{append_assoc, append-nil}
use quote_server.Base.{
  String, ℕ, ◌≡◌, refl, sym, ap, ◌∙◌, ◌==◌, arith, Option, none, some, List, [], ◌∷◌, ◌++◌, map,
  true, false, ok, somes, map_results, push_back, >>=-eq-ok, if◌then◌else◌, ok-injective,
}
use quote_server.Base.Floating.{Floating}
use quote_server.Json.{Json}
use quote_server.ProductChange.{ProductChange}
use quote_server.FeedMessageHandler
use quote_server.FeedMessageHandler.{get_product_change}
use quote_server.FeedMessageHandler.Named.{get_product_change-named}
use quote_server.Market.{Market, Arrangement, on_product_change, process_product_changes}
use quote_server.Market.Changes.{only, book_of, process_product_changes-books}
use quote_server.Product.Batches.{books}
use quote_server.FeedProduct.{FeedProduct, message_loop}
use quote_server.System.Pipeline.{report_changes, handle_messages, taken, loop_round}

-- Changes under the key of their product.
abbrev pub keyed : {F : Type 0} → String → List (ProductChange F) → List (String × ProductChange F)
keyed product_id pcs = map (λ pc. (product_id, pc)) pcs

pub only-append :
    {A : Type 0} (k : String) (xs ys : List (String × A))
    → only k (xs ++ ys) ≡ only k xs ++ only k ys
only-append k [] ys = refl
only-append k ((j, x) ∷ xs) ys = ground (arith, only-append k xs ys)

pub only-keyed :
    {F : Type 0} (k j : String) (pcs : List (ProductChange F))
    → only k (keyed j pcs) ≡ (if j == k then pcs else [])
only-keyed k j [] = ground arith
only-keyed k j (pc ∷ pcs) = ground (arith, only-keyed k j pcs)

-- The market with the changes queued.
abbrev pub queued :
    {F D : Type 0} → String → List (Option (ProductChange F)) → Market F D → Market F D
queued product_id pcs m = record m {
  product_changes = m.product_changes ++ keyed product_id (somes pcs);
}

queued-queued :
    {F D : Type 0} (product_id : String) (pc : Option (ProductChange F))
    (pcs : List (Option (ProductChange F))) (m : Market F D)
    → queued product_id pcs (queued product_id (pc ∷ []) m) ≡ queued product_id (pc ∷ pcs) m
queued-queued product_id none pcs m =
    ap (λ changes. record m { product_changes = changes }) (append_assoc m.product_changes [] _)
queued-queued product_id (some pc) pcs m =
    ap (λ changes. record m { product_changes = changes })
      (append_assoc m.product_changes ((product_id, pc) ∷ []) _)

module _ {J F D : Type 0} ⦃json : Json J⦄ ⦃f : Floating F⦄ (fuel : ℕ) (product_id : String) where
  reported-queued :
      (msg : J) (m : Market F D) (pc : Option (ProductChange F))
      → get_product_change fuel product_id msg ≡ ok pc
      → report_changes (somes (pc ∷ [])) m ≡ queued product_id (pc ∷ []) m
  unfolding report_changes on_product_change
  reported-queued msg m none read =
      ap (λ changes. record m { product_changes = changes }) (sym (append-nil m.product_changes))
  reported-queued msg m (some pc) read =
      ap (λ id. record m { product_changes = push_back m.product_changes (id, pc) })
        (get_product_change-named product_id fuel msg pc read)

  -- One message queues what it stands for, under its product.
  message-queued :
      (msg : J) (m : Market F D) (given : List (ProductChange F))
      → FeedMessageHandler.on_message_received fuel product_id msg ≡ ok given
      → (pc : Option (ProductChange F)) × (get_product_change fuel product_id msg ≡ ok pc)
        × (report_changes given m ≡ queued product_id (pc ∷ []) m)
  unfolding FeedMessageHandler.on_message_received
  message-queued msg m given e =
      let (pc, read, done) = >>=-eq-ok (get_product_change fuel product_id msg) _ e in
      (
        pc,
        read,
        ap (λ (pcs : List (ProductChange F)). report_changes pcs m) (sym (ok-injective done))
            ∙ reported-queued msg m pc read,
      )

  pub handle_messages-queued :
      (msgs : List J) (m m' : Market F D)
      → handle_messages fuel product_id msgs m ≡ ok m'
      → (pcs : List (Option (ProductChange F))) × (map_results
            (get_product_change fuel product_id)
            msgs
          ≡ ok pcs)
        × (m' ≡ queued product_id pcs m)
  unfolding handle_messages
  handle_messages-queued [] m m' e = (
    [],
    refl,
    sym (ok-injective e)
        ∙ ap (λ changes. record m { product_changes = changes })
            (sym (append-nil m.product_changes)),
  )
  handle_messages-queued (msg ∷ msgs) m m' e =
      let (given, one, rest) =
        >>=-eq-ok (FeedMessageHandler.on_message_received {F = F} fuel product_id msg) _ e in
      let (pc, read, first) = message-queued msg m given one in
      let (pcs, all, same) = handle_messages-queued msgs (report_changes given m) m' rest in
      (
        pc ∷ pcs,
        rw (read, all) refl,
        same
            ∙ ap (λ (m : Market F D). queued product_id pcs m) first
            ∙ queued-queued product_id pc pcs m,
      )

  -- The books after the messages and a round of the market.
  handle_messages-books :
      (arrange : Arrangement F) (msgs : List J) (m m' : Market F D) (k : String)
      → m.is_running ≡ true
      → handle_messages fuel product_id msgs m ≡ ok m'
      → (pcs : List (Option (ProductChange F))) × (map_results
            (get_product_change fuel product_id)
            msgs
          ≡ ok pcs)
        × (book_of k (process_product_changes f arrange m').products
            ≡ Option.map
                (books f (only k (arrange (m.product_changes ++ keyed product_id (somes pcs)))))
                (book_of k m.products))
  handle_messages-books arrange msgs m m' k runs e =
      let (pcs, all, same) = handle_messages-queued msgs m m' e in
      (
        pcs,
        all,
        ap (λ (m : Market F D). book_of k (process_product_changes f arrange m).products) same
            ∙ (process_product_changes-books f arrange (queued product_id pcs m) k runs).0,
      )

message_loop-taken :
    {J : Type 0} (p : FeedProduct J)
    → p.is_running ≡ true
    → p.requesting_orderbook ≡ false
    → (taken p ≡ p.message_queue)
      × ((message_loop p).handled ≡ p.handled ++ p.message_queue)
      × ((message_loop p).message_queue ≡ [])
unfolding message_loop taken
message_loop-taken p running idle = (ground arith, ground arith, ground arith)

module _ {J F D : Type 0} ⦃json : Json J⦄ ⦃f : Floating F⦄ where
  -- A round of the message loop of a product that runs and asks for no full book, which ends without a
  -- fault, and then one of a market that runs: the whole queue is handled, behind what was handled
  -- before, and leaves the queue empty; every message of it is read; and every book of the market is
  -- its book before, moved through what the multimap hands out under its key once the changes that
  -- were queued before and then those that the messages stand for, in the order of the queue, have
  -- been inserted, in whatever order the multimap is visited.
  pub loop_round-books :
      (fuel : ℕ) (arrange : Arrangement F) (p p' : FeedProduct J) (m m' : Market F D) (k : String)
      → p.is_running ≡ true
      → p.requesting_orderbook ≡ false
      → m.is_running ≡ true
      → loop_round fuel p m ≡ ok (p', m')
      → (pcs : List (Option (ProductChange F))) × (p'.handled ≡ p.handled ++ p.message_queue)
        × (p'.message_queue ≡ [])
        × (map_results (get_product_change fuel p.product_id) p.message_queue ≡ ok pcs)
        × (book_of k (process_product_changes f arrange m').products
            ≡ Option.map
                (books f (only k (arrange (m.product_changes ++ keyed p.product_id (somes pcs)))))
                (book_of k m.products))
  unfolding loop_round
  loop_round-books fuel arrange p p' m m' k running idle runs e =
      let (n, handled, done) = >>=-eq-ok (handle_messages fuel p.product_id (taken p) m) _ e in
      let (all_taken, handed, emptied) = message_loop-taken p running idle in
      let both = ok-injective done in
      let after : n ≡ m' = ap (λ q. q.1) both in
      let (pcs, all, books_then) =
        handle_messages-books fuel p.product_id arrange p.message_queue m n k runs
          (ap (λ l. handle_messages fuel p.product_id l m) (sym all_taken) ∙ handled) in
      (
        pcs,
        ap (λ q. q.0.handled) (sym both) ∙ handed,
        ap (λ q. q.0.message_queue) (sym both) ∙ emptied,
        all,
        ap (λ (m : Market F D). book_of k (process_product_changes f arrange m).products)
              (sym after)
            ∙ books_then,
      )
