-- ===== src/FeedMessageHandler/Decode.antt =====
-- The handler reads every message of Wire as the change that it stands for.
use quote_server.Base.{
  String, ℕ, suc, ◌<◌, ◌^◌, ◌≡◌, refl, ◌∙◌, Option, none, some, List, [], ◌∷◌, map, Result, ok,
  map_results, somes, true, All, ap, has, ok-injective,
}
use quote_server.Base.Dict.{find}
use quote_server.Base.Floating.{Floating, stod}
use quote_server.Json.{Json, JsonLaws, string_at, ulong_at}
use quote_server.OrderBook.{Order, Side, sell, buy}
use quote_server.ProductChange.{
  ProductChange, opened, done, matched, changed, reset_order_book, to_changes,
}
use quote_server.FeedMessageHandler.{
  side_of, order_of, opened_of, done_of, matched_of, changed_of, merged_changes, full_book,
  get_product_change,
}
use quote_server.FeedMessageHandler.Wire.{
  FeedEvent, opens, finishes, trades, changes, ticks, beats, receives, event_change, sequence_of,
  side_text, event_fields, event_message, order_row, book_message, book_fields,
}

side_of-side_text : (side : Side) → side_of (side_text side) ≡ side
unfolding side_of
side_of-side_text sell = refl
side_of-side_text buy = refl

module _ {J F : Type 0} ⦃json : Json J⦄ ⦃f : Floating F⦄ (laws : JsonLaws json) (show : F → String)
    (stod-show : (x : F) → stod (show x) ≡ ok x) (further : FeedEvent F → List (String × J))
    (plain : (e : FeedEvent F) → find "bids" (further e) ≡ none) where
  find-sequence :
      (product_id : String) (e : FeedEvent F) (n : ℕ)
      → sequence_of e ≡ n
      → find "sequence" (event_fields json show further product_id e) ≡ some (json.number n)
  unfolding find
  find-sequence product_id (ticks k) n same = ap (λ i. some (json.number i)) same
  find-sequence product_id _ n same = ap (λ i. some (json.number i)) same

  string_field :
      (fields : List (String × J)) (key s : String)
      → find key fields ≡ some (json.text s)
      → string_at (json.object fields) key ≡ ok s
  string_field fields key s e =
      rw (laws.at-object fields key (json.text s) e) (laws.get_string-text s)

  ulong_field :
      (fields : List (String × J)) (key : String) (n : ℕ)
      → find key fields ≡ some (json.number n)
      → n < 2 ^ 64
      → ulong_at (json.object fields) key ≡ ok n
  ulong_field fields key n e bound =
      rw (laws.at-object fields key (json.number n) e) (laws.get_ulong-number n bound)

  -- The sequence number of an event's message.
  pub event-sequence :
      (product_id : String) (e : FeedEvent F) (n : ℕ)
      → sequence_of e ≡ n
      → n < 2 ^ 64
      → (json.contains (event_message json show further product_id e) "sequence" ≡ true)
        × (ulong_at (event_message json show further product_id e) "sequence" ≡ ok n)
  unfolding find
  event-sequence product_id e n same bound = (
    laws.contains-object (event_fields json show further product_id e) "sequence"
        ∙ ap has (find-sequence product_id e n same),
    ulong_field (event_fields json show further product_id e) "sequence" n
        (find-sequence product_id e n same) bound,
  )

  -- The bodies of the four typed branches, at their messages.
  opened_of-event :
      (product_id id : String) (price size : F) (side : Side) (n : ℕ)
      → n < 2 ^ 64
      → opened_of product_id
          (event_message json show further product_id (opens id price size side n))
        ≡ ok (opened id price size side product_id n)
  unfolding opened_of find
  opened_of-event product_id id price size side n bound =
      let fields = event_fields json show further product_id (opens id price size side n) in
      simp (
        string_field fields "order_id" id refl,
        string_field fields "price" (show price) refl,
        string_field fields "remaining_size" (show size) refl,
        string_field fields "side" (side_text side) refl,
        ulong_field fields "sequence" n refl bound,
        stod-show,
        side_of-side_text,
      )

  done_of-event :
      (product_id id : String) (side : Side) (n : ℕ)
      → n < 2 ^ 64
      → done_of {F = F} product_id (event_message json show further product_id (finishes id side n))
        ≡ ok (done id side product_id n)
  unfolding done_of find
  done_of-event product_id id side n bound =
      let fields = event_fields json show further product_id (finishes id side n) in
      simp (
        string_field fields "order_id" id refl,
        string_field fields "side" (side_text side) refl,
        ulong_field fields "sequence" n refl bound,
        side_of-side_text,
      )

  matched_of-event :
      (product_id maker taker : String) (price size : F) (side : Side) (n : ℕ)
      → n < 2 ^ 64
      → matched_of product_id
          (event_message json show further product_id (trades maker taker price size side n))
        ≡ ok (matched maker taker price size side product_id n)
  unfolding matched_of find
  matched_of-event product_id maker taker price size side n bound =
      let fields =
        event_fields json show further product_id (trades maker taker price size side n) in
      simp (
        string_field fields "maker_order_id" maker refl,
        string_field fields "taker_order_id" taker refl,
        string_field fields "price" (show price) refl,
        string_field fields "size" (show size) refl,
        string_field fields "side" (side_text side) refl,
        ulong_field fields "sequence" n refl bound,
        stod-show,
        side_of-side_text,
      )

  changed_of-event :
      (product_id id : String) (price size : F) (side : Side) (n : ℕ)
      → n < 2 ^ 64
      → changed_of product_id
          (event_message json show further product_id (changes id price size side n))
        ≡ ok (changed id price size side product_id n)
  unfolding changed_of find
  changed_of-event product_id id price size side n bound =
      let fields = event_fields json show further product_id (changes id price size side n) in
      simp (
        string_field fields "order_id" id refl,
        string_field fields "price" (show price) refl,
        string_field fields "size" (show size) refl,
        string_field fields "side" (side_text side) refl,
        ulong_field fields "sequence" n refl bound,
        stod-show,
        side_of-side_text,
      )

  pub get_product_change-event :
      (fuel : ℕ) (product_id : String) (e : FeedEvent F)
      → sequence_of e < 2 ^ 64
      → get_product_change (suc fuel) product_id (event_message json show further product_id e)
        ≡ ok (event_change product_id e)
  unfolding get_product_change find
  get_product_change-event fuel product_id (opens id price size side n) bound = simp (
    laws.contains-object,
    plain,
    string_field (event_fields json show further product_id (opens id price size side n)) "type"
        "open" refl,
    opened_of-event product_id id price size side n bound,
  )
  get_product_change-event fuel product_id (finishes id side n) bound = simp (
    laws.contains-object,
    plain,
    string_field (event_fields json show further product_id (finishes id side n)) "type" "done"
        refl,
    done_of-event product_id id side n bound,
  )
  get_product_change-event fuel product_id (trades maker taker price size side n) bound = simp (
    laws.contains-object,
    plain,
    string_field (event_fields json show further product_id (trades maker taker price size side n))
        "type" "match" refl,
    matched_of-event product_id maker taker price size side n bound,
  )
  get_product_change-event fuel product_id (changes id price size side n) bound = simp (
    laws.contains-object,
    plain,
    string_field (event_fields json show further product_id (changes id price size side n)) "type"
        "change" refl,
    changed_of-event product_id id price size side n bound,
  )
  get_product_change-event fuel product_id (ticks n) bound = simp (
    laws.contains-object,
    plain,
    string_field (event_fields json show further product_id (ticks n)) "type" "ticker" refl,
  )
  get_product_change-event fuel product_id (beats n) bound = simp (
    laws.contains-object,
    plain,
    string_field (event_fields json show further product_id (beats n)) "type" "heartbeat" refl,
  )
  get_product_change-event fuel product_id (receives n) bound = simp (
    laws.contains-object,
    plain,
    string_field (event_fields json show further product_id (receives n)) "type" "received" refl,
  )

  order_of-order_row : (o : Order F) → order_of (order_row json show o) ≡ ok o
  unfolding order_of
  order_of-order_row o =
      let cells = json.text (show o.price) ∷ json.text (show o.size) ∷ json.text o.order_id ∷ [] in
      simp (
        laws.item-array cells 0 (json.text (show o.price)) refl,
        laws.item-array cells 1 (json.text (show o.size)) refl,
        laws.item-array cells 2 (json.text o.order_id) refl,
        laws.get_string-text,
        stod-show,
      )

  pub rows-orders :
      (os : List (Order F)) → map_results order_of (map (order_row json show) os) ≡ ok os
  rows-orders [] = refl
  rows-orders (o ∷ os) = rw (order_of-order_row o, rows-orders os)

  events-changes :
      (fuel : ℕ) (product_id : String) (es : List (FeedEvent F))
      → All (λ e. sequence_of e < 2 ^ 64) es
      → map_results
          (get_product_change (suc fuel) product_id)
          (map (event_message json show further product_id) es)
        ≡ ok (map (event_change product_id) es)
  events-changes fuel product_id [] bounds = refl
  events-changes fuel product_id (e ∷ es) bounds = rw (
    get_product_change-event fuel product_id e bounds.0,
    events-changes fuel product_id es bounds.1,
  )

  -- A full book, where `change_of` reads the messages that were merged into it as `pcs`.
  -- The changes of the messages that were merged, if any were.
  merged_changes-book :
      (change_of : J → Result (Option (ProductChange F))) (pcs : List (Option (ProductChange F)))
      (product_id : String) (bids asks : List (Order F)) (es : List (FeedEvent F)) (n : ℕ)
      → map_results change_of (map (event_message json show further product_id) es) ≡ ok pcs
      → merged_changes change_of (book_message json show further product_id bids asks es n)
        ≡ ok (somes pcs)
  unfolding merged_changes find
  merged_changes-book change_of pcs product_id bids asks [] n read =
      simp laws.contains-object (ap (λ pcs. ok (somes pcs)) (ok-injective read))
  merged_changes-book change_of pcs product_id bids asks (e ∷ es) n read =
      let fields = book_fields json show further product_id bids asks (e ∷ es) n in
      simp (
        laws.contains-object,
        laws.at-object fields "to_merge"
            (json.array (map (event_message json show further product_id) (e ∷ es))) refl,
        laws.elements-array,
        read,
      )

  full_book-book :
      (change_of : J → Result (Option (ProductChange F))) (pcs : List (Option (ProductChange F)))
      (product_id : String) (bids asks : List (Order F)) (es : List (FeedEvent F)) (n : ℕ)
      → map_results change_of (map (event_message json show further product_id) es) ≡ ok pcs
      → n < 2 ^ 64
      → full_book change_of product_id (book_message json show further product_id bids asks es n)
        ≡ ok (some (reset_order_book bids asks (to_changes (somes pcs)) product_id n))
  unfolding full_book find
  full_book-book change_of pcs product_id bids asks es n read bound =
      let fields = book_fields json show further product_id bids asks es n in
      simp (
        laws.at-object fields "asks" (json.array (map (order_row json show) asks)) refl,
        laws.at-object fields "bids" (json.array (map (order_row json show) bids)) refl,
        laws.elements-array,
        rows-orders asks,
        rows-orders bids,
        merged_changes-book change_of pcs product_id bids asks es n read,
        ulong_field fields "sequence" n refl bound,
      )

  pub first_level :
      (fuel : ℕ) (product_id : String) (jmsg : J)
      → json.contains jmsg "bids" ≡ true
      → json.contains jmsg "asks" ≡ true
      → get_product_change {F = F} (suc fuel) product_id jmsg
        ≡ full_book (get_product_change fuel product_id) product_id jmsg
  unfolding get_product_change
  first_level fuel product_id jmsg bids asks = rw (bids, asks)

  -- A full book with messages merged into it is read as a reset to its bids and asks, each in the
  -- order of the message, and to the changes of its messages, in their order.
  pub get_product_change-book :
      (fuel : ℕ) (product_id : String) (bids asks : List (Order F)) (es : List (FeedEvent F))
      (n : ℕ)
      → All (λ e. sequence_of e < 2 ^ 64) es
      → n < 2 ^ 64
      → get_product_change
          (suc (suc fuel))
          product_id
          (book_message json show further product_id bids asks es n)
        ≡ ok (
            some (
              reset_order_book bids asks
                (to_changes (somes (map (event_change product_id) es)))
                product_id
                n))
  unfolding find
  get_product_change-book fuel product_id bids asks es n bounds bound =
      first_level (suc fuel) product_id (book_message json show further product_id bids asks es n)
        (simp laws.contains-object) (simp laws.contains-object)
      ∙ full_book-book (get_product_change (suc fuel) product_id) (map (event_change product_id) es)
          product_id bids asks es n (events-changes fuel product_id es bounds) bound
