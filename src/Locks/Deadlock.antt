-- ===== src/Locks/Deadlock.antt =====
-- `Market::unsubscribe` of a product's last client against `CoinbaseFeedClient::onMessageReceived` of a
-- trade: one holds `mutexTrades` and wants `m_mutexFeedData`, the other the reverse.
use quote_server.Base.{
  String, ℕ, zero, suc, ◌≡◌, ◌≢◌, refl, sym, ap, ◌∙◌, arith, Bool, true, false, some, List, [], ◌∷◌,
  ◌++◌, get_elem?, modify, get_elem?-modify, if◌then◌else◌, some-injective,
}
use quote_server.Locks.{
  Mutex, market_data_mutex, mutex_trades, mutex_feed_data, messages_mutex, same_mutex, acquire,
  release, Call, unsubscribes, receives, actions, Thread, idle, is_in, is_guarded, is_locked,
  are_free, can_run, advance, unsubscribe_guards, feed_unsubscribe_guards, on_trade_guards,
  feed_on_message_received_guards, product_on_message_received_guards,
}
use quote_server.Locks.Steps.{entered, Step, begins, runs, Reach, Reach-trans, here, next}

-- The two threads, each before its second guard.
abbrev pub unsubscribing : Thread
unsubscribing = record {
  guards = (market_data_mutex ∷ mutex_trades ∷ []) ∷ [];
  todo = acquire (mutex_feed_data ∷ []) ∷ release ∷ release ∷ [];
}

abbrev pub receiving : Thread
receiving = record {
  guards = (mutex_feed_data ∷ []) ∷ [];
  todo = acquire (mutex_trades ∷ []) ∷ release ∷ release ∷ [];
}

abbrev pub any_call : Call → Bool
any_call call = true

-- Both threads are there.
abbrev pub IsEmbraced : ℕ → ℕ → List Thread → Type 0
IsEmbraced i j ts = (get_elem? ts i ≡ some unsubscribing) × (get_elem? ts j ≡ some receiving)

at-same :
    (k : ℕ) (f : Thread → Thread) (ts : List Thread) {t : Thread}
    → get_elem? ts k ≡ some t
    → get_elem? (modify k f ts) k ≡ some (f t)
at-same k f ts there = get_elem?-modify k f ts k there ∙ ground arith

at-other :
    (k l : ℕ) (f : Thread → Thread) (ts : List Thread) {t : Thread}
    → k ≢ l
    → get_elem? ts l ≡ some t
    → get_elem? (modify k f ts) l ≡ some t
at-other k l f ts apart there = get_elem?-modify k f ts l there ∙ ground (arith, apart)

unlocked-modify :
    (m : Mutex) (k : ℕ) (f : Thread → Thread) (ts : List Thread) {t : Thread}
    → get_elem? ts k ≡ some t
    → is_guarded m (f t).guards ≡ false
    → is_locked m ts ≡ false
    → is_locked m (modify k f ts) ≡ false
unfolding is_locked
unlocked-modify m k f [] there e h = refl
unlocked-modify m zero f (u ∷ ts) there e h =
    let same = some-injective there in
    let guards : (f u).guards ≡ _ = ap (λ (t : Thread). (f t).guards) same in
    rw guards (ground (arith, e, h))
unlocked-modify m (suc k) f (u ∷ ts) there e h = ground (arith, h, unlocked-modify m k f ts there e)

is_locked-held :
    (m : Mutex) (ts : List Thread) (i : ℕ) (t : Thread)
    → get_elem? ts i ≡ some t
    → is_guarded m t.guards ≡ true
    → is_locked m ts ≡ true
unfolding is_locked
is_locked-held m [] i t there e = cc
is_locked-held m (u ∷ ts) zero t there e =
    let guards : u.guards ≡ t.guards = ap (λ (t : Thread). t.guards) (some-injective there) in
    rw guards (ground (arith, e))
is_locked-held m (u ∷ ts) (suc i) t there e = ground (arith, is_locked-held m ts i t there e)

-- Two places whose threads a test tells apart are different places.
apart-by :
    (test : Thread → Bool) (ts : List Thread) (k i : ℕ) {t w : Thread}
    → get_elem? ts k ≡ some t
    → get_elem? ts i ≡ some w
    → test t ≡ true
    → test w ≡ false
    → k ≢ i
apart-by test ts k i {t} {w} at_k at_i yes_t no_w e =
    let at = rw e at at_k in
    let same : t ≡ w = some-injective (sym at ∙ at_i) in
    let clash : test t ≡ test w = ap test same in cc

abbrev is_idle : Thread → Bool
is_idle t = elim t.todo [ [] ↦ true | action ∷ rest ↦ false ]

module _ (i j : ℕ) where
  unsubscribing-waits : (ts : List Thread) → IsEmbraced i j ts → can_run ts unsubscribing ≡ false
  unfolding can_run are_free is_guarded is_in same_mutex
  unsubscribing-waits ts (at_i, at_j) =
      rw (is_locked-held mutex_feed_data ts j receiving at_j refl) refl

  receiving-waits : (ts : List Thread) → IsEmbraced i j ts → can_run ts receiving ≡ false
  unfolding can_run are_free is_guarded is_in same_mutex
  receiving-waits ts (at_i, at_j) =
      rw (is_locked-held mutex_trades ts i unsubscribing at_i refl) refl

  Step-IsEmbraced :
      {ts us : List Thread} → Step any_call ts us → IsEmbraced i j ts → IsEmbraced i j us
  Step-IsEmbraced {ts} (begins k call ok there e) (at_i, at_j) = rw e (
    at-other k i _ ts (apart-by is_idle ts k i there at_i refl refl) at_i,
    at-other k j _ ts (apart-by is_idle ts k j there at_j refl refl) at_j,
  )
  Step-IsEmbraced {ts} (runs k t there can e) (at_i, at_j) =
      let waits_i = unsubscribing-waits ts (at_i, at_j) in
      let waits_j = receiving-waits ts (at_i, at_j) in
      rw e (
        at-other k i advance ts (apart-by (can_run ts) ts k i there at_i can waits_i) at_i,
        at-other k j advance ts (apart-by (can_run ts) ts k j there at_j can waits_j) at_j,
      )

  Reach-IsEmbraced :
      {ts us : List Thread} → Reach any_call ts us → IsEmbraced i j ts → IsEmbraced i j us
  Reach-IsEmbraced here h = h
  Reach-IsEmbraced (next r s) h = Step-IsEmbraced s (Reach-IsEmbraced r h)

module _ (product_id : String) (i j : ℕ) (apart : i ≢ j) where
  -- The unsubscription takes its first two mutexes.
  unsubscribe-starts :
      (ts : List Thread)
      → get_elem? ts i ≡ some idle
      → get_elem? ts j ≡ some idle
      → is_locked market_data_mutex ts ≡ false
      → is_locked mutex_trades ts ≡ false
      → is_locked mutex_feed_data ts ≡ false
      → is_locked (messages_mutex product_id) ts ≡ false
      → (us : List Thread) × Reach any_call ts us
        × (get_elem? us i ≡ some unsubscribing)
        × (get_elem? us j ≡ some idle)
        × (is_locked mutex_feed_data us ≡ false)
        × (is_locked (messages_mutex product_id) us ≡ false)
  unfolding actions unsubscribe_guards feed_unsubscribe_guards advance can_run are_free is_guarded
      is_in same_mutex
  unsubscribe-starts ts at_i at_j md tr fd mp =
      let enter = λ (t : Thread). entered (unsubscribes true) in
      let ts₁ = modify i enter ts in
      let i₁ = at-same i enter ts at_i in
      let j₁ = at-other i j enter ts apart at_j in
      let fd₁ = unlocked-modify mutex_feed_data i enter ts at_i refl fd in
      let mp₁ = unlocked-modify (messages_mutex product_id) i enter ts at_i refl mp in
      let md₁ = unlocked-modify market_data_mutex i enter ts at_i refl md in
      let tr₁ = unlocked-modify mutex_trades i enter ts at_i refl tr in
      (
        modify i advance ts₁,
        next (next here (begins i (unsubscribes true) refl at_i refl))
            (runs i _ i₁ (rw (md₁, tr₁) refl) refl),
        at-same i advance ts₁ i₁,
        at-other i j advance ts₁ apart j₁,
        unlocked-modify mutex_feed_data i advance ts₁ i₁ refl fd₁,
        unlocked-modify (messages_mutex product_id) i advance ts₁ i₁ refl mp₁,
      )

  -- A thread in CoinbaseFeedClient::onMessageReceived that holds the feed, before what is left of it.
  abbrev holding_feed : Bool → Thread
  holding_feed sequenced = record {
    guards = (mutex_feed_data ∷ []) ∷ [];
    todo =
        ((if sequenced then product_on_message_received_guards product_id else [])
          ++ on_trade_guards)
        ++ release ∷ [];
  }

  passes-product :
      (sequenced : Bool) {ts us : List Thread}
      → Reach any_call ts us
      → get_elem? us i ≡ some unsubscribing
      → get_elem? us j ≡ some (holding_feed sequenced)
      → is_locked (messages_mutex product_id) us ≡ false
      → (vs : List Thread) × Reach any_call ts vs × IsEmbraced i j vs
  unfolding product_on_message_received_guards on_trade_guards advance can_run are_free
  passes-product false {us = us} r at_i at_j mp = (us, r, (at_i, at_j))
  passes-product true {us = us} r at_i at_j mp =
      let back = λ (e : j ≡ i). apart (sym e) in
      let us₁ = modify j advance us in
      let i₁ = at-other j i advance us back at_i in
      let j₁ = at-same j advance us at_j in
      (
        modify j advance us₁,
        next (next r (runs j _ at_j (rw mp refl) refl)) (runs j _ j₁ refl refl),
        (at-other j i advance us₁ back i₁, at-same j advance us₁ j₁),
      )

  -- The message of a trade takes its first mutex, and that of its product on the way.
  message-follows :
      (sequenced : Bool) (ts : List Thread)
      → get_elem? ts i ≡ some unsubscribing
      → get_elem? ts j ≡ some idle
      → is_locked mutex_feed_data ts ≡ false
      → is_locked (messages_mutex product_id) ts ≡ false
      → (us : List Thread) × Reach any_call ts us × IsEmbraced i j us
  unfolding actions feed_on_message_received_guards product_on_message_received_guards
      on_trade_guards advance can_run are_free is_guarded is_in same_mutex
  message-follows sequenced ts at_i at_j fd mp =
      let enter = λ (t : Thread). entered (receives product_id sequenced true) in
      let ts₁ = modify j enter ts in
      let i₁ = at-other j i enter ts (λ e. apart (sym e)) at_i in
      let j₁ = at-same j enter ts at_j in
      let fd₁ = unlocked-modify mutex_feed_data j enter ts at_j refl fd in
      let mp₁ = unlocked-modify (messages_mutex product_id) j enter ts at_j refl mp in
      let ts₂ = modify j advance ts₁ in
      let i₂ = at-other j i advance ts₁ (λ e. apart (sym e)) i₁ in
      let j₂ = at-same j advance ts₁ j₁ in
      let mp₂ = unlocked-modify (messages_mutex product_id) j advance ts₁ j₁ refl mp₁ in
      let two : Reach any_call ts ts₂ =
        next (next here (begins j (receives product_id sequenced true) refl at_j refl))
          (runs j _ j₁ (rw fd₁ refl) refl) in
      passes-product sequenced two i₂ j₂ mp₂

-- From any state in which two threads are idle and the mutexes that they will lock are free, the
-- unsubscription of a product's last client and the arrival of a trade lead to a state in which both
-- threads wait, and in every state that follows, whatever the other threads do, both still wait: the
-- market's data and the feed are locked for ever.
pub unsubscribe-deadlocks :
    (product_id : String) (sequenced : Bool) (i j : ℕ) (ts : List Thread)
    → i ≢ j
    → get_elem? ts i ≡ some idle
    → get_elem? ts j ≡ some idle
    → is_locked market_data_mutex ts ≡ false
    → is_locked mutex_trades ts ≡ false
    → is_locked mutex_feed_data ts ≡ false
    → is_locked (messages_mutex product_id) ts ≡ false
    → (us : List Thread) × Reach any_call ts us
      × ((vs : List Thread) → Reach any_call us vs → IsEmbraced i j vs)
unsubscribe-deadlocks product_id sequenced i j ts apart at_i at_j md tr fd mp =
    let (us, before, i₁, j₁, fd₁, mp₁) =
      unsubscribe-starts product_id i j apart ts at_i at_j md tr fd mp in
    let (vs, after, embraced) = message-follows product_id i j apart sequenced us i₁ j₁ fd₁ mp₁ in
    (vs, Reach-trans before after, λ ws later. Reach-IsEmbraced i j later embraced)
