-- ===== src/Console/Listening.antt =====
-- Which listening threads an unsubscription of client.cpp stops, and which none can stop.
use mathlib.Core.Path.{subst}
use quote_server.Base.{
  String, ◌==◌, eq_iff, ℕ, ◌≡◌, ◌≢◌, ◌↔◌, refl, sym, ap, ◌∙◌, inl, inr, arith, Bool, true, false,
  none, some, List, ok, err, undefined, length, get_elem?, modify, has, get_elem?-bound,
  get_elem?-some, some-injective, get_elem?-append, get_elem?-last, get_elem?-modify, if◌then◌else◌,
  nat_eq, Option-cases, Bool-cases,
}
use quote_server.Base.Dict.{find, find-insert}
use quote_server.Console.Threads.{
  Listener, Threads, testing, ended, no_threads, store, listen, silence, test_flag, received,
  listener_tests, listener_receives, queue_message,
}
use quote_server.Console.Steps.{Reach, kept-Reach}
use quote_server.Console.Wired.{
  IsWired, Reach-IsWired, silence-eq-ok, Keeps, test_flag-Keeps, received-Keeps, chosen-Keeps,
}

-- A thread listens to the endpoint, stopped or not.
abbrev pub Listens : String → Threads → Type 0
Listens endpoint t =
    (i : ℕ) × (l : Listener) × (get_elem? t.listeners i ≡ some l) × (l.endpoint ≡ endpoint)

-- To unsubscribe an endpoint is undefined behaviour exactly where no thread has ever been started
-- for it, in every state that the threads reach: nothing asks whether the endpoint is there.
pub silence-undefined_iff :
    (endpoint : String) {t : Threads}
    → Reach no_threads t
    → (silence endpoint t ≡ err undefined) ↔ (¬ Listens endpoint t)
unfolding silence
silence-undefined_iff endpoint {t} r =
    let h = Reach-IsWired r in
    elim (Option-cases (find endpoint t.endpoint_to_handler)) [
      | inl absent ↦ (
        λ e (i, l, there, named).
            let mapped : has (find endpoint t.endpoint_to_handler) ≡ true =
              rw (sym named) (h.mapped i l there) in
            let clash = rw absent at mapped in cc,
        λ none_listens. rw (absent, silence) refl,
      )
      | inr (a, found) ↦ (
        λ e. let clash = rw (found, silence) at e in cc,
        λ none_listens.
            let (l, there, named) = h.owner endpoint a found in
            absurd (none_listens (a, l, there, named)),
      )
    ]

-- At most one thread has been started for the endpoint.
abbrev pub ListensOnce : String → Threads → Type 0
ListensOnce endpoint t =
    (i j : ℕ) (l m : Listener)
    → get_elem? t.listeners i ≡ some l
    → get_elem? t.listeners j ≡ some m
    → l.endpoint ≡ endpoint
    → m.endpoint ≡ endpoint
    → i ≡ j

-- In every state that the threads reach in which one thread at most was started for an endpoint,
-- an unsubscription of that endpoint clears the flag of its thread and changes the flag of no other.
pub silence-stops :
    (endpoint : String) {t u : Threads}
    → Reach no_threads t
    → ListensOnce endpoint t
    → silence endpoint t ≡ ok u
    → (i : ℕ) (l : Listener) → get_elem? t.listeners i ≡ some l
    → (get_elem? u.listeners i ≡ some l)
      × (get_elem? u.flags l.flag
          ≡ (if l.endpoint == endpoint then some false else get_elem? t.flags l.flag))
unfolding store
silence-stops endpoint {t} {u} r once e i l there =
    let h = Reach-IsWired r in
    let (a, found, done) = silence-eq-ok endpoint t u e in
    let (m, owned, named) = h.owner endpoint a found in
    let own = h.own_flag i l there in
    let small = get_elem?-bound t.listeners i there in
    let (value, flag) = get_elem?-some t.flags i (omega (arith, h.same_length)) in
    let agree : (l.endpoint == endpoint) ≡ nat_eq a i = elim (Bool-cases (l.endpoint == endpoint)) [
      | inl here ↦
          let at : i ≡ a = once i a l m there owned ((eq_iff l.endpoint endpoint).0 here) named in
          ground (arith, here, at)
      | inr elsewhere ↦
          let apart : a ≢ i = λ k.
            let at = rw k at owned in
            let same : l ≡ m = some-injective (sym there ∙ at) in
            let clash : l.endpoint ≡ endpoint = ap (λ (l : Listener). l.endpoint) same ∙ named in
            ground (arith, elsewhere, eq_iff l.endpoint endpoint, clash) in
          ground (arith, elsewhere, apart)
    ] in
    rw (sym done) (
      there,
      rw own (
          rw (agree, get_elem?-modify a (λ (old : Bool). false) t.flags i flag, flag)
            (ground arith)),
    )

-- Thread number `i` runs, its flag is set, and the map does not give its flag.
record IsStray (i : ℕ) (endpoint : String) (t : Threads) : Type 0 where
  thread : Listener
  there : get_elem? t.listeners i ≡ some thread
  named : thread.endpoint ≡ endpoint
  own_flag : thread.flag ≡ i
  runs : thread.place ≢ ended
  is_set : get_elem? t.flags i ≡ some true
  unmapped : (k : String) (a : ℕ) → find k t.endpoint_to_handler ≡ some a → a ≢ i

module _ (i : ℕ) (endpoint : String) where
  IsStray-listen :
      (k : String) (t : Threads) → IsStray i endpoint t → IsStray i endpoint (listen k t)
  unfolding listen
  IsStray-listen k t h =
      let small = get_elem?-bound t.flags i h.is_set in
      record {
        thread = h.thread;
        there = get_elem?-append t.listeners _ i h.there;
        named = h.named;
        own_flag = h.own_flag;
        runs = h.runs;
        is_set = get_elem?-append t.flags _ i h.is_set;
        unmapped = λ j a found.
            let split = rw (find-insert j k (length t.flags) t.endpoint_to_handler) at found in
            elim (Option-cases (find j t.endpoint_to_handler)) [
              | inl fresh ↦
                  let same : length t.flags ≡ a = ground (arith, split, fresh) in omega arith
              | inr (b, old) ↦
                  let same : b ≡ a = ground (arith, split, old) in
                  subst (λ a. a ≢ i) (same) (h.unmapped j b old)
            ];
      }

  IsStray-silence :
      (k : String) (t u : Threads)
      → silence k t ≡ ok u
      → IsStray i endpoint t
      → IsStray i endpoint u
  unfolding store
  IsStray-silence k t u e h =
      let (a, found, done) = silence-eq-ok k t u e in
      subst (IsStray i endpoint) (done) (record {
        thread = h.thread;
        there = h.there;
        named = h.named;
        own_flag = h.own_flag;
        runs = h.runs;
        is_set =
            get_elem?-modify a (λ (old : Bool). false) t.flags i h.is_set
            ∙ ground (arith, h.unmapped k a found);
        unmapped = h.unmapped;
      })

  IsStray-modify :
      (j : ℕ) (f : Listener → Listener) (queue : List String) (t : Threads)
      → Keeps f
      → (h : IsStray i endpoint t) → (f h.thread).place ≢ ended
      → IsStray i endpoint
          (record t { listeners = modify j f t.listeners; feed_messages_queue = queue })
  IsStray-modify j f queue t keeps h runs = record {
    thread = if nat_eq j i then f h.thread else h.thread;
    there = get_elem?-modify j f t.listeners i h.there;
    named = (chosen-Keeps (nat_eq j i) f keeps h.thread).0 ∙ h.named;
    own_flag = (chosen-Keeps (nat_eq j i) f keeps h.thread).1 ∙ h.own_flag;
    runs = elim (nat_eq j i) as (λ b. (if b then f h.thread else h.thread).place ≢ ended) [
      | true ↦ runs
      | false ↦ h.runs
    ];
    is_set = h.is_set;
    unmapped = h.unmapped;
  }

  tested-runs :
      (flags : List Bool) (l : Listener)
      → get_elem? flags l.flag ≡ some true
      → l.place ≢ ended
      → (test_flag flags l).place ≢ ended
  unfolding test_flag
  tested-runs flags l e h = ground (arith, e, h)

  received-runs : (l : Listener) → l.place ≢ ended → (received l).place ≢ ended
  unfolding received
  received-runs l h = ground (arith, h)

  IsStray-tests :
      (j : ℕ) (t : Threads) → IsStray i endpoint t → IsStray i endpoint (listener_tests j t)
  unfolding listener_tests
  IsStray-tests j t h =
      IsStray-modify j (test_flag t.flags) t.feed_messages_queue t (test_flag-Keeps t.flags) h
        (tested-runs t.flags h.thread (rw h.own_flag h.is_set) h.runs)

  IsStray-receives :
      (j : ℕ) (message : String) (t : Threads)
      → IsStray i endpoint t
      → IsStray i endpoint (listener_receives j message t)
  unfolding listener_receives
  IsStray-receives j message t h =
      elim (get_elem? t.listeners j)
        as (λ o. IsStray i endpoint (elim o [
          | none ↦ t
          | some l ↦ record t {
            listeners = modify j received t.listeners;
            feed_messages_queue = queue_message message l t.feed_messages_queue;
          }
        ])) [
          | none ↦ h
          | some l ↦
              IsStray-modify j received (queue_message message l t.feed_messages_queue) t
                received-Keeps h (received-runs h.thread h.runs)
        ]

IsStray-started :
    (endpoint : String) (t : Threads)
    → IsWired t
    → Listens endpoint t
    → IsStray (length t.listeners) endpoint (listen endpoint t)
unfolding listen
IsStray-started endpoint t h (j, m, at_j, m_named) = record {
  thread = record { endpoint = endpoint; flag = length t.flags; place = testing };
  there = get_elem?-last t.listeners _;
  named = refl;
  own_flag = h.same_length;
  runs = λ e. cc;
  is_set = rw (sym h.same_length) (get_elem?-last t.flags true);
  unmapped = λ k a found.
      let split = rw (find-insert k endpoint (length t.flags) t.endpoint_to_handler) at found in
      elim (Option-cases (find k t.endpoint_to_handler)) [
        | inr (b, old) ↦
            let same : b ≡ a = ground (arith, split, old) in
            let (l, owned, named) = h.owner k b old in
            let small = get_elem?-bound t.listeners b owned in omega arith
        | inl absent ↦
            let new : endpoint ≡ k = ground (arith, split, absent, eq_iff endpoint k) in
            let clash = rw (m_named, new, absent) at (h.mapped j m at_j) in cc
      ];
}

-- Once an endpoint has been subscribed in any state that the threads reach, the thread that a further
-- subscription of it starts is never stopped: in every state that follows, after any further
-- subscriptions and unsubscriptions, the thread is there and has not ended.
pub listen-again-stays :
    (endpoint : String) {t u : Threads}
    → Reach no_threads t
    → Listens endpoint t
    → Reach (listen endpoint t) u
    → (l : Listener) × (get_elem? u.listeners (length t.listeners) ≡ some l)
      × (l.endpoint ≡ endpoint)
      × (l.place ≢ ended)
listen-again-stays endpoint {t} {u} r before after =
    let n = length t.listeners in
    let stray =
      kept-Reach (IsStray n endpoint) (IsStray-listen n endpoint) (IsStray-silence n endpoint)
        (IsStray-tests n endpoint) (IsStray-receives n endpoint)
        (λ t h. record {
          thread = h.thread;
          there = h.there;
          named = h.named;
          own_flag = h.own_flag;
          runs = h.runs;
          is_set = h.is_set;
          unmapped = h.unmapped;
        })
        after (IsStray-started endpoint t (Reach-IsWired r) before) in
    (stray.thread, stray.there, stray.named, stray.runs)
