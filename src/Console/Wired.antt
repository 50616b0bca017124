-- ===== src/Console/Wired.antt =====
-- How the flags, the listening threads and `endpointToHandler` belong together.
use quote_server.Base.{
  String, ◌+◌, eq_iff, ok-injective, ℕ, ◌≡◌, refl, sym, ap, ◌∙◌, inl, inr, arith, Bool, true, false,
  none, some, List, [], ◌∷◌, ok, length, get_elem?, push_back, modify, has, length-append,
  length-modify, get_elem?-append, get_elem?-last, get_elem?-push_back, get_elem?-modify,
  get_elem?-modify-inverse, if◌then◌else◌, nat_eq, Option-cases,
}
use mathlib.Core.Path.{subst}
use quote_server.Base.Dict.{find, insert, find-insert}
use quote_server.Console.Threads.{
  Listener, Threads, testing, no_threads, store, queue_message, listen, silence, test_flag,
  received, listener_tests, listener_receives,
}
use quote_server.Console.Steps.{Reach, kept-Reach}

-- Thread number `i` owns flag number `i`; the map gives the flag of a thread of each endpoint that
-- has a thread.
pub record IsWired (t : Threads) : Type 0 where
  pub same_length : length t.flags ≡ length t.listeners
  pub own_flag : (i : ℕ) (l : Listener) → get_elem? t.listeners i ≡ some l → l.flag ≡ i
  pub mapped :
      (i : ℕ) (l : Listener)
      → get_elem? t.listeners i ≡ some l
      → has (find l.endpoint t.endpoint_to_handler) ≡ true
  pub owner :
      (endpoint : String) (a : ℕ)
      → find endpoint t.endpoint_to_handler ≡ some a
      → (l : Listener) × (get_elem? t.listeners a ≡ some l) × (l.endpoint ≡ endpoint)

IsWired-no_threads : IsWired no_threads
unfolding no_threads find
IsWired-no_threads = record {
  same_length = refl;
  own_flag = λ i l e. cc;
  mapped = λ i l e. cc;
  owner = λ endpoint a e. cc;
}

module _ (endpoint : String) (t : Threads) (h : IsWired t) where
  abbrev started : Listener
  started = record { endpoint = endpoint; flag = length t.flags; place = testing }

  listen-own_flag :
      (i : ℕ) (l : Listener) → get_elem? (push_back t.listeners started) i ≡ some l → l.flag ≡ i
  listen-own_flag i l e = elim (get_elem?-push_back t.listeners started i e) [
    | inl old ↦ h.own_flag i l old
    | inr (last, same) ↦ sym (ap (λ (l : Listener). l.flag) same) ∙ h.same_length ∙ sym last
  ]

  listen-mapped :
      (i : ℕ) (l : Listener)
      → get_elem? (push_back t.listeners started) i ≡ some l
      → has (find l.endpoint (insert endpoint (length t.flags) t.endpoint_to_handler)) ≡ true
  listen-mapped i l e =
      rw (find-insert l.endpoint endpoint (length t.flags) t.endpoint_to_handler)
        (elim (get_elem?-push_back t.listeners started i e) [
          | inl old ↦ ground (arith, h.mapped i l old)
          | inr (last, same) ↦
              let e : endpoint ≡ l.endpoint = ap (λ (l : Listener). l.endpoint) same in
              ground (arith, eq_iff endpoint l.endpoint)
        ])

  listen-owner :
      (k : String) (a : ℕ)
      → find k (insert endpoint (length t.flags) t.endpoint_to_handler) ≡ some a
      → (l : Listener) × (get_elem? (push_back t.listeners started) a ≡ some l) × (l.endpoint ≡ k)
  listen-owner k a e =
      let found = rw (find-insert k endpoint (length t.flags) t.endpoint_to_handler) at e in
      elim (Option-cases (find k t.endpoint_to_handler)) [
        | inr (b, old) ↦
            let same : b ≡ a = ground (arith, found, old) in
            let (l, there, named) = h.owner k b old in
            (l, rw (sym same) (get_elem?-append t.listeners (started ∷ []) b there), named)
        | inl fresh ↦
            let same : length t.listeners ≡ a = ground (arith, found, fresh, h.same_length) in
            let named : endpoint ≡ k = ground (arith, found, fresh, eq_iff endpoint k) in
            (started, rw (sym same) (get_elem?-last t.listeners started), named)
      ]

  IsWired-listen : IsWired (listen endpoint t)
  unfolding listen
  IsWired-listen = record {
    same_length =
        length-append t.flags (true ∷ [])
        ∙ ap (λ n. n + 1) h.same_length
        ∙ sym (length-append t.listeners (started ∷ []));
    own_flag = listen-own_flag;
    mapped = listen-mapped;
    owner = listen-owner;
  }

-- Only an endpoint that is there can be silenced, and only its flag is cleared.
pub silence-eq-ok :
    (endpoint : String) (t u : Threads)
    → silence endpoint t ≡ ok u
    → (a : ℕ) × (find endpoint t.endpoint_to_handler ≡ some a)
      × (record t { flags = store a false t.flags } ≡ u)
unfolding silence
silence-eq-ok endpoint t u e = elim (Option-cases (find endpoint t.endpoint_to_handler)) [
  | inl absent ↦ let fault = rw (absent, silence) at e in cc
  | inr (a, there) ↦ (a, there, ok-injective (rw (there, silence) at e))
]

IsWired-silence :
    (endpoint : String) (t u : Threads) → silence endpoint t ≡ ok u → IsWired t → IsWired u
unfolding store
IsWired-silence endpoint t u e h =
    let (a, there, done) = silence-eq-ok endpoint t u e in
    subst IsWired (done) (record {
      same_length = length-modify a (λ (old : Bool). false) t.flags ∙ h.same_length;
      own_flag = h.own_flag;
      mapped = h.mapped;
      owner = h.owner;
    })

-- A step of a thread that keeps its endpoint and its flag.
abbrev pub Keeps : (Listener → Listener) → Type 0
Keeps f = (l : Listener) → ((f l).endpoint ≡ l.endpoint) × ((f l).flag ≡ l.flag)

pub chosen-Keeps :
    (b : Bool) (f : Listener → Listener) → Keeps f → Keeps (λ l. if b then f l else l)
chosen-Keeps true f keeps l = keeps l
chosen-Keeps false f keeps l = (refl, refl)

IsWired-modify :
    (j : ℕ) (f : Listener → Listener) (queue : List String) (t : Threads)
    → Keeps f
    → IsWired t
    → IsWired (record t { listeners = modify j f t.listeners; feed_messages_queue = queue })
IsWired-modify j f queue t keeps h = record {
  same_length = h.same_length ∙ sym (length-modify j f t.listeners);
  own_flag = λ i l e.
      let (l', there, same) = get_elem?-modify-inverse j f t.listeners i e in
      ap (λ (l : Listener). l.flag) same
      ∙ (chosen-Keeps (nat_eq j i) f keeps l').1
      ∙ h.own_flag i l' there;
  mapped = λ i l e.
      let (l', there, same) = get_elem?-modify-inverse j f t.listeners i e in
      let named : l.endpoint ≡ l'.endpoint =
        ap (λ (l : Listener). l.endpoint) same ∙ (chosen-Keeps (nat_eq j i) f keeps l').0 in
      rw named (h.mapped i l' there);
  owner = λ k a e.
      let (l, there, named) = h.owner k a e in
      (
        if nat_eq j a then f l else l,
        get_elem?-modify j f t.listeners a there,
        (chosen-Keeps (nat_eq j a) f keeps l).0 ∙ named,
      );
}

pub test_flag-Keeps : (flags : List Bool) → Keeps (test_flag flags)
unfolding test_flag
test_flag-Keeps flags l = ground arith

pub received-Keeps : Keeps received
unfolding received
received-Keeps l = ground arith

IsWired-listener_tests : (i : ℕ) (t : Threads) → IsWired t → IsWired (listener_tests i t)
unfolding listener_tests
IsWired-listener_tests i t h =
    IsWired-modify i (test_flag t.flags) t.feed_messages_queue t (test_flag-Keeps t.flags) h

IsWired-listener_receives :
    (i : ℕ) (message : String) (t : Threads) → IsWired t → IsWired (listener_receives i message t)
unfolding listener_receives
IsWired-listener_receives i message t h =
    elim (get_elem? t.listeners i)
      as (λ o. IsWired (elim o [
        | none ↦ t
        | some l ↦ record t {
          listeners = modify i received t.listeners;
          feed_messages_queue = queue_message message l t.feed_messages_queue;
        }
      ])) [
        | none ↦ h
        | some l ↦
            IsWired-modify i received (queue_message message l t.feed_messages_queue) t
              received-Keeps h
      ]

-- In every state that the threads reach, they are wired.
pub Reach-IsWired : {t : Threads} → Reach no_threads t → IsWired t
Reach-IsWired r =
    kept-Reach IsWired IsWired-listen IsWired-silence IsWired-listener_tests
      IsWired-listener_receives
      (λ t h. record {
        same_length = h.same_length;
        own_flag = h.own_flag;
        mapped = h.mapped;
        owner = h.owner;
      })
      r IsWired-no_threads
