-- ===== src/Console/Steps.antt =====
-- The threads of client.cpp that start, stop and are the listening threads, as interleaved steps.
-- The endpoints come from the main thread and the messages from the sockets, so both are any.
use quote_server.Base.{String, ℕ, ◌≡◌, List, [], ◌∷◌, ok, ok-injective, sym, >>=-eq-ok}
use mathlib.Core.Path.{subst}
use quote_server.Console.Threads.{
  Threads, listen, listen_all, silence, silence_all, handle_new_endpoints, listener_tests,
  listener_receives,
}

pub data Step (t u : Threads) : Type 0 where
  handle :
      (subscribed unsubscribed : List String)
      → handle_new_endpoints subscribed unsubscribed t ≡ ok u
      → Step t u
  test : (i : ℕ) → u ≡ listener_tests i t → Step t u
  receive : (i : ℕ) (message : String) → u ≡ listener_receives i message t → Step t u
  print : u ≡ record t { feed_messages_queue = [] } → Step t u

pub data Reach (t : Threads) : Threads → Type 0 where
  here : Reach t t
  next : {u v : Threads} → Reach t u → Step u v → Reach t v

pub Reach-trans : {t u v : Threads} → Reach t u → Reach u v → Reach t v
Reach-trans h here = h
Reach-trans h (next k s) = next (Reach-trans h k) s

-- What a subscription and an unsubscription keep, `hendleNewEndpoints` keeps.
module _ (P : Threads → Type 0)
    (on_listen : (endpoint : String) (t : Threads) → P t → P (listen endpoint t))
    (on_silence : (endpoint : String) (t u : Threads) → silence endpoint t ≡ ok u → P t → P u) where
  kept-listen_all : (endpoints : List String) (t : Threads) → P t → P (listen_all endpoints t)
  unfolding listen_all
  kept-listen_all [] t h = h
  kept-listen_all (e ∷ es) t h = kept-listen_all es (listen e t) (on_listen e t h)

  kept-silence_all :
      (endpoints : List String) (t u : Threads) → silence_all endpoints t ≡ ok u → P t → P u
  unfolding silence_all
  kept-silence_all [] t u e h = subst P (ok-injective e) h
  kept-silence_all (k ∷ ks) t u e h =
      let (v, one, rest) = >>=-eq-ok (silence k t) _ e in
      kept-silence_all ks v u rest (on_silence k t v one h)

  pub kept-handle_new_endpoints :
      (subscribed unsubscribed : List String) (t u : Threads)
      → handle_new_endpoints subscribed unsubscribed t ≡ ok u
      → P t
      → P u
  unfolding handle_new_endpoints
  kept-handle_new_endpoints subscribed unsubscribed t u e h =
      kept-silence_all unsubscribed (listen_all subscribed t) u e (kept-listen_all subscribed t h)

  -- What each operation on the threads keeps, every run keeps.
  module _ (on_test : (i : ℕ) (t : Threads) → P t → P (listener_tests i t))
      (on_receive : (i : ℕ) (message : String) (t : Threads)
        → P t
        → P (listener_receives i message t))
      (on_print : (t : Threads) → P t → P (record t { feed_messages_queue = [] })) where
    kept-Step : {t u : Threads} → Step t u → P t → P u
    kept-Step {t} {u} (handle subscribed unsubscribed e) h =
        kept-handle_new_endpoints subscribed unsubscribed t u e h
    kept-Step {t} (test i e) h = subst P (sym e) (on_test i t h)
    kept-Step {t} (receive i message e) h = subst P (sym e) (on_receive i message t h)
    kept-Step {t} (print e) h = subst P (sym e) (on_print t h)

    pub kept-Reach : {t u : Threads} → Reach t u → P t → P u
    kept-Reach here h = h
    kept-Reach (next r s) h = kept-Step s (kept-Reach r h)
