-- ===== src/Locks/Steps.antt =====
-- The threads of the server as they take and give back the mutexes of Market.cpp,
-- CoinbaseFeedClient.cpp and CoinbaseFeedProduct.cpp: a thread that has nothing to do begins a call,
-- and a thread that need not wait makes its next guard or destroys one.
use quote_server.Base.{ℕ, Bool, true, ◌≡◌, some, List, [], get_elem?, modify}
use quote_server.Locks.{Thread, Call, actions, idle, can_run, advance}

abbrev pub entered : Call → Thread
entered call = record { guards = []; todo = actions call }

-- The calls that are made are those that `may` allows.
pub data Step (may : Call → Bool) (ts us : List Thread) : Type 0 where
  begins :
      (i : ℕ) (call : Call)
      → may call ≡ true
      → get_elem? ts i ≡ some idle
      → us ≡ modify i (λ (t : Thread). entered call) ts
      → Step may ts us
  runs :
      (i : ℕ) (t : Thread)
      → get_elem? ts i ≡ some t
      → can_run ts t ≡ true
      → us ≡ modify i advance ts
      → Step may ts us

pub data Reach (may : Call → Bool) (ts : List Thread) : List Thread → Type 0 where
  here : Reach may ts ts
  next : {us vs : List Thread} → Reach may ts us → Step may us vs → Reach may ts vs

pub Reach-trans :
    {may : Call → Bool} {ts us vs : List Thread}
    → Reach may ts us
    → Reach may us vs
    → Reach may ts vs
Reach-trans h here = h
Reach-trans h (next k s) = next (Reach-trans h k) s
