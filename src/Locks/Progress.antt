-- ===== src/Locks/Progress.antt =====
-- Whether some thread of the server can go on, where no call takes the one path that leaves the order
-- of the mutexes: `Market::unsubscribe` of a product's last client.
use mathlib.Core.Path.{subst}
use quote_server.Base.{
  ℕ, zero, suc, ◌+◌, ◌<◌, ◌≤◌, ◌≡◌, ◌≢◌, refl, sym, ◌⊎◌, inl, inr, arith, true, false, some, List,
  [], ◌∷◌, All, get_elem?, replicate, get_elem?-modify-inverse, nat_eq, if◌then◌else◌, Bool-cases,
  some-injective,
}
use quote_server.Locks.{
  Mutex, same_mutex, Action, acquire, release, Thread, idle, is_in, is_guarded, is_locked, are_free,
  can_run, advance,
}
use quote_server.Locks.Steps.{entered, Step, begins, runs, Reach, here, next}
use quote_server.Locks.Order.{
  rank, rank-le, rank-same, Below, Above, Follows, climbs, actions-Follows,
}

IsOrdered : List Thread → Type 0
IsOrdered ts = (i : ℕ) (t : Thread) → get_elem? ts i ≡ some t → Follows t.guards t.todo

advance-todo :
    (gs : List (List Mutex)) (todo : List Action)
    → Follows gs todo
    → Follows
        (advance (record { guards = gs; todo = todo })).guards
        (advance (record { guards = gs; todo = todo })).todo
unfolding advance
advance-todo gs [] h = h
advance-todo gs (acquire ms ∷ rest) h = h.1
advance-todo [] (release ∷ rest) h = absurd h
advance-todo (g ∷ gs) (release ∷ rest) h = h

Step-IsOrdered : {ts us : List Thread} → Step climbs ts us → IsOrdered ts → IsOrdered us
unfolding IsOrdered
Step-IsOrdered {ts} (begins i call climbing there e) h j t at_j =
    let (v, before, same) =
      get_elem?-modify-inverse i (λ (t : Thread). entered call) ts j (rw e at at_j) in
    subst (λ (t : Thread). Follows t.guards t.todo) (sym same)
      (elim (nat_eq i j)
        as (λ b.
          Follows (if b then entered call else v).guards (if b then entered call else v).todo) [
            | true ↦ actions-Follows call climbing
            | false ↦ h j v before
          ])
Step-IsOrdered {ts} (runs i t there can e) h j u at_j =
    let (v, before, same) = get_elem?-modify-inverse i advance ts j (rw e at at_j) in
    subst (λ (t : Thread). Follows t.guards t.todo) (sym same)
      (elim (nat_eq i j)
        as (λ b. Follows (if b then advance v else v).guards (if b then advance v else v).todo) [
          | true ↦ advance-todo v.guards v.todo (h j v before)
          | false ↦ h j v before
        ])

Reach-IsOrdered : {ts us : List Thread} → Reach climbs ts us → IsOrdered ts → IsOrdered us
Reach-IsOrdered here h = h
Reach-IsOrdered (next r s) h = Step-IsOrdered s (Reach-IsOrdered r h)

-- Who holds a mutex that is locked.
is_locked-thread :
    (m : Mutex) (ts : List Thread)
    → is_locked m ts ≡ true
    → (i : ℕ) × (t : Thread) × (get_elem? ts i ≡ some t) × (is_guarded m t.guards ≡ true)
unfolding is_locked
is_locked-thread m [] e = cc
is_locked-thread m (t ∷ ts) e = elim (Bool-cases (is_guarded m t.guards)) [
  | inl held ↦ (0, t, refl, held)
  | inr free ↦
      let (i, u, there, held) = is_locked-thread m ts (ground (arith, free, e)) in
      (suc i, u, there, held)
]

-- A guard that has to wait waits for one of its mutexes.
are_free-locked :
    (P : Mutex → Type 0) (ms : List Mutex) (ts : List Thread)
    → are_free ms ts ≡ false
    → All P ms
    → (m : Mutex) × P m × (is_locked m ts ≡ true)
unfolding are_free
are_free-locked P [] ts e h = cc
are_free-locked P (m ∷ ms) ts e h = elim (Bool-cases (is_locked m ts)) [
  | inl locked ↦ (m, h.0, locked)
  | inr free ↦ are_free-locked P ms ts (ground (arith, free, e)) h.1
]

is_in-Below :
    (m : Mutex) (g : List Mutex) (ms : List Mutex)
    → is_in m g ≡ true
    → All (λ h. Below h ms) g
    → Below m ms
unfolding is_in
is_in-Below m [] ms e h = cc
is_in-Below m (n ∷ ns) ms e h = elim (Bool-cases (same_mutex m n)) [
  | inl same ↦ rw (rank-same m n same) h.0
  | inr other ↦ is_in-Below m ns ms (ground (arith, other, e)) h.1
]

is_guarded-Below :
    (m : Mutex) (gs : List (List Mutex)) (ms : List Mutex)
    → is_guarded m gs ≡ true
    → Above gs ms
    → Below m ms
unfolding is_guarded
is_guarded-Below m [] ms e h = cc
is_guarded-Below m (g ∷ gs) ms e h = elim (Bool-cases (is_in m g)) [
  | inl held ↦ is_in-Below m g ms held h.0
  | inr other ↦ is_guarded-Below m gs ms (ground (arith, other, e)) h.1
]

-- A thread with something to do can run, or a mutex that it waits for is locked.
runs_or_waits :
    (P : Mutex → Type 0) (ts : List Thread) (gs : List (List Mutex)) (todo : List Action)
    → Follows gs todo
    → todo ≢ []
    → ((ms : List Mutex) → Above gs ms → All P ms)
    → (can_run ts (record { guards = gs; todo = todo }) ≡ true)
      ⊎ ((m : Mutex) × P m × (is_locked m ts ≡ true))
unfolding can_run
runs_or_waits P ts gs [] h busy bound = absurd (busy refl)
runs_or_waits P ts gs (acquire ms ∷ rest) h busy bound = elim (Bool-cases (are_free ms ts)) [
  | inl free ↦ inl free
  | inr waits ↦ inr (are_free-locked P ms ts waits (bound ms h.0))
]
runs_or_waits P ts gs (release ∷ rest) h busy bound = inl refl

abbrev SomeRuns : List Thread → Type 0
SomeRuns ts = (i : ℕ) × (t : Thread) × (get_elem? ts i ≡ some t) × (can_run ts t ≡ true)

holder-busy :
    (m : Mutex) (gs : List (List Mutex)) (todo : List Action)
    → Follows gs todo
    → is_guarded m gs ≡ true
    → todo ≢ []
unfolding is_guarded
holder-busy m [] todo h held done = cc
holder-busy m (g ∷ gs) todo h held done =
    let clash = subst (λ todo. Follows (g ∷ gs) todo) (done) h in cc

-- A thread that waits does so for a mutex above all that it holds; who holds that one can run, or
-- waits for a mutex above it in turn. `k` bounds how often.
holder-SomeRuns :
    (k : ℕ) (ts : List Thread) (i : ℕ) (t : Thread) (m : Mutex)
    → IsOrdered ts
    → get_elem? ts i ≡ some t
    → is_guarded m t.guards ≡ true
    → 2 < rank m + k
    → SomeRuns ts
unfolding IsOrdered
holder-SomeRuns zero ts i t m h there held enough = absurd (omega (arith, rank-le m, enough))
holder-SomeRuns (suc k) ts i t m h there held enough =
    let follows = h i t there in
    elim (runs_or_waits (λ n. rank m < rank n) ts t.guards t.todo follows
      (holder-busy m t.guards t.todo follows held)
      (λ ms above. is_guarded-Below m t.guards ms held above)) [
        | inl can ↦ (i, t, there, can)
        | inr (n, above, locked) ↦
            let (j, u, at_j, holds) = is_locked-thread n ts locked in
            holder-SomeRuns k ts j u n h at_j holds (omega arith)
      ]

any_mutexes : (ms : List Mutex) → All (λ m. rank m ≤ 2) ms
any_mutexes [] = tt
any_mutexes (m ∷ ms) = (rank-le m, any_mutexes ms)

idle-IsOrdered : (n : ℕ) → IsOrdered (replicate n idle)
unfolding IsOrdered
idle-IsOrdered zero i t there = cc
idle-IsOrdered (suc n) zero t there =
    subst (λ (t : Thread). Follows t.guards t.todo) (some-injective there) refl
idle-IsOrdered (suc n) (suc i) t there = idle-IsOrdered n i t there

-- However the server's threads, at first idle, interleave their calls, and unless a call lets go of a
-- product's last client: wherever a thread has something to do, some thread need not wait for a mutex.
pub Reach-SomeRuns :
    (threads : ℕ) {ts : List Thread} (i : ℕ) (t : Thread)
    → Reach climbs (replicate threads idle) ts
    → get_elem? ts i ≡ some t
    → t.todo ≢ []
    → (j : ℕ) × (u : Thread) × (get_elem? ts j ≡ some u) × (can_run ts u ≡ true)
unfolding IsOrdered
Reach-SomeRuns threads {ts} i t r there busy =
    let h = Reach-IsOrdered r (idle-IsOrdered threads) in
    elim (runs_or_waits (λ m. rank m ≤ 2) ts t.guards t.todo (h i t there) busy
      (λ ms above. any_mutexes ms)) [
        | inl can ↦ (i, t, there, can)
        | inr (n, le, locked) ↦
            let (j, u, at_j, holds) = is_locked-thread n ts locked in
            holder-SomeRuns 3 ts j u n h at_j holds (omega arith)
      ]
