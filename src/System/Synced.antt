-- ===== src/System/Synced.antt =====
-- The queue of a feed product against the messages of the exchange: which messages wait for a full
-- book, and what the request thread makes of them.
use mathlib.Core.Path.{subst}
use quote_server.Base.{
  ℕ, zero, suc, ◌+◌, ◌<◌, ◌≤◌, ◌≡◌, refl, sym, ap, ◌∙◌, ◌⊎◌, inl, inr, true, Option, some, List, [],
  ◌∷◌, ◌++◌, All, ok, arith, ltb, ok-injective, >>=-eq-ok, Bool-cases,
}
use quote_server.Base.Floating.{Floating}
use quote_server.Json.{Json, JsonLaws, ulong_member}
use quote_server.FeedProduct.{ulong_mod, merge_message, merge_queue}
use quote_server.System.Exchange.{Exchange, message, full_book_message}
use quote_server.System.Merging.{Carries, bare, merged}
use quote_server.System.Merging.Reading.{message-sequence}

pub All-append {ℓ κ} :
    {A : Type ℓ} (P : A → Type κ) (xs ys : List A) → All P xs → All P ys → All P (xs ++ ys)
All-append P [] ys h k = k
All-append P (x ∷ xs) ys h k = (h.0, All-append P xs ys h.1 k)

pub All-map {ℓ κ λ'} :
    {A : Type ℓ} {P : A → Type κ} {Q : A → Type λ'} (xs : List A)
    → ((x : A) → P x → Q x)
    → All P xs
    → All Q xs
All-map [] g h = tt
All-map (x ∷ xs) g h = (g x h.0, All-map xs g h.1)

module _ {J F : Type 0} ⦃json : Json J⦄ ⦃f : Floating F⦄ (ex : Exchange json f) where
  -- A message or a full book with a number up to `a`.
  abbrev pub IsOld : ℕ → J → Type 0
  IsOld a x =
      (n : ℕ) × (json.contains x "sequence" ≡ true) × (ulong_member x "sequence" ≡ ok n) × (n ≤ a)

  pub IsOld-mono : (a b : ℕ) (x : J) → a ≤ b → IsOld a x → IsOld b x
  IsOld-mono a b x h (n, there, read, le) = (n, there, read, omega arith)

  -- the messages of the `k` numbers after `a`
  abbrev pub run : ℕ → ℕ → List J
  run a zero = []
  run a (suc k) = message ex (suc a) ∷ run (suc a) k

  pub run-snoc : (a k : ℕ) → run a k ++ message ex (suc (a + k)) ∷ [] ≡ run a (suc k)
  run-snoc a zero = ap (λ n. message ex (suc n) ∷ []) (omega arith)
  run-snoc a (suc k) =
      ap (λ l. message ex (suc a) ∷ l)
        (ap (λ n. run (suc a) k ++ message ex (suc n) ∷ []) (omega arith) ∙ run-snoc (suc a) k)

  -- `x` may be handled after `o`, and leaves the product at the book of number `s` and `d` changes.
  abbrev pub Next : Option (ℕ × ℕ) → J → ℕ → ℕ → Type 0
  Next o x s d =
      Carries ex s s x d
      ⊎ ((k : ℕ) × (o ≡ some (s, k)) × (d ≡ suc k) × (x ≡ message ex (suc (s + k))))

  abbrev pub InSync : Option (ℕ × ℕ) → List J → Option (ℕ × ℕ) → Type 0
  InSync o [] last = o ≡ last
  InSync o (x ∷ xs) last =
      (s : ℕ) × (d : ℕ) × (s + d < ulong_mod) × Next o x s d × InSync (some (s, d)) xs last

  pub InSync-append :
      (o mid last : Option (ℕ × ℕ)) (xs ys : List J)
      → InSync o xs mid
      → InSync mid ys last
      → InSync o (xs ++ ys) last
  InSync-append o mid last [] ys h k = subst (λ p. InSync p ys last) (sym h) k
  InSync-append o mid last (x ∷ xs) ys (s, d, bound, step, rest) k =
      (s, d, bound, step, InSync-append (some (s, d)) mid last xs ys rest k)

module _ {J F : Type 0} ⦃json : Json J⦄ ⦃f : Floating F⦄ (laws : JsonLaws json)
    (ex : Exchange json f) where
  pub message-IsOld : (n : ℕ) → n < ulong_mod → IsOld ex n (message ex n)
  message-IsOld n bound =
      let (there, read, other) = message-sequence laws ex n bound in (n, there, read, omega arith)

  pub run-IsOld : (a k b : ℕ) → a + k ≤ b → b < ulong_mod → All (IsOld ex b) (run ex a k)
  run-IsOld a zero b le bound = tt
  run-IsOld a (suc k) b le bound = (
    IsOld-mono ex (suc a) b (message ex (suc a)) (omega arith)
        (message-IsOld (suc a) (omega arith)),
    run-IsOld (suc a) k b (omega arith) bound,
  )

  merge_old : (s : ℕ) (x b : J) (n : ℕ) → IsOld ex s x → merge_message s x (b, n) ≡ ok (b, n)
  unfolding merge_message
  merge_old s x b n (k, there, read, le) = rw (there, read) (ground arith)

  -- What is not younger than the book is dropped.
  pub merge_queue-old :
      (s : ℕ) (old xs : List J) (b : J) (n : ℕ)
      → All (IsOld ex s) old
      → merge_queue s (old ++ xs) (b, n) ≡ merge_queue s xs (b, n)
  unfolding merge_queue
  merge_queue-old s [] xs b n h = refl
  merge_queue-old s (x ∷ old) xs b n h =
      rw (merge_old s x b n h.0) (merge_queue-old s old xs b n h.1)

  merge_young :
      (s k : ℕ) (b : J) (n : ℕ) (r : J × ℕ)
      → s < k
      → k < ulong_mod
      → merge_message s (message ex k) (b, n) ≡ ok r
      → (json.append_to "to_merge" (message ex k) b ≡ ok r.0) × (r.1 ≡ k)
  unfolding merge_message
  merge_young s k b n r le bound e =
      let (there, read, other) = message-sequence laws ex k bound in
      let (b', put, done) =
        >>=-eq-ok (json.append_to "to_merge" (message ex k) b) _
          (let younger : ltb s k ≡ true = ground arith in rw (there, read, younger) at e) in
      let same = ok-injective done in (put ∙ ap (λ q. ok q.0) same, ap (λ q. q.1) (sym same))

  -- Messages that come after each other, the first of them no later than the book's next: those after
  -- the book are put into it, none left out.
  pub merge_queue-run :
      (s m a k d : ℕ) (b : J) (r : J × ℕ)
      → ((a ≤ s) × (d ≡ 0)) ⊎ (a ≡ s + d)
      → s + d ≤ m
      → a + k ≤ m
      → m < ulong_mod
      → Carries ex s s b d
      → merge_queue s (run ex a k) (b, s + d) ≡ ok r
      → (e : ℕ) × Carries ex s s r.0 e × (r.1 ≡ s + e) × (a + k ≤ s + e) × (s + e ≤ m)
  unfolding merge_queue
  merge_queue-run s m a zero d b r place low high bound h e =
      let same = ok-injective e in
      (
        d,
        subst (λ (q : J × ℕ). Carries ex s s q.0 d) same h,
        ap (λ (q : J × ℕ). q.1) (sym same),
        ground arith,
        low,
      )
  merge_queue-run s m a (suc k) d b r place low high bound h e =
      let (state, one, rest) = >>=-eq-ok (merge_message s (message ex (suc a)) (b, s + d)) _ e in
      elim (Bool-cases (ltb s (suc a))) [
        | inr older ↦
            let le : suc a ≤ s = ground arith in
            let first : d ≡ 0 = ground arith in
            let (n, there, read, le_n) =
              IsOld-mono ex (suc a) s (message ex (suc a)) le
                (message-IsOld (suc a) (omega arith)) in
            let same =
              ok-injective
                (sym (merge_old s (message ex (suc a)) b (s + d) (n, there, read, le_n)) ∙ one) in
            let (x, carries, number, up, down) =
              merge_queue-run s m (suc a) k d b r (inl (le, first)) low (omega arith) bound h
                (ap (merge_queue s (run ex (suc a) k)) same ∙ rest) in
            (x, carries, number, omega arith, down)
        | inl younger ↦
            let lt : s < suc a = ground arith in
            let here : a ≡ s + d = ground arith in
            let (put, number) = merge_young s (suc a) b (s + d) state lt (omega arith) one in
            let grown =
              merged b d h
                (subst (λ n. json.append_to "to_merge" (message ex (suc n)) b ≡ ok state.0) here
                  put)
                refl in
            let count : state.1 ≡ s + suc d = omega arith in
            let (x, carries, total, up, down) =
              merge_queue-run s m (suc a) k (suc d) state.0 r (inr (omega arith)) (omega arith)
                (omega arith) bound grown
                (ap (λ n. merge_queue s (run ex (suc a) k) (state.0, n)) (sym count) ∙ rest) in
            (x, carries, total, omega arith, down)
      ]

  -- Messages that come after the book by a distance: all of them are put into it, whatever is missing
  -- between.
  pub merge_queue-late :
      (s a k d : ℕ) (b : J) (r : J × ℕ)
      → s ≤ a
      → a + d + k < ulong_mod
      → Carries ex s a b d
      → merge_queue s (run ex (a + d) k) (b, a + d) ≡ ok r
      → Carries ex s a r.0 (d + k) × (r.1 ≡ a + d + k)
  unfolding merge_queue
  merge_queue-late s a zero d b r le bound h e =
      let same = ok-injective e in
      (
        subst (Carries ex s a r.0) (omega arith)
            (subst (λ (q : J × ℕ). Carries ex s a q.0 d) same h),
        ap (λ (q : J × ℕ). q.1) (sym same) ∙ omega arith,
      )
  merge_queue-late s a (suc k) d b r le bound h e =
      let (state, one, rest) =
        >>=-eq-ok (merge_message s (message ex (suc (a + d))) (b, a + d)) _ e in
      let (put, number) =
        merge_young s (suc (a + d)) b (a + d) state (omega arith) (omega arith) one in
      let on : suc (a + d) ≡ a + suc d = omega arith in
      let (carries, total) =
        merge_queue-late s a k (suc d) state.0 r le (omega arith) (merged b d h put refl) (
          ap (λ n. merge_queue s (run ex n k) (state.0, n)) (sym on)
          ∙ ap (λ n. merge_queue s (run ex (suc (a + d)) k) (state.0, n)) (sym number)
          ∙ rest) in
      (subst (Carries ex s a r.0) (omega arith) carries, total ∙ omega arith)

  -- The same from the bare book.
  pub merge_queue-bare :
      (s a k : ℕ) (r : J × ℕ)
      → s ≤ a
      → a + suc k < ulong_mod
      → merge_queue s (run ex a (suc k)) (full_book_message ex s, s) ≡ ok r
      → Carries ex s a r.0 (suc k) × (r.1 ≡ a + suc k)
  unfolding merge_queue
  merge_queue-bare s a k r le bound e =
      let (state, one, rest) =
        >>=-eq-ok (merge_message s (message ex (suc a)) (full_book_message ex s, s)) _ e in
      let (put, number) =
        merge_young s (suc a) (full_book_message ex s) s state (omega arith) (omega arith) one in
      let on : suc a ≡ a + 1 = omega arith in
      let nothing : a ≡ a + 0 = omega arith in
      let first =
        merged {d = 1} (full_book_message ex s) 0 (bare refl refl)
          (subst
            (λ n.
              json.append_to "to_merge" (message ex (suc n)) (full_book_message ex s) ≡ ok state.0)
            nothing put)
          refl in
      let (carries, total) = merge_queue-late s a k 1 state.0 r le (omega arith) first (
        ap (λ n. merge_queue s (run ex n k) (state.0, n)) (sym on)
        ∙ ap (λ n. merge_queue s (run ex (suc a) k) (state.0, n)) (sym number)
        ∙ rest) in
      (subst (Carries ex s a r.0) (omega arith) carries, total ∙ omega arith)
