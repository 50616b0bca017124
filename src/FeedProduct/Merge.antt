-- ===== src/FeedProduct/Merge.antt =====
-- The loop that puts the queued messages into a full book.
use quote_server.Base.{
  ℕ, ◌<◌, ◌≡◌, inl, inr, List, [], ◌∷◌, All, arith, ok, >>=-eq-ok, Bool-cases, ltb,
}
use quote_server.Json.{Json, ulong_member}
use quote_server.FeedProduct.{merge_message, merge_queue}

-- No condition.
abbrev pub IsAny : {A : Type 0} → A → Type 0
IsAny x = Unit

pub All-IsAny : {A : Type 0} (xs : List A) → All IsAny xs
All-IsAny [] = tt
All-IsAny (x ∷ xs) = (tt, All-IsAny xs)

module _ {J : Type 0} ⦃json : Json J⦄ where
  -- `b` is the book of sequence number `s` with younger messages put into it, of which `Put` holds, and
  -- `n` the number of the last one, or of the book.
  pub data Merged (Put : J → Type 0) (s : ℕ) (book : J) : J → ℕ → Type 0 where
    start : {b : J} {n : ℕ} → b ≡ book → n ≡ s → Merged Put s book b n
    add :
        {b : J} {n : ℕ} (c message : J) (k : ℕ)
        → Merged Put s book c k
        → Put message
        → ulong_member message "sequence" ≡ ok n
        → s < n
        → json.append_to "to_merge" message c ≡ ok b
        → Merged Put s book b n

  pub Merged-IsAny :
      {Put : J → Type 0} {s : ℕ} {book b : J} {n : ℕ}
      → Merged Put s book b n
      → Merged IsAny s book b n
  Merged-IsAny (start e z) = start e z
  Merged-IsAny (add c message k h put number younger e) =
      add c message k (Merged-IsAny h) tt number younger e

module _ {J : Type 0} ⦃json : Json J⦄ (Put : J → Type 0) where
  merge_message-Merged :
      (s : ℕ) (book message b : J) (n : ℕ) (r : J × ℕ)
      → Put message
      → merge_message s message (b, n) ≡ ok r
      → Merged Put s book b n
      → Merged Put s book r.0 r.1
  unfolding merge_message
  merge_message-Merged s book message b n r from e h =
      elim (Bool-cases (json.contains message "sequence")) [
        | inr missing ↦ ground (arith, h)
        | inl present ↦
            let (k, number, rest) =
              >>=-eq-ok (ulong_member message "sequence") _ (rw present at e) in
            elim (Bool-cases (ltb s k)) [
              | inr older ↦ ground (arith, h)
              | inl younger ↦
                  let (b', put, done) =
                    >>=-eq-ok (json.append_to "to_merge" message b) _ (rw younger at rest) in
                  add b message n h from (ground arith) (ground arith) (ground arith)
            ]
      ]

  pub merge_queue-Merged :
      (s : ℕ) (book : J) (queue : List J) (b : J) (n : ℕ) (r : J × ℕ)
      → All Put queue
      → merge_queue s queue (b, n) ≡ ok r
      → Merged Put s book b n
      → Merged Put s book r.0 r.1
  unfolding merge_queue
  merge_queue-Merged s book [] b n r from e h = ground (arith, h)
  merge_queue-Merged s book (m ∷ queue) b n r from e h =
      let (state, one, rest) = >>=-eq-ok (merge_message s m (b, n)) _ e in
      merge_queue-Merged s book queue state.0 state.1 r from.1 rest
        (merge_message-Merged s book m b n state from.0 one h)
