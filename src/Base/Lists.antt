-- ===== src/Base/Lists.antt =====
-- `std::vector` and `std::deque` as lists: lengths, appended loops, predicates on every element.
use Prim.Native.Nat.{ℕ, zero, suc, ◌+◌, ◌<◌}
use mathlib.Core.Path.{◌≡◌, refl, ap, sym, ◌∙◌}
use mathlib.Core.Logic.{◌⊎◌, inl, inr}
use mathlib.Core.List.{List, [], ◌∷◌, ◌++◌, append-nil, append_assoc}
use mathlib.Core.Option
use mathlib.Core.Option.{Option, none, some}
use native.Mathlib.Omega.{arith}
use quote_server.Base.Tests.{if◌then◌else◌, nat_eq}

pub some-injective {ℓ} : {A : Type ℓ} {a b : A} → some a ≡ some b → a ≡ b
some-injective e = cc

module _ {ℓ} {A : Type ℓ} where
  abbrev pub length : List A → ℕ
  length [] = 0
  length (x ∷ xs) = suc (length xs)

  abbrev pub get_elem? : List A → ℕ → Option A
  get_elem? [] i = none
  get_elem? (x ∷ xs) zero = some x
  get_elem? (x ∷ xs) (suc i) = get_elem? xs i

  -- the elements of a vector of pointers that are not null
  abbrev pub somes : List (Option A) → List A
  somes [] = []
  somes (none ∷ xs) = somes xs
  somes (some x ∷ xs) = x ∷ somes xs

  -- `v.push_back(x)`
  abbrev pub push_back : List A → A → List A
  push_back xs x = xs ++ x ∷ []

  -- `for(const auto& x: xs) v.push_back(x);`
  abbrev pub push_all : List A → List A → List A
  push_all acc [] = acc
  push_all acc (x ∷ xs) = push_all (push_back acc x) xs

  pub push_all-eq-append : (acc xs : List A) → push_all acc xs ≡ acc ++ xs
  push_all-eq-append acc [] = sym (append-nil acc)
  push_all-eq-append acc (x ∷ xs) =
      push_all-eq-append (acc ++ x ∷ []) xs ∙ append_assoc acc (x ∷ []) xs

  pub length-append : (xs ys : List A) → length (xs ++ ys) ≡ length xs + length ys
  length-append [] ys = omega arith
  length-append (x ∷ xs) ys = omega (arith, length-append xs ys)

  pub List-cases : (xs : List A) → (xs ≡ []) ⊎ ((x : A) × (ys : List A) × (xs ≡ x ∷ ys))
  List-cases [] = inl refl
  List-cases (x ∷ xs) = inr (x, xs, refl)

  -- `f` at one place of a vector
  abbrev pub modify : ℕ → (A → A) → List A → List A
  modify i f [] = []
  modify zero f (x ∷ xs) = f x ∷ xs
  modify (suc i) f (x ∷ xs) = x ∷ modify i f xs

  pub get_elem?-bound : (xs : List A) (i : ℕ) {x : A} → get_elem? xs i ≡ some x → i < length xs
  get_elem?-bound [] i e = cc
  get_elem?-bound (y ∷ xs) zero e = omega arith
  get_elem?-bound (y ∷ xs) (suc i) e = omega (arith, get_elem?-bound xs i e)

  pub get_elem?-some : (xs : List A) (i : ℕ) → i < length xs → (x : A) × (get_elem? xs i ≡ some x)
  get_elem?-some [] i h = absurd (omega (arith, h))
  get_elem?-some (x ∷ xs) zero h = (x, refl)
  get_elem?-some (x ∷ xs) (suc i) h = get_elem?-some xs i (omega (arith, h))

  pub get_elem?-append :
      (xs ys : List A) (i : ℕ) {x : A} → get_elem? xs i ≡ some x → get_elem? (xs ++ ys) i ≡ some x
  get_elem?-append [] ys i e = cc
  get_elem?-append (y ∷ xs) ys zero e = e
  get_elem?-append (y ∷ xs) ys (suc i) e = get_elem?-append xs ys i e

  pub get_elem?-last : (xs : List A) (x : A) → get_elem? (push_back xs x) (length xs) ≡ some x
  get_elem?-last [] x = refl
  get_elem?-last (y ∷ xs) x = get_elem?-last xs x

  pub get_elem?-push_back :
      (xs : List A) (x : A) (i : ℕ) {y : A}
      → get_elem? (push_back xs x) i ≡ some y
      → (get_elem? xs i ≡ some y) ⊎ ((i ≡ length xs) × (x ≡ y))
  get_elem?-push_back [] x zero e = inr (refl, some-injective e)
  get_elem?-push_back [] x (suc i) e = cc
  get_elem?-push_back (z ∷ xs) x zero e = inl e
  get_elem?-push_back (z ∷ xs) x (suc i) e = elim (get_elem?-push_back xs x i e) [
    | inl there ↦ inl there
    | inr (last, same) ↦ inr (ap suc last, same)
  ]

  pub get_elem?-modify :
      (j : ℕ) (f : A → A) (xs : List A) (i : ℕ) {x : A}
      → get_elem? xs i ≡ some x
      → get_elem? (modify j f xs) i ≡ some (if nat_eq j i then f x else x)
  get_elem?-modify j f [] i e = cc
  get_elem?-modify zero f (y ∷ xs) zero e = ap (λ (o : Option A). Option.map f o) e
  get_elem?-modify zero f (y ∷ xs) (suc i) e = ground (arith, e)
  get_elem?-modify (suc j) f (y ∷ xs) zero e = ground (arith, e)
  get_elem?-modify (suc j) f (y ∷ xs) (suc i) e = ground (arith, get_elem?-modify j f xs i e)

  pub get_elem?-modify-inverse :
      (j : ℕ) (f : A → A) (xs : List A) (i : ℕ) {y : A}
      → get_elem? (modify j f xs) i ≡ some y
      → (x : A) × (get_elem? xs i ≡ some x) × (y ≡ (if nat_eq j i then f x else x))
  get_elem?-modify-inverse j f [] i e = cc
  get_elem?-modify-inverse zero f (x ∷ xs) zero e = (x, refl, sym (some-injective e))
  get_elem?-modify-inverse zero f (x ∷ xs) (suc i) {y} e = (y, e, ground arith)
  get_elem?-modify-inverse (suc j) f (x ∷ xs) zero e = (x, refl, ground (arith, e))
  get_elem?-modify-inverse (suc j) f (x ∷ xs) (suc i) e =
      let (z, there, same) = get_elem?-modify-inverse j f xs i e in (z, there, ground arith)

  pub length-modify : (j : ℕ) (f : A → A) (xs : List A) → length (modify j f xs) ≡ length xs
  length-modify j f [] = refl
  length-modify zero f (x ∷ xs) = refl
  length-modify (suc j) f (x ∷ xs) = ap suc (length-modify j f xs)

-- A predicate of every element.
abbrev pub All {ℓ κ} : {A : Type ℓ} → (A → Type κ) → List A → Type κ
All good [] = Unit
All good (x ∷ xs) = good x × All good xs

abbrev pub replicate {ℓ} : {A : Type ℓ} → ℕ → A → List A
replicate zero x = []
replicate (suc n) x = x ∷ replicate n x
