-- ===== src/Uuid/Shape.antt =====
-- The form of the texts that `generate_uuid` of src/utils/uuid.cpp gives.
use Prim.Native.Char.{code}
use native.Mathlib.Decide.{dec_le}
use mathlib.Core.Path.{subst}
use text.Mathlib.TextLemmas.{nil-append, cons-append}
use quote_server.Base.{
  String, ◌<>◌, ℕ, zero, suc, ◌≤◌, ◌+◌, ◌-◌, ◌≡◌, refl, ap, ◌∙◌, ◌⊎◌, List, [], ◌∷◌, ◌++◌,
  replicate, arith, nat_eq, if◌then◌else◌,
}
use quote_server.Uuid.{Dice, hex_digit, draws, generate_uuid}

-- The code points of a text.
abbrev pub codes : String → List ℕ
codes String.[] = []
codes (String.◌∷◌ c s) = code c ∷ codes s

codes-append : (s t : String) → codes (s <> t) ≡ codes s ++ codes t
codes-append String.[] t = ap codes (nil-append t)
codes-append (String.◌∷◌ c s) t =
    ap codes (cons-append c s t) ∙ ap (λ cs. code c ∷ cs) (codes-append s t)

abbrev pub IsHexDigit : ℕ → Type 0
IsHexDigit c = ((b'0' ≤ c) × (c ≤ b'9')) ⊎ ((b'a' ≤ c) × (c ≤ b'f'))

abbrev pub IsVariant : ℕ → Type 0
IsVariant c = (c ≡ b'8') ⊎ (c ≡ b'9') ⊎ (c ≡ b'a') ⊎ (c ≡ b'b')

-- What a character of a form stands for: x for a hexadecimal digit, y for one of the four variant
-- digits, any other for itself.
abbrev pub StandsFor : ℕ → ℕ → Type 0
StandsFor p c =
    if nat_eq p b'x' then IsHexDigit c else if nat_eq p b'y' then IsVariant c else (c ≡ p)

abbrev pub Fits : List ℕ → List ℕ → Type 0
Fits [] [] = Unit
Fits (p ∷ ps) (c ∷ cs) = StandsFor p c × Fits ps cs
Fits _ _ = ⊥

-- A version 4 UUID as a text.
abbrev pub uuid_form : String
uuid_form = "xxxxxxxx-xxxx-4xxx-yxxx-xxxxxxxxxxxx"

-- A predicate at every number up to a bound.
abbrev UpTo : (ℕ → Type 0) → ℕ → Type 0
UpTo P zero = P zero
UpTo P (suc k) = P (suc k) × UpTo P k

UpTo-at : (P : ℕ → Type 0) (k n : ℕ) → UpTo P k → n ≤ k → P n
UpTo-at P zero n all h = let e : 0 ≡ n = omega arith in subst P (e) all
UpTo-at P (suc k) n all h = elim (dec_le n k) [
  | yes le ↦ UpTo-at P k n all.1 le
  | no gt ↦ let e : suc k ≡ n = omega arith in subst P (e) all.0
]

hex_digit-Fits : (n : ℕ) → n ≤ 15 → Fits (b'x' ∷ []) (codes (hex_digit n))
unfolding hex_digit
hex_digit-Fits n h = UpTo-at (λ n. Fits (b'x' ∷ []) (codes (hex_digit n))) 15 n (omega arith) h

variant-Fits : (n : ℕ) → 8 ≤ n → n ≤ 11 → Fits (b'y' ∷ []) (codes (hex_digit n))
unfolding hex_digit
variant-Fits n lo hi =
    let e : 8 + (n - 8) ≡ n = omega arith in
    subst (λ n. Fits (b'y' ∷ []) (codes (hex_digit n))) (e)
      (UpTo-at (λ k. Fits (b'y' ∷ []) (codes (hex_digit (8 + k)))) 3 (n - 8) (omega arith)
        (omega arith))

Fits-append : (ps cs qs ds : List ℕ) → Fits ps cs → Fits qs ds → Fits (ps ++ qs) (cs ++ ds)
Fits-append [] [] qs ds h k = k
Fits-append (p ∷ ps) (c ∷ cs) qs ds h k = (h.0, Fits-append ps cs qs ds h.1 k)
Fits-append [] (c ∷ cs) qs ds h k = absurd h
Fits-append (p ∷ ps) [] qs ds h k = absurd h

-- A text whose characters fit a form.
record Shaped (ps : List ℕ) (s : String) : Type 0 where
  shaped : Fits ps (codes s)

Shaped-append :
    {ps qs : List ℕ} {s t : String} → Shaped ps s → Shaped qs t → Shaped (ps ++ qs) (s <> t)
Shaped-append {ps} {qs} {s} {t} h k = record {
  shaped = rw (codes-append s t) (Fits-append ps (codes s) qs (codes t) h.shaped k.shaped);
}

dash : Shaped (b'-' ∷ []) "-"
dash = record { shaped = (refl, tt) }

version : Shaped (b'-' ∷ b'4' ∷ []) "-4"
version = record { shaped = (refl, (refl, tt)) }

module _ {G : Type 0} (dice : Dice G) where
  draws-Shaped : (n : ℕ) (g : G) → Shaped (replicate n b'x') (draws dice n g).0
  unfolding draws
  draws-Shaped zero g = record { shaped = tt }
  draws-Shaped (suc n) g =
      let first : Shaped (b'x' ∷ []) (hex_digit (dice.dis g).0) = record {
        shaped = hex_digit-Fits (dice.dis g).0 (dice.dis_bound g);
      } in
      Shaped-append first (draws-Shaped n (dice.dis g).1)

  variant-Shaped : (g : G) → Shaped (b'y' ∷ []) (hex_digit (dice.dis2 g).0)
  variant-Shaped g = record {
    shaped = variant-Fits (dice.dis2 g).0 (dice.dis2_bound g).0 (dice.dis2_bound g).1;
  }

  -- Whatever the generator draws, the id is a text of the form of a version 4 UUID: hexadecimal digits
  -- in five groups of 8, 4, 4, 4 and 12, with the version 4 and one of the four variant digits.
  pub generate_uuid-Fits : (g : G) → Fits (codes uuid_form) (codes (generate_uuid dice g).0)
  unfolding generate_uuid
  generate_uuid-Fits g =
      let g₁ = (draws dice 8 g).1 in
      let g₂ = (draws dice 4 g₁).1 in
      let g₃ = (draws dice 3 g₂).1 in
      let g₄ = (dice.dis2 g₃).1 in
      let g₅ = (draws dice 3 g₄).1 in
      let digits = draws-Shaped in
      let last_two = Shaped-append (digits 3 g₄) (Shaped-append dash (digits 12 g₅)) in
      let last_three = Shaped-append dash (Shaped-append (variant-Shaped g₃) last_two) in
      let last_four = Shaped-append version (Shaped-append (digits 3 g₂) last_three) in
      let last_five = Shaped-append dash (Shaped-append (digits 4 g₁) last_four) in
      (Shaped-append (digits 8 g) last_five).shaped
