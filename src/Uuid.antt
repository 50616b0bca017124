-- ===== src/Uuid.antt =====
-- src/utils/uuid.cpp: the ids that clients are registered under. The generator and its two uniform
-- distributions are the standard library's: a draw takes the generator's state and leaves the next.
pub mod Shape
use quote_server.Base.{String, ◌<>◌, ℕ, zero, suc, ◌≤◌, nat_eq, if◌then◌else◌}

-- `gen`, with `dis(gen)` and `dis2(gen)`, which are documented to give numbers of their ranges.
pub record Dice (G : Type 0) : Type 0 where
  pub dis : G → ℕ × G
  pub dis2 : G → ℕ × G
  pub dis_bound : (g : G) → (dis g).0 ≤ 15
  pub dis2_bound : (g : G) → (8 ≤ (dis2 g).0) × ((dis2 g).0 ≤ 11)

-- `ss << std::hex << n` of a number below 16
unfoldable pub hex_digit : ℕ → String
hex_digit n =
    if nat_eq n 0
    then "0"
    else if nat_eq n 1
    then "1"
    else if nat_eq n 2
    then "2"
    else if nat_eq n 3
    then "3"
    else if nat_eq n 4
    then "4"
    else if nat_eq n 5
    then "5"
    else if nat_eq n 6
    then "6"
    else if nat_eq n 7
    then "7"
    else if nat_eq n 8
    then "8"
    else if nat_eq n 9
    then "9"
    else if nat_eq n 10
    then "a"
    else if nat_eq n 11
    then "b"
    else if nat_eq n 12
    then "c"
    else if nat_eq n 13
    then "d"
    else if nat_eq n 14
    then "e"
    else "f"

module _ {G : Type 0} (dice : Dice G) where
  -- `for (i = 0; i < n; i++) { ss << dis(gen); }`: what is written, and the generator afterwards
  unfoldable pub draws : ℕ → G → String × G
  draws zero g = ("", g)
  draws (suc n) g =
      let (d, g') = dice.dis g in let (rest, g'') = draws n g' in (hex_digit d <> rest, g'')

  unfoldable pub generate_uuid : G → String × G
  generate_uuid g =
      let (a, g₁) = draws 8 g in
      let (b, g₂) = draws 4 g₁ in
      let (c, g₃) = draws 3 g₂ in
      let (variant, g₄) = dice.dis2 g₃ in
      let (d, g₅) = draws 3 g₄ in
      let (e, g₆) = draws 12 g₅ in
      (a <> "-" <> b <> "-4" <> c <> "-" <> hex_digit variant <> d <> "-" <> e, g₆)
