-- ===== src/Tests/Ids.antt =====
-- The ids of clients, with a generator that counts.
use quote_server.Base.{ℕ, suc, ◌≡◌, refl, ◌%◌, ◌+◌, arith}
use quote_server.Uuid.{Dice, hex_digit, draws, generate_uuid}
use quote_server.Uuid.Shape.{codes, uuid_form, Fits, generate_uuid-Fits}

abbrev counting : Dice ℕ
counting = record {
  dis = λ n. (n % 16, suc n);
  dis2 = λ n. (8 + n % 4, suc n);
  dis_bound = λ n. omega arith;
  dis2_bound = λ n. (omega arith, omega arith);
}

counted : (generate_uuid counting 5).0 ≡ "56789abc-def0-4123-8567-89abcdef0123"
unfolding generate_uuid draws hex_digit
counted = refl

generate_uuid-Fits_example : Fits (codes uuid_form) (codes (generate_uuid counting 5).0)
generate_uuid-Fits_example = generate_uuid-Fits counting 5
