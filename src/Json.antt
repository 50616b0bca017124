-- ===== src/Json.antt =====
-- nlohmann::json, which the repository does not hold: the calls that the program makes are the
-- fields of `Json`, an instance argument of the model, and what the proofs use of the library's
-- documentation is in `JsonLaws`.
use quote_server.Base.{
  String, ℕ, ◌<◌, ◌≡◌, Bool, true, false, List, [], ◌∷◌, ◌++◌, Result, ok, err, type_error, ◌>>=◌,
  ◌^◌, ◌==◌, if◌then◌else◌,
}
use mathlib.Core.List.{Memᴰ}
use quote_server.Base.{get_elem?, has, some, ◌↔◌}
use quote_server.Base.Dict.{find}

pub record Json (J : Type 0) : Type 0 where
  -- `json::parse(s)`, which throws `parse_error`
  pub parse : String → Result J
  -- `j.dump()`
  pub dump : J → String
  -- `j.contains(key)`: false where `j` is no object
  pub contains : J → String → Bool
  -- `j[key]` of a const `j`: undefined for a missing key
  pub at : J → String → Result J
  -- `j[key]` of a `j` that is not const: a missing key of an object becomes null
  pub member : J → String → Result J
  -- `j[i]` of a const array
  pub item : J → ℕ → Result J
  -- the values that `for(const auto& x: j)` visits
  pub elements : J → List J
  -- `j.get<std::string>()` and `j.get<unsigned long>()`, which throw `type_error`
  pub get_string : J → Result String
  pub get_ulong : J → Result ℕ
  -- `j == "text"`
  pub is_text : J → String → Bool
  -- the literals `{{"key", value}, ...}` and `[value, ...]`, a text and a number in one
  pub object : List (String × J) → J
  pub array : List J → J
  pub text : String → J
  pub number : ℕ → J
  -- `j[key].push_back(m)`, and the value of `j` afterwards
  pub append_to : String → J → J → Result J

-- The calls as functions of an instance.
module _ {J : Type 0} ⦃json : Json J⦄ where
  -- `j[key].get<std::string>()` and `j[key].get<unsigned long>()` of a const `j`
  abbrev pub string_at : J → String → Result String
  string_at j key = do value ← json.at j key; json.get_string value

  abbrev pub ulong_at : J → String → Result ℕ
  ulong_at j key = do value ← json.at j key; json.get_ulong value

  -- the same of a `j` that is not const
  abbrev pub string_member : J → String → Result String
  string_member j key = do value ← json.member j key; json.get_string value

  abbrev pub ulong_member : J → String → Result ℕ
  ulong_member j key = do value ← json.member j key; json.get_ulong value

-- The documented behaviour that the proofs rely on.
pub record JsonLaws {J : Type 0} (json : Json J) : Type 0 where
  -- an `unsigned long` has 64 bits
  pub ulong_bound : (j : J) (n : ℕ) → json.get_ulong j ≡ ok n → n < 2 ^ 64
  -- a key that is there is read alike through a const and another reference
  pub member_present :
      (j : J) (key : String) → json.contains j key ≡ true → json.member j key ≡ json.at j key
  -- a missing key of an object reads as null, which is no text
  pub member_missing :
      (j : J) (key other : String)
      → json.contains j other ≡ true
      → json.contains j key ≡ false
      → (json.member j key >>= json.get_string) ≡ err type_error
  -- `j == "text"` holds of the text itself and of nothing else
  pub is_text_iff : (j : J) (s : String) → (json.is_text j s ≡ true) ↔ (json.get_string j ≡ ok s)
  -- a parsed value is a finite tree: `depth` bounds how deep it nests
  pub depth : J → ℕ
  pub depth-at :
      (j value x : J) (key : String)
      → json.at j key ≡ ok value
      → Memᴰ x (json.elements value)
      → depth x < depth j
  -- what is read of a literal
  pub contains-object :
      (fields : List (String × J)) (key : String)
      → json.contains (json.object fields) key ≡ has (find key fields)
  pub at-object :
      (fields : List (String × J)) (key : String) (value : J)
      → find key fields ≡ some value
      → json.at (json.object fields) key ≡ ok value
  pub elements-array : (xs : List J) → json.elements (json.array xs) ≡ xs
  pub item-array :
      (xs : List J) (i : ℕ) (x : J) → get_elem? xs i ≡ some x → json.item (json.array xs) i ≡ ok x
  -- `j[key].push_back(m)` touches no other key, and puts `m` behind what the key had, if anything
  pub contains-append_to :
      (key other : String) (m j k : J)
      → json.append_to key m j ≡ ok k
      → json.contains k other ≡ (if key == other then true else json.contains j other)
  pub at-append_to_ne :
      (key other : String) (m j k : J)
      → json.append_to key m j ≡ ok k
      → (key == other) ≡ false
      → json.at k other ≡ json.at j other
  pub at-append_to_new :
      (key : String) (m j k : J)
      → json.append_to key m j ≡ ok k
      → json.contains j key ≡ false
      → (v : J) × (json.at k key ≡ ok v) × (json.elements v ≡ m ∷ [])
  pub at-append_to_self :
      (key : String) (m j k w : J)
      → json.append_to key m j ≡ ok k
      → json.at j key ≡ ok w
      → (v : J) × (json.at k key ≡ ok v) × (json.elements v ≡ json.elements w ++ m ∷ [])
  pub get_string-text : (s : String) → json.get_string (json.text s) ≡ ok s
  pub get_ulong-number : (n : ℕ) → n < 2 ^ 64 → json.get_ulong (json.number n) ≡ ok n
