-- ===== src/Tests/Value/Defs.antt =====
-- The value and the calls of nlohmann::json on it.
use quote_server.Base.{
  String, ℕ, ◌^◌, Bool, false, Option, none, some, List, [], ◌∷◌, Result, ok, err, type_error,
  undefined, ◌==◌, ltb, has, get_elem?, if◌then◌else◌, ◌>>=◌,
}
use quote_server.Json.{Json}

mutual
  pub data Value : Type 0 where
    obj : Fields → Value
    arr : Items → Value
    str : String → Value
    num : ℕ → Value
    null : Value

  pub data Fields : Type 0 where
    field : String → Value → Fields → Fields
    end : Fields

  pub data Items : Type 0 where
    cons : Value → Items → Items
    nil : Items

abbrev pub find_field : String → Fields → Option Value
find_field k end = none
find_field k (field j v fs) = if j == k then some v else find_field k fs

abbrev pub items_list : Items → List Value
items_list nil = []
items_list (cons v vs) = v ∷ items_list vs

abbrev pub items_of : List Value → Items
items_of [] = nil
items_of (v ∷ vs) = cons v (items_of vs)

abbrev pub fields_of : List (String × Value) → Fields
fields_of [] = end
fields_of ((k, v) ∷ fs) = field k v (fields_of fs)

abbrev pub snoc : Items → Value → Items
snoc nil m = cons m nil
snoc (cons v vs) m = cons v (snoc vs m)

abbrev pub append_field : String → Value → Fields → Result Fields
append_field k m end = ok (field k (arr (cons m nil)) end)
append_field k m (field j v fs) =
    let rest = (do fs' ← append_field k m fs; ok (field j v fs')) in
    if j == k
    then (elim v [ arr vs ↦ ok (field j (arr (snoc vs m)) fs) | _ ↦ err type_error ])
    else rest

abbrev pub contains_key : Value → String → Bool
contains_key (obj fs) k = has (find_field k fs)
contains_key _ k = false

abbrev pub or_fault : Option Value → Result Value
or_fault none = err undefined
or_fault (some v) = ok v

abbrev pub or_null : Option Value → Result Value
or_null none = ok null
or_null (some v) = ok v

abbrev pub at_key : Value → String → Result Value
at_key (obj fs) k = or_fault (find_field k fs)
at_key _ k = err undefined

abbrev pub member_of : Value → String → Result Value
member_of (obj fs) k = or_null (find_field k fs)
member_of null k = ok null
member_of _ k = err type_error

abbrev pub item_of : Value → ℕ → Result Value
item_of (arr vs) i = or_fault (get_elem? (items_list vs) i)
item_of _ i = err type_error

abbrev pub elements_of : Value → List Value
elements_of null = []
elements_of (arr vs) = items_list vs
elements_of v = v ∷ []

abbrev pub string_of : Value → Result String
string_of (str s) = ok s
string_of _ = err type_error

abbrev pub ulong_of : Value → Result ℕ
ulong_of (num n) = if ltb n (2 ^ 64) then ok n else err type_error
ulong_of _ = err type_error

abbrev pub is_text_of : Value → String → Bool
is_text_of (str t) s = t == s
is_text_of _ s = false

abbrev pub append_to_of : String → Value → Value → Result Value
append_to_of k m (obj fs) = do fs' ← append_field k m fs; ok (obj fs')
append_to_of k m _ = err type_error

abbrev pub value_json : (String → Result Value) → Json Value
value_json table = record {
  parse = table;
  dump = λ v. "";
  contains = contains_key;
  at = at_key;
  member = member_of;
  item = item_of;
  elements = elements_of;
  get_string = string_of;
  get_ulong = ulong_of;
  is_text = is_text_of;
  object = λ fs. obj (fields_of fs);
  array = λ vs. arr (items_of vs);
  text = str;
  number = num;
  append_to = append_to_of;
}
