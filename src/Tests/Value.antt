-- ===== src/Tests/Value.antt =====
-- A small JSON value that keeps what the development assumes of nlohmann::json. Texts are parsed by a
-- table that a test gives.
mod Defs
mod Append
unfoldable pub use Defs.*
use Append.{
  contains_key-append_to, at_key-append_to_ne, at_key-append_to_new, at_key-append_to_self,
}
use mathlib.Core.List.{Memᴰ}
use Prim.Native.Nat.{max}
use quote_server.Base.{
  String, ℕ, suc, ◌<◌, ◌≤◌, ◌^◌, ◌≡◌, refl, ap, Bool, true, false, Option, none, some, List, [],
  ◌∷◌, Result, ok, err, type_error, undefined, too_deep, ◌≢◌, arith, eq_iff, ◌==◌, ltb, has,
  get_elem?, if◌then◌else◌, ◌>>=◌, Option-cases, Bool-cases, inl, inr, ◌↔◌, ok-injective,
}
use quote_server.Base.Dict.{find}
use quote_server.Base.Floating.{Floating}
use quote_server.FeedMessageHandler.Ends.{IsOutside}
use quote_server.Json.{Json, JsonLaws}

unfoldable mutual
  pub depth_of : Value → ℕ
  depth_of null = 0
  depth_of (num n) = 0
  depth_of (str s) = 0
  depth_of (arr vs) = suc (depth_items vs)
  depth_of (obj fs) = suc (depth_fields fs)

  depth_items : Items → ℕ
  depth_items nil = 0
  depth_items (cons v vs) = max (depth_of v) (depth_items vs)

  depth_fields : Fields → ℕ
  depth_fields end = 0
  depth_fields (field k v fs) = max (depth_of v) (depth_fields fs)

depth_items-le : (x : Value) (vs : Items) → Memᴰ x (items_list vs) → depth_of x ≤ depth_items vs
unfolding depth_of
depth_items-le x nil m = elim m [ ]
depth_items-le x (cons v vs) (Memᴰ.head e) = omega (arith, ap depth_of e)
depth_items-le x (cons v vs) (Memᴰ.tail m) = omega (arith, depth_items-le x vs m)

depth_elements-le : (x v : Value) → Memᴰ x (elements_of v) → depth_of x ≤ depth_of v
unfolding depth_of
depth_elements-le x null m = elim m [ ]
depth_elements-le x (num n) (Memᴰ.head e) = omega (arith, ap depth_of e)
depth_elements-le x (num n) (Memᴰ.tail m) = elim m [ ]
depth_elements-le x (str s) (Memᴰ.head e) = omega (arith, ap depth_of e)
depth_elements-le x (str s) (Memᴰ.tail m) = elim m [ ]
depth_elements-le x (arr vs) m = omega (arith, depth_items-le x vs m)
depth_elements-le x (obj fs) (Memᴰ.head e) = omega (arith, ap depth_of e)
depth_elements-le x (obj fs) (Memᴰ.tail m) = elim m [ ]

depth_field-le :
    (k : String) (v : Value) (fs : Fields) → find_field k fs ≡ some v → depth_of v ≤ depth_fields fs
unfolding depth_of
depth_field-le k v end e = cc
depth_field-le k v (field j w fs) e = ground (arith, depth_field-le k v fs)

depth_at_key :
    (j v x : Value) (k : String)
    → at_key j k ≡ ok v
    → Memᴰ x (elements_of v)
    → depth_of x < depth_of j
unfolding depth_of
depth_at_key (obj fs) v x k e m = elim (Option-cases (find_field k fs)) [
  | inl missing ↦ absurd (ground arith)
  | inr (w, there) ↦
      let same : w ≡ v = ground arith in
      omega (arith, depth_field-le k w fs there, depth_elements-le x v m, ap depth_of same)
]
depth_at_key null v x k e m = cc
depth_at_key (num n) v x k e m = cc
depth_at_key (str s) v x k e m = cc
depth_at_key (arr vs) v x k e m = cc

find_field-fields_of :
    (k : String) (fs : List (String × Value)) → find_field k (fields_of fs) ≡ find k fs
unfolding find
find_field-fields_of k [] = refl
find_field-fields_of k ((j, v) ∷ fs) = rw (find_field-fields_of k fs)

items_list-items_of : (vs : List Value) → items_list (items_of vs) ≡ vs
items_list-items_of [] = refl
items_list-items_of (v ∷ vs) = ap (λ (ws : List Value). v ∷ ws) (items_list-items_of vs)

member_of-present : (j : Value) (k : String) → contains_key j k ≡ true → member_of j k ≡ at_key j k
member_of-present (obj fs) k e = ground arith
member_of-present _ k e = cc

member_of-missing :
    (j : Value) (k other : String)
    → contains_key j other ≡ true
    → contains_key j k ≡ false
    → (member_of j k >>= string_of) ≡ err type_error
member_of-missing (obj fs) k other there missing = ground arith
member_of-missing _ k other there missing = cc

is_text_of_iff : (j : Value) (s : String) → (is_text_of j s ≡ true) ↔ (string_of j ≡ ok s)
is_text_of_iff (str t) s = (λ e. ap ok ((eq_iff t s).0 e), λ e. (eq_iff t s).1 (ok-injective e))
is_text_of_iff null s = ((λ e. cc), (λ e. cc))
is_text_of_iff _ s = ((λ e. cc), (λ e. cc))

ulong_of-lt : (j : Value) (n : ℕ) → ulong_of j ≡ ok n → n < 2 ^ 64
ulong_of-lt (num m) n e = ground arith
ulong_of-lt _ n e = cc

item_of-array :
    (vs : List Value) (i : ℕ) (v : Value)
    → get_elem? vs i ≡ some v
    → item_of (arr (items_of vs)) i ≡ ok v
item_of-array vs i v e = rw (items_list-items_of vs, e)

ulong_of-num : (n : ℕ) → n < 2 ^ 64 → ulong_of (num n) ≡ ok n
ulong_of-num n h = ground arith

pub value_laws : (table : String → Result Value) → JsonLaws (value_json table)
value_laws table = record {
  ulong_bound = ulong_of-lt;
  member_present = member_of-present;
  member_missing = member_of-missing;
  is_text_iff = is_text_of_iff;
  depth = depth_of;
  depth-at = depth_at_key;
  contains-object = λ fs k. ap has (find_field-fields_of k fs);
  at-object = λ fs k v e. rw (find_field-fields_of k fs, e);
  elements-array = items_list-items_of;
  item-array = item_of-array;
  contains-append_to = contains_key-append_to;
  at-append_to_ne = at_key-append_to_ne;
  at-append_to_new = at_key-append_to_new;
  at-append_to_self = at_key-append_to_self;
  get_string-text = λ s. refl;
  get_ulong-number = ulong_of-num;
}

found-outside : (o : Option Value) → or_fault o ≢ err too_deep
found-outside none = λ e. cc
found-outside (some v) = λ e. cc

at-outside : (j : Value) (key : String) → at_key j key ≢ err too_deep
at-outside null key = λ e. cc
at-outside (num n) key = λ e. cc
at-outside (str s) key = λ e. cc
at-outside (arr vs) key = λ e. cc
at-outside (obj fs) key = found-outside (find_field key fs)

item-outside : (j : Value) (i : ℕ) → item_of j i ≢ err too_deep
item-outside null i = λ e. cc
item-outside (num n) i = λ e. cc
item-outside (str s) i = λ e. cc
item-outside (arr vs) i = found-outside (get_elem? (items_list vs) i)
item-outside (obj fs) i = λ e. cc

text-outside : (j : Value) → string_of j ≢ err too_deep
text-outside null = λ e. cc
text-outside (num n) = λ e. cc
text-outside (str s) = λ e. cc
text-outside (arr vs) = λ e. cc
text-outside (obj fs) = λ e. cc

number-outside : (j : Value) → ulong_of j ≢ err too_deep
number-outside null = λ e. cc
number-outside (num n) = elim (Bool-cases (ltb n (2 ^ 64))) [
  | inl low ↦ rw low (λ e. cc)
  | inr high ↦ rw high (λ e. cc)
]
number-outside (str s) = λ e. cc
number-outside (arr vs) = λ e. cc
number-outside (obj fs) = λ e. cc

pub value_laws-depth :
    (table : String → Result Value) (v : Value) → (value_laws table).depth v ≡ depth_of v
unfolding value_laws
value_laws-depth table v = refl

-- No call of this instance runs out of fuel.
pub value_json-IsOutside :
    {F : Type 0} (table : String → Result Value) (f : Floating F)
    → ((s : String) → f.stod s ≢ err too_deep)
    → IsOutside (value_json table) f
value_json-IsOutside table f stod = record {
  at = λ j key. at-outside j key;
  item = λ j i. item-outside j i;
  get_string = λ j. text-outside j;
  get_ulong = λ j. number-outside j;
  stod = stod;
}
