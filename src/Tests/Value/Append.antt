-- ===== src/Tests/Value/Append.antt =====
-- What `append_to` of the value does to its members.
use mathlib.Core.Path.{subst}
use quote_server.Base.{
  String, ◌≡◌, refl, sym, ap, ◌∙◌, true, false, Option, none, some, List, [], ◌∷◌, ◌++◌, ok, arith,
  eq_iff, ◌==◌, has, if◌then◌else◌, Bool-cases, inl, inr, >>=-eq-ok, ok-injective,
}
use quote_server.Tests.Value.Defs.{
  Value, Fields, Items, obj, arr, str, num, null, field, end, cons, nil, find_field, items_list,
  snoc, append_field, append_to_of, contains_key, at_key, elements_of, or_fault,
}

abbrev old_items : Option Value → Items
old_items (some (arr vs)) = vs
old_items _ = nil

absent : (o : Option Value) → has o ≡ false → o ≡ none
absent none e = refl
absent (some v) e = cc

present : (o : Option Value) (w : Value) → or_fault o ≡ ok w → o ≡ some w
present none w e = cc
present (some v) w e = cc

items_list-snoc : (vs : Items) (m : Value) → items_list (snoc vs m) ≡ items_list vs ++ m ∷ []
items_list-snoc nil m = refl
items_list-snoc (cons v vs) m = ap (λ (ws : List Value). v ∷ ws) (items_list-snoc vs m)

found_here :
    (k o j : String) (m v : Value) (fs gs : Fields)
    → (j == k) ≡ true
    → append_field k m (field j v fs) ≡ ok gs
    → find_field o gs
      ≡ (if k == o then some (arr (snoc (old_items (some v)) m)) else find_field o (field j v fs))
found_here k o j m (arr vs) fs gs same e = ground (arith, eq_iff j k, eq_iff j o, eq_iff k o)
found_here k o j m null fs gs same e = absurd (ground arith)
found_here k o j m (num n) fs gs same e = absurd (ground arith)
found_here k o j m (str s) fs gs same e = absurd (ground arith)
found_here k o j m (obj hs) fs gs same e = absurd (ground arith)

found :
    (k o : String) (m : Value) (fs gs : Fields)
    → append_field k m fs ≡ ok gs
    → find_field o gs
      ≡ (if k == o then some (arr (snoc (old_items (find_field k fs)) m)) else find_field o fs)
found k o m end gs e = ground arith
found k o m (field j v fs) gs e = elim (Bool-cases (j == k)) [
  | inl same ↦ rw same (found_here k o j m v fs gs same e)
  | inr other ↦
      let (hs, rest, done) = >>=-eq-ok (append_field k m fs) _ (rw other at e) in
      ground (arith, found k o m fs hs rest, eq_iff j k, eq_iff j o, eq_iff k o)
]

elements_here :
    (k j : String) (m v : Value) (fs gs : Fields)
    → (j == k) ≡ true
    → append_field k m (field j v fs) ≡ ok gs
    → elements_of v ≡ items_list (old_items (some v))
elements_here k j m (arr vs) fs gs same e = refl
elements_here k j m null fs gs same e = refl
elements_here k j m (num n) fs gs same e = absurd (ground arith)
elements_here k j m (str s) fs gs same e = absurd (ground arith)
elements_here k j m (obj hs) fs gs same e = absurd (ground arith)

old_elements :
    (k : String) (m w : Value) (fs gs : Fields)
    → append_field k m fs ≡ ok gs
    → find_field k fs ≡ some w
    → elements_of w ≡ items_list (old_items (some w))
old_elements k m w end gs e there = cc
old_elements k m w (field j v fs) gs e there = elim (Bool-cases (j == k)) [
  | inl same ↦
      let first : v ≡ w = ground arith in
      subst (λ u. elements_of u ≡ items_list (old_items (some u))) first
        (elements_here k j m v fs gs same e)
  | inr other ↦
      let (hs, rest, done) = >>=-eq-ok (append_field k m fs) _ (rw other at e) in
      old_elements k m w fs hs rest (ground arith)
]

-- Appending succeeds for objects only.
appended :
    (k : String) (m j j' : Value)
    → append_to_of k m j ≡ ok j'
    → (fs : Fields) × (gs : Fields) × (j ≡ obj fs) × (j' ≡ obj gs) × (append_field k m fs ≡ ok gs)
appended k m (obj fs) j' e =
    let (gs, put, done) = >>=-eq-ok (append_field k m fs) _ e in
    (fs, gs, refl, sym (ok-injective done), put)
appended k m null j' e = cc
appended k m (num n) j' e = cc
appended k m (str s) j' e = cc
appended k m (arr vs) j' e = cc

pub contains_key-append_to :
    (k o : String) (m j j' : Value)
    → append_to_of k m j ≡ ok j'
    → contains_key j' o ≡ (if k == o then true else contains_key j o)
contains_key-append_to k o m j j' e =
    let (fs, gs, before, after, put) = appended k m j j' e in
    ground (arith, found k o m fs gs put, before, after)

pub at_key-append_to_ne :
    (k o : String) (m j j' : Value)
    → append_to_of k m j ≡ ok j'
    → (k == o) ≡ false
    → at_key j' o ≡ at_key j o
at_key-append_to_ne k o m j j' e ne =
    let (fs, gs, before, after, put) = appended k m j j' e in
    ground (arith, found k o m fs gs put, before, after)

pub at_key-append_to_new :
    (k : String) (m j j' : Value)
    → append_to_of k m j ≡ ok j'
    → contains_key j k ≡ false
    → (v : Value) × (at_key j' k ≡ ok v) × (elements_of v ≡ m ∷ [])
at_key-append_to_new k m j j' e missing =
    let (fs, gs, before, after, put) = appended k m j j' e in
    let none_there : find_field k fs ≡ none = absent (find_field k fs) (rw before at missing) in
    (arr (cons m nil), rw after (ground (arith, found k k m fs gs put, eq_iff k k)), refl)

pub at_key-append_to_self :
    (k : String) (m j j' w : Value)
    → append_to_of k m j ≡ ok j'
    → at_key j k ≡ ok w
    → (v : Value) × (at_key j' k ≡ ok v) × (elements_of v ≡ elements_of w ++ m ∷ [])
at_key-append_to_self k m j j' w e there =
    let (fs, gs, before, after, put) = appended k m j j' e in
    let some_there : find_field k fs ≡ some w = present (find_field k fs) w (rw before at there) in
    (
      arr (snoc (old_items (some w)) m),
      rw after (ground (arith, found k k m fs gs put, eq_iff k k)),
      items_list-snoc (old_items (some w)) m
          ∙ ap (λ (vs : List Value). vs ++ m ∷ []) (sym (old_elements k m w fs gs put some_there)),
    )
