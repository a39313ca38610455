-- ===== src/Json/Document/Laws.antt =====
-- The equality of documents of Json.Document on numbers and texts, and the members of lists.
use bytedesk_agent_delivery.Prelude.{
  ℕ, zero, suc, ◌≡◌, refl, sym, ap, Text, true, Option, none, some, Bool-cases, inl, inr, arith,
  ◌&&◌, List, [], ◌∷◌, ◌=ₜ◌, pos, negsuc, ==→eq, =ₜ→eq, =ₜ-refl,
}
use bytedesk_agent_delivery.Json.{
  Value, null, boolean, integer, floating, string, array, object, other, Items, nil, cons,
}
use bytedesk_agent_delivery.Json.Document.{
  number, equal, equal_int, contains, all_contained, get, member,
}

-- Equality with a number or a text is identity.
pub equal-number : (n : ℕ) (v : Value) → equal (number n) v ≡ true → v ≡ number n
unfolding equal equal_int
equal-number n (integer (pos m)) h = ap number (sym (==→eq n m h))
equal-number n (integer (negsuc m)) h = cc
equal-number n null h = cc
equal-number n (boolean b) h = cc
equal-number n (floating f) h = cc
equal-number n (string t) h = cc
equal-number n (array i) h = cc
equal-number n (object f) h = cc
equal-number n other h = cc

pub equal-string : (s : Text) (v : Value) → equal (string s) v ≡ true → v ≡ string s
unfolding equal
equal-string s (string t) h = ap string (sym (=ₜ→eq s t h))
equal-string s (integer m) h = cc
equal-string s null h = cc
equal-string s (boolean b) h = cc
equal-string s (floating f) h = cc
equal-string s (array i) h = cc
equal-string s (object f) h = cc
equal-string s other h = cc

pub equal-string_refl : (s : Text) → equal (string s) (string s) ≡ true
unfolding equal
equal-string_refl s = =ₜ-refl s

pub equal-to_string : (v : Value) (s : Text) → equal v (string s) ≡ true → v ≡ string s
unfolding equal
equal-to_string (string t) s h = ap string (=ₜ→eq t s h)
equal-to_string (integer m) s h = cc
equal-to_string null s h = cc
equal-to_string (boolean b) s h = cc
equal-to_string (floating f) s h = cc
equal-to_string (array i) s h = cc
equal-to_string (object f) s h = cc
equal-to_string other s h = cc

pub equal-to_null : (v : Value) → equal v null ≡ true → v ≡ null
unfolding equal
equal-to_null null h = refl
equal-to_null (string t) h = cc
equal-to_null (integer m) h = cc
equal-to_null (boolean b) h = cc
equal-to_null (floating f) h = cc
equal-to_null (array i) h = cc
equal-to_null (object f) h = cc
equal-to_null other h = cc

-- A member that is there is what `get` gives.
pub member-get : (k : Text) (v : Value) {x : Value} → member k v ≡ some x → get k v ≡ x
unfolding get member
member-get k (object fields) h = rw (h, get) refl
member-get k null h = cc
member-get k (boolean b) h = cc
member-get k (integer n) h = cc
member-get k (floating f) h = cc
member-get k (string t) h = cc
member-get k (array items) h = cc
member-get k other h = cc

-- Lists of texts with the same members.
pub same-name : (k x : Text) → (k =ₜ x) ≡ true → (z : List Text) → contains k z ≡ contains x z
same-name k x h z = ap (λ t. contains t z) (=ₜ→eq k x h)

contains-all_contained :
    (x : Text) (as' bs : List Text)
    → all_contained as' bs ≡ true
    → contains x as' ≡ true
    → contains x bs ≡ true
unfolding contains all_contained
contains-all_contained x [] bs h m = cc
contains-all_contained x (a ∷ as') bs h m = elim (Bool-cases (a =ₜ x)) [
  | inl e ↦ ground (arith, same-name a x e bs)
  | inr e ↦ ground (arith, contains-all_contained x as' bs)
]

pub contains-same :
    (x : Text) (as' bs : List Text)
    → (all_contained as' bs && all_contained bs as') ≡ true
    → contains x as' ≡ contains x bs
contains-same x as' bs h =
    ground (arith, contains-all_contained x as' bs, contains-all_contained x bs as')

-- The item of a list at a position.
unfoldable pub item_at : ℕ → Items → Option Value
item_at i nil = none
item_at zero (cons x rest) = some x
item_at (suc i) (cons x rest) = item_at i rest
