-- ===== src/Bundle/Laws.antt =====
-- What `validate_portable_path_set` of scripts/contracts/bundle_profile.py accepts.
use bytedesk_agent_delivery.Prelude.{
  ℕ, zero, suc, ◌<◌, ◌≡◌, refl, sym, ap, Text, Bool, true, false, not, ◌||◌, List, [], ◌∷◌, some,
  ok, get_elem?, ◌=ₜ◌, =ₜ→eq, =ₜ-refl, arith, Bool-cases, inl, inr, >>=-eq-ok, require-eq-ok,
}
use bytedesk_agent_delivery.Json.Document.{contains}
use bytedesk_agent_delivery.Bundle.{
  duplicate_path, colliding_paths, Unicode, portable_path_collision_key, previous, agrees,
  validate_paths, validate_portable_path_set,
}

-- One round of the loop.
record Round (u : Unicode) (exact : List Text) (collision_keys : List (Text × Text)) (value : Text)
    (paths : List Text) : Type 0 where
  fresh : contains value exact ≡ false
  key : Text
  key_at : portable_path_collision_key u value ≡ ok key
  agreed : agrees (previous key collision_keys) value ≡ true
  further : validate_paths u (value ∷ exact) ((key, value) ∷ collision_keys) paths ≡ ok tt

not-true : (b : Bool) → not b ≡ true → b ≡ false
not-true true h = cc
not-true false h = refl

validate_paths-Round :
    (u : Unicode) (exact : List Text) (collision_keys : List (Text × Text)) (value : Text)
    (paths : List Text)
    → validate_paths u exact collision_keys (value ∷ paths) ≡ ok tt
    → Round u exact collision_keys value paths
unfolding validate_paths
validate_paths-Round u exact collision_keys value paths h =
    let (fresh, h1) = require-eq-ok (not (contains value exact)) duplicate_path _ h in
    let (key, key_at, h2) = >>=-eq-ok (portable_path_collision_key u value) _ h1 in
    let (agreed, h3) =
      require-eq-ok (agrees (previous key collision_keys) value) colliding_paths _ h2 in
    record {
      fresh = not-true (contains value exact) fresh;
      key = key;
      key_at = key_at;
      agreed = agreed;
      further = h3;
    }

-- Every path that has a collision key in the map has been recorded.
Recorded : List Text → List (Text × Text) → Type 0
Recorded exact [] = Unit {0}
Recorded exact ((k, value) ∷ rest) = (contains value exact ≡ true) × Recorded exact rest

unfoldable contains_key : Text → List (Text × Text) → Bool
unfolding ◌=ₜ◌
contains_key key [] = false
contains_key key ((k, value) ∷ rest) = k =ₜ key || contains_key key rest

Recorded-cons :
    (v : Text) (exact : List Text) (m : List (Text × Text))
    → Recorded exact m
    → Recorded (v ∷ exact) m
unfolding Recorded contains
Recorded-cons v exact [] r = tt
Recorded-cons v exact ((k, w) ∷ rest) r = (ground arith, Recorded-cons v exact rest r.1)

-- A path that has not been recorded agrees with no key of the map.
fresh-key :
    (key v : Text) (exact : List Text) (m : List (Text × Text))
    → Recorded exact m
    → contains v exact ≡ false
    → agrees (previous key m) v ≡ true
    → contains_key key m ≡ false
unfolding Recorded contains_key previous
fresh-key key v exact [] r f a = refl
fresh-key key v exact ((k, w) ∷ rest) r f a = elim (Bool-cases (k =ₜ key)) [
  | inl e ↦
      let same : w ≡ v = =ₜ→eq w v (ground arith) in ground (arith, ap (λ t. contains t exact) same)
  | inr e ↦ ground (arith, fresh-key key v exact rest r.1 f)
]

-- A path further on has neither a recorded text nor a recorded key.
validate_paths-fresh :
    (u : Unicode) (exact : List Text) (m : List (Text × Text)) (paths : List Text) (i : ℕ)
    (v : Text)
    → Recorded exact m
    → validate_paths u exact m paths ≡ ok tt
    → get_elem? paths i ≡ some v
    → (contains v exact ≡ false)
      × (key : Text) × (portable_path_collision_key u v ≡ ok key)
      × (contains_key key m ≡ false)
unfolding contains contains_key Recorded
validate_paths-fresh u exact m [] i v r h at = cc
validate_paths-fresh u exact m (value ∷ paths) zero v r h at =
    let x = validate_paths-Round u exact m value paths h in
    let e : value ≡ v = cc in
    rw (sym e) (x.fresh, x.key, x.key_at, fresh-key x.key value exact m r x.fresh x.agreed)
validate_paths-fresh u exact m (value ∷ paths) (suc i) v r h at =
    let x = validate_paths-Round u exact m value paths h in
    let (f, key, key_at, missing) =
      validate_paths-fresh u (value ∷ exact) ((x.key, value) ∷ m) paths i v
        (ground (arith, =ₜ-refl value), Recorded-cons value exact m r) x.further at in
    (ground arith, key, key_at, ground arith)

-- Two paths of a list that the loop accepts.
abbrev Apart : Unicode → Text → Text → Type 0
Apart u p q =
    ((p =ₜ q) ≡ false)
    × (k : Text) × (l : Text) × (portable_path_collision_key u p ≡ ok k)
    × (portable_path_collision_key u q ≡ ok l)
    × ((k =ₜ l) ≡ false)

validate_paths-Apart :
    (u : Unicode) (exact : List Text) (m : List (Text × Text)) (paths : List Text) (i j : ℕ)
    (p q : Text)
    → Recorded exact m
    → validate_paths u exact m paths ≡ ok tt
    → i < j
    → get_elem? paths i ≡ some p
    → get_elem? paths j ≡ some q
    → Apart u p q
unfolding contains contains_key Recorded
validate_paths-Apart u exact m [] i j p q r h lt at_i at_j = cc
validate_paths-Apart u exact m (value ∷ paths) i zero p q r h lt at_i at_j = absurd (omega arith)
validate_paths-Apart u exact m (value ∷ paths) zero (suc j) p q r h lt at_i at_j =
    let x = validate_paths-Round u exact m value paths h in
    let e : value ≡ p = cc in
    let (f, key, key_at, missing) =
      validate_paths-fresh u (value ∷ exact) ((x.key, value) ∷ m) paths j q
        (ground (arith, =ₜ-refl value), Recorded-cons value exact m r) x.further at_j in
    rw (sym e) (ground arith, x.key, key, x.key_at, key_at, ground arith)
validate_paths-Apart u exact m (value ∷ paths) (suc i) (suc j) p q r h lt at_i at_j =
    let x = validate_paths-Round u exact m value paths h in
    validate_paths-Apart u (value ∷ exact) ((x.key, value) ∷ m) paths i j p q
      (ground (arith, =ₜ-refl value), Recorded-cons value exact m r) x.further (omega arith) at_i
      at_j

-- In a list of paths that `validate_portable_path_set` accepts, any two paths at different positions
-- are different texts, both are portable, and their collision keys differ.
pub validate_portable_path_set_distinct :
    (u : Unicode) (paths : List Text) (i j : ℕ) (p q : Text)
    → validate_portable_path_set u paths ≡ ok tt
    → i < j
    → get_elem? paths i ≡ some p
    → get_elem? paths j ≡ some q
    → ((p =ₜ q) ≡ false)
      × (k : Text) × (l : Text) × (portable_path_collision_key u p ≡ ok k)
      × (portable_path_collision_key u q ≡ ok l)
      × ((k =ₜ l) ≡ false)
unfolding validate_portable_path_set Recorded
validate_portable_path_set_distinct u paths i j p q h lt at_i at_j =
    validate_paths-Apart u [] [] paths i j p q tt h lt at_i at_j
