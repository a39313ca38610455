-- ===== src/Json/Access/Laws.antt =====
-- Inversions of the operations of Json.Access.
use bytedesk_agent_delivery.Prelude.{
  ℕ, zero, suc, ◌≡◌, refl, sym, ◌∙◌, ap, subst, Text, Bool, true, false, List, [], ◌∷◌, Option,
  none, some, Result, ok, err, >>=-eq-ok, ok-injective, get_elem?,
}
use bytedesk_agent_delivery.Json.{Value, null, string}
use bytedesk_agent_delivery.Json.Document.{equal}
use bytedesk_agent_delivery.Json.Document.Laws.{equal-to_string, equal-to_null}
use bytedesk_agent_delivery.Json.Access.{present, same, all_of, and_then}

module _ {E : Type 0} where
  pub all_of-ok :
      (m : Result E Bool) (ms : List (Result E Bool))
      → all_of (m ∷ ms) ≡ ok true
      → (m ≡ ok true) × (all_of ms ≡ ok true)
  all_of-ok (ok true) ms h = (refl, h)
  all_of-ok (ok false) ms h = cc
  all_of-ok (err e) ms h = cc

  -- The condition at a position of a chain of `and`.
  abbrev pub nth : List (Result E Bool) → ℕ → Result E Bool
  nth ms n = elim (get_elem? ms n) [ some m ↦ m | none ↦ ok true ]

  pub all_of-nth : (ms : List (Result E Bool)) (n : ℕ) → all_of ms ≡ ok true → nth ms n ≡ ok true
  all_of-nth [] n h = refl
  all_of-nth (m ∷ ms) zero h = (all_of-ok m ms h).0
  all_of-nth (m ∷ ms) (suc n) h = all_of-nth ms n (all_of-ok m ms h).1

  pub same-ok :
      (m n : Result E Value)
      → same m n ≡ ok true
      → (x : Value) × (y : Value) × (m ≡ ok x) × (n ≡ ok y) × (equal x y ≡ true)
  same-ok m n h =
      let (x, at_x, h1) = >>=-eq-ok m _ h in
      let (y, at_y, h2) = >>=-eq-ok n _ h1 in (x, y, at_x, at_y, ok-injective h2)

  -- A value that is the same as a text is that text.
  pub same-text :
      (m n : Result E Value) (t : Text) → n ≡ ok (string t) → same m n ≡ ok true → m ≡ ok (string t)
  same-text m n t at h =
      let (x, y, at_x, at_y, e) = same-ok m n h in
      at_x
      ∙ ap ok (equal-to_string x t (subst (λ z. equal x z ≡ true) (ok-injective (sym at_y ∙ at)) e))

  pub same-null : (m : Result E Value) → same m (ok null) ≡ ok true → m ≡ ok null
  same-null m h =
      let (x, at_x, h1) = >>=-eq-ok m _ h in at_x ∙ ap ok (equal-to_null x (ok-injective h1))

  pub present-eq :
      (missing : E) (o : Option Value) {v : Value} → present missing o ≡ ok v → o ≡ some v
  present-eq missing none h = cc
  present-eq missing (some w) h = ap some (ok-injective h)

  pub and_then-ok :
      (x : Bool) (m : Result E Bool) → and_then x m ≡ ok true → (x ≡ true) × (m ≡ ok true)
  and_then-ok true m h = (refl, h)
  and_then-ok false m h = cc
