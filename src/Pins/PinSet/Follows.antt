-- ===== src/Pins/PinSet/Follows.antt =====
-- The precondition of a revision, in `TrustPolicyPinSet` of scripts/contracts/trust_policy_pins.py.
use bytedesk_agent_delivery.Prelude.{
  ◌≡◌, codes, Bool, true, false, ◌&&◌, [], ◌∷◌, Option, none, some, ok, require, >>=-eq-ok,
  require-eq-ok, require-true, if◌then◌else◌,
}
use bytedesk_agent_delivery.Json.{Value}
use bytedesk_agent_delivery.Json.Document.{text, number, document, get, equal}
use bytedesk_agent_delivery.Pins.{PinError, precondition_mismatch, path}
use bytedesk_agent_delivery.Pins.PinSet.{plus_one, is_absent, succeeds}

-- A revision is the first one, without a prior pin set, or the next one after the prior pin set,
-- whose revision and digest its precondition names.
pub data Follows (pin_set : Value) : Option Value → Type 0 where
  is_first : equal (get (codes "revision") pin_set) (number 1) ≡ true → Follows pin_set none
  is_next :
      {prior prior_revision prior_digest next : Value}
      → path prior ("revision" ∷ []) ≡ ok prior_revision
      → path prior ("pinSetDigest" ∷ []) ≡ ok prior_digest
      → plus_one prior_revision ≡ ok next
      → equal (get (codes "revision") pin_set) next ≡ true
      → equal (get (codes "precondition") pin_set) (
          document
            (("kind", text "match") ∷ ("revision", prior_revision) ∷ ("digest", prior_digest) ∷ []))
        ≡ true
      → Follows pin_set (some prior)

succeeds-Follows :
    (pin_set : Value) (prior : Option Value) {u : Unit {0}}
    → succeeds (get (codes "revision") pin_set) (get (codes "precondition") pin_set) prior ≡ ok u
    → Follows pin_set prior
unfolding succeeds
succeeds-Follows pin_set none h = cc
succeeds-Follows pin_set (some prior) h =
    let (revision, revision_at, h1) = >>=-eq-ok (path prior ("revision" ∷ [])) _ h in
    let (prior_digest, digest_at, h2) = >>=-eq-ok (path prior ("pinSetDigest" ∷ [])) _ h1 in
    let (matching, h3) =
      require-eq-ok (equal (get (codes "precondition") pin_set) _) precondition_mismatch _ h2 in
    let (next, next_is, h4) = >>=-eq-ok (plus_one revision) _ h3 in
    is_next revision_at digest_at next_is (require-true _ precondition_mismatch h4) matching

first-Follows :
    (pin_set : Value) (prior : Option Value) (b : Bool) {u : Unit {0}}
    → equal (get (codes "revision") pin_set) (number 1) ≡ true
    → require {E = PinError} (is_absent prior && b) precondition_mismatch ≡ ok u
    → Follows pin_set prior
first-Follows pin_set none b at h = is_first at
first-Follows pin_set (some prior) b at h = cc

pub check_precondition-Follows :
    (pin_set : Value) (prior : Option Value) (first : Bool) {u : Unit {0}}
    → equal (get (codes "revision") pin_set) (number 1) ≡ first
    → (if first
        then require
            (is_absent prior
              && equal
                  (get (codes "precondition") pin_set)
                  (document (("kind", text "absent") ∷ [])))
            precondition_mismatch
        else succeeds (get (codes "revision") pin_set) (get (codes "precondition") pin_set) prior)
      ≡ ok u
    → Follows pin_set prior
check_precondition-Follows pin_set prior true at h = first-Follows pin_set prior _ at h
check_precondition-Follows pin_set prior false at h = succeeds-Follows pin_set prior h
