-- ===== src/Pins/PinSet/Laws.antt =====
-- `authorize_policy` of scripts/contracts/trust_policy_pins.py: what it has established when it
-- returns.
use bytedesk_agent_delivery.Prelude.{
  ℕ, zero, suc, arith, ◌≤◌, ◌<◌, ◌≡◌, refl, sym, ◌∙◌, ap, subst, Text, codes, Bool, true, false,
  not, [], ◌∷◌, Option, none, some, ok, err, ◌>>◌, require, leb, leb→le, ltb→lt, ◌=ₜ◌, =ₜ→eq,
  >>=-eq-ok, ok-injective, require-eq-ok, require-true, if◌then◌else◌,
}
use bytedesk_agent_delivery.Json.{
  Value, null, boolean, integer, floating, string, array, object, other, Items, nil, cons,
}
use bytedesk_agent_delivery.Json.Document.{equal, hashable}
use bytedesk_agent_delivery.Json.Document.Laws.{item_at}
use bytedesk_agent_delivery.Json.Access.Laws.{and_then-ok}
use bytedesk_agent_delivery.Pins.{
  not_effective, policy_revoked, retired_for_new_use, use_invalid, not_pinned_at_signing_time,
  python_error, PinError, Platform, path, got, parse_timestamp,
}
use bytedesk_agent_delivery.Pins.PinSet.{
  PinSet, current_of, historical_of, or_null, holds_at, listed, among_items, is_revoked,
  authorize_past, authorize_historical, authorize_use, authorize_policy,
}

module _ (p : Platform) where
  -- A time in a window: not before its beginning, and before its end.
  pub record InWindow (time : ℕ) (window : Value) : Type 0 where
    pub first : Value
    pub first_at : path window ("notBefore" ∷ []) ≡ ok first
    pub start : ℕ
    pub start_is : parse_timestamp p first ≡ ok start
    pub last : Value
    pub last_at : path window ("notAfter" ∷ []) ≡ ok last
    pub stop : ℕ
    pub stop_is : parse_timestamp p last ≡ ok stop
    pub started : start ≤ time
    pub not_over : time < stop

  holds_at-InWindow :
      (time : ℕ) (window : Value) → holds_at p time window ≡ ok true → InWindow time window
  unfolding holds_at
  holds_at-InWindow time window h =
      let (first, first_at, h1) = >>=-eq-ok (path window ("notBefore" ∷ [])) _ h in
      let (start, start_is, h2) = >>=-eq-ok (parse_timestamp p first) _ h1 in
      let (started, h3) = and_then-ok (leb start time) _ h2 in
      let (last, last_at, h4) = >>=-eq-ok (path window ("notAfter" ∷ [])) _ h3 in
      let (stop, stop_is, h5) = >>=-eq-ok (parse_timestamp p last) _ h4 in
      record {
        first = first;
        first_at = first_at;
        start = start;
        start_is = start_is;
        last = last;
        last_at = last_at;
        stop = stop;
        stop_is = stop_is;
        started = leb→le start time started;
        not_over = ltb→lt time stop (ok-injective h5);
      }

  -- The uses that a pin set allows of a reference.
  pub data Allowed (s : PinSet) (purpose reference d : Value) : Text → Option Value → Type 0 where
    -- the current reference of the purpose, for a new signature
    for_new :
        {signing_time : Option Value}
        → equal (or_null (current_of purpose s.current)) reference ≡ true
        → Allowed s purpose reference d (codes "new") signing_time
    -- the current reference, for a signature made before
    for_current :
        {signing_time : Value}
        → equal (or_null (current_of purpose s.current)) reference ≡ true
        → Allowed s purpose reference d (codes "historical") (some signing_time)
    -- a historical reference, for a signature made in its window
    for_past :
        {signing_time entry window : Value} {signed_at : ℕ}
        → historical_of purpose d s.historical ≡ some entry
        → path entry ("validForSigning" ∷ []) ≡ ok window
        → parse_timestamp p signing_time ≡ ok signed_at
        → InWindow signed_at window
        → Allowed s purpose reference d (codes "historical") (some signing_time)

  authorize_past-Allowed :
      (s : PinSet) (purpose reference d signing_time : Value) (found : Option Value) {u : Unit {0}}
      → historical_of purpose d s.historical ≡ found
      → authorize_past p found signing_time ≡ ok u
      → Allowed s purpose reference d (codes "historical") (some signing_time)
  unfolding authorize_past
  authorize_past-Allowed s purpose reference d signing_time none at h = cc
  authorize_past-Allowed s purpose reference d signing_time (some entry) at h =
      let (signed_at, signed, h1) = >>=-eq-ok (parse_timestamp p signing_time) _ h in
      let (window, window_at, h2) = >>=-eq-ok (path entry ("validForSigning" ∷ [])) _ h1 in
      let (holds, holds_is, h3) = >>=-eq-ok (holds_at p signed_at window) _ h2 in
      for_past at window_at signed (
        holds_at-InWindow signed_at window
          (holds_is ∙ ap ok (require-true holds not_pinned_at_signing_time h3)))

  choice-Allowed :
      (s : PinSet) (purpose reference d signing_time : Value) (is_current : Bool) {u : Unit {0}}
      → equal (or_null (current_of purpose s.current)) reference ≡ is_current
      → (if is_current
          then ok tt
          else require (hashable d) python_error
            >> authorize_past p (historical_of purpose d s.historical) signing_time)
        ≡ ok u
      → Allowed s purpose reference d (codes "historical") (some signing_time)
  choice-Allowed s purpose reference d signing_time true at h = for_current at
  choice-Allowed s purpose reference d signing_time false at h =
      authorize_past-Allowed s purpose reference d signing_time _ refl
        (require-eq-ok (hashable d) python_error _ h).1

  authorize_historical-Allowed :
      (s : PinSet) (purpose reference d : Value) (signing_time : Option Value) {u : Unit {0}}
      → authorize_historical p s purpose reference d signing_time ≡ ok u
      → Allowed s purpose reference d (codes "historical") signing_time
  unfolding authorize_historical
  authorize_historical-Allowed s purpose reference d none h = cc
  authorize_historical-Allowed s purpose reference d (some signing_time) h =
      choice-Allowed s purpose reference d signing_time
        (equal (or_null (current_of purpose s.current)) reference) refl h

  use-Allowed :
      (s : PinSet) (purpose reference d : Value) (kind : Text) (signing_time : Option Value)
      (is_new is_past : Bool) {u : Unit {0}}
      → (kind =ₜ codes "new") ≡ is_new
      → (kind =ₜ codes "historical") ≡ is_past
      → (if is_new
          then require
              (equal (or_null (current_of purpose s.current)) reference)
              retired_for_new_use
          else if is_past
          then authorize_historical p s purpose reference d signing_time
          else err use_invalid)
        ≡ ok u
      → Allowed s purpose reference d kind signing_time
  use-Allowed s purpose reference d kind signing_time true past k l h =
      subst (λ (t : Text). Allowed s purpose reference d t signing_time)
        (sym (=ₜ→eq kind (codes "new") k)) (for_new (require-true _ retired_for_new_use h))
  use-Allowed s purpose reference d kind signing_time false true k l h =
      subst (λ (t : Text). Allowed s purpose reference d t signing_time)
        (sym (=ₜ→eq kind (codes "historical") l))
        (authorize_historical-Allowed s purpose reference d signing_time h)
  use-Allowed s purpose reference d kind signing_time false false k l h = cc

  -- What `authorize_policy` has established.
  pub record Authorized (s : PinSet) (purpose : Text) (reference : Value) (kind : Text)
      (verification_time : Value) (signing_time : Option Value) : Type 0 where
    pub time : ℕ
    pub time_is : parse_timestamp p verification_time ≡ ok time
    pub effective : Value
    pub effective_at : path s.pins ("effective" ∷ []) ≡ ok effective
    pub in_effect : InWindow time effective
    pub own_digest : Value
    pub own_digest_is : got "digest" reference ≡ ok own_digest
    pub revoked : Items
    pub revoked_at : path s.revocations ("policyDigests" ∷ []) ≡ ok (array revoked)
    pub not_revoked : (i : ℕ) (x : Value) → item_at i revoked ≡ some x → equal x own_digest ≡ false
    pub allowed : Allowed s (string purpose) reference own_digest kind signing_time

  listed-array :
      (e : PinError) (v : Value) {items : Items} → listed p e v ≡ ok items → v ≡ array items
  listed-array e (array its) h = ap array (ok-injective h)
  listed-array e null h = cc
  listed-array e (boolean b) h = cc
  listed-array e (integer n) h = cc
  listed-array e (floating f) h = cc
  listed-array e (string t) h = cc
  listed-array e (object fields) h = cc
  listed-array e other h = cc

  -- What is not among the items equals none of them.
  among_items-false :
      (v : Value) (items : Items) (i : ℕ) (x : Value)
      → among_items p v items ≡ false
      → item_at i items ≡ some x
      → equal x v ≡ false
  unfolding among_items item_at
  among_items-false v nil i x h at = cc
  among_items-false v (cons w rest) zero x h at = let e : equal w v ≡ false = ground arith in cc
  among_items-false v (cons w rest) (suc i) x h at = among_items-false v rest i x (ground arith) at

  is_revoked-false :
      (s : PinSet) (d : Value)
      → is_revoked p s d ≡ ok false
      → (revoked : Items) × (path s.revocations ("policyDigests" ∷ []) ≡ ok (array revoked))
        × ((i : ℕ) (x : Value) → item_at i revoked ≡ some x → equal x d ≡ false)
  is_revoked-false s d h =
      let (v, v_is, h1) = >>=-eq-ok (path s.revocations ("policyDigests" ∷ [])) _ h in
      let (items, items_are, h2) = >>=-eq-ok (listed p python_error v) _ h1 in
      (
        items,
        v_is ∙ ap ok (listed-array python_error v items_are),
        λ i x at. among_items-false d items i x (ok-injective h2) at,
      )

  is_false : (b : Bool) → not b ≡ true → b ≡ false
  is_false true h = cc
  is_false false h = refl

  -- A policy is authorized only while the pin set is in effect, only where its digest equals none of
  -- the policy digests of the revocations of the pin set, and only for the three uses: the current reference of the purpose for a new signature
  -- or an old one, and a historical reference for a signature made in its window.
  pub authorize_policy-Authorized :
      (s : PinSet) (purpose : Text) (reference : Value) (kind : Text) (verification_time : Value)
      (signing_time : Option Value) {u : Unit {0}}
      → authorize_policy p s purpose reference kind verification_time signing_time ≡ ok u
      → Authorized s purpose reference kind verification_time signing_time
  unfolding authorize_policy authorize_use
  authorize_policy-Authorized s purpose reference kind verification_time signing_time h =
      let (time, time_is, h1) = >>=-eq-ok (parse_timestamp p verification_time) _ h in
      let (effective, effective_at, h2) = >>=-eq-ok (path s.pins ("effective" ∷ [])) _ h1 in
      let (holds, holds_is, h3) = >>=-eq-ok (holds_at p time effective) _ h2 in
      let (is_effective, h4) = require-eq-ok holds not_effective _ h3 in
      let (d, d_is, h5) = >>=-eq-ok (got "digest" reference) _ h4 in
      let (revoked, revoked_is, h6) = >>=-eq-ok (is_revoked p s d) _ h5 in
      let (kept, h7) = require-eq-ok (not revoked) policy_revoked _ h6 in
      let (digests, digests_at, none_equal) =
        is_revoked-false s d (revoked_is ∙ ap ok (is_false revoked kept)) in
      record {
        time = time;
        time_is = time_is;
        effective = effective;
        effective_at = effective_at;
        in_effect = holds_at-InWindow time effective (holds_is ∙ ap ok is_effective);
        own_digest = d;
        own_digest_is = d_is;
        revoked = digests;
        revoked_at = digests_at;
        not_revoked = none_equal;
        allowed =
            use-Allowed s (string purpose) reference d kind signing_time (kind =ₜ codes "new")
              (kind =ₜ codes "historical") refl refl h7;
      }
