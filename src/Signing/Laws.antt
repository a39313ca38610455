-- ===== src/Signing/Laws.antt =====
-- What the signer that `exact_policy_signer` of scripts/contracts/signing_authority.py selects is.
use bytedesk_agent_delivery.Prelude.{
  ℕ, zero, suc, ◌≡◌, refl, sym, ap, subst, Text, codes, Bool, true, false, not, ◌&&◌, ◌||◌, List,
  [], ◌∷◌, some, ok, ◌=ₜ◌, arith, Bool-cases, inl, inr, >>=-eq-ok, ok-injective, require-true,
}
use bytedesk_agent_delivery.Json.{
  Value, null, boolean, integer, floating, object, other, string, array, Items, nil, cons,
}
use bytedesk_agent_delivery.Json.Document.{text, get, equal, contains, same_set, keys}
use bytedesk_agent_delivery.Json.Document.Laws.{
  equal-to_string, equal-string_refl, contains-same, item_at,
}
use bytedesk_agent_delivery.Signing.{
  SignerQuery, kms_contract_bundle, contract_bundle_release_purpose, contract_bundle_media_types,
  open_signer, require_exact_signer, reject_contract_bundle_kms_authority, matches_query,
  signers_of, matching, only_match, exact_policy_signer, signer_identity_fields, exact_fields,
}

-- A KMS signer with the purpose, the key version, the algorithm and the public key digest of a query.
pub record Asked (q : SignerQuery) (signer : Value) : Type 0 where
  pub purpose_is : get (codes "purpose") signer ≡ string q.purpose
  pub kind_is : get (codes "credentialKind") signer ≡ string (codes "kms_key")
  pub key_version_is : get (codes "keyVersion") signer ≡ string q.key_version
  pub algorithm_is : get (codes "algorithm") signer ≡ string q.algorithm
  pub public_key_is : get (codes "publicKeyDigest") signer ≡ string q.public_key_digest

and-true : (b c : Bool) → b && c ≡ true → (b ≡ true) × (c ≡ true)
and-true true c h = (refl, h)
and-true false c h = cc

matches_query-Asked : (q : SignerQuery) (s : Value) → matches_query q s ≡ true → Asked q s
unfolding matches_query
matches_query-Asked q s h =
    let (h0, t0) = and-true (equal (get (codes "purpose") s) (string q.purpose)) _ h in
    let (h1, t1) = and-true (equal (get (codes "credentialKind") s) (text "kms_key")) _ t0 in
    let (h2, t2) = and-true (equal (get (codes "keyVersion") s) (string q.key_version)) _ t1 in
    let (h3, h4) = and-true (equal (get (codes "algorithm") s) (string q.algorithm)) _ t2 in
    record {
      purpose_is = equal-to_string (get (codes "purpose") s) q.purpose h0;
      kind_is = equal-to_string (get (codes "credentialKind") s) (codes "kms_key") h1;
      key_version_is = equal-to_string (get (codes "keyVersion") s) q.key_version h2;
      algorithm_is = equal-to_string (get (codes "algorithm") s) q.algorithm h3;
      public_key_is = equal-to_string (get (codes "publicKeyDigest") s) q.public_key_digest h4;
    }

equal_at : (v : Value) (t : Text) → v ≡ string t → equal v (string t) ≡ true
equal_at v t e = subst (λ x. equal x (string t) ≡ true) (sym e) (equal-string_refl t)

Asked-matches_query : (q : SignerQuery) (s : Value) → Asked q s → matches_query q s ≡ true
unfolding matches_query
Asked-matches_query q s a =
    rw
      (
        equal_at (get (codes "purpose") s) q.purpose a.purpose_is,
        equal_at (get (codes "credentialKind") s) (codes "kms_key") a.kind_is,
        equal_at (get (codes "keyVersion") s) q.key_version a.key_version_is,
        equal_at (get (codes "algorithm") s) q.algorithm a.algorithm_is,
        equal_at (get (codes "publicKeyDigest") s) q.public_key_digest a.public_key_is,
      )
      refl

-- Where nothing matches, no item does.
no_match :
    (q : SignerQuery) (items : Items) (j : ℕ) (x : Value)
    → matching q items ≡ []
    → item_at j items ≡ some x
    → matches_query q x ≡ false
unfolding matching item_at
no_match q nil j x h at = cc
no_match q (cons signer items) zero x h at = elim (Bool-cases (matches_query q signer)) [
  | inl e ↦ ground arith
  | inr e ↦ cc
]
no_match q (cons signer items) (suc i) x h at = elim (Bool-cases (matches_query q signer)) [
  | inl e ↦ ground arith
  | inr e ↦ no_match q items i x (ground arith) at
]

-- The position of the only match of a query.
record Single (q : SignerQuery) (items : Items) (s : Value) : Type 0 where
  index : ℕ
  at_index : item_at index items ≡ some s
  matched : matches_query q s ≡ true
  only : (j : ℕ) (x : Value) → item_at j items ≡ some x → matches_query q x ≡ true → j ≡ index

head-Single :
    (q : SignerQuery) (s : Value) (items : Items)
    → matches_query q s ≡ true
    → matching q items ≡ []
    → Single q (cons s items) s
unfolding item_at
head-Single q s items e none_left = record {
  index = 0;
  at_index = refl;
  matched = e;
  only = λ j x at m.
      elim j as (λ i. item_at i (cons s items) ≡ some x → i ≡ 0) [
        | zero ↦ λ at. refl
        | suc i ↦ λ at. cc (no_match q items i x none_left at)
      ]
        at;
}

tail-Single :
    (q : SignerQuery) (s signer : Value) (items : Items)
    → matches_query q signer ≡ false
    → Single q items s
    → Single q (cons signer items) s
unfolding item_at
tail-Single q s signer items e w = record {
  index = suc w.index;
  at_index = w.at_index;
  matched = w.matched;
  only = λ j x at m.
      elim j as (λ i. item_at i (cons signer items) ≡ some x → i ≡ suc w.index) [
        | zero ↦ λ at. cc
        | suc i ↦ λ at. ap suc (w.only i x at m)
      ]
        at;
}

matching-Single :
    (q : SignerQuery) (items : Items) (s : Value) → matching q items ≡ s ∷ [] → Single q items s
unfolding matching
matching-Single q nil s h = cc
matching-Single q (cons signer items) s h = elim (Bool-cases (matches_query q signer)) [
  | inl e ↦
      let same : signer ≡ s = ground arith in
      subst (λ x. Single q (cons x items) s) (sym same)
        (head-Single q s items (ground arith) (ground arith))
  | inr e ↦ tail-Single q s signer items e (matching-Single q items s (ground arith))
]

-- The members of a KMS signer.
abbrev pub kms_signer_fields : List Text
kms_signer_fields =
    codes "purpose"
    ∷ codes "credentialKind"
    ∷ codes "algorithm"
    ∷ codes "workloadIdentity"
    ∷ codes "claims"
    ∷ codes "keyVersion"
    ∷ codes "publicKeyDigest"
    ∷ []

exact_fields-kms :
    (s : Value) (k : Text)
    → get (codes "credentialKind") s ≡ string (codes "kms_key")
    → exact_fields (signer_identity_fields (get (codes "credentialKind") s)) s ≡ true
    → contains k (keys s) ≡ contains k kms_signer_fields
unfolding signer_identity_fields same_set equal ◌=ₜ◌
exact_fields-kms s k kind h =
    contains-same k (keys s) kms_signer_fields
      (subst (λ x. exact_fields (signer_identity_fields x) s ≡ true) kind h)

only_match-ok : (found : List Value) {s : Value} → only_match found ≡ ok s → found ≡ s ∷ []
only_match-ok [] h = cc
only_match-ok (x ∷ []) h = cc
only_match-ok (x ∷ y ∷ rest) h = cc

not-both : (b c : Bool) → not (b || c) ≡ true → (b ≡ false) × (c ≡ false)
not-both false false h = (refl, refl)
not-both false true h = cc
not-both true c h = cc

signers_of-array :
    (v : Value) {items : Items} {s : Value} (i : ℕ)
    → signers_of v ≡ items
    → item_at i items ≡ some s
    → v ≡ array items
unfolding signers_of item_at
signers_of-array (array its) i e at = ap array e
signers_of-array null i e at = cc
signers_of-array (boolean b) i e at = cc
signers_of-array (integer n) i e at = cc
signers_of-array (floating f) i e at = cc
signers_of-array (string t) i e at = cc
signers_of-array (object fields) i e at = cc
signers_of-array other i e at = cc

-- What the selection of a signer establishes.
pub record Selected (policy : Value) (q : SignerQuery) (s : Value) : Type 0 where
  pub items : Items
  pub signers_are : get (codes "signers") policy ≡ array items
  pub index : ℕ
  pub at_index : item_at index items ≡ some s
  pub asked : Asked q s
  pub only : (j : ℕ) (x : Value) → item_at j items ≡ some x → Asked q x → j ≡ index
  pub closed : (k : Text) → contains k (keys s) ≡ contains k kms_signer_fields
  pub not_bundle_purpose : (q.purpose =ₜ contract_bundle_release_purpose) ≡ false
  pub not_bundle_type : contains q.subject_media_type contract_bundle_media_types ≡ false

-- A signer that `exact_policy_signer` returns stands at one position of the signers of the policy,
-- it is a KMS signer with the purpose, the key version, the algorithm and the public key digest that
-- are asked for, no other position holds such a signer, its members are those of a KMS signer and no
-- others, and the request is not for a contract bundle, by purpose or by media type.
pub exact_policy_signer-only :
    (policy : Value) (q : SignerQuery) {s : Value}
    → exact_policy_signer policy q ≡ ok s
    → Selected policy q s
unfolding exact_policy_signer reject_contract_bundle_kms_authority require_exact_signer
exact_policy_signer-only policy q h =
    let signers = signers_of (get (codes "signers") policy) in
    let (_, guard, h1) =
      >>=-eq-ok (reject_contract_bundle_kms_authority q.purpose q.subject_media_type) _ h in
    let (x, at, h2) = >>=-eq-ok (only_match (matching q signers)) _ h1 in
    let (u, exact, h3) = >>=-eq-ok (require_exact_signer x) _ h2 in
    let (purpose, media_type) =
      not-both (q.purpose =ₜ contract_bundle_release_purpose)
        (contains q.subject_media_type contract_bundle_media_types)
        (require-true _ kms_contract_bundle guard) in
    let w = matching-Single q signers x (only_match-ok (matching q signers) at) in
    let asked = matches_query-Asked q x w.matched in
    subst (λ s. Selected policy q s) (ok-injective h3)
      (record {
        items = signers;
        signers_are = signers_of-array (get (codes "signers") policy) w.index refl w.at_index;
        index = w.index;
        at_index = w.at_index;
        asked = asked;
        only = λ j y at_j a. w.only j y at_j (Asked-matches_query q y a);
        closed = λ k. exact_fields-kms x k asked.kind_is (require-true _ open_signer exact);
        not_bundle_purpose = purpose;
        not_bundle_type = media_type;
      })
