-- ===== src/StatusHead/Tests.antt =====
-- A run of the status head builder of scripts/contracts/status_head_authority.py.
use bytedesk_agent_delivery.Prelude.{
  ℕ, ◌-◌, ◌<◌, ◌≡◌, refl, Text, codes, true, List, [], ◌∷◌, some, Result, ok, ◌=ₜ◌, length,
  get_elem?,
}
use bytedesk_agent_delivery.Digest.{raw, digest}
use bytedesk_agent_delivery.Digest.Hex.{fromhex, hexdigest}
use bytedesk_agent_delivery.Digest.Laws.{raw-digest}
use bytedesk_agent_delivery.Digest.Checksum.{checksum, checksum-IsSha256}
use bytedesk_agent_delivery.Merkle.{
  merkle_root, merkle_root_from, inclusion_proof, inclusion_from, verify_inclusion, node_digest,
}
use bytedesk_agent_delivery.Merkle.Root.{Accepted}
use bytedesk_agent_delivery.Merkle.Split.{split, bit_length}
use bytedesk_agent_delivery.Json.{null}
use bytedesk_agent_delivery.Json.Document.{document, number, get, find, member, equal}
use bytedesk_agent_delivery.StatusHead.{
  Adapters, status_leaf_digest, last_is, Head, Inclusion, Registry, HeadError,
  build_inclusion_proof,
}
use bytedesk_agent_delivery.StatusHead.Refresh.Laws.{StatusLeaf, build_inclusion_proof-verifies}

-- Adapters that do next to nothing.
abbrev adapters : Adapters
adapters = record {
  sha256 = checksum;
  jcs = λ v. [];
  timestamp = λ v. some 0;
  schema_descriptor = λ n. null;
  artifact_descriptor = λ r m d t. null;
  sign_inline_authority = λ d o p m i t r. d;
  signing_result = λ p d m i t r. null;
  signer = λ p. null;
  canonical_digest = λ v. codes "sha256:00";
  status_head_auth_schema = null;
  status_head_trust = null;
  repository = codes "r";
  purpose = codes "p";
}

abbrev leaf : ℕ → Text
leaf n = digest checksum (0 ∷ n ∷ [])

abbrev head_leaf : Text
head_leaf = digest checksum (0 ∷ [])

abbrev head : Head
head = record {
  subject_kind = codes "release";
  subject = null;
  status = document (("sequence", number 2) ∷ []);
  status_descriptor = null;
  epoch = 1;
  log_leaves = leaf 1 ∷ head_leaf ∷ [];
}

leaf-Accepted : (x : List ℕ) → Accepted (digest checksum x)
leaf-Accepted x = (checksum x, raw-digest checksum x checksum-IsSha256)

no_inclusion : Inclusion
no_inclusion = record {
  leaf_digest = [];
  root_digest = [];
  audit_path = [];
  proof = null;
  descriptor = null;
}

or_nothing : Result HeadError (Inclusion × Registry) → Inclusion × Registry
or_nothing (ok built) = built
or_nothing (Result.err e) = (no_inclusion, [])

built : Inclusion × Registry
built = or_nothing (build_inclusion_proof adapters (codes "c") head [])

built-ok : build_inclusion_proof adapters (codes "c") head [] ≡ ok (built.0, built.1)
unfolding built or_nothing build_inclusion_proof status_leaf_digest last_is equal get find member
    merkle_root merkle_root_from inclusion_proof inclusion_from split bit_length node_digest raw
    digest checksum fromhex hexdigest ◌=ₜ◌
built-ok = refl

build_inclusion_proof-verifies_example :
    (0 < length head.log_leaves)
    × (equal (number (length head.log_leaves)) (get (codes "sequence") head.status) ≡ true)
    × (get_elem? head.log_leaves (length head.log_leaves - 1) ≡ some built.0.leaf_digest)
    × StatusLeaf adapters head built.0.leaf_digest
    × (merkle_root checksum head.log_leaves ≡ ok built.0.root_digest)
    × (verify_inclusion checksum built.0.leaf_digest
          (length head.log_leaves - 1)
          (length head.log_leaves)
          built.0.audit_path
          built.0.root_digest
        ≡ true)
build_inclusion_proof-verifies_example =
    build_inclusion_proof-verifies adapters (codes "c") head [] checksum-IsSha256
      (leaf-Accepted (0 ∷ 1 ∷ []), (leaf-Accepted (0 ∷ []), tt)) built-ok
