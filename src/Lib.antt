-- ===== src/Lib.antt =====
-- A model of the contract tooling of this repository, scripts/contracts, and its correctness.
--
-- The tooling reads JSON documents under limits, moves OCI blobs as bounded base64 chunks, keeps the
-- history of release statuses in a Merkle log, and derives what a signature or a digest is taken
-- over. It writes OCI manifests and verifies the graph that a manifest reaches, and it decides
-- whether a release may be used at a time. The status head builder composes these: it hashes a status into a leaf of the log, proves
-- that the leaf is the last one, proves the log consistent with the client's prior checkpoint, and
-- digests the authentication evidence over the preimage that its schema declares.
--
-- - Prelude: tests on numbers and texts, lists over the native numbers, exceptions as a result type.
--   A text is its list of code points, a byte string its list of numbers.
-- - Digest, Merkle: scripts/contracts/status_merkle.py. `_raw`, `_digest`, `node_digest`,
--   `merkle_root`, `inclusion_proof`, `verify_inclusion`, `consistency_proof` and
--   `verify_consistency` keep their names; a nested function is a function of its own (`rebuild`,
--   `subproof`), the loop of `verify_consistency` is `consistency_loop`.
-- - Json: scripts/contracts/contractlib.py. Json.Model is the walk `_validate_json_model`, whose
--   stack is an explicit list; Json.Model.Spec is the recursive description that it is compared
--   with. Json.Strict is `strict_json_bytes` with its hooks and `canonical_json`; Json.Raw is what
--   the decoder reads before the hooks. Json.Preflight is the byte scan `_preflight_json_bytes`. Json.Document has the operations
--   on a `dict` that the other parts use,
--   Json.Access those that may raise. Its equality is that of documents: it does not
--   identify an integer with a float or a Boolean of the same value.
-- - Oci: scripts/contracts/oci_graph.py, `encode_bounded_bytes`, `decode_bounded_bytes`,
--   `build_oci_blob_stream` and `decode_oci_blob_stream`. Oci.Registry has the constants and the
--   tables of media types, Oci.Json `_jcs_object`, Oci.Manifest `build_oci_manifest` and the
--   publication preimage.
-- - Oci.Graph: `OciGraphVerifier` of scripts/contracts/oci_graph.py. `fetch_exact` keeps its name;
--   Oci.Graph.Visit is the nested function `visit_manifest`, cut into the parts before, at and
--   after its recursive call on the subject; Oci.Graph.Verify is `verify`. The variables of
--   `verify` that the nested functions assign to are the record `Graph`, passed from call to call.
-- - Signing: scripts/contracts/signing_authority.py.
-- - Authority: scripts/contracts/renderer_authority.py, `inline_authority_preimage` and
--   `schema_field_authority_preimage`.
-- - StatusHead: scripts/contracts/status_head_authority.py. `_inclusion_proof` and
--   `_consistency_proof` are `build_inclusion_proof` and `build_consistency_proof`;
--   StatusHead.Prior has the guards of `refresh` and its branch on the prior checkpoint,
--   StatusHead.Refresh the documents. The registered documents are passed from call to call.
-- - Eligibility: scripts/contracts/release_status_eligibility.py. Eligibility.Entry is `_entry`, a
--   function for each of its guards; Eligibility.Build is `build`, whose last part is `seal`.
-- - Pins: scripts/contracts/trust_policy_pins.py. Pins has the preimages, descriptors and digests,
--   and the first revision; Pins.Provider the evidence and the adapter that verifies it; Pins.PinSet
--   `TrustPolicyPinSet`, whose attributes are the record `PinSet`.
-- - Bundle: scripts/contracts/bundle_profile.py, but for the tar writer.
--
-- Parameters. SHA-256 is a function on byte strings; where a theorem needs it, `IsSha256` says that
-- it returns 32 bytes. That it does not collide is assumed for the byte strings at hand alone,
-- never for all. RFC 8785 canonicalization, the clock's text format, descriptors and signatures are
-- fields of `Adapters`, `Builder` and
-- `Platform`; the decoder of `json.loads` and `rfc8785.dumps` are fields of
-- `Codec` and `Libraries`; the store that the graph verifier fetches from is a field of `Verifier`.
-- NFC, case folding, UTF-8 and character categories are fields of `Unicode`.
--
-- Fuel. `merkle_root` and its companions recurse on the number of leaves and one more: each part
-- of a cut is shorter than the whole. The walk over a value has one round for each node it may
-- count and one more; the byte scan has one for each byte, since a round consumes a byte at least.
-- `visit_manifest` has two rounds more than the depth limit, since it refuses a depth above it.
-- The loop of `verify_consistency` recurses on the path.
--
-- Where the model differs. A counter of a prior checkpoint that is a float or a Boolean raises in
-- StatusHead.Prior, where Python compares it; an index or an offset of a chunk that equals the
-- expected integer without being one is malformed in Oci.Stream. A key of a `dict` that is not a
-- text is not among its `keys`. Canonicalization is total, so that what `rfc8785.dumps` refuses
-- where the code catches nothing is not refused here. The callback of the graph verifier is a
-- function of repository and digest: it answers the same request the same way.
--
-- Not modelled: reading and writing files, archives, processes, the grammar of JSON, the
-- building and verifying of bundles, release evidence, the renderers and the Go programs.
mod Prelude
pub mod Digest
pub mod Merkle
pub mod Json
pub mod Oci
pub mod Signing
pub mod Authority
pub mod StatusHead
pub mod Eligibility
pub mod Pins
pub mod Bundle
