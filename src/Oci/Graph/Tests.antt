-- ===== src/Oci/Graph/Tests.antt =====
-- A run of `verify` of scripts/contracts/oci_graph.py on a graph of one manifest.
use bytedesk_agent_delivery.Prelude.{
  ℕ, ◌≡◌, ◌≢◌, refl, Bytes, Text, codes, List, [], ◌∷◌, some, Result, ok, err, ◌=ₜ◌, if◌then◌else◌,
  sort, insert,
}
use bytedesk_agent_delivery.Digest.{digest}
use bytedesk_agent_delivery.Digest.Hex.{hexdigest}
use bytedesk_agent_delivery.Digest.Checksum.{checksum}
use bytedesk_agent_delivery.Json.{Value, null, string}
use bytedesk_agent_delivery.Json.Document.{
  text, number, document, find, get, member, equal, equal_int, size, keys, field_names, contains,
  all_contained, same_set,
}
use bytedesk_agent_delivery.Json.Raw.{
  Raw, raw_integer, raw_string, raw_array, raw_object, raw_nil, raw_cons, RawFields, raw_end,
  raw_field, decimal, int_of, digits, reject_duplicate, build,
}
use bytedesk_agent_delivery.Oci.Json.{is_dict, python_int, jcs_object}
use bytedesk_agent_delivery.Json.Document.{hashable}
use bytedesk_agent_delivery.Oci.Manifest.{lookup}
use bytedesk_agent_delivery.Oci.Registry.{
  oci_manifest_media_type, oci_empty_config_media_type, oci_layer_media_type, empty_config_digest,
  empty_config_bytes, layer_role_annotation, artifact_type_roles, artifact_layer_roles,
}
use bytedesk_agent_delivery.Oci.Graph.{
  Verifier, fetched, default_limits, find_record, agrees, record_payload, fetch_exact,
}
use bytedesk_agent_delivery.Oci.Graph.Visit.{
  is_visiting, leave, find_object, assign_role, layer_is_closed, position, is_in, all_texts,
  visit_layer, visit_layers, open_manifest, visit_config, check_layers, link_subject, check_subject,
  enter_manifest, leave_manifest, check_visit, visit_new, visit_manifest, VisitError, out_of_fuel,
}
use bytedesk_agent_delivery.Oci.Graph.Verify.{check_root, visit_root, verify, Verified}
use bytedesk_agent_delivery.Oci.Graph.Verified.{
  RootGenuine, verify-RootGenuine, GraphVerified, verify-GraphVerified,
}
use bytedesk_agent_delivery.Oci.Graph.Halts.{verify-halts}

-- A checksum that gives the registered digest of the empty config.
abbrev toy_hash : Bytes → Bytes
toy_hash payload =
    if payload =ₜ empty_config_bytes
    then 68 ∷ 19 ∷ 111 ∷ 163 ∷ 85 ∷ 179 ∷ 103 ∷ 138 ∷ 17 ∷ 70 ∷ 173 ∷ 22 ∷ 247 ∷ 232 ∷ 100 ∷ 158
      ∷ 148 ∷ 251 ∷ 79 ∷ 194 ∷ 31 ∷ 231 ∷ 126 ∷ 131 ∷ 16 ∷ 192 ∷ 96 ∷ 246 ∷ 28 ∷ 170 ∷ 255 ∷ 138
      ∷ []
    else checksum payload

abbrev layer_payload : Bytes
layer_payload = 5 ∷ []

-- The canonical bytes of the one document of the run.
abbrev manifest_bytes : Bytes
manifest_bytes = 77 ∷ []

abbrev raw_fields : List (Text × Raw) → RawFields
raw_fields [] = raw_end
raw_fields ((k, value) ∷ rest) = raw_field k value (raw_fields rest)

abbrev raw_descriptor : Text → Text → ℕ → RawFields → Raw
raw_descriptor media_type d size rest = raw_object (
    raw_field (codes "mediaType") (raw_string media_type) (
      raw_field (codes "digest") (raw_string d)
        (raw_field (codes "size") (raw_integer (size ∷ [])) rest)))

abbrev artifact : Text
artifact = codes "application/vnd.bytedesk.agent.source.v1+json"

abbrev raw_manifest : Raw
raw_manifest = raw_object (
    raw_fields (
      (codes "schemaVersion", raw_integer (codes "2"))
      ∷ (codes "mediaType", raw_string oci_manifest_media_type)
      ∷ (codes "artifactType", raw_string artifact)
      ∷ (
        codes "config",
        raw_descriptor oci_empty_config_media_type empty_config_digest b'2' raw_end,
      )
      ∷ (
        codes "layers",
        raw_array (
            raw_cons
              (raw_descriptor oci_layer_media_type (digest toy_hash layer_payload) b'1' (
                raw_field (codes "annotations")
                  (raw_object
                    (raw_field layer_role_annotation (raw_string (codes "evidence")) raw_end))
                  raw_end))
              raw_nil),
      )
      ∷ []))

abbrev verifier : Verifier
verifier = record {
  libraries = record {
    loads = λ payload. some raw_manifest;
    to_float = λ t. 0;
    jcs = λ value. manifest_bytes;
    sha256 = toy_hash;
  };
  fetch = λ repository d.
      if equal d (string empty_config_digest)
      then fetched empty_config_bytes
      else if equal d (string (digest toy_hash layer_payload))
      then fetched layer_payload
      else fetched manifest_bytes;
  limits = default_limits;
  type_roles = artifact_type_roles;
  layer_roles = artifact_layer_roles;
}

abbrev root : Value
root = document (
    ("repository", text "r")
    ∷ ("digest", string (digest toy_hash manifest_bytes))
    ∷ ("mediaType", string oci_manifest_media_type)
    ∷ ("artifactType", string artifact)
    ∷ ("size", number 1)
    ∷ ("subjectDigest", null)
    ∷ ("annotationsDigest", null)
    ∷ [])

no_result : Verified
no_result = record {
  root_descriptor = null;
  config_descriptor = null;
  layer_descriptors = null;
  artifact_type = null;
  subject = null;
  graph_digest = [];
  object_count = 0;
  total_bytes = 0;
  maximum_depth_observed = 0;
}

or_nothing : Result VisitError Verified → Verified
or_nothing (ok out) = out
or_nothing (err e) = no_result

result : Verified
result = or_nothing (verify verifier root (codes "r") artifact)

run : verify verifier root (codes "r") artifact ≡ ok result
unfolding result or_nothing verify check_root visit_root visit_manifest visit_new check_visit
    leave_manifest enter_manifest check_subject link_subject check_layers visit_config open_manifest
    visit_layers visit_layer all_texts is_in position layer_is_closed assign_role find_object leave
    is_visiting fetch_exact record_payload agrees find_record lookup jcs_object python_int is_dict
    hashable build reject_duplicate digits int_of decimal same_set all_contained contains
    field_names keys size equal_int equal member get find digest hexdigest checksum sort insert ◌=ₜ◌
run = refl

verify-RootGenuine_example : RootGenuine verifier root (codes "r") result
verify-RootGenuine_example = verify-RootGenuine verifier root (codes "r") artifact run

verify-GraphVerified_example : GraphVerified verifier root (codes "r") result
verify-GraphVerified_example = verify-GraphVerified verifier root (codes "r") artifact run

verify-halts_example : verify verifier root (codes "r") artifact ≢ err out_of_fuel
verify-halts_example = verify-halts verifier root (codes "r") artifact
