-- ===== src/Oci/Graph/Visit.antt =====
-- `visit_manifest` of `OciGraphVerifier` in scripts/contracts/oci_graph.py.
mod Tables
use Prim.Native.Nat.{max}
use bytedesk_agent_delivery.Prelude.{
  ℕ, zero, suc, ◌+◌, Text, codes, Bool, true, false, not, ◌&&◌, ◌||◌, List, [], ◌∷◌, ◌++◌, Option,
  none, some, Result, ok, err, ◌>>=◌, ◌>>◌, require, length, leb, ltb, ◌=ₜ◌, sort, if◌then◌else◌,
}
use bytedesk_agent_delivery.Json.{
  Value, null, string, array, object, Items, nil, cons, Fields, end, field, name,
}
use bytedesk_agent_delivery.Json.Document.{
  number, get, equal, keys, contains, all_contained, same_set,
}
use bytedesk_agent_delivery.Oci.{
  OciError, oci_graph_limit_exceeded, oci_graph_cycle, oci_manifest_shape_invalid,
  oci_manifest_profile_mismatch, oci_artifact_type_unregistered, oci_artifact_type_mismatch,
  oci_root_type_mismatch, oci_config_descriptor_invalid, oci_config_bytes_invalid, oci_layers_empty,
  oci_artifact_role_registry_missing, oci_layer_descriptor_invalid, oci_media_role_unregistered,
  oci_layer_role_duplicate, oci_layer_role_order_invalid, oci_subject_descriptor_invalid,
  oci_manifest_annotations_invalid, oci_root_metadata_mismatch, python_error,
}
use bytedesk_agent_delivery.Oci.Json.{item, is_dict, jcs_object}
use bytedesk_agent_delivery.Json.Document.{hashable}
use bytedesk_agent_delivery.Oci.Manifest.{canonical_digest, lookup, empty_config}
use bytedesk_agent_delivery.Oci.Registry.{
  oci_manifest_media_type, oci_layer_media_type, empty_config_bytes, layer_role_annotation,
  layer_role_order,
}
use bytedesk_agent_delivery.Oci.Graph.{
  Verifier, PayloadRecord, ManifestRecord, Edge, Graph, fetch_exact,
}
unfoldable pub use Tables.*

module _ (v : Verifier) where
  -- The body of the loop over the layers.
  unfoldable pub visit_layer :
      Text → Value → List Text → ℕ → Value → LayerScan → Result OciError LayerScan
  unfolding layer_is_closed contains is_in position fetch_exact hashable
  visit_layer repository from allowed_roles index layer s = do
    closed ← layer_is_closed layer
    require closed oci_layer_descriptor_invalid
    annotations ← item (codes "annotations") layer
    role_value ← item layer_role_annotation annotations
    role ← lookup_key oci_media_role_unregistered role_value
    require (contains role allowed_roles && contains role layer_role_order)
        oci_media_role_unregistered
    require (not (contains role s.seen_roles)) oci_layer_role_duplicate
    layer_digest ← item (codes "digest") layer
    require (hashable layer_digest) python_error
    require (not (is_in layer_digest s.seen_digests)) oci_layer_role_duplicate
    (payload, g) ←
        fetch_exact v repository layer v.limits.maximum_blob_bytes (codes "layer:" ++ role) s.graph
    let edge : Edge = record {
      from = from;
      kind = codes "layer";
      index = index;
      to = layer_digest;
      role = role;
    }
    ok (record {
      seen_roles = role ∷ s.seen_roles;
      seen_digests = layer_digest ∷ s.seen_digests;
      role_positions = s.role_positions ++ position role layer_role_order ∷ [];
      graph = record g { edges = edge ∷ g.edges };
    })

  unfoldable pub visit_layers :
      Text → Value → List Text → ℕ → Items → LayerScan → Result OciError LayerScan
  unfolding visit_layer
  visit_layers repository from allowed_roles index nil s = ok s
  visit_layers repository from allowed_roles index (cons layer layers) s = do
    scanned ← visit_layer repository from allowed_roles index layer s
    visit_layers repository from allowed_roles (index + 1) layers scanned

  -- The manifest bytes, as far as the type of the artifact. `root` is the root descriptor where the
  -- manifest is the root.
  unfoldable pub open_manifest :
      Text → Value → Option Text → Option Value → Graph → Result OciError Opened
  unfolding fetch_exact jcs_object all_contained keys equal get lookup ◌=ₜ◌
  open_manifest repository descriptor expected_type root g = do
    (payload, fetched_graph) ←
        fetch_exact v repository descriptor v.limits.maximum_manifest_bytes (codes "oci-manifest") g
    manifest ← jcs_object v.libraries payload
    require
        (all_contained (keys manifest)
            (required_fields ++ codes "subject" ∷ codes "annotations" ∷ [])
          && all_contained required_fields (keys manifest))
        oci_manifest_shape_invalid
    require
        (equal (get (codes "schemaVersion") manifest) (number 2)
          && equal (get (codes "mediaType") manifest) (string oci_manifest_media_type))
        oci_manifest_profile_mismatch
    artifact_type ← lookup_key oci_artifact_type_unregistered (get (codes "artifactType") manifest)
    role ← found oci_artifact_type_unregistered (lookup artifact_type v.type_roles)
    require (expects expected_type artifact_type) oci_artifact_type_mismatch
    require (root_expects root artifact_type) oci_root_type_mismatch
    ok (record {
      manifest = manifest;
      artifact_type = artifact_type;
      role = role;
      graph = fetched_graph;
    })

  -- The config of a manifest.
  unfoldable pub visit_config : Text → Value → Value → Graph → Result OciError Graph
  unfolding fetch_exact equal get ◌=ₜ◌
  visit_config repository from manifest g = do
    let config = get (codes "config") manifest
    require (equal config empty_config) oci_config_descriptor_invalid
    (payload, fetched_graph) ←
        fetch_exact v repository config v.limits.maximum_blob_bytes (codes "empty-config") g
    require (payload =ₜ empty_config_bytes) oci_config_bytes_invalid
    let edge : Edge = record {
      from = from;
      kind = codes "config";
      index = 0;
      to = get (codes "digest") config;
      role = codes "empty-config";
    }
    ok (record fetched_graph { edges = edge ∷ fetched_graph.edges })

  -- The layers of a manifest, and the order of their roles.
  unfoldable pub check_layers : Text → Value → Opened → Graph → Result OciError Graph
  unfolding visit_layers lookup get sort ◌=ₜ◌
  check_layers repository from opened g = do
    layers ← layer_items (get (codes "layers") opened.manifest)
    allowed_roles ←
        found oci_artifact_role_registry_missing (lookup opened.artifact_type v.layer_roles)
    let start : LayerScan = record {
      seen_roles = [];
      seen_digests = [];
      role_positions = [];
      graph = g;
    }
    scanned ← visit_layers repository from allowed_roles 0 layers start
    require (scanned.role_positions =ₜ sort ltb scanned.role_positions) oci_layer_role_order_invalid
    ok scanned.graph

  -- Everything of a new manifest before the visit of its subject.
  unfoldable pub enter_manifest :
      Text
      → Value
      → Value
      → Option Text
      → Option Value
      → Graph
      → Result OciError (Opened × Option Value × Graph)
  unfolding open_manifest visit_config check_layers check_subject
  enter_manifest repository descriptor d expected_type root g = do
    require (ltb (length g.objects) v.limits.maximum_objects) oci_graph_limit_exceeded
    opened ←
        open_manifest repository descriptor expected_type root
          (record g { visiting = (repository, d) ∷ g.visiting })
    configured ← visit_config repository d opened.manifest opened.graph
    layered ← check_layers repository d opened configured
    (subject, linked) ← check_subject d opened.manifest layered
    ok (opened, subject, linked)

  abbrev subject_digest : Value → Value
  subject_digest subject = if is_null subject then null else get (codes "digest") subject

  abbrev annotations_digest : Value → Value
  annotations_digest annotations =
      if is_null annotations then null else string (canonical_digest v.libraries annotations)

  abbrev pub root_metadata : Option Value → Value → Bool
  root_metadata none manifest = true
  root_metadata (some root) manifest =
      equal (get (codes "subjectDigest") root) (subject_digest (get (codes "subject") manifest))
      && equal (get (codes "annotationsDigest") root)
          (annotations_digest (get (codes "annotations") manifest))

  -- Everything of a new manifest behind the visit of its subject.
  unfoldable pub leave_manifest :
      Text → Value → Option Value → Opened → Graph → Result OciError Graph
  unfolding all_texts equal get assign_role leave
  leave_manifest repository d root opened g = do
    let annotations = get (codes "annotations") opened.manifest
    require (is_null annotations || text_annotations annotations) oci_manifest_annotations_invalid
    require (root_metadata root opened.manifest) oci_root_metadata_mismatch
    ok (record g {
      objects =
          record { repository = repository; manifest_digest = d; manifest = opened.manifest }
          ∷ g.objects;
      payload_records =
          assign_role repository d (codes "artifact:" ++ opened.role) opened.artifact_type
            g.payload_records;
      visiting = leave repository d g.visiting;
    })

  -- The guards at the head of `visit_manifest`: the digest of the descriptor.
  unfoldable pub check_visit : Text → Value → ℕ → Graph → Result OciError Value
  unfolding hashable is_visiting
  check_visit repository descriptor depth g = do
    require (leb depth v.limits.maximum_depth) oci_graph_limit_exceeded
    d ← item (codes "digest") descriptor
    require (hashable d) python_error
    require (not (is_visiting repository d g.visiting)) oci_graph_cycle
    ok d

  -- What `visit_manifest` does with a manifest that it has not seen; `visit` is the recursive call.
  unfoldable pub visit_new :
      (Value → Graph → Result VisitError (Value × Graph))
      → Text
      → Value
      → Value
      → Option Text
      → Option Value
      → Graph
      → Result VisitError (Value × Graph)
  unfolding enter_manifest leave_manifest
  visit_new visit repository descriptor d expected_type root g = do
    (opened, subject, entered) ← lift (enter_manifest repository descriptor d expected_type root g)
    visited ← visit_subject visit subject entered
    left ← lift (leave_manifest repository d root opened visited)
    ok (opened.manifest, left)

  -- `visit_manifest`, with fuel.
  unfoldable pub visit_manifest :
      ℕ → Text → Value → ℕ → Option Text → Option Value → Graph → Result VisitError (Value × Graph)
  unfolding check_visit find_object visit_new
  visit_manifest zero repository descriptor depth expected_type root g = err out_of_fuel
  visit_manifest (suc fuel) repository descriptor depth expected_type root g = do
    d ← lift (check_visit repository descriptor depth g)
    let observed : Graph = record g { observed_depth = max g.observed_depth depth }
    unless_visited (find_object repository d g.objects) observed (
        visit_new (λ s below. visit_manifest fuel repository s (depth + 1) none none below)
          repository descriptor d expected_type root observed)
