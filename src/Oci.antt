-- ===== src/Oci.antt =====
-- scripts/contracts/oci_graph.py: what its functions raise, and its limits on the wire.
pub mod Base64
pub mod Stream
pub mod Registry
pub mod Json
pub mod Manifest
pub mod Graph
mod Tests
use bytedesk_agent_delivery.Prelude.{ℕ}

-- The codes of `OciGraphError`.
pub data OciError : Type 0 where
  oci_wire_bytes_invalid : OciError
  oci_wire_bytes_noncanonical : OciError
  oci_graph_limit_exceeded : OciError
  oci_blob_stream_invalid : OciError
  oci_blob_stream_chunk_mismatch : OciError
  oci_blob_stream_digest_mismatch : OciError
  public_render_publication_manifest_mismatch : OciError
  public_render_publication_blob_set_invalid : OciError
  oci_duplicate_json_member oci_non_finite_number : OciError
  oci_manifest_json_invalid oci_manifest_not_jcs : OciError
  oci_artifact_type_unregistered oci_layers_empty : OciError
  oci_root_descriptor_invalid oci_repository_mismatch oci_root_type_mismatch : OciError
  oci_descriptor_invalid oci_descriptor_equivocation : OciError
  oci_object_missing oci_object_not_bytes : OciError
  oci_object_digest_mismatch oci_object_size_mismatch : OciError
  oci_graph_cycle oci_manifest_shape_invalid oci_manifest_profile_mismatch : OciError
  oci_artifact_type_mismatch oci_config_descriptor_invalid oci_config_bytes_invalid : OciError
  oci_artifact_role_registry_missing oci_layer_descriptor_invalid : OciError
  oci_media_role_unregistered oci_layer_role_duplicate oci_layer_role_order_invalid : OciError
  oci_subject_descriptor_invalid oci_manifest_annotations_invalid : OciError
  oci_root_metadata_mismatch : OciError
  -- a `KeyError`, `TypeError` or `AttributeError` that the code does not catch
  python_error : OciError

abbrev pub oci_wire_chunk_bytes : ℕ
oci_wire_chunk_bytes = 4_194_304

abbrev pub oci_wire_blob_bytes : ℕ
oci_wire_blob_bytes = 67_108_864
