-- ===== src/Oci/Manifest.antt =====
-- `oci_descriptor`, `build_oci_manifest` and `public_render_publication_payload_preimage` of
-- scripts/contracts/oci_graph.py.
pub mod Laws
mod Tests
use bytedesk_agent_delivery.Prelude.{
  ℕ, Bytes, Text, codes, Bool, true, false, not, ◌&&◌, List, [], ◌∷◌, ◌++◌, Option, none, some,
  String, Result, ok, err, ◌>>=◌, ◌>>◌, require, length, ◌=ₜ◌, sort, text_less, if◌then◌else◌,
}
use bytedesk_agent_delivery.Digest.{digest}
use bytedesk_agent_delivery.Json.{
  Value, null, string, array, object, Items, nil, cons, Fields, end, field, name,
}
use bytedesk_agent_delivery.Json.Document.{text, number, document, get, equal, contains}
use bytedesk_agent_delivery.Oci.{
  OciError, oci_artifact_type_unregistered, oci_layers_empty,
  public_render_publication_manifest_mismatch, public_render_publication_blob_set_invalid,
}
use bytedesk_agent_delivery.Oci.Json.{Libraries, item}
use bytedesk_agent_delivery.Oci.Registry.{
  oci_manifest_media_type, oci_empty_config_media_type, oci_layer_media_type,
  public_render_publication_payload_profile, empty_config_bytes, empty_config_digest,
  layer_role_annotation, artifact_type_roles,
}
use bytedesk_agent_delivery.Oci.Stream.{
  Stream, stream, WireStream, malformed_stream, decode_oci_blob_stream,
}

-- A `dict` lookup by text.
unfoldable pub lookup {ℓ} : {A : Type ℓ} → Text → List (Text × A) → Option A
unfolding ◌=ₜ◌
lookup key [] = none
lookup key ((k, value) ∷ rest) = if k =ₜ key then some value else lookup key rest

abbrev pub is_some {ℓ} : {A : Type ℓ} → Option A → Bool
is_some none = false
is_some (some a) = true

-- The blob map of one repository, by digest; a later entry replaces an earlier one.
abbrev pub Blobs : Type 0
Blobs = List (Text × Bytes)

-- `{layer_role_annotation: role}`
abbrev pub role_annotations : Text → Value
role_annotations role = object (field (name layer_role_annotation) (string role) end)

abbrev pub empty_config : Value
empty_config = document (
    ("mediaType", string oci_empty_config_media_type)
    ∷ ("digest", string empty_config_digest)
    ∷ ("size", number 2)
    ∷ [])

-- A published blob: its digest, media type and size.
pub record BlobDescriptor : Type 0 where
  pub blob_digest : Text
  pub media_type : Text
  pub size : ℕ

module _ (lib : Libraries) where
  -- `raw_digest`
  abbrev pub raw_digest : Bytes → Text
  raw_digest payload = digest lib.sha256 payload

  -- `canonical_digest`
  abbrev pub canonical_digest : Value → Text
  canonical_digest value = raw_digest (lib.jcs value)

  abbrev descriptor_members : Text → Bytes → List (String × Value)
  descriptor_members media_type payload =
      ("mediaType", string media_type)
      ∷ ("digest", string (raw_digest payload))
      ∷ ("size", number (length payload))
      ∷ []

  unfoldable pub oci_descriptor : Text → Bytes → Value
  oci_descriptor media_type payload = document (descriptor_members media_type payload)

  -- The descriptor of a layer, with its role.
  abbrev layer_descriptor : Text → Bytes → Value
  layer_descriptor role payload = document (
      descriptor_members oci_layer_media_type payload
      ++ ("annotations", role_annotations role) ∷ [])

  -- The loop over the layers: the descriptors, and the blobs with those of the layers.
  unfoldable pub layer_descriptors : List (Text × Bytes) → Items
  layer_descriptors [] = nil
  layer_descriptors ((role, payload) ∷ layers) =
      cons (layer_descriptor role payload) (layer_descriptors layers)

  unfoldable pub layer_blobs : List (Text × Bytes) → Blobs → Blobs
  layer_blobs [] blobs = blobs
  layer_blobs ((role, payload) ∷ layers) blobs =
      layer_blobs layers ((raw_digest payload, payload) ∷ blobs)

  abbrev optional : String → Option Value → List (String × Value)
  optional key none = []
  optional key (some value) = (key, value) ∷ []

  abbrev subject_digest : Option Value → Result OciError Value
  subject_digest none = ok null
  subject_digest (some subject) = item (codes "digest") subject

  abbrev annotations_digest : Option Value → Value
  annotations_digest none = null
  annotations_digest (some annotations) = string (canonical_digest annotations)

  abbrev is_empty : List (Text × Bytes) → Bool
  is_empty [] = true
  is_empty (layer ∷ layers) = false

  -- `manifest`
  unfoldable pub manifest_document :
      Text → List (Text × Bytes) → Option Value → Option Value → Value
  unfolding layer_descriptors
  manifest_document artifact_type layers subject annotations = document (
      ("schemaVersion", number 2)
      ∷ ("mediaType", string oci_manifest_media_type)
      ∷ ("artifactType", string artifact_type)
      ∷ ("config", empty_config)
      ∷ ("layers", array (layer_descriptors layers))
      ∷ (optional "subject" subject ++ optional "annotations" annotations))

  -- The root descriptor, the manifest bytes and the blobs of the repository.
  unfoldable pub build_oci_manifest :
      Text
      → Text
      → List (Text × Bytes)
      → Option Value
      → Option Value
      → Result OciError (Value × Bytes × Blobs)
  unfolding lookup manifest_document layer_blobs
  build_oci_manifest repository artifact_type layers subject annotations = do
    require (is_some (lookup artifact_type artifact_type_roles)) oci_artifact_type_unregistered
    require (not (is_empty layers)) oci_layers_empty
    let blobs = layer_blobs layers ((empty_config_digest, empty_config_bytes) ∷ [])
    let manifest_bytes = lib.jcs (manifest_document artifact_type layers subject annotations)
    subject_value ← subject_digest subject
    let root = document (
        ("repository", string repository)
        ∷ ("digest", string (raw_digest manifest_bytes))
        ∷ ("mediaType", string oci_manifest_media_type)
        ∷ ("artifactType", string artifact_type)
        ∷ ("size", number (length manifest_bytes))
        ∷ ("subjectDigest", subject_value)
        ∷ ("annotationsDigest", annotations_digest annotations)
        ∷ [])
    ok (root, manifest_bytes, (raw_digest manifest_bytes, manifest_bytes) ∷ blobs)

  -- The loop over the blobs.
  unfoldable pub published_blobs :
      Value → List Text → List WireStream → Result OciError (List BlobDescriptor)
  unfolding decode_oci_blob_stream equal contains ◌=ₜ◌
  published_blobs root_digest seen [] = ok []
  published_blobs root_digest seen (malformed_stream ∷ blobs) = do
    decode_oci_blob_stream lib.sha256 malformed_stream >>= λ payload. ok []
  published_blobs root_digest seen (stream s ∷ blobs) = do
    payload ← decode_oci_blob_stream lib.sha256 (stream s)
    require
        (not (equal (string s.stream_digest) root_digest) && not (contains s.stream_digest seen))
        public_render_publication_blob_set_invalid
    require (raw_digest payload =ₜ s.stream_digest) public_render_publication_blob_set_invalid
    rest ← published_blobs root_digest (s.stream_digest ∷ seen) blobs
    ok (record { blob_digest = s.stream_digest; media_type = s.media_type; size = s.size } ∷ rest)

  abbrev by_digest : BlobDescriptor → BlobDescriptor → Bool
  by_digest a b = text_less a.blob_digest b.blob_digest

  unfoldable pub blob_items : List BlobDescriptor → Items
  blob_items [] = nil
  blob_items (b ∷ blobs) =
      cons
        (document (
          ("digest", string b.blob_digest)
          ∷ ("mediaType", string b.media_type)
          ∷ ("size", number b.size)
          ∷ []))
        (blob_items blobs)

  -- The preimage, given its blobs.
  unfoldable pub publication_document :
      Text → Value → Value → Bytes → Text → List BlobDescriptor → Value
  unfolding blob_items sort text_less
  publication_document destination_repository harness_render_descriptor root_descriptor
        manifest_bytes graph_digest descriptors =
      document (
        ("profile", string public_render_publication_payload_profile)
        ∷ ("destinationRepository", string destination_repository)
        ∷ ("harnessRenderDescriptor", harness_render_descriptor)
        ∷ ("rootDescriptor", root_descriptor)
        ∷ ("manifestDigest", string (raw_digest manifest_bytes))
        ∷ ("blobs", array (blob_items (sort by_digest descriptors)))
        ∷ ("graphDigest", string graph_digest)
        ∷ [])

  unfoldable pub public_render_publication_payload_preimage :
      Text → Value → Value → Bytes → List WireStream → Text → Result OciError Value
  unfolding equal get published_blobs publication_document
  public_render_publication_payload_preimage destination_repository harness_render_descriptor
        root_descriptor manifest_bytes blobs graph_digest =
      do
        require
            (equal (get (codes "repository") root_descriptor) (string destination_repository)
              && (equal (get (codes "digest") root_descriptor) (string (raw_digest manifest_bytes))
                  && equal (get (codes "size") root_descriptor) (number (length manifest_bytes))))
            public_render_publication_manifest_mismatch
        root_digest ← item (codes "digest") root_descriptor
        descriptors ← published_blobs root_digest [] blobs
        ok (
            publication_document destination_repository harness_render_descriptor root_descriptor
              manifest_bytes graph_digest descriptors)
