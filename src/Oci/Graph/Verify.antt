-- ===== src/Oci/Graph/Verify.antt =====
-- `verify` of `OciGraphVerifier` in scripts/contracts/oci_graph.py: the checks on the root, the visit,
-- and the digest of the graph.
use bytedesk_agent_delivery.Prelude.{
  ℕ, suc, Text, codes, String, Bool, ◌&&◌, ◌||◌, List, [], ◌∷◌, Option, none, some, Result, ok,
  ◌>>=◌, ◌>>◌, require, length, ltb, ◌==◌, ◌=ₜ◌, sort, text_less,
}
use bytedesk_agent_delivery.Json.{Value, string, array, Items, nil, cons}
use bytedesk_agent_delivery.Json.Document.{text, number, document, get, equal, keys, same_set}
use bytedesk_agent_delivery.Oci.{
  OciError, oci_root_type_mismatch, oci_root_descriptor_invalid, oci_repository_mismatch,
  python_error,
}
use bytedesk_agent_delivery.Oci.Manifest.{canonical_digest}
use bytedesk_agent_delivery.Oci.Registry.{oci_manifest_media_type}
use bytedesk_agent_delivery.Oci.Graph.{Verifier, PayloadRecord, Edge, Graph, empty_graph}
use bytedesk_agent_delivery.Oci.Graph.Visit.{VisitError, lift, found, find_object, visit_manifest}

-- A digest as a key of a sort; every digest that is recorded is a text.
abbrev pub text_of : Value → Text
text_of (string t) = t
text_of _ = []

-- `(value["repository"].encode("utf-8"), value["digest"])`
unfoldable pub record_less : PayloadRecord → PayloadRecord → Bool
unfolding text_less ◌=ₜ◌
record_less a b =
    text_less a.repository b.repository
    || (a.repository =ₜ b.repository
        && text_less (text_of a.payload_digest) (text_of b.payload_digest))

-- `(value["from"], value["kind"], value["index"], value["to"], value["role"])`
unfoldable pub edge_less : Edge → Edge → Bool
unfolding text_less ◌=ₜ◌
edge_less a b =
    text_less (text_of a.from) (text_of b.from)
    || (text_of a.from =ₜ text_of b.from
        && (text_less a.kind b.kind
            || (a.kind =ₜ b.kind
                && (ltb a.index b.index
                    || (a.index == b.index
                        && (text_less (text_of a.to) (text_of b.to)
                            || (text_of a.to =ₜ text_of b.to && text_less a.role b.role)))))))

abbrev type_member : Option Text → List (String × Value)
type_member none = []
type_member (some artifact_type) = ("artifactType", string artifact_type) ∷ []

abbrev pub record_document : PayloadRecord → Value
record_document r = document (
    ("repository", string r.repository)
    ∷ ("digest", r.payload_digest)
    ∷ ("mediaType", r.media_type)
    ∷ ("size", r.size)
    ∷ ("semanticRole", string r.semantic_role)
    ∷ type_member r.artifact_type)

unfoldable pub record_items : List PayloadRecord → Items
record_items [] = nil
record_items (r ∷ records) = cons (record_document r) (record_items records)

abbrev pub edge_document : Edge → Value
edge_document e = document (
    ("from", e.from)
    ∷ ("kind", string e.kind)
    ∷ ("index", number e.index)
    ∷ ("to", e.to)
    ∷ ("role", string e.role)
    ∷ [])

unfoldable pub edge_items : List Edge → Items
edge_items [] = nil
edge_items (e ∷ edges) = cons (edge_document e) (edge_items edges)

-- The document of the graph digest.
unfoldable pub graph_document : Value → Graph → Value
unfolding record_items edge_items record_less edge_less sort
graph_document root g = document (
    ("profile", text "bytedesk.oci-recursive-graph/1")
    ∷ ("root", root)
    ∷ ("objects", array (record_items (sort record_less g.payload_records)))
    ∷ ("edges", array (edge_items (sort edge_less g.edges)))
    ∷ [])

-- What `verify` returns.
pub record Verified : Type 0 where
  pub root_descriptor : Value
  pub config_descriptor : Value
  pub layer_descriptors : Value
  pub artifact_type : Value
  pub subject : Value
  pub graph_digest : Text
  pub object_count : ℕ
  pub total_bytes : ℕ
  pub maximum_depth_observed : ℕ

abbrev root_fields : List Text
root_fields =
    codes "repository"
    ∷ codes "digest"
    ∷ codes "mediaType"
    ∷ codes "artifactType"
    ∷ codes "size"
    ∷ codes "subjectDigest"
    ∷ codes "annotationsDigest"
    ∷ []

-- The descriptor that the visit of the root starts from.
abbrev pub visited_descriptor : Value → Value
visited_descriptor root = document (
    ("digest", get (codes "digest") root)
    ∷ ("mediaType", get (codes "mediaType") root)
    ∷ ("size", get (codes "size") root)
    ∷ [])

-- The guards of `verify`.
unfoldable pub check_root : Value → Text → Text → Result OciError (Unit {0})
unfolding same_set keys equal get
check_root root expected_repository expected_artifact_type = do
  require (same_set (keys root) root_fields) oci_root_descriptor_invalid
  require (equal (get (codes "repository") root) (string expected_repository))
      oci_repository_mismatch
  require
      (equal (get (codes "mediaType") root) (string oci_manifest_media_type)
        && equal (get (codes "artifactType") root) (string expected_artifact_type))
      oci_root_type_mismatch

module _ (v : Verifier) where
  -- The fuel of the visit: two rounds more than the depth that the limits allow.
  abbrev pub enough : ℕ
  enough = suc (suc v.limits.maximum_depth)

  unfoldable pub visit_root : Value → Text → Text → Result VisitError (Value × Graph)
  unfolding visit_manifest get
  visit_root root expected_repository expected_artifact_type =
      visit_manifest v enough expected_repository (visited_descriptor root) 0
        (some expected_artifact_type) (some root) empty_graph

  unfoldable pub verify : Value → Text → Text → Result VisitError Verified
  unfolding check_root visit_root find_object graph_document get
  verify root expected_repository expected_artifact_type = do
    lift (check_root root expected_repository expected_artifact_type)
    (document, g) ← visit_root root expected_repository expected_artifact_type
    o ←
        lift (
          found python_error
            (find_object expected_repository (get (codes "digest") root) g.objects))
    ok (record {
      root_descriptor = root;
      config_descriptor = get (codes "config") o.manifest;
      layer_descriptors = get (codes "layers") o.manifest;
      artifact_type = get (codes "artifactType") o.manifest;
      subject = get (codes "subject") o.manifest;
      graph_digest = canonical_digest v.libraries (graph_document root g);
      object_count = length g.payload_records;
      total_bytes = g.total_bytes;
      maximum_depth_observed = g.observed_depth;
    })
