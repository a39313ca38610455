-- ===== src/Oci/Graph/Visit/Tables.antt =====
-- `visit_manifest` of scripts/contracts/oci_graph.py: its tables, and the parts that do not fetch.

use bytedesk_agent_delivery.Prelude.{
  ℕ, ◌+◌, Text, codes, Bool, true, false, ◌&&◌, ◌||◌, List, [], ◌∷◌, Option, none, some, Result, ok,
  err, ◌>>=◌, ◌>>◌, require, ◌=ₜ◌, if◌then◌else◌,
}
use bytedesk_agent_delivery.Json.{
  Value, null, string, array, object, Items, cons, Fields, end, field, name,
}
use bytedesk_agent_delivery.Json.Document.{get, equal, keys, same_set}
use bytedesk_agent_delivery.Oci.{
  OciError, oci_layers_empty, oci_subject_descriptor_invalid, python_error,
}
use bytedesk_agent_delivery.Oci.Json.{is_dict}
use bytedesk_agent_delivery.Oci.Registry.{
  oci_manifest_media_type, oci_layer_media_type, layer_role_annotation,
}
use bytedesk_agent_delivery.Oci.Graph.{PayloadRecord, ManifestRecord, Edge, Graph}

-- What a verification raises: an error of the code, or `out_of_fuel`, which is no exception of the
-- program and which the theorems exclude.
pub data VisitError : Type 0 where
  raised : OciError → VisitError
  out_of_fuel : VisitError

abbrev pub lift {ℓ} : {A : Type ℓ} → Result OciError A → Result VisitError A
lift (ok a) = ok a
lift (err e) = err (raised e)

-- `key in visiting`
unfoldable pub is_visiting : Text → Value → List (Text × Value) → Bool
unfolding equal ◌=ₜ◌
is_visiting repository d [] = false
is_visiting repository d ((r, x) ∷ keys') =
    (r =ₜ repository && equal x d) || is_visiting repository d keys'

-- `visiting.remove(key)`
unfoldable pub leave : Text → Value → List (Text × Value) → List (Text × Value)
unfolding equal ◌=ₜ◌
leave repository d [] = []
leave repository d ((r, x) ∷ keys') =
    if r =ₜ repository && equal x d
    then leave repository d keys'
    else (r, x) ∷ leave repository d keys'

-- `objects.get(key)`
unfoldable pub find_object : Text → Value → List ManifestRecord → Option ManifestRecord
unfolding equal ◌=ₜ◌
find_object repository d [] = none
find_object repository d (o ∷ objects) =
    if o.repository =ₜ repository && equal o.manifest_digest d
    then some o
    else find_object repository d objects

-- The entry of `payload_records` takes the role and the type of the artifact.
unfoldable pub assign_role : Text → Value → Text → Text → List PayloadRecord → List PayloadRecord
unfolding equal ◌=ₜ◌
assign_role repository d role artifact_type [] = []
assign_role repository d role artifact_type (r ∷ records) =
    (if r.repository =ₜ repository && equal r.payload_digest d
      then record r { semantic_role = role; artifact_type = some artifact_type }
      else r)
    ∷ assign_role repository d role artifact_type records

-- A value that is looked up among texts: no text is found where it is none, and a list or a `dict`
-- is a `TypeError`.
abbrev pub lookup_key : OciError → Value → Result OciError Text
lookup_key e (string t) = ok t
lookup_key e (array items) = err python_error
lookup_key e (object fields) = err python_error
lookup_key e _ = err e

abbrev pub found {ℓ} : {A : Type ℓ} → OciError → Option A → Result OciError A
found e none = err e
found e (some a) = ok a

-- `layers`, which is a list with an entry.
abbrev pub layer_items : Value → Result OciError Items
layer_items (array (cons layer rest)) = ok (cons layer rest)
layer_items _ = err oci_layers_empty

-- `annotations.keys() == {LAYER_ROLE_ANNOTATION}`; anything but a `dict` has no `keys`.
abbrev annotation_keys : Value → Result OciError Bool
annotation_keys (object fields) = ok (same_set (keys (object fields)) (layer_role_annotation ∷ []))
annotation_keys _ = err python_error

-- The shape of a layer.
unfoldable pub layer_is_closed : Value → Result OciError Bool
unfolding is_dict same_set keys equal get
layer_is_closed layer =
    if is_dict layer
      && (same_set (keys layer)
            (codes "mediaType" ∷ codes "digest" ∷ codes "size" ∷ codes "annotations" ∷ [])
          && equal (get (codes "mediaType") layer) (string oci_layer_media_type))
    then annotation_keys (get (codes "annotations") layer)
    else ok false

-- `LAYER_ROLE_ORDER.index(role)`
unfoldable pub position : Text → List Text → ℕ
unfolding ◌=ₜ◌
position role [] = 0
position role (r ∷ roles) = if r =ₜ role then 0 else position role roles + 1

unfoldable pub is_in : Value → List Value → Bool
unfolding equal
is_in x [] = false
is_in x (y ∷ ys) = equal y x || is_in x ys

-- The variables of the loop over the layers.
pub record LayerScan : Type 0 where
  pub seen_roles : List Text
  pub seen_digests : List Value
  pub role_positions : List ℕ
  pub graph : Graph

unfoldable pub all_texts : Fields → Bool
all_texts end = true
all_texts (field (name k) (string t) rest) = all_texts rest
all_texts (field k value rest) = false

-- `isinstance(annotations, dict) and all(…)`
abbrev pub text_annotations : Value → Bool
text_annotations (object fields) = all_texts fields
text_annotations _ = false

abbrev pub is_null : Value → Bool
is_null null = true
is_null _ = false

-- What is known of a manifest before its subject is visited.
pub record Opened : Type 0 where
  pub manifest : Value
  pub artifact_type : Text
  pub role : Text
  pub graph : Graph

abbrev pub required_fields : List Text
required_fields =
    codes "schemaVersion"
    ∷ codes "mediaType"
    ∷ codes "artifactType"
    ∷ codes "config"
    ∷ codes "layers"
    ∷ []

abbrev pub expects : Option Text → Text → Bool
expects none artifact_type = true
expects (some expected) artifact_type = artifact_type =ₜ expected

abbrev pub root_expects : Option Value → Text → Bool
root_expects none artifact_type = true
root_expects (some root) artifact_type =
    equal (get (codes "artifactType") root) (string artifact_type)

-- The branch on `subject is not None`: nothing, or the checked descriptor with the new edge.
unfoldable pub link_subject : Bool → Value → Value → Graph → Result OciError (Option Value × Graph)
unfolding is_dict same_set keys equal get
link_subject true from subject g = ok (none, g)
link_subject false from subject g = do
  require
      (is_dict subject
        && (same_set (keys subject) (codes "mediaType" ∷ codes "digest" ∷ codes "size" ∷ [])
            && equal (get (codes "mediaType") subject) (string oci_manifest_media_type)))
      oci_subject_descriptor_invalid
  let edge : Edge = record {
    from = from;
    kind = codes "subject";
    index = 0;
    to = get (codes "digest") subject;
    role = codes "same-repository-subject";
  }
  ok (some subject, record g { edges = edge ∷ g.edges })

unfoldable pub check_subject : Value → Value → Graph → Result OciError (Option Value × Graph)
unfolding link_subject get
check_subject from manifest g =
    let subject = get (codes "subject") manifest in link_subject (is_null subject) from subject g

-- `if key in objects: return objects[key]["manifest"]`, and what stands behind it.
abbrev pub unless_visited :
    Option ManifestRecord
    → Graph
    → Result VisitError (Value × Graph)
    → Result VisitError (Value × Graph)
unless_visited (some o) g further = ok (o.manifest, g)
unless_visited none g further = further

-- The visit of a subject, where there is one.
abbrev pub visit_subject :
    (Value → Graph → Result VisitError (Value × Graph))
    → Option Value
    → Graph
    → Result VisitError Graph
visit_subject visit none g = ok g
visit_subject visit (some subject) g = visit subject g >>= λ visited. ok visited.1
