-- ===== src/Oci/Graph/Layers.antt =====
-- The config and the layers of a manifest in scripts/contracts/oci_graph.py: each is fetched and
-- recorded, and what holds of the state is kept.

use bytedesk_agent_delivery.Prelude.{
  ℕ, ◌+◌, ◌≡◌, refl, sym, ◌∙◌, ap, subst, Bytes, Text, codes, true, not, ◌&&◌, List, [], ◌++◌,
  Option, none, some, ok, ltb, ◌=ₜ◌, arith, >>=-eq-ok, ok-injective, require-eq-ok, sort,
}
use bytedesk_agent_delivery.Json.{
  Value, null, boolean, integer, floating, string, array, object, other, Items, nil, cons,
}
use bytedesk_agent_delivery.Json.Document.{get, member, equal, contains}
use bytedesk_agent_delivery.Json.Document.Laws.{member-get}
use bytedesk_agent_delivery.Oci.{
  oci_layer_descriptor_invalid, oci_media_role_unregistered, oci_layer_role_duplicate,
  oci_config_descriptor_invalid, oci_config_bytes_invalid, oci_artifact_role_registry_missing,
  oci_layer_role_order_invalid, python_error,
}
use bytedesk_agent_delivery.Oci.Json.{item, present}
use bytedesk_agent_delivery.Json.Document.{hashable}
use bytedesk_agent_delivery.Oci.Manifest.{lookup, empty_config}
use bytedesk_agent_delivery.Oci.Registry.{
  empty_config_bytes, layer_role_annotation, layer_role_order,
}
use bytedesk_agent_delivery.Oci.Graph.{Verifier, PayloadRecord, Edge, Graph, fetch_exact}
use bytedesk_agent_delivery.Oci.Graph.Visit.{
  LayerScan, Opened, lookup_key, found, layer_items, layer_is_closed, is_in, visit_layer,
  visit_layers, visit_config, check_layers,
}
use bytedesk_agent_delivery.Oci.Graph.Laws.{has_record, Sound, Grows, Fetch, fetch_exact-Fetch}

-- Every layer is recorded.
abbrev pub AllRecorded : Text → Items → List PayloadRecord → Type 0
AllRecorded repository nil records = Unit
AllRecorded repository (cons layer layers) records =
    (has_record repository (get (codes "digest") layer) records ≡ true)
    × AllRecorded repository layers records

pub AllRecorded-grows :
    (repository : Text) (layers : Items) (xs ys : List PayloadRecord)
    → ((d : Value) → has_record repository d xs ≡ true → has_record repository d ys ≡ true)
    → AllRecorded repository layers xs
    → AllRecorded repository layers ys
AllRecorded-grows repository nil xs ys grow a = tt
AllRecorded-grows repository (cons layer layers) xs ys grow a =
    (grow (get (codes "digest") layer) a.0, AllRecorded-grows repository layers xs ys grow a.1)

present-get : (o : Option Value) {v : Value} → present o ≡ ok v → o ≡ some v
present-get none h = cc
present-get (some v) h = cc

-- A member that is there is what `get` gives.
pub item-get : (k : Text) (d : Value) {v : Value} → item k d ≡ ok v → get k d ≡ v
item-get k d h = member-get k d (present-get (member k d) h)

layer_items-array :
    (value : Value) {layers : Items} → layer_items value ≡ ok layers → value ≡ array layers
layer_items-array (array (cons layer rest)) h = ap array (ok-injective h)
layer_items-array (array nil) h = cc
layer_items-array null h = cc
layer_items-array (boolean b) h = cc
layer_items-array (integer i) h = cc
layer_items-array (floating f) h = cc
layer_items-array (string t) h = cc
layer_items-array (object f) h = cc
layer_items-array other h = cc

module _ (v : Verifier) where
  -- What a part of a visit keeps that leaves the visited manifests alone.
  pub record Keeps (g g' : Graph) : Type 0 where
    pub sound : Sound v g → Sound v g'
    pub objects_kept : g'.objects ≡ g.objects
    pub grows : Grows v g g'

  pub Keeps-trans : (a b c : Graph) → Keeps a b → Keeps b c → Keeps a c
  Keeps-trans a b c p q = record {
    sound = λ s. q.sound (p.sound s);
    objects_kept = q.objects_kept ∙ p.objects_kept;
    grows = λ r d h. q.grows r d (p.grows r d h);
  }

  -- The edges and the manifests under way do not count.
  pub Sound-edges :
      (g : Graph) (edges : List Edge) (visiting : List (Text × Value))
      → Sound v g
      → Sound v (record g { edges = edges; visiting = visiting })
  Sound-edges g edges visiting s = record {
    stored = s.stored;
    genuine = s.genuine;
    total = s.total;
    total_within = s.total_within;
    count_within = s.count_within;
    depth_within = s.depth_within;
  }

  pub Fetch-Keeps :
      (repository : Text) (descriptor : Value) (g g' : Graph) (payload : Bytes) (edges : List Edge)
      → Fetch v repository descriptor g g' payload
      → Keeps g (record g' { edges = edges })
  Fetch-Keeps repository descriptor g g' payload edges f = record {
    sound = λ s. Sound-edges g' edges g'.visiting (f.sound s);
    objects_kept = f.objects_kept;
    grows = f.grows;
  }

  pub Fetch-recorded :
      (repository : Text) (descriptor : Value) (g g' : Graph) (payload : Bytes)
      → Fetch v repository descriptor g g' payload
      → has_record repository (get (codes "digest") descriptor) g'.payload_records ≡ true
  Fetch-recorded repository descriptor g g' payload f =
      subst (λ d. has_record repository d g'.payload_records ≡ true)
        (sym (item-get (codes "digest") descriptor f.digest_at)) f.recorded

  pub record Layered (repository : Text) (layers : Items) (g g' : Graph) : Type 0 where
    pub keeps : Keeps g g'
    pub recorded : AllRecorded repository layers g'.payload_records

  visit_layer-Keeps :
      (repository : Text) (from : Value) (allowed_roles : List Text) (index : ℕ) (layer : Value)
      (s : LayerScan) {s' : LayerScan}
      → visit_layer v repository from allowed_roles index layer s ≡ ok s'
      → Keeps s.graph s'.graph
        × (has_record repository (get (codes "digest") layer) s'.graph.payload_records ≡ true)
  unfolding visit_layer
  visit_layer-Keeps repository from allowed_roles index layer s h =
      let (closed, _, h1) = >>=-eq-ok (layer_is_closed layer) _ h in
      let (_, h2) = require-eq-ok closed oci_layer_descriptor_invalid _ h1 in
      let (annotations, _, h3) = >>=-eq-ok (item (codes "annotations") layer) _ h2 in
      let (role_value, _, h4) = >>=-eq-ok (item layer_role_annotation annotations) _ h3 in
      let (role, _, h5) = >>=-eq-ok (lookup_key oci_media_role_unregistered role_value) _ h4 in
      let (_, h6) =
        require-eq-ok (contains role allowed_roles && contains role layer_role_order)
          oci_media_role_unregistered _ h5 in
      let (_, h7) =
        require-eq-ok (not (contains role s.seen_roles)) oci_layer_role_duplicate _ h6 in
      let (d, d_at, h8) = >>=-eq-ok (item (codes "digest") layer) _ h7 in
      let (_, h9) = require-eq-ok (hashable d) python_error _ h8 in
      let (_, h10) = require-eq-ok (not (is_in d s.seen_digests)) oci_layer_role_duplicate _ h9 in
      let ((payload, g), at, h11) =
        >>=-eq-ok
          (fetch_exact v repository layer v.limits.maximum_blob_bytes (codes "layer:" ++ role)
            s.graph)
          _ h10 in
      let f =
        fetch_exact-Fetch v repository layer v.limits.maximum_blob_bytes (codes "layer:" ++ role)
          s.graph at (omega arith) in
      subst
        (λ (x : LayerScan).
          Keeps s.graph x.graph
          × (has_record repository (get (codes "digest") layer) x.graph.payload_records ≡ true))
        (ok-injective h11)
        (
          Fetch-Keeps repository layer s.graph g payload _ f,
          Fetch-recorded repository layer s.graph g payload f,
        )

  visit_layers-Layered :
      (repository : Text) (from : Value) (allowed_roles : List Text) (index : ℕ) (layers : Items)
      (s : LayerScan) {s' : LayerScan}
      → visit_layers v repository from allowed_roles index layers s ≡ ok s'
      → Layered repository layers s.graph s'.graph
  unfolding visit_layers
  visit_layers-Layered repository from allowed_roles index nil s h =
      subst (λ (x : LayerScan). Layered repository nil s.graph x.graph) (ok-injective h)
        (record {
          keeps = record { sound = λ x. x; objects_kept = refl; grows = λ r d x. x };
          recorded = tt;
        })
  visit_layers-Layered repository from allowed_roles index (cons layer layers) s {s'} h =
      let (scanned, at, h1) =
        >>=-eq-ok (visit_layer v repository from allowed_roles index layer s) _ h in
      let (first, here) = visit_layer-Keeps repository from allowed_roles index layer s at in
      let rest = visit_layers-Layered repository from allowed_roles (index + 1) layers scanned h1 in
      record {
        keeps = Keeps-trans s.graph scanned.graph s'.graph first rest.keeps;
        recorded = (rest.keeps.grows repository (get (codes "digest") layer) here, rest.recorded);
      }

  -- The config is fetched and recorded.
  pub visit_config-Keeps :
      (repository : Text) (from manifest : Value) (g : Graph) {g' : Graph}
      → visit_config v repository from manifest g ≡ ok g'
      → Keeps g g'
        × (has_record repository
              (get (codes "digest") (get (codes "config") manifest))
              g'.payload_records
            ≡ true)
  unfolding visit_config
  visit_config-Keeps repository from manifest g h =
      let config = get (codes "config") manifest in
      let (_, h1) = require-eq-ok (equal config empty_config) oci_config_descriptor_invalid _ h in
      let ((payload, fetched_graph), at, h2) =
        >>=-eq-ok
          (fetch_exact v repository config v.limits.maximum_blob_bytes (codes "empty-config") g) _
          h1 in
      let (_, h3) = require-eq-ok (payload =ₜ empty_config_bytes) oci_config_bytes_invalid _ h2 in
      let f =
        fetch_exact-Fetch v repository config v.limits.maximum_blob_bytes (codes "empty-config") g
          at (omega arith) in
      subst
        (λ (x : Graph).
          Keeps g x
          × (has_record repository (get (codes "digest") config) x.payload_records ≡ true))
        (ok-injective h3)
        (
          Fetch-Keeps repository config g fetched_graph payload _ f,
          Fetch-recorded repository config g fetched_graph payload f,
        )

  -- The layers are a list with an entry, and each is fetched and recorded.
  pub check_layers-Layered :
      (repository : Text) (from : Value) (opened : Opened) (g : Graph) {g' : Graph}
      → check_layers v repository from opened g ≡ ok g'
      → (layers : Items) × (get (codes "layers") opened.manifest ≡ array layers)
        × Layered repository layers g g'
  unfolding check_layers
  check_layers-Layered repository from opened g h =
      let (layers, at, h1) = >>=-eq-ok (layer_items (get (codes "layers") opened.manifest)) _ h in
      let (allowed_roles, _, h2) =
        >>=-eq-ok
          (found oci_artifact_role_registry_missing (lookup opened.artifact_type v.layer_roles)) _
          h1 in
      let start : LayerScan = record {
        seen_roles = [];
        seen_digests = [];
        role_positions = [];
        graph = g;
      } in
      let (scanned, scan_at, h3) =
        >>=-eq-ok (visit_layers v repository from allowed_roles 0 layers start) _ h2 in
      let (_, h4) =
        require-eq-ok (scanned.role_positions =ₜ sort ltb scanned.role_positions)
          oci_layer_role_order_invalid _ h3 in
      subst
        (λ (x : Graph).
          (layers : Items) × (get (codes "layers") opened.manifest ≡ array layers)
          × Layered repository layers g x)
        (ok-injective h4)
        (
          layers,
          layer_items-array (get (codes "layers") opened.manifest) at,
          visit_layers-Layered repository from allowed_roles 0 layers start scan_at,
        )
