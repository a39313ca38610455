-- ===== src/Oci/Graph/Manifests.antt =====
-- One manifest of a graph in scripts/contracts/oci_graph.py: what is known when its subject is about
-- to be visited, and what the state is when it is left.

use bytedesk_agent_delivery.Prelude.{
  ◌≡◌, refl, sym, ◌∙◌, ap, subst, Bytes, Text, codes, Bool, true, false, ◌&&◌, ◌||◌, List, [], ◌∷◌,
  ◌++◌, Option, none, some, ok, length, ltb, ◌=ₜ◌, =ₜ→eq, arith, ◌⊎◌, inl, inr, >>=-eq-ok,
  ok-injective, require-eq-ok,
}
use bytedesk_agent_delivery.Json.{Value, string, array, Items}
use bytedesk_agent_delivery.Json.Document.{get, equal, keys, all_contained, same_set, number}
use bytedesk_agent_delivery.Json.Raw.{build}
use bytedesk_agent_delivery.Oci.{
  oci_graph_limit_exceeded, oci_manifest_shape_invalid, oci_manifest_profile_mismatch,
  oci_artifact_type_unregistered, oci_artifact_type_mismatch, oci_root_type_mismatch,
  oci_manifest_json_invalid, oci_manifest_not_jcs, oci_subject_descriptor_invalid,
}
use bytedesk_agent_delivery.Oci.Json.{Libraries, item, parsed, oci_hooks, is_dict, jcs_object}
use bytedesk_agent_delivery.Oci.Manifest.{lookup}
use bytedesk_agent_delivery.Oci.Registry.{oci_manifest_media_type}
use bytedesk_agent_delivery.Oci.Graph.{Verifier, ManifestRecord, Graph, fetch_exact}
use bytedesk_agent_delivery.Oci.Graph.Visit.{
  Opened, lookup_key, found, required_fields, expects, root_expects, open_manifest, visit_config,
  check_layers, link_subject, check_subject, is_null, enter_manifest,
}
use bytedesk_agent_delivery.Oci.Graph.Laws.{
  has_record, Genuine, Authentic, Fetch, fetch_exact-Fetch,
}
use bytedesk_agent_delivery.Oci.Graph.Layers.{
  AllRecorded, AllRecorded-grows, Keeps, Keeps-trans, Sound-edges, visit_config-Keeps,
  check_layers-Layered,
}

-- Whether a manifest has been visited under a key.
unfoldable pub has_object : Text → Value → List ManifestRecord → Bool
unfolding equal ◌=ₜ◌
has_object repository d [] = false
has_object repository d (o ∷ objects) =
    (o.repository =ₜ repository && equal o.manifest_digest d) || has_object repository d objects

jcs_object-canonical :
    (lib : Libraries) (payload : Bytes) {manifest : Value}
    → jcs_object lib payload ≡ ok manifest
    → lib.jcs manifest ≡ payload
unfolding jcs_object
jcs_object-canonical lib payload h =
    let (raw, _, h1) = >>=-eq-ok (parsed (lib.loads payload)) _ h in
    let (value, _, h2) = >>=-eq-ok (build (oci_hooks lib.to_float) raw) _ h1 in
    let (_, h3) = require-eq-ok (is_dict value) oci_manifest_json_invalid _ h2 in
    let (same, h4) = require-eq-ok (lib.jcs value =ₜ payload) oci_manifest_not_jcs _ h3 in
    subst (λ m. lib.jcs m ≡ payload) (ok-injective h4) (=ₜ→eq (lib.jcs value) payload same)

module _ (v : Verifier) where
  -- The bytes of a manifest are fetched, and it is the document of these bytes.
  pub record Opens (repository : Text) (descriptor : Value) (g : Graph) (opened : Opened)
      : Type 0 where
    pub payload : Bytes
    pub fetch : Fetch v repository descriptor g opened.graph payload
    pub canonical : v.libraries.jcs opened.manifest ≡ payload

  open_manifest-Opens :
      (repository : Text) (descriptor : Value) (expected_type : Option Text) (root : Option Value)
      (g : Graph) {opened : Opened}
      → open_manifest v repository descriptor expected_type root g ≡ ok opened
      → Opens repository descriptor g opened
  unfolding open_manifest
  open_manifest-Opens repository descriptor expected_type root g h =
      let ((payload, fetched_graph), at, h1) =
        >>=-eq-ok
          (fetch_exact v repository descriptor v.limits.maximum_manifest_bytes
            (codes "oci-manifest") g)
          _ h in
      let (manifest, jcs_at, h2) = >>=-eq-ok (jcs_object v.libraries payload) _ h1 in
      let (_, h3) =
        require-eq-ok
          (all_contained (keys manifest)
              (required_fields ++ codes "subject" ∷ codes "annotations" ∷ [])
            && all_contained required_fields (keys manifest))
          oci_manifest_shape_invalid _ h2 in
      let (_, h4) =
        require-eq-ok
          (equal (get (codes "schemaVersion") manifest) (number 2)
            && equal (get (codes "mediaType") manifest) (string oci_manifest_media_type))
          oci_manifest_profile_mismatch _ h3 in
      let (artifact_type, _, h5) =
        >>=-eq-ok (lookup_key oci_artifact_type_unregistered (get (codes "artifactType") manifest))
          _ h4 in
      let (role, _, h6) =
        >>=-eq-ok (found oci_artifact_type_unregistered (lookup artifact_type v.type_roles)) _ h5 in
      let (_, h7) =
        require-eq-ok (expects expected_type artifact_type) oci_artifact_type_mismatch _ h6 in
      let (_, h8) = require-eq-ok (root_expects root artifact_type) oci_root_type_mismatch _ h7 in
      subst (λ (x : Opened). Opens repository descriptor g x) (ok-injective h8)
        (record {
          payload = payload;
          fetch =
              fetch_exact-Fetch v repository descriptor v.limits.maximum_manifest_bytes
                (codes "oci-manifest") g at (omega arith);
          canonical = jcs_object-canonical v.libraries payload jcs_at;
        })

  -- The manifest that is entered is opened first.
  pub enter_manifest-Opens :
      (repository : Text) (descriptor d : Value) (expected_type : Option Text) (root : Option Value)
      (g : Graph) {entered : Opened × Option Value × Graph}
      → enter_manifest v repository descriptor d expected_type root g ≡ ok entered
      → (o : Opened) × Opens repository descriptor
          (record g { visiting = (repository, d) ∷ g.visiting })
          o
  unfolding enter_manifest
  enter_manifest-Opens repository descriptor d expected_type root g h =
      let begun : Graph = record g { visiting = (repository, d) ∷ g.visiting } in
      let (_, h1) =
        require-eq-ok (ltb (length g.objects) v.limits.maximum_objects) oci_graph_limit_exceeded _
          h in
      let (o, o_at, _) =
        >>=-eq-ok (open_manifest v repository descriptor expected_type root begun) _ h1 in
      (o, open_manifest-Opens repository descriptor expected_type root begun o_at)

  -- The subject of a manifest is missing, or is the descriptor to visit.
  abbrev pub SubjectOf : Value → Option Value → Type 0
  SubjectOf manifest none = is_null (get (codes "subject") manifest) ≡ true
  SubjectOf manifest (some subject) = get (codes "subject") manifest ≡ subject

  link_subject-Keeps :
      (b : Bool) (from subject : Value) (g : Graph) {chosen : Option Value} {g' : Graph}
      → link_subject b from subject g ≡ ok (chosen, g')
      → ((b ≡ true) × (none ≡ chosen) ⊎ (some subject ≡ chosen)) × Keeps v g g'
  unfolding link_subject
  link_subject-Keeps true from subject g h =
      let e = ok-injective h in
      (
        inl (refl, ap (λ x. x.0) e),
        subst (λ (x : Option Value × Graph). Keeps v g x.1) e
            (record { sound = λ x. x; objects_kept = refl; grows = λ r d x. x }),
      )
  link_subject-Keeps false from subject g h =
      let (_, h1) =
        require-eq-ok
          (is_dict subject
            && (same_set (keys subject) (codes "mediaType" ∷ codes "digest" ∷ codes "size" ∷ [])
                && equal (get (codes "mediaType") subject) (string oci_manifest_media_type)))
          oci_subject_descriptor_invalid _ h in
      let e = ok-injective h1 in
      (
        inr (ap (λ x. x.0) e),
        subst (λ (x : Option Value × Graph). Keeps v g x.1) e
            (record {
              sound = λ s. Sound-edges v g _ g.visiting s;
              objects_kept = refl;
              grows = λ r d x. x;
            }),
      )

  check_subject-Keeps :
      (from manifest : Value) (g : Graph) (subject : Option Value) {g' : Graph}
      → check_subject from manifest g ≡ ok (subject, g')
      → SubjectOf manifest subject × Keeps v g g'
  unfolding check_subject
  check_subject-Keeps from manifest g none h =
      let (which, k) =
        link_subject-Keeps (is_null (get (codes "subject") manifest)) from
          (get (codes "subject") manifest) g h in
      (elim which [ inl e ↦ e.0 | inr e ↦ cc ], k)
  check_subject-Keeps from manifest g (some s) h =
      let (which, k) =
        link_subject-Keeps (is_null (get (codes "subject") manifest)) from
          (get (codes "subject") manifest) g h in
      (elim which [ inl e ↦ cc | inr e ↦ cc ], k)

  -- What a manifest is when its subject is about to be visited.
  pub record Entered (repository : Text) (d : Value) (opened : Opened) (subject : Option Value)
      (g g' : Graph) : Type 0 where
    pub keeps : Keeps v g g'
    pub genuine :
        Genuine v
          (record { repository = repository; manifest_digest = d; manifest = opened.manifest })
    pub config :
        has_record repository
          (get (codes "digest") (get (codes "config") opened.manifest))
          g'.payload_records
        ≡ true
    pub layers : Items
    pub layers_at : get (codes "layers") opened.manifest ≡ array layers
    pub recorded : AllRecorded repository layers g'.payload_records
    pub own : has_record repository d g'.payload_records ≡ true
    pub subject_is : SubjectOf opened.manifest subject

  pub enter_manifest-Entered :
      (repository : Text) (descriptor d : Value) (expected_type : Option Text) (root : Option Value)
      (g : Graph) (opened : Opened) (subject : Option Value) (g' : Graph)
      → item (codes "digest") descriptor ≡ ok d
      → enter_manifest v repository descriptor d expected_type root g ≡ ok (opened, subject, g')
      → Entered repository d opened subject g g'
  unfolding enter_manifest
  enter_manifest-Entered repository descriptor d expected_type root g opened subject g' d_at h =
      let begun : Graph = record g { visiting = (repository, d) ∷ g.visiting } in
      let (_, h1) =
        require-eq-ok (ltb (length g.objects) v.limits.maximum_objects) oci_graph_limit_exceeded _
          h in
      let (o, o_at, h2) =
        >>=-eq-ok (open_manifest v repository descriptor expected_type root begun) _ h1 in
      let (configured, c_at, h3) =
        >>=-eq-ok (visit_config v repository d o.manifest o.graph) _ h2 in
      let (layered, l_at, h4) = >>=-eq-ok (check_layers v repository d o configured) _ h3 in
      let ((s, linked), s_at, h5) = >>=-eq-ok (check_subject d o.manifest layered) _ h4 in
      let opens = open_manifest-Opens repository descriptor expected_type root begun o_at in
      let (config_keeps, config) = visit_config-Keeps v repository d o.manifest o.graph c_at in
      let (layers, layers_at, l) = check_layers-Layered v repository d o configured l_at in
      let (subject_is, s_keeps) = check_subject-Keeps d o.manifest layered s s_at in
      let open_keeps : Keeps v g o.graph = record {
        sound = λ x. opens.fetch.sound (Sound-edges v g g.edges begun.visiting x);
        objects_kept = opens.fetch.objects_kept;
        grows = opens.fetch.grows;
      } in
      let to_layers = Keeps-trans v configured layered linked l.keeps s_keeps in
      let to_config = Keeps-trans v o.graph configured linked config_keeps to_layers in
      let same_digest : opens.fetch.d ≡ d = ok-injective (sym opens.fetch.digest_at ∙ d_at) in
      subst (λ (x : Opened × Option Value × Graph). Entered repository d x.0 x.1 g x.2)
        (ok-injective h5)
        (record {
          keeps = Keeps-trans v g o.graph linked open_keeps to_config;
          genuine = record {
            payload = opens.payload;
            authentic =
                subst (λ x. Authentic v repository x opens.payload) same_digest
                  opens.fetch.authentic;
            canonical = opens.canonical;
          };
          config =
              to_layers.grows repository (get (codes "digest") (get (codes "config") o.manifest))
                config;
          layers = layers;
          layers_at = layers_at;
          recorded =
              AllRecorded-grows repository layers layered.payload_records linked.payload_records
                (s_keeps.grows repository) l.recorded;
          own = to_config.grows repository d (
              subst (λ x. has_record repository x o.graph.payload_records ≡ true) same_digest
                opens.fetch.recorded);
          subject_is = subject_is;
        })
