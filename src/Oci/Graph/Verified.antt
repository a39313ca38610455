-- ===== src/Oci/Graph/Verified.antt =====
-- What `verify` of scripts/contracts/oci_graph.py has established when it returns.
use bytedesk_agent_delivery.Prelude.{
  ◌≡◌, refl, sym, ◌∙◌, ap, subst, Bytes, Text, codes, true, ◌&&◌, List, [], ◌∷◌, Option, none, some,
  ok, All, length, ◌=ₜ◌, =ₜ→eq, arith, Bool-cases, inl, inr, >>=-eq-ok, ok-injective,
}
use bytedesk_agent_delivery.Json.{Value, string}
use bytedesk_agent_delivery.Json.Document.{number, find, get, equal}
use bytedesk_agent_delivery.Json.Document.Laws.{equal-string}
use bytedesk_agent_delivery.Oci.{OciError, python_error}
use bytedesk_agent_delivery.Oci.Manifest.{raw_digest, canonical_digest}
use bytedesk_agent_delivery.Oci.Graph.{Verifier, fetched, ManifestRecord, Graph, empty_graph}
use bytedesk_agent_delivery.Oci.Graph.Visit.{found, find_object, lift}
use bytedesk_agent_delivery.Oci.Graph.Verify.{
  graph_document, Verified, visited_descriptor, check_root, enough, visit_root, verify,
}
use bytedesk_agent_delivery.Oci.Graph.Laws.{sum_sizes, Sound, Genuine}
use bytedesk_agent_delivery.Oci.Graph.Closed.{Closed}
use bytedesk_agent_delivery.Oci.Graph.Manifests.{has_object}
use bytedesk_agent_delivery.Oci.Graph.Root.{Sized, visit_root-Sized}
use bytedesk_agent_delivery.Oci.Graph.Sound.{Visited, lift-ok, visit_manifest-Visited}

found-ok : {A : Type 0} (e : OciError) (o : Option A) {a : A} → found e o ≡ ok a → o ≡ some a
found-ok e none h = cc
found-ok e (some a) h = cc

-- A manifest that is found under a key has its key.
find_object-key :
    (v : Verifier) (repository : Text) (d : Value) (objects : List ManifestRecord)
    (o : ManifestRecord)
    → find_object repository d objects ≡ some o
    → All (Genuine v) objects
    → Genuine v o × (o.repository ≡ repository) × (equal o.manifest_digest d ≡ true)
unfolding find_object
find_object-key v repository d [] o h a = cc
find_object-key v repository d (x ∷ objects) o h a =
    elim (Bool-cases (x.repository =ₜ repository && equal x.manifest_digest d)) [
      | inl e ↦
          subst
            (λ (y : ManifestRecord).
              Genuine v y × (y.repository ≡ repository) × (equal y.manifest_digest d ≡ true))
            (ground arith) (a.0, =ₜ→eq x.repository repository (ground arith), ground arith)
      | inr e ↦ find_object-key v repository d objects o (ground arith) a.1
    ]

fetched-injective : (p q : Bytes) → fetched p ≡ fetched q → p ≡ q
fetched-injective p q h = cc

module _ (v : Verifier) where
  -- The root of a graph: its bytes have the digest and the size of the root descriptor, and the
  -- members that are reported are those of the document of these bytes.
  pub record RootGenuine (root : Value) (repository : Text) (out : Verified) : Type 0 where
    pub payload : Bytes
    pub manifest : Value
    pub fetched_at : v.fetch repository (get (codes "digest") root) ≡ fetched payload
    pub digest_is : get (codes "digest") root ≡ string (raw_digest v.libraries payload)
    pub size_is : get (codes "size") root ≡ number (length payload)
    pub canonical : v.libraries.jcs manifest ≡ payload
    pub config : out.config_descriptor ≡ get (codes "config") manifest
    pub layers : out.layer_descriptors ≡ get (codes "layers") manifest
    pub subject : out.subject ≡ get (codes "subject") manifest

  -- The graph that was visited, and what is reported of it.
  pub record GraphVerified (root : Value) (repository : Text) (out : Verified) : Type 0 where
    pub graph : Graph
    pub sound : Sound v graph
    pub closed : Closed graph
    pub reached : has_object repository (get (codes "digest") root) graph.objects ≡ true
    pub graph_digest : out.graph_digest ≡ canonical_digest v.libraries (graph_document root graph)
    pub object_count : out.object_count ≡ length graph.payload_records
    pub total_bytes : out.total_bytes ≡ graph.total_bytes
    pub maximum_depth : out.maximum_depth_observed ≡ graph.observed_depth

  empty-Sound : Sound v empty_graph
  unfolding sum_sizes
  empty-Sound = record {
    stored = tt;
    genuine = tt;
    total = refl;
    total_within = omega arith;
    count_within = omega arith;
    depth_within = omega arith;
  }

  equal-to-digest :
      (x d : Value) (payload : Bytes)
      → x ≡ string (raw_digest v.libraries payload)
      → equal x d ≡ true
      → d ≡ x
  equal-to-digest x d payload e h =
      equal-string (raw_digest v.libraries payload) d (subst (λ y. equal y d ≡ true) e h) ∙ sym e

  -- What a return of `verify` goes through.
  record Verifies (root : Value) (repository : Text) (out : Verified) : Type 0 where
    visited : Value × Graph
    sized : Sized v repository root
    visit : Visited v repository (get (codes "digest") root) empty_graph visited.1
    o : ManifestRecord
    object_at : find_object repository (get (codes "digest") root) visited.1.objects ≡ some o
    result :
        record {
          root_descriptor = root;
          config_descriptor = get (codes "config") o.manifest;
          layer_descriptors = get (codes "layers") o.manifest;
          artifact_type = get (codes "artifactType") o.manifest;
          subject = get (codes "subject") o.manifest;
          graph_digest = canonical_digest v.libraries (graph_document root visited.1);
          object_count = length visited.1.payload_records;
          total_bytes = visited.1.total_bytes;
          maximum_depth_observed = visited.1.observed_depth;
        }
        ≡ out

  visited_digest :
      (root : Value) → get (codes "digest") (visited_descriptor root) ≡ get (codes "digest") root
  unfolding get find ◌=ₜ◌
  visited_digest root = refl

  visit_root-Visited :
      (root : Value) (repository expected_artifact_type : Text) {document : Value} {g : Graph}
      → visit_root v root repository expected_artifact_type ≡ ok (document, g)
      → Visited v repository (get (codes "digest") root) empty_graph g
  unfolding visit_root
  visit_root-Visited root repository expected_artifact_type {document} {g} h =
      subst (λ x. Visited v repository x empty_graph g) (visited_digest root)
        (visit_manifest-Visited v (enough v) repository (visited_descriptor root) 0
          (some expected_artifact_type) (some root) empty_graph document g h)

  verify-Verifies :
      (root : Value) (repository expected_artifact_type : Text) {out : Verified}
      → verify v root repository expected_artifact_type ≡ ok out
      → Verifies root repository out
  unfolding verify
  verify-Verifies root repository expected_artifact_type h =
      let (_, _, h1) = >>=-eq-ok (lift (check_root root repository expected_artifact_type)) _ h in
      let ((document, g), at, h2) =
        >>=-eq-ok (visit_root v root repository expected_artifact_type) _ h1 in
      let (o, o_at, h3) =
        >>=-eq-ok
          (lift (found python_error (find_object repository (get (codes "digest") root) g.objects)))
          _ h2 in
      record {
        visited = (document, g);
        sized = visit_root-Sized v root repository expected_artifact_type at;
        visit = visit_root-Visited root repository expected_artifact_type at;
        o = o;
        object_at =
            found-ok python_error (find_object repository (get (codes "digest") root) g.objects) (
              lift-ok v
                (found python_error (find_object repository (get (codes "digest") root) g.objects))
                o_at);
        result = ok-injective h3;
      }

  -- Where `verify` returns, the bytes that the callback gives for the digest of the root descriptor
  -- have that digest and the size of the descriptor, they are the canonical bytes of a manifest, and the config, the layers and the
  -- subject of the result are those of that manifest.
  pub verify-RootGenuine :
      (root : Value) (repository expected_artifact_type : Text) {out : Verified}
      → verify v root repository expected_artifact_type ≡ ok out
      → RootGenuine root repository out
  verify-RootGenuine root repository expected_artifact_type h =
      let w = verify-Verifies root repository expected_artifact_type h in
      let s = w.visit.sound empty-Sound in
      let (genuine, same_repository, same_digest) =
        find_object-key v repository (get (codes "digest") root) w.visited.1.objects w.o w.object_at
          s.genuine in
      let d_is : get (codes "digest") root ≡ w.o.manifest_digest =
        equal-to-digest w.o.manifest_digest (get (codes "digest") root) genuine.payload
          genuine.authentic.digest_is same_digest in
      let fetched_at : v.fetch repository (get (codes "digest") root) ≡ fetched genuine.payload =
        ap (λ x. v.fetch repository x) d_is
        ∙ ap (λ x. v.fetch x w.o.manifest_digest) (sym same_repository)
        ∙ genuine.authentic.fetched_at in
      record {
        payload = genuine.payload;
        manifest = w.o.manifest;
        fetched_at = fetched_at;
        size_is =
            w.sized.size_is
            ∙ ap (λ (p : Bytes). number (length p))
                (fetched-injective w.sized.payload genuine.payload
                  (sym w.sized.fetched_at ∙ fetched_at));
        digest_is = d_is ∙ genuine.authentic.digest_is;
        canonical = genuine.canonical;
        config = ap (λ (x : Verified). x.config_descriptor) (sym w.result);
        layers = ap (λ (x : Verified). x.layer_descriptors) (sym w.result);
        subject = ap (λ (x : Verified). x.subject) (sym w.result);
      }

  -- Where `verify` returns, it has visited a graph that holds the root; every payload that is
  -- recorded was given by the callback with the recorded digest and size; the config, the layers and
  -- the subject of every visited manifest are recorded in turn; the total is the sum of the sizes;
  -- total, count and depth are within the limits; and the digest, the count, the total and the depth
  -- of the result are those of this graph.
  pub verify-GraphVerified :
      (root : Value) (repository expected_artifact_type : Text) {out : Verified}
      → verify v root repository expected_artifact_type ≡ ok out
      → GraphVerified root repository out
  verify-GraphVerified root repository expected_artifact_type h =
      let w = verify-Verifies root repository expected_artifact_type h in
      record {
        graph = w.visited.1;
        sound = w.visit.sound empty-Sound;
        closed = w.visit.closed tt;
        reached = w.visit.reached;
        graph_digest = ap (λ (x : Verified). x.graph_digest) (sym w.result);
        object_count = ap (λ (x : Verified). x.object_count) (sym w.result);
        total_bytes = ap (λ (x : Verified). x.total_bytes) (sym w.result);
        maximum_depth = ap (λ (x : Verified). x.maximum_depth_observed) (sym w.result);
      }
