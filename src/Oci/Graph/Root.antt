-- ===== src/Oci/Graph/Root.antt =====
-- The root of a graph in scripts/contracts/oci_graph.py: it is fetched by the digest and the size of
-- its descriptor.
use Prim.Native.Nat.{max}
use bytedesk_agent_delivery.Prelude.{
  suc, ◌+◌, ◌≡◌, ◌∙◌, ap, Bytes, Text, codes, Option, none, some, Result, ok, length, ◌=ₜ◌,
  >>=-eq-ok,
}
use bytedesk_agent_delivery.Json.{Value}
use bytedesk_agent_delivery.Json.Document.{number, find, get}
use bytedesk_agent_delivery.Oci.Graph.{Verifier, fetched, Graph, empty_graph}
use bytedesk_agent_delivery.Oci.Graph.Visit.{
  VisitError, lift, find_object, enter_manifest, check_visit, visit_new, visit_manifest,
}
use bytedesk_agent_delivery.Oci.Graph.Verify.{visited_descriptor, visit_root}
use bytedesk_agent_delivery.Oci.Graph.Layers.{item-get}
use bytedesk_agent_delivery.Oci.Graph.Manifests.{enter_manifest-Opens}
use bytedesk_agent_delivery.Oci.Graph.Sound.{lift-ok}

module _ (v : Verifier) where
  -- What the callback gives for the digest of a descriptor has the size of the descriptor.
  pub record Sized (repository : Text) (descriptor : Value) : Type 0 where
    pub payload : Bytes
    pub fetched_at : v.fetch repository (get (codes "digest") descriptor) ≡ fetched payload
    pub size_is : get (codes "size") descriptor ≡ number (length payload)

  visit_new-Sized :
      (visit : Value → Graph → Result VisitError (Value × Graph)) (repository : Text)
      (descriptor d : Value) (expected_type : Option Text) (root : Option Value) (g : Graph)
      {x : Value × Graph}
      → visit_new v visit repository descriptor d expected_type root g ≡ ok x
      → Sized repository descriptor
  unfolding visit_new
  visit_new-Sized visit repository descriptor d expected_type root g h =
      let (entered, enter_at, _) =
        >>=-eq-ok (lift (enter_manifest v repository descriptor d expected_type root g)) _ h in
      let (o, opens) =
        enter_manifest-Opens v repository descriptor d expected_type root g
          (lift-ok v (enter_manifest v repository descriptor d expected_type root g) enter_at) in
      record {
        payload = opens.payload;
        fetched_at =
            ap (λ x. v.fetch repository x)
              (item-get (codes "digest") descriptor opens.fetch.digest_at)
            ∙ opens.fetch.authentic.fetched_at;
        size_is = item-get (codes "size") descriptor opens.fetch.size_at;
      }

  visited-Sized :
      (root : Value) (repository : Text)
      → Sized repository (visited_descriptor root)
      → Sized repository root
  unfolding get find ◌=ₜ◌
  visited-Sized root repository s = record {
    payload = s.payload;
    fetched_at = s.fetched_at;
    size_is = s.size_is;
  }

  pub visit_root-Sized :
      (root : Value) (repository expected_artifact_type : Text) {x : Value × Graph}
      → visit_root v root repository expected_artifact_type ≡ ok x
      → Sized repository root
  unfolding visit_root visit_manifest find_object
  visit_root-Sized root repository expected_artifact_type h =
      let (d, _, h1) =
        >>=-eq-ok (lift (check_visit v repository (visited_descriptor root) 0 empty_graph)) _ h in
      visited-Sized root repository (
        visit_new-Sized
          (λ s below.
            visit_manifest v (suc v.limits.maximum_depth) repository s (0 + 1) none none below)
          repository (visited_descriptor root) d (some expected_artifact_type) (some root)
          (record empty_graph { observed_depth = max empty_graph.observed_depth 0 }) h1)
