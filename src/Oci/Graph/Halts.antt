-- ===== src/Oci/Graph/Halts.antt =====
-- `verify` of scripts/contracts/oci_graph.py ends: the chain of subjects is cut off by the depth
-- limit.
use bytedesk_agent_delivery.Prelude.{
  ℕ, zero, suc, ◌+◌, ◌≤◌, ◌≡◌, ◌≢◌, Text, codes, Option, none, some, Result, ok, err, arith, inl,
  inr, >>=-eq-err,
}
use bytedesk_agent_delivery.Json.{Value}
use bytedesk_agent_delivery.Json.Document.{get}
use bytedesk_agent_delivery.Oci.{OciError, python_error}
use bytedesk_agent_delivery.Oci.Graph.{Verifier, ManifestRecord, Graph, empty_graph}
use bytedesk_agent_delivery.Oci.Graph.Visit.{
  VisitError, out_of_fuel, lift, found, find_object, enter_manifest, leave_manifest, check_visit,
  unless_visited, visit_subject, visit_new, visit_manifest,
}
use bytedesk_agent_delivery.Oci.Graph.Verify.{
  visited_descriptor, check_root, enough, visit_root, verify,
}
use bytedesk_agent_delivery.Oci.Graph.Sound.{lift-ok, check_visit-ok}

lift-halts : {A : Type 0} (r : Result OciError A) → lift r ≢ err out_of_fuel
lift-halts (ok a) h = cc
lift-halts (err e) h = cc

module _ (v : Verifier) where
  abbrev Halts : ℕ → Type 0
  Halts fuel =
      (repository : Text) (descriptor : Value) (depth : ℕ) (expected_type : Option Text)
      (root : Option Value) (g : Graph)
      → suc (suc v.limits.maximum_depth) ≤ fuel + depth
      → depth ≤ suc v.limits.maximum_depth
      → visit_manifest v fuel repository descriptor depth expected_type root g ≢ err out_of_fuel

  visit_subject-Halts :
      (fuel : ℕ) (repository : Text) (depth : ℕ) (subject : Option Value) (g : Graph)
      → Halts fuel
      → suc (suc v.limits.maximum_depth) ≤ fuel + (depth + 1)
      → depth ≤ v.limits.maximum_depth
      → visit_subject
          (λ s below. visit_manifest v fuel repository s (depth + 1) none none below)
          subject
          g
        ≢ err out_of_fuel
  visit_subject-Halts fuel repository depth none g ih fits shallow h = cc
  visit_subject-Halts fuel repository depth (some s) g ih fits shallow h =
      elim (>>=-eq-err (visit_manifest v fuel repository s (depth + 1) none none g) _ h) [
        | inl e ↦ ih repository s (depth + 1) none none g fits (omega arith) e
        | inr (x, _, k) ↦ cc
      ]

  unless_visited-err :
      (o : Option ManifestRecord) (g : Graph) (further : Result VisitError (Value × Graph))
      {e : VisitError}
      → unless_visited o g further ≡ err e
      → further ≡ err e
  unless_visited-err (some m) g further h = cc
  unless_visited-err none g further h = h

  new-Halts :
      (fuel : ℕ) (repository : Text) (descriptor d : Value) (depth : ℕ)
      (expected_type : Option Text) (root : Option Value) (g : Graph)
      → Halts fuel
      → suc (suc v.limits.maximum_depth) ≤ fuel + (depth + 1)
      → depth ≤ v.limits.maximum_depth
      → visit_new v
          (λ s below. visit_manifest v fuel repository s (depth + 1) none none below)
          repository
          descriptor
          d
          expected_type
          root
          g
        ≢ err out_of_fuel
  unfolding visit_new
  new-Halts fuel repository descriptor d depth expected_type root g ih fits shallow h =
      elim (>>=-eq-err (lift (enter_manifest v repository descriptor d expected_type root g)) _ h) [
        | inl e ↦ lift-halts (enter_manifest v repository descriptor d expected_type root g) e
        | inr ((opened, subject, entered), _, k) ↦
            elim (>>=-eq-err
              (visit_subject
                (λ s below. visit_manifest v fuel repository s (depth + 1) none none below) subject
                entered)
              _ k) [
                | inl e ↦
                    visit_subject-Halts fuel repository depth subject entered ih fits shallow e
                | inr (visited, _, k') ↦
                    elim (>>=-eq-err (lift (leave_manifest v repository d root opened visited)) _
                      k') [
                        | inl e ↦ lift-halts (leave_manifest v repository d root opened visited) e
                        | inr (left, _, k'') ↦ cc
                      ]
              ]
      ]

  visit_manifest-Halts : (fuel : ℕ) → Halts fuel
  unfolding visit_manifest
  visit_manifest-Halts zero repository descriptor depth expected_type root g fits shallow h =
      absurd (omega arith)
  visit_manifest-Halts (suc fuel) repository descriptor depth expected_type root g fits shallow h =
      elim (>>=-eq-err (lift (check_visit v repository descriptor depth g)) _ h) [
        | inl e ↦ lift-halts (check_visit v repository descriptor depth g) e
        | inr (d, at, k) ↦
            let (limit, _) =
              check_visit-ok v repository descriptor depth g
                (lift-ok v (check_visit v repository descriptor depth g) at) in
            new-Halts fuel repository descriptor d depth expected_type root _
              (visit_manifest-Halts fuel) (omega arith) limit
              (unless_visited-err (find_object repository d g.objects) _ _ k)
      ]

  -- `verify` ends on every root descriptor: it returns, or it raises an exception of the program.
  pub verify-halts :
      (root : Value) (expected_repository expected_artifact_type : Text)
      → verify v root expected_repository expected_artifact_type ≢ err out_of_fuel
  unfolding verify visit_root
  verify-halts root expected_repository expected_artifact_type h =
      elim (>>=-eq-err (lift (check_root root expected_repository expected_artifact_type)) _ h) [
        | inl e ↦ lift-halts (check_root root expected_repository expected_artifact_type) e
        | inr (_, _, k) ↦
            elim (>>=-eq-err
              (visit_manifest v (enough v) expected_repository (visited_descriptor root) 0
                (some expected_artifact_type) (some root) empty_graph)
              _ k) [
                | inl e ↦
                    visit_manifest-Halts (enough v) expected_repository (visited_descriptor root) 0
                      (some expected_artifact_type) (some root) empty_graph (omega arith)
                      (omega arith) e
                | inr ((document, g), _, k') ↦
                    elim (>>=-eq-err
                      (lift (
                        found python_error
                          (find_object expected_repository (get (codes "digest") root) g.objects)))
                      _ k') [
                        | inl e ↦
                            lift-halts
                              (found python_error (
                                find_object expected_repository (get (codes "digest") root)
                                  g.objects))
                              e
                        | inr (o, _, k'') ↦ cc
                      ]
              ]
      ]
