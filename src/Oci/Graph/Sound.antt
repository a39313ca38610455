-- ===== src/Oci/Graph/Sound.antt =====
-- `OciGraphVerifier` of scripts/contracts/oci_graph.py: what a visit leaves behind.
use Prim.Native.Nat.{max}
use bytedesk_agent_delivery.Prelude.{
  ℕ, zero, suc, ◌+◌, ◌≤◌, ◌≡◌, refl, sym, ◌∙◌, ap, subst, Text, codes, true, not, ◌||◌, List, ◌∷◌,
  ◌++◌, Option, none, some, Result, ok, err, All, leb, leb→le, =ₜ-refl, arith, ◌⊎◌, inl, inr,
  >>=-eq-ok, ok-injective, require-eq-ok,
}
use bytedesk_agent_delivery.Json.{Value}
use bytedesk_agent_delivery.Json.Document.{get, equal}
use bytedesk_agent_delivery.Json.Document.Laws.{equal-string_refl}
use bytedesk_agent_delivery.Oci.{
  OciError, oci_graph_limit_exceeded, oci_graph_cycle, oci_manifest_annotations_invalid,
  oci_root_metadata_mismatch, python_error,
}
use bytedesk_agent_delivery.Oci.Json.{item}
use bytedesk_agent_delivery.Json.Document.{hashable}
use bytedesk_agent_delivery.Oci.Manifest.{raw_digest}
use bytedesk_agent_delivery.Oci.Graph.{Verifier, ManifestRecord, Graph}
use bytedesk_agent_delivery.Oci.Graph.Visit.{
  VisitError, lift, Opened, is_null, is_visiting, find_object, text_annotations, root_metadata,
  enter_manifest, leave_manifest, check_visit, unless_visited, visit_subject, visit_new,
  visit_manifest,
}
use bytedesk_agent_delivery.Oci.Graph.Laws.{has_record, Sound, Genuine, Grows}
use bytedesk_agent_delivery.Oci.Graph.Layers.{AllRecorded-grows, item-get, Keeps}
use bytedesk_agent_delivery.Oci.Graph.Manifests.{
  has_object, SubjectOf, Entered, enter_manifest-Entered,
}
use bytedesk_agent_delivery.Oci.Graph.Closed.{
  Linked, Closed, AllLinked-grows, assign_role-has_record, assign_role-sum_sizes,
  length-assign_role, find_object-has_object, assign_role-Stored,
}

module _ (v : Verifier) where
  record Left (repository : Text) (d : Value) (opened : Opened) (g g' : Graph) : Type 0 where
    sound :
        Genuine v
          (record { repository = repository; manifest_digest = d; manifest = opened.manifest })
        → Sound v g
        → Sound v g'
    records :
        (r : Text) (x : Value)
        → has_record r x g'.payload_records ≡ has_record r x g.payload_records
    objects :
        g'.objects
        ≡ record { repository = repository; manifest_digest = d; manifest = opened.manifest }
          ∷ g.objects

  leave_manifest-Left :
      (repository : Text) (d : Value) (root : Option Value) (opened : Opened) (g : Graph)
      {g' : Graph}
      → leave_manifest v repository d root opened g ≡ ok g'
      → Left repository d opened g g'
  unfolding leave_manifest
  leave_manifest-Left repository d root opened g h =
      let annotations = get (codes "annotations") opened.manifest in
      let role = codes "artifact:" ++ opened.role in
      let (_, h1) =
        require-eq-ok (is_null annotations || text_annotations annotations)
          oci_manifest_annotations_invalid _ h in
      let (_, h2) =
        require-eq-ok (root_metadata v root opened.manifest) oci_root_metadata_mismatch _ h1 in
      subst (λ (x : Graph). Left repository d opened g x) (ok-injective h2)
        (record {
          sound = λ new s. record {
            stored =
                assign_role-Stored v repository role opened.artifact_type d g.payload_records
                  s.stored;
            genuine = (new, s.genuine);
            total =
                s.total
                ∙ sym (
                    assign_role-sum_sizes repository role opened.artifact_type d g.payload_records);
            total_within = s.total_within;
            count_within = omega (
              arith,
              s.count_within,
              length-assign_role repository role opened.artifact_type d g.payload_records,
            );
            depth_within = s.depth_within;
          };
          records = λ r x.
              assign_role-has_record repository role opened.artifact_type r d x g.payload_records;
          objects = refl;
        })

  -- What a visit leaves behind.
  pub record Visited (repository : Text) (d : Value) (g g' : Graph) : Type 0 where
    pub sound : Sound v g → Sound v g'
    pub closed : Closed g → Closed g'
    pub grows : Grows v g g'
    pub objects_grow :
        (r : Text) (x : Value) → has_object r x g.objects ≡ true → has_object r x g'.objects ≡ true
    pub reached : has_object repository d g'.objects ≡ true

  -- A subject that is to be visited has been.
  abbrev SubjectVisited : Text → Option Value → List ManifestRecord → Type 0
  SubjectVisited repository none objects = Unit {0}
  SubjectVisited repository (some s) objects =
      has_object repository (get (codes "digest") s) objects ≡ true

  SubjectVisited-cons :
      (repository : Text) (subject : Option Value) (o : ManifestRecord)
      (objects : List ManifestRecord)
      → SubjectVisited repository subject objects
      → SubjectVisited repository subject (o ∷ objects)
  unfolding has_object
  SubjectVisited-cons repository none o objects h = tt
  SubjectVisited-cons repository (some s) o objects h = ground arith

  has_object-cons :
      (o : ManifestRecord) (objects : List ManifestRecord) (r : Text) (x : Value)
      → has_object r x objects ≡ true
      → has_object r x (o ∷ objects) ≡ true
  unfolding has_object
  has_object-cons o objects r x h = ground arith

  record Below (repository : Text) (subject : Option Value) (g g' : Graph) : Type 0 where
    sound : Sound v g → Sound v g'
    closed : Closed g → Closed g'
    grows : Grows v g g'
    objects_grow :
        (r : Text) (x : Value) → has_object r x g.objects ≡ true → has_object r x g'.objects ≡ true
    subject_visited : SubjectVisited repository subject g'.objects

  linked_subject :
      (repository : Text) (manifest : Value) (subject : Option Value)
      (objects : List ManifestRecord)
      → SubjectOf v manifest subject
      → SubjectVisited repository subject objects
      → (is_null (get (codes "subject") manifest) ≡ true)
        ⊎ (has_object repository (get (codes "digest") (get (codes "subject") manifest)) objects
            ≡ true)
  linked_subject repository manifest none objects is_it visited = inl is_it
  linked_subject repository manifest (some s) objects is_it visited = inr (
      subst (λ x. has_object repository (get (codes "digest") x) objects ≡ true) (sym is_it)
        visited)

  Entered-Closed : (g e : Graph) → Keeps v g e → Closed g → Closed e
  Entered-Closed g e k c =
      subst (λ os. All (Linked e.payload_records os) os) (sym k.objects_kept)
        (AllLinked-grows g.payload_records e.payload_records g.objects g.objects g.objects k.grows
          (λ r x h. h) c)

  -- The three parts of the visit of a new manifest, put together.
  visit-Visited :
      (repository : Text) (d : Value) (opened : Opened) (subject : Option Value)
      (g entered visited left : Graph)
      → equal d d ≡ true
      → Entered v repository d opened subject g entered
      → Below repository subject entered visited
      → Left repository d opened visited left
      → Visited repository d g left
  unfolding has_object
  visit-Visited repository d opened subject g entered visited left same e b l =
      let new : ManifestRecord = record {
        repository = repository;
        manifest_digest = d;
        manifest = opened.manifest;
      } in
      let records_grow : Grows v visited left = λ r x h. l.records r x ∙ h in
      let to_left : Grows v entered left = λ r x h. records_grow r x (b.grows r x h) in
      let objects_grow : (r : Text) (x : Value)
          → has_object r x visited.objects ≡ true
          → has_object r x left.objects ≡ true =
        λ r x h. rw l.objects (has_object-cons new visited.objects r x h) in
      record {
        sound = λ s. l.sound e.genuine (b.sound (e.keeps.sound s));
        closed = λ c.
            subst (λ os. All (Linked left.payload_records os) os) (sym l.objects)
              (
                record {
                  own = to_left repository d e.own;
                  config =
                      to_left repository
                        (get (codes "digest") (get (codes "config") opened.manifest)) e.config;
                  layers = e.layers;
                  layers_at = e.layers_at;
                  recorded =
                      AllRecorded-grows repository e.layers entered.payload_records
                        left.payload_records (to_left repository) e.recorded;
                  subject =
                      linked_subject repository opened.manifest subject (new ∷ visited.objects)
                        e.subject_is
                        (SubjectVisited-cons repository subject new visited.objects
                          b.subject_visited);
                },
                AllLinked-grows visited.payload_records left.payload_records visited.objects
                    (new ∷ visited.objects) visited.objects records_grow
                    (has_object-cons new visited.objects)
                    (b.closed (Entered-Closed g entered e.keeps c)),
              );
        grows = λ r x h. to_left r x (e.keeps.grows r x h);
        objects_grow = λ r x h. objects_grow r x (b.objects_grow r x (rw e.keeps.objects_kept h));
        reached = rw l.objects (ground (arith, =ₜ-refl repository));
      }

  -- A visit that finds its manifest in place.
  observed-Visited :
      (repository : Text) (d : Value) (g : Graph) (depth : ℕ) (o : ManifestRecord)
      → depth ≤ v.limits.maximum_depth
      → find_object repository d g.objects ≡ some o
      → Visited repository d g (record g { observed_depth = max g.observed_depth depth })
  observed-Visited repository d g depth o shallow found_it = record {
    sound = λ s. record {
      stored = s.stored;
      genuine = s.genuine;
      total = s.total;
      total_within = s.total_within;
      count_within = s.count_within;
      depth_within = omega (arith, s.depth_within);
    };
    closed = λ c. c;
    grows = λ r x h. h;
    objects_grow = λ r x h. h;
    reached = find_object-has_object repository d g.objects o found_it;
  }

  pub lift-ok : {A : Type 0} (r : Result OciError A) {x : A} → lift r ≡ ok x → r ≡ ok x
  lift-ok (ok x) h = cc
  lift-ok (err e) h = cc

  pub check_visit-ok :
      (repository : Text) (descriptor : Value) (depth : ℕ) (g : Graph) {d : Value}
      → check_visit v repository descriptor depth g ≡ ok d
      → (depth ≤ v.limits.maximum_depth) × (item (codes "digest") descriptor ≡ ok d)
  unfolding check_visit
  check_visit-ok repository descriptor depth g h =
      let (shallow, h1) =
        require-eq-ok (leb depth v.limits.maximum_depth) oci_graph_limit_exceeded _ h in
      let (d, at, h2) = >>=-eq-ok (item (codes "digest") descriptor) _ h1 in
      let (_, h3) = require-eq-ok (hashable d) python_error _ h2 in
      let (_, h4) =
        require-eq-ok (not (is_visiting repository d g.visiting)) oci_graph_cycle _ h3 in
      (leb→le depth v.limits.maximum_depth shallow, at ∙ h4)

  abbrev pub Visits : ℕ → Type 0
  Visits fuel =
      (repository : Text) (descriptor : Value) (depth : ℕ) (expected_type : Option Text)
      (root : Option Value) (g : Graph) (document : Value) (g' : Graph)
      → visit_manifest v fuel repository descriptor depth expected_type root g ≡ ok (document, g')
      → Visited repository (get (codes "digest") descriptor) g g'

  visit_subject-Below :
      (fuel : ℕ) (repository : Text) (depth : ℕ) (subject : Option Value) (g : Graph) {g' : Graph}
      → Visits fuel
      → visit_subject
          (λ s below. visit_manifest v fuel repository s (depth + 1) none none below)
          subject
          g
        ≡ ok g'
      → Below repository subject g g'
  visit_subject-Below fuel repository depth none g ih h =
      subst (λ (x : Graph). Below repository none g x) (ok-injective h)
        (record {
          sound = λ s. s;
          closed = λ c. c;
          grows = λ r x k. k;
          objects_grow = λ r x k. k;
          subject_visited = tt;
        })
  visit_subject-Below fuel repository depth (some s) g ih h =
      let ((document, below), at, h1) =
        >>=-eq-ok (visit_manifest v fuel repository s (depth + 1) none none g) _ h in
      let w = ih repository s (depth + 1) none none g document below at in
      subst (λ (x : Graph). Below repository (some s) g x) (ok-injective h1)
        (record {
          sound = w.sound;
          closed = w.closed;
          grows = w.grows;
          objects_grow = w.objects_grow;
          subject_visited = w.reached;
        })

  pub unless_visited-ok :
      (o : Option ManifestRecord) (g : Graph) (further : Result VisitError (Value × Graph))
      {x : Value × Graph}
      → unless_visited o g further ≡ ok x
      → ((m : ManifestRecord) × (o ≡ some m) × (g ≡ x.1)) ⊎ (further ≡ ok x)
  unless_visited-ok (some m) g further h = inl (m, refl, ap (λ y. y.1) (ok-injective h))
  unless_visited-ok none g further h = inr h

  Sound-observed :
      (g : Graph) (depth : ℕ)
      → depth ≤ v.limits.maximum_depth
      → Sound v g
      → Sound v (record g { observed_depth = max g.observed_depth depth })
  Sound-observed g depth shallow s = record {
    stored = s.stored;
    genuine = s.genuine;
    total = s.total;
    total_within = s.total_within;
    count_within = s.count_within;
    depth_within = omega (arith, s.depth_within);
  }

  -- The visit of a new manifest.
  new-Visited :
      (fuel : ℕ) (repository : Text) (descriptor d : Value) (depth : ℕ)
      (expected_type : Option Text) (root : Option Value) (g : Graph) {x : Value × Graph}
      → Visits fuel
      → item (codes "digest") descriptor ≡ ok d
      → visit_new v
          (λ s below. visit_manifest v fuel repository s (depth + 1) none none below)
          repository
          descriptor
          d
          expected_type
          root
          g
        ≡ ok x
      → Visited repository d g x.1
  unfolding visit_new
  new-Visited fuel repository descriptor d depth expected_type root g ih digest_at h =
      let ((opened, subject, entered), enter_at, h1) =
        >>=-eq-ok (lift (enter_manifest v repository descriptor d expected_type root g)) _ h in
      let (visited, visit_at, h2) =
        >>=-eq-ok
          (visit_subject (λ s below. visit_manifest v fuel repository s (depth + 1) none none below)
            subject entered)
          _ h1 in
      let (left, left_at, h3) =
        >>=-eq-ok (lift (leave_manifest v repository d root opened visited)) _ h2 in
      let e =
        enter_manifest-Entered v repository descriptor d expected_type root g opened subject entered
          digest_at
          (lift-ok (enter_manifest v repository descriptor d expected_type root g) enter_at) in
      let b = visit_subject-Below fuel repository depth subject entered ih visit_at in
      let l =
        leave_manifest-Left repository d root opened visited
          (lift-ok (leave_manifest v repository d root opened visited) left_at) in
      let same : equal d d ≡ true =
        subst (λ y. equal y y ≡ true) (sym e.genuine.authentic.digest_is)
          (equal-string_refl (raw_digest v.libraries e.genuine.payload)) in
      subst (λ (y : Value × Graph). Visited repository d g y.1) (ok-injective h3)
        (visit-Visited repository d opened subject g entered visited left same e b l)

  pub visit_manifest-Visited : (fuel : ℕ) → Visits fuel
  unfolding visit_manifest
  visit_manifest-Visited zero repository descriptor depth expected_type root g document g' h = cc
  visit_manifest-Visited (suc fuel) repository descriptor depth expected_type root g document g' h =
      let (d, d_at, h1) = >>=-eq-ok (lift (check_visit v repository descriptor depth g)) _ h in
      let (shallow, digest_at) =
        check_visit-ok repository descriptor depth g
          (lift-ok (check_visit v repository descriptor depth g) d_at) in
      let observed : Graph = record g { observed_depth = max g.observed_depth depth } in
      let which = unless_visited-ok (find_object repository d g.objects) observed _ h1 in
      subst (λ x. Visited repository x g g') (sym (item-get (codes "digest") descriptor digest_at))
        (elim which [
          | inl (o, e, same) ↦
              subst (λ x. Visited repository d g x) same
                (observed-Visited repository d g depth o shallow e)
          | inr further ↦
              let w =
                new-Visited fuel repository descriptor d depth expected_type root observed
                  (visit_manifest-Visited fuel) digest_at further in
              record {
                sound = λ s. w.sound (Sound-observed g depth shallow s);
                closed = w.closed;
                grows = w.grows;
                objects_grow = w.objects_grow;
                reached = w.reached;
              }
        ])
