-- ===== src/Oci/Graph/Laws.antt =====
-- What holds of the state of `OciGraphVerifier` in scripts/contracts/oci_graph.py, and that
-- `fetch_exact` keeps it.
use Prim.Native.Nat.{max}
use bytedesk_agent_delivery.Prelude.{
  ℕ, ◌+◌, ◌≤◌, ◌≡◌, refl, sym, ◌∙◌, ap, subst, Bytes, Text, codes, Bool, true, false, ◌&&◌, ◌||◌,
  List, [], ◌∷◌, Option, none, some, ok, All, length, ltb, leb, leb→le, pos, ◌=ₜ◌, =ₜ-refl, arith,
  >>=-eq-ok, ok-injective, require-eq-ok,
}
use bytedesk_agent_delivery.Json.{Value, integer, string}
use bytedesk_agent_delivery.Json.Document.{number, equal, keys, all_contained}
use bytedesk_agent_delivery.Json.Document.Laws.{equal-number, equal-string, equal-string_refl}
use bytedesk_agent_delivery.Oci.{
  oci_graph_limit_exceeded, oci_descriptor_invalid, oci_descriptor_equivocation,
  oci_object_digest_mismatch, oci_object_size_mismatch, python_error,
}
use bytedesk_agent_delivery.Oci.Json.{item}
use bytedesk_agent_delivery.Json.Document.{hashable}
use bytedesk_agent_delivery.Oci.Manifest.{raw_digest}
use bytedesk_agent_delivery.Oci.Graph.{
  Verifier, Fetched, fetched, not_bytes, missing, PayloadRecord, ManifestRecord, Graph, find_record,
  agrees, received, descriptor_fields, record_payload, fetch_exact,
}

abbrev pub size_of : Value → ℕ
size_of (integer (pos n)) = n
size_of _ = 0

-- The sizes of the recorded payloads, added up.
unfoldable pub sum_sizes : List PayloadRecord → ℕ
sum_sizes [] = 0
sum_sizes (r ∷ records) = size_of r.size + sum_sizes records

-- Whether a payload is recorded under a key.
unfoldable pub has_record : Text → Value → List PayloadRecord → Bool
unfolding equal ◌=ₜ◌
has_record repository d [] = false
has_record repository d (r ∷ records) =
    (r.repository =ₜ repository && equal r.payload_digest d) || has_record repository d records

module _ (v : Verifier) where
  -- Bytes that the callback gives for a key have the digest of the key.
  pub record Authentic (repository : Text) (d : Value) (payload : Bytes) : Type 0 where
    pub fetched_at : v.fetch repository d ≡ fetched payload
    pub digest_is : d ≡ string (raw_digest v.libraries payload)

  pub record Stored (r : PayloadRecord) : Type 0 where
    pub payload : Bytes
    pub authentic : Authentic r.repository r.payload_digest payload
    pub size_is : r.size ≡ number (length payload)
    pub within : length payload ≤ max v.limits.maximum_manifest_bytes v.limits.maximum_blob_bytes

  -- A manifest is the document of its canonical bytes.
  pub record Genuine (o : ManifestRecord) : Type 0 where
    pub payload : Bytes
    pub authentic : Authentic o.repository o.manifest_digest payload
    pub canonical : v.libraries.jcs o.manifest ≡ payload

  pub record Sound (g : Graph) : Type 0 where
    pub stored : All Stored g.payload_records
    pub genuine : All Genuine g.objects
    pub total : g.total_bytes ≡ sum_sizes g.payload_records
    pub total_within : g.total_bytes ≤ v.limits.maximum_total_bytes
    pub count_within : length g.payload_records ≤ v.limits.maximum_objects
    pub depth_within : g.observed_depth ≤ v.limits.maximum_depth

  -- The payloads that are recorded stay recorded.
  abbrev pub Grows : Graph → Graph → Type 0
  Grows g g' =
      (repository : Text) (d : Value)
      → has_record repository d g.payload_records ≡ true
      → has_record repository d g'.payload_records ≡ true

  received-ok : (f : Fetched) {payload : Bytes} → received f ≡ ok payload → f ≡ fetched payload
  received-ok (fetched p) h = cc
  received-ok not_bytes h = cc
  received-ok missing h = cc

  record_payload-Sound :
      (existing : Option PayloadRecord) (new : PayloadRecord) (payload : Bytes) (g : Graph)
      {g' : Graph}
      → record_payload v existing new payload g ≡ ok g'
      → Stored new
      → new.size ≡ number (length payload)
      → Sound g
      → Sound g'
  unfolding record_payload sum_sizes
  record_payload-Sound (some r) new payload g h n e s = rw (sym (ok-injective h)) s
  record_payload-Sound none new payload g h n e s =
      let (room, h1) =
        require-eq-ok (ltb (length g.payload_records) v.limits.maximum_objects)
          oci_graph_limit_exceeded _ h in
      let (fits, h2) =
        require-eq-ok (leb (g.total_bytes + length payload) v.limits.maximum_total_bytes)
          oci_graph_limit_exceeded _ h1 in
      rw (sym (ok-injective h2)) (record {
        stored = (n, s.stored);
        genuine = s.genuine;
        total = omega (arith, s.total, ap size_of e);
        total_within = leb→le (g.total_bytes + length payload) v.limits.maximum_total_bytes fits;
        count_within = ground arith;
        depth_within = s.depth_within;
      })

  -- What a payload is that `fetch_exact` returns, and what the state is afterwards.
  pub record Fetch (repository : Text) (descriptor : Value) (g g' : Graph) (payload : Bytes)
      : Type 0 where
    pub d : Value
    pub digest_at : item (codes "digest") descriptor ≡ ok d
    pub size_at : item (codes "size") descriptor ≡ ok (number (length payload))
    pub authentic : Authentic repository d payload
    pub sound : Sound g → Sound g'
    pub objects_kept : g'.objects ≡ g.objects
    pub grows : Grows g g'
    pub recorded : has_record repository d g'.payload_records ≡ true

  record_payload-objects :
      (existing : Option PayloadRecord) (new : PayloadRecord) (payload : Bytes) (g : Graph)
      {g' : Graph}
      → record_payload v existing new payload g ≡ ok g'
      → g'.objects ≡ g.objects
  unfolding record_payload
  record_payload-objects (some r) new payload g h = ap (λ x. x.objects) (sym (ok-injective h))
  record_payload-objects none new payload g h =
      let (room, h1) =
        require-eq-ok (ltb (length g.payload_records) v.limits.maximum_objects)
          oci_graph_limit_exceeded _ h in
      let (fits, h2) =
        require-eq-ok (leb (g.total_bytes + length payload) v.limits.maximum_total_bytes)
          oci_graph_limit_exceeded _ h1 in
      ap (λ x. x.objects) (sym (ok-injective h2))

  record_payload-Grows :
      (existing : Option PayloadRecord) (new : PayloadRecord) (payload : Bytes) (g : Graph)
      {g' : Graph}
      → record_payload v existing new payload g ≡ ok g'
      → Grows g g'
  unfolding record_payload has_record
  record_payload-Grows (some r) new payload g h =
      subst (λ x. Grows g x) (ok-injective h) (λ repository d e. e)
  record_payload-Grows none new payload g h =
      let (room, h1) =
        require-eq-ok (ltb (length g.payload_records) v.limits.maximum_objects)
          oci_graph_limit_exceeded _ h in
      let (fits, h2) =
        require-eq-ok (leb (g.total_bytes + length payload) v.limits.maximum_total_bytes)
          oci_graph_limit_exceeded _ h1 in
      subst (λ x. Grows g x) (ok-injective h2) (λ repository d e. ground arith)

  find_record-has_record :
      (repository : Text) (d : Value) (records : List PayloadRecord) (r : PayloadRecord)
      → find_record repository d records ≡ some r
      → has_record repository d records ≡ true
  unfolding find_record has_record
  find_record-has_record repository d [] r h = cc
  find_record-has_record repository d (x ∷ records) r h =
      ground (arith, find_record-has_record repository d records r)

  record_payload-recorded :
      (existing : Option PayloadRecord) (new : PayloadRecord) (payload : Bytes) (g : Graph)
      {g' : Graph}
      → record_payload v existing new payload g ≡ ok g'
      → find_record new.repository new.payload_digest g.payload_records ≡ existing
      → equal new.payload_digest new.payload_digest ≡ true
      → has_record new.repository new.payload_digest g'.payload_records ≡ true
  unfolding record_payload has_record
  record_payload-recorded (some r) new payload g h e same =
      subst (λ x. has_record new.repository new.payload_digest x.payload_records ≡ true)
        (ok-injective h)
        (find_record-has_record new.repository new.payload_digest g.payload_records r e)
  record_payload-recorded none new payload g h e same =
      let (room, h1) =
        require-eq-ok (ltb (length g.payload_records) v.limits.maximum_objects)
          oci_graph_limit_exceeded _ h in
      let (fits, h2) =
        require-eq-ok (leb (g.total_bytes + length payload) v.limits.maximum_total_bytes)
          oci_graph_limit_exceeded _ h1 in
      subst (λ x. has_record new.repository new.payload_digest x.payload_records ≡ true)
        (ok-injective h2) (ground (arith, =ₜ-refl new.repository))

  pub fetch_exact-Fetch :
      (repository : Text) (descriptor : Value) (limit : ℕ) (role : Text) (g : Graph) {g' : Graph}
      {payload : Bytes}
      → fetch_exact v repository descriptor limit role g ≡ ok (payload, g')
      → limit ≤ max v.limits.maximum_manifest_bytes v.limits.maximum_blob_bytes
      → Fetch repository descriptor g g' payload
  unfolding fetch_exact
  fetch_exact-Fetch repository descriptor limit role g h small =
      let (_, h1) =
        require-eq-ok (all_contained descriptor_fields (keys descriptor)) oci_descriptor_invalid _
          h in
      let (d, d_at, h2) = >>=-eq-ok (item (codes "digest") descriptor) _ h1 in
      let (media_type, _, h3) = >>=-eq-ok (item (codes "mediaType") descriptor) _ h2 in
      let (size, size_at, h4) = >>=-eq-ok (item (codes "size") descriptor) _ h3 in
      let (_, h5) = require-eq-ok (hashable d) python_error _ h4 in
      let existing = find_record repository d g.payload_records in
      let (_, h6) =
        require-eq-ok (agrees existing media_type size) oci_descriptor_equivocation _ h5 in
      let (p, p_at, h7) = >>=-eq-ok (received (v.fetch repository d)) _ h6 in
      let (same_digest, h8) =
        require-eq-ok (equal (string (raw_digest v.libraries p)) d) oci_object_digest_mismatch _
          h7 in
      let (same_size, h9) =
        require-eq-ok (equal (number (length p)) size) oci_object_size_mismatch _ h8 in
      let (fits, h10) = require-eq-ok (leb (length p) limit) oci_graph_limit_exceeded _ h9 in
      let new : PayloadRecord = record {
        repository = repository;
        payload_digest = d;
        media_type = media_type;
        size = size;
        semantic_role = role;
        artifact_type = none;
      } in
      let (recorded, r_at, h11) = >>=-eq-ok (record_payload v existing new p g) _ h10 in
      let auth : Authentic repository d p = record {
        fetched_at = received-ok (v.fetch repository d) p_at;
        digest_is = equal-string (raw_digest v.libraries p) d same_digest;
      } in
      let size_is = equal-number (length p) size same_size in
      let fetch : Fetch repository descriptor g recorded p = record {
        d = d;
        digest_at = d_at;
        size_at = size_at ∙ ap ok size_is;
        authentic = auth;
        sound =
            record_payload-Sound existing new p g r_at
              (record {
                payload = p;
                authentic = auth;
                size_is = size_is;
                within = omega (arith, leb→le (length p) limit fits);
              })
              size_is;
        objects_kept = record_payload-objects existing new p g r_at;
        grows = record_payload-Grows existing new p g r_at;
        recorded =
            record_payload-recorded existing new p g r_at refl
              (rw auth.digest_is (equal-string_refl (raw_digest v.libraries p)));
      } in
      let e = ok-injective h11 in
      subst (λ (x : Bytes × Graph). Fetch repository descriptor g x.1 x.0) e fetch
