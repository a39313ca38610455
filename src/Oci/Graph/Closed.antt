-- ===== src/Oci/Graph/Closed.antt =====
-- `OciGraphVerifier` of scripts/contracts/oci_graph.py: when the graph that has been visited is
-- closed under what its manifests name.

use bytedesk_agent_delivery.Prelude.{
  suc, ◌≡◌, refl, ap, Text, codes, true, ◌&&◌, List, [], ◌∷◌, Option, some, All, length, ◌=ₜ◌,
  arith, ◌⊎◌, inl, inr, Bool-cases,
}
use bytedesk_agent_delivery.Json.{Value, array, Items}
use bytedesk_agent_delivery.Json.Document.{get, equal}
use bytedesk_agent_delivery.Oci.Graph.{Verifier, PayloadRecord, ManifestRecord, Graph}
use bytedesk_agent_delivery.Oci.Graph.Visit.{is_null, find_object, assign_role}
use bytedesk_agent_delivery.Oci.Graph.Laws.{has_record, sum_sizes, Stored}
use bytedesk_agent_delivery.Oci.Graph.Layers.{AllRecorded, AllRecorded-grows}
use bytedesk_agent_delivery.Oci.Graph.Manifests.{has_object}

-- What a manifest names is recorded: its config, its layers, and its subject as a visited manifest.
pub record Linked (records : List PayloadRecord) (objects : List ManifestRecord)
    (o : ManifestRecord) : Type 0 where
  pub own : has_record o.repository o.manifest_digest records ≡ true
  pub config :
      has_record o.repository (get (codes "digest") (get (codes "config") o.manifest)) records
      ≡ true
  pub layers : Items
  pub layers_at : get (codes "layers") o.manifest ≡ array layers
  pub recorded : AllRecorded o.repository layers records
  pub subject :
      (is_null (get (codes "subject") o.manifest) ≡ true)
      ⊎ (has_object o.repository (get (codes "digest") (get (codes "subject") o.manifest)) objects
          ≡ true)

abbrev pub Closed : Graph → Type 0
Closed g = All (Linked g.payload_records g.objects) g.objects

Linked-grows :
    (xs ys : List PayloadRecord) (os ps : List ManifestRecord) (o : ManifestRecord)
    → ((repository : Text) (d : Value)
        → has_record repository d xs ≡ true
        → has_record repository d ys ≡ true)
    → ((repository : Text) (d : Value)
        → has_object repository d os ≡ true
        → has_object repository d ps ≡ true)
    → Linked xs os o
    → Linked ys ps o
Linked-grows xs ys os ps o more more' l = record {
  own = more o.repository o.manifest_digest l.own;
  config = more o.repository (get (codes "digest") (get (codes "config") o.manifest)) l.config;
  layers = l.layers;
  layers_at = l.layers_at;
  recorded = AllRecorded-grows o.repository l.layers xs ys (more o.repository) l.recorded;
  subject = elim l.subject [
    | inl e ↦ inl e
    | inr e ↦ inr (more' o.repository (get (codes "digest") (get (codes "subject") o.manifest)) e)
  ];
}

pub AllLinked-grows :
    (xs ys : List PayloadRecord) (os ps rest : List ManifestRecord)
    → ((repository : Text) (d : Value)
        → has_record repository d xs ≡ true
        → has_record repository d ys ≡ true)
    → ((repository : Text) (d : Value)
        → has_object repository d os ≡ true
        → has_object repository d ps ≡ true)
    → All (Linked xs os) rest
    → All (Linked ys ps) rest
AllLinked-grows xs ys os ps [] more more' a = tt
AllLinked-grows xs ys os ps (o ∷ rest) more more' a =
    (Linked-grows xs ys os ps o more more' a.0, AllLinked-grows xs ys os ps rest more more' a.1)

-- The roles of the records do not count.
pub assign_role-has_record :
    (repository role artifact_type r : Text) (d x : Value) (records : List PayloadRecord)
    → has_record r x (assign_role repository d role artifact_type records) ≡ has_record r x records
unfolding assign_role has_record
assign_role-has_record repository role artifact_type r d x [] = refl
assign_role-has_record repository role artifact_type r d x (y ∷ records) =
    elim (Bool-cases (y.repository =ₜ repository && equal y.payload_digest d)) [
      | inl e ↦ rw (e, assign_role-has_record repository role artifact_type r d x records) refl
      | inr e ↦ rw (e, assign_role-has_record repository role artifact_type r d x records) refl
    ]

pub assign_role-sum_sizes :
    (repository role artifact_type : Text) (d : Value) (records : List PayloadRecord)
    → sum_sizes (assign_role repository d role artifact_type records) ≡ sum_sizes records
unfolding assign_role sum_sizes
assign_role-sum_sizes repository role artifact_type d [] = refl
assign_role-sum_sizes repository role artifact_type d (y ∷ records) =
    elim (Bool-cases (y.repository =ₜ repository && equal y.payload_digest d)) [
      | inl e ↦ rw (e, assign_role-sum_sizes repository role artifact_type d records) refl
      | inr e ↦ rw (e, assign_role-sum_sizes repository role artifact_type d records) refl
    ]

pub length-assign_role :
    (repository role artifact_type : Text) (d : Value) (records : List PayloadRecord)
    → length (assign_role repository d role artifact_type records) ≡ length records
unfolding assign_role
length-assign_role repository role artifact_type d [] = refl
length-assign_role repository role artifact_type d (y ∷ records) =
    ap suc (length-assign_role repository role artifact_type d records)

pub find_object-has_object :
    (repository : Text) (d : Value) (objects : List ManifestRecord) (o : ManifestRecord)
    → find_object repository d objects ≡ some o
    → has_object repository d objects ≡ true
unfolding find_object has_object
find_object-has_object repository d [] o h = cc
find_object-has_object repository d (x ∷ objects) o h =
    ground (arith, find_object-has_object repository d objects o)

module _ (v : Verifier) where
  Stored-role :
      (r : PayloadRecord) (role : Text) (artifact_type : Option Text)
      → Stored v r
      → Stored v (record r { semantic_role = role; artifact_type = artifact_type })
  Stored-role r role artifact_type s = record {
    payload = s.payload;
    authentic = record { fetched_at = s.authentic.fetched_at; digest_is = s.authentic.digest_is };
    size_is = s.size_is;
    within = s.within;
  }

  pub assign_role-Stored :
      (repository role artifact_type : Text) (d : Value) (records : List PayloadRecord)
      → All (Stored v) records
      → All (Stored v) (assign_role repository d role artifact_type records)
  unfolding assign_role
  assign_role-Stored repository role artifact_type d [] a = tt
  assign_role-Stored repository role artifact_type d (y ∷ records) a = (
    elim (Bool-cases (y.repository =ₜ repository && equal y.payload_digest d)) [
      | inl e ↦ rw e (Stored-role y role (some artifact_type) a.0)
      | inr e ↦ rw e a.0
    ],
    assign_role-Stored repository role artifact_type d records a.1,
  )
