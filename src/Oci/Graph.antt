-- ===== src/Oci/Graph.antt =====
-- `OciGraphVerifier` of scripts/contracts/oci_graph.py: its state, and `fetch_exact`.
pub mod Visit
pub mod Verify
pub mod Laws
pub mod Layers
pub mod Manifests
pub mod Closed
pub mod Sound
pub mod Root
pub mod Verified
pub mod Halts
mod Tests
use bytedesk_agent_delivery.Prelude.{
  ℕ, ◌+◌, Bytes, Text, codes, Bool, true, false, not, ◌&&◌, List, [], ◌∷◌, Option, none, some,
  Result, ok, err, ◌>>=◌, ◌>>◌, require, length, leb, ltb, ◌=ₜ◌, if◌then◌else◌,
}
use bytedesk_agent_delivery.Json.{Value, string}
use bytedesk_agent_delivery.Json.Document.{number, equal, keys, all_contained}
use bytedesk_agent_delivery.Oci.{
  OciError, oci_graph_limit_exceeded, oci_descriptor_invalid, oci_descriptor_equivocation,
  oci_object_missing, oci_object_not_bytes, oci_object_digest_mismatch, oci_object_size_mismatch,
  python_error,
}
use bytedesk_agent_delivery.Oci.Json.{Libraries, item}
use bytedesk_agent_delivery.Json.Document.{hashable}
use bytedesk_agent_delivery.Oci.Manifest.{raw_digest}

-- What the callback `fetch` does: it returns bytes or something else, or raises `KeyError` or
-- `FileNotFoundError`. It answers alike whenever it is asked the same.
pub data Fetched : Type 0 where
  fetched : Bytes → Fetched
  not_bytes : Fetched
  missing : Fetched

-- `OciGraphLimits`
pub record Limits : Type 0 where
  pub maximum_depth : ℕ
  pub maximum_objects : ℕ
  pub maximum_manifest_bytes : ℕ
  pub maximum_blob_bytes : ℕ
  pub maximum_total_bytes : ℕ

abbrev pub default_limits : Limits
default_limits = record {
  maximum_depth = 32;
  maximum_objects = 10_000;
  maximum_manifest_bytes = 4_194_304;
  maximum_blob_bytes = 67_108_864;
  maximum_total_bytes = 1_073_741_824;
}

-- The members of a verifier.
pub record Verifier : Type 0 where
  pub libraries : Libraries
  pub fetch : Text → Value → Fetched
  pub limits : Limits
  pub type_roles : List (Text × Text)
  pub layer_roles : List (Text × List Text)

-- An entry of `payload_records`; its key is the repository and the digest.
pub record PayloadRecord : Type 0 where
  pub repository : Text
  pub payload_digest : Value
  pub media_type : Value
  pub size : Value
  pub semantic_role : Text
  pub artifact_type : Option Text

-- An entry of `objects`.
pub record ManifestRecord : Type 0 where
  pub repository : Text
  pub manifest_digest : Value
  pub manifest : Value

pub record Edge : Type 0 where
  pub from : Value
  pub kind : Text
  pub index : ℕ
  pub to : Value
  pub role : Text

-- The variables that the nested functions of `verify` share. The newest entry of each list stands
-- first.
pub record Graph : Type 0 where
  pub objects : List ManifestRecord
  pub payload_records : List PayloadRecord
  pub edges : List Edge
  pub visiting : List (Text × Value)
  pub total_bytes : ℕ
  pub observed_depth : ℕ

abbrev pub empty_graph : Graph
empty_graph = record {
  objects = [];
  payload_records = [];
  edges = [];
  visiting = [];
  total_bytes = 0;
  observed_depth = 0;
}

-- `payload_records.get(key)`
unfoldable pub find_record : Text → Value → List PayloadRecord → Option PayloadRecord
unfolding equal ◌=ₜ◌
find_record repository payload_digest [] = none
find_record repository payload_digest (r ∷ records) =
    if r.repository =ₜ repository && equal r.payload_digest payload_digest
    then some r
    else find_record repository payload_digest records

-- `existing["mediaType"] == … and existing["size"] == …`, where there is an entry.
unfoldable pub agrees : Option PayloadRecord → Value → Value → Bool
unfolding equal
agrees none media_type size = true
agrees (some r) media_type size = equal r.media_type media_type && equal r.size size

abbrev pub received : Fetched → Result OciError Bytes
received (fetched payload) = ok payload
received not_bytes = err oci_object_not_bytes
received missing = err oci_object_missing

abbrev pub descriptor_fields : List Text
descriptor_fields = codes "digest" ∷ codes "mediaType" ∷ codes "size" ∷ []

module _ (v : Verifier) where
  -- The part of `fetch_exact` behind `if existing is None`.
  unfoldable pub record_payload :
      Option PayloadRecord → PayloadRecord → Bytes → Graph → Result OciError Graph
  record_payload (some r) new payload g = ok g
  record_payload none new payload g = do
    require (ltb (length g.payload_records) v.limits.maximum_objects) oci_graph_limit_exceeded
    let total = g.total_bytes + length payload
    require (leb total v.limits.maximum_total_bytes) oci_graph_limit_exceeded
    ok (record g { total_bytes = total; payload_records = new ∷ g.payload_records })

  -- `fetch_exact`; `limit` is that of manifests or that of blobs.
  unfoldable pub fetch_exact : Text → Value → ℕ → Text → Graph → Result OciError (Bytes × Graph)
  unfolding all_contained keys hashable find_record agrees equal record_payload
  fetch_exact repository descriptor limit semantic_role g = do
    require (all_contained descriptor_fields (keys descriptor)) oci_descriptor_invalid
    payload_digest ← item (codes "digest") descriptor
    media_type ← item (codes "mediaType") descriptor
    size ← item (codes "size") descriptor
    require (hashable payload_digest) python_error
    let existing = find_record repository payload_digest g.payload_records
    require (agrees existing media_type size) oci_descriptor_equivocation
    payload ← received (v.fetch repository payload_digest)
    require (equal (string (raw_digest v.libraries payload)) payload_digest)
        oci_object_digest_mismatch
    require (equal (number (length payload)) size) oci_object_size_mismatch
    require (leb (length payload) limit) oci_graph_limit_exceeded
    let new : PayloadRecord = record {
      repository = repository;
      payload_digest = payload_digest;
      media_type = media_type;
      size = size;
      semantic_role = semantic_role;
      artifact_type = none;
    }
    recorded ← record_payload existing new payload g
    ok (payload, recorded)
