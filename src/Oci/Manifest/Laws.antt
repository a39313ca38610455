-- ===== src/Oci/Manifest/Laws.antt =====
-- What the publication preimage of scripts/contracts/oci_graph.py depends on.
use bytedesk_agent_delivery.Prelude.{
  ℕ, ◌≡◌, refl, sym, ◌∙◌, ap, Bytes, Text, codes, not, ◌&&◌, List, [], ◌∷◌, Result, ok, ◌>>=◌, ◌>>◌,
  require, length, ◌=ₜ◌, >>=-cong,
}
use bytedesk_agent_delivery.Json.{Value, string}
use bytedesk_agent_delivery.Json.Document.{equal, get, contains, number}
use bytedesk_agent_delivery.Oci.{
  OciError, public_render_publication_manifest_mismatch, public_render_publication_blob_set_invalid,
}
use bytedesk_agent_delivery.Oci.Json.{Libraries, item}
use bytedesk_agent_delivery.Oci.Stream.{Stream, stream, WireStream, decode_oci_blob_stream}
use bytedesk_agent_delivery.Oci.Stream.Laws.{decode_oci_blob_stream_sound}
use bytedesk_agent_delivery.Oci.Manifest.{
  raw_digest, BlobDescriptor, published_blobs, publication_document,
  public_render_publication_payload_preimage,
}

abbrev pub wire : List Stream → List WireStream
wire [] = []
wire (s ∷ streams) = stream s ∷ wire streams

module _ (lib : Libraries) where
  -- The same bytes of the same media type, in two transport forms.
  pub record SameBlob (s t : Stream) : Type 0 where
    pub payload : Bytes
    pub first : decode_oci_blob_stream lib.sha256 (stream s) ≡ ok payload
    pub second : decode_oci_blob_stream lib.sha256 (stream t) ≡ ok payload
    pub same_type : s.media_type ≡ t.media_type

  abbrev pub SameBlobs : List Stream → List Stream → Type 0
  SameBlobs [] [] = Unit
  SameBlobs [] (t ∷ ts) = ⊥
  SameBlobs (s ∷ ss) [] = ⊥
  SameBlobs (s ∷ ss) (t ∷ ts) = SameBlob s t × SameBlobs ss ts

  -- The round for a blob that decodes.
  abbrev publish :
      Value
      → List Text
      → Text
      → Text
      → ℕ
      → Bytes
      → (List Text → Result OciError (List BlobDescriptor))
      → Result OciError (List BlobDescriptor)
  publish root_digest seen d media_type size payload further = do
    require (not (equal (string d) root_digest) && not (contains d seen))
        public_render_publication_blob_set_invalid
    require (raw_digest lib payload =ₜ d) public_render_publication_blob_set_invalid
    rest ← further (d ∷ seen)
    ok (record { blob_digest = d; media_type = media_type; size = size } ∷ rest)

  published_blobs-publish :
      (root_digest : Value) (seen : List Text) (s : Stream) (blobs : List WireStream)
      (payload : Bytes)
      → decode_oci_blob_stream lib.sha256 (stream s) ≡ ok payload
      → published_blobs lib root_digest seen (stream s ∷ blobs)
        ≡ publish root_digest seen
            (raw_digest lib payload)
            s.media_type
            (length payload)
            payload
            (λ further. published_blobs lib root_digest further blobs)
  unfolding published_blobs
  published_blobs-publish root_digest seen s blobs payload h =
      let (size, d, _, _, _) = decode_oci_blob_stream_sound lib.sha256 s payload h in
      ap
        (λ r. r >>= λ p.
          publish root_digest seen s.stream_digest s.media_type s.size p
            (λ further. published_blobs lib root_digest further blobs))
        h
      ∙ ap
          (λ x.
            publish root_digest seen x s.media_type s.size payload
              (λ further. published_blobs lib root_digest further blobs))
          (sym d)
      ∙ ap
          (λ n.
            publish root_digest seen (raw_digest lib payload) s.media_type n payload
              (λ further. published_blobs lib root_digest further blobs))
          (sym size)

  published_blobs-SameBlobs :
      (root_digest : Value) (seen : List Text) (ss ts : List Stream)
      → SameBlobs ss ts
      → published_blobs lib root_digest seen (wire ss)
        ≡ published_blobs lib root_digest seen (wire ts)
  unfolding published_blobs
  published_blobs-SameBlobs root_digest seen [] [] same = refl
  published_blobs-SameBlobs root_digest seen [] (t ∷ ts) same = absurd same
  published_blobs-SameBlobs root_digest seen (s ∷ ss) [] same = absurd same
  published_blobs-SameBlobs root_digest seen (s ∷ ss) (t ∷ ts) same =
      let p = same.0.payload in
      let d = raw_digest lib p in
      published_blobs-publish root_digest seen s (wire ss) p same.0.first
      ∙ ap
          (λ media_type.
            publish root_digest seen d media_type (length p) p
              (λ further. published_blobs lib root_digest further (wire ss)))
          same.0.same_type
      ∙ ap (λ further. publish root_digest seen d t.media_type (length p) p (λ _. further))
          (published_blobs-SameBlobs root_digest (d ∷ seen) ss ts same.1)
      ∙ sym (published_blobs-publish root_digest seen t (wire ts) p same.0.second)

  -- Base64 texts and chunk boundaries are no part of the publication preimage: two lists of blob
  -- streams that decode, one by one, to the same bytes of the same media types have the same
  -- preimage, or are refused alike.
  pub public_render_publication_payload_preimage-SameBlobs :
      (destination_repository : Text) (harness_render_descriptor root_descriptor : Value)
      (manifest_bytes : Bytes) (ss ts : List Stream) (graph_digest : Text)
      → SameBlobs ss ts
      → public_render_publication_payload_preimage lib destination_repository
          harness_render_descriptor root_descriptor manifest_bytes
          (wire ss)
          graph_digest
        ≡ public_render_publication_payload_preimage lib destination_repository
            harness_render_descriptor root_descriptor manifest_bytes
            (wire ts)
            graph_digest
  unfolding public_render_publication_payload_preimage
  public_render_publication_payload_preimage-SameBlobs destination_repository
        harness_render_descriptor root_descriptor manifest_bytes ss ts graph_digest same =
      >>=-cong
        (require
          (equal (get (codes "repository") root_descriptor) (string destination_repository)
            && (equal (get (codes "digest") root_descriptor)
                  (string (raw_digest lib manifest_bytes))
                && equal (get (codes "size") root_descriptor) (number (length manifest_bytes))))
          public_render_publication_manifest_mismatch)
        _ _
        (λ _ _. >>=-cong (item (codes "digest") root_descriptor) _ _ (λ root_digest _.
          ap
            (λ r. r >>= λ descriptors. ok (
              publication_document lib destination_repository harness_render_descriptor
                root_descriptor manifest_bytes graph_digest descriptors))
            (published_blobs-SameBlobs root_digest [] ss ts same)))
