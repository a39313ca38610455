-- ===== src/Oci/Manifest/Tests.antt =====
-- The publication preimage of scripts/contracts/oci_graph.py at two transport forms of one blob.
use bytedesk_agent_delivery.Prelude.{◌≡◌, refl, Bytes, codes, [], ◌∷◌, Option, some, ◌=ₜ◌}
use bytedesk_agent_delivery.Digest.{digest}
use bytedesk_agent_delivery.Digest.Hex.{hexdigest}
use bytedesk_agent_delivery.Digest.Checksum.{checksum}
use bytedesk_agent_delivery.Json.{null}
use bytedesk_agent_delivery.Json.Document.{document}
use bytedesk_agent_delivery.Oci.Json.{Libraries}
use bytedesk_agent_delivery.Oci.Base64.{
  encode_bounded_bytes, decode_bounded_bytes, b64decode, contains_padding, base64_char,
  base64_value,
}
use bytedesk_agent_delivery.Oci.Stream.{
  Stream, chunk, decode_chunk, decode_chunks, decode_oci_blob_stream,
}
use bytedesk_agent_delivery.Oci.Manifest.{public_render_publication_payload_preimage}
use bytedesk_agent_delivery.Oci.Manifest.Laws.{
  wire, SameBlobs, public_render_publication_payload_preimage-SameBlobs,
}

abbrev libraries : Libraries
libraries = record { loads = λ p. Option.none; to_float = λ t. 0; jcs = λ v. []; sha256 = checksum }

abbrev blob : Bytes
blob = 1 ∷ 2 ∷ []

-- The blob in one chunk, and in two.
abbrev whole : Stream
whole = record {
  stream_digest = digest checksum blob;
  media_type = codes "m";
  size = 2;
  chunks =
      chunk (record {
        index = 0;
        offset = 0;
        size = 2;
        chunk_digest = digest checksum blob;
        content = some (encode_bounded_bytes blob);
      })
      ∷ [];
}

abbrev split_in_two : Stream
split_in_two = record {
  stream_digest = digest checksum blob;
  media_type = codes "m";
  size = 2;
  chunks =
      chunk (record {
        index = 0;
        offset = 0;
        size = 1;
        chunk_digest = digest checksum (1 ∷ []);
        content = some (encode_bounded_bytes (1 ∷ []));
      })
      ∷ chunk (record {
        index = 1;
        offset = 1;
        size = 1;
        chunk_digest = digest checksum (2 ∷ []);
        content = some (encode_bounded_bytes (2 ∷ []));
      })
      ∷ [];
}

same_blob : SameBlobs libraries (whole ∷ []) (split_in_two ∷ [])
unfolding decode_oci_blob_stream decode_chunks decode_chunk decode_bounded_bytes
    encode_bounded_bytes b64decode contains_padding base64_char base64_value digest hexdigest
    checksum ◌=ₜ◌
same_blob = (record { payload = blob; first = refl; second = refl; same_type = refl }, tt)

public_render_publication_payload_preimage-SameBlobs_example :
    public_render_publication_payload_preimage libraries
      (codes "r")
      null
      (document [])
      []
      (wire (whole ∷ []))
      []
    ≡ public_render_publication_payload_preimage libraries
        (codes "r")
        null
        (document [])
        []
        (wire (split_in_two ∷ []))
        []
public_render_publication_payload_preimage-SameBlobs_example =
    public_render_publication_payload_preimage-SameBlobs libraries (codes "r") null (document []) []
      (whole ∷ []) (split_in_two ∷ []) [] same_blob
