-- ===== src/Oci/Tests.antt =====
-- Runs of the blob streams of oci_graph.py, and the theorems at inputs.
use bytedesk_agent_delivery.Prelude.{
  ◌≤◌, ◌<◌, ◌≡◌, refl, Bytes, codes, ok, err, [], ◌∷◌, length, arith, ◌=ₜ◌,
}
use bytedesk_agent_delivery.Digest.{digest}
use bytedesk_agent_delivery.Digest.Hex.{hexdigest}
use bytedesk_agent_delivery.Digest.Checksum.{checksum}
use bytedesk_agent_delivery.Oci.{oci_wire_blob_bytes, oci_wire_bytes_noncanonical}
use bytedesk_agent_delivery.Oci.Base64.{
  encode_bounded_bytes, decode_bounded_bytes, b64decode, base64_char, base64_value,
  contains_padding,
}
use bytedesk_agent_delivery.Oci.Base64.Laws.{
  decode_bounded_bytes-encode, decode_bounded_bytes-canonical,
}
use bytedesk_agent_delivery.Oci.Stream.{
  Stream, stream, maximum_chunks, build_oci_blob_stream, build_chunks, decode_oci_blob_stream,
  decode_chunks, decode_chunk,
}
use bytedesk_agent_delivery.Oci.Stream.Laws.{
  decode_oci_blob_stream-build, decode_oci_blob_stream_sound,
}

abbrev payload : Bytes
payload = 0 ∷ 255 ∷ 62 ∷ 104 ∷ []

payload_text : encode_bounded_bytes payload ≡ codes "AP8-aA"
unfolding encode_bounded_bytes base64_char
payload_text = refl

-- The last character has bits that no byte uses.
alias_refused : decode_bounded_bytes (codes "AP8-aB") 8 ≡ err oci_wire_bytes_noncanonical
unfolding decode_bounded_bytes b64decode base64_value contains_padding encode_bounded_bytes
    base64_char ◌=ₜ◌
alias_refused = refl

payload_back : decode_bounded_bytes (codes "AP8-aA") 8 ≡ ok payload
unfolding decode_bounded_bytes b64decode base64_value contains_padding encode_bounded_bytes
    base64_char ◌=ₜ◌
payload_back = refl

decode_bounded_bytes-encode_example :
    decode_bounded_bytes (encode_bounded_bytes payload) 8 ≡ ok payload
decode_bounded_bytes-encode_example =
    decode_bounded_bytes-encode payload 8 (omega arith) (omega arith)

decode_bounded_bytes-canonical_example :
    (codes "AP8-aA" ≡ encode_bounded_bytes payload) × (length payload ≤ 8)
decode_bounded_bytes-canonical_example =
    decode_bounded_bytes-canonical (codes "AP8-aA") 8 payload payload_back

decode_oci_blob_stream-build_example :
    (s : Stream) × (build_oci_blob_stream checksum (codes "text/plain") payload ≡ ok s)
    × (decode_oci_blob_stream checksum (stream s) ≡ ok payload)
decode_oci_blob_stream-build_example =
    decode_oci_blob_stream-build checksum (codes "text/plain") payload (omega arith) (omega arith)
      (omega arith) (omega arith)

built : Stream
built = record {
  stream_digest = digest checksum payload;
  media_type = codes "text/plain";
  size = 4;
  chunks = build_chunks checksum 4 3 0 0 payload;
}

built_decodes : decode_oci_blob_stream checksum (stream built) ≡ ok payload
unfolding built decode_oci_blob_stream decode_chunks decode_chunk build_chunks decode_bounded_bytes
    b64decode base64_value contains_padding encode_bounded_bytes base64_char digest checksum
    hexdigest ◌=ₜ◌
built_decodes = refl

decode_oci_blob_stream_sound_example :
    (length payload ≡ built.size)
    × (digest checksum payload ≡ built.stream_digest)
    × (0 < length payload)
    × (length payload ≤ oci_wire_blob_bytes)
    × (length built.chunks ≤ maximum_chunks)
decode_oci_blob_stream_sound_example =
    decode_oci_blob_stream_sound checksum built payload built_decodes
