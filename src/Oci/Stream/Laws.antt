-- ===== src/Oci/Stream/Laws.antt =====
-- A blob stream of oci_graph.py decodes to the payload that it was built from, and what decodes has
-- the size and the digest that the stream states.

use native.Mathlib.Decide.{dec_le}
use bytedesk_agent_delivery.Prelude.{
  lt→ltb, le→leb, ℕ, zero, suc, ◌+◌, ◌*◌, ◌≤◌, ◌<◌, ◌≡◌, refl, Bytes, Text, ◌&&◌, [], ◌∷◌, some, ok,
  length, take, drop, length-take, length-drop, take-append-drop, drop-nil, All-take, All-drop,
  require, ◌==◌, ◌=ₜ◌, =ₜ-refl, =ₜ→eq, arith, >>=-eq-ok, ok-injective, require-true,
}
use bytedesk_agent_delivery.Digest.{digest}
use bytedesk_agent_delivery.Digest.Hex.{IsBytes}
use bytedesk_agent_delivery.Oci.{
  oci_blob_stream_invalid, oci_blob_stream_digest_mismatch, oci_wire_chunk_bytes,
  oci_wire_blob_bytes,
}
use bytedesk_agent_delivery.Oci.Base64.{encode_bounded_bytes}
use bytedesk_agent_delivery.Oci.Base64.Laws.{decode_bounded_bytes-encode}
use bytedesk_agent_delivery.Oci.Stream.{
  Chunk, chunk, Stream, stream, root_in_bounds, maximum_chunks, build_chunks, build_oci_blob_stream,
  decode_chunk, decode_chunks, decode_oci_blob_stream,
}

module _ (sha256 : Bytes → Bytes) where
  -- A chunk with the numbers and the digest of its content decodes to the content.
  decode_chunk-built :
      (chunk_bytes index offset : ℕ) (content : Bytes) (c : Chunk)
      → IsBytes content
      → 0 < length content
      → length content ≤ chunk_bytes
      → c ≡ record {
        index = index;
        offset = offset;
        size = length content;
        chunk_digest = digest sha256 content;
        content = some (encode_bounded_bytes content);
      }
      → decode_chunk sha256 chunk_bytes index offset (chunk c) ≡ ok content
  unfolding decode_chunk
  decode_chunk-built chunk_bytes index offset content c bytes pos le e =
      rw
        (
          e,
          decode_bounded_bytes-encode content chunk_bytes bytes le,
          =ₜ-refl (digest sha256 content),
        )
        (ground arith)

  decode_chunks-build_chunks :
      (fuel chunk_bytes index offset expected_offset : ℕ) (rest : Bytes)
      → IsBytes rest
      → 0 < chunk_bytes
      → length rest ≤ fuel
      → (0 < length rest → expected_offset ≡ offset)
      → decode_chunks sha256 chunk_bytes index expected_offset
          (build_chunks sha256 fuel chunk_bytes index offset rest)
        ≡ ok rest
  unfolding build_chunks decode_chunks
  decode_chunks-build_chunks zero chunk_bytes index offset expected_offset [] b pos le at = refl
  decode_chunks-build_chunks zero chunk_bytes index offset expected_offset (x ∷ xs) b pos le at =
      absurd (omega arith)
  decode_chunks-build_chunks (suc fuel) chunk_bytes index offset expected_offset [] b pos le at =
      refl
  decode_chunks-build_chunks (suc fuel) chunk_bytes index offset expected_offset (x ∷ xs) b pos le
        at =
      let rest : Bytes = x ∷ xs in
      let content = take chunk_bytes rest in
      let e : expected_offset ≡ offset = at (omega arith) in
      let here =
        decode_chunk-built chunk_bytes index offset content _
          (All-take (λ c. c < 256) chunk_bytes rest b)
          (omega (arith, length-take {0} chunk_bytes rest))
          (omega (arith, length-take {0} chunk_bytes rest)) refl in
      let later =
        decode_chunks-build_chunks fuel chunk_bytes (index + 1) (offset + chunk_bytes)
          (offset + length content) (drop chunk_bytes rest)
          (All-drop (λ c. c < 256) chunk_bytes rest b) pos
          (omega (arith, length-drop {0} chunk_bytes rest))
          (λ more.
            omega (arith, length-take {0} chunk_bytes rest, length-drop {0} chunk_bytes rest)) in
      rw (e, here, later, take-append-drop chunk_bytes rest)

  build_chunks-nil :
      (fuel chunk_bytes index offset : ℕ)
      → build_chunks sha256 fuel chunk_bytes index offset [] ≡ []
  unfolding build_chunks
  build_chunks-nil zero chunk_bytes index offset = refl
  build_chunks-nil (suc fuel) chunk_bytes index offset = refl

  build_chunks-pos :
      (fuel chunk_bytes : ℕ) (rest : Bytes)
      → 0 < length rest
      → length rest ≤ fuel
      → 0 < length (build_chunks sha256 fuel chunk_bytes 0 0 rest)
  unfolding build_chunks
  build_chunks-pos zero chunk_bytes rest pos le = absurd (omega arith)
  build_chunks-pos (suc fuel) chunk_bytes [] pos le = absurd (omega arith)
  build_chunks-pos (suc fuel) chunk_bytes (x ∷ xs) pos le = omega arith

  length-build_chunks :
      (fuel chunk_bytes index offset : ℕ) (rest : Bytes)
      → 0 < chunk_bytes
      → length (build_chunks sha256 fuel chunk_bytes index offset rest) * chunk_bytes
        < length rest + chunk_bytes
  unfolding build_chunks
  length-build_chunks zero chunk_bytes index offset rest pos = omega arith
  length-build_chunks (suc fuel) chunk_bytes index offset [] pos = omega arith
  length-build_chunks (suc fuel) chunk_bytes index offset (x ∷ xs) pos =
      elim (dec_le (length (x ∷ xs)) chunk_bytes) [
        | yes short ↦
            rw
              (
                drop-nil chunk_bytes (x ∷ xs) short,
                build_chunks-nil fuel chunk_bytes (index + 1) (offset + chunk_bytes),
              )
              (omega arith)
        | no long ↦ omega (
          arith,
          length-build_chunks fuel chunk_bytes (index + 1) (offset + chunk_bytes)
              (drop chunk_bytes (x ∷ xs)) pos,
          length-drop {0} chunk_bytes (x ∷ xs),
        )
      ]

  -- A blob stream that is built from a payload of bytes decodes to that payload.
  pub decode_oci_blob_stream-build :
      (media_type : Text) (payload : Bytes)
      → IsBytes payload
      → 0 < length media_type
      → 0 < length payload
      → length payload ≤ oci_wire_blob_bytes
      → (s : Stream) × (build_oci_blob_stream sha256 media_type payload ≡ ok s)
        × (decode_oci_blob_stream sha256 (stream s) ≡ ok payload)
  unfolding build_oci_blob_stream decode_oci_blob_stream
  decode_oci_blob_stream-build media_type payload bytes named pos le =
      let chunks = build_chunks sha256 (length payload) oci_wire_chunk_bytes 0 0 payload in
      let built : Stream = record {
        stream_digest = digest sha256 payload;
        media_type = media_type;
        size = length payload;
        chunks = chunks;
      } in
      let back =
        decode_chunks-build_chunks (length payload) oci_wire_chunk_bytes 0 0 0 payload bytes
          (omega arith) (omega arith) (λ _. refl) in
      let few : length chunks * oci_wire_chunk_bytes < length payload + oci_wire_chunk_bytes =
        length-build_chunks (length payload) oci_wire_chunk_bytes 0 0 payload (omega arith) in
      let some_chunk : 0 < length chunks =
        build_chunks-pos (length payload) oci_wire_chunk_bytes payload pos (omega arith) in
      (
        built,
        rw (
          lt→ltb 0 (length media_type) named,
          lt→ltb 0 (length payload) pos,
          le→leb (length payload) oci_wire_blob_bytes le,
        ),
        rw
            (
              lt→ltb 0 (length payload) pos,
              le→leb (length payload) oci_wire_blob_bytes le,
              lt→ltb 0 (length chunks) some_chunk,
              le→leb (length chunks) maximum_chunks (omega arith),
              back,
              =ₜ-refl (digest sha256 payload),
            )
            (ground arith),
      )

  -- What decodes is no larger than the limit, and has the size and the digest that the stream states.
  pub decode_oci_blob_stream_sound :
      (s : Stream) (payload : Bytes)
      → decode_oci_blob_stream sha256 (stream s) ≡ ok payload
      → (length payload ≡ s.size)
        × (digest sha256 payload ≡ s.stream_digest)
        × (0 < length payload)
        × (length payload ≤ oci_wire_blob_bytes)
        × (length s.chunks ≤ maximum_chunks)
  unfolding decode_oci_blob_stream
  decode_oci_blob_stream_sound s payload h =
      let (_, e1, h1) = >>=-eq-ok (require (root_in_bounds s) oci_blob_stream_invalid) _ h in
      let (p, _, h2) = >>=-eq-ok (decode_chunks sha256 oci_wire_chunk_bytes 0 0 s.chunks) _ h1 in
      let (_, e3, h3) =
        >>=-eq-ok
          (require (length p == s.size && digest sha256 p =ₜ s.stream_digest)
            oci_blob_stream_digest_mismatch)
          _ h2 in
      let same : p ≡ payload = ok-injective h3 in
      let a = require-true _ _ e1 in
      let b = require-true _ _ e3 in
      rw (← same) (
        ground arith,
        =ₜ→eq (digest sha256 p) s.stream_digest (ground arith),
        ground arith,
        ground arith,
        ground arith,
      )
