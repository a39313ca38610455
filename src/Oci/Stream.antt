-- ===== src/Oci/Stream.antt =====
-- `build_oci_blob_stream` and `decode_oci_blob_stream` of scripts/contracts/oci_graph.py.
pub mod Laws
use bytedesk_agent_delivery.Prelude.{
  ℕ, zero, suc, ◌+◌, Bytes, Text, Bool, true, false, not, ◌&&◌, List, [], ◌∷◌, ◌++◌, Option, none,
  some, Result, ok, err, length, take, drop, ◌>>=◌, ◌>>◌, require, leb, ltb, ◌==◌, ◌=ₜ◌,
}
use bytedesk_agent_delivery.Digest.{digest}
use bytedesk_agent_delivery.Oci.{
  OciError, oci_wire_bytes_invalid, oci_blob_stream_invalid, oci_blob_stream_chunk_mismatch,
  oci_blob_stream_digest_mismatch, oci_wire_chunk_bytes, oci_wire_blob_bytes,
}
use bytedesk_agent_delivery.Oci.Base64.{encode_bounded_bytes, decode_bounded_bytes}

-- One chunk with its five members; the content is `none` where it is no text.
pub record Chunk : Type 0 where
  pub index : ℕ
  pub offset : ℕ
  pub size : ℕ
  pub chunk_digest : Text
  pub content : Option Text

-- A member of `chunks`: a chunk, or a value with other members or of another type.
pub data WireChunk : Type 0 where
  chunk : Chunk → WireChunk
  malformed_chunk : WireChunk

pub record Stream : Type 0 where
  pub stream_digest : Text
  pub media_type : Text
  pub size : ℕ
  pub chunks : List WireChunk

pub data WireStream : Type 0 where
  stream : Stream → WireStream
  malformed_stream : WireStream

abbrev pub maximum_chunks : ℕ
maximum_chunks = 1024

-- The bounds on the members of the root.
abbrev root_in_bounds : Stream → Bool
root_in_bounds s =
    ltb 0 s.size
    && (leb s.size oci_wire_blob_bytes
        && (ltb 0 (length s.chunks) && leb (length s.chunks) maximum_chunks))

abbrev decode_content : Option Text → ℕ → Result OciError Bytes
decode_content none maximum_bytes = err oci_wire_bytes_invalid
decode_content (some text) maximum_bytes = decode_bounded_bytes text maximum_bytes

module _ (sha256 : Bytes → Bytes) where
  -- The loop of `build_oci_blob_stream` over what is left of the payload.
  unfoldable pub build_chunks : ℕ → ℕ → ℕ → ℕ → Bytes → List WireChunk
  build_chunks zero chunk_bytes index offset rest = []
  build_chunks (suc fuel) chunk_bytes index offset [] = []
  build_chunks (suc fuel) chunk_bytes index offset (x ∷ xs) =
      let content = take chunk_bytes (x ∷ xs) in
      chunk (record {
        index = index;
        offset = offset;
        size = length content;
        chunk_digest = digest sha256 content;
        content = some (encode_bounded_bytes content);
      })
      ∷ build_chunks fuel chunk_bytes (index + 1) (offset + chunk_bytes) (drop chunk_bytes (x ∷ xs))

  unfoldable pub build_oci_blob_stream : Text → Bytes → Result OciError Stream
  build_oci_blob_stream media_type payload = do
    require (ltb 0 (length media_type)) oci_blob_stream_invalid
    require (ltb 0 (length payload) && leb (length payload) oci_wire_blob_bytes)
        oci_blob_stream_invalid
    ok (record {
      stream_digest = digest sha256 payload;
      media_type = media_type;
      size = length payload;
      chunks = build_chunks (length payload) oci_wire_chunk_bytes 0 0 payload;
    })

  -- The body of the loop of `decode_oci_blob_stream`.
  unfoldable pub decode_chunk : ℕ → ℕ → ℕ → WireChunk → Result OciError Bytes
  decode_chunk chunk_bytes expected_index expected_offset malformed_chunk =
      err oci_blob_stream_invalid
  decode_chunk chunk_bytes expected_index expected_offset (chunk c) = do
    require
        (c.index == expected_index
          && (c.offset == expected_offset && (ltb 0 c.size && leb c.size chunk_bytes)))
        oci_blob_stream_invalid
    content ← decode_content c.content chunk_bytes
    require (length content == c.size && digest sha256 content =ₜ c.chunk_digest)
        oci_blob_stream_chunk_mismatch
    ok content

  -- The loop, and the join of its parts.
  unfoldable pub decode_chunks : ℕ → ℕ → ℕ → List WireChunk → Result OciError Bytes
  decode_chunks chunk_bytes expected_index expected_offset [] = ok []
  decode_chunks chunk_bytes expected_index expected_offset (c ∷ chunks) = do
    content ← decode_chunk chunk_bytes expected_index expected_offset c
    rest ← decode_chunks chunk_bytes (expected_index + 1) (expected_offset + length content) chunks
    ok (content ++ rest)

  unfoldable pub decode_oci_blob_stream : WireStream → Result OciError Bytes
  decode_oci_blob_stream malformed_stream = err oci_blob_stream_invalid
  decode_oci_blob_stream (stream s) = do
    require (root_in_bounds s) oci_blob_stream_invalid
    payload ← decode_chunks oci_wire_chunk_bytes 0 0 s.chunks
    require (length payload == s.size && digest sha256 payload =ₜ s.stream_digest)
        oci_blob_stream_digest_mismatch
    ok payload
