-- ===== src/Bundle.antt =====
-- scripts/contracts/bundle_profile.py: the portable paths of a contract bundle. What Python's
-- `unicodedata` and `str` say of characters is the record `Unicode`.
pub mod Laws
mod Tests
use bytedesk_agent_delivery.Prelude.{
  ℕ, ◌+◌, Text, Bytes, codes, Bool, true, false, not, ◌&&◌, ◌||◌, List, [], ◌∷◌, ◌++◌, Option, none,
  some, Result, ok, err, ◌>>=◌, ◌>>◌, require, length, leb, ◌==◌, ◌=ₜ◌, if◌then◌else◌,
}
use bytedesk_agent_delivery.Digest.{strip_prefix}
use bytedesk_agent_delivery.Digest.Hex.{hexdigest}
use bytedesk_agent_delivery.Json.Document.{contains}

-- The messages of `BundleProfileError`, and the exceptions of the strict JSON lane.
pub data BundleError : Type 0 where
  empty_path not_nfc not_utf8 path_too_long not_relative too_many_segments : BundleError
  invalid_segment segment_too_long windows_ambiguous control_character device_name : BundleError
  duplicate_path colliding_paths no_declared_role invalid_cas_digest cas_mismatch : BundleError
  strict_json : BundleError

pub record Unicode : Type 0 where
  -- `unicodedata.normalize("NFC", value)`
  pub nfc : Text → Text
  -- `str.casefold`
  pub casefold : Text → Text
  -- `str.encode("utf-8", errors="strict")`; `none` is a `UnicodeError`
  pub utf8 : Text → Option Bytes
  -- `unicodedata.category(character).startswith("C")`
  pub is_control : ℕ → Bool

abbrev pub max_portable_path_bytes : ℕ
max_portable_path_bytes = 1_024

abbrev pub max_portable_path_segments : ℕ
max_portable_path_segments = 32

abbrev pub max_portable_segment_bytes : ℕ
max_portable_segment_bytes = 255

abbrev pub raw_json_prefixes : List Text
raw_json_prefixes = codes "contracts/fixtures/encoding/" ∷ codes "contracts/vendor/" ∷ []

abbrev pub raw_cas_prefixes : List Text
raw_cas_prefixes =
    codes "contracts/fixtures/operations/private-compilation-cas/blobs/sha256/"
    ∷ codes "contracts/fixtures/operations/renderer-cas/blobs/sha256/"
    ∷ []

abbrev pub structured_control_prefixes : List Text
structured_control_prefixes =
    codes "contracts/asyncapi/v1/"
    ∷ codes "contracts/bundle/v1/"
    ∷ codes "contracts/compatibility/"
    ∷ codes "contracts/events/v1/"
    ∷ codes "contracts/fixtures/lifecycle/"
    ∷ codes "contracts/fixtures/operations/"
    ∷ codes "contracts/fixtures/schema/"
    ∷ codes "contracts/lifecycle/"
    ∷ codes "contracts/openapi/v1/"
    ∷ codes "contracts/ports/v1/"
    ∷ codes "contracts/schemas/v1/"
    ∷ []

abbrev pub windows_forbidden_characters : Text
windows_forbidden_characters = codes ":<>\"|?*"

-- `{f"{name}{suffix}" for suffix in "123456789¹²³"}`
abbrev numbered : Text → List ℕ → List Text
numbered name [] = []
numbered name (c ∷ cs) = (name ++ c ∷ []) ∷ numbered name cs

abbrev suffixes : List ℕ
suffixes = codes "123456789" ++ 185 ∷ 178 ∷ 179 ∷ []

abbrev pub windows_device_names : List Text
windows_device_names =
    codes "con"
    ∷ codes "prn"
    ∷ codes "aux"
    ∷ codes "nul"
    ∷ codes "clock$"
    ∷ codes "conin$"
    ∷ codes "conout$"
    ∷ (numbered (codes "com") suffixes ++ numbered (codes "lpt") suffixes)

-- `c in text` for a character, and `any(c in characters for c in text)`.
unfoldable pub has : ℕ → Text → Bool
has c [] = false
has c (x ∷ xs) = x == c || has c xs

unfoldable pub has_any : Text → Text → Bool
unfolding has
has_any characters [] = false
has_any characters (c ∷ cs) = has c characters || has_any characters cs

unfoldable pub any_control : (ℕ → Bool) → Text → Bool
any_control is_control [] = false
any_control is_control (c ∷ cs) = is_control c || any_control is_control cs

unfoldable pub starts_with : Text → Text → Bool
unfolding strip_prefix
starts_with start value = elim (strip_prefix start value) [ some rest ↦ true | none ↦ false ]

unfoldable pub ends_with : Text → Text → Bool
unfolding ◌=ₜ◌
ends_with tail [] = tail =ₜ []
ends_with tail (c ∷ cs) = tail =ₜ (c ∷ cs) || ends_with tail cs

unfoldable pub starts_with_any : List Text → Text → Bool
unfolding starts_with
starts_with_any [] value = false
starts_with_any (p ∷ ps) value = starts_with p value || starts_with_any ps value

-- `value.split(separator)`: the part before the first separator, and the parts behind it.
unfoldable pub split_at : ℕ → Text → Text × List Text
split_at separator [] = ([], [])
split_at separator (c ∷ cs) =
    let (segment, segments) = split_at separator cs in
    if c == separator then ([], segment ∷ segments) else (c ∷ segment, segments)

-- The number of UTF-8 bytes of a segment of a path that has been encoded.
unfoldable pub utf8_length : Option Bytes → Result BundleError ℕ
utf8_length none = err not_utf8
utf8_length (some encoded) = ok (length encoded)

-- `collision_keys.get(key)`
unfoldable pub previous : Text → List (Text × Text) → Option Text
unfolding ◌=ₜ◌
previous key [] = none
previous key ((k, value) ∷ rest) = if k =ₜ key then some value else previous key rest

-- `previous is None or previous == value`
abbrev pub agrees : Option Text → Text → Bool
agrees none value = true
agrees (some before) value = before =ₜ value

-- The returns of `structured_control_member`: raw or no JSON, and a declared control namespace.
abbrev pub member_role : Bool → Bool → Result BundleError Bool
member_role true declared = ok false
member_role false true = ok true
member_role false false = err no_declared_role

-- `path.rsplit("/", 1)[-1]`
unfoldable pub last_segment : Text → List Text → Text
last_segment segment [] = segment
last_segment segment (next ∷ rest) = last_segment next rest

-- Whether every character is one of `characters`.
unfoldable pub only_in : Text → Text → Bool
unfolding has
only_in characters [] = true
only_in characters (c ∷ cs) = has c characters && only_in characters cs

module _ (u : Unicode) where
  -- The body of the loop over the segments.
  unfoldable pub check_segment : Text → Result BundleError (Unit {0})
  unfolding contains ends_with has_any any_control split_at utf8_length
  check_segment segment = do
    require (not (contains segment ([] ∷ codes "." ∷ codes ".." ∷ []))) invalid_segment
    size ← utf8_length (u.utf8 segment)
    require (leb size max_portable_segment_bytes) segment_too_long
    require
        (not (
          ends_with (codes ".") segment
          || (ends_with (codes " ") segment || has_any windows_forbidden_characters segment)))
        windows_ambiguous
    require (not (any_control u.is_control segment)) control_character
    let (base, extensions) = split_at b'.' (u.casefold segment)
    require (not (contains base windows_device_names)) device_name

  unfoldable pub check_segments : List Text → Result BundleError (Unit {0})
  unfolding check_segment
  check_segments [] = ok tt
  check_segments (segment ∷ segments) = do check_segment segment; check_segments segments

  abbrev is_relative : Text → Bool
  is_relative value = not (starts_with (codes "/") value || has b'\\' value)

  unfoldable pub portable_path_collision_key : Text → Result BundleError Text
  unfolding check_segments utf8_length split_at starts_with has ◌=ₜ◌
  portable_path_collision_key value = do
    require (not (value =ₜ [])) empty_path
    require (u.nfc value =ₜ value) not_nfc
    size ← utf8_length (u.utf8 value)
    require (leb size max_portable_path_bytes) path_too_long
    require (is_relative value) not_relative
    let (segment, segments) = split_at b'/' value
    require (leb (length (segment ∷ segments)) max_portable_path_segments) too_many_segments
    check_segments (segment ∷ segments)
    ok (u.nfc (u.casefold value))

  -- The loop of `validate_portable_path_set`, over `exact` and `collision_keys`.
  unfoldable pub validate_paths :
      List Text → List (Text × Text) → List Text → Result BundleError (Unit {0})
  unfolding previous contains
  validate_paths exact collision_keys [] = ok tt
  validate_paths exact collision_keys (value ∷ paths) = do
    require (not (contains value exact)) duplicate_path
    key ← portable_path_collision_key value
    require (agrees (previous key collision_keys) value) colliding_paths
    validate_paths (value ∷ exact) ((key, value) ∷ collision_keys) paths

  unfoldable pub validate_portable_path_set : List Text → Result BundleError (Unit {0})
  validate_portable_path_set paths = validate_paths [] [] paths

  unfoldable pub structured_control_member : Text → Result BundleError Bool
  unfolding portable_path_collision_key ends_with starts_with_any
  structured_control_member path = do
    key ← portable_path_collision_key path
    member_role (not (ends_with (codes ".json") path) || starts_with_any raw_json_prefixes path)
        (starts_with_any structured_control_prefixes path)

module _ (u : Unicode) (sha256 : Bytes → Bytes) (canonical : Bytes → Result BundleError Bytes) where
  -- `canonical_json(strict_json_bytes(payload, path))` is the parameter `canonical`.
  unfoldable pub normalized_member_payload : Text → Bytes → Result BundleError Bytes
  unfolding structured_control_member starts_with_any split_at last_segment only_in ◌=ₜ◌
  normalized_member_payload path payload =
      if starts_with_any raw_cas_prefixes path
      then (do
        let (segment, segments) = split_at b'/' path
        let digest_hex = last_segment segment segments
        require (length digest_hex == 64 && only_in (codes "0123456789abcdef") digest_hex)
            invalid_cas_digest
        require (hexdigest (sha256 payload) =ₜ digest_hex) cas_mismatch
        ok payload)
      else (do
        structured ← structured_control_member u path
        if structured then canonical payload else ok payload)
