-- ===== src/ResourcePack/Header.antt =====
-- internal/resourcepack/decrypt.go: the 256-byte header of a contents manifest, in
-- `decryptContentsManifest`.
pub mod Canonical
use bedrock_debug_proxy.Base.{
  ℕ, ◌+◌, ◌-◌, ◌*◌, ◌^◌, List, [], ◌∷◌, ◌++◌, Option, none, some, Bool, true, false, Bytes, length,
  take, drop, bytes_eq, ◌==◌, ltb, if◌then◌else◌, ◌&&◌, ◌||◌, not,
}
use bedrock_debug_proxy.ResourcePack.Paths.{Text}

abbrev pub contents_header_size : ℕ
contents_header_size = 256

abbrev pub contents_magic : Bytes
contents_magic = 0xfc ∷ 0xb9 ∷ 0xcf ∷ 0x9b ∷ []

unfoldable pub all_zero : Bytes → Bool
all_zero [] = true
all_zero (b ∷ bytes) = (b == 0) && all_zero bytes

-- binary.LittleEndian.Uint32 of the first four bytes.
unfoldable pub little_endian : Bytes → ℕ
little_endian [] = 0
little_endian (b ∷ bytes) = b + 256 * little_endian bytes

abbrev pub byte_at : ℕ → Bytes → ℕ
byte_at n bytes = elim (drop n bytes) as (λ _. ℕ) [ [] ↦ 0 | b ∷ more ↦ b ]

pub data HeaderError : Type 0 where
  too_short unsupported_version wrong_magic reserved_bytes content_id_length content_id_text
        header_padding :
      HeaderError

-- The tests of a header, in their order; the content identifier of one that passes.
unfoldable pub read_header : Text → Bytes → Option HeaderError × Bytes
unfolding all_zero little_endian
read_header text file =
    let header = take contents_header_size file in
    let id_length = byte_at 16 header in
    let id = take id_length (drop 17 header) in
    if ltb (length file) contents_header_size
    then (some too_short, [])
    else if not (little_endian (take 4 header) == 0)
    then (some unsupported_version, [])
    else if not (bytes_eq (take 4 (drop 4 header)) contents_magic)
    then (some wrong_magic, [])
    else if not (all_zero (take 8 (drop 8 header)))
    then (some reserved_bytes, [])
    else if id_length == 0 || ltb contents_header_size (17 + id_length)
    then (some content_id_length, [])
    else if not (text.valid_string id)
    then (some content_id_text, [])
    else if not (all_zero (drop (17 + id_length) header))
    then (some header_padding, [])
    else (none, id)
