-- ===== src/ResourcePack/Manifest.antt =====
-- internal/resourcepack/decrypt.go: `decryptContentsManifest`. encoding/json and the block cipher of
-- crypto/aes are a parameter.
use bedrock_debug_proxy.Base.{
  ℕ, List, [], ◌∷◌, Option, none, some, Bool, false, Bytes, length, drop, ◌==◌, ltb, if◌then◌else◌,
  ◌&&◌, ◌||◌, not,
}
use bedrock_debug_proxy.ResourcePack.Cfb8.{Block, decrypt_bytes}
use bedrock_debug_proxy.ResourcePack.Paths.{Text, is_empty}
use bedrock_debug_proxy.ResourcePack.Header.{contents_header_size, read_header, HeaderError}
use bedrock_debug_proxy.ResourcePack.Entry.{ZipFile, read_limited_entry}
use bedrock_debug_proxy.ResourcePack.Outcome.{
  Outcome, done, refused, ◌>>=◌, ◌>>◌, guard, from_option, bad_header, bad_cipher, bad_json,
  no_content_array, bad_entries, too_many_entries,
}

pub record ContentsEntry : Type 0 where
  pub path : Bytes
  pub key : Bytes

pub record ContentsSummary : Type 0 where
  pub path : Bytes
  pub entries : ℕ
  pub encrypted_files : ℕ
  pub plain_files : ℕ

pub record ContentsManifest : Type 0 where
  pub summary : ContentsSummary
  pub plaintext : Bytes

pub record Json : Type 0 where
  pub valid : Bytes → Bool
  -- Unmarshal into a map, and its value under "content".
  pub raw_content : Bytes → Option (Option Bytes)
  pub entries : Bytes → Option (List ContentsEntry)

pub record Library : Type 0 where
  pub text : Text
  pub json : Json
  pub new_cipher : Bytes → Option Block

abbrev pub max_archive_entries : ℕ
max_archive_entries = 100000

abbrev pub is_padding : ℕ → Bool
is_padding b = b == 0 || (b == 32 || (b == 9 || (b == 13 || b == 10)))

-- bytes.TrimRight(plaintext, "\x00 \t\r\n").
unfoldable pub trim_right : Bytes → Bytes
trim_right [] = []
trim_right (b ∷ bytes) =
    let rest = trim_right bytes in if is_empty rest && is_padding b then [] else b ∷ rest

abbrev pub from_header : Option HeaderError × Bytes → Outcome Bytes
from_header (none, id) = done id
from_header (some e, id) = refused (bad_header e)

abbrev pub starts_array : Bytes → Bool
starts_array [] = false
starts_array (b ∷ bytes) = b == b'['

-- The raw value of "content" in a plaintext.
unfoldable pub content_array : Library → Bytes → Outcome Bytes
content_array lib plaintext = do
  raw ← from_option (lib.json.raw_content plaintext) bad_json
  content ← from_option raw no_content_array
  guard (starts_array (lib.text.trim_space content)) no_content_array
  done content

-- The manifest, its content identifier and its entries.
unfoldable pub decrypt_contents_manifest :
    Library
    → ZipFile
    → (manifest_path key : Bytes) → Outcome (ContentsManifest × Bytes × List ContentsEntry)
unfolding content_array trim_right decrypt_bytes read_header read_limited_entry
decrypt_contents_manifest lib file manifest_path key = do
  file_bytes ← read_limited_entry file
  content_id ← from_header (read_header lib.text file_bytes)
  padded ←
      from_option (decrypt_bytes lib.new_cipher key (drop contents_header_size file_bytes))
        bad_cipher
  let plaintext = trim_right padded
  guard (not (is_empty plaintext) && lib.json.valid plaintext) bad_json
  content ← content_array lib plaintext
  entries ← from_option (lib.json.entries content) bad_entries
  guard (not (ltb max_archive_entries (length entries))) (too_many_entries (length entries))
  done (
    record {
      summary = record {
        path = manifest_path;
        entries = length entries;
        encrypted_files = 0;
        plain_files = 0;
      };
      plaintext = plaintext;
    },
    content_id,
    entries,
  )
