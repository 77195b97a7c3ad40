-- ===== src/ResourcePack/Declare.antt =====
-- internal/resourcepack/decrypt.go: the loop of `DecryptArchive` over the contents manifests, which
-- gathers the key of each file.
pub mod Adding
pub mod Laws
use bedrock_debug_proxy.Base.{
  ℕ, ◌+◌, ◌-◌, ◌*◌, ◌^◌, List, [], ◌∷◌, ◌++◌, Bool, true, false, Bytes, length, lookup, contains,
  bytes_eq, ◌==◌, ltb, if◌then◌else◌, ◌&&◌, ◌||◌, not, is_some,
}
use bedrock_debug_proxy.ResourcePack.Paths.{
  is_empty, dot, clean_content_path, join_archive_path, archive_directory_reference,
}
use bedrock_debug_proxy.ResourcePack.Entry.{ZipFile}
use bedrock_debug_proxy.ResourcePack.Manifest.{
  ContentsEntry, ContentsSummary, ContentsManifest, Library, decrypt_contents_manifest,
  max_archive_entries,
}
use bedrock_debug_proxy.ResourcePack.Outcome.{
  Outcome, done, refused, ◌>>=◌, ◌>>◌, guard, from_path, plaintext_limit, declaration_limit,
  other_content_id, declared_twice, missing_entry, keyed_directory, bad_entry_key,
}

abbrev pub max_contents_plaintext : ℕ
max_contents_plaintext = 64 * 2 ^ 20

abbrev pub key_bytes : ℕ
key_bytes = 32

-- What one manifest adds to.
pub record Declaring : Type 0 where
  pub declarations : List (Bytes × Bytes)
  pub encrypted_files : ℕ
  pub plain_files : ℕ

pub record Declared : Type 0 where
  pub declarations : List (Bytes × Bytes)
  pub contents_set : List Bytes
  pub total_declarations : ℕ
  pub remaining_plaintext : ℕ
  pub content_id : Bytes
  pub manifests : List ContentsManifest

abbrev pub nothing_declared : Declared
nothing_declared = record {
  declarations = [];
  contents_set = [];
  total_declarations = 0;
  remaining_plaintext = max_contents_plaintext;
  content_id = [];
  manifests = [];
}

-- A directory is declared without a key and counts as no file.
unfoldable pub put_declaration : Bytes → (directory : Bool) → Bytes → Declaring → Declaring
put_declaration full_path directory key d =
    let with_path : List (Bytes × Bytes) = (full_path, key) ∷ d.declarations in
    if directory
    then record d { declarations = with_path }
    else if is_empty key
    then record d { declarations = with_path; plain_files = d.plain_files + 1 }
    else record d { declarations = with_path; encrypted_files = d.encrypted_files + 1 }

-- The folder of a path.
abbrev pub base_of : Library → Bytes → Bytes
base_of lib path = let base = lib.text.dir path in if bytes_eq base dot then [] else base

module _ (lib : Library) (files : List (Bytes × ZipFile)) where
  -- The part of the loop body after the path.
  unfoldable pub declare_path :
      (contents_set : List Bytes) (full_path key : Bytes) → Declaring → Outcome Declaring
  unfolding put_declaration
  declare_path contents_set full_path key d =
      let directory = archive_directory_reference (λ file. file.is_dir) full_path files in
      do
        guard (not (is_some (lookup full_path d.declarations))) (declared_twice full_path)
        guard (is_empty key || (length key == key_bytes)) (bad_entry_key full_path (length key))
        guard (contains full_path contents_set || (is_some (lookup full_path files) || directory))
            (missing_entry full_path)
        guard (not directory || is_empty key) (keyed_directory full_path)
        done (put_declaration full_path directory key d)

  unfoldable pub declare_entries :
      (contents_set : List Bytes) (base : Bytes)
      → List ContentsEntry
      → Declaring
      → Outcome Declaring
  unfolding declare_path
  declare_entries contents_set base [] d = done d
  declare_entries contents_set base (entry ∷ entries) d = do
    relative ← from_path (clean_content_path lib.text entry.path)
    d' ← declare_path contents_set (join_archive_path base relative) entry.key d
    declare_entries contents_set base entries d'

  -- The tests of a decrypted manifest, and its entries.
  unfoldable pub declare_manifest :
      (path : Bytes) → ContentsManifest × Bytes × List ContentsEntry → Declared → Outcome Declared
  unfolding declare_entries
  declare_manifest path (manifest, content_id, entries) s = do
    guard (not (ltb s.remaining_plaintext (length manifest.plaintext))) plaintext_limit
    guard (not (ltb (max_archive_entries - s.total_declarations) (length entries)))
        declaration_limit
    guard (is_empty s.content_id || bytes_eq s.content_id content_id) (other_content_id content_id)
    let contents_set : List Bytes = path ∷ s.contents_set
    d ←
        declare_entries contents_set (base_of lib path) entries
          (record { declarations = s.declarations; encrypted_files = 0; plain_files = 0 })
    done (record {
      declarations = d.declarations;
      contents_set = contents_set;
      total_declarations = s.total_declarations + length entries;
      remaining_plaintext = s.remaining_plaintext - length manifest.plaintext;
      content_id = if is_empty s.content_id then content_id else s.content_id;
      manifests =
          s.manifests
          ++ record {
            summary = record manifest.summary {
              encrypted_files = d.encrypted_files;
              plain_files = d.plain_files;
            };
            plaintext = manifest.plaintext;
          }
            ∷ [];
    })

  unfoldable pub declare_manifests :
      (key : Bytes) → List (Bytes × ZipFile) → Declared → Outcome Declared
  unfolding declare_manifest
  declare_manifests key [] s = done s
  declare_manifests key ((path, file) ∷ contents) s = do
    found ← decrypt_contents_manifest lib file path key
    s' ← declare_manifest path found s
    declare_manifests key contents s'
