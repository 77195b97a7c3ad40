-- ===== src/ResourcePack/Archive.antt =====
-- internal/resourcepack/decrypt.go: `DecryptArchive`. The archive that archive/zip opens is a
-- parameter: `none` where zip.NewReader fails, else the raw names with their files.
pub mod Results
pub mod Entries
use bedrock_debug_proxy.Base.{
  ℕ, List, [], ◌∷◌, ◌++◌, Option, none, some, Bool, true, false, Bytes, length, lookup, bytes_eq,
  ◌==◌, ltb, map, if◌then◌else◌, not,
}
use bedrock_debug_proxy.ResourcePack.Paths.{dot, slash, join_archive_path}
use bedrock_debug_proxy.ResourcePack.Entry.{ZipFile, max_decrypted_payload_size}
use bedrock_debug_proxy.ResourcePack.Manifest.{Library, ContentsManifest, max_archive_entries}
use bedrock_debug_proxy.ResourcePack.Index.{
  index_files, manifest_paths, root_manifest, subpack_contents, contents_json, subpacks,
}
use bedrock_debug_proxy.ResourcePack.Declare.{
  Declared, nothing_declared, declare_manifests, key_bytes, base_of,
}
use bedrock_debug_proxy.ResourcePack.Emit.{Sink, Report, Emitting, Plan, emit_all}
use bedrock_debug_proxy.ResourcePack.Outcome.{
  Outcome, done, refused, ◌>>=◌, ◌>>◌, guard, from_option, key_size, open_archive, no_manifest,
  no_contents, too_many_manifests, too_many_entries, set_comment_failed, close_failed,
}

abbrev pub max_contents_manifests : ℕ
max_contents_manifests = 1024

pub record Decrypted : Type 0 where
  pub report : Report
  pub manifests : List ContentsManifest
  pub written : List (Bytes × Bytes)  -- what the destination holds

abbrev pub choose_root : List Bytes → Outcome Bytes
choose_root [] = refused no_manifest
choose_root (path ∷ paths) = done (root_manifest path paths)

abbrev pub start_emitting : ℕ → Declared → Emitting
start_emitting input_entries declared = record {
  report = record {
    content_id = declared.content_id;
    input_entries = input_entries;
    output_entries = 0;
    decrypted_files = 0;
    copied_files = 0;
    directories = 0;
    decrypted_payload_bytes = 0;
    contents = map (λ (m : ContentsManifest). m.summary) declared.manifests;
  };
  remaining = max_decrypted_payload_size;
  written = [];
}

abbrev pub plan_of : Library → (root_manifest : Bytes) → Declared → Plan
plan_of lib root_manifest declared = record {
  declarations = declared.declarations;
  contents_set = declared.contents_set;
  root_manifest = root_manifest;
  root = base_of lib root_manifest;
}

module _ (lib : Library) (sink : Sink) where
  -- The contents manifests, that of the pack's folder first.
  unfoldable pub contents_of :
      (root : Bytes) → List (Bytes × ZipFile) → Outcome (List (Bytes × ZipFile))
  contents_of root files = do
    let root_contents = join_archive_path root contents_json
    first ← from_option (lookup root_contents files) no_contents
    let below = subpack_contents root_contents (join_archive_path root subpacks ++ slash) files
    guard (not (ltb max_contents_manifests (length ((root_contents, first) ∷ below))))
        too_many_manifests
    done ((root_contents, first) ∷ below)

  unfoldable pub write_archive : Plan → ℕ → List (Bytes × ZipFile) → Declared → Outcome Decrypted
  unfolding emit_all
  write_archive plan input_entries files declared = do
    guard sink.sets_comment set_comment_failed
    s ← emit_all lib sink plan files (start_emitting input_entries declared)
    guard sink.closes close_failed
    done (record { report = s.report; manifests = declared.manifests; written = s.written })

  unfoldable pub decrypt_archive :
      Option (List (Bytes × ZipFile)) → (content_key : Bytes) → Outcome Decrypted
  unfolding index_files manifest_paths contents_of declare_manifests write_archive
  decrypt_archive opened key = do
    guard (length key == key_bytes) key_size
    entries ← from_option opened open_archive
    guard (not (ltb max_archive_entries (length entries))) (too_many_entries (length entries))
    files ← index_files lib.text entries []
    root_path ← choose_root (manifest_paths lib.text files)
    contents ← contents_of (base_of lib root_path) files
    declared ← declare_manifests lib files key contents nothing_declared
    write_archive (plan_of lib root_path declared) (length entries) files declared
