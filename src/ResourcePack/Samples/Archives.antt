-- ===== src/ResourcePack/Samples/Archives.antt =====
-- Tests of DecryptArchive on the sample pack.
use bedrock_debug_proxy.Base.{
  ◌+◌, ◌≤◌, ◌≡◌, refl, inr, List, [], ◌∷◌, ◌++◌, some, true, false, Bytes, length, take, lookup,
  contains, bytes_eq, All,
}
use bedrock_debug_proxy.ResourcePack.Cfb8.{block_size}
use bedrock_debug_proxy.ResourcePack.Cfb8.Laws.{encrypt_cfb8}
use bedrock_debug_proxy.ResourcePack.Header.Canonical.{header_of}
use bedrock_debug_proxy.ResourcePack.Entry.{ZipFile, max_decrypted_payload_size}
use bedrock_debug_proxy.ResourcePack.Manifest.{Library, Json, decrypt_contents_manifest}
use bedrock_debug_proxy.ResourcePack.Paths.{
  clean_archive_path, clean_content_path, join_archive_path, archive_directory_reference,
  is_text_like_resource_path,
}
use bedrock_debug_proxy.ResourcePack.Index.{
  subpack_contents, root_manifest, manifest_json, contents_json,
}
use bedrock_debug_proxy.ResourcePack.Declare.{Declared, nothing_declared, declare_manifests}
use bedrock_debug_proxy.ResourcePack.Declare.Laws.{WellDeclared, declare_manifests-WellDeclared}
use bedrock_debug_proxy.ResourcePack.Emit.{Sink, Emitting, Plan, emit_all, all_of}
use bedrock_debug_proxy.ResourcePack.Emit.Derivation.{sum_bytes}
use bedrock_debug_proxy.ResourcePack.Outcome.{Outcome, done, refused, is_refused}
use bedrock_debug_proxy.ResourcePack.Archive.{Decrypted, plan_of, start_emitting, decrypt_archive}
use bedrock_debug_proxy.ResourcePack.Archive.Results.{decrypt_archive-bounded}
use bedrock_debug_proxy.ResourcePack.Archive.Entries.{
  InsideName, emit_all-refuses, decrypt_archive-Inside,
}
use bedrock_debug_proxy.ResourcePack.Samples.{block, new_cipher, pack_key, secret, text, text-laws}

abbrev blob_name : Bytes
blob_name = b'a' ∷ b'.' ∷ b'b' ∷ []

abbrev json : Json
json = record {
  valid = λ plaintext. true;
  raw_content = λ plaintext. some (some (b'[' ∷ []));
  entries = λ raw. some (record { path = blob_name; key = pack_key } ∷ []);
}

abbrev lib : Library
lib = record { text = text; json = json; new_cipher = new_cipher }

abbrev sink : Sink
sink = record { creates = λ name. true; writes = λ name. true; sets_comment = true; closes = true }

abbrev file_of : Bytes → ZipFile
file_of bytes = record {
  is_dir = false;
  is_symlink = false;
  is_regular = true;
  size = length bytes;
  opens = true;
  contents = all_of bytes;
  closes = true;
}

abbrev encrypted : Bytes → Bytes
encrypted plain = encrypt_cfb8 block (take block_size pack_key) plain

abbrev contents_file : ZipFile
contents_file = file_of (header_of (b'x' ∷ []) ++ encrypted (b'{' ∷ b'}' ∷ []))

abbrev pack : List (Bytes × ZipFile)
pack =
    (manifest_json, file_of (b'{' ∷ b'}' ∷ []))
    ∷ (contents_json, contents_file)
    ∷ (blob_name, file_of (encrypted secret))
    ∷ []

abbrev declared_of : Outcome Declared → Declared
declared_of (done s) = s
declared_of (refused e) = nothing_declared

abbrev declared : Declared
declared =
    declared_of
      (declare_manifests lib pack pack_key ((contents_json, contents_file) ∷ []) nothing_declared)

declared_example : WellDeclared pack declared
unfolding declare_manifests decrypt_contents_manifest bytes_eq lookup contains clean_content_path
    join_archive_path archive_directory_reference
declared_example =
    declare_manifests-WellDeclared lib pack pack_key ((contents_json, contents_file) ∷ []) declared
      refl

abbrev decrypted_of : Outcome Decrypted → Decrypted
decrypted_of (done r) = r
decrypted_of (refused e) = record {
  report = (start_emitting 0 nothing_declared).report;
  manifests = [];
  written = [];
}

abbrev derived : Decrypted
derived = decrypted_of (decrypt_archive lib sink (some pack) pack_key)

abbrev plan : Plan
plan = plan_of lib manifest_json declared

is_decrypted : decrypt_archive lib sink (some pack) pack_key ≡ done derived
unfolding decrypt_archive clean_archive_path bytes_eq lookup join_archive_path subpack_contents
    decrypt_contents_manifest clean_content_path contains archive_directory_reference root_manifest
    is_text_like_resource_path
is_decrypted = refl

bounded_example :
    (sum_bytes derived.written ≡ derived.report.decrypted_payload_bytes)
    × (derived.report.decrypted_payload_bytes ≤ max_decrypted_payload_size)
    × (length derived.written
        ≡ derived.report.directories
          + (derived.report.decrypted_files + derived.report.copied_files))
bounded_example = decrypt_archive-bounded lib sink pack pack_key derived is_decrypted

inside_example : All InsideName derived.written
inside_example = decrypt_archive-Inside lib sink pack pack_key derived text-laws is_decrypted

-- The file is the secret again.
derived-written : derived.written ≡ (manifest_json, b'{' ∷ b'}' ∷ []) ∷ (blob_name, secret) ∷ []
unfolding decrypt_archive clean_archive_path bytes_eq lookup join_archive_path subpack_contents
    decrypt_contents_manifest clean_content_path contains archive_directory_reference root_manifest
    is_text_like_resource_path
derived-written = refl

abbrev emitted_of : Outcome Emitting → Emitting
emitted_of (done s) = s
emitted_of (refused e) = start_emitting 0 nothing_declared

abbrev emitted : Emitting
emitted = emitted_of (emit_all lib sink plan pack (start_emitting 3 declared))

-- An encrypted file that is a byte longer than it declares.
abbrev long_file : ZipFile
long_file = record (file_of (encrypted secret)) { size = 3 }

abbrev long_pack : List (Bytes × ZipFile)
long_pack =
    (manifest_json, file_of (b'{' ∷ b'}' ∷ []))
    ∷ (contents_json, contents_file)
    ∷ (blob_name, long_file)
    ∷ []

refuses_example : is_refused (emit_all lib sink plan long_pack (start_emitting 3 declared)) ≡ true
unfolding lookup contains bytes_eq declare_manifests decrypt_contents_manifest clean_content_path
    join_archive_path archive_directory_reference
refuses_example =
    emit_all-refuses lib sink plan long_pack (start_emitting 3 declared) blob_name long_file refl
      refl (inr (refl, inr (λ e. cc)))
