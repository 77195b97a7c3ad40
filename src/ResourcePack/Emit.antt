-- ===== src/ResourcePack/Emit.antt =====
-- internal/resourcepack/decrypt.go: the loop of `DecryptArchive` that writes the derived archive.
-- The answers of the zip writer are a parameter.
pub mod Keys
pub mod Content
pub mod Derivation
use bedrock_debug_proxy.Base.{
  ℕ, ◌+◌, ◌*◌, ◌^◌, List, [], ◌∷◌, ◌++◌, Option, none, some, Bool, true, false, Bytes, length, take,
  lookup, contains, bytes_eq, ◌==◌, ltb, leb, if◌then◌else◌, ◌&&◌, ◌||◌, not,
}
use bedrock_debug_proxy.ResourcePack.Cfb8.{
  Block, block_size, xor_loop, new_cfb8_decrypter, decrypt_bytes,
}
use bedrock_debug_proxy.ResourcePack.Paths.{is_empty, join_archive_path, is_text_like_resource_path}
use bedrock_debug_proxy.ResourcePack.Entry.{
  Stream, ZipFile, max_contents_manifest_size, max_decrypted_payload_size, read_limited_entry,
  copy_with_budget, looks_like_plaintext,
}
use bedrock_debug_proxy.ResourcePack.Manifest.{Library, ContentsSummary}
use bedrock_debug_proxy.ResourcePack.Outcome.{
  Outcome, done, refused, ◌>>=◌, ◌>>◌, guard, from_option, bad_cipher, open_entry, symbolic_link,
  irregular, create_entry, oversized, wrong_size, copy_entry,
}

pub record Sink : Type 0 where
  pub creates : Bytes → Bool
  pub writes : Bytes → Bool
  pub sets_comment : Bool
  pub closes : Bool

pub record Report : Type 0 where
  pub content_id : Bytes
  pub input_entries : ℕ
  pub output_entries : ℕ
  pub decrypted_files : ℕ
  pub copied_files : ℕ
  pub directories : ℕ
  pub decrypted_payload_bytes : ℕ
  pub contents : List ContentsSummary

-- The report, the budget, and the entries of the derived archive with their bytes.
pub record Emitting : Type 0 where
  pub report : Report
  pub remaining : ℕ
  pub written : List (Bytes × Bytes)

-- What the loop reads: the declarations, the contents manifests, the pack's manifest and its folder.
pub record Plan : Type 0 where
  pub declarations : List (Bytes × Bytes)
  pub contents_set : List Bytes
  pub root_manifest : Bytes
  pub root : Bytes

abbrev pub pack_icon : Bytes
pack_icon =
    b'p' ∷ b'a' ∷ b'c' ∷ b'k' ∷ b'_' ∷ b'i' ∷ b'c' ∷ b'o' ∷ b'n' ∷ b'.' ∷ b'p' ∷ b'n' ∷ b'g' ∷ []

abbrev pub bug_pack_icon : Bytes
bug_pack_icon = b'b' ∷ b'u' ∷ b'g' ∷ b'_' ∷ pack_icon

abbrev pub key_or_empty : Option Bytes → Bytes
key_or_empty none = []
key_or_empty (some key) = key

-- Root pack metadata is kept as it is, whatever key is declared for it.
unfoldable pub entry_key : Plan → Bytes → Bytes
entry_key plan name =
    if bytes_eq name plan.root_manifest
      || (bytes_eq name (join_archive_path plan.root pack_icon)
          || bytes_eq name (join_archive_path plan.root bug_pack_icon))
    then []
    else key_or_empty (lookup name plan.declarations)

-- What is copied into an entry, whether it counts as decrypted, and whether the source is closed
-- without an error.
pub record Input : Type 0 where
  pub source : Stream
  pub decrypted : Bool
  pub closes : Bool

abbrev pub all_of : Bytes → Stream
all_of bytes = record { bytes = bytes; fails = false }

module _ (lib : Library) where
  abbrev pub is_probed : Bytes → ZipFile → Bytes → Bool
  is_probed name file key =
      not (is_empty key)
      && (is_text_like_resource_path lib.text name && leb file.size max_contents_manifest_size)

  -- Plaintext that a key would turn into something else is kept.
  unfoldable pub choose_text : (source plain : Bytes) → Input
  choose_text source plain =
      if looks_like_plaintext lib.text source && not (looks_like_plaintext lib.text plain)
      then record { source = all_of source; decrypted = false; closes = true }
      else record { source = all_of plain; decrypted = true; closes = true }

  unfoldable pub probe_text : ZipFile → Bytes → Outcome Input
  unfolding choose_text
  probe_text file key = do
    source ← read_limited_entry file
    plain ← from_option (decrypt_bytes lib.new_cipher key source) bad_cipher
    done (choose_text source plain)

  abbrev pub decrypting : Stream → Block × Bytes → Stream
  decrypting s (block, register) = record s { bytes = (xor_loop block register s.bytes).0 }

  unfoldable pub open_stream : ZipFile → Bytes → Outcome Input
  unfolding new_cfb8_decrypter xor_loop
  open_stream file key = do
    guard file.opens open_entry
    if is_empty key
        then done (record { source = file.contents; decrypted = false; closes = file.closes })
        else do
          cipher ←
              from_option (new_cfb8_decrypter lib.new_cipher key (take block_size key)) bad_cipher
          done (record {
            source = decrypting file.contents cipher;
            decrypted = true;
            closes = file.closes;
          })

  unfoldable pub choose_input : Bytes → ZipFile → Bytes → Outcome Input
  unfolding probe_text open_stream
  choose_input name file key =
      if is_probed name file key then probe_text file key else open_stream file key

  abbrev pub emit_directory : Bytes → Emitting → Emitting
  emit_directory name s = record s {
    report = record s.report {
      output_entries = s.report.output_entries + 1;
      directories = s.report.directories + 1;
    };
    written = s.written ++ (name, []) ∷ [];
  }

  abbrev pub emit_written :
      Bytes → (decrypted : Bool) → Bytes → (remaining : ℕ) → Emitting → Emitting
  emit_written name decrypted bytes remaining s = record {
    report = record s.report {
      output_entries = s.report.output_entries + 1;
      decrypted_files = s.report.decrypted_files + (if decrypted then 1 else 0);
      copied_files = s.report.copied_files + (if decrypted then 0 else 1);
      decrypted_payload_bytes = s.report.decrypted_payload_bytes + length bytes;
    };
    remaining = remaining;
    written = s.written ++ (name, bytes) ∷ [];
  }

  unfoldable pub emit_file : Sink → Plan → Bytes → ZipFile → Emitting → Outcome Emitting
  unfolding choose_input copy_with_budget entry_key
  emit_file sink plan name file s = do
    guard (not (ltb max_decrypted_payload_size file.size)) (oversized name)
    input ← choose_input name file (entry_key plan name)
    (bytes, remaining) ← copy_with_budget (sink.writes name) input.source s.remaining
    guard input.closes copy_entry
    guard (length bytes == file.size) (wrong_size name (length bytes))
    done (emit_written name input.decrypted bytes remaining s)

  -- The loop body for an entry that is not a contents manifest.
  unfoldable pub emit_entry : Sink → Plan → Bytes → ZipFile → Emitting → Outcome Emitting
  unfolding emit_file
  emit_entry sink plan name file s = do
    guard (not file.is_symlink) (symbolic_link name)
    guard (file.is_dir || file.is_regular) (irregular name)
    guard (sink.creates name) (create_entry name)
    if file.is_dir then done (emit_directory name s) else emit_file sink plan name file s

  unfoldable pub emit_all : Sink → Plan → List (Bytes × ZipFile) → Emitting → Outcome Emitting
  unfolding emit_entry
  emit_all sink plan [] s = done s
  emit_all sink plan ((name, file) ∷ files) s = do
    s' ← if contains name plan.contents_set then done s else emit_entry sink plan name file s
    emit_all sink plan files s'
