-- ===== src/Capture/Verify.antt =====
-- internal/capture/verify.go: reading a capture back and checking it. What the operating system
-- shows of the capture's directory is the parameter `Root`.
pub mod Visit
pub mod Events
pub mod Blobs
pub mod Sound
pub mod Intact
pub mod Samples
use bedrock_debug_proxy.Base.{
  ℕ, ◌+◌, ◌%◌, String, str_eq, List, [], ◌∷◌, ◌++◌, Option, none, some, Bool, true, false, Bytes, ℤ,
  pos, is_negative, nat_part, int_eq, length, take, bytes_eq, lookup, ◌==◌, ltb, if◌then◌else◌, not,
  ◌||◌,
}
use bedrock_debug_proxy.Capture.Schema.{Event, BlobRef, Manifest, schema_version}
use bedrock_debug_proxy.Capture.Result.{
  Error, Result, ok, err, wrapped, decode_manifest, decode_line, not_terminated,
}
use bedrock_debug_proxy.Capture.Library.{
  Library, blob_path, blob_root, codes, escapes, starts_with_parent,
}
use bedrock_debug_proxy.Capture.Recorder.{inc64, u64}

-- A file that was opened: whether its mode is regular, and its bytes.
pub record File : Type 0 where
  pub mode : Result Bool
  pub content : Result Bytes

-- The answers of os.ReadFile, os.Open, filepath.EvalSymlinks and filepath.Rel below the root. Of an
-- event stream that can be opened, what ReadBytes('\n') answers call after call: the lines that it
-- gives without an error, then the bytes that it gives with one, which is the end of the file or a
-- read error.
pub record Root : Type 0 where
  pub manifest : Result Bytes
  pub symlinks_error : Option Error
  pub events : Result (List Bytes × Bytes × Option Error)
  pub resolve : Bytes → Result Bytes
  pub relative : Bytes → Result Bytes
  pub open_file : Bytes → Result File

pub data BlobIssue : Type 0 where
  digest_length : ℕ → BlobIssue
  digest_text digest_case not_regular outside_capture : BlobIssue
  negative_size : ℤ → BlobIssue
  unsafe_path non_canonical_path : Bytes → BlobIssue
  file_error : String → Error → BlobIssue
  wrong_size : ℕ → ℤ → BlobIssue
  wrong_digest : Bytes → Bytes → BlobIssue

pub data Issue : Type 0 where
  event_schema event_capture_id : ℕ → String → Issue
  sequence_jump : ℕ → ℕ → Issue
  invalid_blob : ℕ → BlobIssue → Issue
  size_conflict : ℕ → ℤ → ℤ → Bytes → Issue
  size_overflow : ℕ → Issue
  manifest_schema manifest_events_path manifest_blob_root : String → Issue
  manifest_events manifest_blobs manifest_blob_bytes : ℕ → ℕ → Issue

pub record Verification : Type 0 where
  pub manifest : Manifest
  pub events : ℕ
  pub blobs : ℕ
  pub issues : List Issue

pub record VerificationProgress : Type 0 where
  pub phase : String
  pub events : ℕ
  pub blobs : ℕ
  pub blob_bytes : ℕ
  pub last_sequence : ℕ

-- The variables of VerifyWithProgress; `reported` lists what it gave to `progress`.
pub record Scan : Type 0 where
  pub result : Verification
  pub seen_blobs : List (Bytes × BlobRef)
  pub previous_sequence : ℕ
  pub blob_bytes : ℕ
  pub reported : List VerificationProgress

unfoldable pub read_manifest : Library → Root → Result Manifest
read_manifest lib root = elim root.manifest [
  | err e ↦ err (wrapped "read manifest" e)
  | ok bytes ↦ elim (lib.unmarshal_manifest bytes) [ none ↦ err decode_manifest | some m ↦ ok m ]
]

unfoldable pub scan_end : Bytes → Option Error → ℕ → Option Error
scan_end (b ∷ rest) read_error n = some (not_terminated (n + 1))
scan_end [] (some e) n = some (wrapped "read event line" e)
scan_end [] none n = none

unfoldable pub scan_lines {ℓ} :
    {S : Type ℓ}
    → Library
    → (S → Event → Result S)
    → List Bytes
    → (Option Error)
    → (line_number : ℕ) → S
    → Result S
scan_lines lib visit [] none n s = ok s
scan_lines lib visit [] (some e) n s = err e
scan_lines lib visit (line ∷ lines) last n s = elim (lib.unmarshal_event line) [
  | none ↦ err (decode_line (n + 1))
  | some event ↦ elim (visit s event) [
    | err e ↦ err (wrapped "visit event line" e)
    | ok s' ↦ scan_lines lib visit lines last (n + 1) s'
  ]
]

unfoldable pub scan_events {ℓ} :
    {S : Type ℓ} → Library → Root → (S → Event → Result S) → S → Result S
unfolding scan_lines
scan_events lib root visit s = elim root.events [
  | err e ↦ err (wrapped "open event stream" e)
  | ok (lines, rest, read_error) ↦
      scan_lines lib visit lines (scan_end rest read_error (length lines)) 0 s
]

unfoldable pub validate_blob_ref : Library → BlobRef → Option BlobIssue
validate_blob_ref lib ref =
    let clean_relative = lib.clean (lib.from_slash ref.path) in
    let expected = lib.clean (lib.from_slash (blob_path lib ref.sha256)) in
    if not (length ref.sha256 == 64)
    then some (digest_length (length ref.sha256))
    else if not (lib.hex_decodes ref.sha256)
    then some digest_text
    else if not (bytes_eq ref.sha256 (lib.to_lower ref.sha256))
    then some digest_case
    else if is_negative ref.size
    then some (negative_size ref.size)
    else if escapes lib clean_relative
    then some (unsafe_path ref.path)
    else if not (bytes_eq clean_relative expected)
    then some (non_canonical_path ref.path)
    else none

-- From io.Copy on.
unfoldable pub check_content : Library → BlobRef → Bytes → Option BlobIssue
check_content lib ref content =
    if not (int_eq (pos (length content)) ref.size)
    then some (wrong_size (length content) ref.size)
    else if not (bytes_eq (lib.hex_digest content) ref.sha256)
    then some (wrong_digest (lib.hex_digest content) ref.sha256)
    else none

-- From os.Open on.
unfoldable pub check_file : Library → BlobRef → Result File → Option BlobIssue
unfolding check_content
check_file lib ref (err e) = some (file_error "open" e)
check_file lib ref (ok file) = elim file.mode [
  | err e ↦ some (file_error "inspect" e)
  | ok regular ↦ if not regular then some not_regular else elim file.content [
    | err e ↦ some (file_error "read" e)
    | ok content ↦ check_content lib ref content
  ]
]

unfoldable pub verify_blob : Library → Root → Bytes → BlobRef → Option BlobIssue
unfolding check_file
verify_blob lib root clean_relative ref = elim (root.resolve clean_relative) [
  | err e ↦ some (file_error "resolve path" e)
  | ok resolved ↦ elim (root.relative resolved) [
    | err e ↦ some (file_error "compare resolved path" e)
    | ok relative ↦
        if bytes_eq relative (codes "..") || starts_with_parent lib relative
        then some outside_capture
        else check_file lib ref (root.open_file clean_relative)
  ]
]
