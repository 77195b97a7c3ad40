-- ===== src/Capture/Verify/Blobs.antt =====
-- internal/capture/verify.go: the file of a blob that the checks accept.
use bedrock_debug_proxy.Base.{
  ◌≡◌, refl, Option, none, some, true, false, Bool, Bytes, pos, int_eq_sound, length,
  bytes_eq_sound, arith,
}
use bedrock_debug_proxy.Capture.Schema.{BlobRef}
use bedrock_debug_proxy.Capture.Result.{Result, ok, err}
use bedrock_debug_proxy.Capture.Library.{Library, blob_path}
use bedrock_debug_proxy.Capture.Verify.{
  Root, File, validate_blob_ref, check_content, check_file, verify_blob,
}
use bedrock_debug_proxy.Capture.Verify.Events.{Good, GoodBlob, validate-path}

-- A regular file that opens, whose bytes have the size and the digest of the reference.
pub record IsFileOf (lib : Library) (ref : BlobRef) (opened : Result File) : Type 0 where
  pub file : File
  pub content : Bytes
  pub opens : opened ≡ ok file
  pub regular : file.mode ≡ ok true
  pub reads : file.content ≡ ok content
  pub size : pos (length content) ≡ ref.size
  pub digest : lib.hex_digest content ≡ ref.sha256

-- A reference whose digest has 64 hexadecimal digits in lower case, whose path is the one of this
-- digest, and whose file is there.
pub record IsStored (lib : Library) (root : Root) (ref : BlobRef) : Type 0 where
  pub digest_length : length ref.sha256 ≡ 64
  pub digest_text : lib.hex_decodes ref.sha256 ≡ true
  pub digest_case : ref.sha256 ≡ lib.to_lower ref.sha256
  pub path :
      lib.clean (lib.from_slash ref.path) ≡ lib.clean (lib.from_slash (blob_path lib ref.sha256))
  pub stored : IsFileOf lib ref (root.open_file (lib.clean (lib.from_slash ref.path)))

-- An event without a blob, or with one that is stored.
abbrev pub HasBlob : Library → Root → Option BlobRef → Type 0
HasBlob lib root none = Unit {0}
HasBlob lib root (some ref) = IsStored lib root ref

check_file-IsFileOf :
    (lib : Library) (ref : BlobRef) (opened : Result File)
    → check_file lib ref opened ≡ none
    → IsFileOf lib ref opened
unfolding check_file check_content
check_file-IsFileOf lib ref (err e) h = absurd (cc)
check_file-IsFileOf lib ref (ok file) h = by_answers file.mode file.content refl refl h
  where
    by_answers :
        (mode : Result Bool) (content : Result Bytes)
        → file.mode ≡ mode
        → file.content ≡ content
        → check_file lib ref (ok (record { mode = mode; content = content })) ≡ none
        → IsFileOf lib ref (ok file)
    by_answers (err e) content m k c = absurd (cc)
    by_answers (ok false) content m k c = absurd (cc)
    by_answers (ok true) (err e) m k c = absurd (cc)
    by_answers (ok true) (ok bytes) m k c = record {
      file = file;
      content = bytes;
      opens = refl;
      regular = m;
      reads = k;
      size = int_eq_sound (pos (length bytes)) ref.size (ground (arith, c));
      digest = bytes_eq_sound (lib.hex_digest bytes) ref.sha256 (ground (arith, c));
    }

verify_blob-check_file :
    (lib : Library) (root : Root) (path : Bytes) (ref : BlobRef)
    → verify_blob lib root path ref ≡ none
    → check_file lib ref (root.open_file path) ≡ none
unfolding verify_blob
verify_blob-check_file lib root path ref h = ground (arith, h)

Good-IsStored :
    (lib : Library) (root : Root) (ref : BlobRef) → Good lib root ref → IsStored lib root ref
unfolding validate_blob_ref
Good-IsStored lib root ref (valid, verified) = record {
  digest_length = ground (arith, valid);
  digest_text = ground (arith, valid);
  digest_case = bytes_eq_sound ref.sha256 (lib.to_lower ref.sha256) (ground (arith, valid));
  path = validate-path lib ref valid;
  stored = check_file-IsFileOf lib ref _ (verify_blob-check_file lib root _ ref verified);
}

pub GoodBlob-HasBlob :
    (lib : Library) (root : Root) (blob : Option BlobRef)
    → GoodBlob lib root blob
    → HasBlob lib root blob
GoodBlob-HasBlob lib root none good = tt
GoodBlob-HasBlob lib root (some ref) good = Good-IsStored lib root ref good
