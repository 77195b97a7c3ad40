-- ===== src/Capture/Result.antt =====
-- Errors of internal/capture as values, one constructor for each message.
use bedrock_debug_proxy.Base.{ℕ, String, Bool, true, false}
pub use bedrock_debug_proxy.Base.{is_some}

pub data Error : Type 0 where
  closed : Error  -- ErrClosed
  recorder_failed : Error → Error  -- "capture recorder failed: %w"
  root_empty reader_nil bad_expected_size blob_owned invalid_data : Error
  encode_event encode_manifest negative_blob writer_stopped limitation_empty : Error
  sequence_gap : ℕ → ℕ → Error
  raw_size : ℕ → Error
  existing_size : ℕ → Error
  short_write cancelled decode_manifest : Error
  decode_line not_terminated : ℕ → Error
  -- An error of the operating system, and the step that reports it.
  os : ℕ → Error
  wrapped : String → Error → Error

pub data Result {ℓ} (A : Type ℓ) : Type ℓ where
  ok : A → Result A
  err : Error → Result A

abbrev pub is_err {ℓ} : {A : Type ℓ} → Result A → Bool
is_err (ok a) = false
is_err (err e) = true
