-- ===== src/ResourcePack/Entry.antt =====
-- internal/resourcepack/decrypt.go: an entry of an archive, and how its bytes are read and copied.
-- archive/zip is a parameter: an entry stands for what the package answers for it.
pub mod Laws
use bedrock_debug_proxy.Base.{
  ℕ, ◌+◌, ◌-◌, ◌^◌, ◌*◌, ◌≡◌, List, [], ◌∷◌, Option, none, some, Bool, true, false, Bytes, length,
  take, ◌==◌, ltb, leb, if◌then◌else◌, ◌&&◌, ◌||◌, not,
}
use bedrock_debug_proxy.ResourcePack.Paths.{Text}
use bedrock_debug_proxy.ResourcePack.Outcome.{
  Outcome, done, refused, ◌>>=◌, ◌>>◌, guard, from_option, entry_too_large, open_entry, read_entry,
  payload_limit, copy_entry,
}

-- An io.Reader: its bytes, and whether an error follows them in place of the end. A context that
-- ends while an entry is read is such an error.
pub record Stream : Type 0 where
  pub bytes : Bytes
  pub fails : Bool

pub record ZipFile : Type 0 where
  pub is_dir : Bool
  pub is_symlink : Bool
  pub is_regular : Bool
  pub size : ℕ  -- UncompressedSize64
  pub opens : Bool
  pub contents : Stream
  pub closes : Bool

abbrev pub max_contents_manifest_size : ℕ
max_contents_manifest_size = 16 * 2 ^ 20

abbrev pub max_decrypted_payload_size : ℕ
max_decrypted_payload_size = 2 ^ 30

-- All that a reader gives up to a limit, after which it is not read.
unfoldable pub read_up_to : ℕ → Stream → Option Bytes
read_up_to limit s =
    if leb limit (length s.bytes)
    then some (take limit s.bytes)
    else if s.fails
    then none
    else some s.bytes

unfoldable pub read_limited_entry : ZipFile → Outcome Bytes
unfolding read_up_to
read_limited_entry file = do
  guard (not (ltb max_contents_manifest_size file.size)) entry_too_large
  guard file.opens open_entry
  data_read ← from_option (read_up_to (max_contents_manifest_size + 1) file.contents) read_entry
  guard (not (ltb max_contents_manifest_size (length data_read))) entry_too_large
  done data_read

-- What is written, and the budget that remains. `writes` is whether the destination takes it. The
-- budget is never negative: it loses only what fits into it.
unfoldable pub copy_with_budget : (writes : Bool) → Stream → (remaining : ℕ) → Outcome (Bytes × ℕ)
unfolding read_up_to
copy_with_budget writes source remaining = do
  written ← from_option (read_up_to (remaining + 1) source) copy_entry
  guard writes copy_entry
  guard (not (ltb remaining (length written))) payload_limit
  done (written, remaining - length written)

unfoldable pub printable : Text → List ℕ → Bool
printable text [] = true
printable text (value ∷ values) =
    not (
      value == 0
      || (text.is_control value && (not (value == 9) && (not (value == 10) && not (value == 13)))))
    && printable text values

unfoldable pub looks_like_plaintext : Text → Bytes → Bool
unfolding printable
looks_like_plaintext text bytes = text.valid_string bytes && printable text (text.runes bytes)
