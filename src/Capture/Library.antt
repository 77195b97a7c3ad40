-- ===== src/Capture/Library.antt =====
-- What internal/capture takes from Go's standard library: a parameter of the model, with what it
-- takes from encoding/json, crypto/sha256, encoding/hex, path/filepath, time and strings.
use Prim.Native.Char.{code}
use bedrock_debug_proxy.Base.{
  ℕ, String, List, [], ◌∷◌, ◌++◌, Option, Bool, ℤ, Bytes, take, bytes_eq, ◌||◌,
}
use bedrock_debug_proxy.Capture.Schema.{Event, Manifest}

-- The code points of a text: its bytes, for the ASCII constants of the source.
abbrev pub codes : String → Bytes
codes String.[] = []
codes (String.◌∷◌ c s) = code c ∷ codes s

abbrev pub blob_root : String
blob_root = "blobs/sha256"

pub record Library : Type 0 where
  pub format_time : ℕ → String  -- UTC().Format(time.RFC3339Nano)
  pub unix_nano : ℕ → ℤ
  pub elapsed : ℕ → ℕ → ℤ  -- now.Sub(start).Nanoseconds()
  pub itoa : ℕ → String  -- strconv.Itoa and strconv.FormatInt
  pub trim_space : String → String
  pub valid_json : Bytes → Bool  -- json.Unmarshal into `any` succeeds
  pub marshal_event : Event → Option Bytes
  pub unmarshal_event : Bytes → Option Event
  pub marshal_manifest : Manifest → Option Bytes
  pub unmarshal_manifest : Bytes → Option Manifest
  pub hex_digest : Bytes → Bytes  -- hex.EncodeToString of sha256.Sum256
  pub hex_decodes : Bytes → Bool  -- hex.DecodeString succeeds
  pub to_lower : Bytes → Bytes
  pub join : List Bytes → Bytes  -- filepath.Join
  pub clean : Bytes → Bytes  -- filepath.Clean
  pub from_slash : Bytes → Bytes
  pub to_slash : Bytes → Bytes
  pub is_abs : Bytes → Bool
  pub separator : ℕ

module _ (lib : Library) where
  open lib use {join, clean, from_slash, to_slash, is_abs, separator}

  -- filepath.ToSlash(filepath.Join(blobRoot, hexDigest[:2], hexDigest+".bin"))
  unfoldable pub blob_path : Bytes → Bytes
  blob_path digest =
      to_slash (join (codes blob_root ∷ take 2 digest ∷ (digest ++ codes ".bin") ∷ []))

  unfoldable pub starts_with_parent : Bytes → Bool
  starts_with_parent relative = bytes_eq (take 3 relative) (b'.' ∷ b'.' ∷ separator ∷ [])

  -- A path that leaves its directory: absolute, `..`, or below `..`.
  unfoldable pub escapes : Bytes → Bool
  unfolding starts_with_parent
  escapes relative =
      is_abs relative || (bytes_eq relative (codes "..") || starts_with_parent relative)
