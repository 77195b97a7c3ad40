-- ===== src/Capture/Recorder/Blob.antt =====
-- internal/capture/recorder.go: content-addressed blob files.
use bedrock_debug_proxy.Base.{
  ℕ, String, List, [], ◌∷◌, Option, none, some, Bool, Bytes, ℤ, pos, is_negative, int_eq, length,
  take, contains, lookup, ◌==◌, if◌then◌else◌, ◌||◌,
}
use bedrock_debug_proxy.Capture.Schema.{BlobRef}
use bedrock_debug_proxy.Capture.Result.{Error, Result, ok, err, wrapped, raw_size, existing_size}
use bedrock_debug_proxy.Capture.Library.{Library, blob_path}
use bedrock_debug_proxy.Capture.Recorder.{Recorder}

-- What the operating system answers while one blob is stored; `removes` is whether an
-- `os.Remove`, whose error the code ignores, removes the file.
pub record BlobIo : Type 0 where
  pub create_error : Option Error
  pub copy_error : Option Error
  pub sync_error : Option Error
  pub close_error : Option Error
  pub stat_error : Option Error  -- other than os.ErrNotExist
  pub mkdir_error : Option Error
  pub rename_error : Option Error
  pub removes : Bool

unfoldable pub blob_ref : Library → Bytes → ℕ → String → String → BlobRef
blob_ref lib digest size media_type representation = record {
  sha256 = digest;
  size = pos size;
  path = blob_path lib digest;
  media_type = media_type;
  representation = representation;
}

unfoldable pub without : ℕ → List ℕ → List ℕ
without n [] = []
without n (m ∷ rest) = if m == n then rest else m ∷ without n rest

-- os.Remove of the temporary file.
unfoldable pub discard : BlobIo → ℕ → Recorder → Recorder
unfolding without
discard io sequence r =
    if io.removes
    then record r { disk = record r.disk { temporaries = without sequence r.disk.temporaries } }
    else r

unfoldable pub ensure_blob_directory : BlobIo → Bytes → Recorder → Option Error × Recorder
ensure_blob_directory io digest r =
    if contains (take 2 digest) r.blob_dirs then (none, r) else elim io.mkdir_error [
      | some e ↦ (some (wrapped "create blob directory" e), r)
      | none ↦ (none, record r { blob_dirs = take 2 digest ∷ r.blob_dirs })
    ]

-- From `os.Rename` on: the temporary file becomes the published one.
unfoldable pub rename_blob : BlobIo → BlobRef → Bytes → ℕ → Recorder → Result BlobRef × Recorder
unfolding discard
rename_blob io ref raw sequence r = elim io.rename_error [
  | some e ↦ (err (wrapped "publish blob" e), discard io sequence r)
  | none ↦ (
    ok ref,
    record r {
      disk = record r.disk {
        blobs = (ref.path, raw) ∷ r.disk.blobs;
        temporaries = without sequence r.disk.temporaries;
      };
    },
  )
]

-- From `os.Stat` on.
unfoldable pub publish_blob : BlobIo → BlobRef → Bytes → ℕ → Recorder → Result BlobRef × Recorder
unfolding discard ensure_blob_directory rename_blob
publish_blob io ref raw sequence r = elim io.stat_error [
  | some e ↦ (err (wrapped "inspect blob" e), discard io sequence r)
  | none ↦ elim (lookup ref.path r.disk.blobs) [
    | some present ↦ (
      if length present == length raw then ok ref else err (existing_size (length present)),
      discard io sequence r,
    )
    | none ↦
        let (e, r') = ensure_blob_directory io ref.sha256 r in
        elim e [
          | some x ↦ (err x, discard io sequence r')
          | none ↦ rename_blob io ref raw sequence r'
        ]
  ]
]

-- `raw` is all that the source delivers; a read or write error is `copy_error`.
unfoldable pub store_blob :
    Library → BlobIo → Bytes → ℤ → String → String → ℕ → Recorder → Result BlobRef × Recorder
unfolding discard publish_blob blob_ref
store_blob lib io raw expected_size media_type representation sequence r = elim io.create_error [
  | some e ↦ (err (wrapped "create blob temporary file" e), r)
  | none ↦
      let opened = record r {
        disk = record r.disk { temporaries = sequence ∷ r.disk.temporaries };
      } in
      let cleaned = discard io sequence opened in
      let sync = if r.manifest.options.sync_each_event then io.sync_error else none in
      let written = length raw in
      elim io.copy_error [
        | some e ↦ (err (wrapped "write blob stream" e), cleaned)
        | none ↦
            if is_negative expected_size || int_eq (pos written) expected_size
            then elim sync [
              | some e ↦ (err (wrapped "sync blob stream" e), cleaned)
              | none ↦ elim io.close_error [
                | some e ↦ (err (wrapped "close blob stream" e), cleaned)
                | none ↦
                    publish_blob io
                      (blob_ref lib (lib.hex_digest raw) written media_type representation) raw
                      sequence opened
              ]
            ]
            else (err (raw_size written), cleaned)
      ]
]

unfoldable pub store_blob_bytes :
    Library → BlobIo → Bytes → String → String → ℕ → Recorder → Result BlobRef × Recorder
unfolding store_blob
store_blob_bytes lib io payload media_type representation sequence r =
    if contains (lib.hex_digest payload) r.seen_blob
    then (ok (blob_ref lib (lib.hex_digest payload) (length payload) media_type representation), r)
    else store_blob lib io payload (pos (length payload)) media_type representation sequence r
