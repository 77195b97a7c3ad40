-- ===== src/Capture/Recorder/Close.antt =====
-- internal/capture/recorder.go: `New`, `Close` and the manifest file.
use bedrock_debug_proxy.Base.{
  ℕ, String, List, [], ◌∷◌, ◌++◌, Option, none, some, Bool, true, false, Bytes, str_eq,
  if◌then◌else◌, ◌&&◌,
}
use bedrock_debug_proxy.Capture.Result.{Error, wrapped, encode_manifest}
use bedrock_debug_proxy.Capture.Disk.{Writer, write_all}
use bedrock_debug_proxy.Capture.Library.{Library}
use bedrock_debug_proxy.Capture.Recorder.{Recorder}

pub record ManifestIo : Type 0 where
  pub open_error : Option Error
  pub write : Writer
  pub sync_error : Option Error
  pub close_error : Option Error
  pub rename_error : Option Error
  pub removes : Bool  -- `os.Remove(destination)` removes it
  pub retry_error : Option Error

-- The publishing of `manifest.json.tmp`, with the second try after removing the destination.
unfoldable pub publish_manifest : ManifestIo → Bytes → Recorder → Option Error × Recorder
publish_manifest io bytes r =
    let published = record r { disk = record r.disk { manifest = some bytes } } in
    let removed = if io.removes then record r { disk = record r.disk { manifest = none } } else r in
    elim io.rename_error [
      | none ↦ (none, published)
      | some _ ↦ elim io.retry_error [
        | none ↦ (none, published)
        | some e ↦ (some (wrapped "publish manifest" e), removed)
      ]
    ]

unfoldable pub write_manifest : Library → ManifestIo → Recorder → Option Error × Recorder
unfolding publish_manifest
write_manifest lib io r = elim (lib.marshal_manifest r.manifest) [
  | none ↦ (some encode_manifest, r)
  | some text ↦
      let bytes = text ++ b'\n' ∷ [] in
      elim io.open_error [
        | some e ↦ (some (wrapped "create manifest temporary file" e), r)
        | none ↦ elim (write_all io.write [] bytes).error [
          | some e ↦ (some (wrapped "write manifest" e), r)
          | none ↦ elim io.sync_error [
            | some e ↦ (some (wrapped "sync manifest" e), r)
            | none ↦ elim io.close_error [
              | some e ↦ (some (wrapped "close manifest" e), r)
              | none ↦ publish_manifest io bytes r
            ]
          ]
        ]
      ]
]

-- Assignment to a key of `manifest.Options.Values`.
unfoldable pub put_value : String → String → List (String × String) → List (String × String)
put_value k v [] = (k, v) ∷ []
put_value k v ((j, w) ∷ rest) = if str_eq j k then (k, v) ∷ rest else (j, w) ∷ put_value k v rest

-- The first critical section of `Close`; `none` where the recorder was closed before.
unfoldable pub begin_close : Recorder → Option Recorder
begin_close r = if r.is_closed then none else some (record r { queue_closed = true })

-- `for job := range r.queue` ends on a closed and empty queue.
unfoldable pub writer_exits : Recorder → Bool
writer_exits r = r.queue_closed && elim r.queue [ [] ↦ true | job ∷ rest ↦ false ]

-- The status and the cause that `Close` writes.
unfoldable pub close_status : String → Option Error → Option Error → String × Option Error
close_status status cause none = (if str_eq status "" then "closed" else status, cause)
close_status status none (some failed) = ("failed", some failed)
close_status status (some cause) (some failed) =
    let given = if str_eq status "" then "closed" else status in
    (if str_eq given "closed" then "failed" else given, some cause)

pub record CloseIo : Type 0 where
  pub sync_error : Option Error
  pub close_error : Option Error
  pub manifest : ManifestIo

-- The manifest that `Close` completes; `message` is error.Error().
unfoldable pub close_manifest :
    Library → (Error → String) → (now : ℕ) → String → Option Error → Recorder → Recorder
unfolding close_status put_value
close_manifest lib message now status cause r =
    let (status', cause') = close_status status cause r.failed in
    let m = r.manifest in
    let values = put_value "capture_writer_queue_peak_bytes" (lib.itoa r.queue_peak_bytes) (
      put_value "capture_writer_queue_peak_records" (lib.itoa r.queue_peak_records)
        m.options.values) in
    record r {
      is_closed = true;
      manifest = record m {
        status = status';
        failure = elim cause' [ none ↦ m.failure | some e ↦ message e ];
        ended_at = lib.format_time now;
        options = record m.options { values = values };
        completeness = record m.completeness {
          complete = elim cause' [ none ↦ m.completeness.complete | some e ↦ false ];
        };
      };
    }

-- The last critical section of `Close`, after the writer is done; the errors are joined.
unfoldable pub finish_close :
    Library
    → (Error → String)
    → CloseIo
    → (now : ℕ) → String
    → Option Error
    → Recorder
    → List Error × Recorder
unfolding close_manifest write_manifest
finish_close lib message io now status cause r =
    let (e, r') = write_manifest lib io.manifest (close_manifest lib message now status cause r) in
    let as_list =
      λ (x : Option Error). elim x as (λ _. List Error) [ none ↦ [] | some y ↦ y ∷ [] ] in
    (as_list io.sync_error ++ (as_list io.close_error ++ as_list e), r')
