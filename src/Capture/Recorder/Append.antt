-- ===== src/Capture/Recorder/Append.antt =====
-- internal/capture/recorder.go: one event into the event stream, with its blob.
use bedrock_debug_proxy.Base.{
  ℕ, String, [], ◌∷◌, ◌++◌, Option, none, some, Bool, Bytes, ℤ, is_negative, nat_part, contains,
  str_eq, ◌==◌, if◌then◌else◌, not,
}
use bedrock_debug_proxy.Capture.Schema.{Event, BlobRef}
use bedrock_debug_proxy.Capture.Result.{
  Error, Result, ok, err, closed, recorder_failed, wrapped, sequence_gap, encode_event,
  negative_blob, blob_owned, cancelled,
}
use bedrock_debug_proxy.Capture.Disk.{Writer, write_all}
use bedrock_debug_proxy.Capture.Library.{Library}
use bedrock_debug_proxy.Capture.Recorder.{
  Recorder, RecordJob, inc64, add64, counts, set_counts, mark_failed, prepare_event,
}
use bedrock_debug_proxy.Capture.Recorder.Blob.{BlobIo, store_blob, store_blob_bytes}

pub record EventIo : Type 0 where
  pub write : Writer
  pub sync_error : Option Error

pub record JobIo : Type 0 where
  pub blob : BlobIo
  pub event : EventIo

-- `r.markFailedLocked(err); return Event{}, r.failed`.
unfoldable pub fail_append {ℓ} : {A : Type ℓ} → Error → Recorder → Result A × Recorder
fail_append e r =
    let r' = mark_failed e r in (elim r'.failed [ none ↦ err e | some first ↦ err first ], r')

-- The counters, once the line is in the stream.
unfoldable pub count_blob : Option BlobRef → ℕ → Recorder → Recorder
count_blob none blob_bytes r = r
count_blob (some ref) blob_bytes r =
    let c = counts r in
    if contains ref.sha256 r.seen_blob
    then r
    else set_counts (record c { blobs = inc64 c.blobs; blob_bytes = add64 c.blob_bytes blob_bytes })
        (record r { seen_blob = ref.sha256 ∷ r.seen_blob })

unfoldable pub count_event : Event → ℕ → Recorder → Recorder
unfolding count_blob
count_event event blob_bytes r =
    let c = counts r in
    let counted = count_blob event.blob blob_bytes (
      set_counts (record c { events = inc64 c.events }) (record r { sequence = event.sequence })) in
    let c' = counts counted in
    if str_eq event.kind "packet.decode_error"
    then set_counts (record c' { decode_errors = inc64 c'.decode_errors }) counted
    else counted

-- After `writeAll`: its error, then the error of `Sync`.
unfoldable pub finish_line :
    Event → ℕ → (write_error sync_error : Option Error) → Recorder → Result Event × Recorder
unfolding fail_append count_event
finish_line event blob_bytes (some e) sync_error r = fail_append (wrapped "write event" e) r
finish_line event blob_bytes none (some e) r = fail_append (wrapped "sync event" e) r
finish_line event blob_bytes none none r = (ok event, count_event event blob_bytes r)

unfoldable pub write_line : EventIo → Event → ℕ → Bytes → Recorder → Result Event × Recorder
unfolding finish_line
write_line io event blob_bytes line r =
    let w = write_all io.write r.disk.events line in
    finish_line event blob_bytes w.error
      (if r.manifest.options.sync_each_event then io.sync_error else none)
      (record r { disk = record r.disk { events = w.file } })

unfoldable pub append_event : Library → EventIo → Event → ℕ → Recorder → Result Event × Recorder
unfolding write_line
append_event lib io event blob_bytes r =
    if event.sequence == inc64 r.sequence
    then elim (lib.marshal_event event) [
      | none ↦ (err encode_event, r)
      | some line ↦ write_line io event blob_bytes (line ++ b'\n' ∷ []) r
    ]
    else (err (sequence_gap event.sequence r.sequence), r)

-- With the reference of a stored blob.
unfoldable pub append_with_blob :
    Library → EventIo → Event → Result BlobRef × Recorder → Result Event × Recorder
unfolding append_event
append_with_blob lib io event (err e, r) = (err e, r)
append_with_blob lib io event (ok ref, r) =
    if is_negative ref.size
    then (err negative_blob, r)
    else append_event lib io (record event { blob = some ref }) (nat_part ref.size) r

unfoldable pub write_job : Library → JobIo → RecordJob → Recorder → Result Event × Recorder
unfolding append_with_blob store_blob_bytes
write_job lib io job r =
    if job.has_raw
    then append_with_blob lib io.event job.event (
        store_blob_bytes lib io.blob job.raw job.media_type job.representation job.event.sequence r)
    else append_event lib io.event job.event 0 r

-- `recordSync`: a blob that cannot be stored marks the recorder as failed.
unfoldable pub sync_stored :
    Library → EventIo → Event → Result BlobRef × Recorder → Result Event × Recorder
unfolding append_with_blob
sync_stored lib io event (err e, r) = (err e, mark_failed e r)
sync_stored lib io event (ok ref, r) = append_with_blob lib io event (ok ref, r)

unfoldable pub sync_prepared :
    Library
    → JobIo
    → Option Bytes
    → ℤ
    → String
    → String
    → Result Event
    → Recorder
    → Result Event × Recorder
unfolding sync_stored
sync_prepared lib io raw size media_type representation (err e) r = (err e, r)
sync_prepared lib io raw size media_type representation (ok event) r =
    let r' = record r { assigned_sequence = event.sequence } in
    elim raw [
      | none ↦ append_event lib io.event event 0 r'
      | some content ↦
          sync_stored lib io.event event
            (store_blob lib io.blob content size media_type representation event.sequence r')
    ]

-- The early returns of `recordSync`, in their order. `marshals` is whether json.Marshal encodes the
-- caller's event; `live` is a context that is not done.
unfoldable pub sync_refusal : (marshals live : Bool) → Event → Recorder → Option Error
sync_refusal marshals live event r = elim event.blob [
  | some _ ↦ some blob_owned
  | none ↦
      if not marshals
      then some encode_event
      else if r.is_closed
      then some closed
      else elim r.failed [
        | some e ↦ some (recorder_failed e)
        | none ↦ if live then none else some cancelled
      ]
]

unfoldable pub record_sync :
    Library
    → JobIo
    → (now : ℕ) (marshals live : Bool) → Event
    → Option Bytes
    → ℤ
    → String
    → String
    → Recorder
    → Result Event × Recorder
unfolding sync_refusal sync_prepared prepare_event
record_sync lib io now marshals live event raw size media_type representation r =
    elim (sync_refusal marshals live event r) [
      | some e ↦ (err e, r)
      | none ↦
          sync_prepared lib io raw size media_type representation (prepare_event lib now r event) r
    ]
