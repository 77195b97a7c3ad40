-- ===== src/Capture/Recorder.antt =====
-- internal/capture/recorder.go: the state of a Recorder and its small operations. Its files are
-- the field `disk`; blocking and waking are in `Wait` and in the steps of Capture/Session.
pub mod Blob
pub mod Frame
pub mod Extends
pub mod Commit
pub mod Stored
pub mod Jobs
pub mod Rounds
pub mod Syncs
pub mod Reserved
pub mod Append
pub mod Queue
pub mod Writer
pub mod Close
pub mod New
use bedrock_debug_proxy.Base.{
  ℕ, suc, ◌+◌, ◌-◌, ◌*◌, ◌^◌, ◌%◌, String, str_eq, List, [], ◌∷◌, ◌++◌, Option, none, some, Bool,
  true, false, Bytes, ℤ, ◌==◌, ltb, if◌then◌else◌, ◌&&◌, ◌||◌, not,
}
use bedrock_debug_proxy.Capture.Direction
use bedrock_debug_proxy.Capture.Severity
use bedrock_debug_proxy.Capture.Schema.{
  Event, BlobRef, Manifest, CaptureCounts, Completeness, schema_version,
}
use bedrock_debug_proxy.Capture.Result.{
  Error, Result, ok, err, is_some, closed, recorder_failed, invalid_data, limitation_empty,
}
use bedrock_debug_proxy.Capture.Disk.{Disk}
use bedrock_debug_proxy.Capture.Library.{Library}

-- uint64 increment and decrement.
abbrev pub u64 : ℕ
u64 = 2 ^ 64

unfoldable pub inc64 : ℕ → ℕ
inc64 n = (n + 1) % u64

unfoldable pub add64 : ℕ → ℕ → ℕ
add64 a b = (a + b) % u64

unfoldable pub dec64 : ℕ → ℕ
dec64 n = (n + u64 - 1) % u64

pub record RecordJob : Type 0 where
  pub event : Event
  pub raw : Bytes
  pub has_raw : Bool
  pub media_type : String
  pub representation : String
  pub bytes : ℕ

pub data WriterState : Type 0 where
  running draining done : WriterState

-- `queue` is the channel's buffer, oldest first; the channels `idle` and `writerStopped` are
-- whether they are closed. `spaceChanged` only wakes waiters, which test again.
pub record Recorder : Type 0 where
  pub disk : Disk
  pub start : ℕ
  pub sequence : ℕ
  pub assigned_sequence : ℕ
  pub seen_blob : List Bytes
  pub blob_dirs : List Bytes
  pub failed : Option Error
  pub is_closed : Bool
  pub manifest : Manifest
  pub queue : List RecordJob
  pub queue_capacity : ℕ
  pub queue_closed : Bool
  pub writer : WriterState
  pub writer_stopped : Bool
  pub idle_closed : Bool
  pub pending : ℕ
  pub pending_bytes : ℕ
  pub queue_peak_records : ℕ
  pub queue_peak_bytes : ℕ
  pub queue_byte_limit : ℕ

abbrev pub set_counts : CaptureCounts → Recorder → Recorder
set_counts c r = record r { manifest = record r.manifest { counts = c } }

abbrev pub set_completeness : Completeness → Recorder → Recorder
set_completeness c r = record r { manifest = record r.manifest { completeness = c } }

abbrev pub counts : Recorder → CaptureCounts
counts r = r.manifest.counts

abbrev pub completeness : Recorder → Completeness
completeness r = r.manifest.completeness

unfoldable pub contains_text : String → List String → Bool
contains_text x [] = false
contains_text x (y ∷ ys) = str_eq y x || contains_text x ys

note_failure : Error → Option Error → Recorder → Recorder
note_failure e (some first) r = r
note_failure e none r =
    let c = counts r in
    set_counts (record c { write_errors = inc64 c.write_errors }) (record r { failed = some e })

-- Called with an error only; the source's test for a nil error is in its callers here.
unfoldable pub mark_failed : Error → Recorder → Recorder
unfolding note_failure
mark_failed e r =
    let noted = note_failure e r.failed r in
    set_completeness (record (completeness noted) { complete = false }) noted

abbrev pub loss_reason : String
loss_reason = "capture writer failure left accepted events unpersisted"

unfoldable pub mark_dropped : Recorder → Recorder
mark_dropped r =
    let c = counts r in
    let limits = (completeness r).limitations in
    set_completeness
      (record {
        complete = false;
        limitations =
            if contains_text loss_reason limits then limits else limits ++ loss_reason ∷ [];
      })
      (set_counts (record c { dropped = inc64 c.dropped }) r)

-- `none` is the panic of closing a closed channel.
unfoldable pub complete_pending : ℕ → Recorder → Option Recorder
complete_pending bytes r =
    if r.pending == 0
    then some r
    else let r' = record r { pending = r.pending - 1; pending_bytes = r.pending_bytes - bytes } in
      if r'.pending == 0
      then (if r'.idle_closed then none else some (record r' { idle_closed = true }))
      else some r'

unfoldable pub prepare_event : Library → ℕ → Recorder → Event → Result Event
prepare_event lib now r event =
    if elim event.payload [ none ↦ true | some text ↦ lib.valid_json text ]
    then ok (record event {
      schema = schema_version;
      sequence = inc64 r.assigned_sequence;
      time = lib.format_time now;
      unix_nano = lib.unix_nano now;
      elapsed_nano = lib.elapsed now r.start;
      capture_id = r.manifest.capture_id;
      kind = if str_eq event.kind "" then "annotation" else event.kind;
      severity = if str_eq event.severity "" then Severity.info else event.severity;
      direction = if str_eq event.direction "" then Direction.unknown else event.direction;
    })
    else err invalid_data

unfoldable pub error_of : Recorder → Option Error
error_of r = elim r.failed [ none ↦ none | some e ↦ some (recorder_failed e) ]

unfoldable pub add_limitation : Library → String → Recorder → Option Error × Recorder
add_limitation lib text r =
    let message = lib.trim_space text in
    let c = completeness r in
    if str_eq message ""
    then (some limitation_empty, r)
    else if r.is_closed
    then (some closed, r)
    else if contains_text message c.limitations
    then (none, r)
    else (
      none,
      set_completeness (record { complete = false; limitations = c.limitations ++ message ∷ [] }) r,
    )

unfoldable pub add_loss : ℕ → ℕ → String → Recorder → Option Error × Recorder
add_loss dropped truncated reason r =
    let c = counts r in
    let counted =
      set_counts
        (record c { dropped = add64 c.dropped dropped; truncated = add64 c.truncated truncated })
        r in
    let limits = (completeness r).limitations in
    if r.is_closed
    then (some closed, r)
    else if (dropped == 0) && (truncated == 0)
    then (none, counted)
    else (
      none,
      set_completeness
          (record {
            complete = false;
            limitations = if str_eq reason "" then limits else limits ++ reason ∷ [];
          })
          counted,
    )
