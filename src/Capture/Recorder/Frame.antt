-- ===== src/Capture/Recorder/Frame.antt =====
-- What writing an event leaves alone: the queue, its counters and the channels.
use bedrock_debug_proxy.Base.{
  ℕ, String, Option, none, some, Bool, true, false, Bytes, ℤ, ◌≡◌, refl, arith, length, contains,
  nat_part, pos, Bool-cases, Option-cases, inl, inr,
}
use bedrock_debug_proxy.Capture.Schema.{Event, BlobRef}
use bedrock_debug_proxy.Capture.Result.{Error, Result, ok, err}
use bedrock_debug_proxy.Capture.Library.{Library}
use bedrock_debug_proxy.Capture.Recorder.{
  Recorder, RecordJob, mark_failed, mark_dropped, prepare_event, add_limitation, add_loss,
}
use bedrock_debug_proxy.Capture.Recorder.Blob.{
  BlobIo, discard, ensure_blob_directory, rename_blob, publish_blob, store_blob, store_blob_bytes,
}
use bedrock_debug_proxy.Capture.Recorder.Append.{
  record_sync, sync_refusal, sync_prepared, sync_stored, EventIo, JobIo, append_event,
  append_with_blob, write_job,
}
use bedrock_debug_proxy.Capture.Recorder.Writer.{attempt_job}
use bedrock_debug_proxy.Capture.Recorder.Close.{CloseIo, finish_close}

pub record SameQueue (r s : Recorder) : Type 0 where
  pub queue : s.queue ≡ r.queue
  pub queue_capacity : s.queue_capacity ≡ r.queue_capacity
  pub queue_byte_limit : s.queue_byte_limit ≡ r.queue_byte_limit
  pub queue_closed : s.queue_closed ≡ r.queue_closed
  pub pending : s.pending ≡ r.pending
  pub pending_bytes : s.pending_bytes ≡ r.pending_bytes
  pub idle_closed : s.idle_closed ≡ r.idle_closed
  pub assigned_sequence : s.assigned_sequence ≡ r.assigned_sequence
  pub is_closed : s.is_closed ≡ r.is_closed
  pub writer : s.writer ≡ r.writer
  pub capture_id : s.manifest.capture_id ≡ r.manifest.capture_id

-- What the queue's accounting reads.
pub record SameCounters (r s : Recorder) : Type 0 where
  pub queue : s.queue ≡ r.queue
  pub queue_capacity : s.queue_capacity ≡ r.queue_capacity
  pub queue_byte_limit : s.queue_byte_limit ≡ r.queue_byte_limit
  pub pending : s.pending ≡ r.pending
  pub pending_bytes : s.pending_bytes ≡ r.pending_bytes
  pub idle_closed : s.idle_closed ≡ r.idle_closed

pub SameQueue-SameCounters : (r s : Recorder) → SameQueue r s → SameCounters r s
SameQueue-SameCounters r s f = ground arith

pub SameQueue-refl : (r : Recorder) → SameQueue r r
SameQueue-refl r = ground arith

pub SameQueue-trans : (r s t : Recorder) → SameQueue r s → SameQueue s t → SameQueue r t
SameQueue-trans r s t p q = ground arith

pub mark_failed-SameQueue : (e : Error) (r : Recorder) → SameQueue r (mark_failed e r)
unfolding mark_failed
mark_failed-SameQueue e r = ground arith

pub mark_dropped-SameQueue : (r : Recorder) → SameQueue r (mark_dropped r)
unfolding mark_dropped
mark_dropped-SameQueue r = ground arith

discard-SameQueue : (io : BlobIo) (n : ℕ) (r : Recorder) → SameQueue r (discard io n r)
unfolding discard
discard-SameQueue io n r = ground arith

ensure-SameQueue :
    (io : BlobIo) (d : Bytes) (r : Recorder) → SameQueue r (ensure_blob_directory io d r).1
unfolding ensure_blob_directory
ensure-SameQueue io d r = ground arith

rename-SameQueue :
    (io : BlobIo) (ref : BlobRef) (raw : Bytes) (n : ℕ) (r : Recorder)
    → SameQueue r (rename_blob io ref raw n r).1
unfolding rename_blob
rename-SameQueue io ref raw n r = ground arith

publish-SameQueue :
    (io : BlobIo) (ref : BlobRef) (raw : Bytes) (n : ℕ) (r : Recorder)
    → SameQueue r (publish_blob io ref raw n r).1
unfolding publish_blob
publish-SameQueue io ref raw n r = ground arith

pub store_blob-SameQueue :
    (lib : Library) (io : BlobIo) (raw : Bytes) (size : ℤ) (mt rep : String) (n : ℕ) (r : Recorder)
    → SameQueue r (store_blob lib io raw size mt rep n r).1
unfolding store_blob
store_blob-SameQueue lib io raw size mt rep n r = ground arith

pub append_event-SameQueue :
    (lib : Library) (io : EventIo) (event : Event) (n : ℕ) (r : Recorder)
    → SameQueue r (append_event lib io event n r).1
unfolding append_event mark_failed
append_event-SameQueue lib io event n r = ground arith

append_with_blob-SameQueue :
    (lib : Library) (io : EventIo) (event : Event) (stored : Result BlobRef) (r : Recorder)
    → SameQueue r (append_with_blob lib io event (stored, r)).1
unfolding append_with_blob
append_with_blob-SameQueue lib io event (err e) r = SameQueue-refl r
append_with_blob-SameQueue lib io event (ok ref) r =
    ground (
      arith,
      append_event-SameQueue lib io (record event { blob = some ref }) (nat_part ref.size) r,
    )

store_blob_bytes-SameQueue :
    (lib : Library) (io : BlobIo) (raw : Bytes) (mt rep : String) (n : ℕ) (r : Recorder)
    → SameQueue r (store_blob_bytes lib io raw mt rep n r).1
unfolding store_blob_bytes
store_blob_bytes-SameQueue lib io raw mt rep n r =
    elim (Bool-cases (contains (lib.hex_digest raw) r.seen_blob)) [
      | inl old ↦ rw old (SameQueue-refl r)
      | inr new ↦ rw new (store_blob-SameQueue lib io raw (pos (length raw)) mt rep n r)
    ]

pub write_job-SameQueue :
    (lib : Library) (io : JobIo) (job : RecordJob) (r : Recorder)
    → SameQueue r (write_job lib io job r).1
unfolding write_job
write_job-SameQueue lib io job r =
    let n = job.event.sequence in
    let stored = store_blob_bytes lib io.blob job.raw job.media_type job.representation n r in
    elim (Bool-cases job.has_raw) [
      | inl blob ↦ rw blob (
          SameQueue-trans r stored.1 _
            (store_blob_bytes-SameQueue lib io.blob job.raw job.media_type job.representation n r)
            (append_with_blob-SameQueue lib io.event job.event stored.0 stored.1))
      | inr plain ↦ rw plain (append_event-SameQueue lib io.event job.event 0 r)
    ]

pub attempt_job-SameQueue :
    (lib : Library) (io : JobIo) (job : RecordJob) (r : Recorder)
    → SameQueue r (attempt_job lib io job r).1
unfolding attempt_job mark_failed
attempt_job-SameQueue lib io job r = ground (arith, write_job-SameQueue lib io job r)

sync_stored-SameQueue :
    (lib : Library) (io : EventIo) (event : Event) (stored : Result BlobRef) (r : Recorder)
    → SameQueue r (sync_stored lib io event (stored, r)).1
unfolding sync_stored
sync_stored-SameQueue lib io event (err e) r = mark_failed-SameQueue e r
sync_stored-SameQueue lib io event (ok ref) r = append_with_blob-SameQueue lib io event (ok ref) r

-- With the sequence number of the event assigned.
abbrev pub assign : Event → Recorder → Recorder
assign event r = record r { assigned_sequence = event.sequence }

pub sync_prepared-SameQueue :
    (lib : Library) (io : JobIo) (raw : Option Bytes) (size : ℤ) (mt rep : String) (event : Event)
    (r : Recorder)
    → SameQueue (assign event r) (sync_prepared lib io raw size mt rep (ok event) r).1
unfolding sync_prepared
sync_prepared-SameQueue lib io none size mt rep event r =
    append_event-SameQueue lib io.event event 0 (assign event r)
sync_prepared-SameQueue lib io (some content) size mt rep event r =
    let start = assign event r in
    let stored = store_blob lib io.blob content size mt rep event.sequence start in
    SameQueue-trans start stored.1 _
      (store_blob-SameQueue lib io.blob content size mt rep event.sequence start)
      (sync_stored-SameQueue lib io.event event stored.0 stored.1)

pub record SyncAllowed (marshals : Bool) (event : Event) (r : Recorder) : Type 0 where
  pub encodes : marshals ≡ true
  pub no_blob : event.blob ≡ none
  pub still_open : r.is_closed ≡ false
  pub sound : r.failed ≡ none

sync_refusal-SyncAllowed :
    (marshals live : Bool) (event : Event) (r : Recorder)
    → sync_refusal marshals live event r ≡ none
    → SyncAllowed marshals event r
unfolding sync_refusal
sync_refusal-SyncAllowed marshals live event r h = ground arith

-- `recordSync` refuses and changes nothing, or writes the event that it prepared.
pub record_sync_cases {ℓ} :
    (P : Result Event × Recorder → Type ℓ) (lib : Library) (io : JobIo) (now : ℕ)
    (marshals live : Bool) (event : Event) (raw : Option Bytes) (size : ℤ) (mt rep : String)
    (r : Recorder)
    → ((e : Error) → P (err e, r))
    → ((prepared : Event)
        → prepare_event lib now r event ≡ ok prepared
        → SyncAllowed marshals event r
        → P (sync_prepared lib io raw size mt rep (ok prepared) r))
    → P (record_sync lib io now marshals live event raw size mt rep r)
unfolding record_sync
record_sync_cases P lib io now marshals live event raw size mt rep r refused prepared =
    unfold record_sync in
    elim (Option-cases (sync_refusal marshals live event r)) [
      | inr (e, early) ↦ rw (early, record_sync) (refused e)
      | inl late ↦ rw (late, record_sync) (go (prepare_event lib now r event) refl (Allowed late))
    ]
  where
    Allowed : sync_refusal marshals live event r ≡ none → SyncAllowed marshals event r
    Allowed late = sync_refusal-SyncAllowed marshals live event r late

    go :
        (p : Result Event)
        → prepare_event lib now r event ≡ p
        → SyncAllowed marshals event r
        → P (sync_prepared lib io raw size mt rep p r)
    go (err e) h allowed = refused e
    go (ok x) h allowed = prepared x h allowed

-- `RecordReader` writes its event itself: of the queue's state only the last sequence number moves.
pub record_sync-SameCounters :
    (lib : Library) (io : JobIo) (now : ℕ) (marshals live : Bool) (event : Event)
    (raw : Option Bytes) (size : ℤ) (mt rep : String) (r : Recorder)
    → SameCounters r (record_sync lib io now marshals live event raw size mt rep r).1
record_sync-SameCounters lib io now marshals live event raw size mt rep r =
    record_sync_cases (λ p. SameCounters r p.1) lib io now marshals live event raw size mt rep r
      (λ e. ground arith)
      (λ prepared _ _.
        let f = sync_prepared-SameQueue lib io raw size mt rep prepared r in ground (arith, f))

pub add_limitation-SameQueue :
    (lib : Library) (text : String) (r : Recorder) → SameQueue r (add_limitation lib text r).1
unfolding add_limitation
add_limitation-SameQueue lib text r = ground arith

pub add_loss-SameQueue :
    (d t : ℕ) (reason : String) (r : Recorder) → SameQueue r (add_loss d t reason r).1
unfolding add_loss
add_loss-SameQueue d t reason r = ground arith

pub finish_close-SameCounters :
    (lib : Library) (message : Error → String) (io : CloseIo) (now : ℕ) (status : String)
    (cause : Option Error) (r : Recorder)
    → SameCounters r (finish_close lib message io now status cause r).1
unfolding finish_close
finish_close-SameCounters lib message io now status cause r = ground arith
