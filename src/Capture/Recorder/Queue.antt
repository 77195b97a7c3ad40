-- ===== src/Capture/Recorder/Queue.antt =====
-- internal/capture/recorder.go: the bounded queue of accepted records.
use bedrock_debug_proxy.Base.{
  ℕ, ◌+◌, [], ◌∷◌, ◌++◌, Option, none, some, Bool, true, false, length, ◌==◌, ltb, leb,
  if◌then◌else◌, ◌&&◌, ◌||◌,
}
use bedrock_debug_proxy.Capture.Schema.{Event, Record}
use bedrock_debug_proxy.Capture.Result.{
  Error, Result, ok, err, closed, recorder_failed, blob_owned, cancelled, encode_event, is_some,
  writer_stopped,
}
use bedrock_debug_proxy.Capture.Library.{Library}
use bedrock_debug_proxy.Capture.Recorder.{
  Recorder, RecordJob, dec64, prepare_event, complete_pending,
}
use bedrock_debug_proxy.Capture.Recorder.Blob.{blob_ref}

-- What a waiting loop finds when it looks at the recorder: it returns, or blocks and looks again.
pub data Wait : Type 0 where
  ready : Wait
  blocked : Wait
  refused : Error → Wait

unfoldable pub wait_for_idle : Recorder → Wait
wait_for_idle r = if r.is_closed then refused closed else elim r.failed [
  | some e ↦ refused (recorder_failed e)
  | none ↦ if r.pending == 0 then ready else blocked
]

unfoldable pub wait_for_queue_space : ℕ → Recorder → Wait
wait_for_queue_space bytes r =
    let within_records = ltb r.pending r.queue_capacity in
    let within_bytes = leb (r.pending_bytes + bytes) r.queue_byte_limit || r.pending == 0 in
    if r.is_closed then refused closed else elim r.failed [
      | some e ↦ refused (recorder_failed e)
      | none ↦ if within_records && within_bytes then ready else blocked
    ]

-- The tests of `enqueue` before it takes a lock.
unfoldable pub check_record : Library → Bool → Event → Option Error
check_record lib live event = elim event.blob [
  | some _ ↦ some blob_owned
  | none ↦
      if live
      then (if is_some (lib.marshal_event event) then none else some encode_event)
      else some cancelled
]

-- The job of a record: `event.Blob` names the digest of the raw bytes.
unfoldable pub job_of : Library → Event → Record → RecordJob
unfolding blob_ref
job_of lib event rec = elim rec.raw [
  | none ↦ record {
    event = event;
    raw = [];
    has_raw = false;
    media_type = rec.media_type;
    representation = rec.representation;
    bytes = 0;
  }
  | some raw ↦ record {
    event = record event {
      blob =
          some (blob_ref lib (lib.hex_digest raw) (length raw) rec.media_type rec.representation);
    };
    raw = raw;
    has_raw = true;
    media_type = rec.media_type;
    representation = rec.representation;
    bytes = length raw;
  }
]

abbrev pub larger : ℕ → ℕ → ℕ
larger a b = if ltb b a then a else b

-- The counters of the critical section, up to the send.
unfoldable pub account_job : RecordJob → Recorder → Recorder
account_job job r =
    let pending' = r.pending + 1 in
    let bytes' = r.pending_bytes + job.bytes in
    record r {
      assigned_sequence = job.event.sequence;
      idle_closed = if r.pending == 0 then false else r.idle_closed;
      pending = pending';
      pending_bytes = bytes';
      queue_peak_records = larger pending' r.queue_peak_records;
      queue_peak_bytes = larger bytes' r.queue_peak_bytes;
    }

reserve_prepared : Library → Record → Result Event → Recorder → Result RecordJob × Recorder
unfolding job_of account_job
reserve_prepared lib rec (err e) r = (err e, r)
reserve_prepared lib rec (ok event) r =
    let job = job_of lib event rec in (ok job, account_job job r)

-- The critical section of `enqueue`, after `wait_for_queue_space` found room.
unfoldable pub reserve : Library → (now : ℕ) → Record → Recorder → Result RecordJob × Recorder
unfolding reserve_prepared
reserve lib now rec r = if r.is_closed then (err closed, r) else elim r.failed [
  | some e ↦ (err (recorder_failed e), r)
  | none ↦ reserve_prepared lib rec (prepare_event lib now r rec.event) r
]

-- `r.queue <- job`
unfoldable pub send : RecordJob → Recorder → Recorder
send job r = record r { queue = r.queue ++ job ∷ [] }

unfoldable pub rollback_enqueue : ℕ → ℕ → Recorder → Option Recorder
rollback_enqueue sequence bytes r = complete_pending bytes (
    if (r.assigned_sequence == sequence) && ltb r.sequence sequence
    then record r { assigned_sequence = dec64 r.assigned_sequence }
    else r)

-- What `enqueue` returns when its context is done, or when the writer has stopped.
unfoldable pub stopped_error : Recorder → Error
stopped_error r = elim r.failed [
  | some e ↦ recorder_failed e
  | none ↦ recorder_failed writer_stopped
]
