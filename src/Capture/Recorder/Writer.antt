-- ===== src/Capture/Recorder/Writer.antt =====
-- internal/capture/recorder.go: the writer goroutine, one received job at a time.
use bedrock_debug_proxy.Base.{Option, none, some, true, if◌then◌else◌}
use bedrock_debug_proxy.Capture.Schema.{Event}
use bedrock_debug_proxy.Capture.Result.{Result, ok, err, closed}
use bedrock_debug_proxy.Capture.Library.{Library}
use bedrock_debug_proxy.Capture.Recorder.{
  Recorder, RecordJob, draining, mark_failed, mark_dropped, complete_pending,
}
use bedrock_debug_proxy.Capture.Recorder.Append.{JobIo, write_job}

-- `if err != nil { r.markFailedLocked(err) }`
unfoldable pub note_result : Result Event × Recorder → Result Event × Recorder
note_result (ok event, r) = (ok event, r)
note_result (err e, r) = (err e, mark_failed e r)

-- The write of a job, and what an error of it leaves.
unfoldable pub attempt_job : Library → JobIo → RecordJob → Recorder → Result Event × Recorder
unfolding note_result
attempt_job lib io job r = elim r.failed [
  | some e ↦ (err e, r)
  | none ↦
      if r.is_closed
      then (err closed, mark_failed closed r)
      else note_result (write_job lib io job r)
]

-- The end of a round: a failed recorder drops the job, wakes the senders and drains the queue.
unfoldable pub settle_job : RecordJob → Recorder → Option Recorder
settle_job job r = elim r.failed [
  | none ↦ complete_pending job.bytes r
  | some e ↦ elim (complete_pending job.bytes (mark_dropped r)) [
    | none ↦ none
    | some r' ↦ some (record r' { writer_stopped = true; writer = draining })
  ]
]

-- One round of `runWriter`, on a job that was received.
unfoldable pub run_round : Library → JobIo → RecordJob → Recorder → Result Event × Option Recorder
unfolding attempt_job settle_job
run_round lib io job r = let (result, r') = attempt_job lib io job r in (result, settle_job job r')

-- One round of `drainFailedQueue`.
unfoldable pub drain_round : RecordJob → Recorder → Option Recorder
drain_round job r = complete_pending job.bytes (mark_dropped r)
