-- ===== src/Capture/Recorder/Reserved.antt =====
-- The critical section of `enqueue`, and its undoing by `rollbackEnqueue`.
use bedrock_debug_proxy.Base.{ℕ, ◌-◌, ◌<◌, none, some, true, ◌≡◌, arith}
use bedrock_debug_proxy.Capture.Schema.{Event, Record, schema_version}
use bedrock_debug_proxy.Capture.Result.{Error, ok, err}
use bedrock_debug_proxy.Capture.Library.{Library}
use bedrock_debug_proxy.Capture.Recorder.{
  Recorder, RecordJob, u64, inc64, dec64, prepare_event, complete_pending,
}
use bedrock_debug_proxy.Capture.Recorder.Queue.{reserve, rollback_enqueue, check_record}
use bedrock_debug_proxy.Capture.Recorder.Jobs.{IsJob}

-- What a step leaves alone that touches neither the files nor the committed state.
pub record SameCommits (r s : Recorder) : Type 0 where
  pub disk : s.disk ≡ r.disk
  pub sequence : s.sequence ≡ r.sequence
  pub seen_blob : s.seen_blob ≡ r.seen_blob
  pub failed : s.failed ≡ r.failed
  pub manifest : s.manifest ≡ r.manifest
  pub queue : s.queue ≡ r.queue
  pub writer : s.writer ≡ r.writer

pub record IsReserved (lib : Library) (r : Recorder) (job : RecordJob) (s : Recorder) : Type 0 where
  pub same : SameCommits r s
  pub assigned : s.assigned_sequence ≡ job.event.sequence
  pub follows : job.event.sequence ≡ inc64 r.assigned_sequence
  pub schema : job.event.schema ≡ schema_version
  pub capture_id : job.event.capture_id ≡ r.manifest.capture_id
  pub sound : r.failed ≡ none

pub reserve-IsReserved :
    (lib : Library) (now : ℕ) (rec : Record) (job : RecordJob) (r s : Recorder)
    → reserve lib now rec r ≡ (ok job, s)
    → IsReserved lib r job s
unfolding reserve prepare_event
reserve-IsReserved lib now rec job r s h = ground arith

pub check_record-blob :
    (lib : Library) (event : Event) → check_record lib true event ≡ none → event.blob ≡ none
unfolding check_record
check_record-blob lib event h = ground arith

pub reserve-IsJob :
    (lib : Library) (now : ℕ) (rec : Record) (job : RecordJob) (r s : Recorder)
    → rec.event.blob ≡ none
    → reserve lib now rec r ≡ (ok job, s)
    → IsJob lib job
unfolding reserve prepare_event
reserve-IsJob lib now rec job r s b h = ground arith

pub reserve_err-SameCommits :
    (lib : Library) (now : ℕ) (rec : Record) (x : Error) (r s : Recorder)
    → reserve lib now rec r ≡ (err x, s)
    → r ≡ s
unfolding reserve
reserve_err-SameCommits lib now rec x r s h = ground arith

pub rollback-SameCommits :
    (n bytes : ℕ) (r s : Recorder) → rollback_enqueue n bytes r ≡ some s → SameCommits r s
unfolding rollback_enqueue complete_pending
rollback-SameCommits n bytes r s h = ground arith

-- The last number that was assigned is free again.
pub rollback-assigned :
    (n bytes : ℕ) (r s : Recorder)
    → rollback_enqueue n bytes r ≡ some s
    → r.assigned_sequence ≡ n
    → r.sequence < n
    → n < u64
    → s.assigned_sequence ≡ n - 1
unfolding rollback_enqueue complete_pending dec64
rollback-assigned n bytes r s h e b u = ground arith
