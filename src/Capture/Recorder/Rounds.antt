-- ===== src/Capture/Recorder/Rounds.antt =====
-- One round of the writer, and a step of `Close` or of a counter: what they do to the recorder's
-- health and to its record of what is written.
use bedrock_debug_proxy.Base.{ℕ, none, some, true, ◌≡◌, ◌≢◌, arith}
use bedrock_debug_proxy.Capture.Schema.{Event}
use bedrock_debug_proxy.Capture.Result.{Error, ok, err}
use bedrock_debug_proxy.Capture.Library.{Library}
use bedrock_debug_proxy.Capture.Recorder.{
  Recorder, RecordJob, mark_failed, mark_dropped, complete_pending,
}
use bedrock_debug_proxy.Capture.Recorder.Append.{JobIo, write_job}
use bedrock_debug_proxy.Capture.Recorder.Commit.{Committed, tally_of, SameCapture}
use bedrock_debug_proxy.Capture.Recorder.Jobs.{IsJob, RefStored, write_job-ok}
use bedrock_debug_proxy.Capture.Recorder.Writer.{attempt_job, settle_job, drain_round}

-- The capture is called complete only while nothing failed.
abbrev pub IsHonest : Recorder → Type 0
IsHonest r = r.manifest.completeness.complete ≡ true → r.failed ≡ none

pub mark_failed-fails : (e : Error) (r : Recorder) → (mark_failed e r).failed ≢ none
unfolding mark_failed
mark_failed-fails e r h = ground arith

pub mark_failed-IsHonest : (e : Error) (r : Recorder) → IsHonest (mark_failed e r)
unfolding mark_failed
mark_failed-IsHonest e r h = ground arith

-- What the end of a round leaves alone.
pub record Settled (r s : Recorder) : Type 0 where
  pub failed : s.failed ≡ r.failed
  pub sequence : s.sequence ≡ r.sequence
  pub assigned_sequence : s.assigned_sequence ≡ r.assigned_sequence
  pub queue : s.queue ≡ r.queue
  pub disk : s.disk ≡ r.disk
  pub tally : tally_of s ≡ tally_of r
  pub event_count : s.manifest.counts.events ≡ r.manifest.counts.events
  pub same : SameCapture r s
  pub complete : s.manifest.completeness.complete ≡ true → r.manifest.completeness.complete ≡ true
  pub healthy : r.failed ≡ none → s.writer ≡ r.writer

complete_pending-Settled : (n : ℕ) (r s : Recorder) → complete_pending n r ≡ some s → Settled r s
unfolding complete_pending
complete_pending-Settled n r s h = ground arith

pub settle_job-Settled :
    (job : RecordJob) (r s : Recorder) → settle_job job r ≡ some s → Settled r s
unfolding settle_job complete_pending mark_dropped
settle_job-Settled job r s h = ground arith

pub drain_round-Settled :
    (job : RecordJob) (r s : Recorder) → drain_round job r ≡ some s → Settled r s
unfolding drain_round complete_pending mark_dropped
drain_round-Settled job r s h = ground arith

-- A round that succeeds commits the job's event.
pub attempt_job-ok :
    (lib : Library) (io : JobIo) (job : RecordJob) (e : Event) (r s : Recorder)
    → IsJob lib job
    → attempt_job lib io job r ≡ (ok e, s)
    → (r.failed ≡ none)
      × (e ≡ job.event)
      × RefStored lib job.event.blob r s
      × Committed lib job.event r s
unfolding attempt_job
attempt_job-ok lib io job e r s j h =
    let written : write_job lib io job r ≡ (ok e, s) = ground arith in
    let done = write_job-ok lib io job e r s j written in (ground arith, done.0, done.1, done.2)

-- One that fails leaves a failed recorder, which is not called complete.
pub attempt_job-err :
    (lib : Library) (io : JobIo) (job : RecordJob) (x : Error) (r s : Recorder)
    → IsHonest r
    → attempt_job lib io job r ≡ (err x, s)
    → (s.failed ≢ none) × IsHonest s
unfolding attempt_job mark_failed
attempt_job-err lib io job x r s honest h = (λ fine. ground arith, λ c. ground arith)
