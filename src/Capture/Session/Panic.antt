-- ===== src/Capture/Session/Panic.antt =====
-- `completePendingLocked` closes the `idle` channel once: an accounted queue never panics.
use bedrock_debug_proxy.Base.{◌≡◌, ◌≢◌, List, ◌∷◌, none, arith, Option-cases, inl, inr}
use bedrock_debug_proxy.Capture.Library.{Library}
use bedrock_debug_proxy.Capture.Recorder.{Recorder, RecordJob, complete_pending, mark_dropped}
use bedrock_debug_proxy.Capture.Recorder.Append.{JobIo}
use bedrock_debug_proxy.Capture.Recorder.Queue.{rollback_enqueue}
use bedrock_debug_proxy.Capture.Recorder.Writer.{run_round, settle_job, drain_round, attempt_job}
use bedrock_debug_proxy.Capture.Recorder.Frame.{SameQueue-refl, attempt_job-SameQueue}
use bedrock_debug_proxy.Capture.Session.{Phase, holding}
use bedrock_debug_proxy.Capture.Session.Queue.{
  IsAccounted, put_back, complete-ne-none, received-IsAccounted, drop-IsAccounted,
}

settle-ne-none :
    (phase : Phase) (job : RecordJob) (r : Recorder)
    → IsAccounted phase (put_back job r)
    → settle_job job r ≢ none
unfolding settle_job
settle-ne-none phase job r h panic = elim (Option-cases r.failed) [
  | inl fine ↦ complete-ne-none phase job r h (rw (fine, settle_job) at panic)
  | inr (x, bad) ↦ elim (Option-cases (complete_pending job.bytes (mark_dropped r))) [
    | inl twice ↦ complete-ne-none phase job _ (drop-IsAccounted phase job r h) twice
    | inr (s, fine) ↦ absurd (cc (rw (bad, fine, settle_job) at panic))
  ]
]

pub run_round-ne-none :
    (lib : Library) (io : JobIo) (phase : Phase) (job : RecordJob) (rest : List RecordJob)
    (r : Recorder)
    → r.queue ≡ job ∷ rest
    → IsAccounted phase r
    → (run_round lib io job (record r { queue = rest })).1 ≢ none
unfolding run_round
run_round-ne-none lib io phase job rest r q h =
    let popped = record r { queue = rest } in
    let attempted = attempt_job lib io job popped in
    settle-ne-none phase job attempted.1 (
      received-IsAccounted phase job rest r attempted.1 q (attempt_job-SameQueue lib io job popped)
        h)

pub drain_round-ne-none :
    (phase : Phase) (job : RecordJob) (rest : List RecordJob) (r : Recorder)
    → r.queue ≡ job ∷ rest
    → IsAccounted phase r
    → drain_round job (record r { queue = rest }) ≢ none
unfolding drain_round
drain_round-ne-none phase job rest r q h =
    let popped = record r { queue = rest } in
    complete-ne-none phase job (mark_dropped popped) (
      drop-IsAccounted phase job popped
        (received-IsAccounted phase job rest r popped q (SameQueue-refl popped) h))

pub rollback_enqueue-ne-none :
    (job : RecordJob) (r : Recorder)
    → IsAccounted (holding job) r
    → rollback_enqueue job.event.sequence job.bytes r ≢ none
unfolding rollback_enqueue complete_pending
rollback_enqueue-ne-none job r h panic = ground (arith, h.pending_exact, h.idle_exact)
