-- ===== src/Capture/Session/Delivery.antt =====
-- What every session of internal/capture/recorder.go delivers, in any interleaving of its
-- goroutines: no accepted event is lost silently, and the queue keeps its bounds.
use bedrock_debug_proxy.Base.{
  ℕ, ◌+◌, ◌%◌, ◌≤◌, ◌<◌, ◌-◌, ◌≡◌, ◌≢◌, ◌⊎◌, sym, ap, ◌∙◌, String, List, [], ◌∷◌, ◌++◌, none, some,
  true, subst, arith, length, ◌==◌,
}
use bedrock_debug_proxy.Capture.Result.{ok}
use bedrock_debug_proxy.Capture.Library.{Library}
use bedrock_debug_proxy.Capture.Recorder.{Recorder, RecordJob, u64}
use bedrock_debug_proxy.Capture.Recorder.Append.{JobIo}
use bedrock_debug_proxy.Capture.Recorder.Queue.{rollback_enqueue}
use bedrock_debug_proxy.Capture.Recorder.Writer.{run_round, drain_round}
use bedrock_debug_proxy.Capture.Recorder.New.{NewIo, Options, new}
use bedrock_debug_proxy.Capture.Recorder.Reserved.{rollback-assigned}
use bedrock_debug_proxy.Capture.Session.{Session, holding, Reach}
use bedrock_debug_proxy.Capture.Session.Numbers.{
  events_of, Consecutive, IsLive-last, held_events, IsLive,
}
use bedrock_debug_proxy.Capture.Session.Queue.{IsAccounted, sum_bytes, held_bytes, held_count}
use bedrock_debug_proxy.Capture.Session.Start.{session_of}
use bedrock_debug_proxy.Capture.Session.Panic.{
  run_round-ne-none, drain_round-ne-none, rollback_enqueue-ne-none,
}
use bedrock_debug_proxy.Capture.Session.Stream.{IsOnDisk, declared_losses}
use bedrock_debug_proxy.Capture.Session.Kept.{Written, reached-Written}
use bedrock_debug_proxy.Capture.Session.History.{Sound, reached-Sound}

module _ (lib : Library) (io : NewIo) (root : String) (options : Options) (now : ℕ) (r : Recorder)
    (s : Session) (starts : new lib io root options now ≡ ok r)
    (path : Reach lib (session_of r) s) where
  sound : Sound lib s
  sound = reached-Sound lib io root options now r s starts path

  written : Written lib (declared_losses path) s
  written = reached-Written lib io root options now r s starts path

  -- In every session that `New` starts and any interleaving of its steps reaches, the accepted
  -- events are, in their order, the persisted ones, then those that the writer dropped, then those
  -- in the queue. The file of the event stream begins with the encoded lines of the persisted
  -- events, in this order, and until a failure it has nothing else. The manifest's count of dropped
  -- events is, on uint64, what callers of `AddLoss` declared before the recorder was closed and the
  -- number of the events that the writer dropped.
  pub accepted-accounted_for :
      (s.accepted ≡ s.persisted ++ (s.lost ++ events_of s.recorder.queue))
      × IsOnDisk lib s.persisted s.recorder
      × (s.recorder.manifest.counts.dropped ≡ (declared_losses path + length s.lost) % u64)
  accepted-accounted_for = (sound.ordered.split, written.disk, written.dropped)

  -- In every session that `New` starts and any interleaving of its steps reaches: where the manifest
  -- calls the capture complete, the recorder has not failed, nothing was dropped, and what is persisted and then queued is what was accepted.
  pub complete-is_lossless :
      s.recorder.manifest.completeness.complete ≡ true
      → (s.recorder.failed ≡ none)
        × (s.lost ≡ [])
        × (s.persisted ++ events_of s.recorder.queue ≡ s.accepted)
  complete-is_lossless complete =
      let fine = sound.ordered.honest complete in
      let nothing_lost = (sound.ordered.live fine).nothing_lost in
      (
        fine,
        nothing_lost,
        sym (
            sound.ordered.split
            ∙ ap (λ x. s.persisted ++ (x ++ events_of s.recorder.queue)) nothing_lost),
      )

  -- In every session that `New` starts and any interleaving of its steps reaches, the file of the
  -- event stream begins with the encoded lines of events that are numbered 1, 2, 3 and so on,
  -- without a gap, also after a failure; until a failure these lines are the whole file.
  pub persisted-Consecutive : IsOnDisk lib s.persisted s.recorder × Consecutive 0 s.persisted
  persisted-Consecutive = (written.disk, sound.ordered.consecutive)

  -- In every session that `New` starts and any interleaving of its steps reaches, while the recorder
  -- has not failed, `sequence` counts the persisted events; the
  -- queued events and the reserved one have the numbers that follow, without a gap; and the last of
  -- them is `assignedSequence`.
  pub queued-Consecutive :
      s.recorder.failed ≡ none
      → (s.recorder.sequence ≡ length s.persisted)
        × Consecutive s.recorder.sequence (events_of s.recorder.queue ++ held_events s.phase)
        × (s.recorder.assigned_sequence
            ≡ s.recorder.sequence + length (events_of s.recorder.queue ++ held_events s.phase))
  queued-Consecutive fine = let l = sound.ordered.live fine in (l.committed, l.queued, l.assigned)

  -- In every session that `New` starts and any interleaving of its steps reaches, the queue's
  -- counters are exact: what is pending is what the queue holds and
  -- what `enqueue` has reserved, in records and in bytes. The records stay within the capacity, the
  -- bytes within the limit unless a single record is pending, and `idle` is closed exactly when
  -- nothing is pending.
  pub pending-exact :
      (s.recorder.pending ≡ length s.recorder.queue + held_count s.phase)
      × (s.recorder.pending_bytes ≡ sum_bytes s.recorder.queue + held_bytes s.phase)
      × (s.recorder.pending ≤ s.recorder.queue_capacity)
      × ((s.recorder.pending_bytes ≤ s.recorder.queue_byte_limit) ⊎ (s.recorder.pending ≤ 1))
      × (s.recorder.idle_closed ≡ (s.recorder.pending == 0))
  pending-exact =
      let a = sound.accounted in
      (a.pending_exact, a.bytes_exact, a.in_capacity, a.in_budget, a.idle_exact)

  -- In every session that `New` starts and any interleaving of its steps reaches, whoever has reserved room finds a free place in the queue's channel, so that
  -- the send under `enqueueMu` does not block.
  pub reserved-sends :
      (job : RecordJob)
      → s.phase ≡ holding job
      → length s.recorder.queue < s.recorder.queue_capacity
  reserved-sends job e =
      let a = sound.accounted in
      let held : held_count s.phase ≡ 1 = ap held_count e in
      omega (arith, a.pending_exact, a.in_capacity, held)

  -- In every session that `New` starts and any interleaving of its steps reaches, a round of the
  -- writer on the queue's first job, and a round of the drain of a failed queue, never
  -- close the `idle` channel twice, which would panic, whatever the write of the job gives.
  pub rounds-do_not_panic :
      (job_io : JobIo) (job : RecordJob) (rest : List RecordJob)
      → s.recorder.queue ≡ job ∷ rest
      → ((run_round lib job_io job (record s.recorder { queue = rest })).1 ≢ none)
        × (drain_round job (record s.recorder { queue = rest }) ≢ none)
  rounds-do_not_panic job_io job rest q = (
    run_round-ne-none lib job_io s.phase job rest s.recorder q sound.accounted,
    drain_round-ne-none s.phase job rest s.recorder q sound.accounted,
  )

  -- In every session that `New` starts and any interleaving of its steps reaches, the rollback of a
  -- reservation does not close the `idle` channel twice.
  pub rollback-does_not_panic :
      (job : RecordJob)
      → s.phase ≡ holding job
      → rollback_enqueue job.event.sequence job.bytes s.recorder ≢ none
  rollback-does_not_panic job e =
      rollback_enqueue-ne-none job s.recorder
        (subst (λ x. IsAccounted x s.recorder) e sound.accounted)

  -- In every session that `New` starts and any interleaving of its steps reaches, while the recorder
  -- has not failed, the rollback of a reservation gives its
  -- sequence number back: the last assigned number is the one before it again.
  pub rollback-frees_number :
      (job : RecordJob) (t : Recorder)
      → s.phase ≡ holding job
      → s.recorder.failed ≡ none
      → rollback_enqueue job.event.sequence job.bytes s.recorder ≡ some t
      → (job.event.sequence ≡ s.recorder.assigned_sequence)
        × (t.assigned_sequence ≡ job.event.sequence - 1)
  rollback-frees_number job t e fine back =
      let l = sound.ordered.live fine in
      let last =
        IsLive-last s.recorder.sequence s.recorder.assigned_sequence (events_of s.recorder.queue)
          s.persisted s.lost job.event
          (subst
            (λ x.
              IsLive s.recorder.sequence s.recorder.assigned_sequence
                (events_of s.recorder.queue ++ held_events x) s.persisted s.lost)
            e l) in
      (
        last.0,
        rollback-assigned job.event.sequence job.bytes s.recorder t back (sym last.0) last.1
            (omega (arith, last.0, l.bounded)),
      )
