-- ===== src/Capture/Session/Order.antt =====
-- The steps of a session that append nothing to the queue: what they keep of the order of events.
use bedrock_debug_proxy.Base.{
  ℕ, ◌≡◌, ◌≢◌, sym, ap, ◌∙◌, String, List, [], ◌∷◌, ◌++◌, Option, none, some, true, append_assoc,
  arith, All, subst,
}
use bedrock_debug_proxy.Capture.Schema.{Event}
use bedrock_debug_proxy.Capture.Result.{Error, Result, ok, err}
use bedrock_debug_proxy.Capture.Library.{Library}
use bedrock_debug_proxy.Capture.Recorder.{
  Recorder, RecordJob, running, draining, done, add_limitation, add_loss,
}
use bedrock_debug_proxy.Capture.Recorder.Append.{JobIo}
use bedrock_debug_proxy.Capture.Recorder.Frame.{attempt_job-SameQueue}
use bedrock_debug_proxy.Capture.Recorder.Jobs.{IsJob}
use bedrock_debug_proxy.Capture.Recorder.Rounds.{
  IsHonest, settle_job-Settled, drain_round-Settled, attempt_job-err,
}
use bedrock_debug_proxy.Capture.Recorder.Writer.{attempt_job, run_round, drain_round}
use bedrock_debug_proxy.Capture.Recorder.Close.{CloseIo, begin_close, finish_close}
use bedrock_debug_proxy.Capture.Session.{Phase, keep_ok, keep_err}
use bedrock_debug_proxy.Capture.Session.Numbers.{events_of, held_events, IsLive-eq}
use bedrock_debug_proxy.Capture.Session.Ledger.{IsHeld, waiting, IsOrdered, commit-IsOrdered}

-- Of a step that neither commits nor fails.
pub record Quiet (r s : Recorder) : Type 0 where
  pub sequence : s.sequence ≡ r.sequence
  pub assigned_sequence : s.assigned_sequence ≡ r.assigned_sequence
  pub queue : s.queue ≡ r.queue
  pub failed : s.failed ≡ r.failed
  pub drains : s.writer ≡ draining → r.writer ≡ draining
  pub complete : s.manifest.completeness.complete ≡ true → r.manifest.completeness.complete ≡ true

pub add_limitation-Quiet :
    (lib : Library) (text : String) (r : Recorder) → Quiet r (add_limitation lib text r).1
unfolding add_limitation
add_limitation-Quiet lib text r = ground arith

pub add_loss-Quiet : (d t : ℕ) (reason : String) (r : Recorder) → Quiet r (add_loss d t reason r).1
unfolding add_loss
add_loss-Quiet d t reason r = ground arith

pub begin_close-Quiet : (r s : Recorder) → begin_close r ≡ some s → Quiet r s
unfolding begin_close
begin_close-Quiet r s h = ground arith

pub finish_close-Quiet :
    (lib : Library) (message : Error → String) (io : CloseIo) (now : ℕ) (status : String)
    (cause : Option Error) (r : Recorder)
    → Quiet r (finish_close lib message io now status cause r).1
unfolding finish_close
finish_close-Quiet lib message io now status cause r = ground arith

pub done-Quiet : (r : Recorder) → Quiet r (record r { writer = done })
done-Quiet r = ground arith

module _ (lib : Library) (accepted persisted lost : List Event) where
  pub Quiet-IsOrdered :
      (p q : Phase) (r s : Recorder)
      → Quiet r s
      → held_events q ≡ held_events p
      → IsHeld lib q
      → IsOrdered lib p r accepted persisted lost
      → IsOrdered lib q s accepted persisted lost
  Quiet-IsOrdered p q r s c e held h = record {
    split = h.split ∙ ap (λ x. persisted ++ (lost ++ events_of x)) (sym c.queue);
    consecutive = h.consecutive;
    honest = λ complete. c.failed ∙ h.honest (c.complete complete);
    drains_failed = λ d fine. h.drains_failed (c.drains d) (sym c.failed ∙ fine);
    jobs = subst (All (IsJob lib)) (sym c.queue) h.jobs;
    held = held;
    live = λ fine.
        IsLive-eq r.sequence s.sequence r.assigned_sequence s.assigned_sequence (waiting p r)
          (waiting q s) persisted lost c.sequence c.assigned_sequence (ground (arith, c.queue, e))
          (h.live (sym c.failed ∙ fine));
  }

  -- A job that the writer drops.
  pub lose-IsOrdered :
      (phase : Phase) (job : RecordJob) (rest : List RecordJob) (r s : Recorder)
      → r.queue ≡ job ∷ rest
      → s.queue ≡ rest
      → s.failed ≢ none
      → IsHonest s
      → IsOrdered lib phase r accepted persisted lost
      → IsOrdered lib phase s accepted persisted (lost ++ job.event ∷ [])
  lose-IsOrdered phase job rest r s q left broken honest h = record {
    split =
        h.split
        ∙ ap (λ x. persisted ++ (lost ++ events_of x)) q
        ∙ ap (λ x. persisted ++ x) (sym (append_assoc lost (job.event ∷ []) (events_of rest)))
        ∙ ap (λ x. persisted ++ ((lost ++ job.event ∷ []) ++ events_of x)) (sym left);
    consecutive = h.consecutive;
    honest = honest;
    drains_failed = λ d. broken;
    jobs = let all = subst (All (IsJob lib)) q h.jobs in subst (All (IsJob lib)) (sym left) all.1;
    held = h.held;
    live = λ fine. absurd (broken fine);
  }

  pub drop-IsOrdered :
      (phase : Phase) (job : RecordJob) (rest : List RecordJob) (r s : Recorder)
      → r.queue ≡ job ∷ rest
      → r.writer ≡ draining
      → drain_round job (record r { queue = rest }) ≡ some s
      → IsOrdered lib phase r accepted persisted lost
      → IsOrdered lib phase s accepted persisted (lost ++ job.event ∷ [])
  drop-IsOrdered phase job rest r s q d e h =
      let t = drain_round-Settled job (record r { queue = rest }) s e in
      lose-IsOrdered phase job rest r s q t.queue (λ fine. h.drains_failed d (sym t.failed ∙ fine))
        (λ complete. t.failed ∙ h.honest (t.complete complete)) h

-- One round of the writer: the event is persisted, or it is lost.
pub write-IsOrdered :
    (lib : Library) (io : JobIo) (phase : Phase) (job : RecordJob) (rest : List RecordJob)
    (result : Result Event) (r s : Recorder) (accepted persisted lost : List Event)
    → r.queue ≡ job ∷ rest
    → r.writer ≡ running
    → run_round lib io job (record r { queue = rest }) ≡ (result, some s)
    → IsOrdered lib phase r accepted persisted lost
    → IsOrdered lib phase s accepted (keep_ok result persisted) (keep_err job.event result lost)
unfolding run_round
write-IsOrdered lib io phase job rest result r s accepted persisted lost q w e h =
    go result (ap (λ p. p.0) e)
  where
    popped : Recorder
    popped = record r { queue = rest }

    m : Recorder
    m = (attempt_job lib io job popped).1

    go :
        (x : Result Event)
        → (attempt_job lib io job popped).0 ≡ x
        → IsOrdered lib phase s accepted (keep_ok x persisted) (keep_err job.event x lost)
    go (ok v) is =
        commit-IsOrdered lib io phase job rest v r m s accepted persisted lost q w
          (ap (λ y. (y, m)) is) (ap (λ p. p.1) e) h
    go (err x) is =
        let bad = attempt_job-err lib io job x popped m h.honest (ap (λ y. (y, m)) is) in
        let t = settle_job-Settled job m s (ap (λ p. p.1) e) in
        let f = attempt_job-SameQueue lib io job popped in
        lose-IsOrdered lib accepted persisted lost phase job rest r s q (t.queue ∙ f.queue)
          (λ fine. bad.0 (sym t.failed ∙ fine)) (λ complete. t.failed ∙ bad.1 (t.complete complete))
          h
