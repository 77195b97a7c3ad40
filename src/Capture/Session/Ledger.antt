-- ===== src/Capture/Session/Ledger.antt =====
-- Nothing that was accepted is lost silently: the accepted events are the persisted ones, the lost
-- ones and the queued ones, in this order; after a loss the capture is not called complete.
use bedrock_debug_proxy.Base.{
  ℕ, ◌+◌, ◌<◌, ◌≡◌, ◌≢◌, refl, sym, ap, ◌∙◌, List, [], ◌∷◌, ◌++◌, none, some, append_assoc,
  append-nil, arith, All, All-append, subst,
}
use bedrock_debug_proxy.Capture.Schema.{Event, Record}
use bedrock_debug_proxy.Capture.Result.{Result, ok}
use bedrock_debug_proxy.Capture.Library.{Library}
use bedrock_debug_proxy.Capture.Recorder.{Recorder, RecordJob, running, draining, u64}
use bedrock_debug_proxy.Capture.Recorder.Append.{JobIo}
use bedrock_debug_proxy.Capture.Recorder.Queue.{reserve, send, rollback_enqueue}
use bedrock_debug_proxy.Capture.Recorder.Frame.{SameQueue, attempt_job-SameQueue}
use bedrock_debug_proxy.Capture.Recorder.Jobs.{IsJob}
use bedrock_debug_proxy.Capture.Recorder.Rounds.{IsHonest, settle_job-Settled, attempt_job-ok}
use bedrock_debug_proxy.Capture.Recorder.Reserved.{
  SameCommits, reserve-IsReserved, reserve-IsJob, rollback-SameCommits, rollback-assigned,
}
use bedrock_debug_proxy.Capture.Recorder.Writer.{attempt_job, settle_job}
use bedrock_debug_proxy.Capture.Session.{Phase, free, granted, holding}
use bedrock_debug_proxy.Capture.Session.Numbers.{
  events_of, held_events, Consecutive, Consecutive-append, IsLive, IsLive-eq, IsLive-assign,
  IsLive-unassign, IsLive-commit, IsLive-last,
}

-- A record whose event has no reference yet; a job that carries its own.
abbrev pub IsHeld : Library → Phase → Type 0
IsHeld lib (granted rec) = rec.event.blob ≡ none
IsHeld lib (holding job) = IsJob lib job
IsHeld lib _ = Unit {0}

abbrev pub waiting : Phase → Recorder → List Event
waiting phase r = events_of r.queue ++ held_events phase

-- Of the recorder and the phase.
pub record IsOrdered (lib : Library) (phase : Phase) (r : Recorder)
    (accepted persisted lost : List Event) : Type 0 where
  pub split : accepted ≡ persisted ++ (lost ++ events_of r.queue)
  pub consecutive : Consecutive 0 persisted
  pub honest : IsHonest r
  pub drains_failed : r.writer ≡ draining → r.failed ≢ none
  pub jobs : All (IsJob lib) r.queue
  pub held : IsHeld lib phase
  pub live :
      r.failed ≡ none → IsLive r.sequence r.assigned_sequence (waiting phase r) persisted lost

module _ (lib : Library) (accepted persisted lost : List Event) where
  -- A step that commits nothing and queues nothing.
  pub keep-IsOrdered :
      (p q : Phase) (r s : Recorder)
      → SameCommits r s
      → s.assigned_sequence ≡ r.assigned_sequence
      → held_events q ≡ held_events p
      → IsHeld lib q
      → IsOrdered lib p r accepted persisted lost
      → IsOrdered lib q s accepted persisted lost
  keep-IsOrdered p q r s c a e held h = record {
    split = h.split ∙ ap (λ x. persisted ++ (lost ++ events_of x)) (sym c.queue);
    consecutive = h.consecutive;
    honest = ground (arith, h.honest);
    drains_failed = ground (arith, h.drains_failed);
    jobs = subst (All (IsJob lib)) (sym c.queue) h.jobs;
    held = held;
    live = λ fine.
        IsLive-eq r.sequence s.sequence r.assigned_sequence s.assigned_sequence (waiting p r)
          (waiting q s) persisted lost c.sequence a (ground (arith, c.queue, e))
          (h.live (sym c.failed ∙ fine));
  }

  pub reserve-IsOrdered :
      (rec : Record) (now : ℕ) (job : RecordJob) (r s : Recorder)
      → reserve lib now rec r ≡ (ok job, s)
      → r.assigned_sequence + 1 < u64
      → IsOrdered lib (granted rec) r accepted persisted lost
      → IsOrdered lib (holding job) s accepted persisted lost
  reserve-IsOrdered rec now job r s e b h =
      let c = reserve-IsReserved lib now rec job r s e in
      let same = c.same in
      record {
        split = h.split ∙ ap (λ x. persisted ++ (lost ++ events_of x)) (sym same.queue);
        consecutive = h.consecutive;
        honest = ground (arith, h.honest, same);
        drains_failed = ground (arith, h.drains_failed, same);
        jobs = subst (All (IsJob lib)) (sym same.queue) h.jobs;
        held = reserve-IsJob lib now rec job r s h.held e;
        live = λ fine.
            IsLive-eq r.sequence s.sequence job.event.sequence s.assigned_sequence
              (waiting (granted rec) r ++ job.event ∷ []) (waiting (holding job) s) persisted lost
              same.sequence c.assigned (ground (arith, same.queue, append-nil (events_of r.queue)))
              (IsLive-assign r.sequence r.assigned_sequence (waiting (granted rec) r) persisted lost
                job.event c.follows b (h.live c.sound));
      }

  pub rollback-IsOrdered :
      (job : RecordJob) (r s : Recorder)
      → rollback_enqueue job.event.sequence job.bytes r ≡ some s
      → IsOrdered lib (holding job) r accepted persisted lost
      → IsOrdered lib free s accepted persisted lost
  rollback-IsOrdered job r s e h =
      let c = rollback-SameCommits job.event.sequence job.bytes r s e in
      record {
        split = h.split ∙ ap (λ x. persisted ++ (lost ++ events_of x)) (sym c.queue);
        consecutive = h.consecutive;
        honest = ground (arith, h.honest);
        drains_failed = ground (arith, h.drains_failed);
        jobs = subst (All (IsJob lib)) (sym c.queue) h.jobs;
        held = tt;
        live = λ fine.
            let l = h.live (sym c.failed ∙ fine) in
            let last =
              IsLive-last r.sequence r.assigned_sequence (events_of r.queue) persisted lost
                job.event l in
            let back =
              rollback-assigned job.event.sequence job.bytes r s e (sym last.0) last.1
                (omega (arith, last.0, l.bounded)) in
            IsLive-eq r.sequence s.sequence s.assigned_sequence s.assigned_sequence
              (events_of r.queue) (waiting free s) persisted lost c.sequence refl
              (ground (arith, c.queue, append-nil (events_of r.queue)))
              (IsLive-unassign r.sequence r.assigned_sequence s.assigned_sequence
                (events_of r.queue) persisted lost job.event (omega (arith, back, last.0)) l);
      }

running-ne-draining : running ≡ draining → ⊥
running-ne-draining e = cc

map-snoc :
    (jobs : List RecordJob) (job : RecordJob)
    → events_of (jobs ++ job ∷ []) ≡ events_of jobs ++ job.event ∷ []
map-snoc [] job = refl
map-snoc (x ∷ jobs) job = ap (λ t. x.event ∷ t) (map-snoc jobs job)

module _ (lib : Library) where
  pub send-IsOrdered :
      (job : RecordJob) (r : Recorder) (accepted persisted lost : List Event)
      → IsOrdered lib (holding job) r accepted persisted lost
      → IsOrdered lib free (send job r) (accepted ++ job.event ∷ []) persisted lost
  unfolding send
  send-IsOrdered job r accepted persisted lost h = record {
    split =
        rw (h.split, map-snoc r.queue job)
          (append_assoc persisted (lost ++ events_of r.queue) (job.event ∷ [])
            ∙ ap (λ x. persisted ++ x) (append_assoc lost (events_of r.queue) (job.event ∷ [])));
    consecutive = h.consecutive;
    honest = h.honest;
    drains_failed = h.drains_failed;
    jobs = All-append (IsJob lib) r.queue (job ∷ []) h.jobs (h.held, tt);
    held = tt;
    live = λ fine.
        IsLive-eq r.sequence r.sequence r.assigned_sequence r.assigned_sequence
          (waiting (holding job) r) (waiting free (send job r)) persisted lost refl refl
          (append-nil (events_of (r.queue ++ job ∷ [])) ∙ map-snoc r.queue job) (h.live fine);
  }

  -- The committed event moves from the queue's head to the end of the persisted ones.
  pub commit-IsOrdered :
      (io : JobIo) (phase : Phase) (job : RecordJob) (rest : List RecordJob) (e : Event)
      (r m s : Recorder) (accepted persisted lost : List Event)
      → r.queue ≡ job ∷ rest
      → r.writer ≡ running
      → attempt_job lib io job (record r { queue = rest }) ≡ (ok e, m)
      → settle_job job m ≡ some s
      → IsOrdered lib phase r accepted persisted lost
      → IsOrdered lib phase s accepted (persisted ++ e ∷ []) lost
  commit-IsOrdered io phase job rest e r m s accepted persisted lost q w at st h =
      let popped = record r { queue = rest } in
      let jobs = subst (All (IsJob lib)) q h.jobs in
      let done = attempt_job-ok lib io job e popped m jobs.0 at in
      let c = done.3 in
      let f =
        subst (λ (p : Result Event × Recorder). SameQueue popped p.1) at
          (attempt_job-SameQueue lib io job popped) in
      let t = settle_job-Settled job m s st in
      let queue : s.queue ≡ rest = t.queue ∙ f.queue in
      let l =
        IsLive-eq r.sequence r.sequence r.assigned_sequence r.assigned_sequence (waiting phase r)
          (job.event ∷ (events_of rest ++ held_events phase)) persisted lost refl refl
          (ap (λ x. events_of x ++ held_events phase) (sym q)) (h.live done.0) in
      subst (λ x. IsOrdered lib phase s accepted (persisted ++ x ∷ []) lost) (sym done.1)
        (record {
          split =
              h.split
              ∙ ap (λ x. persisted ++ (x ++ events_of r.queue)) l.nothing_lost
              ∙ ap (λ x. persisted ++ events_of x) q
              ∙ sym (append_assoc persisted (job.event ∷ []) (events_of rest))
              ∙ ap (λ x. (persisted ++ job.event ∷ []) ++ events_of x) (sym queue)
              ∙ ap (λ x. (persisted ++ job.event ∷ []) ++ (x ++ events_of s.queue))
                  (sym l.nothing_lost);
          consecutive =
              Consecutive-append 0 r.sequence persisted (job.event ∷ [])
                (omega (arith, l.committed)) h.consecutive (l.queued.0, tt);
          honest = λ complete. t.failed ∙ c.failed ∙ done.0;
          drains_failed = λ d.
              absurd (running-ne-draining (sym (t.healthy (c.failed ∙ done.0) ∙ f.writer ∙ w) ∙ d));
          jobs = subst (All (IsJob lib)) (sym queue) jobs.1;
          held = h.held;
          live = λ fine.
              IsLive-eq m.sequence s.sequence r.assigned_sequence s.assigned_sequence
                (events_of rest ++ held_events phase) (waiting phase s)
                (persisted ++ job.event ∷ []) lost t.sequence
                (t.assigned_sequence ∙ f.assigned_sequence)
                (ap (λ x. events_of x ++ held_events phase) queue)
                (IsLive-commit r.sequence m.sequence r.assigned_sequence
                  (events_of rest ++ held_events phase) persisted lost job.event c.sequence l);
        })
