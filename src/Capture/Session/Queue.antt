-- ===== src/Capture/Session/Queue.antt =====
-- The queue's accounting: what is pending, how much memory it takes, and the `idle` channel.
use bedrock_debug_proxy.Base.{
  ℕ, ◌+◌, ◌≤◌, ◌<◌, ◌≡◌, ◌≢◌, ◌⊎◌, inl, inr, List, [], ◌∷◌, ◌++◌, none, some, true, length,
  length-append, arith, ap, Option-cases, subst, some_eq, ◌==◌,
}
use bedrock_debug_proxy.Capture.Schema.{Event, Record}
use bedrock_debug_proxy.Capture.Result.{Error, Result, ok, err}
use bedrock_debug_proxy.Capture.Library.{Library}
use bedrock_debug_proxy.Capture.Recorder.{
  Recorder, RecordJob, complete_pending, mark_dropped, draining,
}
use bedrock_debug_proxy.Capture.Recorder.Frame.{
  SameCounters, SameQueue, SameQueue-refl, SameQueue-SameCounters, attempt_job-SameQueue,
  record_sync-SameCounters, add_limitation-SameQueue, add_loss-SameQueue, finish_close-SameCounters,
}
use bedrock_debug_proxy.Capture.Recorder.Append.{JobIo}
use bedrock_debug_proxy.Capture.Recorder.Queue.{
  ready, wait_for_queue_space, reserve, send, rollback_enqueue,
}
use bedrock_debug_proxy.Capture.Recorder.Writer.{attempt_job, run_round, settle_job, drain_round}
use bedrock_debug_proxy.Capture.Recorder.Close.{begin_close}
use bedrock_debug_proxy.Capture.Session.{
  Session, Phase, free, granted, holding, closing, Step, grant, reserves, refuses, sends,
  rolls_back, writes, drains, exits, syncs, limits, loses, closes, closed, raw_length,
}

abbrev pub sum_bytes : List RecordJob → ℕ
sum_bytes [] = 0
sum_bytes (job ∷ jobs) = job.bytes + sum_bytes jobs

sum_bytes-append : (xs ys : List RecordJob) → sum_bytes (xs ++ ys) ≡ sum_bytes xs + sum_bytes ys
sum_bytes-append [] ys = omega arith
sum_bytes-append (x ∷ xs) ys = omega (arith, sum_bytes-append xs ys)

-- What the holder of `enqueueMu` has reserved.
abbrev pub held_count : Phase → ℕ
held_count (holding job) = 1
held_count _ = 0

abbrev pub held_bytes : Phase → ℕ
held_bytes (holding job) = job.bytes
held_bytes _ = 0

-- Room for the record that was granted.
abbrev pub HasRoom : Phase → Recorder → Type 0
HasRoom (granted rec) r =
    (r.pending < r.queue_capacity)
    × ((r.pending_bytes + raw_length rec ≤ r.queue_byte_limit) ⊎ (r.pending ≡ 0))
HasRoom _ r = Unit {0}

-- Over the recorder and the phase alone.
pub record IsAccounted (phase : Phase) (r : Recorder) : Type 0 where
  pub pending_exact : r.pending ≡ length r.queue + held_count phase
  pub bytes_exact : r.pending_bytes ≡ sum_bytes r.queue + held_bytes phase
  pub in_capacity : r.pending ≤ r.queue_capacity
  pub in_budget : (r.pending_bytes ≤ r.queue_byte_limit) ⊎ (r.pending ≤ 1)
  pub idle_exact : r.idle_closed ≡ (r.pending == 0)
  pub has_room : HasRoom phase r

reserve-IsAccounted :
    (lib : Library) (now : ℕ) (rec : Record) (job : RecordJob) (r r' : Recorder)
    → reserve lib now rec r ≡ (ok job, r')
    → IsAccounted (granted rec) r
    → IsAccounted (holding job) r'
unfolding reserve
reserve-IsAccounted lib now rec job r r' e h = ground arith

send-IsAccounted :
    (job : RecordJob) (r : Recorder) → IsAccounted (holding job) r → IsAccounted free (send job r)
unfolding send
send-IsAccounted job r h =
    ground (arith, sum_bytes-append r.queue (job ∷ []), length-append r.queue (job ∷ []))

rollback-IsAccounted :
    (job : RecordJob) (n : ℕ) (r r' : Recorder)
    → rollback_enqueue n job.bytes r ≡ some r'
    → IsAccounted (holding job) r
    → IsAccounted free r'
unfolding rollback_enqueue complete_pending
rollback-IsAccounted job n r r' e h = ground arith

-- The recorder with the job that the writer holds put back.
abbrev pub put_back : RecordJob → Recorder → Recorder
put_back job r = record r { queue = job ∷ r.queue }

complete-IsAccounted :
    (phase : Phase) (job : RecordJob) (r r' : Recorder)
    → IsAccounted phase (put_back job r)
    → complete_pending job.bytes r ≡ some r'
    → IsAccounted phase r'
unfolding complete_pending
complete-IsAccounted free job r r' h e = ground arith
complete-IsAccounted (granted rec) job r r' h e = ground arith
complete-IsAccounted (holding other) job r r' h e = ground arith
complete-IsAccounted closing job r r' h e = ground arith

pub complete-ne-none :
    (phase : Phase) (job : RecordJob) (r : Recorder)
    → IsAccounted phase (put_back job r)
    → complete_pending job.bytes r ≢ none
unfolding complete_pending
complete-ne-none phase job r h = ground arith

-- The accounting depends on the queue's counters only.
IsAccounted-SameCounters :
    (phase : Phase) (r s : Recorder) → SameCounters r s → IsAccounted phase r → IsAccounted phase s
IsAccounted-SameCounters free r s f h = ground arith
IsAccounted-SameCounters (granted rec) r s f h = ground arith
IsAccounted-SameCounters (holding job) r s f h = ground arith
IsAccounted-SameCounters closing r s f h = ground arith

IsAccounted-SameQueue :
    (phase : Phase) (r s : Recorder) → SameQueue r s → IsAccounted phase r → IsAccounted phase s
IsAccounted-SameQueue phase r s f h =
    IsAccounted-SameCounters phase r s (SameQueue-SameCounters r s f) h

pub received-IsAccounted :
    (phase : Phase) (job : RecordJob) (rest : List RecordJob) (r s : Recorder)
    → r.queue ≡ job ∷ rest
    → SameQueue (record r { queue = rest }) s
    → IsAccounted phase r
    → IsAccounted phase (put_back job s)
received-IsAccounted phase job rest r s e f h =
    IsAccounted-SameQueue phase r (put_back job s)
      (record {
        queue = ground arith;
        queue_capacity = f.queue_capacity;
        queue_byte_limit = f.queue_byte_limit;
        queue_closed = f.queue_closed;
        pending = f.pending;
        pending_bytes = f.pending_bytes;
        idle_closed = f.idle_closed;
        assigned_sequence = f.assigned_sequence;
        is_closed = f.is_closed;
        writer = f.writer;
        capture_id = f.capture_id;
      })
      h

pub drop-IsAccounted :
    (phase : Phase) (job : RecordJob) (r : Recorder)
    → IsAccounted phase (put_back job r)
    → IsAccounted phase (put_back job (mark_dropped r))
drop-IsAccounted phase job r h =
    IsAccounted-SameQueue phase (put_back job r) (put_back job (mark_dropped r))
      (unfold mark_dropped in ground arith) h

drain-IsAccounted :
    (phase : Phase) (job : RecordJob) (r r' : Recorder)
    → IsAccounted phase (put_back job r)
    → drain_round job r ≡ some r'
    → IsAccounted phase r'
unfolding drain_round
drain-IsAccounted phase job r r' h e =
    complete-IsAccounted phase job (mark_dropped r) r' (drop-IsAccounted phase job r h) e

settle-IsAccounted :
    (phase : Phase) (job : RecordJob) (r r' : Recorder)
    → IsAccounted phase (put_back job r)
    → settle_job job r ≡ some r'
    → IsAccounted phase r'
unfolding settle_job
settle-IsAccounted phase job r r' h e = elim (Option-cases r.failed) [
  | inl fine ↦ complete-IsAccounted phase job r r' h (rw (fine, settle_job) at e)
  | inr (x, bad) ↦ elim (Option-cases (complete_pending job.bytes (mark_dropped r))) [
    | inl panic ↦ absurd (complete-ne-none phase job _ (drop-IsAccounted phase job r h) panic)
    | inr (r1, fine) ↦
        let stopped =
          IsAccounted-SameCounters phase r1 (record r1 { writer_stopped = true; writer = draining })
            (ground arith)
            (complete-IsAccounted phase job _ r1 (drop-IsAccounted phase job r h) fine) in
        let same = some_eq _ r' (rw (bad, fine, settle_job) at e) in
        subst (IsAccounted phase) same stopped
  ]
]

grant-IsAccounted :
    (rec : Record) (r : Recorder)
    → wait_for_queue_space (raw_length rec) r ≡ ready
    → IsAccounted free r
    → IsAccounted (granted rec) r
unfolding wait_for_queue_space
grant-IsAccounted rec r e h = ground arith

refuse-IsAccounted :
    (lib : Library) (now : ℕ) (rec : Record) (x : Error) (r r' : Recorder)
    → reserve lib now rec r ≡ (err x, r')
    → IsAccounted (granted rec) r
    → IsAccounted free r'
unfolding reserve
refuse-IsAccounted lib now rec x r r' e h = ground arith

write-IsAccounted :
    (lib : Library) (io : JobIo) (phase : Phase) (job : RecordJob) (rest : List RecordJob)
    (result : Result Event) (r r' : Recorder)
    → r.queue ≡ job ∷ rest
    → run_round lib io job (record r { queue = rest }) ≡ (result, some r')
    → IsAccounted phase r
    → IsAccounted phase r'
unfolding run_round
write-IsAccounted lib io phase job rest result r r' e run h =
    let popped = record r { queue = rest } in
    let attempted = (attempt_job lib io job popped).1 in
    settle-IsAccounted phase job attempted r'
      (received-IsAccounted phase job rest r attempted e (attempt_job-SameQueue lib io job popped)
        h)
      (ap (λ p. p.1) run)

free-closing : (r : Recorder) → IsAccounted free r → IsAccounted closing r
free-closing r h = ground arith

closing-free : (r : Recorder) → IsAccounted closing r → IsAccounted free r
closing-free r h = ground arith

-- Every step keeps the accounting.
pub Step-IsAccounted :
    (lib : Library) {s t : Session}
    → Step lib s t
    → IsAccounted s.phase s.recorder
    → IsAccounted t.phase t.recorder
Step-IsAccounted lib {s} (grant rec p _ e) h =
    grant-IsAccounted rec s.recorder e (subst (λ x. IsAccounted x s.recorder) p h)
Step-IsAccounted lib {s} (reserves rec now job r p _ e) h =
    reserve-IsAccounted lib now rec job s.recorder r e (subst (λ x. IsAccounted x s.recorder) p h)
Step-IsAccounted lib {s} (refuses rec now x r p e) h =
    refuse-IsAccounted lib now rec x s.recorder r e (subst (λ x. IsAccounted x s.recorder) p h)
Step-IsAccounted lib {s} (sends job p _) h =
    send-IsAccounted job s.recorder (subst (λ x. IsAccounted x s.recorder) p h)
Step-IsAccounted lib {s} (rolls_back job r p e) h =
    rollback-IsAccounted job job.event.sequence s.recorder r e
      (subst (λ x. IsAccounted x s.recorder) p h)
Step-IsAccounted lib {s} (writes io job rest result r _ q _ e) h =
    write-IsAccounted lib io s.phase job rest result s.recorder r q e h
Step-IsAccounted lib {s} (drains job rest r _ q e) h =
    drain-IsAccounted s.phase job (record s.recorder { queue = rest }) r
      (received-IsAccounted s.phase job rest s.recorder _ q (SameQueue-refl _) h) e
Step-IsAccounted lib {s} (exits _) h =
    IsAccounted-SameCounters s.phase s.recorder _ (ground arith) h
Step-IsAccounted lib {s} (syncs io now marshals live event raw size mt rep result r _ _ _ _ e) h =
    IsAccounted-SameCounters s.phase s.recorder r
      (subst (λ p. SameCounters s.recorder p.1) e
        (record_sync-SameCounters lib io now marshals live event raw size mt rep s.recorder))
      h
Step-IsAccounted lib {s} (limits text) h =
    IsAccounted-SameQueue s.phase s.recorder _ (add_limitation-SameQueue lib text s.recorder) h
Step-IsAccounted lib {s} (loses d t reason) h =
    IsAccounted-SameQueue s.phase s.recorder _ (add_loss-SameQueue d t reason s.recorder) h
Step-IsAccounted lib {s} (closes r p e) h =
    IsAccounted-SameCounters closing s.recorder r (unfold begin_close in ground arith)
      (free-closing s.recorder (subst (λ x. IsAccounted x s.recorder) p h))
Step-IsAccounted lib {s} (closed message io now status cause p _) h =
    IsAccounted-SameCounters free s.recorder _
      (finish_close-SameCounters lib message io now status cause s.recorder)
      (closing-free s.recorder (subst (λ x. IsAccounted x s.recorder) p h))
