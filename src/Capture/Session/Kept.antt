-- ===== src/Capture/Session/Kept.antt =====
-- The event stream and the count of dropped events of internal/capture/recorder.go in every session
-- that is reached from a fresh one.
use bedrock_debug_proxy.Base.{ℕ, ◌+◌, ◌≡◌, refl, [], String, arith, subst, All}
use bedrock_debug_proxy.Capture.Result.{ok}
use bedrock_debug_proxy.Capture.Library.{Library}
use bedrock_debug_proxy.Capture.Recorder.{Recorder, RecordJob}
use bedrock_debug_proxy.Capture.Recorder.Extends.{
  SameStream, drain_round-counted, add_limitation-SameStream, begin_close-SameStream,
  finish_close-SameStream,
}
use bedrock_debug_proxy.Capture.Recorder.Jobs.{IsJob}
use bedrock_debug_proxy.Capture.Recorder.Queue.{send}
use bedrock_debug_proxy.Capture.Recorder.Reserved.{
  reserve-IsReserved, reserve_err-SameCommits, rollback-SameCommits,
}
use bedrock_debug_proxy.Capture.Recorder.Rounds.{drain_round-Settled}
use bedrock_debug_proxy.Capture.Session.{
  Session, Step, grant, reserves, refuses, sends, rolls_back, writes, drains, exits, syncs, limits,
  loses, closes, closed, Reach, here, next,
}
use bedrock_debug_proxy.Capture.Session.Ledger.{IsOrdered}
use bedrock_debug_proxy.Capture.Session.Order.{
  add_limitation-Quiet, begin_close-Quiet, finish_close-Quiet,
}
use bedrock_debug_proxy.Capture.Session.Queue.{IsAccounted}
use bedrock_debug_proxy.Capture.Session.Stream.{declared_by, declared_losses}
use bedrock_debug_proxy.Capture.Session.Start.{
  session_of, IsFresh, new-IsFresh, new-IsAccounted, Reach-IsAccounted,
}
use bedrock_debug_proxy.Capture.Recorder.New.{NewIo, Options, new}
use bedrock_debug_proxy.Capture.Session.History.{Ordered, Reach-Ordered, Fresh-Ordered}
use bedrock_debug_proxy.Capture.Session.Stream.{stream_end}
use bedrock_debug_proxy.Capture.Session.Written.{
  IsWritten, quiet-IsWritten, commits-IsWritten, drains-IsWritten, loses-IsWritten, write-IsWritten,
  sync-IsWritten,
}

abbrev pub Written : Library → ℕ → Session → Type 0
Written lib declared s = IsWritten lib declared s.recorder s.persisted s.lost

send-SameStream : (job : RecordJob) (r : Recorder) → SameStream r (send job r)
unfolding send
send-SameStream job r = record { events = refl; dropped = refl }

send-failed : (job : RecordJob) (r : Recorder) → (send job r).failed ≡ r.failed
unfolding send
send-failed job r = refl

one_more : (n : ℕ) {k : ℕ} → k ≡ n → k ≡ n + 0
one_more n e = omega (arith, e)

nothing_more : (lib : Library) (n : ℕ) (s : Session) → Written lib n s → Written lib (n + 0) s
nothing_more lib n s w = subst (λ k. Written lib k s) (one_more n refl) w

Step-Written :
    (lib : Library) (n : ℕ) {s t : Session} (step : Step lib s t)
    → IsAccounted s.phase s.recorder
    → IsOrdered lib s.phase s.recorder s.accepted s.persisted s.lost
    → Written lib n s
    → Written lib (n + declared_by step) t
Step-Written lib n {s} {t} (grant rec p checked _) a h w = nothing_more lib n t w
Step-Written lib n {s} {t} (reserves rec now job r p b e) a h w = nothing_more lib n t (
    commits-IsWritten lib n s.persisted s.lost s.recorder r
      (reserve-IsReserved lib now rec job s.recorder r e).same w)
Step-Written lib n {s} {t} (refuses rec now x r p e) a h w = nothing_more lib n t (
    subst (λ y. IsWritten lib n y s.persisted s.lost)
      (reserve_err-SameCommits lib now rec x s.recorder r e) w)
Step-Written lib n {s} {t} (sends job p _) a h w = nothing_more lib n t (
    quiet-IsWritten lib n s.persisted s.lost s.recorder (send job s.recorder)
      (send-SameStream job s.recorder) (send-failed job s.recorder) w)
Step-Written lib n {s} {t} (rolls_back job r p e) a h w = nothing_more lib n t (
    commits-IsWritten lib n s.persisted s.lost s.recorder r
      (rollback-SameCommits job.event.sequence job.bytes s.recorder r e) w)
Step-Written lib n {s} {t} (writes io job rest result r running_now q _ e) a h w =
    let popped = record s.recorder { queue = rest } in
    let jobs = subst (All (IsJob lib)) q h.jobs in
    nothing_more lib n t (
      write-IsWritten lib n s.persisted s.lost io job result popped r jobs.0 h.honest e (
        quiet-IsWritten lib n s.persisted s.lost s.recorder popped
          (record { events = refl; dropped = refl }) refl w))
Step-Written lib n {s} {t} (drains job rest r d q e) a h w =
    let popped = record s.recorder { queue = rest } in
    let settled = drain_round-Settled job popped r e in
    nothing_more lib n t (
      drains-IsWritten lib n s.persisted s.lost job.event s.recorder r settled.disk settled.failed
        (drain_round-counted job popped r e) w)
Step-Written lib n {s} {t} (exits _) a h w = nothing_more lib n t (
    quiet-IsWritten lib n s.persisted s.lost s.recorder _ (record { events = refl; dropped = refl })
      refl w)
Step-Written lib n {s} {t} (syncs io now marshals live event raw size mt rep result r p i b m e) a h
      w =
    nothing_more lib n t (
      sync-IsWritten lib n s.persisted s.lost io now marshals live event raw size mt rep result
        s.recorder r s.accepted (subst (λ x. IsAccounted x s.recorder) p a)
        (subst (λ x. IsOrdered lib x s.recorder s.accepted s.persisted s.lost) p h) i m e w)
Step-Written lib n {s} {t} (limits text) a h w = nothing_more lib n t (
    quiet-IsWritten lib n s.persisted s.lost s.recorder _
      (add_limitation-SameStream lib text s.recorder)
      (add_limitation-Quiet lib text s.recorder).failed w)
Step-Written lib n {s} {t} (loses dropped truncated reason) a h w =
    loses-IsWritten lib n s.persisted s.lost dropped truncated reason s.recorder w
Step-Written lib n {s} {t} (closes r p e) a h w = nothing_more lib n t (
    quiet-IsWritten lib n s.persisted s.lost s.recorder r (begin_close-SameStream s.recorder r e)
      (begin_close-Quiet s.recorder r e).failed w)
Step-Written lib n {s} {t} (closed message io now status cause p _) a h w = nothing_more lib n t (
    quiet-IsWritten lib n s.persisted s.lost s.recorder _
      (finish_close-SameStream lib message io now status cause s.recorder)
      (finish_close-Quiet lib message io now status cause s.recorder).failed w)

Reach-Written :
    (lib : Library) {s t : Session} (path : Reach lib s t)
    → IsAccounted s.phase s.recorder
    → Ordered lib s
    → Written lib 0 s
    → Written lib (declared_losses path) t
Reach-Written lib here a h w = w
Reach-Written lib (next path step) a h w =
    Step-Written lib (declared_losses path) step (Reach-IsAccounted lib a path)
      (Reach-Ordered lib a h path) (Reach-Written lib path a h w)

Fresh-Written : (lib : Library) (r : Recorder) → IsFresh r → Written lib 0 (session_of r)
Fresh-Written lib r f = record {
  disk = record {
    whole = [];
    rest = [];
    lines = stream_end;
    events = f.events;
    all_of_it = λ _. refl;
  };
  dropped = f.dropped;
}

pub reached-Written :
    (lib : Library) (io : NewIo) (root : String) (options : Options) (now : ℕ) (r : Recorder)
    (t : Session)
    → new lib io root options now ≡ ok r
    → (path : Reach lib (session_of r) t) → Written lib (declared_losses path) t
reached-Written lib io root options now r t e path =
    let f = new-IsFresh lib io root options now r e in
    Reach-Written lib path (new-IsAccounted r f) (Fresh-Ordered lib r f) (Fresh-Written lib r f)
