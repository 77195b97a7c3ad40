-- ===== src/Capture/Session/History.antt =====
-- Every step of a session keeps the order of events.
use bedrock_debug_proxy.Base.{ℕ, ◌≡◌, refl, sym, subst, arith, String}
use bedrock_debug_proxy.Capture.Result.{ok}
use bedrock_debug_proxy.Capture.Library.{Library}
use bedrock_debug_proxy.Capture.Recorder.{Recorder}
use bedrock_debug_proxy.Capture.Recorder.Reserved.{check_record-blob, reserve_err-SameCommits}
use bedrock_debug_proxy.Capture.Recorder.New.{NewIo, Options, new}
use bedrock_debug_proxy.Capture.Session.{
  Session, Phase, free, granted, holding, closing, Step, grant, reserves, refuses, sends,
  rolls_back, writes, drains, exits, syncs, limits, loses, closes, closed, Reach, here, next,
  keep_ok,
}
use bedrock_debug_proxy.Capture.Session.Queue.{IsAccounted}
use bedrock_debug_proxy.Capture.Session.Start.{
  session_of, IsFresh, new-IsFresh, new-IsAccounted, Reach-IsAccounted,
}
use bedrock_debug_proxy.Capture.Session.Ledger.{
  IsOrdered, reserve-IsOrdered, rollback-IsOrdered, send-IsOrdered,
}
use bedrock_debug_proxy.Capture.Session.Order.{
  Quiet, done-Quiet, Quiet-IsOrdered, drop-IsOrdered, write-IsOrdered, add_limitation-Quiet,
  add_loss-Quiet, begin_close-Quiet, finish_close-Quiet,
}
use bedrock_debug_proxy.Capture.Session.Sync.{sync-IsOrdered}

abbrev pub Ordered : Library → Session → Type 0
Ordered lib s = IsOrdered lib s.phase s.recorder s.accepted s.persisted s.lost

at_phase :
    (lib : Library) (s : Session) (p : Phase)
    → s.phase ≡ p
    → Ordered lib s
    → IsOrdered lib p s.recorder s.accepted s.persisted s.lost
at_phase lib s p e h = subst (λ x. IsOrdered lib x s.recorder s.accepted s.persisted s.lost) e h

Quiet-refl : (r : Recorder) → Quiet r r
Quiet-refl r = ground arith

Step-Ordered :
    (lib : Library) {s t : Session}
    → Step lib s t
    → IsAccounted s.phase s.recorder
    → Ordered lib s
    → Ordered lib t
Step-Ordered lib {s} (grant rec p checked _) a h =
    Quiet-IsOrdered lib s.accepted s.persisted s.lost free (granted rec) s.recorder s.recorder
      (Quiet-refl s.recorder) refl (check_record-blob lib rec.event checked)
      (at_phase lib s free p h)
Step-Ordered lib {s} (reserves rec now job r p b e) a h =
    reserve-IsOrdered lib s.accepted s.persisted s.lost rec now job s.recorder r e b
      (at_phase lib s (granted rec) p h)
Step-Ordered lib {s} (refuses rec now x r p e) a h =
    Quiet-IsOrdered lib s.accepted s.persisted s.lost (granted rec) free s.recorder r
      (subst (Quiet s.recorder) (reserve_err-SameCommits lib now rec x s.recorder r e)
        (Quiet-refl s.recorder))
      refl tt (at_phase lib s (granted rec) p h)
Step-Ordered lib {s} (sends job p _) a h =
    send-IsOrdered lib job s.recorder s.accepted s.persisted s.lost
      (at_phase lib s (holding job) p h)
Step-Ordered lib {s} (rolls_back job r p e) a h =
    rollback-IsOrdered lib s.accepted s.persisted s.lost job s.recorder r e
      (at_phase lib s (holding job) p h)
Step-Ordered lib {s} (writes io job rest result r w q _ e) a h =
    write-IsOrdered lib io s.phase job rest result s.recorder r s.accepted s.persisted s.lost q w e
      h
Step-Ordered lib {s} (drains job rest r d q e) a h =
    drop-IsOrdered lib s.accepted s.persisted s.lost s.phase job rest s.recorder r q d e h
Step-Ordered lib {s} (exits _) a h =
    Quiet-IsOrdered lib s.accepted s.persisted s.lost s.phase s.phase s.recorder _
      (done-Quiet s.recorder) refl h.held h
Step-Ordered lib {s} (syncs io now marshals live event raw size mt rep result r p i b m e) a h =
    subst (λ x. IsOrdered lib x r (keep_ok result s.accepted) (keep_ok result s.persisted) s.lost)
      (sym p)
      (sync-IsOrdered lib io now marshals live event raw size mt rep result s.recorder r s.accepted
        s.persisted s.lost (subst (λ x. IsAccounted x s.recorder) p a) i b m e
        (at_phase lib s free p h))
Step-Ordered lib {s} (limits text) a h =
    Quiet-IsOrdered lib s.accepted s.persisted s.lost s.phase s.phase s.recorder _
      (add_limitation-Quiet lib text s.recorder) refl h.held h
Step-Ordered lib {s} (loses d t reason) a h =
    Quiet-IsOrdered lib s.accepted s.persisted s.lost s.phase s.phase s.recorder _
      (add_loss-Quiet d t reason s.recorder) refl h.held h
Step-Ordered lib {s} (closes r p e) a h =
    Quiet-IsOrdered lib s.accepted s.persisted s.lost free closing s.recorder r
      (begin_close-Quiet s.recorder r e) refl tt (at_phase lib s free p h)
Step-Ordered lib {s} (closed message io now status cause p _) a h =
    Quiet-IsOrdered lib s.accepted s.persisted s.lost closing free s.recorder _
      (finish_close-Quiet lib message io now status cause s.recorder) refl tt
      (at_phase lib s closing p h)

pub Reach-Ordered :
    (lib : Library) {s t : Session}
    → IsAccounted s.phase s.recorder
    → Ordered lib s
    → Reach lib s t
    → Ordered lib t
Reach-Ordered lib a h here = h
Reach-Ordered lib a h (next r st) =
    Step-Ordered lib st (Reach-IsAccounted lib a r) (Reach-Ordered lib a h r)

pub Fresh-Ordered : (lib : Library) (r : Recorder) → IsFresh r → Ordered lib (session_of r)
Fresh-Ordered lib r f = ground arith

-- Of every session that starts with `New`.
pub record Sound (lib : Library) (s : Session) : Type 0 where
  pub accounted : IsAccounted s.phase s.recorder
  pub ordered : Ordered lib s

pub reached-Sound :
    (lib : Library) (io : NewIo) (root : String) (options : Options) (now : ℕ) (r : Recorder)
    (t : Session)
    → new lib io root options now ≡ ok r
    → Reach lib (session_of r) t
    → Sound lib t
reached-Sound lib io root options now r t e path =
    let f = new-IsFresh lib io root options now r e in
    let a = new-IsAccounted r f in
    record {
      accounted = Reach-IsAccounted lib a path;
      ordered = Reach-Ordered lib a (Fresh-Ordered lib r f) path;
    }
