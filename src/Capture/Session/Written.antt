-- ===== src/Capture/Session/Written.antt =====
-- Every step of a session of internal/capture/recorder.go keeps the event stream and the count of
-- dropped events in agreement with what is persisted and lost.
use bedrock_debug_proxy.Base.{
  ℕ, ◌+◌, ◌%◌, ◌≡◌, ◌≢◌, refl, sym, ap, ◌∙◌, List, [], ◌∷◌, ◌++◌, Option, none, some, Bool, true,
  false, Bytes, ℤ, String, length, length-append, arith, subst, if◌then◌else◌,
}
use bedrock_debug_proxy.Capture.Schema.{Event}
use bedrock_debug_proxy.Capture.Result.{Result, ok, err}
use bedrock_debug_proxy.Capture.Library.{Library}
use bedrock_debug_proxy.Capture.Recorder.{
  Recorder, RecordJob, u64, inc64, add64, add_loss, prepare_event,
}
use bedrock_debug_proxy.Capture.Recorder.Append.{JobIo, record_sync, sync_prepared}
use bedrock_debug_proxy.Capture.Recorder.Extends.{
  SameStream, Extends, attempt_job-Extends, sync_prepared-Extends, settle_job-counted,
  settle_job-uncounted, add_loss-events, add_loss-counted, add_loss-refused,
}
use bedrock_debug_proxy.Capture.Recorder.Frame.{assign, record_sync_cases, SyncAllowed}
use bedrock_debug_proxy.Capture.Disk.{Disk}
use bedrock_debug_proxy.Capture.Recorder.Jobs.{IsJob, sync_prepared-ok}
use bedrock_debug_proxy.Capture.Recorder.Queue.{ready, wait_for_idle}
use bedrock_debug_proxy.Capture.Recorder.Reserved.{SameCommits}
use bedrock_debug_proxy.Capture.Recorder.Rounds.{
  settle_job-Settled, attempt_job-ok, attempt_job-err,
}
use bedrock_debug_proxy.Capture.Recorder.Syncs.{prepare_event-IsPrepared, sync_prepared-err}
use bedrock_debug_proxy.Capture.Recorder.Writer.{attempt_job, run_round, settle_job}
use bedrock_debug_proxy.Capture.Session.{keep_ok, keep_err, free}
use bedrock_debug_proxy.Capture.Session.Ledger.{IsOrdered}
use bedrock_debug_proxy.Capture.Session.Order.{add_loss-Quiet}
use bedrock_debug_proxy.Capture.Session.Queue.{IsAccounted}
use bedrock_debug_proxy.Capture.Session.Stream.{
  IsOnDisk, SameStream-IsOnDisk, failed-IsOnDisk, committed-IsOnDisk,
}
use bedrock_debug_proxy.Capture.Session.Sync.{wait_for_idle-empty, assigned-committed}

-- `declared` is what callers declared as dropped.
pub record IsWritten (lib : Library) (declared : ℕ) (r : Recorder) (persisted lost : List Event)
    : Type 0 where
  pub disk : IsOnDisk lib persisted r
  pub dropped : r.manifest.counts.dropped ≡ (declared + length lost) % u64

module _ (lib : Library) (n : ℕ) (persisted lost : List Event) where
  pub quiet-IsWritten :
      (r s : Recorder)
      → SameStream r s
      → s.failed ≡ r.failed
      → IsWritten lib n r persisted lost
      → IsWritten lib n s persisted lost
  quiet-IsWritten r s f failed w = record {
    disk = SameStream-IsOnDisk lib persisted r s f.events failed w.disk;
    dropped = f.dropped ∙ w.dropped;
  }

  pub commits-IsWritten :
      (r s : Recorder)
      → SameCommits r s
      → IsWritten lib n r persisted lost
      → IsWritten lib n s persisted lost
  commits-IsWritten r s c w =
      quiet-IsWritten r s
        (record {
          events = ap (λ (d : Disk). d.events) c.disk;
          dropped = ground (arith, c.manifest);
        })
        c.failed w

  lost_one :
      (event : Event) (r s : Recorder)
      → s.manifest.counts.dropped ≡ inc64 r.manifest.counts.dropped
      → IsWritten lib n r persisted lost
      → s.manifest.counts.dropped ≡ (n + length (lost ++ event ∷ [])) % u64
  unfolding inc64
  lost_one event r s counted w = omega (arith, counted, w.dropped, length-append lost (event ∷ []))

  pub drains-IsWritten :
      (event : Event) (r s : Recorder)
      → s.disk ≡ r.disk
      → s.failed ≡ r.failed
      → s.manifest.counts.dropped ≡ inc64 r.manifest.counts.dropped
      → IsWritten lib n r persisted lost
      → IsWritten lib n s persisted (lost ++ event ∷ [])
  drains-IsWritten event r s same failed counted w = record {
    disk = SameStream-IsOnDisk lib persisted r s (ap (λ (d : Disk). d.events) same) failed w.disk;
    dropped = lost_one event r s counted w;
  }

  pub loses-IsWritten :
      (dropped truncated : ℕ) (reason : String) (r : Recorder)
      → IsWritten lib n r persisted lost
      → IsWritten lib
          (n + (if r.is_closed then 0 else dropped))
          (add_loss dropped truncated reason r).1
          persisted
          lost
  unfolding add64
  loses-IsWritten dropped truncated reason r w = record {
    disk =
        SameStream-IsOnDisk lib persisted r _ (add_loss-events dropped truncated reason r)
          (add_loss-Quiet dropped truncated reason r).failed w.disk;
    dropped = by_state r.is_closed refl;
  }
    where
      by_state :
          (shut : Bool)
          → r.is_closed ≡ shut
          → (add_loss dropped truncated reason r).1.manifest.counts.dropped
            ≡ (n + (if shut then 0 else dropped) + length lost) % u64
      by_state true e = omega (arith, add_loss-refused dropped truncated reason r e, w.dropped)
      by_state false e = omega (arith, add_loss-counted dropped truncated reason r e, w.dropped)

  pub write-IsWritten :
      (io : JobIo) (job : RecordJob) (result : Result Event) (r s : Recorder)
      → IsJob lib job
      → (r.manifest.completeness.complete ≡ true → r.failed ≡ none)
      → run_round lib io job r ≡ (result, some s)
      → IsWritten lib n r persisted lost
      → IsWritten lib n s (keep_ok result persisted) (keep_err job.event result lost)
  unfolding run_round
  write-IsWritten io job result r s is_job honest e w = go result (ap (λ p. p.0) e)
    where
      m : Recorder
      m = (attempt_job lib io job r).1

      settled : settle_job job m ≡ some s
      settled = ap (λ p. p.1) e

      go :
          (x : Result Event)
          → (attempt_job lib io job r).0 ≡ x
          → IsWritten lib n s (keep_ok x persisted) (keep_err job.event x lost)
      go (ok v) is =
          let (fine, same, _, c) = attempt_job-ok lib io job v r m is_job (ap (λ y. (y, m)) is) in
          let t = settle_job-Settled job m s settled in
          let x = attempt_job-Extends lib io job r in
          record {
            disk =
                committed-IsOnDisk lib persisted v r s c.line
                  (ap lib.marshal_event same ∙ c.encodes)
                  (ap (λ (d : Disk). d.events) t.disk ∙ c.events) fine w.disk;
            dropped =
                settle_job-uncounted job m s settled (c.failed ∙ fine) ∙ x.dropped ∙ w.dropped;
          }
      go (err y) is =
          let bad = attempt_job-err lib io job y r m honest (ap (λ z. (z, m)) is) in
          let t = settle_job-Settled job m s settled in
          let x = attempt_job-Extends lib io job r in
          record {
            disk =
                failed-IsOnDisk lib persisted r s x.more
                  (ap (λ (d : Disk). d.events) t.disk ∙ x.events)
                  (λ fine. bad.0 (sym t.failed ∙ fine)) w.disk;
            dropped =
                lost_one job.event r s
                  (settle_job-counted job m s settled bad.0 ∙ ap inc64 x.dropped) w;
          }

  pub sync-IsWritten :
      (io : JobIo) (now : ℕ) (marshals live : Bool) (event : Event) (raw : Option Bytes) (size : ℤ)
      (mt rep : String) (result : Result Event) (r s : Recorder) (accepted : List Event)
      → IsAccounted free r
      → IsOrdered lib free r accepted persisted lost
      → wait_for_idle r ≡ ready
      → (marshals ≡ true → (e : Event) → e.payload ≡ event.payload → lib.marshal_event e ≢ none)
      → record_sync lib io now marshals live event raw size mt rep r ≡ (result, s)
      → IsWritten lib n r persisted lost
      → IsWritten lib n s (keep_ok result persisted) lost
  sync-IsWritten io now marshals live event raw size mt rep result r s accepted a h idle encodes e
        w =
      subst P e
        (record_sync_cases P lib io now marshals live event raw size mt rep r (λ x. w) prepared-P)
    where
      P : Result Event × Recorder → Type 0
      P p = IsWritten lib n p.1 (keep_ok p.0 persisted) lost

      prepared-P :
          (prepared : Event)
          → prepare_event lib now r event ≡ ok prepared
          → SyncAllowed marshals event r
          → P (sync_prepared lib io raw size mt rep (ok prepared) r)
      prepared-P prepared is allowed =
          go (sync_prepared lib io raw size mt rep (ok prepared) r).0 refl
        where
          t : Recorder
          t = (sync_prepared lib io raw size mt rep (ok prepared) r).1

          x : Extends (assign prepared r) t
          x = sync_prepared-Extends lib io raw size mt rep prepared r

          go :
              (y : Result Event)
              → (sync_prepared lib io raw size mt rep (ok prepared) r).0 ≡ y
              → IsWritten lib n t (keep_ok y persisted) lost
          go (ok v) k =
              let p = prepare_event-IsPrepared lib now r event prepared is in
              let (_, _, c) =
                sync_prepared-ok lib io raw size mt rep prepared v r t (p.blob ∙ allowed.no_blob)
                  (ap (λ z. (z, t)) k) in
              record {
                disk =
                    committed-IsOnDisk lib persisted v r t c.line c.encodes c.events allowed.sound
                      w.disk;
                dropped = x.dropped ∙ w.dropped;
              }
          go (err y) k =
              let p = prepare_event-IsPrepared lib now r event prepared is in
              let empty = wait_for_idle-empty r a idle in
              let last = assigned-committed lib accepted persisted lost r empty allowed.sound h in
              let broken =
                sync_prepared-err lib io raw size mt rep prepared y r t (p.sequence ∙ ap inc64 last)
                  (λ z same. encodes allowed.encodes z (same ∙ p.payload)) (ap (λ z. (z, t)) k) in
              record {
                disk = failed-IsOnDisk lib persisted r t x.more x.events broken w.disk;
                dropped = x.dropped ∙ w.dropped;
              }
