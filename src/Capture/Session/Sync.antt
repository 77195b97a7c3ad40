-- ===== src/Capture/Session/Sync.antt =====
-- `RecordReader` in a session: it writes behind everything that was accepted.
use bedrock_debug_proxy.Base.{
  ℕ, ◌+◌, ◌<◌, ◌≡◌, ◌≢◌, refl, sym, ap, ◌∙◌, String, List, [], ◌∷◌, ◌++◌, Option, none, Bool, true,
  Bytes, ℤ, length, append-nil, arith, All, subst,
}
use bedrock_debug_proxy.Capture.Schema.{Event}
use bedrock_debug_proxy.Capture.Result.{Result, ok, err}
use bedrock_debug_proxy.Capture.Library.{Library}
use bedrock_debug_proxy.Capture.Recorder.{Recorder, RecordJob, u64, inc64}
use bedrock_debug_proxy.Capture.Recorder.Append.{JobIo, record_sync, sync_prepared}
use bedrock_debug_proxy.Capture.Recorder.Queue.{ready, wait_for_idle}
use bedrock_debug_proxy.Capture.Recorder.Commit.{Committed}
use bedrock_debug_proxy.Capture.Recorder.Frame.{
  SameQueue, sync_prepared-SameQueue, record_sync_cases, assign,
}
use bedrock_debug_proxy.Capture.Recorder.Jobs.{IsJob, sync_prepared-ok}
use bedrock_debug_proxy.Capture.Recorder.Rounds.{IsHonest}
use bedrock_debug_proxy.Capture.Recorder.Syncs.{
  prepare_event-IsPrepared, sync_prepared-err, sync_prepared-IsHonest,
}
use bedrock_debug_proxy.Capture.Session.{free, keep_ok}
use bedrock_debug_proxy.Capture.Session.Numbers.{
  events_of, Consecutive-append, IsLive-eq, IsLive-assign, IsLive-commit,
}
use bedrock_debug_proxy.Capture.Session.Queue.{IsAccounted}
use bedrock_debug_proxy.Capture.Session.Ledger.{waiting, IsOrdered}

-- Nothing is queued when `waitForIdle` returns.
pub wait_for_idle-empty :
    (r : Recorder) → IsAccounted free r → wait_for_idle r ≡ ready → r.queue ≡ []
unfolding wait_for_idle
wait_for_idle-empty r h e = empty r.queue (ground (arith, h.pending_exact))
  where
    empty : (jobs : List RecordJob) → length jobs ≡ 0 → jobs ≡ []
    empty [] _ = refl
    empty (job ∷ jobs) bad = absurd (omega (arith, bad))

module _ (lib : Library) (accepted persisted lost : List Event) (r s : Recorder) where
  -- An event that is written at once: accepted and persisted in one step.
  sync_ok-IsOrdered :
      (prepared e : Event)
      → r.queue ≡ []
      → r.failed ≡ none
      → r.assigned_sequence + 1 < u64
      → prepared.sequence ≡ inc64 r.assigned_sequence
      → e.sequence ≡ prepared.sequence
      → SameQueue (assign prepared r) s
      → Committed lib e (assign prepared r) s
      → IsOrdered lib free r accepted persisted lost
      → IsOrdered lib free s (accepted ++ e ∷ []) (persisted ++ e ∷ []) lost
  sync_ok-IsOrdered prepared e empty sound b p is f c h =
      let l =
        IsLive-eq r.sequence r.sequence r.assigned_sequence r.assigned_sequence (waiting free r) []
          persisted lost refl refl (ap (λ x. events_of x ++ []) (sym empty)) (h.live sound) in
      let numbered =
        IsLive-assign r.sequence r.assigned_sequence [] persisted lost e (is ∙ p) b l in
      let written =
        IsLive-commit r.sequence s.sequence e.sequence [] persisted lost e c.sequence numbered in
      record {
        split =
            ap (λ x. x ++ e ∷ [])
              (h.split
                ∙ ap (λ x. persisted ++ (x ++ events_of r.queue)) l.nothing_lost
                ∙ ap (λ x. persisted ++ events_of x) empty
                ∙ append-nil persisted)
            ∙ sym (append-nil (persisted ++ e ∷ []))
            ∙ ap (λ x. (persisted ++ e ∷ []) ++ events_of x) (sym (f.queue ∙ empty))
            ∙ ap (λ x. (persisted ++ e ∷ []) ++ (x ++ events_of s.queue)) (sym l.nothing_lost);
        consecutive =
            Consecutive-append 0 r.sequence persisted (e ∷ []) (omega (arith, l.committed))
              h.consecutive (numbered.queued.0, tt);
        honest = λ complete. c.failed ∙ sound;
        drains_failed = λ d. absurd (h.drains_failed (sym f.writer ∙ d) sound);
        jobs = subst (All (IsJob lib)) (sym f.queue) h.jobs;
        held = tt;
        live = λ fine.
            IsLive-eq s.sequence s.sequence e.sequence s.assigned_sequence [] (waiting free s)
              (persisted ++ e ∷ []) lost refl (f.assigned_sequence ∙ sym is)
              (ap (λ x. events_of x ++ []) (f.queue ∙ empty)) written;
      }

  -- One that cannot be written.
  sync_err-IsOrdered :
      (prepared : Event)
      → r.queue ≡ []
      → s.failed ≢ none
      → IsHonest s
      → SameQueue (assign prepared r) s
      → IsOrdered lib free r accepted persisted lost
      → IsOrdered lib free s accepted persisted lost
  sync_err-IsOrdered prepared empty broken honest f h = record {
    split = h.split ∙ ap (λ x. persisted ++ (lost ++ events_of x)) (sym f.queue);
    consecutive = h.consecutive;
    honest = honest;
    drains_failed = λ d. broken;
    jobs = subst (All (IsJob lib)) (sym f.queue) h.jobs;
    held = tt;
    live = λ fine. absurd (broken fine);
  }

pub assigned-committed :
    (lib : Library) (accepted persisted lost : List Event) (r : Recorder)
    → r.queue ≡ []
    → r.failed ≡ none
    → IsOrdered lib free r accepted persisted lost
    → r.assigned_sequence ≡ r.sequence
assigned-committed lib accepted persisted lost r empty sound h =
    let l = h.live sound in
    let none_wait : length (events_of r.queue ++ []) ≡ 0 =
      ap (λ x. length (events_of x ++ [])) empty in
    omega (arith, l.assigned, none_wait)

module _ (lib : Library) (io : JobIo) (raw : Option Bytes) (size : ℤ) (mt rep : String) where
  sync_prepared-IsOrdered :
      (accepted persisted lost : List Event) (prepared : Event) (r : Recorder)
      → r.queue ≡ []
      → r.failed ≡ none
      → r.assigned_sequence + 1 < u64
      → prepared.sequence ≡ inc64 r.assigned_sequence
      → prepared.blob ≡ none
      → ((e : Event) → e.payload ≡ prepared.payload → lib.marshal_event e ≢ none)
      → IsOrdered lib free r accepted persisted lost
      → let out = sync_prepared lib io raw size mt rep (ok prepared) r in
        IsOrdered lib free out.1 (keep_ok out.0 accepted) (keep_ok out.0 persisted) lost
  sync_prepared-IsOrdered accepted persisted lost prepared r empty sound b p no_blob m h =
      go out.0 refl
    where
      out : Result Event × Recorder
      out = sync_prepared lib io raw size mt rep (ok prepared) r

      f : SameQueue (assign prepared r) out.1
      f = sync_prepared-SameQueue lib io raw size mt rep prepared r

      go :
          (x : Result Event)
          → out.0 ≡ x
          → IsOrdered lib free out.1 (keep_ok x accepted) (keep_ok x persisted) lost
      go (ok e) is =
          let c =
            sync_prepared-ok lib io raw size mt rep prepared e r out.1 no_blob
              (ap (λ y. (y, out.1)) is) in
          sync_ok-IsOrdered lib accepted persisted lost r out.1 prepared e empty sound b p c.0 f c.2
            h
      go (err x) is =
          sync_err-IsOrdered lib accepted persisted lost r out.1 prepared empty
            (sync_prepared-err lib io raw size mt rep prepared x r out.1
              (p ∙ ap inc64 (assigned-committed lib accepted persisted lost r empty sound h)) m
              (ap (λ y. (y, out.1)) is))
            (sync_prepared-IsHonest lib io raw size mt rep prepared r h.honest) f h

pub sync-IsOrdered :
    (lib : Library) (io : JobIo) (now : ℕ) (marshals live : Bool) (event : Event)
    (raw : Option Bytes) (size : ℤ) (mt rep : String) (result : Result Event) (r s : Recorder)
    (accepted persisted lost : List Event)
    → IsAccounted free r
    → wait_for_idle r ≡ ready
    → r.assigned_sequence + 1 < u64
    → (marshals ≡ true → (e : Event) → e.payload ≡ event.payload → lib.marshal_event e ≢ none)
    → record_sync lib io now marshals live event raw size mt rep r ≡ (result, s)
    → IsOrdered lib free r accepted persisted lost
    → IsOrdered lib free s (keep_ok result accepted) (keep_ok result persisted) lost
sync-IsOrdered lib io now marshals live event raw size mt rep result r s accepted persisted lost a
      idle b m e h =
    subst
      (λ (p : Result Event × Recorder).
        IsOrdered lib free p.1 (keep_ok p.0 accepted) (keep_ok p.0 persisted) lost)
      e
      (record_sync_cases
        (λ (p : Result Event × Recorder).
          IsOrdered lib free p.1 (keep_ok p.0 accepted) (keep_ok p.0 persisted) lost)
        lib io now marshals live event raw size mt rep r (λ x. h)
        (λ prepared is allowed.
          let p = prepare_event-IsPrepared lib now r event prepared is in
          sync_prepared-IsOrdered lib io raw size mt rep accepted persisted lost prepared r
            (wait_for_idle-empty r a idle) allowed.sound b p.sequence (p.blob ∙ allowed.no_blob)
            (λ x same. m allowed.encodes x (same ∙ p.payload)) h))
