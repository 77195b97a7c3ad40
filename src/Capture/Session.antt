-- ===== src/Capture/Session.antt =====
-- The recorder of internal/capture/recorder.go with the goroutines that use it. `phase` is what the
-- holder of `enqueueMu` does: `enqueue` waits for room, reserves under `r.mu` and sends or rolls
-- back; `RecordReader` runs in one step, since it holds both mutexes; `Close` closes the queue and
-- waits for the writer. A round of the writer receives its job and handles it in one step: until
-- then the job stands at the head of the queue. `accepted`, `persisted` and `lost` are no fields of
-- the code: they list the events that callers were told to be accepted, that were appended without
-- an error, and that the writer dropped. An event whose line was written before its Sync failed is
-- among the lost ones. Session/Stream compares these lists to the file and to the manifest.
pub mod Queue
pub mod Start
pub mod Numbers
pub mod Ledger
pub mod Order
pub mod Sync
pub mod Stream
pub mod Written
pub mod History
pub mod Kept
pub mod Panic
pub mod Delivery
use bedrock_debug_proxy.Base.{
  ℕ, ◌+◌, ◌<◌, ◌≡◌, ◌≢◌, String, List, [], ◌∷◌, ◌++◌, Option, none, some, Bool, true, false, Bytes,
  ℤ, length, lookup,
}
use bedrock_debug_proxy.Capture.Schema.{Event, Record}
use bedrock_debug_proxy.Capture.Result.{Error, Result, ok, err}
use bedrock_debug_proxy.Capture.Library.{Library, blob_path}
use bedrock_debug_proxy.Capture.Disk.{Disk}
use bedrock_debug_proxy.Capture.Recorder.{
  Recorder, RecordJob, WriterState, running, draining, done, u64, add_limitation, add_loss,
}
use bedrock_debug_proxy.Capture.Recorder.Append.{JobIo, record_sync}
use bedrock_debug_proxy.Capture.Recorder.Queue.{
  ready, wait_for_idle, wait_for_queue_space, check_record, reserve, send, rollback_enqueue,
}
use bedrock_debug_proxy.Capture.Recorder.Writer.{run_round, drain_round}
use bedrock_debug_proxy.Capture.Recorder.Close.{CloseIo, begin_close, writer_exits, finish_close}

pub data Phase : Type 0 where
  free : Phase
  granted : Record → Phase
  holding : RecordJob → Phase
  closing : Phase

pub record Session : Type 0 where
  pub recorder : Recorder
  pub phase : Phase
  pub accepted : List Event
  pub persisted : List Event
  pub lost : List Event

-- The bytes that a record asks of the queue.
abbrev pub raw_length : Record → ℕ
raw_length rec = elim rec.raw [ none ↦ 0 | some raw ↦ length raw ]

abbrev pub keep_ok : Result Event → List Event → List Event
keep_ok (ok e) es = es ++ e ∷ []
keep_ok (err x) es = es

abbrev pub keep_err : Event → Result Event → List Event → List Event
keep_err e (ok _) es = es
keep_err e (err x) es = es ++ e ∷ []

-- No published blob has the digest of `raw` and another length.
abbrev pub NoClash : Library → Bytes → Recorder → Type 0
NoClash lib raw r =
    (q : Bytes)
    → lookup (blob_path lib (lib.hex_digest raw)) r.disk.blobs ≡ some q
    → length q ≡ length raw

-- One step of any goroutine. Sequence numbers are below 2 ^ 64, and json.Marshal refuses an event for
-- its data alone.
pub data Step (lib : Library) (s : Session) : Session → Type 0 where
  grant :
      (rec : Record)
      → s.phase ≡ free
      → check_record lib true rec.event ≡ none
      → wait_for_queue_space (raw_length rec) s.recorder ≡ ready
      → Step lib s (record s { phase = granted rec })
  reserves :
      (rec : Record) (now : ℕ) (job : RecordJob) (r : Recorder)
      → s.phase ≡ granted rec
      → s.recorder.assigned_sequence + 1 < u64
      → reserve lib now rec s.recorder ≡ (ok job, r)
      → Step lib s (record s { recorder = r; phase = holding job })
  refuses :
      (rec : Record) (now : ℕ) (e : Error) (r : Recorder)
      → s.phase ≡ granted rec
      → reserve lib now rec s.recorder ≡ (err e, r)
      → Step lib s (record s { recorder = r; phase = free })
  sends :
      (job : RecordJob)
      → s.phase ≡ holding job
      → length s.recorder.queue < s.recorder.queue_capacity
      → Step lib s (record s {
        recorder = send job s.recorder;
        phase = free;
        accepted = s.accepted ++ job.event ∷ [];
      })
  rolls_back :
      (job : RecordJob) (r : Recorder)
      → s.phase ≡ holding job
      → rollback_enqueue job.event.sequence job.bytes s.recorder ≡ some r
      → Step lib s (record s { recorder = r; phase = free })
  writes :
      (io : JobIo) (job : RecordJob) (rest : List RecordJob) (result : Result Event) (r : Recorder)
      → s.recorder.writer ≡ running
      → s.recorder.queue ≡ job ∷ rest
      → NoClash lib job.raw s.recorder
      → run_round lib io job (record s.recorder { queue = rest }) ≡ (result, some r)
      → Step lib s (record s {
        recorder = r;
        persisted = keep_ok result s.persisted;
        lost = keep_err job.event result s.lost;
      })
  drains :
      (job : RecordJob) (rest : List RecordJob) (r : Recorder)
      → s.recorder.writer ≡ draining
      → s.recorder.queue ≡ job ∷ rest
      → drain_round job (record s.recorder { queue = rest }) ≡ some r
      → Step lib s (record s { recorder = r; lost = s.lost ++ job.event ∷ [] })
  exits :
      writer_exits s.recorder ≡ true
      → Step lib s (record s { recorder = record s.recorder { writer = done } })
  syncs :
      (io : JobIo) (now : ℕ) (marshals live : Bool) (event : Event) (raw : Option Bytes) (size : ℤ)
      (media_type representation : String) (result : Result Event) (r : Recorder)
      → s.phase ≡ free
      → wait_for_idle s.recorder ≡ ready
      → s.recorder.assigned_sequence + 1 < u64
      → (marshals ≡ true → (e : Event) → e.payload ≡ event.payload → lib.marshal_event e ≢ none)
      → record_sync lib io now marshals live event raw size media_type representation s.recorder
        ≡ (result, r)
      → Step lib s (record s {
        recorder = r;
        accepted = keep_ok result s.accepted;
        persisted = keep_ok result s.persisted;
      })
  limits :
      (text : String) → Step lib s (record s { recorder = (add_limitation lib text s.recorder).1 })
  loses :
      (dropped truncated : ℕ) (reason : String)
      → Step lib s (record s { recorder = (add_loss dropped truncated reason s.recorder).1 })
  closes :
      (r : Recorder)
      → s.phase ≡ free
      → begin_close s.recorder ≡ some r
      → Step lib s (record s { recorder = r; phase = closing })
  closed :
      (message : Error → String) (io : CloseIo) (now : ℕ) (status : String) (cause : Option Error)
      → s.phase ≡ closing
      → s.recorder.writer ≡ done
      → Step lib s (record s {
        recorder = (finish_close lib message io now status cause s.recorder).1;
        phase = free;
      })

pub data Reach (lib : Library) (s : Session) : Session → Type 0 where
  here : Reach lib s s
  next : {t u : Session} → Reach lib s t → Step lib t u → Reach lib s u
