-- ===== src/Capture/Recorder/Extends.antt =====
-- What the operations of a recorder do to the bytes of the event stream, which only grow, and to the
-- manifest's count of dropped events.
use bedrock_debug_proxy.Base.{
  ℕ, zero, suc, String, [], ◌∷◌, ◌++◌, Option, none, some, Bool, true, false, Bytes, ℤ, ◌≡◌, ◌≢◌,
  refl, sym, ap, ◌∙◌, arith, length, contains, take, drop, nat_part, pos, is_negative, Bool-cases,
  Option-cases, inl, inr, append_assoc, append-nil, ◌==◌, if◌then◌else◌,
}
use bedrock_debug_proxy.Capture.Schema.{Event, BlobRef}
use bedrock_debug_proxy.Capture.Result.{Error, Result, ok, err, short_write, closed}
use bedrock_debug_proxy.Capture.Disk.{Writer, Written, write_rounds, write_all}
use bedrock_debug_proxy.Capture.Library.{Library}
use bedrock_debug_proxy.Capture.Recorder.{
  Recorder, RecordJob, inc64, add64, mark_failed, mark_dropped, complete_pending, add_limitation,
  add_loss,
}
use bedrock_debug_proxy.Capture.Recorder.Blob.{BlobIo, store_blob, store_blob_bytes}
use bedrock_debug_proxy.Capture.Recorder.Append.{
  EventIo, JobIo, count_blob, count_event, fail_append, finish_line, write_line, append_event,
  append_with_blob, write_job, sync_stored, sync_prepared,
}
use bedrock_debug_proxy.Capture.Recorder.Frame.{assign}
use bedrock_debug_proxy.Capture.Recorder.Writer.{note_result, attempt_job, settle_job, drain_round}
use bedrock_debug_proxy.Capture.Recorder.Close.{CloseIo, begin_close, finish_close}

pub record SameStream (r s : Recorder) : Type 0 where
  pub events : s.disk.events ≡ r.disk.events
  pub dropped : s.manifest.counts.dropped ≡ r.manifest.counts.dropped

-- The stream goes on, and nothing is counted as dropped.
pub record Extends (r s : Recorder) : Type 0 where
  pub more : Bytes
  pub events : s.disk.events ≡ r.disk.events ++ more
  pub dropped : s.manifest.counts.dropped ≡ r.manifest.counts.dropped

SameStream-Extends : (r s : Recorder) → SameStream r s → Extends r s
SameStream-Extends r s f = record {
  more = [];
  events = f.events ∙ sym (append-nil r.disk.events);
  dropped = f.dropped;
}

Extends-after : (r s t : Recorder) → SameStream r s → Extends s t → Extends r t
Extends-after r s t f g = record {
  more = g.more;
  events = g.events ∙ ap (λ (x : Bytes). x ++ g.more) f.events;
  dropped = g.dropped ∙ f.dropped;
}

Extends-then : (r s t : Recorder) → Extends r s → SameStream s t → Extends r t
Extends-then r s t g f = record {
  more = g.more;
  events = f.events ∙ g.events;
  dropped = f.dropped ∙ g.dropped;
}

-- `writeAll` only appends, whatever the writer answers.
write_rounds-appends :
    (fuel : ℕ) (w : Writer) (file bytes : Bytes)
    → (more : Bytes) × ((write_rounds fuel w file bytes).file ≡ file ++ more)
unfolding write_rounds
write_rounds-appends zero w file [] = ([], sym (append-nil file))
write_rounds-appends zero w file (b ∷ rest) = ([], sym (append-nil file))
write_rounds-appends (suc fuel) w file [] = ([], sym (append-nil file))
write_rounds-appends (suc fuel) w file (b ∷ rest) =
    by_answer (w (b ∷ rest)).1 ((w (b ∷ rest)).0 == 0)
      (write_rounds-appends fuel w (file ++ taken) left)
  where
    taken : Bytes
    taken = take (w (b ∷ rest)).0 (b ∷ rest)

    left : Bytes
    left = drop (w (b ∷ rest)).0 (b ∷ rest)

    next_rounds : Written
    next_rounds = write_rounds fuel w (file ++ taken) left

    by_answer :
        (e : Option Error) (empty : Bool)
        → (more : Bytes) × (next_rounds.file ≡ (file ++ taken) ++ more)
        → (more : Bytes) × ((elim e as (λ _. Written) [
          | some x ↦ record { file = file ++ taken; error = some x }
          | none ↦ if empty then record { file = file; error = some short_write } else next_rounds
        ]).file
            ≡ file ++ more)
    by_answer (some x) empty after = (taken, refl)
    by_answer none true after = ([], sym (append-nil file))
    by_answer none false (more, e) = (taken ++ more, e ∙ append_assoc file taken more)

write_all-appends :
    (w : Writer) (file bytes : Bytes)
    → (more : Bytes) × ((write_all w file bytes).file ≡ file ++ more)
unfolding write_all
write_all-appends w file bytes = write_rounds-appends (length bytes) w file bytes

pub mark_failed-SameStream : (e : Error) (r : Recorder) → SameStream r (mark_failed e r)
unfolding mark_failed
mark_failed-SameStream e r = ground arith

store_blob-SameStream :
    (lib : Library) (io : BlobIo) (raw : Bytes) (size : ℤ) (mt rep : String) (n : ℕ) (r : Recorder)
    → SameStream r (store_blob lib io raw size mt rep n r).1
unfolding store_blob
store_blob-SameStream lib io raw size mt rep n r = ground arith

store_blob_bytes-SameStream :
    (lib : Library) (io : BlobIo) (raw : Bytes) (mt rep : String) (n : ℕ) (r : Recorder)
    → SameStream r (store_blob_bytes lib io raw mt rep n r).1
unfolding store_blob_bytes
store_blob_bytes-SameStream lib io raw mt rep n r =
    elim (Bool-cases (contains (lib.hex_digest raw) r.seen_blob)) [
      | inl old ↦ rw old (record { events = refl; dropped = refl })
      | inr new ↦ rw new (store_blob-SameStream lib io raw (pos (length raw)) mt rep n r)
    ]

finish_line-SameStream :
    (event : Event) (n : ℕ) (write_error sync_error : Option Error) (r : Recorder)
    → SameStream r (finish_line event n write_error sync_error r).1
unfolding finish_line fail_append mark_failed count_event count_blob
finish_line-SameStream event n write_error sync_error r = ground arith

write_line-Extends :
    (io : EventIo) (event : Event) (n : ℕ) (line : Bytes) (r : Recorder)
    → Extends r (write_line io event n line r).1
unfolding write_line
write_line-Extends io event n line r =
    let w = write_all io.write r.disk.events line in
    let written = record r { disk = record r.disk { events = w.file } } in
    let (more, e) = write_all-appends io.write r.disk.events line in
    Extends-then r written _ (record { more = more; events = e; dropped = refl })
      (finish_line-SameStream event n w.error
        (if r.manifest.options.sync_each_event then io.sync_error else none) written)

Extends-refl : (r : Recorder) → Extends r r
Extends-refl r = SameStream-Extends r r (record { events = refl; dropped = refl })

append_event-Extends :
    (lib : Library) (io : EventIo) (event : Event) (n : ℕ) (r : Recorder)
    → Extends r (append_event lib io event n r).1
unfolding append_event
append_event-Extends lib io event n r = elim (Bool-cases (event.sequence == inc64 r.sequence)) [
  | inr gap ↦ rw (gap, append_event) (Extends-refl r)
  | inl follows ↦ elim (Option-cases (lib.marshal_event event)) [
    | inl fails ↦ rw (follows, fails, append_event) (Extends-refl r)
    | inr (line, encodes) ↦
        rw (follows, encodes, append_event) (write_line-Extends io event n (line ++ b'\n' ∷ []) r)
  ]
]

append_with_blob-Extends :
    (lib : Library) (io : EventIo) (event : Event) (stored : Result BlobRef) (r : Recorder)
    → Extends r (append_with_blob lib io event (stored, r)).1
unfolding append_with_blob
append_with_blob-Extends lib io event (err e) r = Extends-refl r
append_with_blob-Extends lib io event (ok ref) r = elim (Bool-cases (is_negative ref.size)) [
  | inl negative ↦ rw negative (Extends-refl r)
  | inr fits ↦
      rw fits (append_event-Extends lib io (record event { blob = some ref }) (nat_part ref.size) r)
]

write_job-Extends :
    (lib : Library) (io : JobIo) (job : RecordJob) (r : Recorder)
    → Extends r (write_job lib io job r).1
unfolding write_job
write_job-Extends lib io job r =
    let n = job.event.sequence in
    let stored = store_blob_bytes lib io.blob job.raw job.media_type job.representation n r in
    elim (Bool-cases job.has_raw) [
      | inl blob ↦ rw blob (
          Extends-after r stored.1 _
            (store_blob_bytes-SameStream lib io.blob job.raw job.media_type job.representation n r)
            (append_with_blob-Extends lib io.event job.event stored.0 stored.1))
      | inr plain ↦ rw plain (append_event-Extends lib io.event job.event 0 r)
    ]

pub attempt_job-Extends :
    (lib : Library) (io : JobIo) (job : RecordJob) (r : Recorder)
    → Extends r (attempt_job lib io job r).1
unfolding attempt_job
attempt_job-Extends lib io job r = by_tests r.failed r.is_closed
  where
    noted : (p : Result Event × Recorder) → Extends r p.1 → Extends r (note_result p).1
    noted (ok event, s) x = x
    noted (err e, s) x = Extends-then r s _ x (mark_failed-SameStream e s)

    by_tests :
        (failed : Option Error) (shut : Bool)
        → Extends r
            (elim failed as (λ _. Result Event × Recorder) [
              | some e ↦ (err e, r)
              | none ↦
                  if shut
                  then (err closed, mark_failed closed r)
                  else note_result (write_job lib io job r)
            ]).1
    by_tests (some e) shut = Extends-refl r
    by_tests none true = SameStream-Extends r _ (mark_failed-SameStream closed r)
    by_tests none false = noted (write_job lib io job r) (write_job-Extends lib io job r)

pub sync_prepared-Extends :
    (lib : Library) (io : JobIo) (raw : Option Bytes) (size : ℤ) (mt rep : String) (event : Event)
    (r : Recorder)
    → Extends (assign event r) (sync_prepared lib io raw size mt rep (ok event) r).1
unfolding sync_prepared sync_stored
sync_prepared-Extends lib io none size mt rep event r =
    append_event-Extends lib io.event event 0 (assign event r)
sync_prepared-Extends lib io (some content) size mt rep event r =
    let start = assign event r in
    let stored = store_blob lib io.blob content size mt rep event.sequence start in
    Extends-after start stored.1 _
      (store_blob-SameStream lib io.blob content size mt rep event.sequence start)
      (by_result stored.0 stored.1)
  where
    by_result :
        (x : Result BlobRef) (s : Recorder) → Extends s (sync_stored lib io.event event (x, s)).1
    by_result (err e) s = SameStream-Extends s _ (mark_failed-SameStream e s)
    by_result (ok ref) s = append_with_blob-Extends lib io.event event (ok ref) s

-- A round that fails counts its job as dropped, and no other does.
pub settle_job-counted :
    (job : RecordJob) (r s : Recorder)
    → settle_job job r ≡ some s
    → r.failed ≢ none
    → s.manifest.counts.dropped ≡ inc64 r.manifest.counts.dropped
unfolding settle_job complete_pending mark_dropped
settle_job-counted job r s h broken = ground arith

pub settle_job-uncounted :
    (job : RecordJob) (r s : Recorder)
    → settle_job job r ≡ some s
    → r.failed ≡ none
    → s.manifest.counts.dropped ≡ r.manifest.counts.dropped
unfolding settle_job complete_pending
settle_job-uncounted job r s h fine = ground arith

pub drain_round-counted :
    (job : RecordJob) (r s : Recorder)
    → drain_round job r ≡ some s
    → s.manifest.counts.dropped ≡ inc64 r.manifest.counts.dropped
unfolding drain_round complete_pending mark_dropped
drain_round-counted job r s h = ground arith

pub add_limitation-SameStream :
    (lib : Library) (text : String) (r : Recorder) → SameStream r (add_limitation lib text r).1
unfolding add_limitation
add_limitation-SameStream lib text r = ground arith

pub add_loss-events :
    (d t : ℕ) (reason : String) (r : Recorder)
    → (add_loss d t reason r).1.disk.events ≡ r.disk.events
unfolding add_loss
add_loss-events d t reason r = ground arith

pub add_loss-counted :
    (d t : ℕ) (reason : String) (r : Recorder)
    → r.is_closed ≡ false
    → (add_loss d t reason r).1.manifest.counts.dropped ≡ add64 r.manifest.counts.dropped d
unfolding add_loss
add_loss-counted d t reason r h = ground arith

pub add_loss-refused :
    (d t : ℕ) (reason : String) (r : Recorder)
    → r.is_closed ≡ true
    → (add_loss d t reason r).1.manifest.counts.dropped ≡ r.manifest.counts.dropped
unfolding add_loss
add_loss-refused d t reason r h = ground arith

pub begin_close-SameStream : (r s : Recorder) → begin_close r ≡ some s → SameStream r s
unfolding begin_close
begin_close-SameStream r s h = ground arith

pub finish_close-SameStream :
    (lib : Library) (message : Error → String) (io : CloseIo) (now : ℕ) (status : String)
    (cause : Option Error) (r : Recorder)
    → SameStream r (finish_close lib message io now status cause r).1
unfolding finish_close
finish_close-SameStream lib message io now status cause r = ground arith
