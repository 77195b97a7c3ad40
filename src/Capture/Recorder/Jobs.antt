-- ===== src/Capture/Recorder/Jobs.antt =====
-- A job, or an event of `RecordReader`, from its blob to its line: what a success means.
use bedrock_debug_proxy.Base.{
  ℕ, String, Option, none, some, true, false, Bytes, ℤ, pos, is_negative, ◌≡◌, refl, sym, ap, ◌∙◌,
  ◌⊎◌, inl, inr, arith, length, contains, Bool-cases, subst,
}
use bedrock_debug_proxy.Capture.Schema.{Event, Record, BlobRef}
use bedrock_debug_proxy.Capture.Result.{Result, ok, err}
use bedrock_debug_proxy.Capture.Library.{Library, blob_path}
use bedrock_debug_proxy.Capture.Recorder.{Recorder, RecordJob}
use bedrock_debug_proxy.Capture.Recorder.Blob.{BlobIo, blob_ref, store_blob, store_blob_bytes}
use bedrock_debug_proxy.Capture.Recorder.Append.{
  EventIo, JobIo, append_event, append_with_blob, write_job, sync_stored, sync_prepared,
}
use bedrock_debug_proxy.Capture.Recorder.Queue.{job_of}
use bedrock_debug_proxy.Capture.Recorder.Frame.{assign}
use bedrock_debug_proxy.Capture.Recorder.Commit.{
  Committed, Tally, tally_of, add_ref, append_event-Committed, ref_bytes,
}
use bedrock_debug_proxy.Capture.Recorder.Stored.{
  Kept, Kept-refl, Published, store_blob-Kept, store_blob-Published,
}

-- The event of a job names the digest, the length and the path of its raw bytes.
abbrev pub IsJob : Library → RecordJob → Type 0
IsJob lib job =
    ((job.has_raw ≡ true)
      × (job.event.blob
          ≡ some (
              blob_ref lib (lib.hex_digest job.raw) (length job.raw) job.media_type
                job.representation)))
    ⊎ ((job.has_raw ≡ false) × (job.event.blob ≡ none))

pub job_of-IsJob :
    (lib : Library) (event : Event) (rec : Record)
    → event.blob ≡ none
    → IsJob lib (job_of lib event rec)
unfolding job_of
job_of-IsJob lib event rec h = ground arith

-- What is on disk for a reference, between the recorder before and after.
abbrev pub RefStored : Library → Option BlobRef → Recorder → Recorder → Type 0
RefStored lib none r s = s.disk.blobs ≡ r.disk.blobs
RefStored lib (some ref) r s =
    (raw : Bytes) × (ref.sha256 ≡ lib.hex_digest raw)
    × (ref.size ≡ pos (length raw))
    × (ref.path ≡ blob_path lib (lib.hex_digest raw))
    × (((contains (lib.hex_digest raw) r.seen_blob ≡ true) × (s.disk.blobs ≡ r.disk.blobs))
        ⊎ Published (blob_path lib (lib.hex_digest raw)) raw r.disk.blobs s.disk.blobs)

Kept-tally : (r m : Recorder) → Kept r m → tally_of m ≡ tally_of r
Kept-tally r m k = ground arith

Committed-Kept :
    (lib : Library) (event : Event) (r m s : Recorder)
    → Kept r m
    → Committed lib event m s
    → Committed lib event r s
Committed-Kept lib event r m s k c = record {
  follows = ground arith;
  line = c.line;
  encodes = c.encodes;
  events = ground arith;
  sequence = c.sequence;
  failed = ground arith;
  completeness = ground arith;
  event_count = ground arith;
  tally = subst (λ (t : Tally). tally_of s ≡ add_ref event.blob t) (Kept-tally r m k) c.tally;
  same = ground arith;
}

RefStored-Kept :
    (lib : Library) (ref : BlobRef) (r m s : Recorder)
    → s.disk.blobs ≡ m.disk.blobs
    → RefStored lib (some ref) r m
    → RefStored lib (some ref) r s
RefStored-Kept lib ref r m s e (raw, sha, size, path, at) =
    let move : Published (blob_path lib (lib.hex_digest raw)) raw r.disk.blobs m.disk.blobs
        → Published (blob_path lib (lib.hex_digest raw)) raw r.disk.blobs s.disk.blobs =
      λ p.
        subst (λ b. Published (blob_path lib (lib.hex_digest raw)) raw r.disk.blobs b) (sym e) p in
    (
      raw,
      sha,
      size,
      path,
      elim at [ inl (seen, same) ↦ inl (seen, e ∙ same) | inr p ↦ inr (move p) ],
    )

-- An event that is appended with the reference of a blob that was stored.
append_with_blob-ok :
    (lib : Library) (io : EventIo) (event e : Event) (ref : BlobRef) (r m s : Recorder)
    → append_with_blob lib io event (ok ref, m) ≡ (ok e, s)
    → Kept r m
    → RefStored lib (some ref) r m
    → (e ≡ record event { blob = some ref })
      × RefStored lib (some ref) r s
      × Committed lib (record event { blob = some ref }) r s
unfolding append_with_blob
append_with_blob-ok lib io event e ref r m s h k stored =
    let whole = record event { blob = some ref } in
    elim (Bool-cases (is_negative ref.size)) [
      | inl bad ↦ absurd (let z = rw (bad, append_with_blob) at h in cc)
      | inr fine ↦
          let done = append_event-Committed lib io whole e m s (rw (fine, append_with_blob) at h) in
          (
            done.0,
            RefStored-Kept lib ref r m s done.1 stored,
            Committed-Kept lib whole r m s k done.2,
          )
    ]

store_blob-RefStored :
    (lib : Library) (io : BlobIo) (raw : Bytes) (size : ℤ) (mt rep : String) (n : ℕ) (ref : BlobRef)
    (r m : Recorder)
    → store_blob lib io raw size mt rep n r ≡ (ok ref, m)
    → (ref ≡ blob_ref lib (lib.hex_digest raw) (length raw) mt rep)
      × Kept r m
      × RefStored lib (some ref) r m
store_blob-RefStored lib io raw size mt rep n ref r m h =
    let p = store_blob-Published lib io raw size mt rep n ref r m h in
    (
      p.0,
      subst (λ (x : Result BlobRef × Recorder). Kept r x.1) h
          (store_blob-Kept lib io raw size mt rep n r),
      unfold blob_ref in
          (
            raw,
            ap (λ (b : BlobRef). b.sha256) p.0,
            ap (λ (b : BlobRef). b.size) p.0,
            ap (λ (b : BlobRef). b.path) p.0,
            inr p.1,
          ),
    )

store_blob_bytes-RefStored :
    (lib : Library) (io : BlobIo) (raw : Bytes) (mt rep : String) (n : ℕ) (ref : BlobRef)
    (r m : Recorder)
    → store_blob_bytes lib io raw mt rep n r ≡ (ok ref, m)
    → (ref ≡ blob_ref lib (lib.hex_digest raw) (length raw) mt rep)
      × Kept r m
      × RefStored lib (some ref) r m
unfolding store_blob_bytes
store_blob_bytes-RefStored lib io raw mt rep n ref r m h =
    elim (Bool-cases (contains (lib.hex_digest raw) r.seen_blob)) [
      | inr new ↦
          store_blob-RefStored lib io raw (pos (length raw)) mt rep n ref r m
            (rw (new, store_blob_bytes) at h)
      | inl seen ↦
          let e = rw (seen, store_blob_bytes) at h in
          let same : r ≡ m = ap (λ p. p.1) e in
          let is : blob_ref lib (lib.hex_digest raw) (length raw) mt rep ≡ ref = cc e in
          (
            sym is,
            subst (Kept r) same (Kept-refl r),
            unfold blob_ref in
                (
                  raw,
                  ap (λ (b : BlobRef). b.sha256) (sym is),
                  ap (λ (b : BlobRef). b.size) (sym is),
                  ap (λ (b : BlobRef). b.path) (sym is),
                  inl (seen, ap (λ (x : Recorder). x.disk.blobs) (sym same)),
                ),
          )
    ]

job_with_blob-ok :
    (lib : Library) (io : JobIo) (job : RecordJob) (e : Event) (stored : Result BlobRef)
    (r m s : Recorder)
    → job.event.blob
      ≡ some
          (blob_ref lib (lib.hex_digest job.raw) (length job.raw) job.media_type job.representation)
    → store_blob_bytes lib io.blob job.raw job.media_type job.representation job.event.sequence r
      ≡ (stored, m)
    → append_with_blob lib io.event job.event (stored, m) ≡ (ok e, s)
    → (e ≡ job.event) × RefStored lib job.event.blob r s × Committed lib job.event r s
unfolding append_with_blob
job_with_blob-ok lib io job e (err x) r m s b st h = absurd (cc)
job_with_blob-ok lib io job e (ok ref) r m s b st h =
    let f =
      store_blob_bytes-RefStored lib io.blob job.raw job.media_type job.representation
        job.event.sequence ref r m st in
    let a = append_with_blob-ok lib io.event job.event e ref r m s h f.1 f.2 in
    let same : record job.event { blob = some ref } ≡ job.event = ground (arith, f.0) in
    subst (λ x. (e ≡ x) × RefStored lib x.blob r s × Committed lib x r s) same a

append_plain-ok :
    (lib : Library) (io : EventIo) (event e : Event) (r s : Recorder)
    → event.blob ≡ none
    → append_event lib io event 0 r ≡ (ok e, s)
    → (e ≡ event) × RefStored lib event.blob r s × Committed lib event r s
append_plain-ok lib io event e r s b h =
    let n : 0 ≡ ref_bytes event.blob = ap ref_bytes (sym b) in
    let a =
      append_event-Committed lib io event e r s
        (subst (λ k. append_event lib io event k r ≡ (ok e, s)) n h) in
    (a.0, subst (λ x. RefStored lib x r s) (sym b) a.1, a.2)

-- A job that is written commits the event that its caller was given, with its blob on disk.
pub write_job-ok :
    (lib : Library) (io : JobIo) (job : RecordJob) (e : Event) (r s : Recorder)
    → IsJob lib job
    → write_job lib io job r ≡ (ok e, s)
    → (e ≡ job.event) × RefStored lib job.event.blob r s × Committed lib job.event r s
unfolding write_job
write_job-ok lib io job e r s (inl (has, b)) h =
    job_with_blob-ok lib io job e _ r _ s b refl (rw (has, write_job) at h)
write_job-ok lib io job e r s (inr (has, b)) h =
    append_plain-ok lib io.event job.event e r s b (rw (has, write_job) at h)

sync_stored-ok :
    (lib : Library) (io : EventIo) (event e : Event) (stored : Result BlobRef) (r m s : Recorder)
    → event.blob ≡ none
    → ((ref : BlobRef) → stored ≡ ok ref → Kept r m × RefStored lib (some ref) r m)
    → sync_stored lib io event (stored, m) ≡ (ok e, s)
    → (e.sequence ≡ event.sequence) × RefStored lib e.blob r s × Committed lib e r s
unfolding sync_stored
sync_stored-ok lib io event e (err x) r m s b st h = absurd (cc)
sync_stored-ok lib io event e (ok ref) r m s b st h =
    let f = st ref refl in
    let a = append_with_blob-ok lib io event e ref r m s h f.0 f.1 in
    (
      ap (λ (x : Event). x.sequence) a.0,
      subst (λ (x : Event). RefStored lib x.blob r s) (sym a.0) a.1,
      subst (λ x. Committed lib x r s) (sym a.0) a.2,
    )

-- So does an event that `RecordReader` writes.
pub sync_prepared-ok :
    (lib : Library) (io : JobIo) (raw : Option Bytes) (size : ℤ) (mt rep : String) (event e : Event)
    (r s : Recorder)
    → event.blob ≡ none
    → sync_prepared lib io raw size mt rep (ok event) r ≡ (ok e, s)
    → (e.sequence ≡ event.sequence)
      × RefStored lib e.blob (assign event r) s
      × Committed lib e (assign event r) s
unfolding sync_prepared
sync_prepared-ok lib io none size mt rep event e r s b h =
    let a = append_plain-ok lib io.event event e (assign event r) s b h in
    (
      ap (λ (x : Event). x.sequence) a.0,
      subst (λ (x : Event). RefStored lib x.blob (assign event r) s) (sym a.0) a.1,
      subst (λ x. Committed lib x (assign event r) s) (sym a.0) a.2,
    )
sync_prepared-ok lib io (some content) size mt rep event e r s b h =
    let start = assign event r in
    let stored = store_blob lib io.blob content size mt rep event.sequence start in
    sync_stored-ok lib io.event event e stored.0 start stored.1 s b
      (λ ref is.
        let f =
          store_blob-RefStored lib io.blob content size mt rep event.sequence ref start stored.1
            (ap (λ x. (x, stored.1)) is) in
        (f.1, f.2))
      h
