-- ===== src/Capture/Recorder/Commit.antt =====
-- What a successful append does, and what it leaves alone.
use bedrock_debug_proxy.Base.{
  ℕ, List, [], ◌∷◌, ◌++◌, Option, none, some, Bytes, nat_part, ◌≡◌, refl, ap, ◌∙◌, arith, contains,
  Bool-cases, Option-cases, inl, inr, subst, if◌then◌else◌, ◌==◌,
}
use bedrock_debug_proxy.Capture.Schema.{Event, BlobRef}
use bedrock_debug_proxy.Capture.Result.{Error, ok}
use bedrock_debug_proxy.Capture.Disk.{Disk, write_all, write_all-ok}
use bedrock_debug_proxy.Capture.Library.{Library}
use bedrock_debug_proxy.Capture.Recorder.{Recorder, inc64, add64, mark_failed}
use bedrock_debug_proxy.Capture.Recorder.Append.{
  EventIo, fail_append, count_event, finish_line, write_line, append_event,
}

-- The blobs that are counted so far: their digests, their number and their bytes.
pub record Tally : Type 0 where
  pub seen : List Bytes
  pub blobs : ℕ
  pub blob_bytes : ℕ

abbrev pub tally_of : Recorder → Tally
tally_of r = record {
  seen = r.seen_blob;
  blobs = r.manifest.counts.blobs;
  blob_bytes = r.manifest.counts.blob_bytes;
}

-- A reference counts its blob once for each digest.
unfoldable pub add_ref : Option BlobRef → Tally → Tally
add_ref none t = t
add_ref (some ref) t = if contains ref.sha256 t.seen then t else record {
  seen = ref.sha256 ∷ t.seen;
  blobs = inc64 t.blobs;
  blob_bytes = add64 t.blob_bytes (nat_part ref.size);
}

-- The size that is counted for an event is that of its reference.
abbrev pub ref_bytes : Option BlobRef → ℕ
ref_bytes none = 0
ref_bytes (some ref) = nat_part ref.size

-- What a commit takes over from the manifest.
pub record SameCapture (r s : Recorder) : Type 0 where
  pub schema : s.manifest.schema ≡ r.manifest.schema
  pub capture_id : s.manifest.capture_id ≡ r.manifest.capture_id
  pub events_path : s.manifest.events_path ≡ r.manifest.events_path
  pub blob_root : s.manifest.blob_root ≡ r.manifest.blob_root

pub record Committed (lib : Library) (event : Event) (r s : Recorder) : Type 0 where
  pub follows : event.sequence ≡ inc64 r.sequence
  pub line : Bytes
  pub encodes : lib.marshal_event event ≡ some line
  pub events : s.disk.events ≡ r.disk.events ++ (line ++ b'\n' ∷ [])
  pub sequence : s.sequence ≡ event.sequence
  pub failed : s.failed ≡ r.failed
  pub completeness : s.manifest.completeness ≡ r.manifest.completeness
  pub event_count : s.manifest.counts.events ≡ inc64 r.manifest.counts.events
  pub tally : tally_of s ≡ add_ref event.blob (tally_of r)
  pub same : SameCapture r s

-- What counting does, apart from the files.
record Counted (event : Event) (r s : Recorder) : Type 0 where
  disk : s.disk ≡ r.disk
  sequence : s.sequence ≡ event.sequence
  failed : s.failed ≡ r.failed
  completeness : s.manifest.completeness ≡ r.manifest.completeness
  event_count : s.manifest.counts.events ≡ inc64 r.manifest.counts.events
  tally : tally_of s ≡ add_ref event.blob (tally_of r)
  same : SameCapture r s

count_event-Counted :
    (event : Event) (r : Recorder) → Counted event r (count_event event (ref_bytes event.blob) r)
unfolding count_event add_ref
count_event-Counted event r = ground arith

fail_append-ne-ok :
    (x : Error) (e : Event) (r s : Recorder) → fail_append {A = Event} x r ≡ (ok e, s) → ⊥
unfolding fail_append mark_failed
fail_append-ne-ok x e r s h = ground arith

record LineWritten (event : Event) (line : Bytes) (r s : Recorder) : Type 0 where
  events : s.disk.events ≡ r.disk.events ++ line
  blobs : s.disk.blobs ≡ r.disk.blobs
  counted : Counted event (record r { disk = s.disk }) s

finish_line-ok :
    (event e : Event) (n : ℕ) (write_error sync_error : Option Error) (r s : Recorder)
    → finish_line event n write_error sync_error r ≡ (ok e, s)
    → (e ≡ event) × (write_error ≡ none) × (count_event event n r ≡ s)
unfolding finish_line
finish_line-ok event e n (some x) sync_error r s h = absurd (fail_append-ne-ok _ e r s h)
finish_line-ok event e n none (some x) r s h = absurd (fail_append-ne-ok _ e r s h)
finish_line-ok event e n none none r s h = (cc, refl, ap (λ p. p.1) h)

write_line-ok :
    (io : EventIo) (event e : Event) (line : Bytes) (r s : Recorder)
    → write_line io event (ref_bytes event.blob) line r ≡ (ok e, s)
    → (e ≡ event) × LineWritten event line r s
unfolding write_line
write_line-ok io event e line r s h =
    let w = write_all io.write r.disk.events line in
    let written = record r { disk = record r.disk { events = w.file } } in
    let done = finish_line-ok event e _ w.error _ written s h in
    let counted = count_event-Counted event written in
    (
      done.0,
      subst (LineWritten event line r) done.2 (record {
        events =
            ap (λ (d : Disk). d.events) counted.disk
            ∙ write_all-ok io.write r.disk.events line done.1;
        blobs = ap (λ (d : Disk). d.blobs) counted.disk;
        counted = record {
          disk = refl;
          sequence = counted.sequence;
          failed = counted.failed;
          completeness = counted.completeness;
          event_count = counted.event_count;
          tally = counted.tally;
          same = record {
            schema = counted.same.schema;
            capture_id = counted.same.capture_id;
            events_path = counted.same.events_path;
            blob_root = counted.same.blob_root;
          };
        };
      }),
    )

-- A record that is appended is committed as it was given, and follows the last one.
pub append_event-Committed :
    (lib : Library) (io : EventIo) (event e : Event) (r s : Recorder)
    → append_event lib io event (ref_bytes event.blob) r ≡ (ok e, s)
    → (e ≡ event) × (s.disk.blobs ≡ r.disk.blobs) × Committed lib event r s
unfolding append_event
append_event-Committed lib io event e r s h =
    elim (Bool-cases (event.sequence == inc64 r.sequence)) [
      | inr gap ↦ absurd (cc (rw (gap, append_event) at h))
      | inl follows ↦ elim (Option-cases (lib.marshal_event event)) [
        | inl fails ↦ absurd (cc (rw (follows, fails, append_event) at h))
        | inr (line, encodes) ↦
            let w = write_line-ok io event e _ r s (rw (follows, encodes, append_event) at h) in
            let c = w.1.counted in
            (
              w.0,
              w.1.blobs,
              record {
                follows = ground arith;
                line = line;
                encodes = encodes;
                events = w.1.events;
                sequence = c.sequence;
                failed = c.failed;
                completeness = c.completeness;
                event_count = c.event_count;
                tally = c.tally;
                same = record {
                  schema = c.same.schema;
                  capture_id = c.same.capture_id;
                  events_path = c.same.events_path;
                  blob_root = c.same.blob_root;
                };
              },
            )
      ]
    ]
