-- ===== src/Capture/Recorder/Syncs.antt =====
-- `recordSync` and `prepareEventLocked`: the stamp of an event, and what a failure leaves.
use bedrock_debug_proxy.Base.{
  ℕ, String, Option, none, some, false, Bytes, ℤ, nat_part, is_negative, ◌≡◌, ◌≢◌, refl, sym, ap,
  arith, subst, Bool-cases, inl, inr,
}
use bedrock_debug_proxy.Capture.Schema.{Event, BlobRef, schema_version}
use bedrock_debug_proxy.Capture.Result.{Error, Result, ok, err}
use bedrock_debug_proxy.Capture.Library.{Library}
use bedrock_debug_proxy.Capture.Recorder.{Recorder, inc64, prepare_event, mark_failed}
use bedrock_debug_proxy.Capture.Recorder.Blob.{blob_ref, store_blob}
use bedrock_debug_proxy.Capture.Recorder.Append.{
  EventIo, JobIo, append_event, append_with_blob, sync_stored, sync_prepared,
}
use bedrock_debug_proxy.Capture.Recorder.Frame.{assign}
use bedrock_debug_proxy.Capture.Recorder.Rounds.{IsHonest}
use bedrock_debug_proxy.Capture.Recorder.Stored.{store_blob-Kept, store_blob-Published}

-- What `prepareEventLocked` puts on an event.
pub record IsPrepared (r : Recorder) (event prepared : Event) : Type 0 where
  pub schema : prepared.schema ≡ schema_version
  pub capture_id : prepared.capture_id ≡ r.manifest.capture_id
  pub sequence : prepared.sequence ≡ inc64 r.assigned_sequence
  pub blob : prepared.blob ≡ event.blob
  pub payload : prepared.payload ≡ event.payload

pub prepare_event-IsPrepared :
    (lib : Library) (now : ℕ) (r : Recorder) (event prepared : Event)
    → prepare_event lib now r event ≡ ok prepared
    → IsPrepared r event prepared
unfolding prepare_event
prepare_event-IsPrepared lib now r event prepared h = ground arith

append_event-err :
    (lib : Library) (io : EventIo) (event : Event) (n : ℕ) (x : Error) (r s : Recorder)
    → event.sequence ≡ inc64 r.sequence
    → lib.marshal_event event ≢ none
    → append_event lib io event n r ≡ (err x, s)
    → s.failed ≢ none
unfolding append_event mark_failed
append_event-err lib io event n x r s f m h bad = ground arith

sync_stored-err :
    (lib : Library) (io : EventIo) (event : Event) (stored : Result BlobRef) (x : Error)
    (r s : Recorder)
    → event.sequence ≡ inc64 r.sequence
    → ((e : Event) → e.payload ≡ event.payload → lib.marshal_event e ≢ none)
    → ((ref : BlobRef) → stored ≡ ok ref → is_negative ref.size ≡ false)
    → sync_stored lib io event (stored, r) ≡ (err x, s)
    → s.failed ≢ none
unfolding sync_stored append_with_blob mark_failed
sync_stored-err lib io event (err y) x r s f m g h bad = ground arith
sync_stored-err lib io event (ok ref) x r s f m g h bad =
    let whole = record event { blob = some ref } in
    let plain : append_event lib io whole (nat_part ref.size) r ≡ (err x, s) =
      ground (arith, g ref refl) in
    append_event-err lib io whole _ x r s f (m whole refl) plain bad

-- When it fails after its early returns, the recorder has failed.
pub sync_prepared-err :
    (lib : Library) (io : JobIo) (raw : Option Bytes) (size : ℤ) (mt rep : String) (event : Event)
    (x : Error) (r s : Recorder)
    → event.sequence ≡ inc64 r.sequence
    → ((e : Event) → e.payload ≡ event.payload → lib.marshal_event e ≢ none)
    → sync_prepared lib io raw size mt rep (ok event) r ≡ (err x, s)
    → s.failed ≢ none
unfolding sync_prepared
sync_prepared-err lib io none size mt rep event x r s f m h =
    append_event-err lib io.event event 0 x (assign event r) s f (m event refl) h
sync_prepared-err lib io (some content) size mt rep event x r s f m h =
    let start = assign event r in
    let stored = store_blob lib io.blob content size mt rep event.sequence start in
    let kept = store_blob-Kept lib io.blob content size mt rep event.sequence start in
    sync_stored-err lib io.event event stored.0 x stored.1 s (ground (arith, kept.sequence)) m
      (λ ref is.
        let p =
          store_blob-Published lib io.blob content size mt rep event.sequence ref start stored.1
            (ap (λ y. (y, stored.1)) is) in
        unfold blob_ref in subst (λ (b : BlobRef). is_negative b.size ≡ false) (sym p.0) refl)
      h

append_event-IsHonest :
    (lib : Library) (io : EventIo) (event : Event) (n : ℕ) (r : Recorder)
    → IsHonest r
    → IsHonest (append_event lib io event n r).1
unfolding append_event mark_failed
append_event-IsHonest lib io event n r h complete = ground arith

sync_stored-IsHonest :
    (lib : Library) (io : EventIo) (event : Event) (stored : Result BlobRef) (r : Recorder)
    → IsHonest r
    → IsHonest (sync_stored lib io event (stored, r)).1
unfolding sync_stored append_with_blob mark_failed
sync_stored-IsHonest lib io event (err y) r h complete = ground arith
sync_stored-IsHonest lib io event (ok ref) r h complete = elim (Bool-cases (is_negative ref.size)) [
  | inl below ↦ ground arith
  | inr fits ↦ rw (fits) (
      append_event-IsHonest lib io (record event { blob = some ref }) (nat_part ref.size) r h
        (rw (fits) at complete))
]

pub sync_prepared-IsHonest :
    (lib : Library) (io : JobIo) (raw : Option Bytes) (size : ℤ) (mt rep : String) (event : Event)
    (r : Recorder)
    → IsHonest r
    → IsHonest (sync_prepared lib io raw size mt rep (ok event) r).1
unfolding sync_prepared
sync_prepared-IsHonest lib io none size mt rep event r h =
    append_event-IsHonest lib io.event event 0 (assign event r) h
sync_prepared-IsHonest lib io (some content) size mt rep event r h =
    let start = assign event r in
    let stored = store_blob lib io.blob content size mt rep event.sequence start in
    let kept = store_blob-Kept lib io.blob content size mt rep event.sequence start in
    sync_stored-IsHonest lib io.event event stored.0 stored.1 (ground (arith, h, kept))
