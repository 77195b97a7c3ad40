-- ===== src/Capture/Recorder/Stored.antt =====
-- What storing a blob does: the reference that it returns, and the file behind it.
use bedrock_debug_proxy.Base.{
  ℕ, String, List, ◌∷◌, none, some, Bytes, ℤ, ◌≡◌, ◌⊎◌, inl, inr, arith, length, lookup,
  Option-cases,
}
use bedrock_debug_proxy.Capture.Schema.{BlobRef}
use bedrock_debug_proxy.Capture.Result.{ok}
use bedrock_debug_proxy.Capture.Library.{Library, blob_path}
use bedrock_debug_proxy.Capture.Recorder.{Recorder}
use bedrock_debug_proxy.Capture.Recorder.Blob.{BlobIo, blob_ref, publish_blob, store_blob}

-- Storing a blob touches blob files, temporary files and the directory cache only.
pub record Kept (r s : Recorder) : Type 0 where
  pub events : s.disk.events ≡ r.disk.events
  pub sequence : s.sequence ≡ r.sequence
  pub failed : s.failed ≡ r.failed
  pub manifest : s.manifest ≡ r.manifest
  pub seen_blob : s.seen_blob ≡ r.seen_blob

pub Kept-refl : (r : Recorder) → Kept r r
Kept-refl r = ground arith

publish_blob-Kept :
    (io : BlobIo) (ref : BlobRef) (raw : Bytes) (n : ℕ) (r : Recorder)
    → Kept r (publish_blob io ref raw n r).1
unfolding publish_blob
publish_blob-Kept io ref raw n r = ground arith

pub store_blob-Kept :
    (lib : Library) (io : BlobIo) (raw : Bytes) (size : ℤ) (mt rep : String) (n : ℕ) (r : Recorder)
    → Kept r (store_blob lib io raw size mt rep n r).1
unfolding store_blob
store_blob-Kept lib io raw size mt rep n r = ground arith

-- A file is there under the path, and has the length of the bytes; a new file has the bytes.
abbrev pub Published : Bytes → Bytes → List (Bytes × Bytes) → List (Bytes × Bytes) → Type 0
Published path raw old new =
    ((q : Bytes) × (lookup path old ≡ some q) × (length q ≡ length raw) × (new ≡ old))
    ⊎ ((lookup path old ≡ none) × (new ≡ (path, raw) ∷ old))

publish_blob-Published :
    (io : BlobIo) (ref x : BlobRef) (raw : Bytes) (n : ℕ) (r s : Recorder)
    → publish_blob io ref raw n r ≡ (ok x, s)
    → (x ≡ ref) × Published ref.path raw r.disk.blobs s.disk.blobs
unfolding publish_blob
publish_blob-Published io ref x raw n r s h = elim (Option-cases (lookup ref.path r.disk.blobs)) [
  | inl fresh ↦ (ground arith, inr (fresh, ground arith))
  | inr (q, there) ↦ (ground arith, inl (q, there, ground arith, ground arith))
]

pub store_blob-Published :
    (lib : Library) (io : BlobIo) (raw : Bytes) (size : ℤ) (mt rep : String) (n : ℕ) (x : BlobRef)
    (r s : Recorder)
    → store_blob lib io raw size mt rep n r ≡ (ok x, s)
    → (x ≡ blob_ref lib (lib.hex_digest raw) (length raw) mt rep)
      × Published (blob_path lib (lib.hex_digest raw)) raw r.disk.blobs s.disk.blobs
unfolding store_blob
store_blob-Published lib io raw size mt rep n x r s h =
    let opened = record r { disk = record r.disk { temporaries = n ∷ r.disk.temporaries } } in
    let ref = blob_ref lib (lib.hex_digest raw) (length raw) mt rep in
    publish_blob-Published io ref x raw n opened s (ground arith)
