-- ===== src/Capture/Verify/Events.antt =====
-- internal/capture/verify.go: what one event adds to a scan that ends without an issue.
use bedrock_debug_proxy.Base.{
  ℕ, ◌≡◌, ◌≢◌, inl, inr, refl, sym, ap, ◌∙◌, str_eq, List, [], ◌∷◌, ◌++◌, Option, none, some, Bool,
  true, false, Bytes, nat_part, int_eq, int_eq_sound, lookup, some_eq, ◌==◌, ltb, not, arith, subst,
  Bool-cases, Option-cases, bytes_eq, bytes_eq_sound,
}
use bedrock_debug_proxy.Capture.Schema.{Event, BlobRef, schema_version}
use bedrock_debug_proxy.Capture.Result.{Result}
use bedrock_debug_proxy.Capture.Library.{Library, blob_path}
use bedrock_debug_proxy.Capture.Recorder.{inc64, add64}
use bedrock_debug_proxy.Capture.Verify.{
  Root, File, Issue, Scan, validate_blob_ref, verify_blob, check_file, check_content, event_schema,
  event_capture_id, sequence_jump, invalid_blob, size_conflict, size_overflow,
}
use bedrock_debug_proxy.Capture.Verify.Visit.{note, visit_new_blob, visit_blob, visit_header}

-- The checks of a blob and of its file find nothing.
abbrev pub Good : Library → Root → BlobRef → Type 0
Good lib root ref =
    (validate_blob_ref lib ref ≡ none)
    × (verify_blob lib root (lib.clean (lib.from_slash ref.path)) ref ≡ none)

abbrev pub GoodBlob : Library → Root → Option BlobRef → Type 0
GoodBlob lib root none = Unit {0}
GoodBlob lib root (some ref) = Good lib root ref

-- What was seen was good, under its own digest.
abbrev pub SeenGood : Library → Root → Scan → Type 0
SeenGood lib root s =
    (k : Bytes) (ref : BlobRef)
    → lookup k s.seen_blobs ≡ some ref
    → (ref.sha256 ≡ k) × Good lib root ref

snoc-ne-nil : (xs : List Issue) (x : Issue) → xs ++ x ∷ [] ≢ []
snoc-ne-nil [] x h = cc
snoc-ne-nil (y ∷ ys) x h = cc

pub not-false : (b : Bool) → not b ≡ false → b ≡ true
not-false true e = refl
not-false false e = cc

-- A note keeps everything but the list of issues, which it leaves empty only without an issue.
pub record Noted (b : Bool) (s t : Scan) : Type 0 where
  pub keeps : t.result.issues ≡ [] → (b ≡ false) × (s.result.issues ≡ [])
  pub manifest : t.result.manifest ≡ s.result.manifest
  pub events : t.result.events ≡ s.result.events
  pub blobs : t.result.blobs ≡ s.result.blobs
  pub seen : t.seen_blobs ≡ s.seen_blobs
  pub previous : t.previous_sequence ≡ s.previous_sequence
  pub bytes : t.blob_bytes ≡ s.blob_bytes

pub note-Noted : (b : Bool) (issue : Issue) (s : Scan) → Noted b s (note b issue s)
note-Noted false issue s = ground arith
note-Noted true issue s = record {
  keeps = λ h. absurd (snoc-ne-nil s.result.issues issue h);
  manifest = refl;
  events = refl;
  blobs = refl;
  seen = refl;
  previous = refl;
  bytes = refl;
}

pub record CleanHeader (event : Event) (s t : Scan) : Type 0 where
  pub clean : s.result.issues ≡ []
  pub schema : str_eq event.schema schema_version ≡ true
  pub capture_id : str_eq event.capture_id s.result.manifest.capture_id ≡ true
  pub follows : (event.sequence == inc64 s.previous_sequence) ≡ true
  pub previous : t.previous_sequence ≡ event.sequence
  pub manifest : t.result.manifest ≡ s.result.manifest
  pub events : t.result.events ≡ inc64 s.result.events
  pub seen : t.seen_blobs ≡ s.seen_blobs

pub visit_header-CleanHeader :
    (event : Event) (s : Scan)
    → (visit_header event s).result.issues ≡ []
    → CleanHeader event s (visit_header event s)
unfolding visit_header
visit_header-CleanHeader event s h =
    let counted = record s { result = record s.result { events = inc64 s.result.events } } in
    let n1 =
      note-Noted (not (str_eq event.schema schema_version))
        (event_schema event.sequence event.schema) counted in
    let s1 =
      note (not (str_eq event.schema schema_version)) (event_schema event.sequence event.schema)
        counted in
    let n2 =
      note-Noted (not (str_eq event.capture_id s.result.manifest.capture_id))
        (event_capture_id event.sequence event.capture_id) s1 in
    let s2 =
      note (not (str_eq event.capture_id s.result.manifest.capture_id))
        (event_capture_id event.sequence event.capture_id) s1 in
    let n3 =
      note-Noted (not (event.sequence == inc64 s.previous_sequence))
        (sequence_jump s.previous_sequence event.sequence) s2 in
    let c3 = n3.keeps (ground (arith, h)) in
    let c2 = n2.keeps c3.1 in
    let c1 = n1.keeps c2.1 in
    record {
      clean = c1.1;
      schema = not-false _ c1.0;
      capture_id = not-false _ c2.0;
      follows = not-false _ c3.0;
      previous = ground arith;
      manifest = ground (arith, n3.manifest, n2.manifest, n1.manifest);
      events = ground (arith, n3.events, n2.events, n1.events);
      seen = ground (arith, n3.seen, n2.seen, n1.seen);
    }

pub record CleanBlob (lib : Library) (root : Root) (blob : Option BlobRef) (s t : Scan)
    : Type 0 where
  pub clean : s.result.issues ≡ []
  pub manifest : t.result.manifest ≡ s.result.manifest
  pub events : t.result.events ≡ s.result.events
  pub previous : t.previous_sequence ≡ s.previous_sequence
  pub good : GoodBlob lib root blob
  pub seen : SeenGood lib root t

SeenGood-cons :
    (lib : Library) (root : Root) (ref : BlobRef) (s : Scan)
    → Good lib root ref
    → SeenGood lib root s
    → (k : Bytes) (p : BlobRef) → lookup k ((ref.sha256, ref) ∷ s.seen_blobs) ≡ some p
    → (p.sha256 ≡ k) × Good lib root p
unfolding lookup
SeenGood-cons lib root ref s good seen k p e = elim (Bool-cases (bytes_eq ref.sha256 k)) [
  | inl same ↦
      let it : ref ≡ p = some_eq ref p (rw (same, lookup) at e) in
      subst (λ (x : BlobRef). (x.sha256 ≡ k) × Good lib root x) it
        (bytes_eq_sound ref.sha256 k same, good)
  | inr other ↦ seen k p (rw (other, lookup) at e)
]

visit_new_blob-CleanBlob :
    (lib : Library) (root : Root) (n : ℕ) (ref : BlobRef) (s : Scan)
    → validate_blob_ref lib ref ≡ none
    → (s.result.issues ≡ [] → SeenGood lib root s)
    → (visit_new_blob lib root n ref s).result.issues ≡ []
    → CleanBlob lib root (some ref) s (visit_new_blob lib root n ref s)
unfolding visit_new_blob
visit_new_blob-CleanBlob lib root n ref s valid seen h =
    elim (Option-cases (verify_blob lib root (lib.clean (lib.from_slash ref.path)) ref)) [
      | inr (issue, bad) ↦
          absurd (snoc-ne-nil _ (invalid_blob n issue) (rw (bad, visit_new_blob) at h))
      | inl fine ↦ elim (Bool-cases (ltb (add64 s.blob_bytes (nat_part ref.size)) s.blob_bytes)) [
        | inl over ↦
            absurd
              (snoc-ne-nil s.result.issues (size_overflow n) (rw (fine, over, visit_new_blob) at h))
        | inr fits ↦
            rw (fine, fits, visit_new_blob)
              (record {
                clean = rw (fine, fits, visit_new_blob) at h;
                manifest = refl;
                events = refl;
                previous = refl;
                good = (valid, fine);
                seen =
                    SeenGood-cons lib root ref s (valid, fine)
                      (seen (rw (fine, fits, visit_new_blob) at h));
              })
      ]
    ]

check_content-same :
    (lib : Library) (ref previous : BlobRef) (content : Bytes)
    → ref.sha256 ≡ previous.sha256
    → ref.size ≡ previous.size
    → check_content lib previous content ≡ none
    → check_content lib ref content ≡ none
unfolding check_content
check_content-same lib ref previous content digest size h = ground (arith, digest, size, h)

check_file-same :
    (lib : Library) (ref previous : BlobRef) (file : Result File)
    → ref.sha256 ≡ previous.sha256
    → ref.size ≡ previous.size
    → check_file lib previous file ≡ none
    → check_file lib ref file ≡ none
unfolding check_file
check_file-same lib ref previous file digest size h =
    ground (arith, check_content-same lib ref previous, digest, size, h)

verify_blob-same :
    (lib : Library) (root : Root) (path : Bytes) (ref previous : BlobRef)
    → ref.sha256 ≡ previous.sha256
    → ref.size ≡ previous.size
    → verify_blob lib root path previous ≡ none
    → verify_blob lib root path ref ≡ none
unfolding verify_blob
verify_blob-same lib root path ref previous digest size h =
    ground (arith, check_file-same lib ref previous (root.open_file path) digest size, h)

-- The path of a valid reference.
pub validate-path :
    (lib : Library) (ref : BlobRef)
    → validate_blob_ref lib ref ≡ none
    → lib.clean (lib.from_slash ref.path) ≡ lib.clean (lib.from_slash (blob_path lib ref.sha256))
unfolding validate_blob_ref
validate-path lib ref h =
    bytes_eq_sound (lib.clean (lib.from_slash ref.path))
      (lib.clean (lib.from_slash (blob_path lib ref.sha256))) (ground (arith, h))

-- The checks of a reference do not read its media type, and its clean path follows from its digest:
-- with the size and the digest of a good one, it is good.
Good-again :
    (lib : Library) (root : Root) (ref previous : BlobRef)
    → validate_blob_ref lib ref ≡ none
    → ref.sha256 ≡ previous.sha256
    → ref.size ≡ previous.size
    → Good lib root previous
    → Good lib root ref
Good-again lib root ref previous valid digest size good =
    let path =
      validate-path lib previous good.0
      ∙ ap (λ x. lib.clean (lib.from_slash (blob_path lib x))) (sym digest)
      ∙ sym (validate-path lib ref valid) in
    (
      valid,
      subst (λ x. verify_blob lib root x ref ≡ none) path
          (verify_blob-same lib root _ ref previous digest size good.1),
    )

pub visit_blob-CleanBlob :
    (lib : Library) (root : Root) (n : ℕ) (blob : Option BlobRef) (s : Scan)
    → (s.result.issues ≡ [] → SeenGood lib root s)
    → (visit_blob lib root n blob s).result.issues ≡ []
    → CleanBlob lib root blob s (visit_blob lib root n blob s)
unfolding visit_blob
visit_blob-CleanBlob lib root n none s seen h = record {
  clean = h;
  manifest = refl;
  events = refl;
  previous = refl;
  good = tt;
  seen = seen h;
}
visit_blob-CleanBlob lib root n (some ref) s seen h =
    elim (Option-cases (validate_blob_ref lib ref)) [
      | inr (issue, bad) ↦
          absurd (snoc-ne-nil s.result.issues (invalid_blob n issue) (rw (bad, visit_blob) at h))
      | inl valid ↦ elim (Option-cases (lookup ref.sha256 s.seen_blobs)) [
        | inl fresh ↦
            rw (valid, fresh, visit_blob)
              (visit_new_blob-CleanBlob lib root n ref s valid seen
                (rw (valid, fresh, visit_blob) at h))
        | inr (previous, there) ↦
            let noted =
              note-Noted (not (int_eq ref.size previous.size))
                (size_conflict n ref.size previous.size ref.sha256) s in
            let clean = noted.keeps (rw (valid, there, visit_blob) at h) in
            let known = seen clean.1 ref.sha256 previous there in
            rw (valid, there, visit_blob)
              (record {
                clean = clean.1;
                manifest = noted.manifest;
                events = noted.events;
                previous = noted.previous;
                good =
                    Good-again lib root ref previous valid (sym known.0)
                      (int_eq_sound ref.size previous.size (not-false _ clean.0)) known.1;
                seen = λ k p e. seen clean.1 k p (ap (lookup k) (sym noted.seen) ∙ e);
              })
      ]
    ]
