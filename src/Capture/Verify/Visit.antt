-- ===== src/Capture/Verify/Visit.antt =====
-- internal/capture/verify.go: `VerifyWithProgress`, from its callback on an event to its result.
use bedrock_debug_proxy.Base.{
  ℕ, ◌%◌, String, str_eq, [], ◌∷◌, ◌++◌, Option, none, some, Bool, true, false, nat_part, int_eq,
  lookup, ◌==◌, ltb, if◌then◌else◌, not,
}
use bedrock_debug_proxy.Capture.Schema.{Event, BlobRef, Manifest, schema_version}
use bedrock_debug_proxy.Capture.Result.{Result, ok, err, wrapped}
use bedrock_debug_proxy.Capture.Library.{Library, blob_root}
use bedrock_debug_proxy.Capture.Recorder.{inc64, add64}
use bedrock_debug_proxy.Capture.Verify.{
  Root, Issue, event_schema, event_capture_id, sequence_jump, invalid_blob, size_conflict,
  size_overflow, manifest_schema, manifest_events_path, manifest_blob_root, manifest_events,
  manifest_blobs, manifest_blob_bytes, Scan, read_manifest, scan_events, validate_blob_ref,
  verify_blob,
}

-- `result.Issues = append(result.Issues, …)` under a test.
abbrev pub note : Bool → Issue → Scan → Scan
note true issue s = record s { result = record s.result { issues = s.result.issues ++ issue ∷ [] } }
note false issue s = s

unfoldable pub report : String → ℕ → Scan → Scan
report phase sequence s = record s {
  reported =
      s.reported
      ++ record {
        phase = phase;
        events = s.result.events;
        blobs = s.result.blobs;
        blob_bytes = s.blob_bytes;
        last_sequence = sequence;
      }
        ∷ [];
}

-- A blob that no earlier event names: it is counted, and its file is checked.
unfoldable pub visit_new_blob : Library → Root → ℕ → BlobRef → Scan → Scan
visit_new_blob lib root sequence ref s =
    let next_bytes = add64 s.blob_bytes (nat_part ref.size) in
    let counted = record s {
      result = record s.result { blobs = inc64 s.result.blobs };
      seen_blobs = (ref.sha256, ref) ∷ s.seen_blobs;
    } in
    let summed =
      if ltb next_bytes s.blob_bytes
      then note true (size_overflow sequence) counted
      else record counted { blob_bytes = next_bytes } in
    elim (verify_blob lib root (lib.clean (lib.from_slash ref.path)) ref) [
      | none ↦ summed
      | some issue ↦ note true (invalid_blob sequence issue) summed
    ]

unfoldable pub visit_blob : Library → Root → ℕ → Option BlobRef → Scan → Scan
unfolding visit_new_blob
visit_blob lib root sequence none s = s
visit_blob lib root sequence (some ref) s = elim (validate_blob_ref lib ref) [
  | some issue ↦ note true (invalid_blob sequence issue) s
  | none ↦ elim (lookup ref.sha256 s.seen_blobs) [
    | some previous ↦
        note (not (int_eq ref.size previous.size))
          (size_conflict sequence ref.size previous.size ref.sha256) s
    | none ↦ visit_new_blob lib root sequence ref s
  ]
]

-- The tests of an event before its blob.
unfoldable pub visit_header : Event → Scan → Scan
unfolding report
visit_header event s =
    let counted = record s { result = record s.result { events = inc64 s.result.events } } in
    let s1 =
      note (not (str_eq event.schema schema_version)) (event_schema event.sequence event.schema)
        counted in
    let s2 =
      note (not (str_eq event.capture_id s.result.manifest.capture_id))
        (event_capture_id event.sequence event.capture_id) s1 in
    let s3 =
      note (not (event.sequence == inc64 s.previous_sequence))
        (sequence_jump s.previous_sequence event.sequence) s2 in
    let s4 = record s3 { previous_sequence = event.sequence } in
    if (s4.result.events % 10000) == 0 then report "events" event.sequence s4 else s4

unfoldable pub visit : Library → Root → Scan → Event → Result Scan
unfolding visit_header visit_blob
visit lib root s event = ok (visit_blob lib root event.sequence event.blob (visit_header event s))

-- The tests of the manifest after the scan.
unfoldable pub visit_manifest : Scan → Scan
unfolding report
visit_manifest s =
    let m = s.result.manifest in
    let s1 =
      note (not (str_eq m.schema schema_version)) (manifest_schema m.schema)
        (report "manifest" s.previous_sequence s) in
    let s2 =
      note (not (str_eq m.events_path "events.jsonl")) (manifest_events_path m.events_path) s1 in
    let s3 = note (not (str_eq m.blob_root blob_root)) (manifest_blob_root m.blob_root) s2 in
    let s4 =
      note (not (m.counts.events == s.result.events))
        (manifest_events m.counts.events s.result.events) s3 in
    let s5 =
      note (not (m.counts.blobs == s.result.blobs)) (manifest_blobs m.counts.blobs s.result.blobs)
        s4 in
    let s6 =
      note (not (m.counts.blob_bytes == s.blob_bytes))
        (manifest_blob_bytes m.counts.blob_bytes s.blob_bytes) s5 in
    report "complete" s.previous_sequence s6

unfoldable pub start_scan : Manifest → Scan
unfolding report
start_scan m = report "events" 0 (record {
  result = record { manifest = m; events = 0; blobs = 0; issues = [] };
  seen_blobs = [];
  previous_sequence = 0;
  blob_bytes = 0;
  reported = [];
})

unfoldable pub verify : Library → Root → Result Scan
unfolding read_manifest start_scan scan_events visit visit_manifest
verify lib root = elim (read_manifest lib root) [
  | err e ↦ err e
  | ok m ↦ elim root.symlinks_error [
    | some e ↦ err (wrapped "resolve capture root" e)
    | none ↦ elim (scan_events lib root (visit lib root) (start_scan m)) [
      | err e ↦ err e
      | ok s ↦ ok (visit_manifest s)
    ]
  ]
]
