-- ===== src/Capture/Verify/Samples.antt =====
-- Tests of the verification: a capture of one event with a blob, and one with a gap.
use bedrock_debug_proxy.Base.{
  ◌≡◌, refl, List, [], ◌∷◌, ◌++◌, none, some, true, false, Bytes, pos, replicate, lookup, bytes_eq,
}
use bedrock_debug_proxy.Capture.Schema.{Event, BlobRef, Manifest, schema_version}
use bedrock_debug_proxy.Capture.Result.{Result, ok, err}
use bedrock_debug_proxy.Capture.Library.{Library, blob_path, blob_root, escapes, starts_with_parent}
use bedrock_debug_proxy.Capture.Verify.{
  Root, Scan, scan_end, validate_blob_ref, check_content, check_file, verify_blob, sequence_jump,
  manifest_events,
}
use bedrock_debug_proxy.Capture.Verify.Visit.{
  visit, visit_header, visit_blob, visit_new_blob, visit_manifest, report, start_scan, verify,
}
use bedrock_debug_proxy.Capture.Recorder.{inc64, add64}
use bedrock_debug_proxy.Capture.Verify.Intact.{Intact, verify-Intact}

abbrev digest : Bytes
digest = replicate 64 97

abbrev joined : List Bytes → Bytes
joined [] = []
joined (part ∷ parts) = part ++ (47 ∷ joined parts)

abbrev ref : BlobRef
ref = record {
  sha256 = digest;
  size = pos 2;
  path = 120 ∷ [];
  media_type = "";
  representation = "raw";
}

abbrev event : Event
event = record {
  schema = schema_version;
  sequence = 1;
  time = "";
  unix_nano = pos 0;
  elapsed_nano = pos 0;
  capture_id = "id";
  session_id = "";
  connection_id = "";
  hop = pos 0;
  kind = "packet";
  severity = "info";
  direction = "unknown";
  channel = "";
  stage = "";
  source = none;
  destination = none;
  parent_sequence = none;
  packet = none;
  blob = some ref;
  payload = none;
  error_info = none;
  annotations = [];
}

abbrev manifest : Manifest
manifest = record {
  schema = schema_version;
  capture_id = "id";
  started_at = "";
  ended_at = "";
  status = "closed";
  failure = "";
  generator = record {
    name = "";
    version = "";
    commit = "";
    go_version = "";
    goos = "";
    goarch = "";
    executable = "";
  };
  options = record { sync_each_event = false; raw_layers = []; values = [] };
  events_path = "events.jsonl";
  blob_root = blob_root;
  counts = record {
    events = 1;
    blobs = 1;
    blob_bytes = 2;
    write_errors = 0;
    dropped = 0;
    truncated = 0;
    decode_errors = 0;
  };
  completeness = record { complete = true; limitations = [] };
}

-- One event, one manifest, and a constant digest.
abbrev lib : Library
lib = record {
  format_time = λ now. "";
  unix_nano = λ now. pos now;
  elapsed = λ now start. pos now;
  itoa = λ n. "1";
  trim_space = λ text. text;
  valid_json = λ bytes. true;
  marshal_event = λ e. some (123 ∷ 125 ∷ []);
  unmarshal_event = λ bytes. some event;
  marshal_manifest = λ m. some (123 ∷ 125 ∷ []);
  unmarshal_manifest = λ bytes. some manifest;
  hex_digest = λ bytes. digest;
  hex_decodes = λ bytes. true;
  to_lower = λ bytes. bytes;
  join = λ parts. 120 ∷ [];
  clean = λ path. path;
  from_slash = λ path. path;
  to_slash = λ path. path;
  is_abs = λ path. false;
  separator = 47;
}

abbrev stream : List Bytes
stream = (123 ∷ 125 ∷ b'\n' ∷ []) ∷ []

abbrev root_of : List Bytes → Root
root_of lines = record {
  manifest = ok (123 ∷ 125 ∷ []);
  symlinks_error = none;
  events = ok (lines, [], none);
  resolve = λ path. ok path;
  relative = λ path. ok path;
  open_file = λ path. ok (record { mode = ok true; content = ok (7 ∷ 8 ∷ []) });
}

abbrev scan_of : Result Scan → Scan
scan_of (ok s) = s
scan_of (err e) = start_scan manifest

abbrev checked : Scan
checked = scan_of (verify lib (root_of stream))

verifies : verify lib (root_of stream) ≡ ok checked
unfolding verify scan_end
verifies = refl

no_issue : checked.result.issues ≡ []
unfolding verify scan_end validate_blob_ref bytes_eq escapes starts_with_parent verify_blob
    check_file check_content lookup inc64 add64 blob_path visit visit_header visit_blob
    visit_new_blob visit_manifest report
no_issue = refl

-- The same event twice: its number does not follow, and the manifest counts one event only.
twice :
    (scan_of (verify lib (root_of (stream ++ stream)))).result.issues
    ≡ sequence_jump 1 1 ∷ manifest_events 1 2 ∷ []
unfolding verify scan_end validate_blob_ref bytes_eq escapes starts_with_parent verify_blob
    check_file check_content lookup inc64 add64 blob_path visit visit_header visit_blob
    visit_new_blob visit_manifest report
twice = refl

verify_example : Intact lib (root_of stream) checked.result.manifest
verify_example = verify-Intact lib (root_of stream) checked verifies no_issue
