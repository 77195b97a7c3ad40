-- ===== src/Capture/Samples.antt =====
-- Tests of the recorder: a small library, a recorder that `New` makes, and a short session in which
-- one event is written, one is queued and one is reserved.
use bedrock_debug_proxy.Base.{
  ◌+◌, ◌%◌, ◌≤◌, ◌<◌, ◌-◌, ◌≡◌, ◌≢◌, ◌⊎◌, refl, [], ◌∷◌, ◌++◌, Option, none, some, true, false, pos,
  length, arith, ◌==◌, contains, lookup,
}
use bedrock_debug_proxy.Capture.Schema.{Event, Record}
use bedrock_debug_proxy.Capture.Result.{Result, ok, err}
use bedrock_debug_proxy.Capture.Library.{Library}
use bedrock_debug_proxy.Capture.Disk.{Writer, write_all, write_rounds, write_all_total, Accepts}
use bedrock_debug_proxy.Capture.Recorder.{
  Recorder, RecordJob, u64, prepare_event, inc64, complete_pending,
}
use bedrock_debug_proxy.Capture.Recorder.Append.{JobIo, write_job}
use bedrock_debug_proxy.Capture.Recorder.Queue.{
  reserve, send, rollback_enqueue, check_record, wait_for_queue_space,
}
use bedrock_debug_proxy.Capture.Recorder.Writer.{run_round, drain_round}
use bedrock_debug_proxy.Capture.Recorder.Close.{ManifestIo, write_manifest}
use bedrock_debug_proxy.Capture.Recorder.New.{Options, NewIo, new, initial}
use bedrock_debug_proxy.Capture.Session.{
  Session, NoClash, Phase, free, granted, holding, grant, reserves, sends, writes, Reach, here,
  next,
}
use bedrock_debug_proxy.Capture.Session.Start.{session_of}
use bedrock_debug_proxy.Capture.Session.Stream.{IsOnDisk, declared_losses}
use bedrock_debug_proxy.Capture.Session.Numbers.{events_of, held_events, Consecutive}
use bedrock_debug_proxy.Capture.Session.Queue.{sum_bytes, held_bytes, held_count}
use bedrock_debug_proxy.Capture.Session.Delivery.{
  accepted-accounted_for, complete-is_lossless, persisted-Consecutive, queued-Consecutive,
  pending-exact, reserved-sends, rounds-do_not_panic, rollback-does_not_panic,
  rollback-frees_number,
}

-- One byte at a time.
abbrev slow : Writer
slow bytes = (1, none)

slow-Accepts : Accepts slow
slow-Accepts b rest = (omega arith, refl)

-- Texts of one byte each.
abbrev lib : Library
lib = record {
  format_time = λ now. "2026-01-01T00:00:00Z";
  unix_nano = λ now. pos now;
  elapsed = λ now start. pos (now - start);
  itoa = λ n. "1";
  trim_space = λ text. text;
  valid_json = λ bytes. true;
  marshal_event = λ event. some (123 ∷ 125 ∷ []);
  unmarshal_event = λ bytes. none;
  marshal_manifest = λ manifest. some (123 ∷ 125 ∷ []);
  unmarshal_manifest = λ bytes. none;
  hex_digest = λ bytes. bytes;
  hex_decodes = λ bytes. true;
  to_lower = λ bytes. bytes;
  join = λ parts. [];
  clean = λ path. path;
  from_slash = λ path. path;
  to_slash = λ path. path;
  is_abs = λ path. false;
  separator = 47;
}

abbrev manifest_io : ManifestIo
manifest_io = record {
  open_error = none;
  write = slow;
  sync_error = none;
  close_error = none;
  rename_error = none;
  removes = true;
  retry_error = none;
}

abbrev new_io : NewIo
new_io = record {
  directory_error = none;
  mkdir_error = none;
  open_error = none;
  random_id = ok "id";
  go_version = "go1.26";
  goos = "linux";
  goarch = "amd64";
  executable = "proxy";
  manifest = manifest_io;
}

abbrev options : Options
options = record {
  capture_id = "";
  generator_name = "";
  version = "1";
  commit = "";
  sync_each_event = true;
  writer_queue_capacity = pos 2;
  writer_queue_bytes = pos 0;
  raw_layers = [];
  values = [];
  limitations = [];
}

abbrev job_io : JobIo
job_io = record {
  blob = record {
    create_error = none;
    copy_error = none;
    sync_error = none;
    close_error = none;
    stat_error = none;
    mkdir_error = none;
    rename_error = none;
    removes = true;
  };
  event = record { write = slow; sync_error = none };
}

abbrev event : Event
event = record {
  schema = "";
  sequence = 0;
  time = "";
  unix_nano = pos 0;
  elapsed_nano = pos 0;
  capture_id = "";
  session_id = "s";
  connection_id = "c";
  hop = pos 0;
  kind = "packet";
  severity = "";
  direction = "";
  channel = "";
  stage = "";
  source = none;
  destination = none;
  parent_sequence = none;
  packet = none;
  blob = none;
  payload = none;
  error_info = none;
  annotations = [];
}

abbrev sample : Record
sample = record {
  event = event;
  raw = some (7 ∷ 8 ∷ []);
  media_type = "application/octet-stream";
  representation = "raw";
}

-- A result that is known to be there.
abbrev known {ℓ} : {A : Type ℓ} → (fallback : A) → Result A → A
known fallback (ok a) = a
known fallback (err e) = fallback

abbrev present {ℓ} : {A : Type ℓ} → (fallback : A) → Option A → A
present fallback (some a) = a
present fallback none = fallback

abbrev blank_job : RecordJob
blank_job = record {
  event = event;
  raw = [];
  has_raw = false;
  media_type = "";
  representation = "";
  bytes = 0;
}

abbrev r0 : Recorder
r0 = (write_manifest lib manifest_io (initial lib new_io options 5 "id")).1

start : new lib new_io "captures/x" options 5 ≡ ok r0
unfolding new initial write_manifest write_all write_rounds
start = refl

-- One event is written, one is queued, and one is reserved.
abbrev reserved : Recorder → Result RecordJob × Recorder
reserved r = reserve lib 6 sample r

abbrev job1 : RecordJob
job1 = known blank_job (reserved r0).0

abbrev r1 : Recorder
r1 = (reserved r0).1

abbrev r2 : Recorder
r2 = send job1 r1

abbrev round : Result Event × Option Recorder
round = run_round lib job_io job1 (record r2 { queue = [] })

abbrev r3 : Recorder
r3 = present r0 round.1

abbrev job2 : RecordJob
job2 = known blank_job (reserved r3).0

abbrev r4 : Recorder
r4 = (reserved r3).1

abbrev r5 : Recorder
r5 = send job2 r4

abbrev job3 : RecordJob
job3 = known blank_job (reserved r5).0

abbrev r6 : Recorder
r6 = (reserved r5).1

abbrev r7 : Recorder
r7 = present r0 (rollback_enqueue job3.event.sequence job3.bytes r6)

abbrev in_phase : Session → Recorder → Phase → Session
in_phase s r p = record s { recorder = r; phase = p }

abbrev s1 : Session
s1 = in_phase (in_phase (session_of r0) r0 (granted sample)) r1 (holding job1)

abbrev s2 : Session
s2 = record s1 { recorder = r2; phase = free; accepted = job1.event ∷ [] }

abbrev s3 : Session
s3 = record s2 { recorder = r3; persisted = job1.event ∷ [] }

abbrev s4 : Session
s4 = in_phase (in_phase s3 r3 (granted sample)) r4 (holding job2)

abbrev s5 : Session
s5 = record s4 { recorder = r5; phase = free; accepted = job1.event ∷ job2.event ∷ [] }

abbrev s6 : Session
s6 = in_phase (in_phase s5 r5 (granted sample)) r6 (holding job3)

reserve-s1 : Reach lib (session_of r0) s1
unfolding check_record wait_for_queue_space reserve run_round send write_manifest write_all
    write_rounds initial prepare_event write_job contains lookup inc64 complete_pending
reserve-s1 =
    next (next here (grant sample refl refl refl))
      (reserves sample 6 job1 r1 refl (omega arith) refl)

send-s2 : Reach lib (session_of r0) s2
unfolding check_record wait_for_queue_space reserve run_round send write_manifest write_all
    write_rounds initial prepare_event write_job contains lookup inc64 complete_pending
send-s2 = next reserve-s1 (sends job1 refl (omega arith))

round-ok : round ≡ (ok job1.event, some r3)
unfolding check_record wait_for_queue_space reserve run_round send write_manifest write_all
    write_rounds initial prepare_event write_job contains lookup inc64 complete_pending
round-ok = refl

no_clash : NoClash lib job1.raw s2.recorder
unfolding check_record wait_for_queue_space reserve run_round send write_manifest write_all
    write_rounds initial prepare_event write_job contains lookup inc64 complete_pending
no_clash q there = absurd (cc there)

write-s3 : Reach lib (session_of r0) s3
unfolding check_record wait_for_queue_space reserve run_round send write_manifest write_all
    write_rounds initial prepare_event write_job contains lookup inc64 complete_pending
write-s3 = next send-s2 (writes job_io job1 [] (ok job1.event) r3 refl refl no_clash round-ok)

reserve-s4 : Reach lib (session_of r0) s4
unfolding check_record wait_for_queue_space reserve run_round send write_manifest write_all
    write_rounds initial prepare_event write_job contains lookup inc64 complete_pending
reserve-s4 =
    next (next write-s3 (grant sample refl refl refl))
      (reserves sample 6 job2 r4 refl (omega arith) refl)

send-s5 : Reach lib (session_of r0) s5
unfolding check_record wait_for_queue_space reserve run_round send write_manifest write_all
    write_rounds initial prepare_event write_job contains lookup inc64 complete_pending
send-s5 = next reserve-s4 (sends job2 refl (omega arith))

reserve-s6 : Reach lib (session_of r0) s6
unfolding check_record wait_for_queue_space reserve run_round send write_manifest write_all
    write_rounds initial prepare_event write_job contains lookup inc64 complete_pending
reserve-s6 =
    next (next send-s5 (grant sample refl refl refl))
      (reserves sample 6 job3 r6 refl (omega arith) refl)

complete-s6 : r6.manifest.completeness.complete ≡ true
unfolding check_record wait_for_queue_space reserve run_round send write_manifest write_all
    write_rounds initial prepare_event write_job contains lookup inc64 complete_pending
complete-s6 = refl

fine-s6 : r6.failed ≡ none
unfolding check_record wait_for_queue_space reserve run_round send write_manifest write_all
    write_rounds initial prepare_event write_job contains lookup inc64 complete_pending
fine-s6 = refl

queue-s6 : r6.queue ≡ job2 ∷ []
unfolding check_record wait_for_queue_space reserve run_round send write_manifest write_all
    write_rounds initial prepare_event write_job contains lookup inc64 complete_pending
queue-s6 = refl

back-s6 : rollback_enqueue job3.event.sequence job3.bytes r6 ≡ some r7
unfolding check_record wait_for_queue_space reserve run_round send write_manifest write_all
    write_rounds initial prepare_event write_job contains lookup inc64 complete_pending
    rollback_enqueue
back-s6 = refl

write_all_example :
    ((write_all slow [] (1 ∷ 2 ∷ 3 ∷ [])).error ≡ none)
    × ((write_all slow [] (1 ∷ 2 ∷ 3 ∷ [])).file ≡ 1 ∷ 2 ∷ 3 ∷ [])
write_all_example = write_all_total slow [] (1 ∷ 2 ∷ 3 ∷ []) slow-Accepts

accepted_example :
    (s6.accepted ≡ s6.persisted ++ (s6.lost ++ events_of s6.recorder.queue))
    × IsOnDisk lib s6.persisted s6.recorder
    × (s6.recorder.manifest.counts.dropped ≡ (declared_losses reserve-s6 + length s6.lost) % u64)
accepted_example = accepted-accounted_for lib new_io "captures/x" options 5 r0 s6 start reserve-s6

complete_example :
    (s6.recorder.failed ≡ none)
    × (s6.lost ≡ [])
    × (s6.persisted ++ events_of s6.recorder.queue ≡ s6.accepted)
complete_example =
    complete-is_lossless lib new_io "captures/x" options 5 r0 s6 start reserve-s6 complete-s6

persisted_example : IsOnDisk lib s6.persisted s6.recorder × Consecutive 0 s6.persisted
persisted_example = persisted-Consecutive lib new_io "captures/x" options 5 r0 s6 start reserve-s6

queued_example :
    (s6.recorder.sequence ≡ length s6.persisted)
    × Consecutive s6.recorder.sequence (events_of s6.recorder.queue ++ held_events s6.phase)
    × (s6.recorder.assigned_sequence
        ≡ s6.recorder.sequence + length (events_of s6.recorder.queue ++ held_events s6.phase))
queued_example = queued-Consecutive lib new_io "captures/x" options 5 r0 s6 start reserve-s6 fine-s6

pending_example :
    (s6.recorder.pending ≡ length s6.recorder.queue + held_count s6.phase)
    × (s6.recorder.pending_bytes ≡ sum_bytes s6.recorder.queue + held_bytes s6.phase)
    × (s6.recorder.pending ≤ s6.recorder.queue_capacity)
    × ((s6.recorder.pending_bytes ≤ s6.recorder.queue_byte_limit) ⊎ (s6.recorder.pending ≤ 1))
    × (s6.recorder.idle_closed ≡ (s6.recorder.pending == 0))
pending_example = pending-exact lib new_io "captures/x" options 5 r0 s6 start reserve-s6

sends_example : length s6.recorder.queue < s6.recorder.queue_capacity
sends_example = reserved-sends lib new_io "captures/x" options 5 r0 s6 start reserve-s6 job3 refl

rounds_example :
    ((run_round lib job_io job2 (record s6.recorder { queue = [] })).1 ≢ none)
    × (drain_round job2 (record s6.recorder { queue = [] }) ≢ none)
rounds_example =
    rounds-do_not_panic lib new_io "captures/x" options 5 r0 s6 start reserve-s6 job_io job2 []
      queue-s6

rollback_panic_example : rollback_enqueue job3.event.sequence job3.bytes s6.recorder ≢ none
rollback_panic_example =
    rollback-does_not_panic lib new_io "captures/x" options 5 r0 s6 start reserve-s6 job3 refl

rollback_example :
    (job3.event.sequence ≡ s6.recorder.assigned_sequence)
    × (r7.assigned_sequence ≡ job3.event.sequence - 1)
rollback_example =
    rollback-frees_number lib new_io "captures/x" options 5 r0 s6 start reserve-s6 job3 r7 refl
      fine-s6 back-s6
