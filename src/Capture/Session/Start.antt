-- ===== src/Capture/Session/Start.antt =====
-- The session that `New` starts, and what follows of the queue in every session reached from it.
use bedrock_debug_proxy.Base.{
  ℕ, ◌<◌, ◌≡◌, String, [], Option, none, some, true, false, arith, subst,
}
use bedrock_debug_proxy.Capture.Schema.{schema_version}
use bedrock_debug_proxy.Capture.Result.{Error, Result, ok, err}
use bedrock_debug_proxy.Capture.Library.{Library, blob_root}
use bedrock_debug_proxy.Capture.Recorder.{Recorder, running}
use bedrock_debug_proxy.Capture.Recorder.Close.{write_manifest}
use bedrock_debug_proxy.Capture.Recorder.New.{
  NewIo, Options, new, initial, with_manifest, start_recorder, choose_id,
}
use bedrock_debug_proxy.Capture.Session.{Session, free, Reach, here, next}
use bedrock_debug_proxy.Capture.Session.Queue.{IsAccounted, Step-IsAccounted}

abbrev pub session_of : Recorder → Session
session_of r = record { recorder = r; phase = free; accepted = []; persisted = []; lost = [] }

-- A recorder with nothing recorded.
pub record IsFresh (r : Recorder) : Type 0 where
  pub queue : r.queue ≡ []
  pub pending : r.pending ≡ 0
  pub pending_bytes : r.pending_bytes ≡ 0
  pub idle_closed : r.idle_closed ≡ true
  pub has_capacity : 0 < r.queue_capacity
  pub has_budget : 0 < r.queue_byte_limit
  pub queue_closed : r.queue_closed ≡ false
  pub sequence : r.sequence ≡ 0
  pub assigned_sequence : r.assigned_sequence ≡ 0
  pub seen_blob : r.seen_blob ≡ []
  pub failed : r.failed ≡ none
  pub is_closed : r.is_closed ≡ false
  pub writer : r.writer ≡ running
  pub events : r.disk.events ≡ []
  pub blobs : r.disk.blobs ≡ []
  pub temporaries : r.disk.temporaries ≡ []
  pub schema : r.manifest.schema ≡ schema_version
  pub events_path : r.manifest.events_path ≡ "events.jsonl"
  pub blob_root : r.manifest.blob_root ≡ blob_root
  pub event_count : r.manifest.counts.events ≡ 0
  pub blob_count : r.manifest.counts.blobs ≡ 0
  pub blob_bytes : r.manifest.counts.blob_bytes ≡ 0
  pub dropped : r.manifest.counts.dropped ≡ 0

initial-IsFresh :
    (lib : Library) (io : NewIo) (options : Options) (now : ℕ) (id : String)
    → IsFresh (write_manifest lib io.manifest (initial lib io options now id)).1
unfolding initial write_manifest
initial-IsFresh lib io options now id = ground arith

with_manifest-ok : (p : Option Error × Recorder) (r : Recorder) → with_manifest p ≡ ok r → p.1 ≡ r
unfolding with_manifest
with_manifest-ok (none, r') r e = cc
with_manifest-ok (some x, r') r e = cc

start_recorder-IsFresh :
    (lib : Library) (io : NewIo) (options : Options) (now : ℕ) (id : Result String) (r : Recorder)
    → start_recorder lib io options now id ≡ ok r
    → IsFresh r
unfolding start_recorder
start_recorder-IsFresh lib io options now (err x) r e = cc
start_recorder-IsFresh lib io options now (ok id) r e =
    subst IsFresh
      (with_manifest-ok (write_manifest lib io.manifest (initial lib io options now id)) r e)
      (initial-IsFresh lib io options now id)

pub new-IsFresh :
    (lib : Library) (io : NewIo) (root : String) (options : Options) (now : ℕ) (r : Recorder)
    → new lib io root options now ≡ ok r
    → IsFresh r
unfolding new
new-IsFresh lib io root options now r e =
    start_recorder-IsFresh lib io options now (choose_id options.capture_id io.random_id) r
      (ground arith)

-- In every session that starts with `New`, the queue is accounted for.
pub Reach-IsAccounted :
    (lib : Library) {s t : Session}
    → IsAccounted s.phase s.recorder
    → Reach lib s t
    → IsAccounted t.phase t.recorder
Reach-IsAccounted lib h here = h
Reach-IsAccounted lib h (next r st) = Step-IsAccounted lib st (Reach-IsAccounted lib h r)

pub new-IsAccounted : (r : Recorder) → IsFresh r → IsAccounted free r
new-IsAccounted r f = ground arith
