-- ===== src/Capture/Session/Stream.antt =====
-- The lists `persisted` and `lost` of a session against the files and the manifest of
-- internal/capture/recorder.go: the bytes of the event stream, and the count of dropped events.
use bedrock_debug_proxy.Base.{
  ℕ, ◌+◌, ◌≡◌, ◌≢◌, refl, sym, ap, ◌∙◌, List, [], ◌∷◌, ◌++◌, none, some, Bytes, append_assoc,
  append-nil, if◌then◌else◌,
}
use bedrock_debug_proxy.Capture.Schema.{Event}
use bedrock_debug_proxy.Capture.Library.{Library}
use bedrock_debug_proxy.Capture.Recorder.{Recorder}
use bedrock_debug_proxy.Capture.Session.{Session, Step, loses, Reach, here, next}

-- The bytes that are the lines of some events: each is the event's encoding and a line break.
pub data IsStream (lib : Library) : List Event → Bytes → Type 0 where
  stream_end : IsStream lib [] []
  stream_line :
      {es : List Event} {bytes : Bytes} (e : Event) (line : Bytes)
      → IsStream lib es bytes
      → lib.marshal_event e ≡ some line
      → IsStream lib (es ++ e ∷ []) (bytes ++ (line ++ b'\n' ∷ []))

-- The file events.jsonl begins with the lines of some events, and these are all of it until the
-- recorder fails. What follows then is what a failing write or Sync left behind them.
pub record IsOnDisk (lib : Library) (es : List Event) (r : Recorder) : Type 0 where
  pub whole : Bytes
  pub rest : Bytes
  pub lines : IsStream lib es whole
  pub events : r.disk.events ≡ whole ++ rest
  pub all_of_it : r.failed ≡ none → rest ≡ []

-- What callers of `AddLoss` declared as dropped along a path; a closed recorder refuses it.
abbrev pub declared_by : {lib : Library} {s t : Session} → Step lib s t → ℕ
declared_by {s = s} (loses dropped truncated reason) = if s.recorder.is_closed then 0 else dropped
declared_by step = 0

abbrev pub declared_losses : {lib : Library} {s t : Session} → Reach lib s t → ℕ
declared_losses here = 0
declared_losses (next path step) = declared_losses path + declared_by step

module _ (lib : Library) where
  pub SameStream-IsOnDisk :
      (es : List Event) (r s : Recorder)
      → s.disk.events ≡ r.disk.events
      → s.failed ≡ r.failed
      → IsOnDisk lib es r
      → IsOnDisk lib es s
  SameStream-IsOnDisk es r s same failed d = record {
    whole = d.whole;
    rest = d.rest;
    lines = d.lines;
    events = same ∙ d.events;
    all_of_it = λ fine. d.all_of_it (sym failed ∙ fine);
  }

  -- A failure leaves what it wrote behind the lines.
  pub failed-IsOnDisk :
      (es : List Event) (r s : Recorder) (more : Bytes)
      → s.disk.events ≡ r.disk.events ++ more
      → s.failed ≢ none
      → IsOnDisk lib es r
      → IsOnDisk lib es s
  failed-IsOnDisk es r s more same broken d = record {
    whole = d.whole;
    rest = d.rest ++ more;
    lines = d.lines;
    events = same ∙ ap (λ (x : Bytes). x ++ more) d.events ∙ append_assoc d.whole d.rest more;
    all_of_it = λ fine. absurd (broken fine);
  }

  pub committed-IsOnDisk :
      (es : List Event) (e : Event) (r s : Recorder) (line : Bytes)
      → lib.marshal_event e ≡ some line
      → s.disk.events ≡ r.disk.events ++ (line ++ b'\n' ∷ [])
      → r.failed ≡ none
      → IsOnDisk lib es r
      → IsOnDisk lib (es ++ e ∷ []) s
  committed-IsOnDisk es e r s line encodes same fine d = record {
    whole = d.whole ++ (line ++ b'\n' ∷ []);
    rest = [];
    lines = stream_line e line d.lines encodes;
    events =
        same
        ∙ ap (λ (x : Bytes). x ++ (line ++ b'\n' ∷ []))
            (d.events ∙ ap (λ (x : Bytes). d.whole ++ x) (d.all_of_it fine) ∙ append-nil d.whole)
        ∙ sym (append-nil (d.whole ++ (line ++ b'\n' ∷ [])));
    all_of_it = λ _. refl;
  }
