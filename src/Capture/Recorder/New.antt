-- ===== src/Capture/Recorder/New.antt =====
-- internal/capture/recorder.go: `Options` and `New`.
use bedrock_debug_proxy.Base.{
  ℕ, ◌*◌, ◌^◌, String, str_eq, List, [], ◌∷◌, Option, none, some, Bool, true, false, ℤ, pos, negsuc,
  if◌then◌else◌,
}
use bedrock_debug_proxy.Capture.Schema.{schema_version}
use bedrock_debug_proxy.Capture.Result.{Error, Result, ok, err, wrapped, root_empty}
use bedrock_debug_proxy.Capture.Library.{Library, blob_root}
use bedrock_debug_proxy.Capture.Recorder.{Recorder, running}
use bedrock_debug_proxy.Capture.Recorder.Close.{ManifestIo, write_manifest, put_value}

pub record Options : Type 0 where
  pub capture_id : String
  pub generator_name : String
  pub version : String
  pub commit : String
  pub sync_each_event : Bool
  pub writer_queue_capacity : ℤ
  pub writer_queue_bytes : ℤ
  pub raw_layers : List String
  pub values : List (String × String)
  pub limitations : List String

-- The answers of the operating system and of the runtime.
pub record NewIo : Type 0 where
  pub directory_error : Option Error  -- requireEmptyOrMissingDirectory
  pub mkdir_error : Option Error
  pub open_error : Option Error
  pub random_id : Result String
  pub go_version : String
  pub goos : String
  pub goarch : String
  pub executable : String
  pub manifest : ManifestIo

abbrev pub default_writer_queue_capacity : ℕ
default_writer_queue_capacity = 65536

abbrev pub default_writer_queue_bytes : ℕ
default_writer_queue_bytes = 64 * 2 ^ 20

-- `if value <= 0 { value = fallback }`
unfoldable pub positive_or : ℤ → ℕ → ℕ
positive_or (pos ℕ.zero) fallback = fallback
positive_or (pos (ℕ.suc n)) fallback = ℕ.suc n
positive_or (negsuc n) fallback = fallback

abbrev is_empty : List String → Bool
is_empty [] = true
is_empty (x ∷ xs) = false

unfoldable pub writer_values : Library → ℕ → ℕ → List (String × String) → List (String × String)
writer_values lib capacity bytes values = put_value "capture_writer_loss_policy" "never_drop" (
    put_value "capture_writer_backpressure" "block" (
      put_value "capture_writer_queue_bytes" (lib.itoa bytes) (
        put_value "capture_writer_queue_capacity" (lib.itoa capacity)
          (put_value "capture_writer" "ordered_async" values))))

-- The recorder before its first manifest is written.
unfoldable pub initial : Library → NewIo → Options → (now : ℕ) → String → Recorder
unfolding positive_or writer_values
initial lib io options start capture_id =
    let capacity = positive_or options.writer_queue_capacity default_writer_queue_capacity in
    let bytes = positive_or options.writer_queue_bytes default_writer_queue_bytes in
    record {
      disk = record { events = []; blobs = []; temporaries = []; manifest = none };
      start = start;
      sequence = 0;
      assigned_sequence = 0;
      seen_blob = [];
      blob_dirs = [];
      failed = none;
      is_closed = false;
      manifest = record {
        schema = schema_version;
        capture_id = capture_id;
        started_at = lib.format_time start;
        ended_at = "";
        status = "open";
        failure = "";
        generator = record {
          name =
              if str_eq options.generator_name ""
              then "bedrock-debug-proxy"
              else options.generator_name;
          version = options.version;
          commit = options.commit;
          go_version = io.go_version;
          goos = io.goos;
          goarch = io.goarch;
          executable = io.executable;
        };
        options = record {
          sync_each_event = options.sync_each_event;
          raw_layers = options.raw_layers;
          values = writer_values lib capacity bytes options.values;
        };
        events_path = "events.jsonl";
        blob_root = blob_root;
        counts = record {
          events = 0;
          blobs = 0;
          blob_bytes = 0;
          write_errors = 0;
          dropped = 0;
          truncated = 0;
          decode_errors = 0;
        };
        completeness = record {
          complete = is_empty options.limitations;
          limitations = options.limitations;
        };
      };
      queue = [];
      queue_capacity = capacity;
      queue_closed = false;
      writer = running;
      writer_stopped = false;
      idle_closed = true;
      pending = 0;
      pending_bytes = 0;
      queue_peak_records = 0;
      queue_peak_bytes = 0;
      queue_byte_limit = bytes;
    }

-- With a manifest on disk, or without a recorder.
unfoldable pub with_manifest : Option Error × Recorder → Result Recorder
with_manifest (none, r) = ok r
with_manifest (some e, r) = err e

unfoldable pub choose_id : String → Result String → Result String
choose_id given random = if str_eq given "" then random else ok given

unfoldable pub start_recorder : Library → NewIo → Options → ℕ → Result String → Result Recorder
unfolding with_manifest initial
start_recorder lib io options start (err e) = err (wrapped "create capture ID" e)
start_recorder lib io options start (ok id) =
    with_manifest (write_manifest lib io.manifest (initial lib io options start id))

unfoldable pub new : Library → NewIo → String → Options → (now : ℕ) → Result Recorder
unfolding start_recorder choose_id
new lib io root options now =
    if str_eq (lib.trim_space root) "" then err root_empty else elim io.directory_error [
      | some e ↦ err e
      | none ↦ elim io.mkdir_error [
        | some e ↦ err (wrapped "create capture directories" e)
        | none ↦ elim io.open_error [
          | some e ↦ err (wrapped "create event stream" e)
          | none ↦ start_recorder lib io options now (choose_id options.capture_id io.random_id)
        ]
      ]
    ]
