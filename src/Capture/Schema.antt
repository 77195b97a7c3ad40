-- ===== src/Capture/Schema.antt =====
-- internal/capture/schema.go. Texts that the code only stores or compares are `String`; paths,
-- digests and payloads, which it cuts or writes, are byte strings (`List ℕ`).
use bedrock_debug_proxy.Base.{ℕ, String, List, Option, Bool, ℤ, Bytes}

abbrev pub schema_version : String
schema_version = "bedrockdebugproxy.capture.v1"

pub record Endpoint : Type 0 where
  pub network : String
  pub address : String

pub record BlobRef : Type 0 where
  pub sha256 : Bytes
  pub size : ℤ
  pub path : Bytes
  pub media_type : String
  pub representation : String

pub record PacketInfo : Type 0 where
  pub id : ℕ
  pub name : String
  pub go_type : String
  pub sender_sub_client : ℕ
  pub target_sub_client : ℕ
  pub decode_status : String
  pub unread_bytes : ℤ

pub record ErrorInfo : Type 0 where
  pub operation : String
  pub message : String
  pub type : String
  pub temporary : Option Bool
  pub timeout : Option Bool

pub record Event : Type 0 where
  pub schema : String
  pub sequence : ℕ
  pub time : String
  pub unix_nano : ℤ
  pub elapsed_nano : ℤ
  pub capture_id : String
  pub session_id : String
  pub connection_id : String
  pub hop : ℤ
  pub kind : String
  pub severity : String
  pub direction : String
  pub channel : String
  pub stage : String
  pub source : Option Endpoint
  pub destination : Option Endpoint
  pub parent_sequence : Option ℕ
  pub packet : Option PacketInfo
  pub blob : Option BlobRef
  pub payload : Option Bytes  -- `Data`, with nil as `none`
  pub error_info : Option ErrorInfo  -- `Error`
  pub annotations : List String

pub record Generator : Type 0 where
  pub name : String
  pub version : String
  pub commit : String
  pub go_version : String
  pub goos : String
  pub goarch : String
  pub executable : String

pub record CaptureOptions : Type 0 where
  pub sync_each_event : Bool
  pub raw_layers : List String
  pub values : List (String × String)

pub record CaptureCounts : Type 0 where
  pub events : ℕ
  pub blobs : ℕ
  pub blob_bytes : ℕ
  pub write_errors : ℕ
  pub dropped : ℕ
  pub truncated : ℕ
  pub decode_errors : ℕ

pub record Completeness : Type 0 where
  pub complete : Bool
  pub limitations : List String

pub record Manifest : Type 0 where
  pub schema : String
  pub capture_id : String
  pub started_at : String
  pub ended_at : String
  pub status : String
  pub failure : String
  pub generator : Generator
  pub options : CaptureOptions
  pub events_path : String
  pub blob_root : String
  pub counts : CaptureCounts
  pub completeness : Completeness

pub record Record : Type 0 where
  pub event : Event
  pub raw : Option Bytes
  pub media_type : String
  pub representation : String
