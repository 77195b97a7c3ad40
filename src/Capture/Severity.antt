-- ===== src/Capture/Severity.antt =====
-- The constants of type Severity in internal/capture/schema.go.
use bedrock_debug_proxy.Base.{String}

abbrev pub debug : String
debug = "debug"

abbrev pub info : String
info = "info"

abbrev pub warn : String
warn = "warn"

abbrev pub error : String
error = "error"
