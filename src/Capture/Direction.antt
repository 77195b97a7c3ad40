-- ===== src/Capture/Direction.antt =====
-- The constants of type Direction in internal/capture/schema.go.
use bedrock_debug_proxy.Base.{String}

abbrev pub client_to_server : String
client_to_server = "client_to_server"

abbrev pub server_to_client : String
server_to_client = "server_to_client"

abbrev pub internal : String
internal = "internal"

abbrev pub unknown : String
unknown = "unknown"
