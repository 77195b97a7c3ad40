-- ===== src/Bedrock/Observer.antt =====
-- internal/bedrock/observer.go: which way a packet went, and the record of it. `flows` is the map as
-- a function; the lock makes each operation one step. A nil address is `none`.
pub mod Flows
pub mod Identity
use bedrock_debug_proxy.Base.{
  ℕ, String, str_eq, List, [], ◌∷◌, Option, none, some, Bool, true, false, Bytes, ℤ, pos,
  if◌then◌else◌, ◌&&◌, ◌||◌, not,
}
use bedrock_debug_proxy.Capture.Direction as Direction
use bedrock_debug_proxy.Capture.Schema.{Event, Endpoint, PacketInfo, Record}
use bedrock_debug_proxy.Capture.Result.{Error, Result, ok, err}
use bedrock_debug_proxy.Bedrock.Failures.{FailureSink, set_failure}

-- `Network()` and `String()` of a net.Addr.
pub record Addr : Type 0 where
  pub network : String
  pub text : String

pub record Flow : Type 0 where
  pub local : String
  pub remote : String
  pub connection_id : String
  pub hop : ℤ

pub record Observer : Type 0 where
  pub session_id : String
  pub hop : ℤ
  pub flows : String → List Flow

-- packet.Header.
pub record Header : Type 0 where
  pub packet_id : ℕ
  pub sender_sub_client : ℕ
  pub target_sub_client : ℕ

unfoldable pub new_observer : String → ℤ → Observer
new_observer session_id hop = record { session_id = session_id; hop = hop; flows = λ channel. [] }

abbrev pub is_flow : String → String → Flow → Bool
is_flow local remote f = str_eq f.local local && str_eq f.remote remote

-- The first flow of the same addresses is replaced, or the flow is appended.
unfoldable pub put_flow : Flow → List Flow → List Flow
put_flow f [] = f ∷ []
put_flow f (g ∷ flows) =
    let rest = put_flow f flows in if is_flow f.local f.remote g then f ∷ flows else g ∷ rest

unfoldable pub set_flow_with_identity :
    String → (local remote : Option Addr) → String → ℤ → Observer → Observer
unfolding put_flow
set_flow_with_identity channel none remote id hop o = o
set_flow_with_identity channel (some local) none id hop o = o
set_flow_with_identity channel (some local) (some remote) id hop o =
    let f : Flow = record {
      local = local.text;
      remote = remote.text;
      connection_id = id;
      hop = hop;
    } in
    record o { flows = λ c. if str_eq c channel then put_flow f (o.flows channel) else o.flows c }

unfoldable pub set_flow : String → (local remote : Option Addr) → Observer → Observer
unfolding set_flow_with_identity
set_flow channel local remote o = set_flow_with_identity channel local remote "" (pos 0) o

unfoldable pub set_hop : ℤ → Observer → Observer
set_hop hop o = record o { hop = hop }

abbrev pub reads : String → String → Flow → Bool
reads source destination f = str_eq source f.remote && str_eq destination f.local

abbrev pub writes : String → String → Flow → Bool
writes source destination f = str_eq source f.local && str_eq destination f.remote

-- The direction of a packet that was read, or else written, on a channel.
unfoldable pub direction_on : String → (read write : Bool) → Option String
direction_on channel read write =
    if not (read || write)
    then none
    else if str_eq channel "downstream"
    then some (if read then Direction.client_to_server else Direction.server_to_client)
    else if str_eq channel "upstream"
    then some (if read then Direction.server_to_client else Direction.client_to_server)
    else none

-- The loop of `classify`, from the last flow to the first.
unfoldable pub classify_flows :
    String → (source destination : String) → List Flow → Option (String × Flow)
unfolding direction_on
classify_flows channel source destination [] = none
classify_flows channel source destination (f ∷ flows) =
    elim (classify_flows channel source destination flows) [
      | some later ↦ some later
      | none ↦
          elim (direction_on channel (reads source destination f) (writes source destination f)) [
            | some direction ↦ some (direction, f)
            | none ↦ none
          ]
    ]

abbrev pub or_unknown : Option (String × Flow) → String × Option Flow
or_unknown none = (Direction.unknown, none)
or_unknown (some (direction, f)) = (direction, some f)

unfoldable pub classify :
    String → (source destination : Option Addr) → Observer → String × Option Flow
unfolding classify_flows
classify channel none destination o = (Direction.unknown, none)
classify channel (some source) none o = (Direction.unknown, none)
classify channel (some source) (some destination) o =
    or_unknown (classify_flows channel source.text destination.text (o.flows channel))

abbrev pub endpoint : Option Addr → Option Endpoint
endpoint none = none
endpoint (some a) = some (record { network = a.network; address = a.text })

-- The identity of the flow, where it has one, or that of the listener.
unfoldable pub identity_of : Option Flow → String → ℤ → String × ℤ
identity_of none id hop = (id, hop)
identity_of (some f) id hop =
    if str_eq f.connection_id "" then (id, hop) else (f.connection_id, f.hop)

-- What the callback of `PacketFuncDynamic` gives to `Record`; the fields that it leaves out are zero.
unfoldable pub packet_record :
    String
    → (connection_id : String) → Header
    → Bytes
    → (source destination : Option Addr) → Observer
    → Record
unfolding classify identity_of
packet_record channel connection_id header payload source destination o =
    let (direction, f) = classify channel source destination o in
    let (id, hop) = identity_of f connection_id o.hop in
    record {
      event = record {
        schema = "";
        sequence = 0;
        time = "";
        unix_nano = pos 0;
        elapsed_nano = pos 0;
        capture_id = "";
        session_id = o.session_id;
        connection_id = id;
        hop = hop;
        kind = "packet.raw";
        severity = "";
        direction = direction;
        channel = channel;
        stage = "post_decrypt_decompress_frame";
        source = endpoint source;
        destination = endpoint destination;
        parent_sequence = none;
        packet = some (record {
          id = header.packet_id;
          name = "";
          go_type = "";
          sender_sub_client = header.sender_sub_client;
          target_sub_client = header.target_sub_client;
          decode_status = "not_yet_decoded";
          unread_bytes = pos 0;
        });
        blob = none;
        payload = none;
        error_info = none;
        annotations = [];
      };
      raw = some payload;
      media_type = "application/octet-stream";
      representation = "bedrock_packet_payload";
    }

-- `o.failures.Set(err)` for an error of `Record`.
unfoldable pub note_recorded : Result Event → FailureSink Error → FailureSink Error
note_recorded (ok event) sink = sink
note_recorded (err e) sink = set_failure (some e) sink
