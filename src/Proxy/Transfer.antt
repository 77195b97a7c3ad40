-- ===== src/Proxy/Transfer.antt =====
-- internal/proxy/transfer.go. The packages net, strconv and strings are a parameter.
use bedrock_debug_proxy.Base.{
  ℕ, ◌≡◌, ◌≢◌, String, str_eq, Option, none, some, Bool, if◌then◌else◌, ◌||◌,
}
use bedrock_debug_proxy.Proxy.Config.{Net, ConfigError, validate_address}

pub record TransferNet : Type 0 where
  pub net : Net
  pub trim_brackets : String → String  -- strings.Trim(host, "[]")
  pub join_host_port : String → String → String
  pub format_port : ℕ → String  -- strconv.Itoa
  pub parse_port : String → Option ℕ  -- strconv.ParseUint(port, 10, 16)

-- packet.Transfer; GatheringJoinInfo, which is only passed on, is of type `V`.
pub record Transfer (V : Type 0) : Type 0 where
  pub address : String
  pub port : ℕ
  pub reload_world : Bool
  pub gathering_join_info : V

pub data TransferError : Type 0 where
  address_empty split_proxy parse_proxy_port : TransferError
  invalid_target : String → ConfigError → TransferError
  listener_unusable : ConfigError → TransferError
  listener_unreachable : String → TransferError

pub data Rewriting (V : Type 0) : Type 0 where
  rewritten : Transfer V → (target : String) → Rewriting V
  not_rewritten : TransferError → Rewriting V

abbrev pub is_unreachable : String → Bool
is_unreachable host =
    str_eq host "" || (str_eq host "0.0.0.0" || (str_eq host "::" || str_eq host "::0"))

abbrev pub with_address : {V : Type 0} → Transfer V → String → ℕ → Transfer V
with_address t host port = record t { address = host; port = port }

-- The host of an address; the empty one where it cannot be split.
abbrev pub host_of : Option (String × String) → String
host_of none = ""
host_of (some (host, port)) = host

unfoldable pub validate_proxy_transfer_address : TransferNet → String → Option TransferError
validate_proxy_transfer_address n address = elim (validate_address n.net address) [
  | some e ↦ some (listener_unusable e)
  | none ↦
      let host = host_of (n.net.split_host_port address) in
      if is_unreachable (n.net.trim_space (n.trim_brackets host))
      then some (listener_unreachable address)
      else none
]

record Reachable (host : String) : Type 0 where
  named : host ≢ ""
  not_any4 : host ≢ "0.0.0.0"
  not_any6 : host ≢ "::"
  not_any6_long : host ≢ "::0"

module _ {V : Type 0} (n : TransferNet) where
  unfoldable pub target_of : Transfer V → String
  target_of t =
      n.join_host_port (n.trim_brackets (n.net.trim_space t.address)) (n.format_port t.port)

  unfoldable pub rewrite_to :
      Transfer V → Option (String × String) → (target : String) → Rewriting V
  rewrite_to t none target = not_rewritten split_proxy
  rewrite_to t (some (host, port)) target = elim (n.parse_port port) [
    | none ↦ not_rewritten parse_proxy_port
    | some p ↦ rewritten (with_address t host p) target
  ]

  -- The transfer that the client gets, and the original target.
  unfoldable pub transfer_for_proxy_address : Transfer V → (proxy_address : String) → Rewriting V
  unfolding target_of rewrite_to
  transfer_for_proxy_address t proxy_address =
      if str_eq (n.net.trim_space t.address) ""
      then not_rewritten address_empty
      else elim (validate_address n.net (target_of t)) [
        | some e ↦ not_rewritten (invalid_target (target_of t) e)
        | none ↦ elim (validate_proxy_transfer_address n proxy_address) [
          | some e ↦ not_rewritten e
          | none ↦ rewrite_to t (n.net.split_host_port proxy_address) (target_of t)
        ]
      ]

  -- What a rewriting promises: the client comes back to the host and the port of the proxy's
  -- address, which without brackets and blanks is neither empty nor an unspecified address of IPv4 or
  -- IPv6, with the other fields as they were; and the target is the address and the port that the
  -- server named, and valid.
  pub record Routes (t : Transfer V) (proxy_address : String) (r : Transfer V) (target : String)
      : Type 0 where
    pub port : String
    pub host_split : n.net.split_host_port proxy_address ≡ some (r.address, port)
    pub port_parsed : n.parse_port port ≡ some r.port
    pub named : n.net.trim_space (n.trim_brackets r.address) ≢ ""
    pub not_any4 : n.net.trim_space (n.trim_brackets r.address) ≢ "0.0.0.0"
    pub not_any6 : n.net.trim_space (n.trim_brackets r.address) ≢ "::"
    pub not_any6_long : n.net.trim_space (n.trim_brackets r.address) ≢ "::0"
    pub reload_same : r.reload_world ≡ t.reload_world
    pub gathering_same : r.gathering_join_info ≡ t.gathering_join_info
    pub target_is :
        target
        ≡ n.join_host_port (n.trim_brackets (n.net.trim_space t.address)) (n.format_port t.port)
    pub target_valid : validate_address n.net target ≡ none

  record RewriteParts (t r : Transfer V) (split : Option (String × String)) (given target : String)
      : Type 0 where
    host : String
    port : String
    number : ℕ
    split_is : split ≡ some (host, port)
    parsed : n.parse_port port ≡ some number
    target_is : given ≡ target
    same : with_address t host number ≡ r
