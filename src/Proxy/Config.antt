-- ===== src/Proxy/Config.antt =====
-- internal/proxy/config.go. The packages net and strings are a parameter, and the fields that only
-- pass a value on are left to their type `V`.
use bedrock_debug_proxy.Base.{
  ◌*◌, ◌^◌, ◌≡◌, refl, String, str_eq, Option, none, some, Bool, true, false, ℤ, pos, is_negative,
  int_eq, if◌then◌else◌, not, arith, ap, ◌∙◌,
}

pub record Net : Type 0 where
  pub split_host_port : String → Option (String × String)
  pub trim_space : String → String
  pub has_line_break : String → Bool  -- strings.ContainsAny(s, "\r\n")

pub data ConfigError : Type 0 where
  recorder_required upstream_required split_address port_empty host_line_break : ConfigError
  invalid_listen invalid_upstream : ConfigError → ConfigError
  upstream_empty upstream_line_break : ConfigError
  negative_decompressed negative_preview negative_items : ConfigError

-- `recorder` and `output` are whether the pointers are set, `network` whether UpstreamNetwork is.
pub record Config (V : Type 0) : Type 0 where
  pub listen_address : String
  pub packs_only : Bool
  pub upstream_address : String
  pub network : Bool
  pub recorder : Bool
  pub output : Bool
  pub max_decompressed_bytes : ℤ
  pub decoded_binary_preview_bytes : ℤ
  pub max_decoded_collection_items : ℤ
  pub others : V

unfoldable pub validate_address : Net → String → Option ConfigError
validate_address net address = elim (net.split_host_port address) [
  | none ↦ some split_address
  | some (host, port) ↦
      if str_eq (net.trim_space port) ""
      then some port_empty
      else if net.has_line_break host
      then some host_line_break
      else none
]

abbrev pub wrap_error : (ConfigError → ConfigError) → Option ConfigError → Option ConfigError
wrap_error f none = none
wrap_error f (some e) = some (f e)

-- The tests of the two addresses.
unfoldable pub address_error : {V : Type 0} → Net → Config V → Option ConfigError
unfolding validate_address
address_error net c =
    let upstream =
      if not c.network
      then wrap_error invalid_upstream (validate_address net c.upstream_address)
      else if str_eq (net.trim_space c.upstream_address) ""
      then some upstream_empty
      else if net.has_line_break c.upstream_address
      then some upstream_line_break
      else none in
    elim (if c.packs_only
        then none
        else wrap_error invalid_listen (validate_address net c.listen_address))
      as (λ _. Option ConfigError) [ some e ↦ some e | none ↦ upstream ]

-- The defaults, and the tests of the limits.
unfoldable pub normalize_limits : {V : Type 0} → Config V → Option ConfigError × Config V
normalize_limits c =
    let c1 = record c {
      output = true;
      max_decompressed_bytes =
          if int_eq c.max_decompressed_bytes (pos 0)
          then pos (64 * 2 ^ 20)
          else c.max_decompressed_bytes;
    } in
    let c2 = record c1 {
      decoded_binary_preview_bytes =
          if int_eq c.decoded_binary_preview_bytes (pos 0)
          then pos 32
          else c.decoded_binary_preview_bytes;
    } in
    if is_negative c1.max_decompressed_bytes
    then (some negative_decompressed, c1)
    else if is_negative c2.decoded_binary_preview_bytes
    then (some negative_preview, c2)
    else if is_negative c.max_decoded_collection_items
    then (some negative_items, c2)
    else (none, c2)

unfoldable pub finish_normalize :
    {V : Type 0} → Option ConfigError → Config V → Option ConfigError × Config V
unfolding normalize_limits
finish_normalize (some e) c = (some e, c)
finish_normalize none c = normalize_limits c

-- The tests of the recorder and of the upstream address.
unfoldable pub required {ℓ} : {A : Type ℓ} → (recorder no_upstream : Bool) → A → A → A → A
required false no_upstream a b c = a
required true true a b c = b
required true false a b c = c

unfoldable pub default_listen : {V : Type 0} → Config V → Config V
default_listen c = record c {
  listen_address = if str_eq c.listen_address "" then "127.0.0.1:19132" else c.listen_address;
}

unfoldable pub normalize : {V : Type 0} → Net → Config V → Option ConfigError × Config V
unfolding address_error finish_normalize default_listen required
normalize net c =
    let c1 = default_listen c in
    required c.recorder (str_eq c.upstream_address "") (some recorder_required, c)
      (some upstream_required, c1) (finish_normalize (address_error net c1) c1)

-- What the limits leave alone.
record SameAddresses {V : Type 0} (c d : Config V) : Type 0 where
  listen_address : d.listen_address ≡ c.listen_address
  packs_only : d.packs_only ≡ c.packs_only
  upstream_address : d.upstream_address ≡ c.upstream_address
  network : d.network ≡ c.network
  recorder : d.recorder ≡ c.recorder

limits-SameAddresses :
    {V : Type 0} (c d : Config V) → normalize_limits c ≡ (none, d) → SameAddresses c d
unfolding normalize_limits
limits-SameAddresses c d e = ground (arith, e)

limits-limits :
    {V : Type 0} (c d : Config V) → normalize_limits c ≡ (none, d) → normalize_limits d ≡ (none, d)
unfolding normalize_limits
limits-limits c d e = ground (arith, e)

address_error-same :
    {V : Type 0} (net : Net) (c d : Config V)
    → SameAddresses c d
    → address_error net d ≡ address_error net c
unfolding address_error
address_error-same net c d s =
    rw (s.listen_address, s.packs_only, s.upstream_address, s.network) refl

record Passed {V : Type 0} (net : Net) (c d : Config V) : Type 0 where
  recorder : c.recorder ≡ true
  upstream : str_eq c.upstream_address "" ≡ false
  addresses : address_error net (default_listen c) ≡ none
  limits : normalize_limits (default_listen c) ≡ (none, d)

finish-limits :
    {V : Type 0} (x : Option ConfigError) (c d : Config V)
    → finish_normalize x c ≡ (none, d)
    → (x ≡ none) × (normalize_limits c ≡ (none, d))
unfolding finish_normalize
finish-limits none c d e = (refl, e)
finish-limits (some x) c d e = absurd (cc)

required-passes :
    {V : Type 0} (recorder upstream : Bool) (x y : ConfigError) (c c1 d : Config V)
    (rest : Option ConfigError × Config V)
    → required recorder upstream (some x, c) (some y, c1) rest ≡ (none, d)
    → (recorder ≡ true) × (upstream ≡ false) × (rest ≡ (none, d))
unfolding required
required-passes false upstream x y c c1 d rest e = absurd (cc)
required-passes true true x y c c1 d rest e = absurd (cc)
required-passes true false x y c c1 d rest e = (refl, refl, e)

required-rest :
    {A : Type 0} (recorder upstream : Bool) (a b c : A)
    → recorder ≡ true
    → upstream ≡ false
    → required recorder upstream a b c ≡ c
unfolding required
required-rest false upstream a b c e f = absurd (cc)
required-rest true true a b c e f = absurd (cc)
required-rest true false a b c e f = refl

normalize-Passed :
    {V : Type 0} (net : Net) (c d : Config V) → normalize net c ≡ (none, d) → Passed net c d
unfolding normalize
normalize-Passed net c d e =
    let passed =
      required-passes c.recorder (str_eq c.upstream_address "") recorder_required upstream_required
        c (default_listen c) d _ e in
    let done = finish-limits (address_error net (default_listen c)) (default_listen c) d passed.2 in
    record { recorder = passed.0; upstream = passed.1; addresses = done.0; limits = done.1 }

default_listen-same :
    {V : Type 0} (c d : Config V)
    → d.listen_address ≡ (default_listen c).listen_address
    → default_listen d ≡ d
unfolding default_listen
default_listen-same c d e = ground (arith, e)

-- A configuration that was normalized without an error is not changed by normalizing it again, and
-- gives no error again.
pub normalize-normalize :
    {V : Type 0} (net : Net) (c d : Config V)
    → normalize net c ≡ (none, d)
    → normalize net d ≡ (none, d)
unfolding normalize finish_normalize
normalize-normalize net c d e =
    let p = normalize-Passed net c d e in
    let c1 = default_listen c in
    let s = limits-SameAddresses c1 d p.limits in
    let fixed = default_listen-same c d s.listen_address in
    let fine : address_error net d ≡ none = address_error-same net c1 d s ∙ p.addresses in
    let has : d.recorder ≡ true = s.recorder ∙ p.recorder in
    let set : str_eq d.upstream_address "" ≡ false =
      ap (λ x. str_eq x "") s.upstream_address ∙ p.upstream in
    required-rest d.recorder (str_eq d.upstream_address "") _ _ _ has set
    ∙ ap (λ x. finish_normalize (address_error net x) x) fixed
    ∙ ap (λ x. finish_normalize x d) fine
    ∙ limits-limits c1 d p.limits
