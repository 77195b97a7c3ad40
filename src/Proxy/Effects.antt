-- ===== src/Proxy/Effects.antt =====
-- internal/proxy/proxy.go: the rounds of `forward` as runs. What the connections and the recorder answer
-- in a round is an argument; what the loop does to them is a list of effects, in their order.
use bedrock_debug_proxy.Base.{ℕ, String, List, [], ◌∷◌, ◌++◌, Option, none, some, Bool}
use bedrock_debug_proxy.Proxy.Transfer.{Transfer, TransferNet, TransferError}

-- The packets of gophertunnel: decoded ones, reads that still hold their bytes, and errors.
pub record Codec : Type 1 where
  pub Packet : Type 0
  pub Raw : Type 0
  pub Fault : Type 0
  pub Joining : Type 0
  pub as_transfer : Packet → Option (Transfer Joining)
  pub of_transfer : Transfer Joining → Packet
  pub unknown : Raw → Packet  -- unknownPacketFromRawRead
  pub name : Packet → String  -- the type's name, of packetNames
  -- isExpectedTransportShutdown, by errors.Is and errors.As.
  pub is_expected_shutdown : Fault → Bool

module _ (c : Codec) where
  pub data Decoding : Type 0 where
    clone_fails decode_fails : c.Fault → Decoding
    decodes : Option c.Packet → Decoding

  -- One read: of bytes, of a packet that the read has decoded itself, of a packet by ReadPacket.
  pub data Read : Type 0 where
    raw_read : c.Raw → Decoding → Read
    ready_read : c.Raw → c.Packet → Read
    typed_read : Option c.Packet → Read
    read_fails : Option c.Raw → c.Fault → Read

  -- What recordDecoded does: an event with its number, a view error in its place, or nothing.
  pub data Recorded : Type 0 where
    recorded : (sequence : ℕ) → Recorded
    view_failed : Recorded
    not_recorded : c.Fault → Recorded

  pub record Answers : Type 0 where
    pub failure : Option c.Fault
    pub recorder_failure : Option c.Fault
    pub read : Read
    pub decode_error_record : Option c.Fault
    pub decoded_record : Recorded
    pub rewrite_record : Option c.Fault
    pub write : Option c.Fault
    pub flush : Option c.Fault
    pub timing_record : Option c.Fault
    pub network_record : Option c.Fault
    pub was_shutting_down : Bool

  pub record Forwarding : Type 0 where
    pub net : TransferNet
    pub follow_transfers : Bool
    pub server_to_client : Bool
    pub on_transfer : Bool  -- whether the callback is set
    pub local_address : String

  pub data Effect : Type 0 where
    released : c.Raw → Effect
    decode_error_recorded : c.Raw → Effect
    packet_recorded view_error_recorded : c.Packet → Effect
    rewrite_recorded : (original changed : Transfer c.Joining) → (target : String) → Effect
    next_target : String → Effect
    raw_written : c.Raw → Effect
    packet_written : c.Packet → Effect
    flushed : Effect
    timing_recorded : c.Packet → Effect
    network_error_recorded : (kind : String) → Effect

  pub data Stop : Type 0 where
    fails : c.Fault → Stop
    -- An error that ends the loop, with that of its record.
    ends : (kind : String) → c.Fault → Option c.Fault → Stop
    rewrite_fails : TransferError → Option c.Fault → Stop
    transfers : (target : String) → Stop

  pub data Ending (A : Type 0) : Type 0 where
    goes_on : A → Ending A
    stops : Stop → Ending A

  abbrev pub Run : Type 0 → Type 0
  Run A = List Effect × Ending A

abbrev pub then_run :
    {c : Codec} {A B : Type 0} → List (Effect c) → Ending c A → (A → Run c B) → Run c B
then_run es (stops s) f = (es, stops s)
then_run es (goes_on a) f = (es ++ (f a).0, (f a).1)

infixl 5 ◌>>=◌ ◌>>◌
abbrev pub ◌>>=◌ : {c : Codec} {A B : Type 0} → Run c A → (A → Run c B) → Run c B
m >>= f = then_run m.0 m.1 f

abbrev pub ◌>>◌ : {c : Codec} {B : Type 0} → Run c (Unit {0}) → Run c B → Run c B
m >> k = m >>= λ _. k

module _ {c : Codec} where
  abbrev pub emit : Effect c → Run c (Unit {0})
  emit e = (e ∷ [], goes_on tt)

  abbrev pub stop : {A : Type 0} → Stop c → Run c A
  stop s = ([], stops s)

  abbrev pub result : {A : Type 0} → A → Run c A
  result a = ([], goes_on a)

  abbrev pub unless : Option c.Fault → (c.Fault → Stop c) → Run c (Unit {0})
  unless none f = result tt
  unless (some e) f = stop (f e)

  -- The read that still holds its bytes, if there is one.
  abbrev pub release : Option c.Raw → Run c (Unit {0})
  release none = result tt
  release (some raw) = emit (released raw)
