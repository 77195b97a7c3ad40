-- ===== src/Proxy/Forward.antt =====
-- internal/proxy/proxy.go: `forward`, the loop that passes packets from one connection to the other.
pub mod Watch
pub mod Phases
pub mod Packet
pub mod Round
pub mod Lossless
pub mod Sending
pub mod Announced
pub mod Due
pub mod Recording
mod Samples
use bedrock_debug_proxy.Base.{
  ◌==◌, ◌≡◌, ℕ, String, str_eq, List, [], ◌∷◌, ◌++◌, Option, none, some, Bool, true, false,
  if◌then◌else◌, ◌&&◌, ◌||◌, not,
}
use bedrock_debug_proxy.Proxy.Transfer.{
  Transfer, TransferNet, TransferError, Rewriting, rewritten, not_rewritten,
  transfer_for_proxy_address,
}
use bedrock_debug_proxy.Proxy.Effects.{
  Codec, Decoding, clone_fails, decode_fails, decodes, Read, raw_read, ready_read, typed_read,
  read_fails, Recorded, recorded, view_failed, not_recorded, Answers, Forwarding, Effect, released,
  decode_error_recorded, packet_recorded, view_error_recorded, rewrite_recorded, next_target,
  raw_written, packet_written, flushed, timing_recorded, network_error_recorded, Stop, fails, ends,
  rewrite_fails, transfers, Ending, goes_on, stops, Run, then_run, ◌>>=◌, ◌>>◌, emit, stop, result,
  unless, release,
}

abbrev pub is_write_side : String → Bool
is_write_side kind = str_eq kind "bridge.write_error" || str_eq kind "bridge.flush_error"

abbrev pub is_one_of : String → List String → Bool
is_one_of name [] = false
is_one_of name (other ∷ names) = str_eq name other || is_one_of name names

unfoldable pub should_record_forward_timing : (name : String) → Bool
should_record_forward_timing name = is_one_of name (
    "LevelChunk" ∷ "UpdateBlock" ∷ "UpdateSubChunkBlocks" ∷ "BlockActorData"
    ∷ "NetworkChunkPublisherUpdate" ∷ "ChunkRadiusUpdated" ∷ "MovePlayer" ∷ "SetActorMotion"
    ∷ "Transfer" ∷ [])

module _ {c : Codec} where
  abbrev pub end_with :
      {A : Type 0} → String → c.Fault → (expected : Bool) → Option c.Fault → Run c A
  end_with kind e true record_error = stop (ends kind e none)
  end_with kind e false none = (network_error_recorded kind ∷ [], stops (ends kind e none))
  end_with kind e false (some failed) = stop (ends kind e (some failed))

  -- finishForwardAtHop with a shuttingDown flag, which it sets: an expected error is not recorded
  -- when the flag was set before, or on the writing side. An error of the record is returned with it.
  unfoldable pub finish_forward : {A : Type 0} → Answers c → (kind : String) → c.Fault → Run c A
  finish_forward a kind e =
      end_with kind e (c.is_expected_shutdown e && (a.was_shutting_down || is_write_side kind))
        a.network_record

  abbrev pub end_rewrite : {A : Type 0} → TransferError → Option c.Fault → Run c A
  end_rewrite e none =
      (network_error_recorded "bridge.transfer_rewrite_error" ∷ [], stops (rewrite_fails e none))
  end_rewrite e (some failed) = stop (rewrite_fails e (some failed))

  unfoldable pub finish_rewrite : {A : Type 0} → Answers c → Option c.Raw → TransferError → Run c A
  finish_rewrite a raw e = do release raw; end_rewrite e a.network_record

  abbrev pub keep_unknown : Option c.Fault → c.Raw → Run c (Option c.Packet × Option c.Raw)
  keep_unknown (some failed) raw = do release (some raw); stop (fails failed)
  keep_unknown none raw = do
    emit (decode_error_recorded raw)
    result (some (c.unknown raw), some raw)

  -- The packet of a read, and the bytes that it still holds. A packet that cannot be decoded is
  -- taken as an unknown one.
  unfoldable pub read_packet : Answers c → Read c → Run c (Option c.Packet × Option c.Raw)
  unfolding finish_forward
  read_packet a (raw_read raw (clone_fails e)) = do
    release (some raw)
    finish_forward a "bridge.decode_error" e
  read_packet a (raw_read raw (decode_fails e)) = keep_unknown a.decode_error_record raw
  read_packet a (raw_read raw (decodes p)) = result (p, some raw)
  read_packet a (ready_read raw p) = do release (some raw); result (some p, none)
  read_packet a (typed_read p) = result (p, none)
  read_packet a (read_fails raw e) = do release raw; finish_forward a "bridge.read_error" e

  unfoldable pub record_decoded : Recorded c → c.Packet → Option c.Raw → Run c ℕ
  record_decoded (recorded sequence) p raw = do emit (packet_recorded p); result sequence
  record_decoded view_failed p raw = do emit (view_error_recorded p); result 0
  record_decoded (not_recorded e) p raw = do release raw; stop (fails e)

  abbrev pub announce : Bool → String → Run c (Unit {0})
  announce true target = emit (next_target target)
  announce false target = result tt

  -- The next hop is announced before the changed transfer is sent.
  abbrev pub change_to :
      Bool
      → Option c.Fault
      → Option c.Raw
      → (original changed : Transfer c.Joining) → (target : String)
      → Run c (Option (Transfer c.Joining × String))
  change_to on_transfer (some e) raw original changed target = do release raw; stop (fails e)
  change_to on_transfer none raw original changed target = do
    emit (rewrite_recorded original changed target)
    announce on_transfer target
    result (some (changed, target))

  unfoldable pub change_transfer :
      Forwarding c
      → Answers c
      → Option c.Raw
      → Transfer c.Joining
      → Rewriting c.Joining
      → Run c (Option (Transfer c.Joining × String))
  unfolding finish_rewrite
  change_transfer f a raw transfer (not_rewritten e) = finish_rewrite a raw e
  change_transfer f a raw transfer (rewritten changed target) =
      change_to f.on_transfer a.rewrite_record raw transfer changed target

  abbrev pub choose_for :
      Forwarding c
      → Answers c
      → Option c.Raw
      → Option (Transfer c.Joining)
      → Run c (Option (Transfer c.Joining × String))
  choose_for f a raw none = result none
  choose_for f a raw (some transfer) =
      change_transfer f a raw transfer (transfer_for_proxy_address f.net transfer f.local_address)

  -- The transfer that is sent in the place of a packet, with the target, where there is one.
  unfoldable pub choose_outgoing :
      Forwarding c
      → Answers c
      → c.Packet
      → Option c.Raw
      → Run c (Option (Transfer c.Joining × String))
  unfolding change_transfer
  choose_outgoing f a p raw =
      choose_for f a raw
        (if f.follow_transfers && f.server_to_client then c.as_transfer p else none)

  -- The bytes as they were read, where they are held and the packet is not changed.
  abbrev pub write_effect :
      c.Packet → Option c.Raw → Option (Transfer c.Joining × String) → Effect c
  write_effect p (some raw) none = raw_written raw
  write_effect p none none = packet_written p
  write_effect p raw (some (changed, target)) = packet_written (c.of_transfer changed)

  abbrev pub attempt : Effect c → Option c.Fault → List (Effect c)
  attempt e none = e ∷ []
  attempt e (some failed) = []

  abbrev pub unless_ended : Answers c → (kind : String) → Option c.Fault → Run c (Unit {0})
  unless_ended a kind none = result tt
  unless_ended a kind (some e) = finish_forward a kind e

  -- `write` is the error of the write.
  unfoldable pub write_packet :
      Answers c
      → c.Packet
      → Option c.Raw
      → Option (Transfer c.Joining × String)
      → (write : Option c.Fault) → Run c (Unit {0})
  write_packet a p raw changed write = do
    (attempt (write_effect p raw changed) write, goes_on tt)
    release raw
    unless_ended a "bridge.write_error" write

  -- Only a changed packet is flushed at once.
  unfoldable pub flush_packet :
      Answers c → Option (Transfer c.Joining × String) → (flush : Option c.Fault) → Run c (Unit {0})
  flush_packet a none flush = result tt
  flush_packet a (some changed) flush = do
    (attempt flushed flush, goes_on tt)
    unless_ended a "bridge.flush_error" flush

  abbrev pub record_timing : Bool → Option c.Fault → c.Packet → Run c (Unit {0})
  record_timing false record_error p = result tt
  record_timing true none p = emit (timing_recorded p)
  record_timing true (some e) p = stop (fails e)

  unfoldable pub record_forward_timing : Answers c → c.Packet → (sequence : ℕ) → Run c (Unit {0})
  unfolding should_record_forward_timing
  record_forward_timing a p sequence =
      record_timing (should_record_forward_timing (c.name p) && not (sequence == 0)) a.timing_record
        p

  abbrev pub end_transfer : Option (Transfer c.Joining × String) → Run c (Unit {0})
  end_transfer none = result tt
  end_transfer (some (changed, target)) = stop (transfers target)

  -- The round once it is known what is sent.
  unfoldable pub send_chosen :
      Answers c
      → c.Packet
      → Option c.Raw
      → (sequence : ℕ) → Option (Transfer c.Joining × String)
      → Run c (Unit {0})
  unfolding write_packet flush_packet record_forward_timing
  send_chosen a p raw sequence changed = do
    write_packet a p raw changed a.write
    flush_packet a changed a.flush
    record_forward_timing a p sequence
    end_transfer changed

  -- The round from the record of a packet on.
  unfoldable pub forward_packet :
      Forwarding c → Answers c → c.Packet → Option c.Raw → Run c (Unit {0})
  unfolding record_decoded choose_outgoing send_chosen
  forward_packet f a p raw = do
    sequence ← record_decoded a.decoded_record p raw
    changed ← choose_outgoing f a p raw
    send_chosen a p raw sequence changed

  abbrev pub forward_decoded :
      Forwarding c → Answers c → Option c.Packet × Option c.Raw → Run c (Unit {0})
  forward_decoded f a (none, raw) = release raw
  forward_decoded f a (some p, raw) = forward_packet f a p raw

  unfoldable pub forward_round : Forwarding c → Answers c → Run c (Unit {0})
  unfolding read_packet forward_packet
  forward_round f a = do
    unless a.failure fails
    unless a.recorder_failure fails
    decoded ← read_packet a a.read
    forward_decoded f a decoded

  -- The loop over the answers of its rounds; it still runs where no round stops it.
  unfoldable pub forward : Forwarding c → List (Answers c) → Run c (Unit {0})
  unfolding forward_round
  forward f [] = result tt
  forward f (a ∷ rounds) = do forward_round f a; forward f rounds
