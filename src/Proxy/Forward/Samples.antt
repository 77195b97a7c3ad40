-- ===== src/Proxy/Forward/Samples.antt =====
-- Tests of the forwarding loop and of a rewritten transfer.
use bedrock_debug_proxy.Base.{
  ◌≡◌, ℕ, String, str_eq, refl, List, [], ◌∷◌, none, some, Bool, true, false, inl, inr,
  if◌then◌else◌,
}
use bedrock_debug_proxy.Proxy.Config.{validate_address}
use bedrock_debug_proxy.Proxy.Transfer.{
  Transfer, TransferNet, transfer_for_proxy_address, validate_proxy_transfer_address,
}
use bedrock_debug_proxy.Proxy.Effects.{
  Codec, Answers, Forwarding, Read, decodes, decode_fails, raw_read, ready_read, typed_read,
  recorded, stops, transfers,
}
use bedrock_debug_proxy.Proxy.Forward.{forward}
use bedrock_debug_proxy.Proxy.Forward.Watch.{watch}
use bedrock_debug_proxy.Proxy.Forward.Lossless.{
  nothing_seen, all_sent, all_shown, all_taken, begun, forward-lossless, forward-releases,
}
use bedrock_debug_proxy.Proxy.Forward.Due.{WritesDue}
use bedrock_debug_proxy.Proxy.Forward.Recording.{Given, forward-records_first}
use bedrock_debug_proxy.Proxy.Forward.Announced.{Announced, forward-Announces}

abbrev net : TransferNet
net = record {
  net = record {
    split_host_port = λ address. some ("192.168.1.2", "19132");
    trim_space = λ s. s;
    has_line_break = λ s. false;
  };
  trim_brackets = λ s. s;
  join_host_port = λ host port. "play.example.net:19133";
  format_port = λ port. "19133";
  parse_port = λ port. some 19132;
}

abbrev transfer : Transfer Bool
transfer = record {
  address = "play.example.net";
  port = 19133;
  reload_world = true;
  gathering_join_info = false;
}

abbrev routed : Transfer Bool
routed = record transfer { address = "192.168.1.2"; port = 19132 }

-- Packets are names, reads numbers.
abbrev codec : Codec
codec = record {
  Packet = String;
  Raw = ℕ;
  Fault = Bool;
  Joining = Bool;
  as_transfer = λ p. if str_eq p "Transfer" then some transfer else none;
  of_transfer = λ t. "Changed";
  unknown = λ raw. "Unknown";
  name = λ p. p;
  is_expected_shutdown = λ e. e;
}

abbrev answers_for : Read codec → Answers codec
answers_for r = record {
  failure = none;
  recorder_failure = none;
  read = r;
  decode_error_record = none;
  decoded_record = recorded 7;
  rewrite_record = none;
  write = none;
  flush = none;
  timing_record = none;
  network_record = none;
  was_shutting_down = false;
}

abbrev rounds : List (Answers codec)
rounds =
    answers_for (raw_read 1 (decodes (some "Text")))
    ∷ answers_for (raw_read 2 (decode_fails true))
    ∷ answers_for (raw_read 3 (decodes none))
    ∷ answers_for (ready_read 4 "MovePlayer")
    ∷ answers_for (typed_read (some "Transfer"))
    ∷ []

-- The direction of a client does not rewrite a transfer.
abbrev to_server : Forwarding codec
to_server = record {
  net = net;
  follow_transfers = true;
  server_to_client = false;
  on_transfer = true;
  local_address = "192.168.1.2:19132";
}

abbrev to_client : Forwarding codec
to_client = record to_server { server_to_client = true }

lossless_example :
    let w = watch nothing_seen (forward to_server rounds).0 in
    (w.sent ≡ all_sent rounds) × (w.shown ≡ all_shown rounds)
unfolding forward
lossless_example = forward-lossless to_server rounds (forward to_server rounds).0 refl

records_first_example :
    WritesDue to_client (Given (begun to_client rounds)) none (forward to_client rounds).0
records_first_example = forward-records_first to_client rounds

releases_example :
    (watch nothing_seen (forward to_client rounds).0).released_reads
    ≡ all_taken (begun to_client rounds)
releases_example = forward-releases to_client rounds

-- The server's transfer ends the loop, after the changed packet.
to_client-ends : (forward to_client rounds).1 ≡ stops (transfers "play.example.net:19133")
unfolding forward transfer_for_proxy_address validate_address validate_proxy_transfer_address
to_client-ends = refl

to_client-sent :
    (watch nothing_seen (forward to_client rounds).0).sent
    ≡ inl 1 ∷ inl 2 ∷ inr "MovePlayer" ∷ inr "Changed" ∷ []
unfolding forward transfer_for_proxy_address validate_address validate_proxy_transfer_address
to_client-sent = refl

next_hop_example : Announced to_client "play.example.net:19133" (forward to_client rounds).0
next_hop_example = forward-Announces "play.example.net:19133" to_client rounds refl to_client-ends
