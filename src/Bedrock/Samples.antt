-- ===== src/Bedrock/Samples.antt =====
-- Tests of internal/bedrock: failures, and two flows of a listener during a transfer.
use bedrock_debug_proxy.Base.{
  ◌≡◌, refl, inl, inr, List, [], ◌∷◌, Option, none, some, Bool, true, false, pos, str_eq,
}
use bedrock_debug_proxy.Bedrock.Failures.{
  new_failure_sink, set_all, first_error, calls_for, set_all-first,
}
use bedrock_debug_proxy.Bedrock.Observer.{
  Addr, Observer, Header, new_observer, set_flow_with_identity, classify, put_flow, packet_record,
}
use bedrock_debug_proxy.Bedrock.Observer.Flows.{classify-other_flow}
use bedrock_debug_proxy.Bedrock.Observer.Identity.{
  client_side, Change, hop_set, flow_set, change_all, IsRecordedAs, packet_record-flow,
}

abbrev results : List (Option Bool)
results = none ∷ some true ∷ none ∷ some false ∷ []

set_all_example :
    ((set_all results (new_failure_sink true)).error ≡ first_error results)
    × ((set_all results (new_failure_sink true)).calls ≡ calls_for true (first_error results))
set_all_example = set_all-first results true

abbrev server : Addr
server = record { network = "udp"; text = "127.0.0.1:19132" }

abbrev old_client : Addr
old_client = record { network = "udp"; text = "192.168.1.9:5000" }

abbrev new_client : Addr
new_client = record { network = "udp"; text = "192.168.1.9:5001" }

abbrev header : Header
header = record { packet_id = 9; sender_sub_client = 0; target_sub_client = 0 }

-- The old flow is still alive.
abbrev before : Observer
before =
    set_flow_with_identity "downstream" (some server) (some old_client) "downstream-1" (pos 1)
      (new_observer "session-1" (pos 1))

apart : str_eq "downstream-2" "" ≡ false
apart = refl

abbrev after : Observer
after =
    set_flow_with_identity "downstream" (some server) (some new_client) "downstream-2" (pos 2)
      before

-- The listener's hop goes on, and the server's side gets a flow.
abbrev changes : List Change
changes =
    hop_set (pos 3)
    ∷ flow_set "upstream" "upstream-3" (pos 3) server new_client
    ∷ flow_set "downstream" "downstream-3" (pos 3) server old_client
    ∷ []

packet_example :
    IsRecordedAs
      (packet_record "downstream" "downstream-3" header
        (1 ∷ [])
        (some new_client)
        (some server)
        (change_all changes after)).event
      "downstream-2"
      (pos 2)
      "client_to_server"
    × IsRecordedAs
        (packet_record "downstream" "downstream-3" header
          (1 ∷ [])
          (some server)
          (some new_client)
          (change_all changes after)).event
        "downstream-2"
        (pos 2)
        "server_to_client"
unfolding set_flow_with_identity put_flow new_observer
packet_example =
    packet_record-flow client_side "downstream-2" "downstream-3" (pos 2) server new_client header
      (1 ∷ []) before changes apart refl (inr (refl, (refl, refl), tt))
      (tt, (inl refl, (inr (refl, refl), tt)))

other_example :
    classify "downstream" (some old_client) (some server) (
      set_flow_with_identity "downstream"
        (some server)
        (some new_client)
        "downstream-2"
        (pos 2)
        before)
    ≡ classify "downstream" (some old_client) (some server) before
other_example =
    classify-other_flow "downstream" "downstream" "downstream-2" (pos 2) server new_client
      old_client server before (inr (refl, refl))
