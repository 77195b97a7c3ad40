-- ===== src/Bedrock/Observer/Identity.antt =====
-- internal/bedrock/observer.go: a packet is recorded under the physical flow that it went over.
use bedrock_debug_proxy.Base.{
  ◌≡◌, refl, ap, ◌∙◌, ◌⊎◌, inl, inr, String, str_eq, eq_refl, List, [], ◌∷◌, some, Bool, true,
  false, Bytes, ℤ, ◌&&◌, All, All-map,
}
use bedrock_debug_proxy.Capture.Schema.{Event}
use bedrock_debug_proxy.Bedrock.Observer.{
  Addr, Flow, Observer, Header, set_flow_with_identity, set_hop, reads, writes, direction_on,
  or_unknown, classify, identity_of, packet_record,
}
use bedrock_debug_proxy.Bedrock.Observer.Flows.{
  Misses, Lone, flow_of, put_flow-hit, classify-other_flow,
}

-- The two sides of the proxy: their channel, and the direction of what the proxy reads from its
-- remote end and of what it writes to it.
pub data Side : Type 0 where
  client_side server_side : Side

abbrev pub channel_of : Side → String
channel_of client_side = "downstream"
channel_of server_side = "upstream"

abbrev pub read_direction : Side → String
read_direction client_side = "client_to_server"
read_direction server_side = "server_to_client"

abbrev pub write_direction : Side → String
write_direction client_side = "server_to_client"
write_direction server_side = "client_to_server"

direction_on-read :
    (side : Side) (write : Bool)
    → direction_on (channel_of side) true write ≡ some (read_direction side)
unfolding direction_on
direction_on-read client_side write = refl
direction_on-read server_side write = refl

direction_on-write :
    (side : Side) → direction_on (channel_of side) false true ≡ some (write_direction side)
unfolding direction_on
direction_on-write client_side = refl
direction_on-write server_side = refl

-- What may happen to an observer after a flow is set.
pub data Change : Type 0 where
  hop_set : ℤ → Change
  flow_set : (channel id : String) (hop : ℤ) (local remote : Addr) → Change

abbrev pub change : Change → Observer → Observer
change (hop_set hop) o = set_hop hop o
change (flow_set channel id hop local remote) o =
    set_flow_with_identity channel (some local) (some remote) id hop o

abbrev pub change_all : List Change → Observer → Observer
change_all [] o = o
change_all (x ∷ changes) o = change_all changes (change x o)

-- A change that sets no flow of a channel between two addresses.
abbrev pub Leaves : (channel source destination : String) → Change → Type 0
Leaves channel source destination (hop_set hop) = Unit {0}
Leaves channel source destination (flow_set other id hop local remote) =
    (str_eq channel other ≡ false) ⊎ Misses source destination (flow_of local remote id hop)

and_swap : (a b : Bool) → (a && b) ≡ (b && a)
and_swap true true = refl
and_swap true false = refl
and_swap false true = refl
and_swap false false = refl

Misses-swap :
    (source destination : String) (f : Flow)
    → Misses source destination f
    → Misses destination source f
Misses-swap source destination f (r, w) = (
  and_swap (str_eq destination f.remote) (str_eq source f.local) ∙ w,
  and_swap (str_eq destination f.local) (str_eq source f.remote) ∙ r,
)

Leaves-swap :
    (channel source destination : String) (x : Change)
    → Leaves channel source destination x
    → Leaves channel destination source x
Leaves-swap channel source destination (hop_set hop) h = tt
Leaves-swap channel source destination (flow_set other id hop local remote) (inl apart) = inl apart
Leaves-swap channel source destination (flow_set other id hop local remote) (inr miss) =
    inr (Misses-swap source destination (flow_of local remote id hop) miss)

Lone-swap :
    (source destination : String) (f : Flow) (flows : List Flow)
    → Lone source destination f flows
    → Lone destination source f flows
Lone-swap source destination f [] h = tt
Lone-swap source destination f (g ∷ flows) (inl (same, rest)) = inl (
  same,
  All-map (Misses source destination) (Misses destination source) (Misses-swap source destination)
      flows rest,
)
Lone-swap source destination f (g ∷ flows) (inr (other, miss, rest)) =
    inr (other, Misses-swap source destination g miss, Lone-swap source destination f flows rest)

classify-change_all :
    (channel : String) (source destination : Addr) (changes : List Change) (o : Observer)
    → All (Leaves channel source.text destination.text) changes
    → classify channel (some source) (some destination) (change_all changes o)
      ≡ classify channel (some source) (some destination) o
unfolding set_hop classify
classify-change_all channel source destination [] o h = refl
classify-change_all channel source destination (hop_set hop ∷ changes) o h =
    classify-change_all channel source destination changes (set_hop hop o) h.1
classify-change_all channel source destination (flow_set other id hop local remote ∷ changes) o h =
    classify-change_all channel source destination changes
      (set_flow_with_identity other (some local) (some remote) id hop o) h.1
    ∙ classify-other_flow other channel id hop local remote source destination o h.0

-- The identity that a packet is recorded under.
pub record IsRecordedAs (event : Event) (id : String) (hop : ℤ) (direction : String) : Type 0 where
  pub connection_id : event.connection_id ≡ id
  pub hop_is : event.hop ≡ hop
  pub direction_is : event.direction ≡ direction

classified-IsRecordedAs :
    (channel id listener direction : String) (hop : ℤ) (source destination local remote : Addr)
    (header : Header) (payload : Bytes) (o : Observer)
    → str_eq id "" ≡ false
    → classify channel (some source) (some destination) o
      ≡ (direction, some (flow_of local remote id hop))
    → IsRecordedAs
        (packet_record channel listener header payload (some source) (some destination) o).event
        id
        hop
        direction
unfolding packet_record identity_of
classified-IsRecordedAs channel id listener direction hop source destination local remote header
      payload o named is =
    rw (is, named) (record { connection_id = refl; hop_is = refl; direction_is = refl })

classify-set_flow :
    (channel id direction : String) (hop : ℤ) (source destination local remote : Addr)
    (o : Observer)
    → let f = flow_of local remote id hop in
      direction_on channel
          (reads source.text destination.text f)
          (writes source.text destination.text f)
        ≡ some direction
      → Lone source.text destination.text (flow_of local remote id hop) (o.flows channel)
      → classify channel
          (some source)
          (some destination)
          (set_flow_with_identity channel (some local) (some remote) id hop o)
        ≡ (direction, some (flow_of local remote id hop))
unfolding classify set_flow_with_identity
classify-set_flow channel id direction hop source destination local remote o is lone =
    rw (eq_refl channel) (
      ap or_unknown (
        put_flow-hit channel source.text destination.text direction (flow_of local remote id hop)
          (o.flows channel) is lone))

-- A packet over a flow that was set with an identity, between two different addresses that no other
-- flow of the channel connects, is recorded under that identity and hop, whatever the listener and
-- whatever hops and flows are set later, of other channels or that the packet does not go over. From
-- the client's side what is read goes to the server and what is written to the client; from the
-- server's side it is the other way round.
pub packet_record-flow :
    (side : Side) (id listener : String) (hop : ℤ) (local remote : Addr) (header : Header)
    (payload : Bytes) (o : Observer) (changes : List Change)
    → str_eq id "" ≡ false
    → str_eq local.text remote.text ≡ false
    → Lone remote.text local.text (flow_of local remote id hop) (o.flows (channel_of side))
    → All (Leaves (channel_of side) remote.text local.text) changes
    → let channel = channel_of side in
      let later =
        change_all changes (set_flow_with_identity channel (some local) (some remote) id hop o) in
      IsRecordedAs
        (packet_record channel listener header payload (some remote) (some local) later).event
        id
        hop
        (read_direction side)
      × IsRecordedAs
          (packet_record channel listener header payload (some local) (some remote) later).event
          id
          hop
          (write_direction side)
packet_record-flow side id listener hop local remote header payload o changes named apart lone
      others =
    let channel = channel_of side in
    let f = flow_of local remote id hop in
    let set = set_flow_with_identity channel (some local) (some remote) id hop o in
    let later = change_all changes set in
    let read : reads remote.text local.text f ≡ true =
      rw (eq_refl remote.text, eq_refl local.text) refl in
    let no_read : reads local.text remote.text f ≡ false = rw apart refl in
    let write : writes local.text remote.text f ≡ true =
      rw (eq_refl remote.text, eq_refl local.text) refl in
    (
      classified-IsRecordedAs channel id listener (read_direction side) hop remote local local
          remote header payload later named
          (classify-change_all channel remote local changes set others
            ∙ classify-set_flow channel id (read_direction side) hop remote local local remote o
                (ap (λ x. direction_on channel x (writes remote.text local.text f)) read
                  ∙ direction_on-read side (writes remote.text local.text f))
                lone),
      classified-IsRecordedAs channel id listener (write_direction side) hop local remote local
          remote header payload later named
          (classify-change_all channel local remote changes set (
              All-map (Leaves channel remote.text local.text)
                (Leaves channel local.text remote.text) (Leaves-swap channel remote.text local.text)
                changes others)
            ∙ classify-set_flow channel id (write_direction side) hop local remote local remote o
                (ap (λ x. direction_on channel x (writes local.text remote.text f)) no_read
                  ∙ ap (λ x. direction_on channel false x) write
                  ∙ direction_on-write side)
                (Lone-swap remote.text local.text f (o.flows channel) lone)),
    )
