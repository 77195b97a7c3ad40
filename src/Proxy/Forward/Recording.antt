-- ===== src/Proxy/Forward/Recording.antt =====
-- internal/proxy/proxy.go: `forward` writes a packet only after the record of this packet.
use bedrock_debug_proxy.Base.{
  ◌≡◌, refl, ◌⊎◌, inl, inr, String, List, [], ◌∷◌, Option, none, some, Bool, true, false, All,
}
use bedrock_debug_proxy.Proxy.Effects.{
  Codec, Read, raw_read, ready_read, typed_read, read_fails, clone_fails, decode_fails, decodes,
  Answers, Forwarding, fails, goes_on, stops, Run, ◌>>=◌, ◌>>◌, unless, release,
}
use bedrock_debug_proxy.Proxy.Forward.{
  finish_forward, end_with, keep_unknown, read_packet, forward_decoded, forward_round, forward,
}
use bedrock_debug_proxy.Proxy.Forward.Round.{given}
use bedrock_debug_proxy.Proxy.Forward.Lossless.{begun, unless_stopped}
use bedrock_debug_proxy.Proxy.Forward.Due.{
  Reads, WritesDue, last_of, WritesDue-append, Writes, Writes-then, forward_packet-Writes,
}

module _ {c : Codec} where
  module _ (f : Forwarding c) (P : Reads c) where
    -- What a read gives is allowed.
    abbrev pub Provides : Answers c → Type 0
    Provides a = (p : c.Packet) (raw : Option c.Raw) → given a.read ≡ some (p, raw) → P p raw

    abbrev GivenBy : Read c → Option c.Packet × Option c.Raw → Type 0
    GivenBy r (none, raw) = Unit {0}
    GivenBy r (some p, raw) = given r ≡ some (p, raw)

    read_packet-Writes :
        (last : Option c.Packet) (a : Answers c) (r : Read c)
        → Writes f P last (read_packet a r) (λ x next. GivenBy r x)
    unfolding read_packet finish_forward
    read_packet-Writes last a r = by_read r
      where
        ended :
            (r' : Read c) (raw : Option c.Raw) (kind : String) (e : c.Fault) (b : Bool)
            (o : Option c.Fault)
            → Writes f P last
                (release raw >> end_with {A = Option c.Packet × Option c.Raw} kind e b o)
                (λ x next. GivenBy r' x)
        ended r' none kind e true o = (tt, tt)
        ended r' none kind e false none = (tt, tt)
        ended r' none kind e false (some failed) = (tt, tt)
        ended r' (some x) kind e true o = (tt, tt)
        ended r' (some x) kind e false none = (tt, tt)
        ended r' (some x) kind e false (some failed) = (tt, tt)

        unknown_read :
            (raw : c.Raw) (e : c.Fault) (o : Option c.Fault)
            → Writes f P last
                (keep_unknown o raw)
                (λ x next. GivenBy (raw_read raw (decode_fails e)) x)
        unknown_read raw e none = (tt, refl)
        unknown_read raw e (some failed) = (tt, tt)

        by_read : (r : Read c) → Writes f P last (read_packet a r) (λ x next. GivenBy r x)
        by_read (raw_read raw (clone_fails e)) =
            ended (raw_read raw (clone_fails e)) (some raw) "bridge.decode_error" e _
              a.network_record
        by_read (raw_read raw (decode_fails e)) = unknown_read raw e a.decode_error_record
        by_read (raw_read raw (decodes none)) = (tt, tt)
        by_read (raw_read raw (decodes (some p))) = (tt, refl)
        by_read (ready_read raw p) = (tt, refl)
        by_read (typed_read none) = (tt, tt)
        by_read (typed_read (some p)) = (tt, refl)
        by_read (read_fails raw e) =
            ended (read_fails raw e) raw "bridge.read_error" e _ a.network_record

    forward_decoded-Writes :
        (last : Option c.Packet) (a : Answers c) (x : Option c.Packet × Option c.Raw)
        → Provides a
        → GivenBy a.read x
        → WritesDue f P last (forward_decoded f a x).0
    forward_decoded-Writes last a (none, none) provides is = tt
    forward_decoded-Writes last a (none, some raw) provides is = tt
    forward_decoded-Writes last a (some p, raw) provides is =
        forward_packet-Writes f P last a p raw (provides p raw is)

    forward_round-Writes :
        (last : Option c.Packet) (a : Answers c)
        → Provides a
        → WritesDue f P last (forward_round f a).0
    unfolding forward_round
    forward_round-Writes last a provides = by_failures a.failure a.recorder_failure
      where
        by_failures :
            (o1 o2 : Option c.Fault)
            → WritesDue f P last
                (unless o1 fails
                  >> (unless o2 fails >> (read_packet a a.read >>= forward_decoded f a))).0
        by_failures none none =
            Writes-then f P last (read_packet a a.read) (forward_decoded f a)
              (λ x next. GivenBy a.read x) (read_packet-Writes last a a.read)
              (λ x next is. forward_decoded-Writes next a x provides is)
        by_failures none (some e) = tt
        by_failures (some e) o2 = tt

    forward-WritesDue :
        (last : Option c.Packet) (rounds : List (Answers c))
        → All Provides (begun f rounds)
        → WritesDue f P last (forward f rounds).0
    unfolding forward
    forward-WritesDue last [] provide = tt
    forward-WritesDue last (a ∷ rounds) provide =
        by_run (forward_round f a) (forward_round-Writes last a provide.0) provide.1
          (λ next more. forward-WritesDue next rounds more)
      where
        by_run :
            (m : Run c (Unit {0}))
            → WritesDue f P last m.0
            → All Provides (unless_stopped m.1 (begun f rounds))
            → ((next : Option c.Packet)
                → All Provides (begun f rounds)
                → WritesDue f P next (forward f rounds).0)
            → WritesDue f P last (m >> forward f rounds).0
        by_run (es, goes_on u) one more rest =
            WritesDue-append f P last es (forward f rounds).0 one (rest (last_of last es) more)
        by_run (es, stops s) one more rest = one

  -- That one of the rounds read the packet, and still held `raw`.
  abbrev pub Given : List (Answers c) → Reads c
  Given [] p raw = ⊥
  Given (a ∷ rounds) p raw = (given a.read ≡ some (p, raw)) ⊎ Given rounds p raw

  Given-Provides :
      (P : Reads c) (rounds : List (Answers c)) (f : Forwarding c)
      → ((p : c.Packet) (raw : Option c.Raw) → Given rounds p raw → P p raw)
      → All (Provides f P) rounds
  Given-Provides P [] f h = tt
  Given-Provides P (a ∷ rounds) f h =
      (λ p raw is. h p raw (inl is), Given-Provides P rounds f (λ p raw later. h p raw (inr later)))

-- However the loop ends, every write sends a packet that a round begun by the loop has read: as the
-- bytes that the read still holds, or as itself where it holds none, or, when it is a transfer, as
-- its rewriting. The record of this very packet, or of its view error, was made since the write
-- before and is the last of these: no packet is written on the record of another one, and no record
-- serves two writes.
pub forward-records_first :
    {c : Codec} (f : Forwarding c) (rounds : List (Answers c))
    → WritesDue f (Given (begun f rounds)) none (forward f rounds).0
forward-records_first f rounds =
    forward-WritesDue f (Given (begun f rounds)) none rounds
      (Given-Provides (Given (begun f rounds)) (begun f rounds) f (λ p raw is. is))
