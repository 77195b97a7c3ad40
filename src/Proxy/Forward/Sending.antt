-- ===== src/Proxy/Forward/Sending.antt =====
-- internal/proxy/proxy.go: what is sent in a round that ends with a transfer.
use bedrock_debug_proxy.Base.{
  ◌==◌, ◌≡◌, refl, ℕ, String, List, ◌∷◌, Option, none, some, Bool, true, false, ◌&&◌, ◌||◌, not,
}
use bedrock_debug_proxy.Proxy.Transfer.{Transfer}
use bedrock_debug_proxy.Proxy.Effects.{
  Codec, Answers, Effect, packet_written, released, transfers, Ending, goes_on, stops, Run,
  then_run, ◌>>=◌, ◌>>◌, release,
}
use bedrock_debug_proxy.Proxy.Forward.{
  finish_forward, end_with, unless_ended, is_write_side, write_packet, flush_packet, record_timing,
  record_forward_timing, should_record_forward_timing, end_transfer, send_chosen,
}

module _ {c : Codec} (target : String) where
  -- A run that ends with the transfer only where `P` holds.
  abbrev pub Leads : {A : Type 0} → Ending c A → (P : Type 0) → Type 0
  Leads end P = end ≡ stops (transfers target) → P

  pub Leads-then :
      {A B : Type 0} (P : Type 0) (m : Run c A) (f : A → Run c B)
      → Leads m.1 P
      → ((a : A) → Leads (f a).1 P)
      → Leads (m >>= f).1 P
  Leads-then P (es, goes_on a) f h k = k a
  Leads-then P (es, stops s) f h k = λ e. h (cc)

  pub end_with-Leads :
      {A : Type 0} (P : Type 0) (kind : String) (e : c.Fault) (b : Bool) (o : Option c.Fault)
      → Leads (end_with {A = A} kind e b o).1 P
  end_with-Leads P kind e true o h = absurd (cc)
  end_with-Leads P kind e false none h = absurd (cc)
  end_with-Leads P kind e false (some failed) h = absurd (cc)

  unless_ended-Leads :
      (P : Type 0) (a : Answers c) (kind : String) (o : Option c.Fault)
      → Leads (unless_ended a kind o).1 P
  unfolding finish_forward
  unless_ended-Leads P a kind none h = absurd (cc)
  unless_ended-Leads P a kind (some e) h = end_with-Leads P kind e _ a.network_record h

  release-Leads : (P : Type 0) (raw : Option c.Raw) → Leads (release raw).1 P
  release-Leads P none h = absurd (cc)
  release-Leads P (some raw) h = absurd (cc)

  pub write_packet-Leads :
      (P : Type 0) (a : Answers c) (p : c.Packet) (raw : Option c.Raw)
      (changed : Option (Transfer c.Joining × String)) (write : Option c.Fault)
      → Leads (write_packet a p raw changed write).1 P
  unfolding write_packet
  write_packet-Leads P a p raw changed write =
      Leads-then P (release raw) (λ u. unless_ended a "bridge.write_error" write)
        (release-Leads P raw) (λ u. unless_ended-Leads P a "bridge.write_error" write)

  flush_packet-Leads :
      (P : Type 0) (a : Answers c) (changed : Option (Transfer c.Joining × String))
      (flush : Option c.Fault)
      → Leads (flush_packet a changed flush).1 P
  unfolding flush_packet
  flush_packet-Leads P a none flush h = absurd (cc)
  flush_packet-Leads P a (some changed) flush h =
      unless_ended-Leads P a "bridge.flush_error" flush h

  record_timing-Leads :
      (P : Type 0) (b : Bool) (o : Option c.Fault) (p : c.Packet) → Leads (record_timing b o p).1 P
  record_timing-Leads P false o p h = absurd (cc)
  record_timing-Leads P true none p h = absurd (cc)
  record_timing-Leads P true (some e) p h = absurd (cc)

  pub after_write-Leads :
      (P : Type 0) (a : Answers c) (p : c.Packet) (sequence : ℕ)
      (changed : Option (Transfer c.Joining × String))
      → Leads (end_transfer changed).1 P
      → Leads
          (flush_packet a changed a.flush
            >> (record_forward_timing a p sequence >> end_transfer changed)).1
          P
  unfolding record_forward_timing
  after_write-Leads P a p sequence changed last =
      Leads-then P (flush_packet a changed a.flush)
        (λ u. record_forward_timing a p sequence >> end_transfer changed)
        (flush_packet-Leads P a changed a.flush)
        (λ u.
          Leads-then P (record_forward_timing a p sequence) (λ v. end_transfer changed)
            (record_timing-Leads P (should_record_forward_timing (c.name p) && not (sequence == 0))
              a.timing_record p)
            (λ v. last))

  end_with-then :
      {A B : Type 0} (P : Type 0) (kind : String) (e : c.Fault) (b : Bool) (o : Option c.Fault)
      (es : List (Effect c)) (f : A → Run c B)
      → Leads (then_run es (end_with {A = A} kind e b o).1 f).1 P
  end_with-then P kind e true o es f h = absurd (cc)
  end_with-then P kind e false none es f h = absurd (cc)
  end_with-then P kind e false (some failed) es f h = absurd (cc)

  -- What is sent where the round ends with the transfer.
  abbrev pub Sends : (next : String) → Transfer c.Joining → List (Effect c) → Type 0
  Sends next changed es =
      (next ≡ target)
      × (after : List (Effect c)) × (es ≡ packet_written (c.of_transfer changed) ∷ after)

  pub send_chosen-Leads :
      (a : Answers c) (p : c.Packet) (raw : Option c.Raw) (sequence : ℕ)
      (changed : Transfer c.Joining) (next : String)
      → Leads
          (send_chosen a p raw sequence (some (changed, next))).1
          (Sends next changed (send_chosen a p raw sequence (some (changed, next))).0)
  unfolding send_chosen write_packet finish_forward
  send_chosen-Leads a p raw sequence changed next = by_write a.write raw
    where
      tail : Run c (Unit {0})
      tail =
          flush_packet a (some (changed, next)) a.flush
          >> (record_forward_timing a p sequence >> end_transfer (some (changed, next)))

      timed : Leads tail.1 (next ≡ target)
      timed = after_write-Leads (next ≡ target) a p sequence (some (changed, next)) (λ e. cc)

      by_write :
          (o : Option c.Fault) (raw' : Option c.Raw)
          → Leads
              (write_packet a p raw' (some (changed, next)) o >> tail).1
              (Sends next changed (write_packet a p raw' (some (changed, next)) o >> tail).0)
      by_write none none h = (timed h, tail.0, refl)
      by_write none (some r) h = (timed h, released r ∷ tail.0, refl)
      by_write (some e) none h =
          end_with-then
            (Sends next changed (write_packet a p none (some (changed, next)) (some e) >> tail).0)
            "bridge.write_error" e
            (c.is_expected_shutdown e
              && (a.was_shutting_down || is_write_side "bridge.write_error"))
            a.network_record (finish_forward {A = Unit {0}} a "bridge.write_error" e).0 (λ u. tail)
            h
      by_write (some e) (some r) h =
          end_with-then
            (Sends next changed
              (write_packet a p (some r) (some (changed, next)) (some e) >> tail).0)
            "bridge.write_error" e
            (c.is_expected_shutdown e
              && (a.was_shutting_down || is_write_side "bridge.write_error"))
            a.network_record
            (released r ∷ (finish_forward {A = Unit {0}} a "bridge.write_error" e).0) (λ u. tail) h
