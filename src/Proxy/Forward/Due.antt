-- ===== src/Proxy/Forward/Due.antt =====
-- internal/proxy/proxy.go: the writes of the forwarding loop and the records before them.
use bedrock_debug_proxy.Base.{
  ◌≡◌, refl, ◌∙◌, ◌⊎◌, inl, inr, ℕ, String, List, [], ◌∷◌, ◌++◌, Option, none, some, Bool, true,
  false, if◌then◌else◌, ◌&&◌, ◌||◌,
}
use bedrock_debug_proxy.Proxy.Transfer.{
  Transfer, TransferError, Rewriting, rewritten, not_rewritten, transfer_for_proxy_address,
}
use bedrock_debug_proxy.Proxy.Effects.{
  Codec, Recorded, recorded, view_failed, not_recorded, Answers, Forwarding, Effect, released,
  decode_error_recorded, packet_recorded, view_error_recorded, rewrite_recorded, next_target,
  raw_written, packet_written, flushed, timing_recorded, network_error_recorded, Ending, goes_on,
  stops, Run, ◌>>=◌, ◌>>◌, release,
}
use bedrock_debug_proxy.Proxy.Forward.{
  is_write_side, finish_forward, finish_rewrite, end_rewrite, end_with, record_decoded, change_to,
  change_transfer, choose_for, choose_outgoing, write_packet, flush_packet, record_timing,
  record_forward_timing, end_transfer, send_chosen, forward_packet,
}
use bedrock_debug_proxy.Proxy.Forward.Phases.{sent_for}

-- Of the packets and the bytes that reads gave.
abbrev pub Reads : Codec → Type 1
Reads c = c.Packet → Option c.Raw → Type 0

module _ {c : Codec} where
  -- What may be sent for a packet that was read with `raw` still held: the bytes, or else the packet;
  -- or the rewriting of the packet, where it is a transfer.
  abbrev pub IsSentFor : Forwarding c → c.Packet → (raw : Option c.Raw) → c.Raw ⊎ c.Packet → Type 0
  IsSentFor f p raw x =
      (x ≡ sent_for p raw)
      ⊎ ((original : Transfer c.Joining) × (changed : Transfer c.Joining) × (target : String)
          × (c.as_transfer p ≡ some original)
          × (transfer_for_proxy_address f.net original f.local_address ≡ rewritten changed target)
          × (x ≡ inr (c.of_transfer changed)))

  -- That a write sends the packet whose record, or whose view error's, is the last since the write
  -- before, and that this packet was read.
  abbrev pub IsDue : Forwarding c → Reads c → Option c.Packet → c.Raw ⊎ c.Packet → Type 0
  IsDue f P last x =
      (p : c.Packet) × (raw : Option c.Raw) × (last ≡ some p) × P p raw × IsSentFor f p raw x

  -- That all writes among some effects are due; `last` is the packet that was recorded last, if it
  -- was since the last write.
  abbrev pub WritesDue :
      Forwarding c → Reads c → (last : Option c.Packet) → List (Effect c) → Type 0
  WritesDue f P last [] = Unit {0}
  WritesDue f P last (packet_recorded p ∷ es) = WritesDue f P (some p) es
  WritesDue f P last (view_error_recorded p ∷ es) = WritesDue f P (some p) es
  WritesDue f P last (raw_written raw ∷ es) = IsDue f P last (inl raw) × WritesDue f P none es
  WritesDue f P last (packet_written p ∷ es) = IsDue f P last (inr p) × WritesDue f P none es
  WritesDue f P last (_ ∷ es) = WritesDue f P last es

  abbrev pub last_of : Option c.Packet → List (Effect c) → Option c.Packet
  last_of last [] = last
  last_of last (packet_recorded p ∷ es) = last_of (some p) es
  last_of last (view_error_recorded p ∷ es) = last_of (some p) es
  last_of last (raw_written raw ∷ es) = last_of none es
  last_of last (packet_written p ∷ es) = last_of none es
  last_of last (_ ∷ es) = last_of last es

  module _ (f : Forwarding c) (P : Reads c) where
    pub WritesDue-append :
        (last : Option c.Packet) (xs ys : List (Effect c))
        → WritesDue f P last xs
        → WritesDue f P (last_of last xs) ys
        → WritesDue f P last (xs ++ ys)
    WritesDue-append last [] ys h k = k
    WritesDue-append last (packet_recorded p ∷ xs) ys h k = WritesDue-append (some p) xs ys h k
    WritesDue-append last (view_error_recorded p ∷ xs) ys h k = WritesDue-append (some p) xs ys h k
    WritesDue-append last (raw_written raw ∷ xs) ys h k = (h.0, WritesDue-append none xs ys h.1 k)
    WritesDue-append last (packet_written p ∷ xs) ys h k = (h.0, WritesDue-append none xs ys h.1 k)
    WritesDue-append last (released raw ∷ xs) ys h k = WritesDue-append last xs ys h k
    WritesDue-append last (decode_error_recorded raw ∷ xs) ys h k = WritesDue-append last xs ys h k
    WritesDue-append last (rewrite_recorded t u target ∷ xs) ys h k =
        WritesDue-append last xs ys h k
    WritesDue-append last (next_target target ∷ xs) ys h k = WritesDue-append last xs ys h k
    WritesDue-append last (flushed ∷ xs) ys h k = WritesDue-append last xs ys h k
    WritesDue-append last (timing_recorded p ∷ xs) ys h k = WritesDue-append last xs ys h k
    WritesDue-append last (network_error_recorded kind ∷ xs) ys h k =
        WritesDue-append last xs ys h k

    -- A run whose writes are due, and what holds of its result and of the last record.
    abbrev pub Then :
        {A : Type 0} → Ending c A → (A → Option c.Packet → Type 0) → Option c.Packet → Type 0
    Then (goes_on a) Q last = Q a last
    Then (stops s) Q last = Unit {0}

    abbrev pub Writes :
        {A : Type 0} → Option c.Packet → Run c A → (Q : A → Option c.Packet → Type 0) → Type 0
    Writes last m Q = WritesDue f P last m.0 × Then m.1 Q (last_of last m.0)

    pub Writes-then :
        {A B : Type 0} (last : Option c.Packet) (m : Run c A) (g : A → Run c B)
        (Q : A → Option c.Packet → Type 0)
        → Writes last m Q
        → ((a : A) (next : Option c.Packet) → Q a next → WritesDue f P next (g a).0)
        → WritesDue f P last (m >>= g).0
    Writes-then last (es, goes_on a) g Q h k =
        WritesDue-append last es (g a).0 h.0 (k a (last_of last es) h.1)
    Writes-then last (es, stops s) g Q h k = h.0

    abbrev Any : {A : Type 0} → A → Option c.Packet → Type 0
    Any a last = Unit {0}

    record_decoded-Writes :
        (last : Option c.Packet) (d : Recorded c) (p : c.Packet) (raw : Option c.Raw)
        → Writes last (record_decoded d p raw) (λ n next. next ≡ some p)
    unfolding record_decoded
    record_decoded-Writes last (recorded sequence) p raw = (tt, refl)
    record_decoded-Writes last view_failed p raw = (tt, refl)
    record_decoded-Writes last (not_recorded e) p none = (tt, tt)
    record_decoded-Writes last (not_recorded e) p (some r) = (tt, tt)

    -- A transfer in the place of `p`.
    abbrev IsRewriting : c.Packet → Option (Transfer c.Joining × String) → Type 0
    IsRewriting p none = Unit {0}
    IsRewriting p (some (changed, target)) =
        (original : Transfer c.Joining) × (c.as_transfer p ≡ some original)
        × (transfer_for_proxy_address f.net original f.local_address ≡ rewritten changed target)

    choose_outgoing-Writes :
        (last : Option c.Packet) (a : Answers c) (p : c.Packet) (raw : Option c.Raw)
        → Writes last (choose_outgoing f a p raw) (λ x next. (next ≡ last) × IsRewriting p x)
    unfolding choose_outgoing change_transfer finish_rewrite
    choose_outgoing-Writes last a p raw =
        by_test (f.follow_transfers && f.server_to_client) (c.as_transfer p) refl
      where
        Q : Option (Transfer c.Joining × String) → Option c.Packet → Type 0
        Q x next = (next ≡ last) × IsRewriting p x

        refused :
            (raw' : Option c.Raw) (e : TransferError) (o : Option c.Fault)
            → Writes last
                (release raw' >> end_rewrite {A = Option (Transfer c.Joining × String)} e o)
                Q
        refused none e none = (tt, tt)
        refused none e (some failed) = (tt, tt)
        refused (some r) e none = (tt, tt)
        refused (some r) e (some failed) = (tt, tt)

        by_record :
            (b : Bool) (o : Option c.Fault) (raw' : Option c.Raw) (t u : Transfer c.Joining)
            (target : String)
            → c.as_transfer p ≡ some t
            → transfer_for_proxy_address f.net t f.local_address ≡ rewritten u target
            → Writes last (change_to b o raw' t u target) Q
        by_record b (some e) none t u target is to = (tt, tt)
        by_record b (some e) (some r) t u target is to = (tt, tt)
        by_record true none raw' t u target is to = (tt, (refl, (t, is, to)))
        by_record false none raw' t u target is to = (tt, (refl, (t, is, to)))

        by_rewriting :
            (t : Transfer c.Joining) (r : Rewriting c.Joining)
            → c.as_transfer p ≡ some t
            → transfer_for_proxy_address f.net t f.local_address ≡ r
            → Writes last (change_transfer f a raw t r) Q
        by_rewriting t (not_rewritten e) is to = refused raw e a.network_record
        by_rewriting t (rewritten u target) is to =
            by_record f.on_transfer a.rewrite_record raw t u target is to

        by_test :
            (b : Bool) (o : Option (Transfer c.Joining))
            → c.as_transfer p ≡ o
            → Writes last (choose_for f a raw (if b then o else none)) Q
        by_test false o is = (tt, (refl, tt))
        by_test true none is = (tt, (refl, tt))
        by_test true (some t) is =
            by_rewriting t (transfer_for_proxy_address f.net t f.local_address) is refl

    write_packet-Writes :
        (last : Option c.Packet) (a : Answers c) (p : c.Packet) (raw : Option c.Raw)
        (changed : Option (Transfer c.Joining × String)) (write : Option c.Fault)
        → last ≡ some p
        → P p raw
        → IsRewriting p changed
        → Writes last (write_packet a p raw changed write) Any
    unfolding write_packet finish_forward
    write_packet-Writes last a p none none none is given_p to =
        (((p, none, is, given_p, inl refl), tt), tt)
    write_packet-Writes last a p (some r) none none is given_p to =
        (((p, some r, is, given_p, inl refl), tt), tt)
    write_packet-Writes last a p none (some (u, target)) none is given_p (t, is_t, to) =
        (((p, none, is, given_p, inr (t, u, target, is_t, to, refl)), tt), tt)
    write_packet-Writes last a p (some r) (some (u, target)) none is given_p (t, is_t, to) =
        (((p, some r, is, given_p, inr (t, u, target, is_t, to, refl)), tt), tt)
    write_packet-Writes last a p raw changed (some e) is given_p to =
        ended raw
          (c.is_expected_shutdown e && (a.was_shutting_down || is_write_side "bridge.write_error"))
          a.network_record
      where
        ended :
            (raw' : Option c.Raw) (b : Bool) (o : Option c.Fault)
            → Writes last (release raw' >> end_with {A = Unit {0}} "bridge.write_error" e b o) Any
        ended none true o = (tt, tt)
        ended none false none = (tt, tt)
        ended none false (some failed) = (tt, tt)
        ended (some r) true o = (tt, tt)
        ended (some r) false none = (tt, tt)
        ended (some r) false (some failed) = (tt, tt)

    flush_packet-Writes :
        (last : Option c.Packet) (a : Answers c) (changed : Option (Transfer c.Joining × String))
        (flush : Option c.Fault)
        → Writes last (flush_packet a changed flush) Any
    unfolding flush_packet finish_forward
    flush_packet-Writes last a none flush = (tt, tt)
    flush_packet-Writes last a (some changed) none = (tt, tt)
    flush_packet-Writes last a (some changed) (some e) =
        ended
          (c.is_expected_shutdown e && (a.was_shutting_down || is_write_side "bridge.flush_error"))
          a.network_record
      where
        ended :
            (b : Bool) (o : Option c.Fault)
            → Writes last (end_with {A = Unit {0}} "bridge.flush_error" e b o) Any
        ended true o = (tt, tt)
        ended false none = (tt, tt)
        ended false (some failed) = (tt, tt)

    record_timing-Writes :
        (last : Option c.Packet) (b : Bool) (o : Option c.Fault) (p : c.Packet)
        → Writes last (record_timing b o p) Any
    record_timing-Writes last false o p = (tt, tt)
    record_timing-Writes last true none p = (tt, tt)
    record_timing-Writes last true (some e) p = (tt, tt)

    end_transfer-Writes :
        (last : Option c.Packet) (changed : Option (Transfer c.Joining × String))
        → WritesDue f P last (end_transfer changed).0
    end_transfer-Writes last none = tt
    end_transfer-Writes last (some changed) = tt

    send_chosen-Writes :
        (last : Option c.Packet) (a : Answers c) (p : c.Packet) (raw : Option c.Raw) (sequence : ℕ)
        (changed : Option (Transfer c.Joining × String))
        → last ≡ some p
        → P p raw
        → IsRewriting p changed
        → WritesDue f P last (send_chosen a p raw sequence changed).0
    unfolding send_chosen record_forward_timing
    send_chosen-Writes last a p raw sequence changed is given_p to =
        Writes-then last (write_packet a p raw changed a.write) _ Any
          (write_packet-Writes last a p raw changed a.write is given_p to)
          (λ u l1 _.
            Writes-then l1 (flush_packet a changed a.flush) _ Any
              (flush_packet-Writes l1 a changed a.flush)
              (λ v l2 _.
                Writes-then l2 (record_forward_timing a p sequence) _ Any
                  (record_timing-Writes l2 _ a.timing_record p)
                  (λ x l3 _. end_transfer-Writes l3 changed)))

    pub forward_packet-Writes :
        (last : Option c.Packet) (a : Answers c) (p : c.Packet) (raw : Option c.Raw)
        → P p raw
        → WritesDue f P last (forward_packet f a p raw).0
    unfolding forward_packet
    forward_packet-Writes last a p raw given_p =
        Writes-then last (record_decoded a.decoded_record p raw) _ (λ n next. next ≡ some p)
          (record_decoded-Writes last a.decoded_record p raw)
          (λ sequence l1 is.
            Writes-then l1 (choose_outgoing f a p raw) _ (λ x next. (next ≡ l1) × IsRewriting p x)
              (choose_outgoing-Writes l1 a p raw)
              (λ changed l2 chosen.
                send_chosen-Writes l2 a p raw sequence changed (chosen.0 ∙ is) given_p chosen.1))
