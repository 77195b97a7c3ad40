-- ===== src/Proxy/Forward/Announced.antt =====
-- internal/proxy/proxy.go: a transfer is announced before it is sent.
use bedrock_debug_proxy.Base.{
  ◌≡◌, refl, sym, ap, ◌∙◌, ℕ, String, List, [], ◌∷◌, ◌++◌, Option, none, some, Bool, true, false,
  if◌then◌else◌, ◌&&◌, append_assoc,
}
use bedrock_debug_proxy.Proxy.Transfer.{
  Transfer, Rewriting, rewritten, not_rewritten, transfer_for_proxy_address,
}
use bedrock_debug_proxy.Proxy.Effects.{
  Codec, Read, raw_read, ready_read, typed_read, read_fails, clone_fails, decode_fails, decodes,
  Recorded, recorded, view_failed, not_recorded, Answers, Forwarding, Effect, next_target,
  rewrite_recorded, packet_written, fails, transfers, goes_on, stops, Run, ◌>>=◌, ◌>>◌, unless,
  release,
}
use bedrock_debug_proxy.Proxy.Forward.{
  finish_forward, finish_rewrite, end_rewrite, keep_unknown, read_packet, record_decoded, change_to,
  change_transfer, choose_for, choose_outgoing, write_packet, flush_packet, record_forward_timing,
  end_transfer, send_chosen, forward_packet, forward_decoded, forward_round, forward,
}
use bedrock_debug_proxy.Proxy.Forward.Sending.{
  Leads, Leads-then, end_with-Leads, write_packet-Leads, after_write-Leads, send_chosen-Leads,
}

-- The effects of a loop that ends with a transfer: it is the rewriting of a packet, its target is
-- announced, and then it is written.
pub record Announced {c : Codec} (f : Forwarding c) (target : String) (es : List (Effect c))
    : Type 0 where
  pub packet : c.Packet
  pub original : Transfer c.Joining
  pub changed : Transfer c.Joining
  pub before : List (Effect c)
  pub after : List (Effect c)
  pub is_transfer : c.as_transfer packet ≡ some original
  pub is_rewriting :
      transfer_for_proxy_address f.net original f.local_address ≡ rewritten changed target
  pub effects : es ≡ before ++ next_target target ∷ packet_written (c.of_transfer changed) ∷ after

module _ {c : Codec} (target : String) where
  Announced-append :
      (f : Forwarding c) (xs es : List (Effect c))
      → Announced f target es
      → Announced f target (xs ++ es)
  Announced-append f xs es n = record {
    packet = n.packet;
    original = n.original;
    changed = n.changed;
    before = xs ++ n.before;
    after = n.after;
    is_transfer = n.is_transfer;
    is_rewriting = n.is_rewriting;
    effects =
        ap (λ (x : List (Effect c)). xs ++ x) n.effects
        ∙ sym (
            append_assoc xs n.before
              (next_target target ∷ packet_written (c.of_transfer n.changed) ∷ n.after));
  }

  -- A run all of whose endings with the transfer are announced.
  abbrev Announces : {A : Type 0} → Forwarding c → Run c A → Type 0
  Announces f m = Leads target m.1 (Announced f target m.0)

  Announces-then :
      {A B : Type 0} (f : Forwarding c) (m : Run c A) (g : A → Run c B)
      → Announces f m
      → ((a : A) → Announces f (g a))
      → Announces f (m >>= g)
  Announces-then f (es, goes_on a) g h k e = Announced-append f es (g a).0 (k a e)
  Announces-then f (es, stops s) g h k e = h (cc)

  unchanged-Announces :
      (f : Forwarding c) (a : Answers c) (p : c.Packet) (raw : Option c.Raw) (sequence : ℕ)
      → Announces f (send_chosen a p raw sequence none)
  unfolding send_chosen
  unchanged-Announces f a p raw sequence =
      let P : Type 0 = Announced f target (send_chosen a p raw sequence none).0 in
      Leads-then target P (write_packet a p raw none a.write)
        (λ u.
          flush_packet a none a.flush >> (record_forward_timing a p sequence >> end_transfer none))
        (write_packet-Leads target P a p raw none a.write)
        (λ u. after_write-Leads target P a p sequence none (λ e. absurd (cc)))

  changed-Announces :
      (f : Forwarding c) (a : Answers c) (p : c.Packet) (raw : Option c.Raw) (sequence : ℕ)
      (t : Transfer c.Joining) (r : Rewriting c.Joining)
      → f.on_transfer ≡ true
      → c.as_transfer p ≡ some t
      → transfer_for_proxy_address f.net t f.local_address ≡ r
      → Announces f (change_transfer f a raw t r >>= send_chosen a p raw sequence)
  unfolding change_transfer finish_rewrite
  changed-Announces f a p raw sequence t (not_rewritten e) on is rewriting =
      refused raw a.network_record
    where
      refused :
          (raw' : Option c.Raw) (o : Option c.Fault)
          → Announces f (
              (release raw' >> end_rewrite {A = Option (Transfer c.Joining × String)} e o)
              >>= send_chosen a p raw sequence)
      refused none none h = absurd (cc)
      refused none (some failed) h = absurd (cc)
      refused (some x) none h = absurd (cc)
      refused (some x) (some failed) h = absurd (cc)
  changed-Announces f a p raw sequence t (rewritten changed next) on is rewriting =
      by_record f.on_transfer on a.rewrite_record raw
    where
      by_record :
          (b : Bool)
          → b ≡ true
          → (o : Option c.Fault) (raw' : Option c.Raw)
          → Announces f (change_to b o raw' t changed next >>= send_chosen a p raw sequence)
      by_record false e o raw' h = absurd (cc)
      by_record true e (some failed) none h = absurd (cc)
      by_record true e (some failed) (some x) h = absurd (cc)
      by_record true e none raw' h =
          let (same, after, sent) = send_chosen-Leads target a p raw sequence changed next h in
          record {
            packet = p;
            original = t;
            changed = changed;
            before = rewrite_recorded t changed next ∷ [];
            after = after;
            is_transfer = is;
            is_rewriting = rewriting ∙ ap (rewritten changed) same;
            effects =
                ap (λ (x : List (Effect c)). rewrite_recorded t changed next ∷ next_target next ∷ x)
                  sent
                ∙ ap
                    (λ (x : String).
                      rewrite_recorded t changed next
                      ∷ next_target x
                      ∷ packet_written (c.of_transfer changed)
                      ∷ after)
                    same;
          }

  record_decoded-Announces :
      (f : Forwarding c) (d : Recorded c) (p : c.Packet) (raw : Option c.Raw)
      → Announces f (record_decoded d p raw)
  unfolding record_decoded
  record_decoded-Announces f (recorded sequence) p raw h = absurd (cc)
  record_decoded-Announces f view_failed p raw h = absurd (cc)
  record_decoded-Announces f (not_recorded e) p none h = absurd (cc)
  record_decoded-Announces f (not_recorded e) p (some raw) h = absurd (cc)

  forward_packet-Announces :
      (f : Forwarding c) (a : Answers c) (p : c.Packet) (raw : Option c.Raw)
      → f.on_transfer ≡ true
      → Announces f (forward_packet f a p raw)
  unfolding forward_packet choose_outgoing
  forward_packet-Announces f a p raw on =
      Announces-then f (record_decoded a.decoded_record p raw)
        (λ sequence. choose_outgoing f a p raw >>= send_chosen a p raw sequence)
        (record_decoded-Announces f a.decoded_record p raw)
        (λ sequence. by_test sequence (f.follow_transfers && f.server_to_client))
    where
      by_transfer :
          (sequence : ℕ) (o : Option (Transfer c.Joining))
          → c.as_transfer p ≡ o
          → Announces f (choose_for f a raw o >>= send_chosen a p raw sequence)
      by_transfer sequence none e = unchanged-Announces f a p raw sequence
      by_transfer sequence (some t) e =
          changed-Announces f a p raw sequence t
            (transfer_for_proxy_address f.net t f.local_address) on e refl

      by_test :
          (sequence : ℕ) (b : Bool)
          → Announces f (
              choose_for f a raw (if b then c.as_transfer p else none)
              >>= send_chosen a p raw sequence)
      by_test sequence false = unchanged-Announces f a p raw sequence
      by_test sequence true = by_transfer sequence (c.as_transfer p) refl

  read_packet-Announces :
      (f : Forwarding c) (a : Answers c) (r : Read c) → Announces f (read_packet a r)
  unfolding read_packet finish_forward
  read_packet-Announces f a (raw_read raw (clone_fails e)) h =
      end_with-Leads target (Announced f target _) "bridge.decode_error" e _ a.network_record h
  read_packet-Announces f a (raw_read raw (decode_fails e)) h = by_record a.decode_error_record h
    where
      by_record : (o : Option c.Fault) → Announces f (keep_unknown o raw)
      by_record none h = absurd (cc)
      by_record (some failed) h = absurd (cc)
  read_packet-Announces f a (raw_read raw (decodes p)) h = absurd (cc)
  read_packet-Announces f a (ready_read raw p) h = absurd (cc)
  read_packet-Announces f a (typed_read p) h = absurd (cc)
  read_packet-Announces f a (read_fails none e) h =
      end_with-Leads target (Announced f target _) "bridge.read_error" e _ a.network_record h
  read_packet-Announces f a (read_fails (some raw) e) h =
      end_with-Leads target (Announced f target _) "bridge.read_error" e _ a.network_record h

  forward_round-Announces :
      (f : Forwarding c) (a : Answers c) → f.on_transfer ≡ true → Announces f (forward_round f a)
  unfolding forward_round
  forward_round-Announces f a on = by_failures a.failure a.recorder_failure
    where
      decoded_announces : (d : Option c.Packet × Option c.Raw) → Announces f (forward_decoded f a d)
      decoded_announces (none, none) h = absurd (cc)
      decoded_announces (none, some raw) h = absurd (cc)
      decoded_announces (some p, raw) h = forward_packet-Announces f a p raw on h

      by_failures :
          (o1 o2 : Option c.Fault)
          → Announces f (
              unless o1 fails
              >> (unless o2 fails >> (read_packet a a.read >>= forward_decoded f a)))
      by_failures none none h =
          Announces-then f (read_packet a a.read) (forward_decoded f a)
            (read_packet-Announces f a a.read) decoded_announces h
      by_failures none (some e) h = absurd (cc)
      by_failures (some e) o2 h = absurd (cc)

  -- Where the loop has a callback for transfers and ends with the transfer to a target, the target is
  -- that of a transfer packet which it rewrote to the proxy's address; and it is announced to the
  -- session immediately before the rewritten packet is written, so that a client that comes back at
  -- once finds the next hop.
  pub forward-Announces :
      (f : Forwarding c) (rounds : List (Answers c))
      → f.on_transfer ≡ true
      → (forward f rounds).1 ≡ stops (transfers target)
      → Announced f target (forward f rounds).0
  unfolding forward
  forward-Announces f [] on h = absurd (cc)
  forward-Announces f (a ∷ rounds) on h =
      Announces-then f (forward_round f a) (λ u. forward f rounds) (forward_round-Announces f a on)
        (λ u e. forward-Announces f rounds on e) h
