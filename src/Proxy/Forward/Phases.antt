-- ===== src/Proxy/Forward/Phases.antt =====
-- internal/proxy/proxy.go: the parts of a forward_round, watched.
use bedrock_debug_proxy.Base.{
  ◌==◌, ◌≡◌, refl, sym, ap, ℕ, String, List, [], ◌∷◌, ◌++◌, Option, none, some, Bool, true, false,
  if◌then◌else◌, ◌&&◌, not, append-nil, inl, inr, ◌⊎◌, subst,
}
use bedrock_debug_proxy.Proxy.Transfer.{
  Transfer, TransferError, Rewriting, rewritten, not_rewritten, transfer_for_proxy_address,
}
use bedrock_debug_proxy.Proxy.Effects.{
  Codec, Recorded, recorded, view_failed, not_recorded, Answers, Forwarding, ◌>>◌, release,
}
use bedrock_debug_proxy.Proxy.Forward.{
  finish_forward, finish_rewrite, record_decoded, change_transfer, choose_outgoing, write_packet,
  flush_packet, record_forward_timing, end_transfer, end_with, end_rewrite, change_to, choose_for,
  unless_ended, record_timing, should_record_forward_timing,
}
use bedrock_debug_proxy.Proxy.Forward.Watch.{
  Watch, list_of, see_sent, see_shown, see_released, Meets, Meets-then,
}

-- What a stop leaves: the read released, and every write after its record.
abbrev pub Stopped : {c : Codec} → Option c.Raw → (w w' : Watch c) → Type 0
Stopped raw w w' = (w'.released_reads ≡ w.released_reads ++ list_of raw) × (w'.ordered ≡ true)

-- What is sent for a packet that is not changed: the bytes that were read, where they are held.
abbrev pub sent_for : {A B : Type 0} → B → Option A → A ⊎ B
sent_for p (some raw) = inl raw
sent_for p none = inr p

abbrev pub sent_as :
    (c : Codec) → c.Packet → Option c.Raw → Option (Transfer c.Joining × String) → c.Raw ⊎ c.Packet
sent_as c p raw none = sent_for p raw
sent_as c p raw (some (changed, target)) = inr (c.of_transfer changed)

module _ {c : Codec} where
  pub end_with-meets :
      {A : Type 0} (w : Watch c) (kind : String) (e : c.Fault) (expected : Bool)
      (record_error : Option c.Fault) (Q : A → Watch c → Type 0) (R : Watch c → Type 0)
      → R w
      → Meets w
          (end_with {A = A} kind e expected record_error).0
          (end_with {A = A} kind e expected record_error).1
          Q
          R
  end_with-meets w kind e true record_error Q R h = h
  end_with-meets w kind e false none Q R h = h
  end_with-meets w kind e false (some failed) Q R h = h

  pub unless_ended-meets :
      (w : Watch c) (a : Answers c) (kind : String) (o : Option c.Fault)
      (Q : Unit {0} → Watch c → Type 0) (R : Watch c → Type 0)
      → Q tt w
      → R w
      → Meets w (unless_ended a kind o).0 (unless_ended a kind o).1 Q R
  unfolding finish_forward
  unless_ended-meets w a kind none Q R h k = h
  unless_ended-meets w a kind (some e) Q R h k = end_with-meets w kind e _ a.network_record Q R k

  pub release-meets :
      (w : Watch c) (raw : Option c.Raw) (R : Watch c → Type 0)
      → Meets w (release raw).0 (release raw).1 (λ u w'. w' ≡ see_released w (list_of raw)) R
  release-meets w none R =
      ap (λ (raws : List c.Raw). record w { released_reads = raws })
        (sym (append-nil w.released_reads))
  release-meets w (some raw) R = refl

  pub record_decoded-meets :
      (w : Watch c) (d : Recorded c) (p : c.Packet) (raw : Option c.Raw)
      → w.ordered ≡ true
      → Meets w
          (record_decoded d p raw).0
          (record_decoded d p raw).1
          (λ n w'. w' ≡ see_shown w p)
          (Stopped raw w)
  unfolding record_decoded
  record_decoded-meets w (recorded sequence) p raw h = refl
  record_decoded-meets w view_failed p raw h = refl
  record_decoded-meets w (not_recorded e) p none h = (sym (append-nil w.released_reads), h)
  record_decoded-meets w (not_recorded e) p (some r) h = (refl, h)

  pub choose_outgoing-meets :
      (w : Watch c) (f : Forwarding c) (a : Answers c) (p : c.Packet) (raw : Option c.Raw)
      → w.ordered ≡ true
      → Meets w
          (choose_outgoing f a p raw).0
          (choose_outgoing f a p raw).1
          (λ x w'. w' ≡ w)
          (Stopped raw w)
  unfolding choose_outgoing change_transfer finish_rewrite
  choose_outgoing-meets w f a p raw h =
      choose_for-meets (if f.follow_transfers && f.server_to_client then c.as_transfer p else none)
    where
      end_rewrite-meets :
          (raw' : Option c.Raw) (e : TransferError) (o : Option c.Fault)
          → Meets w
              (release raw' >> end_rewrite {A = Option (Transfer c.Joining × String)} e o).0
              (release raw' >> end_rewrite {A = Option (Transfer c.Joining × String)} e o).1
              (λ x w'. w' ≡ w)
              (Stopped raw' w)
      end_rewrite-meets none e none = (sym (append-nil w.released_reads), h)
      end_rewrite-meets none e (some failed) = (sym (append-nil w.released_reads), h)
      end_rewrite-meets (some r) e none = (refl, h)
      end_rewrite-meets (some r) e (some failed) = (refl, h)

      change_to-meets :
          (b : Bool) (o : Option c.Fault) (raw' : Option c.Raw) (t u : Transfer c.Joining)
          (target : String)
          → Meets w
              (change_to b o raw' t u target).0
              (change_to b o raw' t u target).1
              (λ x w'. w' ≡ w)
              (Stopped raw' w)
      change_to-meets b (some e) none t u target = (sym (append-nil w.released_reads), h)
      change_to-meets b (some e) (some r) t u target = (refl, h)
      change_to-meets true none raw' t u target = refl
      change_to-meets false none raw' t u target = refl

      change-meets :
          (t : Transfer c.Joining) (r : Rewriting c.Joining)
          → Meets w
              (change_transfer f a raw t r).0
              (change_transfer f a raw t r).1
              (λ x w'. w' ≡ w)
              (Stopped raw w)
      change-meets t (not_rewritten e) = end_rewrite-meets raw e a.network_record
      change-meets t (rewritten u target) =
          change_to-meets f.on_transfer a.rewrite_record raw t u target

      choose_for-meets :
          (o : Option (Transfer c.Joining))
          → Meets w
              (choose_for f a raw o).0
              (choose_for f a raw o).1
              (λ x w'. w' ≡ w)
              (Stopped raw w)
      choose_for-meets none = refl
      choose_for-meets (some t) =
          change-meets t (transfer_for_proxy_address f.net t f.local_address)

  pub nothing_released : (w : Watch c) → w ≡ see_released w []
  nothing_released w =
      ap (λ (raws : List c.Raw). record w { released_reads = raws })
        (sym (append-nil w.released_reads))

  pub write_packet-meets :
      (w : Watch c) (a : Answers c) (p : c.Packet) (raw : Option c.Raw)
      (changed : Option (Transfer c.Joining × String)) (write : Option c.Fault)
      → w.ordered ≡ true
      → Meets w
          (write_packet a p raw changed write).0
          (write_packet a p raw changed write).1
          (λ u w'. w' ≡ see_released (see_sent w (sent_as c p raw changed)) (list_of raw))
          (Stopped raw w)
  unfolding write_packet finish_forward
  write_packet-meets w a p none none none h = nothing_released (see_sent w (inr p))
  write_packet-meets w a p none (some (t, target)) none h =
      nothing_released (see_sent w (inr (c.of_transfer t)))
  write_packet-meets w a p (some r) none none h = refl
  write_packet-meets w a p (some r) (some (t, target)) none h = refl
  write_packet-meets w a p none changed (some e) h =
      end_with-meets w "bridge.write_error" e _ a.network_record
        (λ u w'. w' ≡ see_released (see_sent w (sent_as c p none changed)) []) (Stopped none w)
        (sym (append-nil w.released_reads), h)
  write_packet-meets w a p (some r) changed (some e) h =
      Meets-then w (release (some r)) (λ u. finish_forward a "bridge.write_error" e)
        (λ u w'. w' ≡ see_released w (r ∷ []))
        (λ u w'. w' ≡ see_released (see_sent w (sent_as c p (some r) changed)) (r ∷ []))
        (Stopped (some r) w) refl
        (λ u w' is.
          end_with-meets w' "bridge.write_error" e _ a.network_record
            (λ v y. y ≡ see_released (see_sent w (sent_as c p (some r) changed)) (r ∷ []))
            (Stopped (some r) w) (subst (Stopped (some r) w) (sym is) (refl, h)))

  pub flush_packet-meets :
      (w : Watch c) (a : Answers c) (changed : Option (Transfer c.Joining × String))
      (flush : Option c.Fault) (R : Watch c → Type 0)
      → R w
      → Meets w (flush_packet a changed flush).0 (flush_packet a changed flush).1 (λ u w'. w' ≡ w) R
  unfolding flush_packet finish_forward
  flush_packet-meets w a none flush R h = refl
  flush_packet-meets w a (some changed) none R h = refl
  flush_packet-meets w a (some changed) (some e) R h =
      end_with-meets w "bridge.flush_error" e _ a.network_record (λ u w'. w' ≡ w) R h

  pub record_forward_timing-meets :
      (w : Watch c) (a : Answers c) (p : c.Packet) (sequence : ℕ) (R : Watch c → Type 0)
      → R w
      → Meets w
          (record_forward_timing a p sequence).0
          (record_forward_timing a p sequence).1
          (λ u w'. w' ≡ w)
          R
  unfolding record_forward_timing
  record_forward_timing-meets w a p sequence R h =
      by_test (should_record_forward_timing (c.name p) && not (sequence == 0)) a.timing_record
    where
      by_test :
          (b : Bool) (o : Option c.Fault)
          → Meets w (record_timing b o p).0 (record_timing b o p).1 (λ u w'. w' ≡ w) R
      by_test false o = refl
      by_test true none = refl
      by_test true (some e) = h

  pub end_transfer-meets :
      (w : Watch c) (changed : Option (Transfer c.Joining × String)) (R : Watch c → Type 0)
      → R w
      → Meets w
          (end_transfer changed).0
          (end_transfer changed).1
          (λ u w'. (changed ≡ none) × (w' ≡ w))
          R
  end_transfer-meets w none R h = (refl, refl)
  end_transfer-meets w (some changed) R h = h
