-- ===== src/Proxy/Forward/Packet.antt =====
-- internal/proxy/proxy.go: a packet through a forward_round, watched.
use bedrock_debug_proxy.Base.{
  ◌≡◌, refl, sym, ℕ, String, Option, none, some, Bool, true, false, ◌&&◌, subst,
}
use bedrock_debug_proxy.Proxy.Transfer.{Transfer}
use bedrock_debug_proxy.Proxy.Effects.{Codec, Answers, Forwarding, Run, ◌>>=◌}
use bedrock_debug_proxy.Proxy.Forward.{
  record_decoded, choose_outgoing, write_packet, flush_packet, record_forward_timing, end_transfer,
  forward_packet, send_chosen,
}
use bedrock_debug_proxy.Proxy.Forward.Watch.{
  Watch, list_of, see_sent, see_shown, see_released, Meets, Meets-then,
}
use bedrock_debug_proxy.Proxy.Forward.Phases.{
  Stopped, sent_for, sent_as, record_decoded-meets, choose_outgoing-meets, write_packet-meets,
  flush_packet-meets, record_forward_timing-meets,
}

-- One packet that is shown, sent and whose read is released.
abbrev pub see_forwarded : {c : Codec} → Watch c → c.Packet → Option c.Raw → Watch c
see_forwarded w p raw = see_released (see_sent (see_shown w p) (sent_for p raw)) (list_of raw)

and_true : (a : Bool) → a ≡ true → (a && true) ≡ true
and_true true h = refl
and_true false h = absurd (cc)

module _ {c : Codec} where
  Meets-exact :
      {A B : Type 0} (w W : Watch c) (m : Run c A) (f : A → Run c B) (Q : B → Watch c → Type 0)
      (R : Watch c → Type 0)
      → Meets w m.0 m.1 (λ a w'. w' ≡ W) R
      → ((a : A) → Meets W (f a).0 (f a).1 Q R)
      → Meets w (m >>= f).0 (m >>= f).1 Q R
  Meets-exact w W m f Q R h k =
      Meets-then w m f (λ a w'. w' ≡ W) Q R h
        (λ a w' is. subst (λ (x : Watch c). Meets x (f a).0 (f a).1 Q R) (sym is) (k a))

  pub forward_packet-meets :
      (w : Watch c) (f : Forwarding c) (a : Answers c) (p : c.Packet) (raw : Option c.Raw)
      → w.ordered ≡ true
      → Meets w
          (forward_packet f a p raw).0
          (forward_packet f a p raw).1
          (λ u w'. w' ≡ see_forwarded w p raw)
          (Stopped raw w)
  unfolding forward_packet send_chosen
  forward_packet-meets w f a p raw h =
      let W : Watch c = see_shown w p in
      Meets-exact w W (record_decoded a.decoded_record p raw) _ Q R
        (record_decoded-meets w a.decoded_record p raw h)
        (λ sequence.
          Meets-exact W W (choose_outgoing f a p raw) _ Q R (choose_outgoing-meets W f a p raw h)
            (λ changed. after_choice sequence changed))
    where
      Q : Unit {0} → Watch c → Type 0
      Q u w' = w' ≡ see_forwarded w p raw

      R : Watch c → Type 0
      R w' = Stopped raw w w'

      ends_unchanged :
          (changed : Option (Transfer c.Joining × String))
          → R (see_released (see_sent (see_shown w p) (sent_as c p raw changed)) (list_of raw))
          → Meets
              (see_released (see_sent (see_shown w p) (sent_as c p raw changed)) (list_of raw))
              (end_transfer changed).0
              (end_transfer changed).1
              Q
              R
      ends_unchanged none stopped = refl
      ends_unchanged (some changed) stopped = stopped

      after_choice :
          (sequence : ℕ) (changed : Option (Transfer c.Joining × String))
          → Meets
              (see_shown w p)
              (send_chosen a p raw sequence changed).0
              (send_chosen a p raw sequence changed).1
              Q
              R
      after_choice sequence changed =
          let W : Watch c = see_shown w p in
          let W' : Watch c = see_released (see_sent W (sent_as c p raw changed)) (list_of raw) in
          let stopped : R W' = (refl, and_true w.ordered h) in
          Meets-exact W W' (write_packet a p raw changed a.write) _ Q R
            (write_packet-meets W a p raw changed a.write h)
            (λ u.
              Meets-exact W' W' (flush_packet a changed a.flush) _ Q R
                (flush_packet-meets W' a changed a.flush R stopped)
                (λ v.
                  Meets-exact W' W' (record_forward_timing a p sequence) _ Q R
                    (record_forward_timing-meets W' a p sequence R stopped)
                    (λ x. ends_unchanged changed stopped)))
