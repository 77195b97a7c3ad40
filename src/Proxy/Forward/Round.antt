-- ===== src/Proxy/Forward/Round.antt =====
-- internal/proxy/proxy.go: a whole forward_round, watched.
use bedrock_debug_proxy.Base.{
  ◌≡◌, refl, sym, ◌∙◌, String, List, [], ◌∷◌, ◌++◌, Option, none, some, Bool, true, false, ◌&&◌,
  append-nil, ◌⊎◌, subst,
}
use bedrock_debug_proxy.Proxy.Effects.{
  Codec, clone_fails, decode_fails, decodes, Read, raw_read, ready_read, typed_read, read_fails,
  Answers, Forwarding, Effect, released, decode_error_recorded, fails, Ending, goes_on, stops, Run,
  ◌>>=◌, ◌>>◌, unless, release,
}
use bedrock_debug_proxy.Proxy.Forward.{
  finish_forward, read_packet, forward_packet, forward_decoded, forward_round, keep_unknown,
}
use bedrock_debug_proxy.Proxy.Forward.Watch.{
  Watch, list_of, see_released, watch, Meets, Meets-then, Meets-append,
}
use bedrock_debug_proxy.Proxy.Forward.Phases.{Stopped, sent_for, end_with-meets, nothing_released}
use bedrock_debug_proxy.Proxy.Forward.Packet.{see_forwarded, forward_packet-meets}

abbrev pub sends : {A B : Type 0} → Option (B × Option A) → List (A ⊎ B)
sends none = []
sends (some (p, raw)) = sent_for p raw ∷ []

abbrev pub shows : {A B : Type 0} → Option (B × Option A) → List B
shows none = []
shows (some (p, raw)) = p ∷ []

and_true : (a : Bool) → a ≡ true → (a && true) ≡ true
and_true true h = refl
and_true false h = absurd (cc)

module _ {c : Codec} where
  -- The packet of a read and the bytes that it still holds, where the round does not end with it.
  abbrev pub given : Read c → Option (c.Packet × Option c.Raw)
  given (raw_read raw (clone_fails e)) = none
  given (raw_read raw (decode_fails e)) = some (c.unknown raw, some raw)
  given (raw_read raw (decodes none)) = none
  given (raw_read raw (decodes (some p))) = some (p, some raw)
  given (ready_read raw p) = some (p, none)
  given (typed_read none) = none
  given (typed_read (some p)) = some (p, none)
  given (read_fails raw e) = none

  -- What the proxy holds after a read, and has to release.
  abbrev pub taken : Read c → List c.Raw
  taken (raw_read raw d) = raw ∷ []
  taken (ready_read raw p) = raw ∷ []
  taken (typed_read p) = []
  taken (read_fails raw e) = list_of raw

  -- Nothing is read after a failure.
  abbrev pub taken_after : Option c.Fault → Option c.Fault → Read c → List c.Raw
  taken_after none none r = taken r
  taken_after none (some e) r = []
  taken_after (some e) failure r = []

  -- What a round does that goes on, and what one does that stops.
  pub record Went (w : Watch c) (raws : List c.Raw) (g : Option (c.Packet × Option c.Raw))
      (w' : Watch c) : Type 0 where
    pub releases : w'.released_reads ≡ w.released_reads ++ raws
    pub sending : w'.sent ≡ w.sent ++ sends g
    pub showing : w'.shown ≡ w.shown ++ shows g
    pub in_order : w'.ordered ≡ true

  abbrev pub Halted : (w : Watch c) → List c.Raw → (w' : Watch c) → Type 0
  Halted w raws w' = (w'.released_reads ≡ w.released_reads ++ raws) × (w'.ordered ≡ true)

  pub Meets-weaken :
      {A : Type 0} (w : Watch c) (es : List (Effect c)) (end : Ending c A)
      (Q Q' : A → Watch c → Type 0) (R R' : Watch c → Type 0)
      → ((a : A) (w' : Watch c) → Q a w' → Q' a w')
      → ((w' : Watch c) → R w' → R' w')
      → Meets w es end Q R
      → Meets w es end Q' R'
  Meets-weaken w es (goes_on a) Q Q' R R' f g h = f a (watch w es) h
  Meets-weaken w es (stops s) Q Q' R R' f g h = g (watch w es) h

  -- A packet whose read holds its bytes, or has given back `raws` before.
  forward_held :
      (w : Watch c) (f : Forwarding c) (a : Answers c) (p : c.Packet) (raw : c.Raw)
      → w.ordered ≡ true
      → Meets w
          (forward_packet f a p (some raw)).0
          (forward_packet f a p (some raw)).1
          (λ u w'. Went w (raw ∷ []) (some (p, some raw)) w')
          (Halted w (raw ∷ []))
  forward_held w f a p raw h =
      Meets-weaken w (forward_packet f a p (some raw)).0 (forward_packet f a p (some raw)).1
        (λ u w'. w' ≡ see_forwarded w p (some raw))
        (λ u w'. Went w (raw ∷ []) (some (p, some raw)) w') (Stopped (some raw) w)
        (Halted w (raw ∷ []))
        (λ u w' is. subst (Went w (raw ∷ []) (some (p, some raw))) (sym is) forwarded)
        (λ w' stopped. stopped) (forward_packet-meets w f a p (some raw) h)
    where
      forwarded : Went w (raw ∷ []) (some (p, some raw)) (see_forwarded w p (some raw))
      forwarded = record {
        releases = refl;
        sending = refl;
        showing = refl;
        in_order = and_true w.ordered h;
      }

  forward_free :
      (w : Watch c) (f : Forwarding c) (a : Answers c) (p : c.Packet) (raws : List c.Raw)
      → w.ordered ≡ true
      → Meets
          (see_released w raws)
          (forward_packet f a p none).0
          (forward_packet f a p none).1
          (λ u w'. Went w raws (some (p, none)) w')
          (Halted w raws)
  forward_free w f a p raws h =
      Meets-weaken (see_released w raws) (forward_packet f a p none).0 (forward_packet f a p none).1
        (λ u w'. w' ≡ see_forwarded (see_released w raws) p none)
        (λ u w'. Went w raws (some (p, none)) w') (Stopped none (see_released w raws))
        (Halted w raws) (λ u w' is. subst (Went w raws (some (p, none))) (sym is) forwarded)
        (λ w' stopped. (stopped.0 ∙ append-nil (w.released_reads ++ raws), stopped.1))
        (forward_packet-meets (see_released w raws) f a p none h)
    where
      forwarded : Went w raws (some (p, none)) (see_forwarded (see_released w raws) p none)
      forwarded = record {
        releases = append-nil (w.released_reads ++ raws);
        sending = refl;
        showing = refl;
        in_order = and_true w.ordered h;
      }

  -- A round without a packet.
  idle :
      (w : Watch c) (raws : List c.Raw) → w.ordered ≡ true → Went w raws none (see_released w raws)
  idle w raws h = record {
    releases = refl;
    sending = sym (append-nil w.sent);
    showing = sym (append-nil w.shown);
    in_order = h;
  }

  ended_round :
      (w : Watch c) (a : Answers c) (kind : String) (e : c.Fault) (raw : Option c.Raw)
      (g : Option c.Packet × Option c.Raw → Run c (Unit {0})) (Q : Unit {0} → Watch c → Type 0)
      → w.ordered ≡ true
      → let m : Run c (Option c.Packet × Option c.Raw) = release raw >> finish_forward a kind e in
        Meets w (m >>= g).0 (m >>= g).1 Q (Halted w (list_of raw))
  unfolding finish_forward
  ended_round w a kind e none g Q h =
      let P : Option c.Packet × Option c.Raw → Watch c → Type 0 =
        λ x w'. Meets w' (g x).0 (g x).1 Q (Halted w []) in
      Meets-then w (finish_forward a kind e) g P Q (Halted w [])
        (end_with-meets w kind e _ a.network_record P (Halted w [])
          (sym (append-nil w.released_reads), h))
        (λ x w' k. k)
  ended_round w a kind e (some raw) g Q h =
      let P : Option c.Packet × Option c.Raw → Watch c → Type 0 =
        λ x w'. Meets w' (g x).0 (g x).1 Q (Halted w (raw ∷ [])) in
      Meets-then w (release (some raw) >> finish_forward a kind e) g P Q (Halted w (raw ∷ []))
        (Meets-append w (released raw ∷ []) (finish_forward a kind e).0 (finish_forward a kind e).1
          P (Halted w (raw ∷ []))
          (end_with-meets (see_released w (raw ∷ [])) kind e _ a.network_record P
            (Halted w (raw ∷ [])) (refl, h)))
        (λ x w' k. k)

  -- Up to the fields' equations, `see_released w []` is `w`.
  read_round :
      (w : Watch c) (f : Forwarding c) (a : Answers c) (r : Read c)
      → w.ordered ≡ true
      → Meets w
          (read_packet a r >>= forward_decoded f a).0
          (read_packet a r >>= forward_decoded f a).1
          (λ u w'. Went w (taken r) (given r) w')
          (Halted w (taken r))
  unfolding read_packet
  read_round w f a (raw_read raw (clone_fails e)) h =
      ended_round w a "bridge.decode_error" e (some raw) (forward_decoded f a)
        (λ u w'. Went w (raw ∷ []) none w') h
  read_round w f a (raw_read raw (decode_fails e)) h = unknown_round a.decode_error_record
    where
      unknown_round :
          (o : Option c.Fault)
          → Meets w
              (keep_unknown o raw >>= forward_decoded f a).0
              (keep_unknown o raw >>= forward_decoded f a).1
              (λ u w'. Went w (raw ∷ []) (some (c.unknown raw, some raw)) w')
              (Halted w (raw ∷ []))
      unknown_round (some failed) = (refl, h)
      unknown_round none =
          Meets-append w (decode_error_recorded raw ∷ [])
            (forward_packet f a (c.unknown raw) (some raw)).0
            (forward_packet f a (c.unknown raw) (some raw)).1
            (λ u w'. Went w (raw ∷ []) (some (c.unknown raw, some raw)) w') (Halted w (raw ∷ []))
            (forward_held w f a (c.unknown raw) raw h)
  read_round w f a (raw_read raw (decodes none)) h = idle w (raw ∷ []) h
  read_round w f a (raw_read raw (decodes (some p))) h = forward_held w f a p raw h
  read_round w f a (ready_read raw p) h =
      Meets-append w (released raw ∷ []) (forward_packet f a p none).0 (forward_packet f a p none).1
        (λ u w'. Went w (raw ∷ []) (some (p, none)) w') (Halted w (raw ∷ []))
        (forward_free w f a p (raw ∷ []) h)
  read_round w f a (typed_read none) h =
      subst (Went w [] none) (sym (nothing_released w)) (idle w [] h)
  read_round w f a (typed_read (some p)) h =
      subst
        (λ (x : Watch c).
          Meets x (forward_packet f a p none).0 (forward_packet f a p none).1
            (λ u w'. Went w [] (some (p, none)) w') (Halted w []))
        (sym (nothing_released w)) (forward_free w f a p [] h)
  read_round w f a (read_fails none e) h =
      ended_round w a "bridge.read_error" e none (forward_decoded f a) (λ u w'. Went w [] none w') h
  read_round w f a (read_fails (some raw) e) h =
      ended_round w a "bridge.read_error" e (some raw) (forward_decoded f a)
        (λ u w'. Went w (raw ∷ []) none w') h

  pub forward_round-Went :
      (w : Watch c) (f : Forwarding c) (a : Answers c)
      → w.ordered ≡ true
      → Meets w
          (forward_round f a).0
          (forward_round f a).1
          (λ u w'. Went w (taken_after a.failure a.recorder_failure a.read) (given a.read) w')
          (Halted w (taken_after a.failure a.recorder_failure a.read))
  unfolding forward_round
  forward_round-Went w f a h = by_failures a.failure a.recorder_failure
    where
      by_failures :
          (o1 o2 : Option c.Fault)
          → let m : Run c (Unit {0}) =
              unless o1 fails
              >> (unless o2 fails >> (read_packet a a.read >>= forward_decoded f a)) in
            Meets w m.0 m.1
              (λ u w'. Went w (taken_after o1 o2 a.read) (given a.read) w')
              (Halted w (taken_after o1 o2 a.read))
      by_failures none none = read_round w f a a.read h
      by_failures none (some e) = (sym (append-nil w.released_reads), h)
      by_failures (some e) o2 = (sym (append-nil w.released_reads), h)
