-- ===== src/Proxy/Forward/Lossless.antt =====
-- internal/proxy/proxy.go: no packet is lost or changed, and every read is released.
use bedrock_debug_proxy.Base.{
  ◌≡◌, refl, sym, ap, ◌∙◌, List, [], ◌∷◌, ◌++◌, true, false, append_assoc, append-nil, ◌⊎◌, subst,
}
use bedrock_debug_proxy.Proxy.Effects.{
  Codec, Answers, Forwarding, Effect, Ending, goes_on, stops, Run, ◌>>◌,
}
use bedrock_debug_proxy.Proxy.Forward.{forward_round, forward}
use bedrock_debug_proxy.Proxy.Forward.Watch.{Watch, watch, watch-append, Meets, Meets-then}
use bedrock_debug_proxy.Proxy.Forward.Round.{
  given, taken_after, sends, shows, Went, Halted, Meets-weaken, forward_round-Went,
}

abbrev pub nothing_seen : {c : Codec} → Watch c
nothing_seen = record { released_reads = []; sent = []; shown = []; fresh = false; ordered = true }

module _ {c : Codec} where
  -- What the reads of some rounds give to be sent, to be shown and to be released.
  abbrev pub all_sent : List (Answers c) → List (c.Raw ⊎ c.Packet)
  all_sent [] = []
  all_sent (a ∷ rounds) = sends (given a.read) ++ all_sent rounds

  abbrev pub all_shown : List (Answers c) → List c.Packet
  all_shown [] = []
  all_shown (a ∷ rounds) = shows (given a.read) ++ all_shown rounds

  abbrev pub all_taken : List (Answers c) → List c.Raw
  all_taken [] = []
  all_taken (a ∷ rounds) = taken_after a.failure a.recorder_failure a.read ++ all_taken rounds

  record Passed (w : Watch c) (rounds : List (Answers c)) (w' : Watch c) : Type 0 where
    releases : w'.released_reads ≡ w.released_reads ++ all_taken rounds
    sending : w'.sent ≡ w.sent ++ all_sent rounds
    showing : w'.shown ≡ w.shown ++ all_shown rounds
    in_order : w'.ordered ≡ true

  Passed-cons :
      (w w1 w' : Watch c) (a : Answers c) (rounds : List (Answers c))
      → Went w (taken_after a.failure a.recorder_failure a.read) (given a.read) w1
      → Passed w1 rounds w'
      → Passed w (a ∷ rounds) w'
  Passed-cons w w1 w' a rounds one more = record {
    releases =
        more.releases
        ∙ ap (λ (x : List c.Raw). x ++ all_taken rounds) one.releases
        ∙ append_assoc w.released_reads (taken_after a.failure a.recorder_failure a.read)
            (all_taken rounds);
    sending =
        more.sending
        ∙ ap (λ (x : List (c.Raw ⊎ c.Packet)). x ++ all_sent rounds) one.sending
        ∙ append_assoc w.sent (sends (given a.read)) (all_sent rounds);
    showing =
        more.showing
        ∙ ap (λ (x : List c.Packet). x ++ all_shown rounds) one.showing
        ∙ append_assoc w.shown (shows (given a.read)) (all_shown rounds);
    in_order = more.in_order;
  }

  forward-meets :
      (w : Watch c) (f : Forwarding c) (rounds : List (Answers c))
      → w.ordered ≡ true
      → Meets w
          (forward f rounds).0
          (forward f rounds).1
          (λ u w'. Passed w rounds w')
          (λ w'. w'.ordered ≡ true)
  unfolding forward
  forward-meets w f [] h = record {
    releases = sym (append-nil w.released_reads);
    sending = sym (append-nil w.sent);
    showing = sym (append-nil w.shown);
    in_order = h;
  }
  forward-meets w f (a ∷ rounds) h =
      let raws = taken_after a.failure a.recorder_failure a.read in
      Meets-then w (forward_round f a) (λ u. forward f rounds)
        (λ u w1. Went w raws (given a.read) w1) (λ u w'. Passed w (a ∷ rounds) w')
        (λ w'. w'.ordered ≡ true)
        (Meets-weaken w (forward_round f a).0 (forward_round f a).1
          (λ u w1. Went w raws (given a.read) w1) (λ u w1. Went w raws (given a.read) w1)
          (Halted w raws) (λ w'. w'.ordered ≡ true) (λ u w1 one. one) (λ w' halted. halted.1)
          (forward_round-Went w f a h))
        (λ u w1 one.
          Meets-weaken w1 (forward f rounds).0 (forward f rounds).1 (λ v w'. Passed w1 rounds w')
            (λ v w'. Passed w (a ∷ rounds) w') (λ w'. w'.ordered ≡ true) (λ w'. w'.ordered ≡ true)
            (λ v w' more. Passed-cons w w1 w' a rounds one more) (λ w' more. more)
            (forward-meets w1 f rounds one.in_order))

  abbrev pub unless_stopped : {A : Type 0} → Ending c (Unit {0}) → List A → List A
  unless_stopped (goes_on u) xs = xs
  unless_stopped (stops s) xs = []

  -- The rounds that the loop begins: all up to the one that stops it.
  abbrev pub begun : Forwarding c → List (Answers c) → List (Answers c)
  begun f [] = []
  begun f (a ∷ rounds) = a ∷ unless_stopped (forward_round f a).1 (begun f rounds)

  forward-released :
      (w : Watch c) (f : Forwarding c) (rounds : List (Answers c))
      → w.ordered ≡ true
      → (watch w (forward f rounds).0).released_reads
        ≡ w.released_reads ++ all_taken (begun f rounds)
  unfolding forward
  forward-released w f [] h = sym (append-nil w.released_reads)
  forward-released w f (a ∷ rounds) h =
      by_run (forward_round f a) (forward_round-Went w f a h)
        (λ w1 k. forward-released w1 f rounds k)
    where
      raws : List c.Raw
      raws = taken_after a.failure a.recorder_failure a.read

      by_run :
          (m : Run c (Unit {0}))
          → Meets w m.0 m.1 (λ u w'. Went w raws (given a.read) w') (Halted w raws)
          → ((w1 : Watch c)
              → w1.ordered ≡ true
              → (watch w1 (forward f rounds).0).released_reads
                ≡ w1.released_reads ++ all_taken (begun f rounds))
          → (watch w (m >> forward f rounds).0).released_reads
            ≡ w.released_reads ++ (raws ++ all_taken (unless_stopped m.1 (begun f rounds)))
      by_run (es, goes_on u) one more =
          ap (λ (x : Watch c). x.released_reads) (watch-append w es (forward f rounds).0)
          ∙ more (watch w es) one.in_order
          ∙ ap (λ (x : List c.Raw). x ++ all_taken (begun f rounds)) one.releases
          ∙ append_assoc w.released_reads raws (all_taken (begun f rounds))
      by_run (es, stops s) halted more =
          halted.0 ∙ ap (λ (x : List c.Raw). w.released_reads ++ x) (sym (append-nil raws))

-- While the loop goes on, each packet that is read is sent once, in the order of the reads and
-- unchanged: as the very bytes where the read holds them, and these also where they cannot be
-- decoded; and each is shown to the recorder once, in the same order.
pub forward-lossless :
    {c : Codec} (f : Forwarding c) (rounds : List (Answers c)) (effects : List (Effect c))
    → forward f rounds ≡ (effects, goes_on tt)
    → let w = watch nothing_seen effects in
      (w.sent ≡ all_sent rounds) × (w.shown ≡ all_shown rounds)
forward-lossless {c = c} f rounds effects h =
    let passed =
      subst
        (λ (m : Run c (Unit {0})).
          Meets nothing_seen m.0 m.1 (λ u w'. Passed nothing_seen rounds w')
            (λ w'. w'.ordered ≡ true))
        h (forward-meets nothing_seen f rounds refl) in
    (passed.sending, passed.showing)

-- However the loop ends, the reads that its rounds have taken are released, each once and in their
-- order, by the round that took them: none is leaked and none is given back twice.
pub forward-releases :
    {c : Codec} (f : Forwarding c) (rounds : List (Answers c))
    → (watch nothing_seen (forward f rounds).0).released_reads ≡ all_taken (begun f rounds)
forward-releases f rounds = forward-released nothing_seen f rounds refl
