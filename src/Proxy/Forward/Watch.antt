-- ===== src/Proxy/Forward/Watch.antt =====
-- internal/proxy/proxy.go: how the effects of the forwarding loop are watched.
use bedrock_debug_proxy.Base.{
  ◌≡◌, refl, sym, List, [], ◌∷◌, ◌++◌, Option, none, some, Bool, true, false, ◌&&◌, inl, inr, ◌⊎◌,
  subst,
}
use bedrock_debug_proxy.Proxy.Effects.{
  Codec, Effect, released, packet_recorded, view_error_recorded, raw_written, packet_written,
  Ending, goes_on, stops, Run, ◌>>=◌,
}

-- What is seen of the effects: the reads released, what is written, the packets recorded, whether a
-- packet has been recorded since the last write, and whether every write had one.
pub record Watch (c : Codec) : Type 0 where
  pub released_reads : List c.Raw
  pub sent : List (c.Raw ⊎ c.Packet)
  pub shown : List c.Packet
  pub fresh : Bool
  pub ordered : Bool

abbrev pub list_of {ℓ} : {A : Type ℓ} → Option A → List A
list_of none = []
list_of (some a) = a ∷ []

module _ {c : Codec} where
  abbrev pub see_sent : Watch c → c.Raw ⊎ c.Packet → Watch c
  see_sent w x = record w { sent = w.sent ++ x ∷ []; fresh = false; ordered = w.ordered && w.fresh }

  abbrev pub see_shown : Watch c → c.Packet → Watch c
  see_shown w p = record w { shown = w.shown ++ p ∷ []; fresh = true }

  abbrev pub see_released : Watch c → List c.Raw → Watch c
  see_released w raws = record w { released_reads = w.released_reads ++ raws }

  abbrev pub see : Watch c → Effect c → Watch c
  see w (released raw) = see_released w (raw ∷ [])
  see w (packet_recorded p) = see_shown w p
  see w (view_error_recorded p) = see_shown w p
  see w (raw_written raw) = see_sent w (inl raw)
  see w (packet_written p) = see_sent w (inr p)
  see w _ = w

  abbrev pub watch : Watch c → List (Effect c) → Watch c
  watch w [] = w
  watch w (e ∷ es) = watch (see w e) es

  pub watch-append :
      (w : Watch c) (xs ys : List (Effect c)) → watch w (xs ++ ys) ≡ watch (watch w xs) ys
  watch-append w [] ys = refl
  watch-append w (e ∷ xs) ys = watch-append (see w e) xs ys

  -- A run that is watched from `w` meets `Q` where it goes on and `R` where it stops.
  abbrev pub Meets :
      {A : Type 0}
      → Watch c
      → List (Effect c)
      → Ending c A
      → (Q : A → Watch c → Type 0) → (R : Watch c → Type 0) → Type 0
  Meets w es (goes_on a) Q R = Q a (watch w es)
  Meets w es (stops s) Q R = R (watch w es)

  pub Meets-append :
      {A : Type 0} (w : Watch c) (xs ys : List (Effect c)) (end : Ending c A)
      (Q : A → Watch c → Type 0) (R : Watch c → Type 0)
      → Meets (watch w xs) ys end Q R
      → Meets w (xs ++ ys) end Q R
  Meets-append w xs ys (goes_on a) Q R h = subst (Q a) (sym (watch-append w xs ys)) h
  Meets-append w xs ys (stops s) Q R h = subst R (sym (watch-append w xs ys)) h

  pub Meets-then :
      {A B : Type 0} (w : Watch c) (m : Run c A) (f : A → Run c B) (P : A → Watch c → Type 0)
      (Q : B → Watch c → Type 0) (R : Watch c → Type 0)
      → Meets w m.0 m.1 P R
      → ((a : A) (w' : Watch c) → P a w' → Meets w' (f a).0 (f a).1 Q R)
      → Meets w (m >>= f).0 (m >>= f).1 Q R
  Meets-then w (es, goes_on a) f P Q R h k =
      Meets-append w es (f a).0 (f a).1 Q R (k a (watch w es) h)
  Meets-then w (es, stops s) f P Q R h k = h
