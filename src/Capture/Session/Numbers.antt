-- ===== src/Capture/Session/Numbers.antt =====
-- Sequence numbers of internal/capture: what is assigned, queued and committed, without a gap.
use bedrock_debug_proxy.Base.{
  ℕ, suc, ◌+◌, ◌-◌, ◌<◌, ◌≡◌, refl, sym, ap, ◌∙◌, List, [], ◌∷◌, ◌++◌, map, length, length-append,
  arith, subst,
}
use bedrock_debug_proxy.Capture.Schema.{Event}
use bedrock_debug_proxy.Capture.Recorder.{RecordJob, u64, inc64}
use bedrock_debug_proxy.Capture.Session.{Phase, holding}

abbrev pub event_of : RecordJob → Event
event_of job = job.event

abbrev pub events_of : List RecordJob → List Event
events_of = map event_of

abbrev pub held_events : Phase → List Event
held_events (holding job) = job.event ∷ []
held_events _ = []

-- Sequence numbers go up by one from `n`.
abbrev pub Consecutive : ℕ → List Event → Type 0
Consecutive n [] = Unit {0}
Consecutive n (e ∷ es) = (e.sequence ≡ suc n) × Consecutive (suc n) es

pub Consecutive-append :
    (n k : ℕ) (xs ys : List Event)
    → k ≡ n + length xs
    → Consecutive n xs
    → Consecutive k ys
    → Consecutive n (xs ++ ys)
Consecutive-append n k [] ys e hx hy =
    let same : k ≡ n = omega arith in subst (λ m. Consecutive m ys) same hy
Consecutive-append n k (x ∷ xs) ys e hx hy =
    (hx.0, Consecutive-append (suc n) k xs ys (omega arith) hx.1 hy)

pub Consecutive-left : (n : ℕ) (xs ys : List Event) → Consecutive n (xs ++ ys) → Consecutive n xs
Consecutive-left n [] ys h = tt
Consecutive-left n (x ∷ xs) ys h = (h.0, Consecutive-left (suc n) xs ys h.1)

pub Consecutive-right :
    (n k : ℕ) (xs ys : List Event) → k ≡ n + length xs → Consecutive n (xs ++ ys) → Consecutive k ys
Consecutive-right n k [] ys e h =
    let same : n ≡ k = omega arith in subst (λ m. Consecutive m ys) same h
Consecutive-right n k (x ∷ xs) ys e h = Consecutive-right (suc n) k xs ys (omega arith) h.1

-- The numbers of a recorder that has not failed: `n` is committed, `a` is assigned, and `waiting`
-- lists the events in between.
pub record IsLive (n a : ℕ) (waiting persisted lost : List Event) : Type 0 where
  pub nothing_lost : lost ≡ []
  pub committed : n ≡ length persisted
  pub queued : Consecutive n waiting
  pub assigned : a ≡ n + length waiting
  pub bounded : a < u64

pub IsLive-eq :
    (n m a b : ℕ) (v w persisted lost : List Event)
    → m ≡ n
    → b ≡ a
    → w ≡ v
    → IsLive n a v persisted lost
    → IsLive m b w persisted lost
IsLive-eq n m a b v w persisted lost e f g h = record {
  nothing_lost = h.nothing_lost;
  committed = e ∙ h.committed;
  queued = subst (λ k. Consecutive k w) (sym e) (subst (λ x. Consecutive n x) (sym g) h.queued);
  assigned = omega (arith, e, f, h.assigned, ap (length {A = Event}) g);
  bounded = omega (arith, f, h.bounded);
}

-- One more event is numbered.
pub IsLive-assign :
    (n a : ℕ) (waiting persisted lost : List Event) (event : Event)
    → event.sequence ≡ inc64 a
    → a + 1 < u64
    → IsLive n a waiting persisted lost
    → IsLive n event.sequence (waiting ++ event ∷ []) persisted lost
unfolding inc64
IsLive-assign n a waiting persisted lost event e b h =
    let next : event.sequence ≡ suc a = ground arith in
    record {
      nothing_lost = h.nothing_lost;
      committed = h.committed;
      queued = Consecutive-append n a waiting (event ∷ []) h.assigned h.queued (next, tt);
      assigned = omega (arith, next, h.assigned, length-append waiting (event ∷ []));
      bounded = omega (arith, next, b);
    }

-- The last one is given back.
pub IsLive-unassign :
    (n a b : ℕ) (waiting persisted lost : List Event) (event : Event)
    → b ≡ a - 1
    → IsLive n a (waiting ++ event ∷ []) persisted lost
    → IsLive n b waiting persisted lost
IsLive-unassign n a b waiting persisted lost event e h = record {
  nothing_lost = h.nothing_lost;
  committed = h.committed;
  queued = Consecutive-left n waiting (event ∷ []) h.queued;
  assigned = omega (arith, e, h.assigned, length-append waiting (event ∷ []));
  bounded = omega (arith, e, h.bounded);
}

-- The oldest one is committed.
pub IsLive-commit :
    (n m a : ℕ) (waiting persisted lost : List Event) (event : Event)
    → m ≡ event.sequence
    → IsLive n a (event ∷ waiting) persisted lost
    → IsLive m a waiting (persisted ++ event ∷ []) lost
IsLive-commit n m a waiting persisted lost event e h =
    let next : m ≡ suc n = e ∙ h.queued.0 in
    record {
      nothing_lost = h.nothing_lost;
      committed = omega (arith, next, h.committed, length-append persisted (event ∷ []));
      queued = subst (λ k. Consecutive k waiting) (sym next) h.queued.1;
      assigned = omega (arith, next, h.assigned);
      bounded = h.bounded;
    }

-- The number of an event that waits alone at the end.
pub IsLive-last :
    (n a : ℕ) (waiting persisted lost : List Event) (event : Event)
    → IsLive n a (waiting ++ event ∷ []) persisted lost
    → (event.sequence ≡ a) × (n < event.sequence)
IsLive-last n a waiting persisted lost event h =
    let last = Consecutive-right n (n + length waiting) waiting (event ∷ []) refl h.queued in
    (omega (arith, last.0, h.assigned, length-append waiting (event ∷ [])), omega (arith, last.0))
