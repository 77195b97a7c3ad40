-- ===== src/Bedrock/Observer/Flows.antt =====
-- internal/bedrock/observer.go: the flow that a packet is classified by.
use bedrock_debug_proxy.Base.{
  ◌≡◌, refl, sym, ap, ◌∙◌, ◌⊎◌, inl, inr, String, str_eq, eq_iff, List, [], ◌∷◌, none, some, true,
  false, ℤ, ◌&&◌, All, arith, Bool-cases, Option-cases,
}
use bedrock_debug_proxy.Bedrock.Observer.{
  Addr, Flow, Observer, is_flow, put_flow, set_flow_with_identity, reads, writes, direction_on,
  classify_flows, or_unknown, classify,
}

-- A flow that a packet between two addresses did not go over.
abbrev pub Misses : String → String → Flow → Type 0
Misses source destination f =
    (reads source destination f ≡ false) × (writes source destination f ≡ false)

is_flow-local : (f g : Flow) → is_flow f.local f.remote g ≡ true → g.local ≡ f.local
is_flow-local f g h = (eq_iff g.local f.local).0 (ground (arith, h))

is_flow-remote : (f g : Flow) → is_flow f.local f.remote g ≡ true → g.remote ≡ f.remote
is_flow-remote f g h = (eq_iff g.remote f.remote).0 (ground (arith, h))

Misses-same :
    (source destination : String) (f g : Flow)
    → is_flow f.local f.remote g ≡ true
    → Misses source destination f
    → Misses source destination g
Misses-same source destination f g h miss =
    let l = is_flow-local f g h in
    let r = is_flow-remote f g h in
    (
      ap (λ x. str_eq source x && str_eq destination g.local) r
          ∙ ap (λ x. str_eq source f.remote && str_eq destination x) l
          ∙ miss.0,
      ap (λ x. str_eq source x && str_eq destination g.remote) l
          ∙ ap (λ x. str_eq source f.local && str_eq destination x) r
          ∙ miss.1,
    )

-- A flow that misses the packet is as good as none.
classify_flows-miss :
    (channel source destination : String) (f : Flow) (flows : List Flow)
    → Misses source destination f
    → classify_flows channel source destination (f ∷ flows)
      ≡ classify_flows channel source destination flows
unfolding classify_flows direction_on
classify_flows-miss channel source destination f flows (r, w) =
    elim (Option-cases (classify_flows channel source destination flows)) [
      | inl nothing ↦ rw (nothing, r, w) refl
      | inr (later, is) ↦ rw is refl
    ]

classify_flows-cons :
    (channel source destination : String) (f : Flow) (xs ys : List Flow)
    → classify_flows channel source destination xs ≡ classify_flows channel source destination ys
    → classify_flows channel source destination (f ∷ xs)
      ≡ classify_flows channel source destination (f ∷ ys)
unfolding classify_flows
classify_flows-cons channel source destination f xs ys e = rw e refl

classify_flows-put_flow :
    (channel source destination : String) (f : Flow) (flows : List Flow)
    → Misses source destination f
    → classify_flows channel source destination (put_flow f flows)
      ≡ classify_flows channel source destination flows
unfolding put_flow
classify_flows-put_flow channel source destination f [] miss =
    classify_flows-miss channel source destination f [] miss
classify_flows-put_flow channel source destination f (g ∷ flows) miss =
    elim (Bool-cases (is_flow f.local f.remote g)) [
      | inl same ↦ rw same (
          classify_flows-miss channel source destination f flows miss
          ∙ sym (
              classify_flows-miss channel source destination g flows
                (Misses-same source destination f g same miss)))
      | inr other ↦ rw other (
          classify_flows-cons channel source destination g (put_flow f flows) flows
            (classify_flows-put_flow channel source destination f flows miss))
    ]

-- The flow of two addresses stands at most once, and no other flow connects them.
abbrev pub Lone : String → String → Flow → List Flow → Type 0
Lone source destination f [] = Unit {0}
Lone source destination f (g ∷ flows) =
    ((is_flow f.local f.remote g ≡ true) × All (Misses source destination) flows)
    ⊎ ((is_flow f.local f.remote g ≡ false)
        × Misses source destination g
        × Lone source destination f flows)

classify_flows-Misses :
    (channel source destination : String) (flows : List Flow)
    → All (Misses source destination) flows
    → classify_flows channel source destination flows ≡ none
unfolding classify_flows
classify_flows-Misses channel source destination [] h = refl
classify_flows-Misses channel source destination (f ∷ flows) h =
    classify_flows-miss channel source destination f flows h.0
    ∙ classify_flows-Misses channel source destination flows h.1

classify_flows-hit :
    (channel source destination direction : String) (f : Flow) (flows : List Flow)
    → direction_on channel (reads source destination f) (writes source destination f)
      ≡ some direction
    → classify_flows channel source destination flows ≡ none
    → classify_flows channel source destination (f ∷ flows) ≡ some (direction, f)
unfolding classify_flows
classify_flows-hit channel source destination direction f flows hit rest = rw (rest, hit) refl

pub put_flow-hit :
    (channel source destination direction : String) (f : Flow) (flows : List Flow)
    → direction_on channel (reads source destination f) (writes source destination f)
      ≡ some direction
    → Lone source destination f flows
    → classify_flows channel source destination (put_flow f flows) ≡ some (direction, f)
unfolding put_flow
put_flow-hit channel source destination direction f [] hit h =
    classify_flows-hit channel source destination direction f [] hit
      (classify_flows-Misses channel source destination [] tt)
put_flow-hit channel source destination direction f (g ∷ flows) hit (inl (same, rest)) = rw same (
    classify_flows-hit channel source destination direction f flows hit
      (classify_flows-Misses channel source destination flows rest))
put_flow-hit channel source destination direction f (g ∷ flows) hit (inr (other, miss, rest)) =
    rw other (
      classify_flows-miss channel source destination g (put_flow f flows) miss
      ∙ put_flow-hit channel source destination direction f flows hit rest)

abbrev pub flow_of : Addr → Addr → String → ℤ → Flow
flow_of local remote id hop = record {
  local = local.text;
  remote = remote.text;
  connection_id = id;
  hop = hop;
}

-- Recording a flow leaves the classification of every packet as it was that is on another channel or
-- that did not go over this flow in either direction.
pub classify-other_flow :
    (channel other id : String) (hop : ℤ) (local remote source destination : Addr) (o : Observer)
    → (str_eq other channel ≡ false)
      ⊎ Misses source.text destination.text (flow_of local remote id hop)
    → classify other
        (some source)
        (some destination)
        (set_flow_with_identity channel (some local) (some remote) id hop o)
      ≡ classify other (some source) (some destination) o
unfolding classify set_flow_with_identity
classify-other_flow channel other id hop local remote source destination o (inl apart) =
    rw apart refl
classify-other_flow channel other id hop local remote source destination o (inr miss) =
    elim (Bool-cases (str_eq other channel)) [
      | inr apart ↦ rw apart refl
      | inl same ↦
          let here : other ≡ channel = (eq_iff other channel).0 same in
          rw same (
            ap or_unknown (
              classify_flows-put_flow other source.text destination.text
                (flow_of local remote id hop) (o.flows channel) miss
              ∙ ap (λ x. classify_flows other source.text destination.text (o.flows x)) (sym here)))
    ]
