-- ===== src/Proxy/PackCache/NoLoss.antt =====
-- internal/proxy/resource_pack_url.go: the packs that `Merge` returns.
use bedrock_debug_proxy.Base.{
  ◌≡◌, refl, ap, ◌∙◌, ◌⊎◌, inl, inr, subst, List, [], ◌∷◌, ◌++◌, Option, none, some, true, false,
  All, arith, Bool-cases, Option-cases,
}
use bedrock_debug_proxy.Proxy.PackCache.{
  Key, PackType, UrlResourcePackCache, find, has_key, resource_pack_key,
}
use bedrock_debug_proxy.Proxy.PackCache.Merge.{
  Slot, take_slot, Merging, push_found, merge_offer, merge_offers, unused, merge_order, as_slots,
  merge,
}
use bedrock_debug_proxy.Proxy.PackCache.Kept.{
  Holds, Holds-left, Holds-right, UsedIf, packs_in, take_slot-Taken,
}

-- A pack is in the list, or the cached pack of its key is.
abbrev pub Safe : (t : PackType) → List (Key × t.Pack) → List t.Pack → t.Pack → Type 0
Safe t prefetched merged p =
    Holds p merged
    ⊎ ((q : t.Pack) × (find (resource_pack_key t p) prefetched ≡ some q) × Holds q merged)

abbrev pub SafeEntry : (t : PackType) → List (Key × t.Pack) → List t.Pack → Option t.Pack → Type 0
SafeEntry t prefetched merged none = Unit {0}
SafeEntry t prefetched merged (some p) = Safe t prefetched merged p

module _ (t : PackType) (prefetched : List (Key × t.Pack)) where
  Safe-append :
      (xs ys : List t.Pack) (p : t.Pack) → Safe t prefetched xs p → Safe t prefetched (xs ++ ys) p
  Safe-append xs ys p (inl h) = inl (Holds-left p xs ys h)
  Safe-append xs ys p (inr (q, e, h)) = inr (q, e, Holds-left q xs ys h)

  record Grown (m n : Merging t) : Type 0 where
    same : packs_in t n.slots ≡ packs_in t m.slots
    used : All (UsedIf t (Safe t prefetched n.merged)) n.slots

  pushed-Grown :
      (key : Key) (m : Merging t)
      → All (UsedIf t (Safe t prefetched m.merged)) m.slots
      → Grown m (record m {
        slots = (take_slot t key m.slots).1;
        merged = push_found t (take_slot t key m.slots).0 m.merged;
      })
  pushed-Grown key m h =
      let taken = take_slot-Taken t (Safe t prefetched m.merged) key m.slots h in
      record { same = taken.same; used = go (take_slot t key m.slots).0 refl }
    where
      go :
          (found : Option t.Pack)
          → (take_slot t key m.slots).0 ≡ found
          → All
              (UsedIf t (Safe t prefetched (push_found t found m.merged)))
              (take_slot t key m.slots).1
      go none e =
          (take_slot-Taken t (Safe t prefetched m.merged) key m.slots h).used
            (Safe t prefetched m.merged) (λ p s. s) (λ p is. absurd (cc))
      go (some p) e =
          (take_slot-Taken t (Safe t prefetched m.merged) key m.slots h).used
            (Safe t prefetched (m.merged ++ p ∷ [])) (λ q s. Safe-append m.merged (p ∷ []) q s)
            (λ q is. inl (Holds-right q m.merged (p ∷ []) (inl (ground (arith, e, is)))))

  merge_offer-Grown :
      (key : Key) (m : Merging t)
      → All (UsedIf t (Safe t prefetched m.merged)) m.slots
      → Grown m (merge_offer t prefetched key m)
  unfolding merge_offer
  merge_offer-Grown key m h = elim (Option-cases (find key prefetched)) [
    | inl missing ↦ rw (missing, merge_offer) (pushed-Grown key m h)
    | inr (pack, there) ↦ elim (Bool-cases (has_key key m.used_prefetched)) [
      | inl again ↦ rw (there, again, merge_offer) (pushed-Grown key m h)
      | inr first ↦
          let taken = take_slot-Taken t (Safe t prefetched m.merged) key m.slots h in
          rw (there, first, merge_offer)
            (record {
              same = taken.same;
              used =
                  taken.used (Safe t prefetched (m.merged ++ pack ∷ []))
                    (λ q s. Safe-append m.merged (pack ∷ []) q s)
                    (λ q is. inr (
                      pack,
                      ap (λ k. find k prefetched) (taken.key_of q is) ∙ there,
                      Holds-right pack m.merged (pack ∷ []) (inl refl),
                    ));
            })
    ]
  ]

  merge_offers-Grown :
      (keys : List Key) (m : Merging t)
      → All (UsedIf t (Safe t prefetched m.merged)) m.slots
      → Grown m (merge_offers t prefetched keys m)
  unfolding merge_offers
  merge_offers-Grown [] m h = record { same = refl; used = h }
  merge_offers-Grown (key ∷ keys) m h =
      let first = merge_offer-Grown key m h in
      let rest = merge_offers-Grown keys (merge_offer t prefetched key m) first.used in
      record { same = rest.same ∙ first.same; used = rest.used }

  -- What is not used up is appended.
  slots-Safe :
      (merged tail : List t.Pack) (slots : List (Slot t))
      → All (UsedIf t (Safe t prefetched merged)) slots
      → ((p : t.Pack) → Holds p (unused t slots) → Holds p tail)
      → All (SafeEntry t prefetched (merged ++ tail)) (packs_in t slots)
  unfolding unused
  slots-Safe merged tail [] h f = tt
  slots-Safe merged tail ((true, none) ∷ slots) h f = (tt, slots-Safe merged tail slots h.1 f)
  slots-Safe merged tail ((true, some p) ∷ slots) h f =
      (Safe-append merged tail p h.0, slots-Safe merged tail slots h.1 f)
  slots-Safe merged tail ((false, none) ∷ slots) h f = (tt, slots-Safe merged tail slots h.1 f)
  slots-Safe merged tail ((false, some p) ∷ slots) h f = (
    inl (Holds-right p merged tail (f p (inl refl))),
    slots-Safe merged tail slots h.1 (λ q there. f q (inr there)),
  )

as_slots-packs_in :
    (t : PackType) (existing : List (Option t.Pack)) → packs_in t (as_slots t existing) ≡ existing
as_slots-packs_in t [] = refl
as_slots-packs_in t (pack ∷ packs) = ap (λ x. pack ∷ x) (as_slots-packs_in t packs)

as_slots-UsedIf :
    (t : PackType) (P : t.Pack → Type 0) (existing : List (Option t.Pack))
    → All (UsedIf t P) (as_slots t existing)
as_slots-UsedIf t P [] = tt
as_slots-UsedIf t P (pack ∷ packs) = (tt, as_slots-UsedIf t P packs)

-- `Merge` discards no pack that gophertunnel gave it: for any cache, each pack of the existing ones
-- that is not nil is in the result, or the result has the cached pack of its key in its place.
pub merge-keeps_existing :
    (t : PackType) (cache : UrlResourcePackCache t.Pack) (existing : List (Option t.Pack))
    → All (SafeEntry t cache.packs (merge t cache existing)) existing
unfolding merge
merge-keeps_existing t cache existing =
    let start : Merging t = record {
      slots = as_slots t existing;
      used_prefetched = [];
      merged = [];
    } in
    let m = merge_offers t cache.packs cache.offer_order start in
    let grown =
      merge_offers-Grown t cache.packs cache.offer_order start
        (as_slots-UsedIf t (Safe t cache.packs []) existing) in
    let rest = merge_order t cache.packs m.used_prefetched cache.pack_order in
    subst (All (SafeEntry t cache.packs (m.merged ++ (unused t m.slots ++ rest))))
      (grown.same ∙ as_slots-packs_in t existing)
      (slots-Safe t cache.packs m.merged (unused t m.slots ++ rest) m.slots grown.used
        (λ p h. Holds-left p (unused t m.slots) rest h))
