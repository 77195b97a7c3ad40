-- ===== src/Proxy/PackCache/Merge.antt =====
-- internal/proxy/resource_pack_url.go: `Merge`.
use bedrock_debug_proxy.Base.{
  List, [], ◌∷◌, ◌++◌, Option, none, some, Bool, true, false, if◌then◌else◌, ◌&&◌, not,
}
use bedrock_debug_proxy.Proxy.PackCache.{
  Key, key_eq, PackType, UrlResourcePackCache, find, has_key, resource_pack_key,
}

module _ (t : PackType) where
  -- An entry of `existing` with its `usedExisting`.
  abbrev pub Slot : Type 0
  Slot = Bool × Option t.Pack

  unfoldable pub fits : Key → Slot → Bool
  unfolding resource_pack_key
  fits key (used, none) = false
  fits key (used, some pack) = not used && key_eq (resource_pack_key t pack) key

  -- The first unused entry of a key is used up.
  unfoldable pub take_slot : Key → List Slot → Option t.Pack × List Slot
  unfolding fits
  take_slot key [] = (none, [])
  take_slot key (slot ∷ slots) =
      let (found, rest) = take_slot key slots in
      if fits key slot then (slot.1, (true, slot.1) ∷ slots) else (found, slot ∷ rest)

  pub record Merging : Type 0 where
    pub slots : List Slot
    pub used_prefetched : List Key
    pub merged : List t.Pack

  abbrev pub push_found : Option t.Pack → List t.Pack → List t.Pack
  push_found none ps = ps
  push_found (some p) ps = ps ++ p ∷ []

  -- One key of the offer: a prefetched pack that is not used yet takes the place of an existing one.
  unfoldable pub merge_offer : List (Key × t.Pack) → Key → Merging → Merging
  unfolding take_slot
  merge_offer prefetched key m =
      let (found, slots') = take_slot key m.slots in
      let existing = record m { slots = slots'; merged = push_found found m.merged } in
      elim (find key prefetched) [
        | none ↦ existing
        | some pack ↦ if has_key key m.used_prefetched then existing else record {
          slots = slots';
          used_prefetched = key ∷ m.used_prefetched;
          merged = m.merged ++ pack ∷ [];
        }
      ]

  unfoldable pub merge_offers : List (Key × t.Pack) → List Key → Merging → Merging
  unfolding merge_offer
  merge_offers prefetched [] m = m
  merge_offers prefetched (key ∷ keys) m =
      merge_offers prefetched keys (merge_offer prefetched key m)

  unfoldable pub unused : List Slot → List t.Pack
  unused [] = []
  unused ((true, pack) ∷ slots) = unused slots
  unused ((false, none) ∷ slots) = unused slots
  unused ((false, some pack) ∷ slots) = pack ∷ unused slots

  unfoldable pub merge_order : List (Key × t.Pack) → List Key → List Key → List t.Pack
  merge_order prefetched used [] = []
  merge_order prefetched used (key ∷ keys) =
      let rest = merge_order prefetched used keys in
      let more = merge_order prefetched (key ∷ used) keys in
      if has_key key used
      then rest
      else elim (find key prefetched) [ none ↦ rest | some pack ↦ pack ∷ more ]

  abbrev pub as_slots : List (Option t.Pack) → List Slot
  as_slots [] = []
  as_slots (pack ∷ packs) = (false, pack) ∷ as_slots packs

  unfoldable pub merge : UrlResourcePackCache t.Pack → List (Option t.Pack) → List t.Pack
  unfolding merge_offers unused merge_order
  merge cache existing =
      let m =
        merge_offers cache.packs cache.offer_order
          (record { slots = as_slots existing; used_prefetched = []; merged = [] }) in
      m.merged ++ (unused m.slots ++ merge_order cache.packs m.used_prefetched cache.pack_order)
