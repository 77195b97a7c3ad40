-- ===== src/Proxy/PackCache/Laws.antt =====
-- internal/proxy/resource_pack_url.go: what `Load` finds after `Store`.
use bedrock_debug_proxy.Base.{
  ◌≡◌, refl, ap, ◌∙◌, subst, eq_refl, List, [], ◌∷◌, none, some, true, false, arith, Bool-cases,
  inl, inr, eq_iff,
}
use bedrock_debug_proxy.Proxy.PackCache.{
  Key, key_eq, PackType, UrlResourcePackCache, find, remove, load, store, put_pack,
}

pub key_eq_refl : (k : Key) → key_eq k k ≡ true
unfolding key_eq
key_eq_refl k = ground (arith, eq_refl k.uuid, eq_refl k.version)

pub key_eq_sound : (a b : Key) → key_eq a b ≡ true → a ≡ b
unfolding key_eq
key_eq_sound a b h = ground (arith, (eq_iff a.uuid b.uuid).0, (eq_iff a.version b.version).0)

module _ {ℓ} {V : Type ℓ} where
  find-remove : (k : Key) (m : List (Key × V)) → find k (remove k m) ≡ none
  unfolding find remove
  find-remove k [] = refl
  find-remove k ((j, v) ∷ m) = ground (arith, find-remove k m)

  find-remove_other :
      (k j : Key) (m : List (Key × V)) → key_eq k j ≡ false → find j (remove k m) ≡ find j m
  unfolding find remove
  find-remove_other k j [] other = refl
  find-remove_other k j ((i, v) ∷ m) other = elim (Bool-cases (key_eq i k)) [
    | inl same ↦
        let apart : key_eq i j ≡ false =
          ap (λ (x : Key). key_eq x j) (key_eq_sound i k same) ∙ other in
        ground (arith, same, apart, find-remove_other k j m other)
    | inr differ ↦ ground (arith, differ, find-remove_other k j m other)
  ]

load-put_pack :
    {P : Type 0} (key other : Key) (pack : P) (cache : UrlResourcePackCache P)
    → key_eq key other ≡ false
    → (load true key (put_pack key pack cache) ≡ (none, some pack))
      × (load true other (put_pack key pack cache) ≡ load true other cache)
unfolding load put_pack find
load-put_pack key other pack cache differs = (
  rw (find-remove key cache.errors, key_eq_refl key) refl,
  ground (
    arith,
    find-remove_other key other cache.errors differs,
    find-remove_other key other cache.packs differs,
    differs,
  ),
)

-- After a `Store` without an error, `Load` with a live context gives the stored pack, also where an
-- earlier download of the key had failed, and gives for every other key what it gave before.
pub load-store :
    (t : PackType) (key other : Key) (pack : t.Pack) (cache stored : UrlResourcePackCache t.Pack)
    → store t true key (some pack) cache ≡ (none, stored)
    → key_eq key other ≡ false
    → (load true key stored ≡ (none, some pack)) × (load true other stored ≡ load true other cache)
unfolding store
load-store t key other pack cache stored e differs =
    let same : put_pack key pack cache ≡ stored = ground (arith, e) in
    subst
      (λ (c : UrlResourcePackCache t.Pack).
        (load true key c ≡ (none, some pack)) × (load true other c ≡ load true other cache))
      same (load-put_pack key other pack cache differs)
