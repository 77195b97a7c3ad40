-- ===== src/Proxy/PackCache.antt =====
-- internal/proxy/resource_pack_url.go: the cache of resource packs of one connection. A pack of
-- gophertunnel is a parameter; a nil pointer is `none`. Both mutexes make each operation one step;
-- the channels `offered` and `ready` are whether they are closed.
pub mod Merge
pub mod Observe
pub mod Laws
pub mod Kept
pub mod NoLoss
pub mod Again
use bedrock_debug_proxy.Base.{
  ℕ, ◌<◌, ◌≡◌, String, str_eq, List, [], ◌∷◌, ◌++◌, Option, none, some, Bool, true, false, ℤ, pos,
  negsuc, ◌==◌, ltb, if◌then◌else◌, ◌&&◌, ◌||◌, not,
}

-- minecraft.ResourcePackCacheKey.
pub record Key : Type 0 where
  pub uuid : String
  pub version : String
  pub size : ℕ

unfoldable pub key_eq : Key → Key → Bool
key_eq a b = str_eq a.uuid b.uuid && (str_eq a.version b.version && (a.size == b.size))

-- What the code reads of a *resource.Pack.
pub record PackType : Type 1 where
  pub Pack : Type 0
  pub uuid : Pack → String
  pub version : Pack → String
  pub len : Pack → ℤ
  pub with_content_key : String → Pack → Pack
  pub matches : Key → Pack → Bool

pub data CacheError : Type 0 where
  context_done nil_pack key_mismatch : CacheError
  bad_url no_http_host size_limit download_failed not_advertised : CacheError

-- protocol.TexturePackInfo.
pub record Advertised : Type 0 where
  pub uuid : String
  pub version : String
  pub size : ℕ
  pub download_url : String
  pub content_key : String

unfoldable pub advertised_key : Advertised → Key
advertised_key a = record { uuid = a.uuid; version = a.version; size = a.size }

module _ {ℓ} {V : Type ℓ} where
  unfoldable pub find : Key → List (Key × V) → Option V
  find k [] = none
  find k ((j, v) ∷ m) = if key_eq j k then some v else find k m

  unfoldable pub remove : Key → List (Key × V) → List (Key × V)
  remove k [] = []
  remove k ((j, v) ∷ m) = let rest = remove k m in if key_eq j k then rest else (j, v) ∷ rest

unfoldable pub has_key : Key → List Key → Bool
has_key k [] = false
has_key k (j ∷ ks) = key_eq j k || has_key k ks

pub record UrlResourcePackCache (P : Type 0) : Type 0 where
  pub packs : List (Key × P)
  pub pack_order : List Key
  pub offer_order : List Key
  pub errors : List (Key × CacheError)
  pub observed : List Key
  pub offered : Bool
  pub ready : Bool
  pub url_count : ℕ

unfoldable pub resource_pack_key : (t : PackType) → t.Pack → Key
resource_pack_key t pack = elim (t.len pack) [
  | negsuc n ↦ record { uuid = ""; version = ""; size = 0 }
  | pos n ↦ record { uuid = t.uuid pack; version = t.version pack; size = n }
]

-- With `live` for a context that is not done.
unfoldable pub load :
    {P : Type 0} → (live : Bool) → Key → UrlResourcePackCache P → Option CacheError × Option P
unfolding find
load live key cache = if not live then (some context_done, none) else elim (find key cache.errors) [
  | some e ↦ (some e, none)
  | none ↦ (none, find key cache.packs)
]

unfoldable pub put_pack : {P : Type 0} → Key → P → UrlResourcePackCache P → UrlResourcePackCache P
unfolding find remove
put_pack key pack cache = record cache {
  packs = (key, pack) ∷ remove key cache.packs;
  errors = remove key cache.errors;
  pack_order = elim (find key cache.packs) [
    | some _ ↦ cache.pack_order
    | none ↦ cache.pack_order ++ key ∷ []
  ];
}

unfoldable pub store :
    (t : PackType)
    → (live : Bool) → Key
    → Option t.Pack
    → UrlResourcePackCache t.Pack
    → Option CacheError × UrlResourcePackCache t.Pack
unfolding put_pack
store t live key pack cache = if not live then (some context_done, cache) else elim pack [
  | none ↦ (some nil_pack, cache)
  | some p ↦ if t.matches key p then (none, put_pack key p cache) else (some key_mismatch, cache)
]

unfoldable pub listed : {P : Type 0} → List Key → List (Key × P) → List P
listed [] packs = []
listed (k ∷ ks) packs =
    let rest = listed ks packs in elim (find k packs) [ none ↦ rest | some p ↦ p ∷ rest ]

-- `Packs`.
unfoldable pub packs_of : {P : Type 0} → UrlResourcePackCache P → List P
unfolding listed
packs_of cache = listed cache.pack_order cache.packs
