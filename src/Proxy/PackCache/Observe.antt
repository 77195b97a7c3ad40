-- ===== src/Proxy/PackCache/Observe.antt =====
-- internal/proxy/resource_pack_url.go: `Observe`, `download` and `WaitForOffer`. `fetch` stands for
-- url.Parse and ReadURLLimitedContext. The workers of `Observe` fill a slice by index, so that their
-- interleaving does not show in its results.
use bedrock_debug_proxy.Base.{
  ℕ, ◌+◌, ◌*◌, ◌^◌, String, str_eq, List, [], ◌∷◌, ◌++◌, Option, none, some, Bool, true, ◌==◌, ltb,
  if◌then◌else◌, ◌&&◌, ◌||◌, not,
}
use bedrock_debug_proxy.Proxy.PackCache.{
  Key, PackType, CacheError, context_done, bad_url, no_http_host, size_limit, download_failed,
  not_advertised, Advertised, advertised_key, UrlResourcePackCache, remove, has_key,
}

abbrev pub max_url_resource_pack_bytes : ℕ
max_url_resource_pack_bytes = 512 * 2 ^ 20

-- The scheme in lower case and the host of a URL.
pub record Url : Type 0 where
  pub scheme : String
  pub host : String

-- What the network and the context answer for one download.
pub record Fetch (P : Type 0) : Type 0 where
  pub parsed : Option Url
  pub live : Bool
  pub pack : Option P

unfoldable pub is_http : Url → Bool
is_http url = (str_eq url.scheme "http" || str_eq url.scheme "https") && not (str_eq url.host "")

unfoldable pub finish_download :
    (t : PackType) → Advertised → Option t.Pack → Option CacheError × Option t.Pack
finish_download t advertised none = (some download_failed, none)
finish_download t advertised (some pack) =
    if t.matches (advertised_key advertised) pack
    then (
      none,
      some (
          if str_eq advertised.content_key ""
          then pack
          else t.with_content_key advertised.content_key pack),
    )
    else (some not_advertised, none)

unfoldable pub download :
    (t : PackType) → Fetch t.Pack → Advertised → Option CacheError × Option t.Pack
unfolding is_http finish_download
download t fetch advertised = elim fetch.parsed [
  | none ↦ (some bad_url, none)
  | some url ↦
      if not (is_http url)
      then (some no_http_host, none)
      else if ltb max_url_resource_pack_bytes advertised.size
      then (some size_limit, none)
      else if not fetch.live
      then (some context_done, none)
      else finish_download t advertised fetch.pack
]

-- The keys of an offer, and how many of them carry a URL.
unfoldable pub offer_keys : List Advertised → List Key
offer_keys [] = []
offer_keys (a ∷ rest) = advertised_key a ∷ offer_keys rest

unfoldable pub count_urls : List Advertised → ℕ
count_urls [] = 0
count_urls (a ∷ rest) =
    let more = count_urls rest in if str_eq a.download_url "" then more else more + 1

-- `offerOnce`: the first offer sets the count and closes `offered`.
unfoldable pub note_offer :
    {P : Type 0} → List Advertised → UrlResourcePackCache P → UrlResourcePackCache P
unfolding offer_keys count_urls
note_offer offer cache = record cache {
  offer_order = elim cache.offer_order [ [] ↦ offer_keys offer | k ∷ ks ↦ k ∷ ks ];
  url_count = if cache.offered then cache.url_count else count_urls offer;
  offered = true;
}

-- The packs to download, and the keys that were observed by now.
unfoldable pub select_jobs : List Advertised → List Key → List Advertised × List Key
unfolding advertised_key
select_jobs [] observed = ([], observed)
select_jobs (a ∷ rest) observed =
    let skipped = select_jobs rest observed in
    let (jobs, observed') = select_jobs rest (advertised_key a ∷ observed) in
    if str_eq a.download_url "" || has_key (advertised_key a) observed
    then skipped
    else (a ∷ jobs, observed')

unfoldable pub keep_download :
    {P : Type 0}
    → Key
    → Option CacheError × Option P
    → UrlResourcePackCache P
    → UrlResourcePackCache P
keep_download key (some e, pack) cache = record cache {
  errors = (key, e) ∷ remove key cache.errors;
}
keep_download key (none, none) cache = cache
keep_download key (none, some pack) cache = record cache {
  packs = (key, pack) ∷ remove key cache.packs;
  pack_order = cache.pack_order ++ key ∷ [];
}

unfoldable pub keep_downloads :
    (t : PackType)
    → (Advertised → Fetch t.Pack)
    → List Advertised
    → UrlResourcePackCache t.Pack
    → UrlResourcePackCache t.Pack
unfolding keep_download download
keep_downloads t fetch [] cache = cache
keep_downloads t fetch (a ∷ rest) cache =
    keep_downloads t fetch rest (keep_download (advertised_key a) (download t (fetch a) a) cache)

-- `Observe` of a ResourcePacksInfo packet that decodes.
unfoldable pub observe :
    (t : PackType)
    → (Advertised → Fetch t.Pack)
    → List Advertised
    → UrlResourcePackCache t.Pack
    → UrlResourcePackCache t.Pack
unfolding note_offer select_jobs keep_downloads
observe t fetch offer cache =
    let noted = note_offer offer cache in
    let (jobs, observed') = select_jobs offer noted.observed in
    record (keep_downloads t fetch jobs (record noted { observed = observed' })) { ready = true }

-- `WaitForOffer`, when the events of its two waits are known: whether the channel closes before the
-- timer and the context.
unfoldable pub wait_for_offer : (offered_in_time ready_in_time : Bool) → (url_count : ℕ) → Bool
wait_for_offer offered_in_time ready_in_time url_count =
    offered_in_time && (url_count == 0 || ready_in_time)
