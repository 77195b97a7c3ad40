-- ===== src/Proxy/PackCache/Again.antt =====
-- internal/proxy/resource_pack_url.go: an offer that is observed again.
use bedrock_debug_proxy.Base.{
  ◌≡◌, refl, sym, ap, ◌∙◌, str_eq, List, [], ◌∷◌, Option, none, some, true, ◌||◌, arith, Bool-cases,
  inl, inr, subst, All,
}
use bedrock_debug_proxy.Proxy.PackCache.{
  Key, PackType, CacheError, Advertised, advertised_key, UrlResourcePackCache, has_key,
}
use bedrock_debug_proxy.Proxy.PackCache.Laws.{key_eq_refl}
use bedrock_debug_proxy.Proxy.PackCache.Observe.{
  Fetch, download, offer_keys, note_offer, select_jobs, keep_download, keep_downloads, observe,
}

-- Whether an advertised pack needs no download.
abbrev Skips : List Key → Advertised → Type 0
Skips observed a = (str_eq a.download_url "" || has_key (advertised_key a) observed) ≡ true

select_jobs_nothing :
    (offer : List Advertised) (observed : List Key)
    → All (Skips observed) offer
    → select_jobs offer observed ≡ ([], observed)
unfolding select_jobs
select_jobs_nothing [] observed h = refl
select_jobs_nothing (a ∷ rest) observed h = rw (h.0) (select_jobs_nothing rest observed h.1)

-- A key that was observed stays observed.
select_jobs-keeps :
    (offer : List Advertised) (observed : List Key) (k : Key)
    → has_key k observed ≡ true
    → has_key k (select_jobs offer observed).1 ≡ true
unfolding select_jobs has_key
select_jobs-keeps [] observed k h = h
select_jobs-keeps (a ∷ rest) observed k h =
    elim (Bool-cases (str_eq a.download_url "" || has_key (advertised_key a) observed)) [
      | inl skipped ↦ rw (skipped, select_jobs) (select_jobs-keeps rest observed k h)
      | inr fresh ↦
          rw (fresh, select_jobs)
            (select_jobs-keeps rest (advertised_key a ∷ observed) k (ground (arith, h)))
    ]

select_jobs-Skips :
    (offer : List Advertised) (observed : List Key)
    → All (Skips (select_jobs offer observed).1) offer
unfolding select_jobs has_key
select_jobs-Skips [] observed = tt
select_jobs-Skips (a ∷ rest) observed =
    elim (Bool-cases (str_eq a.download_url "" || has_key (advertised_key a) observed)) [
      | inl skipped ↦
          let same : (select_jobs (a ∷ rest) observed).1 ≡ (select_jobs rest observed).1 =
            rw (skipped, select_jobs) refl in
          subst (λ x. All (Skips x) (a ∷ rest)) (sym same)
            (
              ground (arith, skipped, select_jobs-keeps rest observed (advertised_key a)),
              select_jobs-Skips rest observed,
            )
      | inr fresh ↦
          let grown : List Key = advertised_key a ∷ observed in
          let same : (select_jobs (a ∷ rest) observed).1 ≡ (select_jobs rest grown).1 =
            rw (fresh, select_jobs) refl in
          let mine : has_key (advertised_key a) (select_jobs rest grown).1 ≡ true =
            select_jobs-keeps rest grown (advertised_key a)
              (ground (arith, key_eq_refl (advertised_key a))) in
          subst (λ x. All (Skips x) (a ∷ rest)) (sym same)
            (ground (arith, mine), select_jobs-Skips rest grown)
    ]

-- The fields that a download leaves alone.
record SameOffer {P : Type 0} (c d : UrlResourcePackCache P) : Type 0 where
  offer_order : d.offer_order ≡ c.offer_order
  observed : d.observed ≡ c.observed
  offered : d.offered ≡ c.offered
  url_count : d.url_count ≡ c.url_count

keep_download-SameOffer :
    {P : Type 0} (key : Key) (result : Option CacheError × Option P)
    (cache : UrlResourcePackCache P)
    → SameOffer cache (keep_download key result cache)
unfolding keep_download
keep_download-SameOffer key (some e, pack) cache = ground arith
keep_download-SameOffer key (none, none) cache = ground arith
keep_download-SameOffer key (none, some pack) cache = ground arith

keep_downloads-SameOffer :
    (t : PackType) (fetch : Advertised → Fetch t.Pack) (jobs : List Advertised)
    (cache : UrlResourcePackCache t.Pack)
    → SameOffer cache (keep_downloads t fetch jobs cache)
unfolding keep_downloads
keep_downloads-SameOffer t fetch [] cache = ground arith
keep_downloads-SameOffer t fetch (a ∷ rest) cache =
    let result = download t (fetch a) a in
    let first = keep_download-SameOffer (advertised_key a) result cache in
    let more =
      keep_downloads-SameOffer t fetch rest (keep_download (advertised_key a) result cache) in
    record {
      offer_order = more.offer_order ∙ first.offer_order;
      observed = more.observed ∙ first.observed;
      offered = more.offered ∙ first.offered;
      url_count = more.url_count ∙ first.url_count;
    }

abbrev order_of : List Advertised → List Key → List Key
order_of offer [] = offer_keys offer
order_of offer (k ∷ ks) = k ∷ ks

order_of-order_of :
    (offer : List Advertised) (order : List Key)
    → order_of offer (order_of offer order) ≡ order_of offer order
unfolding offer_keys
order_of-order_of [] [] = refl
order_of-order_of (a ∷ rest) [] = refl
order_of-order_of offer (k ∷ ks) = refl

note_offer-order :
    {P : Type 0} (offer : List Advertised) (cache : UrlResourcePackCache P)
    → (note_offer offer cache).offer_order ≡ order_of offer cache.offer_order
unfolding note_offer
note_offer-order offer cache = go cache.offer_order
  where
    go :
        (order : List Key)
        → elim order as (λ _. List Key) [ [] ↦ offer_keys offer | k ∷ ks ↦ k ∷ ks ]
          ≡ order_of offer order
    go [] = refl
    go (k ∷ ks) = refl

-- A cache that the offer does not change.
steady :
    (t : PackType) (fetch : Advertised → Fetch t.Pack) (offer : List Advertised)
    (c : UrlResourcePackCache t.Pack)
    → c.offered ≡ true
    → c.ready ≡ true
    → order_of offer c.offer_order ≡ c.offer_order
    → select_jobs offer c.observed ≡ ([], c.observed)
    → observe t fetch offer c ≡ c
unfolding observe note_offer keep_downloads
steady t fetch offer c offered ready order jobs =
    ground (arith, note_offer-order offer c, order, jobs)

-- An offer that is observed a second time changes nothing, whatever the network would answer: no
-- pack is downloaded again, and the order, the errors and the count of the first time stay.
pub observe-observe :
    (t : PackType) (fetch again : Advertised → Fetch t.Pack) (offer : List Advertised)
    (cache : UrlResourcePackCache t.Pack)
    → observe t again offer (observe t fetch offer cache) ≡ observe t fetch offer cache
unfolding observe note_offer
observe-observe t fetch again offer cache =
    let noted = note_offer offer cache in
    let chosen = select_jobs offer noted.observed in
    let same = keep_downloads-SameOffer t fetch chosen.0 (record noted { observed = chosen.1 }) in
    let c = observe t fetch offer cache in
    let order : c.offer_order ≡ order_of offer cache.offer_order =
      same.offer_order ∙ note_offer-order offer cache in
    steady t again offer c same.offered refl
      (ap (order_of offer) order ∙ order_of-order_of offer cache.offer_order ∙ sym order)
      (select_jobs_nothing offer c.observed (
        subst (λ x. All (Skips x) offer) (sym same.observed)
          (select_jobs-Skips offer noted.observed)))
