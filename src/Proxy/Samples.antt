-- ===== src/Proxy/Samples.antt =====
-- Tests of internal/proxy: a configuration, and resource packs that carry their own keys.
use bedrock_debug_proxy.Base.{
  ◌≡◌, refl, String, List, [], ◌∷◌, Option, none, some, Bool, true, false, pos, All,
}
use bedrock_debug_proxy.Proxy.PackCache.{
  Key, key_eq, PackType, UrlResourcePackCache, download_failed, load, store, find, put_pack,
  has_key, resource_pack_key, Advertised, advertised_key, remove,
}
use bedrock_debug_proxy.Proxy.PackCache.Merge.{merge, take_slot, fits}
use bedrock_debug_proxy.Proxy.PackCache.Laws.{load-store}
use bedrock_debug_proxy.Proxy.Config.{Net, Config, normalize, normalize-normalize}
use bedrock_debug_proxy.Proxy.PackCache.Observe.{Fetch, observe}
use bedrock_debug_proxy.Proxy.PackCache.Again.{observe-observe}
use bedrock_debug_proxy.Proxy.PackCache.NoLoss.{SafeEntry, merge-keeps_existing}

-- A key and a content key.
abbrev pack_type : PackType
pack_type = record {
  Pack = Key × String;
  uuid = λ p. p.0.uuid;
  version = λ p. p.0.version;
  len = λ p. pos p.0.size;
  with_content_key = λ k p. (p.0, k);
  matches = λ k p. key_eq p.0 k;
}

abbrev key_a : Key
key_a = record { uuid = "a"; version = "1.0.0"; size = 3 }

abbrev key_b : Key
key_b = record { uuid = "b"; version = "1.0.0"; size = 4 }

abbrev key_c : Key
key_c = record { uuid = "c"; version = "1.0.0"; size = 5 }

abbrev failed_download : UrlResourcePackCache (Key × String)
failed_download = record {
  packs = (key_b, (key_b, "secret")) ∷ [];
  pack_order = key_b ∷ [];
  offer_order = key_a ∷ key_b ∷ [];
  errors = (key_a, download_failed) ∷ [];
  observed = key_a ∷ key_b ∷ [];
  offered = true;
  ready = true;
  url_count = 2;
}

abbrev stored : UrlResourcePackCache (Key × String)
stored = put_pack key_a (key_a, "") failed_download

stores : store pack_type true key_a (some (key_a, "")) failed_download ≡ (none, stored)
unfolding store key_eq
stores = refl

a-ne-b : key_eq key_a key_b ≡ false
unfolding key_eq
a-ne-b = refl

load_example :
    (load true key_a stored ≡ (none, some (key_a, "")))
    × (load true key_b stored ≡ load true key_b failed_download)
load_example = load-store pack_type key_a key_b (key_a, "") failed_download stored stores a-ne-b

abbrev existing : List (Option (Key × String))
existing = some (key_c, "") ∷ none ∷ some (key_b, "") ∷ some (key_a, "") ∷ []

-- The offered keys come first, the cached pack in place of the given one.
merged :
    merge pack_type failed_download existing ≡ (key_a, "") ∷ (key_b, "secret") ∷ (key_c, "") ∷ []
unfolding merge has_key find key_eq resource_pack_key fits take_slot
merged = refl

merge_example :
    All
      (SafeEntry pack_type failed_download.packs (merge pack_type failed_download existing))
      existing
merge_example = merge-keeps_existing pack_type failed_download existing

-- An offer of two packs, of which one carries a URL.
abbrev offer : List Advertised
offer =
    record {
      uuid = "a";
      version = "1.0.0";
      size = 3;
      download_url = "https://packs.example/a";
      content_key = "";
    }
    ∷ record { uuid = "c"; version = "1.0.0"; size = 5; download_url = ""; content_key = "" }
    ∷ []

abbrev fetches : Advertised → Fetch (Key × String)
fetches a = record {
  parsed = some (record { scheme = "https"; host = "packs.example" });
  live = true;
  pack = some (record { uuid = a.uuid; version = a.version; size = a.size }, "");
}

abbrev refuses : Advertised → Fetch (Key × String)
refuses a = record { parsed = none; live = true; pack = none }

abbrev empty : UrlResourcePackCache (Key × String)
empty = record {
  packs = [];
  pack_order = [];
  offer_order = [];
  errors = [];
  observed = [];
  offered = false;
  ready = false;
  url_count = 0;
}

downloads : (observe pack_type fetches offer empty).packs ≡ (key_a, (key_a, "")) ∷ []
unfolding observe key_eq has_key advertised_key remove
downloads = refl

observe_example :
    observe pack_type refuses offer (observe pack_type fetches offer empty)
    ≡ observe pack_type fetches offer empty
observe_example = observe-observe pack_type fetches refuses offer empty

-- A net that splits no address but into this host and port.
abbrev net : Net
net = record {
  split_host_port = λ address. some ("host", "19132");
  trim_space = λ text. text;
  has_line_break = λ text. false;
}

abbrev plain : Config Bool
plain = record {
  listen_address = "";
  packs_only = false;
  upstream_address = "play.example:19132";
  network = false;
  recorder = true;
  output = false;
  max_decompressed_bytes = pos 0;
  decoded_binary_preview_bytes = pos 0;
  max_decoded_collection_items = pos 0;
  others = true;
}

abbrev normal : Config Bool
normal = (normalize net plain).1

normalizes : normalize net plain ≡ (none, normal)
unfolding normalize
normalizes = refl

normalize_example : normalize net normal ≡ (none, normal)
normalize_example = normalize-normalize net plain normal normalizes
