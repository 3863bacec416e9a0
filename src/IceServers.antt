-- ===== src/IceServers.antt =====
-- frontend/client/src/services/iceServers.ts: the list of STUN and TURN servers that the API
-- returns, made ready for a peer connection. `Math.random` in the comparator of the shuffle is
-- outside the program: the shuffle is an argument.
pub mod Dedupe
pub mod Integrated
pub mod Transport
pub mod Bootstrap
mod Tests
use pairline.Base.{
  Text, lit, text_eq, truthy, starts_with, includes, to_lower, trim, Eq, text_keys, has, lookup,
  insert, List, [], ◌∷◌, ◌++◌, map, Option, none, some, Bool, true, false, not, ◌||◌, keep,
  is_empty, is_some, or_else, if◌then◌else◌, ◌≡◌, ◌↔◌, arith,
}

pub data TurnTransportFilter : Type 0 where
  only_udp only_tcp all : TurnTransportFilter

pub data UrlBucket : Type 0 where
  udp turns tcp other : UrlBucket

abbrev pub bucket_eq : UrlBucket → UrlBucket → Bool
bucket_eq udp udp = true
bucket_eq turns turns = true
bucket_eq tcp tcp = true
bucket_eq other other = true
bucket_eq _ _ = false

pub bucket_eq_iff : (a b : UrlBucket) → (bucket_eq a b ≡ true) ↔ (a ≡ b)
bucket_eq_iff a b = ground arith

instance abbrev pub bucket_keys : Eq UrlBucket
bucket_keys = record { beq = bucket_eq; beq_iff = bucket_eq_iff }

unfoldable pub integrated_turn_bucket_order : List UrlBucket
integrated_turn_bucket_order = udp ∷ turns ∷ tcp ∷ other ∷ []

-- An element of the array `urls`: the response is JSON, so it may be no string at all.
pub data Url : Type 0 where
  text : Text → Url
  not_text : Url

-- `RTCIceServer['urls']`, as it may arrive.
pub data Urls : Type 0 where
  array : List Url → Urls
  single : Text → Urls
  malformed : Urls

pub record RtcIceServer : Type 0 where
  pub urls : Urls
  pub username : Option Text
  pub credential : Option Text

unfoldable pub texts : List Url → List Text
texts [] = []
texts (text url ∷ urls) = url ∷ texts urls
texts (not_text ∷ urls) = texts urls

unfoldable pub as_url_list : Urls → List Text
unfolding texts
as_url_list (array urls) = texts urls
as_url_list (single url) = url ∷ []
as_url_list malformed = []

-- The loop of `dedupeUrls`: the set `seen`, the array `deduped`, and the URLs that are left.
unfoldable pub dedupe_loop : List Text → List Text → List Text → List Text
dedupe_loop seen deduped [] = deduped
dedupe_loop seen deduped (raw_url ∷ urls) =
    let url = trim raw_url in
    let more = dedupe_loop (url ∷ seen) (deduped ++ url ∷ []) urls in
    let skip = dedupe_loop seen deduped urls in
    if not (truthy url) || has seen url then skip else more

unfoldable pub dedupe_urls : List Text → List Text
unfolding dedupe_loop
dedupe_urls urls = dedupe_loop [] [] urls

unfoldable pub is_turn_url : Text → Bool
is_turn_url url = starts_with (lit "turn:") url || starts_with (lit "turns:") url

unfoldable pub integrated_turn_url_bucket : Text → UrlBucket
integrated_turn_url_bucket url =
    if starts_with (lit "turns:") url
    then turns
    else if includes (lit "transport=udp") (to_lower url)
    then udp
    else if includes (lit "transport=tcp") (to_lower url)
    then tcp
    else other

-- The loop that fills the map: the first URL of each bucket stays.
unfoldable pub fill_buckets : List (UrlBucket × Text) → List Text → List (UrlBucket × Text)
fill_buckets by_bucket [] = by_bucket
fill_buckets by_bucket (url ∷ urls) =
    let bucket = integrated_turn_url_bucket url in
    fill_buckets
      (if is_some (lookup bucket by_bucket) then by_bucket else insert bucket url by_bucket) urls

-- `.map(bucket => byBucket.get(bucket)).filter(Boolean)`: a missing or an empty URL falls out.
unfoldable pub pick_buckets : List (UrlBucket × Text) → List UrlBucket → List Text
pick_buckets by_bucket [] = []
pick_buckets by_bucket (bucket ∷ buckets) = elim (lookup bucket by_bucket) [
  | none ↦ pick_buckets by_bucket buckets
  | some url ↦
      if truthy url then url ∷ pick_buckets by_bucket buckets else pick_buckets by_bucket buckets
]

-- `[...urls].sort(() => Math.random() - 0.5)` is `shuffle urls`.
unfoldable pub normalize_integrated_turn_urls : (List Text → List Text) → List Text → List Text
unfolding fill_buckets pick_buckets integrated_turn_bucket_order
normalize_integrated_turn_urls shuffle urls =
    pick_buckets (fill_buckets [] (shuffle urls)) integrated_turn_bucket_order

-- The predicate of the filter. `all` does not reach it; the last `return true` is its answer.
unfoldable pub fits_transport : TurnTransportFilter → Text → Bool
fits_transport only_udp url =
    if starts_with (lit "turns:") url
    then false
    else not (includes (lit "transport=tcp") (to_lower url))
fits_transport only_tcp url =
    if starts_with (lit "turns:") url then true else includes (lit "transport=tcp") (to_lower url)
fits_transport all url = if starts_with (lit "turns:") url then false else true

unfoldable pub filter_turn_urls_by_transport : List Text → TurnTransportFilter → List Text
unfolding fits_transport
filter_turn_urls_by_transport turn_urls all = turn_urls
filter_turn_urls_by_transport turn_urls transport = keep (fits_transport transport) turn_urls

-- The URLs of one server: `normalizedUrls` of the reducer.
unfoldable pub normalized_urls :
    (List Text → List Text) → Bool → TurnTransportFilter → List Text → List Text
normalized_urls shuffle integrated transport urls =
    let turn_urls = keep is_turn_url urls in
    let non_turn_urls = keep (λ url. not (is_turn_url url)) urls in
    let normalized_turn_urls =
      if integrated then normalize_integrated_turn_urls shuffle turn_urls else turn_urls in
    non_turn_urls ++ filter_turn_urls_by_transport normalized_turn_urls transport

-- The reducer: the servers so far, and the next one. With no URL after the first step the second
-- test holds too, so that the two early returns of the source are kept as they stand.
unfoldable pub add_server :
    (List Text → List Text)
    → Bool
    → TurnTransportFilter
    → List RtcIceServer
    → RtcIceServer
    → List RtcIceServer
add_server shuffle integrated transport servers server =
    let urls = dedupe_urls (as_url_list server.urls) in
    let normalized = normalized_urls shuffle integrated transport urls in
    if is_empty urls
    then servers
    else if is_empty normalized
    then servers
    else servers ++ (record server { urls = array (map text normalized) }) ∷ []

unfoldable pub reduce_servers :
    (List Text → List Text)
    → Bool
    → TurnTransportFilter
    → List RtcIceServer
    → List RtcIceServer
    → List RtcIceServer
reduce_servers shuffle integrated transport servers [] = servers
reduce_servers shuffle integrated transport servers (server ∷ ice_servers) =
    reduce_servers shuffle integrated transport
      (add_server shuffle integrated transport servers server) ice_servers

-- `mode?.trim() === 'integrated'`.
unfoldable pub is_integrated : Option Text → Bool
is_integrated none = false
is_integrated (some mode) = text_eq (trim mode) (lit "integrated")

unfoldable pub normalize_ice_servers_for_bootstrap :
    (List Text → List Text)
    → List RtcIceServer
    → Option Text
    → Option TurnTransportFilter
    → List RtcIceServer
normalize_ice_servers_for_bootstrap shuffle ice_servers mode transport_filter =
    reduce_servers shuffle (is_integrated mode) (or_else transport_filter all) [] ice_servers
