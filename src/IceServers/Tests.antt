-- ===== src/IceServers/Tests.antt =====
-- Runs and instances for frontend/client/src/services/iceServers.ts.
use pairline.Base.{
  starts_with, includes, to_lower, has, lookup, insert, text_eq, Text, lit, truthy, trim, List, [],
  ◌∷◌, ◌++◌, map, none, some, true, keep, any, length, ◌+◌, if◌then◌else◌, In, All, Distinct, ◌≡◌,
  ◌↔◌, ◌⊎◌, inl, inr, refl, arith,
}
use pairline.IceServers.{
  add_server, reduce_servers, as_url_list, normalized_urls, is_turn_url, UrlBucket, only_udp,
  only_tcp, all, text, not_text, array, RtcIceServer, dedupe_urls, filter_turn_urls_by_transport,
  normalize_integrated_turn_urls, normalize_ice_servers_for_bootstrap, integrated_turn_url_bucket,
  is_integrated,
}
use pairline.IceServers.Dedupe.{dedupe_urls_lem}
use pairline.IceServers.Integrated.{in_bucket, normalize_integrated_turn_urls_one_each}
use pairline.IceServers.Transport.{filter_turn_urls_by_transport_divides}
use pairline.IceServers.Bootstrap.{
  normalize_ice_servers_for_bootstrap_idem, normalize_ice_servers_for_bootstrap-append,
}

abbrev turn_udp : Text
turn_udp = lit "turn:a?transport=udp"

abbrev turn_tcp : Text
turn_tcp = lit "turn:a?transport=TCP"

abbrev turns_a : Text
turns_a = lit "turns:a:5349"

abbrev turn_b : Text
turn_b = lit "turn:b?transport=udp"

abbrev stun : Text
stun = lit "stun:a"

abbrev urls : List Text
urls = turn_udp ∷ turn_b ∷ turn_tcp ∷ turns_a ∷ []

-- A shuffle that swaps the first two.
swap : List Text → List Text
swap [] = []
swap (a ∷ []) = a ∷ []
swap (a ∷ b ∷ us) = b ∷ a ∷ us

in-swap : (us : List Text) (u : Text) → In u (swap us) ↔ In u us
unfolding swap
in-swap [] u = ground arith
in-swap (a ∷ []) u = ground arith
in-swap (a ∷ b ∷ us) u = ground arith

full : (u : Text) → In u urls → truthy u ≡ true
full u (inl e) = ground arith
full u (inr (inl e)) = ground arith
full u (inr (inr (inl e))) = ground arith
full u (inr (inr (inr (inl e)))) = ground arith
full u (inr (inr (inr (inr i)))) = elim i [ ]

abbrev server : RtcIceServer
server = record {
  urls = array (
      text stun
      ∷ not_text
      ∷ text (lit " turn:a?transport=udp ")
      ∷ text turn_udp
      ∷ text turn_b
      ∷ text turns_a
      ∷ []);
  username = some (lit "user");
  credential = some (lit "secret");
}

-- The second URL of a bucket falls out; which one is second is up to the shuffle.
integrated_run :
    normalize_ice_servers_for_bootstrap swap (server ∷ []) (some (lit " integrated ")) none
    ≡ (record server { urls = array (map text (stun ∷ turn_b ∷ turns_a ∷ [])) }) ∷ []
unfolding normalize_ice_servers_for_bootstrap swap add_server reduce_servers is_integrated
    as_url_list dedupe_urls normalized_urls is_turn_url normalize_integrated_turn_urls
    integrated_turn_url_bucket trim includes to_lower starts_with lookup insert has text_eq
    filter_turn_urls_by_transport
integrated_run = refl

plain_udp_run :
    normalize_ice_servers_for_bootstrap swap (server ∷ []) none (some only_udp)
    ≡ (record server { urls = array (map text (stun ∷ turn_udp ∷ turn_b ∷ [])) }) ∷ []
unfolding normalize_ice_servers_for_bootstrap swap add_server reduce_servers is_integrated
    as_url_list dedupe_urls normalized_urls is_turn_url trim includes to_lower starts_with has
    text_eq filter_turn_urls_by_transport
plain_udp_run = refl

dedupe_urls_lem_example :
    Distinct (dedupe_urls (lit " a " ∷ lit "a" ∷ []))
    × ((u : Text)
        → In u (dedupe_urls (lit " a " ∷ lit "a" ∷ []))
          ↔ (In u (map trim (lit " a " ∷ lit "a" ∷ [])) × (truthy u ≡ true)))
dedupe_urls_lem_example = dedupe_urls_lem (lit " a " ∷ lit "a" ∷ [])

one_each_example :
    ((b : UrlBucket)
      → length (keep (in_bucket b) (normalize_integrated_turn_urls swap urls))
        ≡ (if any (in_bucket b) urls then 1 else 0))
    × All (λ u. In u urls) (normalize_integrated_turn_urls swap urls)
one_each_example = normalize_integrated_turn_urls_one_each swap urls in-swap full

divides_example :
    (filter_turn_urls_by_transport urls all ≡ urls)
    × (length (filter_turn_urls_by_transport urls only_udp)
          + length (filter_turn_urls_by_transport urls only_tcp)
        ≡ length urls)
    × ((In turn_udp (filter_turn_urls_by_transport urls only_udp)
          × ¬ In turn_udp (filter_turn_urls_by_transport urls only_tcp))
        ⊎ (In turn_udp (filter_turn_urls_by_transport urls only_tcp)
            × ¬ In turn_udp (filter_turn_urls_by_transport urls only_udp)))
divides_example = filter_turn_urls_by_transport_divides urls turn_udp (inl refl)

idem_example :
    normalize_ice_servers_for_bootstrap swap
      (normalize_ice_servers_for_bootstrap swap (server ∷ []) none (some only_udp))
      none
      (some only_udp)
    ≡ normalize_ice_servers_for_bootstrap swap (server ∷ []) none (some only_udp)
unfolding is_integrated
idem_example = normalize_ice_servers_for_bootstrap_idem swap (server ∷ []) none (some only_udp) refl

append_test :
    normalize_ice_servers_for_bootstrap swap (server ∷ [] ++ server ∷ []) none none
    ≡ normalize_ice_servers_for_bootstrap swap (server ∷ []) none none
      ++ normalize_ice_servers_for_bootstrap swap (server ∷ []) none none
append_test = normalize_ice_servers_for_bootstrap-append swap (server ∷ []) (server ∷ []) none none
