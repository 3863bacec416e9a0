-- ===== src/IceServers/Bootstrap.antt =====
-- `normalizeIceServersForBootstrap` of frontend/client/src/services/iceServers.ts: the reduction as
-- a map over the servers, what it keeps of each, and that a second pass changes nothing.
use pairline.Base.{
  Text, List, [], ◌∷◌, ◌++◌, map, Option, Bool, true, false, not, keep, keep_id, keep_none,
  keep-append, in-keep, in-append, is_empty, or_else, if◌then◌else◌, In, Distinct, Distinct-keep,
  Distinct-append, Bool-cases, ◌≡◌, inl, inr, refl, sym, ap, ◌∙◌, arith,
}
use mathlib.Core.List.{append_assoc, append-nil}
use pairline.IceServers.{
  TurnTransportFilter, all, text, array, RtcIceServer, texts, as_url_list, dedupe_urls, is_turn_url,
  normalized_urls, add_server, reduce_servers, is_integrated, normalize_ice_servers_for_bootstrap,
}
use pairline.IceServers.Dedupe.{dedupe_urls_lem, dedupe_urls-IsClean, dedupe_urls_id}
use pairline.IceServers.Transport.{passes, filter_turn_urls_by_transport-keep}

-- The STUN part of a list of URLs.
abbrev is_other_url : Text → Bool
is_other_url url = not (is_turn_url url)

texts-map : (urls : List Text) → texts (map text urls) ≡ urls
unfolding texts
texts-map [] = refl
texts-map (u ∷ urls) = ap (λ (rest : List Text). u ∷ rest) (texts-map urls)

-- What the reducer adds for a server with the URLs `urls`, which were made into `normalized`.
packed : RtcIceServer → List Text → List Text → List RtcIceServer
packed server urls normalized =
    if is_empty urls
    then []
    else if is_empty normalized
    then []
    else (record server { urls = array (map text normalized) }) ∷ []

module _ (shuffle : List Text → List Text) (integrated : Bool)
    (transport : TurnTransportFilter) where
  server_step : RtcIceServer → List RtcIceServer
  server_step server =
      let urls = dedupe_urls (as_url_list server.urls) in
      packed server urls (normalized_urls shuffle integrated transport urls)

  pub collect : List RtcIceServer → List RtcIceServer
  collect [] = []
  collect (server ∷ servers) = server_step server ++ collect servers

  add_server-step :
      (servers : List RtcIceServer) (server : RtcIceServer)
      → add_server shuffle integrated transport servers server ≡ servers ++ server_step server
  unfolding add_server server_step packed
  add_server-step servers server =
      let urls = dedupe_urls (as_url_list server.urls) in
      elim (Bool-cases (is_empty urls)) [
        | inl e ↦ rw (e, append-nil servers)
        | inr f ↦ elim (Bool-cases (is_empty (normalized_urls shuffle integrated transport urls))) [
          | inl e ↦ rw (f, e, append-nil servers)
          | inr g ↦ rw (f, g)
        ]
      ]

  reduce_servers-collect :
      (servers ice_servers : List RtcIceServer)
      → reduce_servers shuffle integrated transport servers ice_servers
        ≡ servers ++ collect ice_servers
  unfolding reduce_servers collect
  reduce_servers-collect servers [] = sym (append-nil servers)
  reduce_servers-collect servers (server ∷ rest) =
      reduce_servers-collect (add_server shuffle integrated transport servers server) rest
      ∙ rw (add_server-step servers server)
          (append_assoc servers (server_step server) (collect rest))

  collect-append : (xs ys : List RtcIceServer) → collect (xs ++ ys) ≡ collect xs ++ collect ys
  unfolding collect
  collect-append [] ys = refl
  collect-append (x ∷ xs) ys =
      rw (collect-append xs ys) (sym (append_assoc (server_step x) (collect xs) (collect ys)))

-- The plain mode: what becomes of the clean URLs of one server, and that it stays as it is.
module _ (shuffle : List Text → List Text) (transport : TurnTransportFilter) where
  plain_urls : List Text → List Text
  plain_urls urls = keep is_other_url urls ++ keep (passes transport) (keep is_turn_url urls)

  normalized_urls-plain :
      (urls : List Text) → normalized_urls shuffle false transport urls ≡ plain_urls urls
  unfolding normalized_urls plain_urls
  normalized_urls-plain urls =
      rw (filter_turn_urls_by_transport-keep (keep is_turn_url urls) transport)

  in-plain_urls : (urls : List Text) (u : Text) → In u (plain_urls urls) → In u urls
  unfolding plain_urls
  in-plain_urls urls u i = elim ((in-append (keep is_other_url urls) _ u).0 i) [
    | inl j ↦ ((in-keep is_other_url urls u).0 j).0
    | inr j ↦ ((in-keep is_turn_url urls u).0 ((in-keep (passes transport) _ u).0 j).0).0
  ]

  plain_urls-Distinct : (urls : List Text) → Distinct urls → Distinct (plain_urls urls)
  unfolding plain_urls
  plain_urls-Distinct urls d =
      Distinct-append (keep is_other_url urls) (keep (passes transport) (keep is_turn_url urls))
        (Distinct-keep is_other_url urls d)
        (Distinct-keep (passes transport) _ (Distinct-keep is_turn_url urls d))
        (λ u i j.
          let a = ((in-keep is_other_url urls u).0 i).1 in
          let b = ((in-keep is_turn_url urls u).0 ((in-keep (passes transport) _ u).0 j).0).1 in
          ground arith)

  plain_urls_idem : (urls : List Text) → plain_urls (plain_urls urls) ≡ plain_urls urls
  unfolding plain_urls
  plain_urls_idem urls =
      let n = keep is_other_url urls in
      let t = keep is_turn_url urls in
      let f = keep (passes transport) t in
      let n_other : (u : Text) → In u n → is_other_url u ≡ true =
        λ u i. ((in-keep is_other_url urls u).0 i).1 in
      let f_turn : (u : Text) → In u f → is_turn_url u ≡ true =
        λ u i. ((in-keep is_turn_url urls u).0 ((in-keep (passes transport) t u).0 i).0).1 in
      let f_pass : (u : Text) → In u f → passes transport u ≡ true =
        λ u i. ((in-keep (passes transport) t u).0 i).1 in
      rw (
        keep-append is_other_url n f,
        keep-append is_turn_url n f,
        keep_id is_other_url n n_other,
        keep_none is_other_url f (λ u i. ground (arith, f_turn u i)),
        keep_none is_turn_url n (λ u i. ground (arith, n_other u i)),
        keep_id is_turn_url f f_turn,
        keep_id (passes transport) f f_pass,
        append-nil n,
      )

  -- A server that was packed once is packed again as it is.
  server_step_again :
      (server : RtcIceServer) (raw : List Text)
      → let urls = plain_urls (dedupe_urls raw) in
        is_empty urls ≡ false
        → server_step shuffle false transport (record server { urls = array (map text urls) })
          ≡ (record server { urls = array (map text urls) }) ∷ []
  unfolding server_step packed as_url_list
  server_step_again server raw h =
      let urls = plain_urls (dedupe_urls raw) in
      let same : dedupe_urls urls ≡ urls =
        dedupe_urls_id urls (λ u i. dedupe_urls-IsClean raw u (in-plain_urls (dedupe_urls raw) u i))
          (plain_urls-Distinct (dedupe_urls raw) (dedupe_urls_lem raw).0) in
      rw (texts-map urls, same, normalized_urls-plain urls, plain_urls_idem (dedupe_urls raw), h)

  server_step_idem :
      (server : RtcIceServer)
      → collect shuffle false transport (server_step shuffle false transport server)
        ≡ server_step shuffle false transport server
  unfolding collect server_step packed
  server_step_idem server =
      let raw = as_url_list server.urls in
      let urls = plain_urls (dedupe_urls raw) in
      elim (Bool-cases (is_empty (dedupe_urls raw))) [
        | inl e ↦ rw e
        | inr f ↦ elim (Bool-cases (is_empty urls)) [
          | inl e ↦ rw (f, normalized_urls-plain (dedupe_urls raw), e)
          | inr g ↦
              rw (f, normalized_urls-plain (dedupe_urls raw), g)
                (rw (server_step_again server raw g) refl)
        ]
      ]

  collect_idem :
      (servers : List RtcIceServer)
      → collect shuffle false transport (collect shuffle false transport servers)
        ≡ collect shuffle false transport servers
  unfolding collect
  collect_idem [] = refl
  collect_idem (server ∷ servers) =
      collect-append shuffle false transport (server_step shuffle false transport server)
        (collect shuffle false transport servers)
      ∙ rw (server_step_idem server, collect_idem servers)

-- Outside the integrated mode a second normalisation with the same filter changes nothing.
pub normalize_ice_servers_for_bootstrap_idem :
    (shuffle : List Text → List Text) (servers : List RtcIceServer) (mode : Option Text)
    (filter : Option TurnTransportFilter)
    → is_integrated mode ≡ false
    → normalize_ice_servers_for_bootstrap shuffle
        (normalize_ice_servers_for_bootstrap shuffle servers mode filter)
        mode
        filter
      ≡ normalize_ice_servers_for_bootstrap shuffle servers mode filter
unfolding normalize_ice_servers_for_bootstrap
normalize_ice_servers_for_bootstrap_idem shuffle servers mode filter plain =
    let t = or_else filter all in
    rw (plain, reduce_servers-collect shuffle false t [] servers)
      (reduce_servers-collect shuffle false t [] (collect shuffle false t servers)
        ∙ collect_idem shuffle t servers)

-- The reduction treats each server by itself, in every mode.
pub normalize_ice_servers_for_bootstrap-append :
    (shuffle : List Text → List Text) (xs ys : List RtcIceServer) (mode : Option Text)
    (filter : Option TurnTransportFilter)
    → normalize_ice_servers_for_bootstrap shuffle (xs ++ ys) mode filter
      ≡ normalize_ice_servers_for_bootstrap shuffle xs mode filter
        ++ normalize_ice_servers_for_bootstrap shuffle ys mode filter
unfolding normalize_ice_servers_for_bootstrap
normalize_ice_servers_for_bootstrap-append shuffle xs ys mode filter =
    let g = is_integrated mode in
    let t = or_else filter all in
    rw
      (
        reduce_servers-collect shuffle g t [] (xs ++ ys),
        reduce_servers-collect shuffle g t [] xs,
        reduce_servers-collect shuffle g t [] ys,
      )
      (collect-append shuffle g t xs ys)
