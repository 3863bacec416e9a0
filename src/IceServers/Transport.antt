-- ===== src/IceServers/Transport.antt =====
-- `filterTurnUrlsByTransport` of frontend/client/src/services/iceServers.ts: how the two filters
-- divide the TURN URLs between them.
use pairline.Base.{
  ◌+◌, Text, List, [], ◌∷◌, Bool, true, not, keep, length, In, in-keep, ◌≡◌, ◌⊎◌, inl, inr,
  Bool-cases, arith, refl, sym, keep_id,
}
use pairline.IceServers.{
  TurnTransportFilter, only_udp, only_tcp, all, fits_transport, filter_turn_urls_by_transport,
}

udp_not_tcp : (url : Text) → fits_transport only_udp url ≡ not (fits_transport only_tcp url)
unfolding fits_transport
udp_not_tcp url = ground arith

length-keep_split :
    (p q : Text → Bool) (urls : List Text)
    → ((u : Text) → p u ≡ not (q u))
    → length (keep p urls) + length (keep q urls) ≡ length urls
length-keep_split p q [] h = refl
length-keep_split p q (u ∷ urls) h = ground (arith, h u, length-keep_split p q urls h)

-- Of any list of TURN URLs the filters `udp` and `tcp` each keep a part, a URL of the list is in
-- exactly one of the two parts, and the filter `all` keeps the whole list.
pub filter_turn_urls_by_transport_divides :
    (urls : List Text) (u : Text)
    → In u urls
    → (filter_turn_urls_by_transport urls all ≡ urls)
      × (length (filter_turn_urls_by_transport urls only_udp)
            + length (filter_turn_urls_by_transport urls only_tcp)
          ≡ length urls)
      × ((In u (filter_turn_urls_by_transport urls only_udp)
            × ¬ In u (filter_turn_urls_by_transport urls only_tcp))
          ⊎ (In u (filter_turn_urls_by_transport urls only_tcp)
              × ¬ In u (filter_turn_urls_by_transport urls only_udp)))
unfolding filter_turn_urls_by_transport
filter_turn_urls_by_transport_divides urls u i = (
  refl,
  length-keep_split (fits_transport only_udp) (fits_transport only_tcp) urls udp_not_tcp,
  elim (Bool-cases (fits_transport only_tcp u)) [
    | inl h ↦ inr (
      (in-keep (fits_transport only_tcp) urls u).1 (i, h),
      λ j. ground (arith, (in-keep (fits_transport only_udp) urls u).0 j, udp_not_tcp u),
    )
    | inr h ↦ inl (
      (in-keep (fits_transport only_udp) urls u).1 (i, ground (arith, udp_not_tcp u)),
      λ j. ground (arith, (in-keep (fits_transport only_tcp) urls u).0 j),
    )
  ],
)

-- What passes a filter, as a test of one URL.
pub passes : TurnTransportFilter → Text → Bool
passes all url = true
passes only_udp url = fits_transport only_udp url
passes only_tcp url = fits_transport only_tcp url

pub filter_turn_urls_by_transport-keep :
    (urls : List Text) (transport : TurnTransportFilter)
    → filter_turn_urls_by_transport urls transport ≡ keep (passes transport) urls
unfolding filter_turn_urls_by_transport passes
filter_turn_urls_by_transport-keep urls all = sym (keep_id (λ (u : Text). true) urls (λ u i. refl))
filter_turn_urls_by_transport-keep urls only_udp = refl
filter_turn_urls_by_transport-keep urls only_tcp = refl
