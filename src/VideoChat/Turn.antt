-- ===== src/VideoChat/Turn.antt =====
-- frontend/client/src/hooks/useVideoChat.tsx: the bootstrap of the TURN servers. `Config` holds the
-- settings of the build and the random order of `normalizeIntegratedTurnUrls`; the answers of the
-- server are arguments.
use pairline.Base.{
  ℕ, ◌+◌, Text, List, ◌∷◌, Option, none, some, or_else, Bool, true, false, not, ◌==◌, ◌||◌, ◌&&◌,
  any, keep, is_some, if◌then◌else◌,
}
use pairline.IceServers.{
  RtcIceServer, Url, Urls, text, not_text, array, single, malformed, TurnTransportFilter,
  is_turn_url, normalize_ice_servers_for_bootstrap,
}
use pairline.Chat.{present, text_is}
use pairline.VideoChat.{Video, Fetch, watches_turn, report_api_error, report_api_success}

pub record Config : Type 0 where
  pub turn_enabled : Bool
  pub turn_mode : Text
  pub transport_filter : TurnTransportFilter
  pub shuffle : List Text → List Text

abbrev is_turn_entry : Url → Bool
is_turn_entry (text url) = is_turn_url url
is_turn_entry not_text = false

abbrev has_turn_url : Urls → Bool
has_turn_url (array urls) = any is_turn_entry urls
has_turn_url (single url) = is_turn_url url
has_turn_url malformed = false

unfoldable pub has_turn_server : List RtcIceServer → Bool
has_turn_server = any (λ (server : RtcIceServer). has_turn_url server.urls)

-- `fetchTurnServers` up to its first `await`. The async function runs at once, so that without a
-- session its `finally` comes before the assignment of its promise.
unfoldable pub fetch_turn_servers : Config → Video → Video
fetch_turn_servers config c =
    if not config.turn_enabled
    then c
    else if is_some c.turn_fetch_promise
    then c
    else let s = record c { turn_fetch_promise = some c.next; next = c.next + 1 } in
      elim (present c.session_id_ref) [
        | none ↦ s
        | some session ↦ elim (present c.session_token_ref) [
          | none ↦ s
          | some token ↦ record s {
            fetches =
                record {
                  id = c.next;
                  generation = c.turn_fetch_generation;
                  session_id = session;
                  session_token = token;
                }
                ∷ c.fetches;
          }
        ]
      ]

-- What a request comes back with; the mode and the servers are those of the body.
pub data TurnAnswer : Type 0 where
  refused : TurnAnswer
  type_error other_error : TurnAnswer
  malformed_body : TurnAnswer
  servers : Option Text → List RtcIceServer → TurnAnswer

-- The test for a stale answer.
abbrev is_stale_fetch : Fetch → Video → Bool
is_stale_fetch f c =
    not (c.turn_fetch_generation == f.generation)
    || not (text_is c.session_id_ref f.session_id)
    || not (text_is c.session_token_ref f.session_token)

-- The rest of `fetchTurnServers`: the new state and the value of the promise.
unfoldable pub fetch_answered :
    Config → Fetch → TurnAnswer → Video → Video × Option (List RtcIceServer)
fetch_answered config f answer c =
    let s : Video = record c { fetches = keep (λ (g : Fetch). not (g.id == f.id)) c.fetches } in
    let done : Video → Video = λ t. record t { turn_fetch_promise = none } in
    elim answer [
      | refused ↦ (done (report_api_error s), none)
      | type_error ↦ (done (report_api_error s), none)
      | other_error ↦ (done s, none)
      | malformed_body ↦ (done (report_api_success watches_turn s), none)
      | servers mode ice_servers ↦ (
        done (report_api_success watches_turn s),
        if is_stale_fetch f c
            then none
            else some (
                normalize_ice_servers_for_bootstrap config.shuffle ice_servers
                  (some (or_else mode config.turn_mode)) (some config.transport_filter)),
      )
    ]

unfoldable pub apply_turn_servers : List RtcIceServer → Video → Video
apply_turn_servers ice_servers c = record c {
  turn_servers = ice_servers;
  turn_fetched = if has_turn_server ice_servers then true else c.turn_fetched;
}

-- `prefetchTurnServers` behind its `await`.
unfoldable pub prefetched : Option (List RtcIceServer) → Video → Video
prefetched result c = elim result [ none ↦ c | some ice_servers ↦ apply_turn_servers ice_servers c ]

abbrev is_number : Option ℕ → ℕ → Bool
is_number none n = false
is_number (some m) n = m == n

-- `isCurrentPeerConnection`, which the checks behind each `await` write out.
abbrev pub is_current : ℕ → Text → ℕ → Video → Bool
is_current pc target epoch c =
    is_number c.peer_connection pc && text_is c.peer_id_ref target && c.chat_epoch == epoch

-- `fetchAndApplyTURN` up to its `await`, and behind it; `throws` says whether `setConfiguration` or
-- `restartIce` does.
unfoldable pub fetch_and_apply_turn : Config → ℕ → Text → ℕ → Video → Video
fetch_and_apply_turn config pc target epoch c =
    if not (is_current pc target epoch c)
    then c
    else if c.turn_fetched
    then c
    else fetch_turn_servers config (record c { turn_fetched = true })

unfoldable pub turn_applied : Bool → ℕ → Text → ℕ → Option (List RtcIceServer) → Video → Video
turn_applied throws pc target epoch result c =
    let s = prefetched result c in
    if not (is_current pc target epoch s) then s else elim result [
      | none ↦ record s { turn_fetched = false }
      | some ice_servers ↦
          if not (has_turn_server ice_servers)
          then record s { turn_fetched = false }
          else if throws
          then record s { ice_restart_pending = false; turn_fetched = false }
          else record s { ice_restart_pending = true }
    ]
