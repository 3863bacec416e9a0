-- ===== src/NetworkHealth.antt =====
-- frontend/client/src/hooks/useNetworkHealth.tsx: the status of the channels and of the API, the
-- status of the chat server that is derived from the channels, and the banners. React's rendering
-- and the router are outside; `navigate` is the value of `redirect`.
pub mod Worst
mod History
mod Banners
mod Tests
use pairline.Base.{
  Text, text_keys, lookup, insert, remove, List, [], ◌∷◌, ◌++◌, Option, none, some, Bool, true,
  false, not, ◌&&◌, ◌||◌, any, is_empty, is_some, if◌then◌else◌,
}

pub data ServiceStatus : Type 0 where
  ok degraded offline : ServiceStatus

abbrev is_ok : ServiceStatus → Bool
is_ok ok = true
is_ok _ = false

abbrev pub is_degraded : ServiceStatus → Bool
is_degraded degraded = true
is_degraded _ = false

abbrev pub is_offline : ServiceStatus → Bool
is_offline offline = true
is_offline _ = false

-- `a === b`.
abbrev status_eq : ServiceStatus → ServiceStatus → Bool
status_eq ok s = is_ok s
status_eq degraded s = is_degraded s
status_eq offline s = is_offline s

pub record Health : Type 0 where
  pub channel_statuses : List (Text × ServiceStatus)
  pub api_status : ServiceStatus

-- The initial state in production, where no seed is given.
unfoldable pub initial : Health
initial = record { channel_statuses = []; api_status = ok }

-- `Object.values`.
abbrev pub values : List (Text × ServiceStatus) → List ServiceStatus
values [] = []
values ((k, s) ∷ m) = s ∷ values m

unfoldable pub phoenix_status : Health → ServiceStatus
phoenix_status h =
    let statuses = values h.channel_statuses in
    if is_empty statuses
    then ok
    else if any is_offline statuses
    then offline
    else if any is_degraded statuses
    then degraded
    else ok

-- `prev[channel] === status`.
abbrev pub found_is : Option ServiceStatus → ServiceStatus → Bool
found_is none s = false
found_is (some t) s = status_eq t s

unfoldable pub set_channel_status : Text → ServiceStatus → Health → Health
set_channel_status channel status h =
    if found_is (lookup channel h.channel_statuses) status
    then h
    else record h { channel_statuses = insert channel status h.channel_statuses }

unfoldable pub remove_channel : Text → Health → Health
remove_channel channel h =
    if not (is_some (lookup channel h.channel_statuses))
    then h
    else record h { channel_statuses = remove channel h.channel_statuses }

unfoldable pub set_api_status : ServiceStatus → Health → Health
set_api_status status h = record h { api_status = status }

unfoldable pub reset_health_status : Health → Health
reset_health_status h = record { channel_statuses = []; api_status = ok }

-- Whether the effect navigates to `/unavailable`.
unfoldable pub redirect : Health → Bool
unfolding phoenix_status
redirect h = is_offline (phoenix_status h)

pub data Banner : Type 0 where
  all_degraded chat_degraded signaling_degraded video_offline : Banner

-- The two banners that the provider renders: a list, since nothing in the code says that they
-- exclude each other.
unfoldable pub banners : ServiceStatus → ServiceStatus → List Banner
banners phoenix api =
    let first =
      if (is_degraded phoenix || is_degraded api)
        && not (is_offline phoenix)
        && not (is_offline api)
      then (if is_degraded phoenix && is_degraded api
          then all_degraded
          else if is_degraded phoenix
          then chat_degraded
          else signaling_degraded)
        ∷ []
      else [] in
    let second = if is_offline api && not (is_offline phoenix) then video_offline ∷ [] else [] in
    first ++ second
