-- ===== src/VideoChat/Events.antt =====
-- Everything that can happen to the hook frontend/client/src/hooks/useVideoChat.tsx, in any order.
-- What stands behind an `await` is an event of its own, with what it has captured: it may come at
-- any time, also when nothing has asked for it.
use pairline.Base.{
  ℕ, ◌+◌, Text, List, [], ◌∷◌, Option, none, some, Bool, true, false, not, keep, ◌==◌,
  if◌then◌else◌,
}
use pairline.Message.{Message}
use pairline.WebSocket.Events
use pairline.IceServers.{RtcIceServer}
use pairline.Chat.{Verdict, text_is}
use pairline.TextChat.{Flight}
use pairline.TextChat.Events.{is_flight}
use pairline.VideoChat.{
  Video, Socket, Timer, Job, ends_typing, confirms_api, gives_up_connecting, retries, Fetch,
  confirm_api,
}
use pairline.VideoChat.Turn.{
  Config, TurnAnswer, fetch_turn_servers, fetch_answered, prefetched, fetch_and_apply_turn,
  turn_applied,
}
use pairline.VideoChat.Signals.{
  ReadyState, Connection, ConnectionState, negotiation_prefetched, tracks_attached, offer_created,
  negotiation_failed, on_ice_candidate, on_connection_state_change, restart_offer_created, on_track,
  answer_created, on_ice, flush_ice_candidate,
}
use pairline.VideoChat.GoSocket.{
  connect_timed_out, on_socket_open, on_socket_close, reconnect_socket,
}
use pairline.VideoChat.Handlers.{handle_message, typing_ended}
use pairline.VideoChat.Actions.{
  set_up, set_up_failed, on_reconnecting, on_max_retries, on_open, on_close, unmount, start_search,
  stream_ready, send_start, search_connected, search_failed, stop_search, skip_peer, leave,
  send_message, land, send_typing,
}
use pairline.VideoChat.Offers.{
  SignalingState, on_offer, rolled_back, rollback_failed, offer_prefetched,
}

pub data Event : Type 0 where
  sets_up fails_to_set_up reconnects gives_up opens closes unmounts : Event
  receives signals : Option Text → Message → Event
  socket_opens : Socket → Event
  socket_closes : Socket → ℕ → Event
  timer_fires : ℕ → Bool → Event
  starts stops skips leaves fails_to_start : Event
  finds_stream : Bool → Event
  sends_start connects_for_start : Text → Option Text → Event
  writes : Text → Event
  settles : Flight → Verdict → Event
  types : Bool → Event
  fetches_turn : Event
  answers_fetch : Fetch → TurnAnswer → Event
  upgrades : ℕ → Text → ℕ → Event
  applies_turn : Bool → ℕ → Text → ℕ → Option (List RtcIceServer) → Event
  prefetches_offer prefetches_answer : Text → ℕ → Event
  attaches : Text → ℕ → ℕ → Event
  offers answers : ReadyState → Text → Text → ℕ → ℕ → Event
  fails_to_negotiate : Event
  finds_candidate restarts_offer : ReadyState → Text → ℕ → Text → ℕ → Event
  changes_state : ConnectionState → ℕ → Text → ℕ → Event
  gets_track : ℕ → Text → ℕ → Event
  gets_offer : Bool → SignalingState → Option Text → Event
  rolls_back fails_to_roll_back : Event
  gets_candidate : Connection → Option Text → Text → Event
  flushes : ℕ → Connection → Event
  -- The client changes by events of its own, and the clock goes on.
  client_moves : Events.Event → Event
  clock_moves : ℕ → Event

unfoldable pub run_job : Bool → Job → Video → Video
run_job is_open ends_typing c = typing_ended c
run_job is_open (confirms_api watch) c = confirm_api is_open watch c
run_job is_open (gives_up_connecting ws) c = connect_timed_out ws c
run_job is_open (retries session token) c = reconnect_socket session token c

-- The job of a timer that is set.
abbrev pub find_job : ℕ → List Timer → Option Job
find_job t [] = none
find_job t (x ∷ timers) = if x.id == t then some x.job else find_job t timers

-- A timer that fires is set no more.
unfoldable pub fire : ℕ → Bool → Video → Video
fire t is_open c = elim (find_job t c.timers) [
  | none ↦ c
  | some job ↦
      run_job is_open job (record c { timers = keep (λ (x : Timer). not (x.id == t)) c.timers })
]

-- The three effects that copy a state to its ref when it has changed.
abbrev pub same : Option Text → Option Text → Bool
same none none = true
same none (some t) = false
same (some s) t = text_is t s

abbrev copied : Option Text → Option Text → Option Text → Option Text
copied before after ref = if same before after then ref else after

unfoldable pub run_effects : Video → Video → Video
run_effects c d = record d {
  peer_id_ref = copied c.peer_id d.peer_id d.peer_id_ref;
  session_id_ref = copied c.session_id d.session_id d.session_id_ref;
  session_token_ref = copied c.session_token d.session_token d.session_token_ref;
}

-- The handler of the channel runs only while the hook is mounted.
unfoldable pub handle : Config → Event → Video → Video
handle config sets_up c = set_up c
handle config fails_to_set_up c = set_up_failed c
handle config reconnects c = on_reconnecting c
handle config gives_up c = on_max_retries c
handle config opens c = on_open c
handle config closes c = on_close c
handle config unmounts c = unmount c
handle config (receives json m) c = if c.mounted then handle_message config json m c else c
handle config (signals json m) c = handle_message config json m c
handle config (socket_opens ws) c = on_socket_open ws c
handle config (socket_closes ws code) c = on_socket_close ws code c
handle config (timer_fires t is_open) c = fire t is_open c
handle config starts c = start_search c
handle config stops c = stop_search c
handle config skips c = skip_peer c
handle config leaves c = leave c
handle config fails_to_start c = search_failed c
handle config (finds_stream found) c = stream_ready found c
handle config (sends_start interests token) c = send_start interests token c
handle config (connects_for_start interests token) c = search_connected interests token c
handle config (writes text) c = send_message text c
handle config (settles f v) c = if is_flight f c.flights then land f v c else c
handle config (types b) c = send_typing b c
handle config fetches_turn c = fetch_turn_servers config c
handle config (answers_fetch f answer) c =
    prefetched (fetch_answered config f answer c).1 (fetch_answered config f answer c).0
handle config (upgrades pc target epoch) c = fetch_and_apply_turn config pc target epoch c
handle config (applies_turn throws pc target epoch result) c =
    turn_applied throws pc target epoch result c
handle config (prefetches_offer target epoch) c = negotiation_prefetched target epoch c
handle config (prefetches_answer target epoch) c = offer_prefetched target epoch c
handle config (attaches target epoch pc) c = tracks_attached target epoch pc c
handle config (offers state sdp target epoch pc) c = offer_created state sdp target epoch pc c
handle config (answers state sdp target epoch pc) c = answer_created state sdp target epoch pc c
handle config fails_to_negotiate c = negotiation_failed c
handle config (finds_candidate state candidate pc target epoch) c =
    on_ice_candidate state candidate pc target epoch c
handle config (restarts_offer state sdp pc target epoch) c =
    restart_offer_created state sdp pc target epoch c
handle config (changes_state state pc target epoch) c =
    on_connection_state_change state pc target epoch c
handle config (gets_track pc target epoch) c = on_track pc target epoch c
handle config (gets_offer is_closed state peer) c = on_offer is_closed state peer c
handle config rolls_back c = rolled_back c
handle config fails_to_roll_back c = rollback_failed c
handle config (gets_candidate connection peer candidate) c = on_ice connection peer candidate c
handle config (flushes pc connection) c = flush_ice_candidate pc connection c
handle config (client_moves e) c = record c { client = Events.step e c.client }
handle config (clock_moves n) c = record c { now = c.now + n }

unfoldable pub step : Config → Event → Video → Video
step config e c = run_effects c (handle config e c)

unfoldable pub run : Config → List Event → Video → Video
run config [] c = c
run config (e ∷ es) c = run config es (step config e c)
