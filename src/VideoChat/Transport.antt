-- ===== src/VideoChat/Transport.antt =====
-- frontend/client/src/hooks/useVideoChat.tsx: what closes the socket to the Go server, the peer
-- connection and the timers, and what opens the socket.
use pairline.Base.{◌+◌, Text, [], ◌∷◌, Option, none, some, or_else, Bool, false, not, if◌then◌else◌}
use pairline.Chat.{present}
use pairline.VideoChat.{
  Video, Socket, gives_up_connecting, default_stun_servers, without_timer, set_timer,
  begin_new_chat_epoch,
}

abbrev pub can_open_go_web_socket : Video → Bool
can_open_go_web_socket c = not c.go_ws_reconnect_exhausted

unfoldable pub clear_go_ws_connect_timeout : Video → Video
clear_go_ws_connect_timeout c = record c {
  timers = without_timer c.go_ws_connect_timeout c.timers;
  go_ws_connect_timeout = none;
}

-- A socket that is closed here has lost its handlers, so that it reports nothing more.
unfoldable pub close_go_web_socket : Video → Video
close_go_web_socket c = elim c.webrtc_ws [
  | none ↦ c
  | some ws ↦
      clear_go_ws_connect_timeout
        (record c { webrtc_ws = none; webrtc_socket_open = false; signaling_ready_sent = false })
]

-- The four assignments that forget the TURN servers, which three operations share.
abbrev pub forget_turn : Video → Video
forget_turn c = record c {
  turn_fetch_generation = c.turn_fetch_generation + 1;
  turn_servers = default_stun_servers;
  turn_fetched = false;
  turn_fetch_promise = none;
}

unfoldable pub reset_webrtc_transport : Bool → Video → Video
reset_webrtc_transport keep_local_media c =
    let s = close_go_web_socket (
      forget_turn (record c {
        ice_restart_pending = false;
        pending_webrtc_start = none;
        signaling_ready_sent = false;
        negotiation_started = false;
      })) in
    record s {
      peer_connection = none;
      pending_ice_candidates = [];
      webrtc_ws_queue = [];
      is_video_connecting = false;
      has_local_stream = if keep_local_media then s.has_local_stream else false;
    }

-- The `clearTimeout`s of `cleanup`.
unfoldable pub clear_timers : Video → Video
clear_timers c =
    let s = record c {
      timers = without_timer c.peer_typing_timeout c.timers;
      peer_typing_timeout = none;
    } in
    let t = record s {
      timers = without_timer s.api_success_timeout s.timers;
      api_success_timeout = none;
    } in
    let u = record t {
      timers = without_timer t.go_ws_reconnect_timeout t.timers;
      go_ws_reconnect_timeout = none;
    } in
    clear_go_ws_connect_timeout u

unfoldable pub cleanup : Video → Video
cleanup c = reset_webrtc_transport false (
    clear_timers (record (begin_new_chat_epoch c) {
      peer_id_ref = none;
      session_id_ref = none;
      session_token_ref = none;
      show_reconnect_message = false;
    }))

-- `new WebSocket(…)` with the timer of its connection.
unfoldable pub open_go_web_socket : Text → Option Text → Video → Video
open_go_web_socket session_id session_token c =
    let ws : Socket = record {
      id = c.next;
      session_id = session_id;
      session_token = or_else session_token [];
    } in
    let s = record c {
      webrtc_ws = some ws;
      webrtc_socket_open = false;
      sockets = ws ∷ c.sockets;
      next = c.next + 1;
    } in
    record (set_timer (gives_up_connecting ws) 8000 s) { go_ws_connect_timeout = some s.next }

unfoldable pub take_token : Option Text → Video → Video
take_token session_token c = elim (present session_token) [
  | none ↦ c
  | some token ↦ record c { session_token = some token; session_token_ref = some token }
]

-- The session of a message `searching` or `connected` is new: the body under the first test.
unfoldable pub start_session : Text → Option Text → Video → Video
start_session session_id session_token c =
    let s = close_go_web_socket (
      take_token session_token (record c {
        go_ws_reconnect_exhausted = false;
        session_id = some session_id;
        session_id_ref = some session_id;
      })) in
    if not (can_open_go_web_socket s) then s else open_go_web_socket session_id session_token s
