-- ===== src/VideoChat/GoSocket.antt =====
-- frontend/client/src/hooks/useVideoChat.tsx: the life of the socket to the Go server: opening,
-- closing with its two kinds of retry, and the timers of both.
use pairline.Base.{
  ℕ, ◌+◌, ◌*◌, Text, lit, [], ◌++◌, Option, none, some, true, false, not, ◌==◌, ◌&&◌, ltb, leb,
  if◌then◌else◌,
}
use pairline.NetworkHealth.{offline}
use pairline.Chat.{present, text_is}
use pairline.VideoChat.{
  Video, Socket, watches_socket, retries, without_timer, set_timer, set_api, report_api_error,
  report_api_success, is_socket, show_video_signaling_unavailable,
}
use pairline.VideoChat.Transport.{
  can_open_go_web_socket, clear_go_ws_connect_timeout, close_go_web_socket, start_session,
}
use pairline.VideoChat.Signals.{maybe_send_webrtc_ready, start_negotiation_if_needed}

abbrev pub unavailable_text : Text
unavailable_text =
    lit
      "Video signaling is unavailable right now. Text chat is still active. Try refreshing the page."

abbrev pub timed_out_text : Text
timed_out_text =
    lit
      "Video signaling connection timed out. Text chat is still active. Refresh the page before searching again."

-- The cases `searching` and `connected`.
unfoldable pub on_session : Option Text → Option Text → Video → Video
on_session session_id session_token c = elim (present session_id) [
  | none ↦ c
  | some session ↦
      if text_is c.session_id_ref session then c else start_session session session_token c
]

-- The callback of the timer of the connection.
unfoldable pub connect_timed_out : Socket → Video → Video
connect_timed_out ws c =
    if is_socket c.webrtc_ws ws && not c.webrtc_socket_open
    then show_video_signaling_unavailable timed_out_text c
    else c

-- The start that was put off, once the socket is open.
unfoldable pub start_pending : Video → Video
start_pending c = elim (present c.pending_webrtc_start) [
  | none ↦ c
  | some peer ↦ start_negotiation_if_needed peer (record c { pending_webrtc_start = none })
]

-- `onopen`; a socket that is not the current one is closed at once.
unfoldable pub on_socket_open : Socket → Video → Video
on_socket_open ws c =
    if not (is_socket c.webrtc_ws ws)
    then c
    else let s =
        report_api_success (watches_socket ws)
          (clear_go_ws_connect_timeout (record c { webrtc_socket_open = true })) in
      let t = record s { sent = s.sent ++ s.webrtc_ws_queue; webrtc_ws_queue = [] } in
      start_pending (maybe_send_webrtc_ready t.peer_id_ref t)

-- The timer of a retry; one that is set is taken out before.
unfoldable pub schedule_reconnect : Socket → ℕ → Video → Video
schedule_reconnect ws delay c =
    let s = record c { timers = without_timer c.go_ws_reconnect_timeout c.timers } in
    record (set_timer (retries ws.session_id (present s.session_token_ref)) delay s) {
      go_ws_reconnect_timeout = some s.next;
    }

unfoldable pub socket_lost : Socket → Video → Video
socket_lost ws c =
    let s = report_api_error c in
    if ltb s.api_retry_count 5 then schedule_reconnect ws (2000 * s.api_retry_count) s else s

unfoldable pub give_up_socket : Video → Video
give_up_socket c = show_video_signaling_unavailable unavailable_text (
    set_api offline (record c {
      go_ws_reconnect_exhausted = true;
      timers = without_timer c.go_ws_reconnect_timeout c.timers;
      go_ws_reconnect_timeout = none;
    }))

unfoldable pub socket_rejected : Socket → Video → Video
socket_rejected ws c =
    let s = record c { server_rejection_count = c.server_rejection_count + 1 } in
    if leb s.server_rejection_count 3
    then schedule_reconnect ws (3000 * s.server_rejection_count) s
    else give_up_socket s

-- `onclose`: 1008 is a refusal by the server. The handler does nothing for an old socket.
unfoldable pub on_socket_close : Socket → ℕ → Video → Video
on_socket_close ws code c =
    if not (is_socket c.webrtc_ws ws)
    then c
    else let s =
        clear_go_ws_connect_timeout (record c {
          webrtc_ws = none;
          webrtc_socket_open = false;
          signaling_ready_sent = false;
        }) in
      if not (code == 1008) then socket_lost ws s else socket_rejected ws s

-- The session is opened as if it were new: its ref is cleared, so that the test of `on_session` passes.
unfoldable pub reopen_session : Text → Option Text → Video → Video
reopen_session session_id session_token c =
    on_session (some session_id) session_token
      (record (close_go_web_socket c) { session_id_ref = none })

-- The callback of the timer of a retry.
unfoldable pub reconnect_socket : Text → Option Text → Video → Video
reconnect_socket session_id session_token c =
    let s = record c { go_ws_reconnect_timeout = none } in
    if not s.mounted
    then s
    else if not (text_is s.session_id_ref session_id)
    then s
    else if not (can_open_go_web_socket s)
    then s
    else reopen_session session_id session_token s
