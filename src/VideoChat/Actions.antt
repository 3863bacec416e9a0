-- ===== src/VideoChat/Actions.antt =====
-- frontend/client/src/hooks/useVideoChat.tsx: the effect that connects, its handlers, and the
-- operations that the hook returns.
use pairline.Base.{
  ℕ, Text, lit, truthy, trim, [], ◌∷◌, Option, none, some, or_else, Bool, true, false, not, ◌==◌,
  ◌&&◌, keep, if◌then◌else◌,
}
use pairline.Message.{start, stop, disconnect, skip, message, typing}
use pairline.WebSocket.{Client}
use pairline.WebSocket
use pairline.WebSocket.Sending
use pairline.WebSocket.Sending.{send, send_with_response}
use pairline.NetworkHealth.{
  ServiceStatus, ok, degraded, offline, set_channel_status, remove_channel,
}
use pairline.Chat.{
  idle, searching, disconnected, is_connected_status, own_message, update_delivery_status, Verdict,
}
use pairline.TextChat.{Flight}
use pairline.TextChat.Actions.{revive, is_live}
use pairline.VideoChat.{
  Video, set_api, begin_new_chat_epoch, push_message, push_system_message,
  show_connection_status_message,
}
use pairline.VideoChat.Transport.{forget_turn, reset_webrtc_transport, cleanup}

abbrev pub channel_name : Text
channel_name = lit "phoenix:video"

abbrev report_channel : ServiceStatus → Video → Video
report_channel status c = record c { health = set_channel_status channel_name status c.health }

-- The part of `setup` behind `await wsClient.connect()`. The handlers are registered in any case.
unfoldable pub set_up : Video → Video
set_up c =
    let s =
      if c.mounted then record c { is_connected = true; show_reconnect_message = false } else c in
    record s {
      client = Sending.on_close 4 (
          Sending.on_open 3
            (Sending.on_max_retries 2 (Sending.on_reconnecting 1 (Sending.on_message 0 s.client))));
    }

-- The `catch` of `setup`.
unfoldable pub set_up_failed : Video → Video
set_up_failed c =
    if c.mounted
    then show_connection_status_message
        (lit "Failed to connect to server. Please refresh the page.")
        (record c { is_connected = false; status = disconnected })
    else c

unfoldable pub on_reconnecting : Video → Video
on_reconnecting c = if c.mounted then report_channel degraded c else c

unfoldable pub on_max_retries : Video → Video
on_max_retries c = if c.mounted then report_channel offline c else c

unfoldable pub on_open : Video → Video
on_open c =
    if c.mounted
    then record (report_channel ok c) {
      is_connected = true;
      show_reconnect_message = false;
      status = revive c.status;
    }
    else c

-- The update of the status in the handler of a close, its message included.
unfoldable pub lose_connection : Video → Video
lose_connection c =
    if is_live c.status
    then record (show_connection_status_message (lit "Connection to server lost. Reconnecting...")
        c) { status = disconnected }
    else c

unfoldable pub on_close : Video → Video
on_close c =
    let s = lose_connection (record c { is_connected = false }) in
    if c.mounted
    then reset_webrtc_transport true (record s {
      peer_id = none;
      session_id = none;
      session_token = none;
      session_token_ref = none;
      report_peer_id = none;
      peer_typing = false;
      peer_id_ref = none;
      session_id_ref = none;
    })
    else c

-- The clean-up function of the effect.
unfoldable pub unmount : Video → Video
unmount c =
    let s =
      cleanup (
        set_api ok (record c { mounted = false; health = remove_channel channel_name c.health })) in
    record s { client = WebSocket.disconnect s.client }

-- `startSearch` up to the prompt for the camera.
unfoldable pub start_search : Video → Video
start_search c = begin_new_chat_epoch (record (forget_turn c) {
  ice_restart_pending = false;
  signaling_ready_sent = false;
  negotiation_started = false;
  go_ws_reconnect_exhausted = false;
  messages = [];
  show_reconnect_message = false;
  report_peer_id = none;
  is_video_connecting = false;
  status = searching;
})

-- `getLocalStream` has come back, with a stream or without.
unfoldable pub stream_ready : Bool → Video → Video
stream_ready found c = record c { has_local_stream = if found then true else c.has_local_stream }

-- The `send` at the end of `startSearch`, its `catch` included.
unfoldable pub send_start : Text → Option Text → Video → Video
send_start interests turnstile_token c =
    elim (send (start turnstile_token (lit "video") (trim interests)) c.client) [
      | none ↦ record c { status = idle }
      | some client ↦ record c { client = client }
    ]

-- `await wsClient.connect()` inside `startSearch`, when it succeeds and when anything throws.
unfoldable pub search_connected : Text → Option Text → Video → Video
search_connected interests turnstile_token c =
    send_start interests turnstile_token (record c { is_connected = true })

unfoldable pub search_failed : Video → Video
search_failed c = record c { status = idle }

unfoldable pub stop_search : Video → Video
stop_search c =
    let s = reset_webrtc_transport true (record (forget_turn (begin_new_chat_epoch c)) {
      peer_id_ref = none;
      session_id_ref = none;
      session_token_ref = none;
      peer_id = none;
      messages = [];
      peer_typing = false;
      show_reconnect_message = false;
    }) in
    record s {
      is_video_connecting = false;
      status = idle;
      session_id = none;
      session_token = none;
      report_peer_id = none;
      client = or_else (send stop s.client) s.client;
    }

-- The assignments of `skip` behind its `send`, the last one left out.
unfoldable pub look_further : Client → Video → Video
look_further client c =
    reset_webrtc_transport true (record (begin_new_chat_epoch (record c { client = client })) {
      peer_id = none;
      report_peer_id = none;
      messages = [];
      peer_typing = false;
      is_video_connecting = false;
      status = searching;
    })

-- `skip` and `disconnect` have no `catch`: with no connection the error goes to the caller and
-- nothing has changed.
unfoldable pub skip_peer : Video → Video
skip_peer c =
    if is_connected_status c.status
    then elim (send skip c.client) [
      | none ↦ c
      | some client ↦ record (look_further client c) { go_ws_reconnect_exhausted = false }
    ]
    else c

unfoldable pub leave : Video → Video
leave c = elim (send disconnect c.client) [
  | none ↦ c
  | some client ↦ cleanup (
      push_system_message (lit "You have disconnected.") none
        (record (begin_new_chat_epoch (record c { client = client })) {
          status = disconnected;
          is_video_connecting = false;
          peer_id = none;
          peer_typing = false;
        }))
]

unfoldable pub send_message : Text → Video → Video
send_message text c =
    if truthy (trim text) && is_connected_status c.status
    then record (push_message (λ id. own_message id c.now text) c) {
      client = (send_with_response (message text) c.client).0;
      flights = record { message_id = c.next; chat_epoch = c.chat_epoch } ∷ c.flights;
    }
    else c

-- A verdict on a sent message, behind the test of the epoch.
unfoldable pub apply_verdict : ℕ → Verdict → Video → Video
apply_verdict id v c =
    let s : Video = elim v.status [
      | none ↦ c
      | some status ↦ record c { messages = update_delivery_status id status none c.messages }
    ] in
    elim v.notice [ none ↦ s | some text ↦ push_system_message text v.notice_reason s ]

-- The callbacks of `then` and `catch`, which run once.
unfoldable pub land : Flight → Verdict → Video → Video
land f v c =
    let s = record c {
      flights = keep (λ (g : Flight). not (g.message_id == f.message_id)) c.flights;
    } in
    if c.chat_epoch == f.chat_epoch then apply_verdict f.message_id v s else s

unfoldable pub send_typing : Bool → Video → Video
send_typing is_typing c =
    if is_connected_status c.status
    then record c { client = or_else (send (typing is_typing) c.client) c.client }
    else c
