-- ===== src/VideoChat/Handlers.antt =====
-- frontend/client/src/hooks/useVideoChat.tsx: `handleMessage`, the cases that do not wait, and of the
-- others the part up to their first `await`.
use pairline.Base.{
  ℕ, ◌+◌, Text, lit, includes, List, [], ◌∷◌, ◌++◌, Option, none, some, or_else, Bool, true, false,
  not, ◌||◌, ◌&&◌, is_some, if◌then◌else◌,
}
use pairline.Message.{Message, MessageType, ChatMessage}
use pairline.Chat.{
  idle, disconnected, connected, present, data_field, system_message, peer_message, join_comma,
  ban_reason, error_text,
}
use pairline.TextChat.{is_false}
use pairline.VideoChat.{
  Video, ends_typing, without_timer, set_timer, begin_new_chat_epoch, push_message,
  push_system_message, show_video_signaling_unavailable,
}
use pairline.VideoChat.Transport.{can_open_go_web_socket, forget_turn, reset_webrtc_transport}
use pairline.VideoChat.Turn.{Config, fetch_turn_servers}
use pairline.VideoChat.Signals.{
  should_ignore_incoming_signal, maybe_send_webrtc_ready, start_negotiation_if_needed,
}
use pairline.VideoChat.GoSocket.{on_session, unavailable_text}

-- The messages of a match.
unfoldable pub greeting : Bool → ℕ → ℕ → List Text → List ChatMessage
greeting video_enabled next now common =
    let notice : Text =
      if video_enabled
      then lit "You are talking to a random stranger."
      else lit "You are talking to a random stranger. Their camera is currently off." in
    elim common [
      | [] ↦ system_message next now notice none ∷ []
      | interest ∷ interests ↦
          system_message next now (lit "You both like: " ++ join_comma (interest ∷ interests)) none
          ∷ system_message (next + 1) now notice none
          ∷ []
    ]

unfoldable pub clear_typing : Video → Video
clear_typing c = record c {
  timers = without_timer c.peer_typing_timeout c.timers;
  peer_typing_timeout = none;
}

-- The case `match` up to the test of the video. The source hides the reconnect message here only in
-- the state that nothing reads; its ref stays.
unfoldable pub enter_match : Bool → Message → Video → Video
enter_match video_enabled m c =
    let s = clear_typing (record (begin_new_chat_epoch c) {
      peer_connection = none;
      pending_ice_candidates = [];
      pending_webrtc_start = none;
      peer_id = some (or_else m.body.peer_id []);
      report_peer_id = if is_false m.body.reportable then none else present m.body.peer_id;
      status = connected;
      is_video_connecting = video_enabled;
      peer_typing = false;
      signaling_ready_sent = false;
      negotiation_started = false;
      peer_id_ref = present m.body.peer_id;
    }) in
    record s {
      messages = greeting video_enabled s.next s.now (or_else m.body.common_interests []);
      next = s.next + 2;
    }

-- The rest of it for a peer with a camera.
unfoldable pub prepare_video : Config → Option Text → Video → Video
prepare_video config peer c =
    if c.webrtc_socket_open
    then maybe_send_webrtc_ready peer
        (if config.turn_enabled && not c.turn_fetched then fetch_turn_servers config c else c)
    else if not (is_some c.webrtc_ws)
        && is_some (present c.session_id_ref)
        && can_open_go_web_socket c
    then on_session c.session_id_ref (present c.session_token_ref)
        (record c { session_id_ref = none })
    else if not (can_open_go_web_socket c)
    then show_video_signaling_unavailable unavailable_text c
    else c

unfoldable pub on_match : Config → Message → Video → Video
on_match config m c =
    let video_enabled = not (is_false m.body.video_enabled) in
    let s = enter_match video_enabled m c in
    if not video_enabled
    then reset_webrtc_transport false s
    else prepare_video config (present m.body.peer_id) s

unfoldable pub on_webrtc_ready : Config → Video → Video
on_webrtc_ready config c =
    if config.turn_enabled && not c.turn_fetched then fetch_turn_servers config c else c

unfoldable pub on_webrtc_start : Option Text → Video → Video
on_webrtc_start peer c = elim (present peer) [
  | none ↦ c
  | some target ↦
      if should_ignore_incoming_signal (some target) c
      then c
      else if c.webrtc_socket_open
      then start_negotiation_if_needed target c
      else record c { pending_webrtc_start = some target }
]

unfoldable pub on_peer_message : Message → Video → Video
on_peer_message m c = elim (present (data_field (λ d. d.content) m)) [
  | none ↦ c
  | some content ↦ push_message (λ id. peer_message id c.now content) c
]

unfoldable pub on_system : Message → Video → Video
on_system m c = elim (present (data_field (λ d. d.message) m)) [
  | none ↦ c
  | some text ↦ push_system_message text (data_field (λ d. d.reason_code) m) c
]

unfoldable pub on_typing : Message → Video → Video
on_typing m c = elim (data_field (λ d. d.typing) m) [
  | none ↦ c
  | some typing ↦
      let s = clear_typing (record c { peer_typing = typing }) in
      if typing
      then record (set_timer ends_typing 4000 s) { peer_typing_timeout = some s.next }
      else s
]

unfoldable pub typing_ended : Video → Video
typing_ended c = record c { peer_typing = false; peer_typing_timeout = none }

-- The chat ends with a notice: `disconnected` and `timeout` forget the peer, `banned` keeps it.
unfoldable pub end_chat : Text → Video → Video
end_chat notice c = reset_webrtc_transport true (
    push_system_message notice none (
      begin_new_chat_epoch
        (record c { status = disconnected; is_video_connecting = false; peer_typing = false })))

unfoldable pub on_disconnected : Video → Video
on_disconnected c = end_chat (lit "Stranger has disconnected.") (record c { peer_id = none })

unfoldable pub on_timeout : Video → Video
on_timeout c =
    end_chat (lit "Matchmaking timeout: No strangers are available right now.")
      (record c { peer_id = none })

unfoldable pub on_banned : Message → Video → Video
on_banned m c = end_chat (lit "You have been banned: " ++ ban_reason m) c

abbrev is_benign : Text → Bool
is_benign text = includes (lit "No partner") text || includes (lit "No partner to skip") text

-- `json` is `JSON.stringify(message.data)`.
unfoldable pub on_error : Option Text → Message → Video → Video
on_error json m c =
    let text = error_text json m in
    let s = if includes (lit "CAPTCHA") text then record c { status = idle } else c in
    if is_benign text then s else push_system_message (lit "Error: " ++ text) none s

unfoldable pub on_stopped : Video → Video
on_stopped c = reset_webrtc_transport true (record (forget_turn (begin_new_chat_epoch c)) {
  status = idle;
  is_video_connecting = false;
  peer_id = none;
  session_id = none;
  session_token = none;
  session_token_ref = none;
  report_peer_id = none;
  messages = [];
  peer_typing = false;
})

-- The `switch`; `offer`, `answer` and `ice` go to the browser, and are events of their own.
unfoldable pub on_type : Config → MessageType → Option Text → Message → Video → Video
on_type config MessageType.searching json m c = on_session m.body.session_id m.body.session_token c
on_type config MessageType.connected json m c = on_session m.body.session_id m.body.session_token c
on_type config MessageType.match json m c = on_match config m c
on_type config MessageType.webrtc_ready json m c = on_webrtc_ready config c
on_type config MessageType.webrtc_start json m c = on_webrtc_start m.body.peer_id c
on_type config MessageType.message json m c = on_peer_message m c
on_type config MessageType.system json m c = on_system m c
on_type config MessageType.typing json m c = on_typing m c
on_type config MessageType.disconnect json m c = on_disconnected c
on_type config MessageType.disconnected json m c = on_disconnected c
on_type config MessageType.banned json m c = on_banned m c
on_type config MessageType.error json m c = on_error json m c
on_type config MessageType.timeout json m c = on_timeout c
on_type config MessageType.stopped json m c = on_stopped c
on_type config _ json m c = c

unfoldable pub handle_message : Config → Option Text → Message → Video → Video
handle_message config json m c = on_type config m.kind json m c
