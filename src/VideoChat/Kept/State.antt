-- ===== src/VideoChat/Kept/State.antt =====
-- frontend/client/src/hooks/useVideoChat.tsx: what closes and opens the socket keeps what `Keeps` asks for.
use pairline.Base.{
  Text, Option, none, some, Bool, true, false, not, if-holds, elim-holds, ◌≡◌, arith,
}
use pairline.Chat.{present, text_is}
use pairline.TextChat.Actions.{is_live}
use pairline.VideoChat.{
  Video, set_timer, push_message, push_system_message, show_connection_status_message,
}
use pairline.VideoChat.Transport.{
  close_go_web_socket, clear_go_ws_connect_timeout, reset_webrtc_transport, start_session,
  take_token, open_go_web_socket, can_open_go_web_socket,
}
use pairline.VideoChat.GoSocket.{on_session, reopen_session, reconnect_socket}
use pairline.VideoChat.Actions.{on_close, lose_connection}
use pairline.VideoChat.Keeping.{Part, Holds, Keeps}

module _ (Q : Part) (keeps : Keeps Q) where
  abbrev H : Video → Type 0
  H = Holds Q

  pub close_go_web_socket-kept : (c : Video) → H c → H (close_go_web_socket c)
  unfolding close_go_web_socket clear_go_ws_connect_timeout
  close_go_web_socket-kept c v = elim-holds H c.webrtc_ws v (λ ws. keeps.closed _ _ _ _ _ v)

  pub reset_webrtc_transport-kept : (b : Bool) (c : Video) → H c → H (reset_webrtc_transport b c)
  unfolding reset_webrtc_transport
  reset_webrtc_transport-kept b c v = close_go_web_socket-kept _ (keeps.unready _ _ _ _ _ v)

  pub show_connection_status_message-kept :
      (text : Text) (c : Video) → H c → H (show_connection_status_message text c)
  unfolding show_connection_status_message push_system_message push_message
  show_connection_status_message-kept text c v =
      if-holds H c.show_reconnect_message v (keeps.pushed _ _ _ _ _ _ v)

  pub lose_connection-kept : (c : Video) → H c → H (lose_connection c)
  unfolding lose_connection
  lose_connection-kept c v =
      if-holds H (is_live c.status) (show_connection_status_message-kept _ c v) v

  pub on_close-kept : (c : Video) → H c → H (on_close c)
  unfolding on_close
  on_close-kept c v =
      if-holds H c.mounted
        (reset_webrtc_transport-kept true _
          (lose_connection-kept (record c { is_connected = false }) v))
        v

  pub take_token-kept : (token : Option Text) (c : Video) → H c → H (take_token token c)
  unfolding take_token
  take_token-kept token c v = elim-holds H (present token) v (λ t. v)

  pub close_go_web_socket-closed : (c : Video) → (close_go_web_socket c).webrtc_ws ≡ none
  unfolding close_go_web_socket clear_go_ws_connect_timeout
  close_go_web_socket-closed c = ground arith

  pub open_go_web_socket-kept :
      (session : Text) (token : Option Text) (c : Video)
      → H c
      → c.webrtc_ws ≡ none
      → H (open_go_web_socket session token c)
  unfolding open_go_web_socket set_timer
  open_go_web_socket-kept session token c v e = keeps.begun _ _ _ _ _ _ _ e v

  abbrev begun : Text → Video → Video
  begun session c = record c {
    go_ws_reconnect_exhausted = false;
    session_id = some session;
    session_id_ref = some session;
  }

  pub start_session-kept :
      (session : Text) (token : Option Text) (c : Video) → H c → H (start_session session token c)
  unfolding start_session
  start_session-kept session token c v =
      let w = close_go_web_socket-kept _ (take_token-kept token (begun session c) v) in
      let s = close_go_web_socket (take_token token (begun session c)) in
      if-holds H (not (can_open_go_web_socket s)) {x = s} w (
        open_go_web_socket-kept session token s w
          (close_go_web_socket-closed (take_token token (begun session c))))

  pub on_session-kept :
      (session token : Option Text) (c : Video) → H c → H (on_session session token c)
  unfolding on_session
  on_session-kept session token c v =
      elim-holds H (present session) v
        (λ s. if-holds H (text_is c.session_id_ref s) v (start_session-kept s token c v))

  pub reconnect_socket-kept :
      (session : Text) (token : Option Text) (c : Video)
      → H c
      → H (reconnect_socket session token c)
  unfolding reconnect_socket reopen_session
  reconnect_socket-kept session token c v = if-holds H (not c.mounted) v (
      if-holds H (not (text_is c.session_id_ref session)) v (
        if-holds H (not (can_open_go_web_socket c)) v (
          on_session-kept (some session) token _
            (close_go_web_socket-kept (record c { go_ws_reconnect_timeout = none }) v))))
