-- ===== src/VideoChat/Kept/Messages.antt =====
-- frontend/client/src/hooks/useVideoChat.tsx: the messages of the server keep what `Keeps` asks for.
use pairline.Base.{
  any, Text, Option, none, some, Bool, true, false, not, ◌&&◌, ◌||◌, lit, includes, if◌then◌else◌,
  is_some, if-holds, if-holds_cases, elim-holds, inl, refl, arith,
}
use pairline.Message.{Message, MessageType, webrtc_ready}
use pairline.WebSocket.Sending.{send}
use pairline.Chat.{present, text_is, error_text, data_field, idle}
use pairline.TextChat.{is_false}
use pairline.VideoChat.{
  Video, says, set_timer, show_video_signaling_unavailable, push_message, push_system_message,
  begin_new_chat_epoch,
}
use pairline.VideoChat.Transport.{can_open_go_web_socket}
use pairline.VideoChat.Turn.{Config, fetch_turn_servers}
use pairline.VideoChat.Signals.{
  should_ignore_incoming_signal, maybe_send_webrtc_ready, start_negotiation_if_needed,
  is_caller_session,
}
use pairline.VideoChat.GoSocket.{unavailable_text}
use pairline.VideoChat.Handlers.{
  on_type, on_match, enter_match, prepare_video, clear_typing, on_webrtc_ready, on_webrtc_start,
  on_peer_message, on_system, on_typing, on_error, end_chat, on_disconnected, on_timeout, on_banned,
  on_stopped,
}
use pairline.VideoChat.Kept.State.{reset_webrtc_transport-kept, on_session-kept}
use pairline.VideoChat.Keeping.{Part, Holds, IsNotice, Keeps}

module _ (Q : Part) (keeps : Keeps Q) where
  abbrev H : Video → Type 0
  H = Holds Q

  pub enter_match-kept : (b : Bool) (m : Message) (c : Video) → H c → H (enter_match b m c)
  unfolding enter_match begin_new_chat_epoch clear_typing
  enter_match-kept b m c v = keeps.greeted _ _ _ _ _ _ _ _ _ (keeps.unready _ _ _ _ _ v)

  pub maybe_send_webrtc_ready-kept :
      (peer : Option Text) (c : Video) → H c → H (maybe_send_webrtc_ready peer c)
  unfolding maybe_send_webrtc_ready
  maybe_send_webrtc_ready-kept peer c v =
      if-holds_cases H
        (not (is_some (present peer))
          || not (is_some (present c.session_id_ref))
          || not (is_some c.webrtc_ws)
          || not c.webrtc_socket_open
          || c.signaling_ready_sent)
        (λ e. v)
        (λ e.
          elim-holds H (send webrtc_ready c.client) (keeps.unready _ _ _ _ _ v)
            (λ client. keeps.readied _ _ _ _ _ (ground arith) v))

  pub fetch_turn_servers-kept :
      (config : Config) (c : Video) → H c → H (fetch_turn_servers config c)
  unfolding fetch_turn_servers
  fetch_turn_servers-kept config c v = if-holds H (not config.turn_enabled) v (
      if-holds H (is_some c.turn_fetch_promise) v (
        elim-holds H (present c.session_id_ref) v
          (λ s. elim-holds H (present c.session_token_ref) v (λ t. v))))

  pub show_video_signaling_unavailable-kept :
      (text : Text) (c : Video) → IsNotice text → H c → H (show_video_signaling_unavailable text c)
  unfolding show_video_signaling_unavailable
  show_video_signaling_unavailable-kept text c n v =
      if-holds_cases H (any (says text) c.messages) (λ e. v)
        (λ e. keeps.noticed _ _ _ _ _ _ _ _ n e v)

  pub on_webrtc_ready-kept : (config : Config) (c : Video) → H c → H (on_webrtc_ready config c)
  unfolding on_webrtc_ready
  on_webrtc_ready-kept config c v =
      if-holds H (config.turn_enabled && not c.turn_fetched) (fetch_turn_servers-kept config c v) v

  pub prepare_video-kept :
      (config : Config) (peer : Option Text) (c : Video) → H c → H (prepare_video config peer c)
  unfolding prepare_video on_webrtc_ready
  prepare_video-kept config peer c v =
      if-holds H c.webrtc_socket_open
        (maybe_send_webrtc_ready-kept peer (on_webrtc_ready config c)
          (on_webrtc_ready-kept config c v))
        (if-holds H
          (not (is_some c.webrtc_ws)
            && is_some (present c.session_id_ref)
            && can_open_go_web_socket c)
          (on_session-kept Q keeps c.session_id_ref (present c.session_token_ref)
            (record c { session_id_ref = none }) v)
          (if-holds H (not (can_open_go_web_socket c))
            (show_video_signaling_unavailable-kept unavailable_text c (inl refl) v) v))

  pub on_match-kept : (config : Config) (m : Message) (c : Video) → H c → H (on_match config m c)
  unfolding on_match
  on_match-kept config m c v =
      let b = not (is_false m.body.video_enabled) in
      let w = enter_match-kept b m c v in
      if-holds H (not b) (reset_webrtc_transport-kept Q keeps false (enter_match b m c) w)
        (prepare_video-kept config (present m.body.peer_id) (enter_match b m c) w)

  pub start_negotiation_if_needed-kept :
      (target : Text) (c : Video) → H c → H (start_negotiation_if_needed target c)
  unfolding start_negotiation_if_needed
  start_negotiation_if_needed-kept target c v = elim-holds H (present c.session_id_ref) v (λ s.
      if-holds H c.negotiation_started v (
        if-holds H (not (text_is c.peer_id_ref target)) v
          (if-holds H (not (is_caller_session s target)) v v)))

  pub on_webrtc_start-kept : (peer : Option Text) (c : Video) → H c → H (on_webrtc_start peer c)
  unfolding on_webrtc_start
  on_webrtc_start-kept peer c v = elim-holds H (present peer) v (λ t.
      if-holds H (should_ignore_incoming_signal (some t) c) v
        (if-holds H c.webrtc_socket_open (start_negotiation_if_needed-kept t c v) v))

  pub end_chat-kept : (notice : Text) (c : Video) → H c → H (end_chat notice c)
  unfolding end_chat push_system_message push_message begin_new_chat_epoch
  end_chat-kept notice c v = reset_webrtc_transport-kept Q keeps true _ (keeps.pushed _ _ _ _ _ _ v)

  on_error-kept : (json : Option Text) (m : Message) (c : Video) → H c → H (on_error json m c)
  unfolding on_error push_message push_system_message
  on_error-kept json m c v =
      let text = error_text json m in
      let s : Video = if includes (lit "CAPTCHA") text then record c { status = idle } else c in
      let w : H s = if-holds H (includes (lit "CAPTCHA") text) v v in
      if-holds H (includes (lit "No partner") text || includes (lit "No partner to skip") text)
        {x = s} w (keeps.pushed _ _ _ _ _ _ w)

  pub on_type-kept :
      (config : Config) (k : MessageType) (json : Option Text) (m : Message) (c : Video)
      → H c
      → H (on_type config k json m c)
  unfolding on_type on_peer_message on_system on_typing on_error on_disconnected on_banned
      on_timeout on_stopped clear_typing set_timer push_message push_system_message
      begin_new_chat_epoch
  on_type-kept config MessageType.match json m c v = on_match-kept config m c v
  on_type-kept config MessageType.searching json m c v =
      on_session-kept Q keeps m.body.session_id m.body.session_token c v
  on_type-kept config MessageType.connected json m c v =
      on_session-kept Q keeps m.body.session_id m.body.session_token c v
  on_type-kept config MessageType.webrtc_ready json m c v = on_webrtc_ready-kept config c v
  on_type-kept config MessageType.webrtc_start json m c v = on_webrtc_start-kept m.body.peer_id c v
  on_type-kept config MessageType.disconnect json m c v =
      end_chat-kept _ (record c { peer_id = none }) v
  on_type-kept config MessageType.disconnected json m c v =
      end_chat-kept _ (record c { peer_id = none }) v
  on_type-kept config MessageType.timeout json m c v =
      end_chat-kept _ (record c { peer_id = none }) v
  on_type-kept config MessageType.banned json m c v = end_chat-kept _ c v
  on_type-kept config MessageType.stopped json m c v =
      reset_webrtc_transport-kept Q keeps true _ (keeps.cleared _ _ _ _ _ v)
  on_type-kept config MessageType.message json m c v =
      elim-holds H (present (data_field (λ d. d.content) m)) v (λ t. keeps.pushed _ _ _ _ _ _ v)
  on_type-kept config MessageType.system json m c v =
      elim-holds H (present (data_field (λ d. d.message) m)) v (λ t. keeps.pushed _ _ _ _ _ _ v)
  on_type-kept config MessageType.typing json m c v =
      elim-holds H (data_field (λ d. d.typing) m) v (λ b. if-holds H b v v)
  on_type-kept config MessageType.error json m c v = on_error-kept json m c v
  on_type-kept config _ json m c v = v
