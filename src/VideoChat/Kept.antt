-- ===== src/VideoChat/Kept.antt =====
-- Every event of frontend/client/src/hooks/useVideoChat.tsx keeps what `Keeps` asks for.
mod State
mod Messages
mod Sockets
mod Operations
use pairline.Base.{
  ℕ, ◌+◌, ◌==◌, leb, ltb, any, keep, Text, lit, trim, truthy, List, [], ◌∷◌, Option, none, some,
  Bool, true, false, not, ◌&&◌, ◌||◌, is_some, if◌then◌else◌, if-holds, if-holds_cases, elim-holds,
  ◌≡◌, refl, arith,
}
use pairline.Message.{Message, MessageType, skip, disconnect, start}
use pairline.IceServers.{RtcIceServer}
use pairline.WebSocket.Sending.{send}
use pairline.Chat.{present, text_is, is_connected_status, Verdict}
use pairline.TextChat.{is_false, Flight}
use pairline.TextChat.Actions.{is_live}
use pairline.TextChat.Events.{is_flight}
use pairline.VideoChat.{
  Video, without_timer, is_socket, says, Socket, Signal, SignalKind, Fetch, Job, ends_typing,
  confirms_api, gives_up_connecting, retries, new, set_timer, set_api,
  show_video_signaling_unavailable, report_api_success, report_api_error, push_message,
  push_system_message, show_connection_status_message, confirm_api, begin_new_chat_epoch,
}
use pairline.VideoChat.Transport.{
  close_go_web_socket, clear_go_ws_connect_timeout, reset_webrtc_transport, start_session,
  take_token, open_go_web_socket, cleanup, clear_timers, can_open_go_web_socket,
}
use pairline.VideoChat.Turn.{
  Config, TurnAnswer, refused, type_error, other_error, malformed_body, servers, fetch_turn_servers,
  fetch_answered, prefetched, apply_turn_servers, fetch_and_apply_turn, turn_applied, is_current,
  has_turn_server,
}
use pairline.VideoChat.Signals.{
  ReadyState, connecting, ready, closing, Connection, ConnectionState, under_way, put_signal,
  should_ignore_incoming_signal, maybe_send_webrtc_ready, start_negotiation_if_needed, send_webrtc,
  create_peer_connection, negotiation_prefetched, tracks_attached, offer_created,
  negotiation_failed, on_ice_candidate, on_connection_state_change, restart_offer_created, on_track,
  answer_created, on_ice, flush_ice_candidate,
}
use pairline.VideoChat.GoSocket.{
  on_session, timed_out_text, unavailable_text, connect_timed_out, start_pending, on_socket_open,
  schedule_reconnect, socket_lost, give_up_socket, socket_rejected, on_socket_close,
  reconnect_socket,
}
use pairline.VideoChat.Handlers.{
  on_type, handle_message, on_match, enter_match, prepare_video, clear_typing, on_webrtc_ready,
  on_webrtc_start, on_peer_message, on_system, on_typing, on_error, end_chat, on_disconnected,
  on_timeout, on_banned, on_stopped, typing_ended,
}
use pairline.VideoChat.Actions.{
  on_close, lose_connection, set_up, set_up_failed, on_reconnecting, on_max_retries, on_open,
  unmount, start_search, stop_search, search_failed, stream_ready, send_start, search_connected,
  skip_peer, leave, send_message, apply_verdict, land, send_typing,
}
use pairline.VideoChat.Offers.{
  SignalingState, is_stable, is_local_offer, on_offer, rolled_back, rollback_failed,
  offer_prefetched,
}
use pairline.VideoChat.Events.{Event, handle, step, run, run_effects, find_job, run_job, fire}
use pairline.VideoChat.Kept.State.{
  close_go_web_socket-kept, reset_webrtc_transport-kept, show_connection_status_message-kept,
  lose_connection-kept, on_close-kept, take_token-kept, close_go_web_socket-closed,
  open_go_web_socket-kept, start_session-kept, on_session-kept, reconnect_socket-kept,
}
use pairline.VideoChat.Kept.Messages.{
  enter_match-kept, maybe_send_webrtc_ready-kept, fetch_turn_servers-kept,
  show_video_signaling_unavailable-kept, on_webrtc_ready-kept, prepare_video-kept, on_match-kept,
  start_negotiation_if_needed-kept, on_webrtc_start-kept, end_chat-kept, on_type-kept,
}
use pairline.VideoChat.Kept.Sockets.{
  start_pending-kept, is_socket-is_some, on_socket_open-kept, schedule_reconnect-kept,
  report_api_error-kept, socket_lost-kept, socket_rejected-kept, on_socket_close-kept, run_job-kept,
  fire-kept,
}
use pairline.VideoChat.Kept.Operations.{
  cleanup-kept, skip_peer-kept, leave-kept, land-kept, prefetched-kept, fetch_answered-kept,
  turn_applied-kept, put_signal-kept, send_webrtc-kept, on_offer-kept, on_ice-kept,
  on_connection_state_change-kept, flush_ice_candidate-kept,
}
use pairline.VideoChat.Keeping.{Part, Holds, IsNotice, Keeps}

module _ (Q : Part) (keeps : Keeps Q) where
  abbrev H : Video → Type 0
  H = Holds Q

  handle-kept : (config : Config) (e : Event) (c : Video) → H c → H (handle config e c)
  unfolding handle handle_message set_up set_up_failed on_reconnecting on_max_retries on_open
      unmount set_api start_search stop_search begin_new_chat_epoch search_failed stream_ready
      send_start search_connected send_message push_message send_typing fetch_and_apply_turn
      negotiation_prefetched offer_prefetched create_peer_connection tracks_attached offer_created
      answer_created negotiation_failed on_ice_candidate restart_offer_created on_track rolled_back
      rollback_failed
  handle-kept config Event.sets_up c v = if-holds H c.mounted v v
  handle-kept config Event.fails_to_set_up c v =
      if-holds H c.mounted (show_connection_status_message-kept Q keeps _ _ v) v
  handle-kept config Event.closes c v = on_close-kept Q keeps c v
  handle-kept config Event.unmounts c v = cleanup-kept Q keeps _ v
  handle-kept config (Event.receives json m) c v =
      if-holds H c.mounted (on_type-kept Q keeps config m.kind json m c v) v
  handle-kept config (Event.signals json m) c v = on_type-kept Q keeps config m.kind json m c v
  handle-kept config (Event.socket_opens ws) c v = on_socket_open-kept Q keeps ws c v
  handle-kept config (Event.socket_closes ws code) c v = on_socket_close-kept Q keeps ws code c v
  handle-kept config (Event.timer_fires t b) c v = fire-kept Q keeps t b c v
  handle-kept config Event.starts c v = keeps.cleared _ _ _ _ _ (keeps.unready _ _ _ _ _ v)
  handle-kept config Event.stops c v =
      reset_webrtc_transport-kept Q keeps true _ (keeps.cleared _ _ _ _ _ v)
  handle-kept config Event.skips c v = skip_peer-kept Q keeps c v
  handle-kept config Event.leaves c v = leave-kept Q keeps c v
  handle-kept config (Event.sends_start interests token) c v =
      elim-holds H (send (start token (lit "video") (trim interests)) c.client) v (λ k. v)
  handle-kept config (Event.connects_for_start interests token) c v =
      elim-holds H (send (start token (lit "video") (trim interests)) c.client) v (λ k. v)
  handle-kept config (Event.writes text) c v =
      if-holds H (truthy (trim text) && is_connected_status c.status) (keeps.pushed _ _ _ _ _ _ v) v
  handle-kept config (Event.settles f w) c v =
      if-holds H (is_flight f c.flights) (land-kept Q keeps f w c v) v
  handle-kept config (Event.types b) c v = if-holds H (is_connected_status c.status) v v
  handle-kept config Event.fetches_turn c v = fetch_turn_servers-kept Q keeps config c v
  handle-kept config (Event.answers_fetch f answer) c v =
      prefetched-kept Q keeps _ _ (fetch_answered-kept Q keeps config f answer c v)
  handle-kept config (Event.upgrades pc target epoch) c v =
      if-holds H (not (is_current pc target epoch c)) v (
        if-holds H c.turn_fetched v
          (fetch_turn_servers-kept Q keeps config (record c { turn_fetched = true }) v))
  handle-kept config (Event.applies_turn throws pc target epoch r) c v =
      turn_applied-kept Q keeps throws pc target epoch r c v
  handle-kept config (Event.prefetches_offer target epoch) c v =
      if-holds H (not (c.chat_epoch == epoch) || not (text_is c.peer_id_ref target)) v v
  handle-kept config (Event.prefetches_answer target epoch) c v =
      if-holds H (not (c.chat_epoch == epoch) || not (text_is c.peer_id_ref target)) v v
  handle-kept config (Event.attaches target epoch pc) c v =
      if-holds H (not (is_current pc target epoch c)) v v
  handle-kept config (Event.offers r sdp target epoch pc) c v =
      if-holds H (not (is_current pc target epoch c)) v
        (send_webrtc-kept Q keeps r SignalKind.offer sdp target c v)
  handle-kept config (Event.answers r sdp target epoch pc) c v =
      if-holds H (not (is_current pc target epoch c)) v
        (send_webrtc-kept Q keeps r SignalKind.answer sdp target c v)
  handle-kept config (Event.finds_candidate r candidate pc target epoch) c v =
      if-holds H (not (is_current pc target epoch c)) v
        (send_webrtc-kept Q keeps r SignalKind.ice candidate target c v)
  handle-kept config (Event.restarts_offer r sdp pc target epoch) c v =
      if-holds H (not (is_current pc target epoch c)) v (
        send_webrtc-kept Q keeps r SignalKind.offer sdp target
          (record c { ice_restart_pending = false }) v)
  handle-kept config (Event.changes_state state pc target epoch) c v =
      on_connection_state_change-kept Q keeps state pc target epoch c v
  handle-kept config (Event.gets_offer closed state peer) c v =
      on_offer-kept Q keeps closed state peer c v
  handle-kept config Event.fails_to_roll_back c v = reset_webrtc_transport-kept Q keeps true c v
  handle-kept config (Event.gets_candidate k peer candidate) c v =
      on_ice-kept Q keeps k peer candidate c v
  handle-kept config (Event.flushes pc k) c v = flush_ice_candidate-kept Q keeps pc k c v
  handle-kept config (Event.gets_track pc target epoch) c v =
      if-holds H (not (is_current pc target epoch c)) v v
  handle-kept config Event.reconnects c v = if-holds H c.mounted v v
  handle-kept config Event.gives_up c v = if-holds H c.mounted v v
  handle-kept config Event.opens c v = if-holds H c.mounted v v
  handle-kept config _ c v = v

  pub run-kept : (config : Config) (es : List Event) (c : Video) → H c → H (run config es c)
  unfolding run step run_effects
  run-kept config [] c v = v
  run-kept config (e ∷ es) c v = run-kept config es (step config e c) (handle-kept config e c v)
