-- ===== src/VideoChat/Kept/Sockets.antt =====
-- frontend/client/src/hooks/useVideoChat.tsx: the events of the socket and of the timers keep what `Keeps` asks for.
use pairline.Base.{
  ℕ, ◌+◌, ◌==◌, leb, ltb, Option, none, some, Bool, true, false, not, ◌&&◌, is_some, if-holds,
  if-holds_cases, elim-holds, ◌||◌, inl, inr, ◌≡◌, refl, arith,
}
use pairline.Chat.{present}
use pairline.VideoChat.{
  is_healthy, Video, without_timer, is_socket, Socket, Job, ends_typing, confirms_api,
  gives_up_connecting, retries, set_timer, set_api, report_api_success, report_api_error,
  confirm_api,
}
use pairline.VideoChat.Transport.{clear_go_ws_connect_timeout}
use pairline.VideoChat.GoSocket.{
  timed_out_text, unavailable_text, connect_timed_out, start_pending, on_socket_open,
  schedule_reconnect, socket_lost, give_up_socket, socket_rejected, on_socket_close,
}
use pairline.VideoChat.Handlers.{typing_ended}
use pairline.VideoChat.Events.{find_job, run_job, fire}
use pairline.VideoChat.Kept.State.{reconnect_socket-kept}
use pairline.VideoChat.Kept.Messages.{
  maybe_send_webrtc_ready-kept, show_video_signaling_unavailable-kept,
  start_negotiation_if_needed-kept,
}
use pairline.VideoChat.Keeping.{Part, Holds, Keeps}

module _ (Q : Part) (keeps : Keeps Q) where
  abbrev H : Video → Type 0
  H = Holds Q

  pub start_pending-kept : (c : Video) → H c → H (start_pending c)
  unfolding start_pending
  start_pending-kept c v =
      elim-holds H (present c.pending_webrtc_start) v (λ t.
        start_negotiation_if_needed-kept Q keeps t (record c { pending_webrtc_start = none }) v)

  pub is_socket-is_some :
      (o : Option Socket) (ws : Socket) → not (is_socket o ws) ≡ false → is_some o ≡ true
  is_socket-is_some none ws e = absurd (ground arith)
  is_socket-is_some (some w) ws e = refl

  pub on_socket_open-kept : (ws : Socket) (c : Video) → H c → H (on_socket_open ws c)
  unfolding on_socket_open clear_go_ws_connect_timeout report_api_success set_timer
  on_socket_open-kept ws c v =
      if-holds_cases H (not (is_socket c.webrtc_ws ws)) (λ e. v)
        (λ e. start_pending-kept _ (
          maybe_send_webrtc_ready-kept Q keeps c.peer_id_ref _
            (keeps.opened _ _ _ _ _ (is_socket-is_some c.webrtc_ws ws e) v)))

  pub schedule_reconnect-kept :
      (ws : Socket) (delay : ℕ) (c : Video) → H c → H (schedule_reconnect ws delay c)
  unfolding schedule_reconnect set_timer
  schedule_reconnect-kept ws delay c v = v

  pub report_api_error-kept : (c : Video) → H c → H (report_api_error c)
  unfolding report_api_error set_api
  report_api_error-kept c v =
      if-holds H (c.api_retry_count + 1 == 1) v (if-holds H (leb 5 (c.api_retry_count + 1)) v v)

  pub socket_lost-kept : (ws : Socket) (c : Video) → H c → H (socket_lost ws c)
  unfolding socket_lost
  socket_lost-kept ws c v =
      let s = report_api_error c in
      let w = report_api_error-kept c v in
      if-holds H (ltb s.api_retry_count 5) (schedule_reconnect-kept ws _ s w) w

  pub socket_rejected-kept : (ws : Socket) (c : Video) → H c → H (socket_rejected ws c)
  unfolding socket_rejected give_up_socket set_api
  socket_rejected-kept ws c v =
      if-holds H (leb (c.server_rejection_count + 1) 3)
        (schedule_reconnect-kept ws _
          (record c { server_rejection_count = c.server_rejection_count + 1 }) v)
        (show_video_signaling_unavailable-kept Q keeps unavailable_text _ (inl refl) v)

  abbrev unwired : Video → Video
  unwired c = record c {
    webrtc_ws = none;
    webrtc_socket_open = false;
    signaling_ready_sent = false;
    timers = without_timer c.go_ws_connect_timeout c.timers;
    go_ws_connect_timeout = none;
  }

  pub on_socket_close-kept :
      (ws : Socket) (code : ℕ) (c : Video) → H c → H (on_socket_close ws code c)
  unfolding on_socket_close clear_go_ws_connect_timeout
  on_socket_close-kept ws code c v =
      let w : H (unwired c) = keeps.closed _ _ _ _ _ v in
      if-holds H (not (is_socket c.webrtc_ws ws)) v (
        if-holds H (not (code == 1008)) (socket_lost-kept ws (unwired c) w)
          (socket_rejected-kept ws (unwired c) w))

  pub run_job-kept : (b : Bool) (j : Job) (c : Video) → H c → H (run_job b j c)
  unfolding run_job typing_ended confirm_api set_api connect_timed_out
  run_job-kept b ends_typing c v = v
  run_job-kept b (confirms_api watch) c v =
      if-holds H (not (is_healthy b watch c)) v
        (if-holds H (ltb 0 c.api_retry_count || ltb 0 c.server_rejection_count) v v)
  run_job-kept b (gives_up_connecting ws) c v =
      if-holds H (is_socket c.webrtc_ws ws && not c.webrtc_socket_open)
        (show_video_signaling_unavailable-kept Q keeps timed_out_text c (inr refl) v) v
  run_job-kept b (retries session token) c v = reconnect_socket-kept Q keeps session token c v

  pub fire-kept : (t : ℕ) (b : Bool) (c : Video) → H c → H (fire t b c)
  unfolding fire
  fire-kept t b c v = elim-holds H (find_job t c.timers) v (λ j. run_job-kept b j _ v)
