-- ===== src/VideoChat/Kept/Operations.antt =====
-- frontend/client/src/hooks/useVideoChat.tsx: the operations of the hook, the TURN servers and the signals keep what `Keeps` asks for.
use pairline.Base.{
  [], ◌∷◌, ◌++◌, ℕ, ◌==◌, keep, Text, List, Option, some, Bool, true, false, not, ◌&&◌, ◌||◌,
  is_some, if-holds, elim-holds,
}
use pairline.Message.{skip, disconnect}
use pairline.IceServers.{RtcIceServer}
use pairline.WebSocket.Sending.{send}
use pairline.Chat.{present, text_is, is_connected_status, Verdict}
use pairline.TextChat.{Flight}
use pairline.VideoChat.{
  Video, Signal, SignalKind, Fetch, set_timer, report_api_success, push_message,
  push_system_message, begin_new_chat_epoch,
}
use pairline.VideoChat.Transport.{clear_go_ws_connect_timeout, cleanup, clear_timers}
use pairline.VideoChat.Turn.{
  Config, TurnAnswer, refused, type_error, other_error, malformed_body, servers, fetch_answered,
  prefetched, apply_turn_servers, turn_applied, is_current, has_turn_server,
}
use pairline.VideoChat.Signals.{
  ReadyState, connecting, ready, closing, Connection, ConnectionState, under_way, put_signal,
  should_ignore_incoming_signal, send_webrtc, on_connection_state_change, on_ice,
  flush_ice_candidate,
}
use pairline.WebSocket.{Client}
use pairline.VideoChat.Actions.{look_further, skip_peer, leave, apply_verdict, land}
use pairline.VideoChat.Offers.{SignalingState, is_stable, is_local_offer, on_offer}
use pairline.VideoChat.Kept.State.{reset_webrtc_transport-kept}
use pairline.VideoChat.Kept.Sockets.{report_api_error-kept}
use pairline.VideoChat.Keeping.{Part, Holds, Keeps}

module _ (Q : Part) (keeps : Keeps Q) where
  abbrev H : Video → Type 0
  H = Holds Q

  pub cleanup-kept : (c : Video) → H c → H (cleanup c)
  unfolding cleanup clear_timers clear_go_ws_connect_timeout begin_new_chat_epoch
  cleanup-kept c v = reset_webrtc_transport-kept Q keeps false _ (keeps.untimed _ _ _ _ _ v)

  look_further-kept : (k : Client) (c : Video) → H c → H (look_further k c)
  unfolding look_further begin_new_chat_epoch
  look_further-kept k c v = reset_webrtc_transport-kept Q keeps true _ (keeps.cleared _ _ _ _ _ v)

  pub skip_peer-kept : (c : Video) → H c → H (skip_peer c)
  unfolding skip_peer
  skip_peer-kept c v =
      if-holds H (is_connected_status c.status)
        (elim-holds H (send skip c.client) v (λ k. look_further-kept k c v)) v

  pub leave-kept : (c : Video) → H c → H (leave c)
  unfolding leave begin_new_chat_epoch push_system_message push_message
  leave-kept c v =
      elim-holds H (send disconnect c.client) v (λ k. cleanup-kept _ (keeps.pushed _ _ _ _ _ _ v))

  apply_verdict-kept : (id : ℕ) (w : Verdict) (c : Video) → H c → H (apply_verdict id w c)
  unfolding apply_verdict push_system_message push_message
  apply_verdict-kept id w c v =
      let u = elim-holds H w.status v (λ s. keeps.marked _ s _ _ _ _ _ v) in
      elim-holds H w.notice u (λ t. keeps.pushed _ _ _ _ _ _ u)

  pub land-kept : (f : Flight) (w : Verdict) (c : Video) → H c → H (land f w c)
  unfolding land
  land-kept f w c v =
      let d : Video = record c {
        flights = keep (λ (g : Flight). not (g.message_id == f.message_id)) c.flights;
      } in
      if-holds H (c.chat_epoch == f.chat_epoch) {y = d} (apply_verdict-kept f.message_id w d v) v

  pub prefetched-kept : (r : Option (List RtcIceServer)) (c : Video) → H c → H (prefetched r c)
  unfolding prefetched apply_turn_servers
  prefetched-kept r c v = elim-holds H r v (λ s. v)

  pub fetch_answered-kept :
      (config : Config) (f : Fetch) (answer : TurnAnswer) (c : Video)
      → H c
      → H (fetch_answered config f answer c).0
  unfolding fetch_answered report_api_success set_timer
  fetch_answered-kept config f refused c v = report_api_error-kept Q keeps _ v
  fetch_answered-kept config f type_error c v = report_api_error-kept Q keeps _ v
  fetch_answered-kept config f other_error c v = v
  fetch_answered-kept config f malformed_body c v = v
  fetch_answered-kept config f (servers mode ice_servers) c v = v

  pub turn_applied-kept :
      (throws : Bool) (pc : ℕ) (target : Text) (epoch : ℕ) (r : Option (List RtcIceServer))
      (c : Video)
      → H c
      → H (turn_applied throws pc target epoch r c)
  unfolding turn_applied
  turn_applied-kept throws pc target epoch r c v =
      let w = prefetched-kept r c v in
      if-holds H (not (is_current pc target epoch (prefetched r c))) w
        (elim-holds H r w (λ l. if-holds H (not (has_turn_server l)) w (if-holds H throws w w)))

  pub put_signal-kept : (r : ReadyState) (s : Signal) (c : Video) → H c → H (put_signal r s c)
  put_signal-kept connecting s c v = v
  put_signal-kept ready s c v = v
  put_signal-kept closing s c v = v

  pub send_webrtc-kept :
      (r : ReadyState) (kind : SignalKind) (payload target : Text) (c : Video)
      → H c
      → H (send_webrtc r kind payload target c)
  unfolding send_webrtc
  send_webrtc-kept r kind payload target c v = elim-holds H (present c.session_id_ref) v (λ s.
      if-holds H (not (is_some (present (some target))) || not (is_some c.webrtc_ws)) v
        (if-holds H (not (text_is c.peer_id_ref target)) v (put_signal-kept r _ c v)))

  pub on_offer-kept :
      (closed : Bool) (state : SignalingState) (peer : Option Text) (c : Video)
      → H c
      → H (on_offer closed state peer c)
  unfolding on_offer
  on_offer-kept closed state peer c v = if-holds H (should_ignore_incoming_signal peer c) v (
      elim-holds H c.peer_connection v (λ pc. if-holds H (not closed && is_local_offer state) v (
        if-holds H (closed || not (is_stable state)) (reset_webrtc_transport-kept Q keeps true c v)
          v)))

  pub on_ice-kept :
      (k : Connection) (peer : Option Text) (candidate : Text) (c : Video)
      → H c
      → H (on_ice k peer candidate c)
  unfolding on_ice
  on_ice-kept k peer candidate c v =
      if-holds H (is_some (present peer) && should_ignore_incoming_signal peer c) v (
        elim-holds H c.peer_connection v
          (λ pc. if-holds H k.is_closed v (if-holds H k.has_remote_description v v)))

  pub on_connection_state_change-kept :
      (state : ConnectionState) (pc : ℕ) (target : Text) (epoch : ℕ) (c : Video)
      → H c
      → H (on_connection_state_change state pc target epoch c)
  unfolding on_connection_state_change
  on_connection_state_change-kept under_way pc target epoch c v =
      if-holds H (not (is_current pc target epoch c)) v v
  on_connection_state_change-kept _ pc target epoch c v =
      if-holds H (not (is_current pc target epoch c)) v v

  pub flush_ice_candidate-kept :
      (pc : ℕ) (k : Connection) (c : Video) → H c → H (flush_ice_candidate pc k c)
  unfolding flush_ice_candidate
  flush_ice_candidate-kept pc k c v =
      if-holds H (not k.has_remote_description) v
        (elim c.pending_ice_candidates
          as (λ xs. H (elim xs [
            | [] ↦ c
            | x ∷ ys ↦ record c {
              pending_ice_candidates = ys;
              candidates = c.candidates ++ (pc, x) ∷ [];
            }
          ])) [ [] ↦ v | x ∷ ys ↦ v ])
