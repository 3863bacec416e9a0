-- ===== src/VideoChat/Signals.antt =====
-- frontend/client/src/hooks/useVideoChat.tsx: the signals to and from the Go server, and the
-- negotiation. A function that waits is one definition for each stretch between two `await`s; the
-- browser's states are arguments.
use pairline.Base.{
  ℕ, ◌+◌, Text, text_eq, text_gt, [], ◌∷◌, ◌++◌, Option, none, some, Bool, true, false, not, ◌==◌,
  ◌||◌, ◌&&◌, is_some, if◌then◌else◌,
}
use pairline.Message.{webrtc_ready}
use pairline.WebSocket.Sending.{send}
use pairline.Chat.{present, text_is}
use pairline.VideoChat.{Video, Signal, SignalKind, offer, answer, ice}
use pairline.VideoChat.Turn.{is_current}

unfoldable pub is_caller_session : Text → Text → Bool
is_caller_session session_id peer_id = text_gt session_id peer_id

unfoldable pub should_ignore_incoming_signal : Option Text → Video → Bool
should_ignore_incoming_signal incoming c = elim (present incoming) [
  | none ↦ true
  | some peer ↦ elim (present c.peer_id_ref) [
    | none ↦ true
    | some active ↦ not (text_eq peer active)
  ]
]

-- `readyState` of the socket.
pub data ReadyState : Type 0 where
  connecting ready closing : ReadyState

abbrev pub put_signal : ReadyState → Signal → Video → Video
put_signal connecting signal c = record c { webrtc_ws_queue = c.webrtc_ws_queue ++ signal ∷ [] }
put_signal ready signal c = record c { sent = c.sent ++ signal ∷ [] }
put_signal closing signal c = c

unfoldable pub send_webrtc : ReadyState → SignalKind → Text → Text → Video → Video
send_webrtc state kind payload target c = elim (present c.session_id_ref) [
  | none ↦ c
  | some session ↦
      if not (is_some (present (some target))) || not (is_some c.webrtc_ws)
      then c
      else if not (text_is c.peer_id_ref target)
      then c
      else put_signal state
          (record {
            kind = kind;
            from_session_id = session;
            to_session_id = target;
            payload = payload;
          })
          c
]

unfoldable pub maybe_send_webrtc_ready : Option Text → Video → Video
maybe_send_webrtc_ready target c =
    if not (is_some (present target))
      || not (is_some (present c.session_id_ref))
      || not (is_some c.webrtc_ws)
      || not c.webrtc_socket_open
      || c.signaling_ready_sent
    then c
    else elim (send webrtc_ready c.client) [
      | none ↦ record c { signaling_ready_sent = false }
      | some client ↦ record c { signaling_ready_sent = true; client = client }
    ]

-- `startNegotiationIfNeeded` up to its first `await`.
unfoldable pub start_negotiation_if_needed : Text → Video → Video
start_negotiation_if_needed target c = elim (present c.session_id_ref) [
  | none ↦ c
  | some session ↦
      if c.negotiation_started
      then c
      else if not (text_is c.peer_id_ref target)
      then c
      else if not (is_caller_session session target)
      then c
      else record c { negotiation_started = true }
]

unfoldable pub create_peer_connection : Video → Video
create_peer_connection c = record c { peer_connection = some c.next; next = c.next + 1 }

-- Behind `waitForInitialTurnPrefetch`, when there was no peer connection.
unfoldable pub negotiation_prefetched : Text → ℕ → Video → Video
negotiation_prefetched target epoch c =
    if not (c.chat_epoch == epoch) || not (text_is c.peer_id_ref target)
    then record c { negotiation_started = false }
    else create_peer_connection c

-- Behind `attachLocalTracks`.
unfoldable pub tracks_attached : Text → ℕ → ℕ → Video → Video
tracks_attached target epoch pc c =
    if not (is_current pc target epoch c) then record c { negotiation_started = false } else c

-- Behind `setLocalDescription`.
unfoldable pub offer_created : ReadyState → Text → Text → ℕ → ℕ → Video → Video
offer_created state sdp target epoch pc c =
    if not (is_current pc target epoch c)
    then record c { negotiation_started = false }
    else send_webrtc state offer sdp target c

unfoldable pub negotiation_failed : Video → Video
negotiation_failed c = record c { negotiation_started = false }

-- The handlers of the peer connection; they captured its number, the peer and the epoch.
unfoldable pub on_ice_candidate : ReadyState → Text → ℕ → Text → ℕ → Video → Video
on_ice_candidate state candidate pc target epoch c =
    if not (is_current pc target epoch c) then c else send_webrtc state ice candidate target c

pub data ConnectionState : Type 0 where
  fresh under_way connected closed other : ConnectionState

unfoldable pub on_connection_state_change : ConnectionState → ℕ → Text → ℕ → Video → Video
on_connection_state_change state pc target epoch c =
    if not (is_current pc target epoch c) then c else elim state [
      | fresh ↦ c
      | under_way ↦ record c { is_video_connecting = true }
      | connected ↦ record c { is_video_connecting = false }
      | closed ↦ c
      | other ↦ c
    ]

-- `onnegotiationneeded` behind `setLocalDescription`.
unfoldable pub restart_offer_created : ReadyState → Text → ℕ → Text → ℕ → Video → Video
restart_offer_created state sdp pc target epoch c =
    let s = record c { ice_restart_pending = false } in
    if not (is_current pc target epoch c) then s else send_webrtc state offer sdp target s

unfoldable pub on_track : ℕ → Text → ℕ → Video → Video
on_track pc target epoch c =
    if not (is_current pc target epoch c) then c else record c { is_video_connecting = false }

-- An `answer` to a remote offer, behind the last `await` of its case.
unfoldable pub answer_created : ReadyState → Text → Text → ℕ → ℕ → Video → Video
answer_created state sdp target epoch pc c =
    if not (is_current pc target epoch c) then c else send_webrtc state answer sdp target c

-- What the browser tells of a peer connection.
pub record Connection : Type 0 where
  pub is_closed : Bool
  pub has_remote_description : Bool

-- The case `ice`.
unfoldable pub on_ice : Connection → Option Text → Text → Video → Video
on_ice connection peer candidate c =
    if is_some (present peer) && should_ignore_incoming_signal peer c
    then c
    else elim c.peer_connection [
      | none ↦ record c { pending_ice_candidates = c.pending_ice_candidates ++ candidate ∷ [] }
      | some pc ↦
          if connection.is_closed
          then c
          else if connection.has_remote_description
          then record c { candidates = c.candidates ++ (pc, candidate) ∷ [] }
          else record c { pending_ice_candidates = c.pending_ice_candidates ++ candidate ∷ [] }
    ]

-- One turn of the loop of `flushIceCandidates`. Each turn waits for the browser, so that messages
-- may come between two of them.
unfoldable pub flush_ice_candidate : ℕ → Connection → Video → Video
flush_ice_candidate pc connection c =
    if not connection.has_remote_description then c else elim c.pending_ice_candidates [
      | [] ↦ c
      | candidate ∷ pending ↦ record c {
        pending_ice_candidates = pending;
        candidates = c.candidates ++ (pc, candidate) ∷ [];
      }
    ]
