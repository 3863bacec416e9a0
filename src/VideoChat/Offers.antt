-- ===== src/VideoChat/Offers.antt =====
-- frontend/client/src/hooks/useVideoChat.tsx: the cases `offer` and `answer` of `handleMessage`, one
-- definition for each stretch between two `await`s. The states of the peer connection are arguments.
use pairline.Base.{
  ℕ, Text, Option, none, some, Bool, true, false, not, ◌==◌, ◌||◌, ◌&&◌, is_some, if◌then◌else◌,
}
use pairline.Chat.{present, text_is}
use pairline.VideoChat.{Video}
use pairline.VideoChat.Transport.{reset_webrtc_transport}
use pairline.VideoChat.Signals.{should_ignore_incoming_signal, create_peer_connection}

-- `signalingState`.
pub data SignalingState : Type 0 where
  stable have_local_offer unsettled : SignalingState

abbrev pub is_stable : SignalingState → Bool
is_stable stable = true
is_stable _ = false

abbrev pub is_local_offer : SignalingState → Bool
is_local_offer have_local_offer = true
is_local_offer _ = false

-- An offer up to the first `await`. A pending offer of this side is rolled back, which waits; any
-- other connection that cannot take the offer is reset.
unfoldable pub on_offer : Bool → SignalingState → Option Text → Video → Video
on_offer is_closed state peer c =
    if should_ignore_incoming_signal peer c then c else elim c.peer_connection [
      | none ↦ c
      | some pc ↦
          if not is_closed && is_local_offer state
          then c
          else if is_closed || not (is_stable state)
          then reset_webrtc_transport true c
          else c
    ]

unfoldable pub rolled_back : Video → Video
rolled_back c = record c { ice_restart_pending = false }

unfoldable pub rollback_failed : Video → Video
rollback_failed c = reset_webrtc_transport true c

-- Behind `waitForInitialTurnPrefetch`, when there is no connection for the answer.
unfoldable pub offer_prefetched : Text → ℕ → Video → Video
offer_prefetched target epoch c =
    if not (c.chat_epoch == epoch) || not (text_is c.peer_id_ref target)
    then c
    else create_peer_connection c

-- Whether an answer is handed to the peer connection; the browser does the rest.
unfoldable pub takes_answer : SignalingState → Option Text → Video → Bool
takes_answer state peer c =
    not (is_some (present peer) && should_ignore_incoming_signal peer c)
    && is_some c.peer_connection
    && is_local_offer state
