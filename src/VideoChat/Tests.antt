-- ===== src/VideoChat/Tests.antt =====
-- Runs and instances for frontend/client/src/hooks/useVideoChat.tsx.
use pairline.Base.{
  lit, text_eq, List, [], ◌∷◌, none, some, true, ◌≡◌, refl, ℕ, zero, suc, ◌≤◌, length, not, arith,
}
use pairline.Message.{Message, MessageType, error_message, ChatMessage}
use pairline.NetworkHealth.{ok, initial}
use pairline.IceServers.{all}
use pairline.VideoChat.{
  report_api_error, set_api, Socket, watches_turn, new, confirm_api, Video, set_timer, push_message,
  show_video_signaling_unavailable,
}
use pairline.VideoChat.Turn.{Config, fetch_turn_servers, is_current}
use pairline.VideoChat.Events.{Event, run, step, handle, run_effects}
use pairline.VideoChat.Wiring.{IsWired, run-IsWired}
use pairline.VideoChat.Strikes.{errors, status_after, errors_lem, errors-confirm_api}
use pairline.VideoChat.Transport.{
  start_session, take_token, open_go_web_socket, close_go_web_socket,
}
use pairline.VideoChat.GoSocket.{on_session, unavailable_text}
use pairline.VideoChat.Handlers.{handle_message, on_type}
use pairline.VideoChat.Refusals.{refuse_all, HasGivenUp, refuse_all-HasGivenUp}
use pairline.VideoChat.Refusals.Reopening.{IsTrying}
use pairline.Chat.{system_message}
use pairline.VideoChat.Capacity.{run-length, notice_exceeds_cap}
use pairline.VideoChat.Signals.{
  ready, offer_created, answer_created, on_ice_candidate, restart_offer_created,
  start_negotiation_if_needed,
}
use pairline.VideoChat.Addressing.{IsChecked, signals_current}
use pairline.VideoChat.Caller.{one_caller}
use pairline.VideoChat.TurnFetch.{turn_fetch_sticks}

abbrev config : Config
config = record {
  turn_enabled = true;
  turn_mode = lit "auto";
  transport_filter = all;
  shuffle = λ urls. urls;
}

abbrev session : Message
session = record {
  kind = MessageType.connected;
  body = record ((error_message none).body) {
    session_id = some (lit "s1");
    session_token = some (lit "t1");
  };
}

abbrev matched : Message
matched = record {
  kind = MessageType.match;
  body = record ((error_message none).body) { peer_id = some (lit "p1") };
}

abbrev socket : Socket
socket = record { id = 0; session_id = lit "s1"; session_token = lit "t1" }

abbrev story : List Event
story =
    Event.signals none session
    ∷ Event.socket_opens socket
    ∷ Event.signals none matched
    ∷ Event.socket_closes socket 1006
    ∷ []

run-IsWired_example : IsWired (run config story (new (lit "ws")))
run-IsWired_example = run-IsWired config story (lit "ws")

errors_lem_example :
    ((errors 5 (new (lit "ws"))).api_retry_count ≡ 5)
    × ((errors 5 (new (lit "ws"))).health.api_status ≡ status_after 5 ok)
unfolding new initial
errors_lem_example = errors_lem 5 (new (lit "ws")) refl

errors-confirm_api_test :
    ((confirm_api true watches_turn (errors 3 (new (lit "ws")))).health.api_status ≡ ok)
    × ((confirm_api true watches_turn (errors 3 (new (lit "ws")))).api_retry_count ≡ 0)
unfolding new initial errors report_api_error set_api
errors-confirm_api_test = errors-confirm_api 2 (new (lit "ws")) true watches_turn refl refl

turn_fetch_sticks_example :
    ((fetch_turn_servers config (new (lit "ws"))).fetches ≡ [])
    × (fetch_turn_servers config (record (fetch_turn_servers config (new (lit "ws"))) {
      session_id_ref = some (lit "s1");
      session_token_ref = some (lit "t1");
    })
        ≡ record (fetch_turn_servers config (new (lit "ws"))) {
          session_id_ref = some (lit "s1");
          session_token_ref = some (lit "t1");
        })
unfolding new
turn_fetch_sticks_example =
    turn_fetch_sticks config (new (lit "ws")) (lit "s1") (lit "t1") refl refl refl

-- The chat in its session, and what four refusals leave of it.
abbrev in_session : Video
in_session = run config (Event.signals none session ∷ []) (new (lit "ws"))

refuse_all-HasGivenUp_example :
    IsTrying 3 (lit "s1") 4 (refuse_all 3 in_session) × HasGivenUp 4 (refuse_all 4 in_session)
unfolding new run step handle run_effects handle_message on_type on_session start_session take_token
    open_go_web_socket close_go_web_socket set_timer error_message text_eq
refuse_all-HasGivenUp_example =
    refuse_all-HasGivenUp 115 (49 ∷ []) 1 in_session (refl, refl, refl, refl, refl, (_, refl, refl))

run-length_example : length (run config story (new (lit "ws"))).messages ≤ 202
run-length_example = run-length config story (lit "ws")

abbrev copies : ℕ → ChatMessage → List ChatMessage
copies zero m = []
copies (suc n) m = m ∷ copies n m

abbrev greeted : ChatMessage
greeted = system_message 7 0 (lit "hi") none

abbrev full_chat : Video
full_chat = record (new (lit "ws")) { messages = copies 200 greeted }

notice_exceeds_cap_example :
    (length (show_video_signaling_unavailable unavailable_text full_chat).messages ≡ 201)
    × (length (push_message (λ id. greeted) full_chat).messages ≡ 200)
unfolding text_eq
notice_exceeds_cap_example = notice_exceeds_cap unavailable_text (λ id. greeted) full_chat refl refl

-- Matched, with the connection 9.
abbrev negotiating : Video
negotiating =
    record (run config (Event.signals none session ∷ Event.signals none matched ∷ [])
      (new (lit "ws"))) { peer_connection = some 9 }

signals_current_example :
    IsChecked
      (is_current 9 (lit "p1") 1 negotiating)
      (lit "p1")
      negotiating
      (offer_created ready (lit "sdp") (lit "p1") 1 9 negotiating)
    × IsChecked
        (is_current 9 (lit "p1") 1 negotiating)
        (lit "p1")
        negotiating
        (answer_created ready (lit "sdp") (lit "p1") 1 9 negotiating)
    × IsChecked
        (is_current 9 (lit "p1") 1 negotiating)
        (lit "p1")
        negotiating
        (on_ice_candidate ready (lit "sdp") 9 (lit "p1") 1 negotiating)
    × IsChecked
        (is_current 9 (lit "p1") 1 negotiating)
        (lit "p1")
        negotiating
        (restart_offer_created ready (lit "sdp") 9 (lit "p1") 1 negotiating)
signals_current_example = signals_current ready (lit "sdp") (lit "p1") 9 1 negotiating

-- The two sides of a match.
abbrev first_client : Video
first_client = record (new (lit "ws")) {
  session_id_ref = some (lit "s1");
  peer_id_ref = some (lit "p1");
}

abbrev second_client : Video
second_client = record (new (lit "ws")) {
  session_id_ref = some (lit "p1");
  peer_id_ref = some (lit "s1");
}

one_caller_example :
    (start_negotiation_if_needed (lit "s1") second_client).negotiation_started
    ≡ not (start_negotiation_if_needed (lit "p1") first_client).negotiation_started
unfolding new
one_caller_example =
    one_caller 115 112 (49 ∷ []) (49 ∷ []) first_client second_client (λ e. ground arith)
      (refl, refl, refl) (refl, refl, refl)
