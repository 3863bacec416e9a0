-- ===== src/TextChat/Tests.antt =====
-- Runs and instances for frontend/client/src/hooks/useTextChat.tsx.
use pairline.Base.{
  lit, trim, List, [], ◌∷◌, ◌++◌, map, none, some, true, false, not, ◌&&◌, inl, inr, if◌then◌else◌,
  ◌≡◌, refl,
}
use pairline.Message.{
  Message, MessageType, ChatMessage, Sender, DeliveryStatus, untyped, error_message,
}
use pairline.WebSocket.{closed, joining, joined, Answer}
use pairline.WebSocket.Events
use pairline.Chat.{idle, connected, system_message, verdict, failure}
use pairline.TextChat.{Chat, Flight, new}
use pairline.TextChat.Actions.{settle_flight, on_close, on_open, is_live}
use pairline.TextChat.Events.{Event, step, run, is_flight}
use pairline.TextChat.Invariant.{IsTimed, run-IsTimed}
use pairline.TextChat.Epochs.{old_reply_ignored}
use pairline.TextChat.Replies.{IsNumbered, run-IsNumbered, delivery_final}
use pairline.TextChat.Closing.{close_open}

abbrev fine : Answer
fine = record {
  socket_throws = false;
  connect_throws = false;
  join_throws = false;
  fresh = closed;
  after_join = joining;
}

abbrev matched : Message
matched = record {
  kind = MessageType.match;
  body = record ((error_message none).body) {
    peer_id = some (lit "p1");
    common_interests = some (lit "go" ∷ lit "chess" ∷ []);
  };
}

abbrev stopped : Message
stopped = record { kind = MessageType.stopped; body = (error_message none).body }

-- Connected, set up, matched; one message was written.
abbrev story : List Event
story =
    Event.client_moves (Events.Event.connects fine)
    ∷ Event.client_moves (Events.Event.channel_moves joined)
    ∷ Event.sets_up
    ∷ Event.starts (lit "go") none
    ∷ Event.receives none matched
    ∷ Event.writes (lit "hi")
    ∷ []

abbrev chat : Chat
chat = run story (new (lit "ws"))

-- Two system messages with the numbers 0 and 1, then the message.
abbrev flight : Flight
flight = record { message_id = 2; chat_epoch = 2 }

chat_runs :
    (chat.status ≡ connected)
    × (map (λ (m : ChatMessage). m.id) chat.messages ≡ 0 ∷ 1 ∷ 2 ∷ [])
    × (is_flight flight chat.flights ≡ true)
unfolding run step new error_message trim Events.step
chat_runs = (refl, refl, refl)

run-IsTimed_example : IsTimed (run story (new (lit "ws")))
run-IsTimed_example = run-IsTimed story (lit "ws")

run-IsNumbered_example : IsNumbered (run story (new (lit "ws")))
run-IsNumbered_example = run-IsNumbered story (lit "ws")

old_reply_example :
    settle_flight flight failure
      (run (Event.starts (lit "go") none ∷ []) (step (Event.receives none stopped) chat))
    ≡ run (Event.starts (lit "go") none ∷ []) (step (Event.receives none stopped) chat)
unfolding run step new error_message trim Events.step
old_reply_example =
    old_reply_ignored story (lit "ws") (Event.receives none stopped)
      (Event.starts (lit "go") none ∷ []) flight failure refl refl

-- The message once its reply has come.
abbrev delivered : List Event
delivered = story ++ Event.is_answered flight (untyped none) ∷ []

abbrev sent_message : ChatMessage
sent_message = record {
  id = 2;
  text = lit "hi";
  sender = Sender.me;
  timestamp = 0;
  delivery_status = some DeliveryStatus.sent;
  system_reason = none;
}

delivery_final_example : sent_message ≡ sent_message
unfolding run step new error_message trim Events.step verdict
delivery_final_example =
    delivery_final delivered (Event.is_rejected flight ∷ []) (lit "ws") sent_message sent_message
      (inr (inr (inl refl))) (λ e. cc) (inr (inr (inl refl))) refl

close_open_example :
    (on_close (on_close chat) ≡ on_close chat)
    × ((on_close chat).messages ≡ (
        if is_live chat.status && not chat.show_reconnect_message
        then chat.messages
          ++ system_message chat.next chat.now
              (lit "Connection to server lost. Reconnecting...")
              none
            ∷ []
        else chat.messages))
    × ((on_open (on_close chat)).status ≡ idle)
    × ((on_open (on_close chat)).is_connected ≡ true)
    × ((on_open (on_close chat)).peer_id ≡ none)
    × ((on_open (on_close chat)).session_id ≡ none)
    × ((on_open (on_close chat)).session_token ≡ none)
    × ((on_open (on_close chat)).report_peer_id ≡ none)
    × ((on_open (on_close chat)).show_reconnect_message ≡ false)
unfolding run step new error_message trim Events.step
close_open_example = close_open chat refl
