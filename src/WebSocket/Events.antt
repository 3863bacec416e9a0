-- ===== src/WebSocket/Events.antt =====
-- Everything that can happen to the client of frontend/client/src/services/websocket.ts, in any
-- order: calls of its methods, and what Phoenix and the timers report.
use pairline.Base.{ℕ, List, [], ◌∷◌, Option, none, some, or_else, any, ◌==◌, if◌then◌else◌}
use pairline.Message.{MessageType, Body, Outgoing, Reply}
use pairline.WebSocket.{
  ChannelState, Client, Timer, Answer, heartbeat, connect, join_ok, join_error, timer_fired,
  socket_closed, disconnect,
}
use pairline.WebSocket.Sending
use pairline.WebSocket.Sending.{channel_event, send, send_ok, send_error, send_with_response}

pub data Event : Type 0 where
  connects : Answer → Event
  joins : ℕ → Event
  fails_to_join : ℕ → Event
  socket_closes : Event
  timer_fires : ℕ → Answer → Event
  beats : Event
  channel_moves : ChannelState → Event
  disconnects : Event
  channel_sends : MessageType → Option MessageType → Body → Event
  sends requests : Outgoing → Event
  is_answered is_refused : Reply → Event
  adds_message_handler adds_close_handler adds_open_handler : ℕ → Event
  adds_max_retries_handler adds_reconnecting_handler : ℕ → Event

abbrev move : ChannelState → Option ChannelState → Option ChannelState
move s none = none
move s (some _) = some s

-- A timer fires only while it is set; Phoenix moves only a channel that is there.
unfoldable pub step : Event → Client → Client
unfolding connect join_ok join_error socket_closed timer_fired heartbeat disconnect channel_event
    send send_with_response send_ok send_error Sending.on_message Sending.on_close Sending.on_open
    Sending.on_max_retries Sending.on_reconnecting
step (connects a) c = (connect a c).0
step (joins p) c = join_ok p c
step (fails_to_join p) c = join_error p c
step socket_closes c = socket_closed c
step (timer_fires t a) c = if any (λ (x : Timer). x.id == t) c.timers then timer_fired t a c else c
step beats c = heartbeat c
step (channel_moves s) c = record c { channel = move s c.channel }
step disconnects c = disconnect c
step (channel_sends name payload_type body) c = channel_event name payload_type body c
step (sends o) c = or_else (send o c) c
step (requests o) c = (send_with_response o c).0
step (is_answered reply) c = send_ok reply c
step (is_refused reply) c = send_error reply c
step (adds_message_handler h) c = Sending.on_message h c
step (adds_close_handler h) c = Sending.on_close h c
step (adds_open_handler h) c = Sending.on_open h c
step (adds_max_retries_handler h) c = Sending.on_max_retries h c
step (adds_reconnecting_handler h) c = Sending.on_reconnecting h c

unfoldable pub run : List Event → Client → Client
run [] c = c
run (e ∷ es) c = run es (step e c)
