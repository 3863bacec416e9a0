-- ===== src/WebSocket/Sending.antt =====
-- frontend/client/src/services/websocket.ts: `send`, `sendWithResponse`, the events that the
-- channel forwards, and the registration of handlers.
use pairline.Base.{
  ℕ, List, [], ◌∷◌, ◌++◌, Option, none, some, or_else, Bool, true, false, ◌&&◌, is_some,
  if◌then◌else◌,
}
use pairline.Message.{
  MessageType, webrtc_start, offer, answer, ice, disconnected, timeout, banned, Body, Outgoing,
  Reply, typed, untyped, as_message,
}
use pairline.WebSocket.{Client, event, is_connected, dispatch_message}

-- The events for which `ensureChannel` registers a callback.
unfoldable pub is_forwarded : MessageType → Bool
is_forwarded MessageType.match = true
is_forwarded MessageType.message = true
is_forwarded MessageType.typing = true
is_forwarded webrtc_start = true
is_forwarded offer = true
is_forwarded answer = true
is_forwarded ice = true
is_forwarded disconnected = true
is_forwarded timeout = true
is_forwarded banned = true
is_forwarded _ = false

-- The callback: `{ type: name, ...payload }`, so that a `type` in the payload wins.
unfoldable pub channel_event : MessageType → Option MessageType → Body → Client → Client
unfolding is_forwarded dispatch_message
channel_event name payload_type body c =
    if is_forwarded name
    then dispatch_message (record { kind = or_else payload_type name; body = body }) c
    else c

-- `send`: `none` is the error that it throws.
unfoldable pub send : Outgoing → Client → Option Client
unfolding is_connected
send o c =
    if is_connected c && is_some c.channel
    then some (record c { pushes = c.pushes ++ event o ∷ [] })
    else none

unfoldable pub send_ok : Reply → Client → Client
unfolding dispatch_message
send_ok (typed m) c = dispatch_message m c
send_ok (untyped payload) c = c

unfoldable pub send_error : Reply → Client → Client
unfolding dispatch_message as_message
send_error reply c = dispatch_message (as_message reply) c

-- The promise of `sendWithResponse`, and whether its timer is still set.
pub data Outcome : Type 0 where
  waiting : Outcome
  answered : Reply → Outcome
  timed_out not_connected : Outcome

pub record Request : Type 0 where
  pub outcome : Outcome
  pub timer_set : Bool

unfoldable pub send_with_response : Outgoing → Client → Client × Request
unfolding is_connected
send_with_response o c =
    if is_connected c && is_some c.channel
    then (
      record c { pushes = c.pushes ++ event o ∷ [] },
      record { outcome = waiting; timer_set = true },
    )
    else (c, record { outcome = not_connected; timer_set = false })

pub data Response : Type 0 where
  reply_ok reply_error : Reply → Response
  timer : Response

-- `resolve` or `reject`: the first one settles the promise.
abbrev settle_with : Outcome → Outcome → Outcome
settle_with new waiting = new
settle_with new old = old

unfoldable pub respond : Response → Request → Request
unfolding as_message
respond (reply_ok reply) r = record {
  outcome = settle_with (answered reply) r.outcome;
  timer_set = false;
}
respond (reply_error reply) r = record {
  outcome = settle_with (answered (typed (as_message reply))) r.outcome;
  timer_set = false;
}
respond timer r =
    if r.timer_set
    then record { outcome = settle_with timed_out r.outcome; timer_set = false }
    else r

unfoldable pub respond_all : List Response → Request → Request
respond_all [] r = r
respond_all (e ∷ es) r = respond_all es (respond e r)

unfoldable pub on_message : ℕ → Client → Client
on_message h c = record c { message_handlers = c.message_handlers ++ h ∷ [] }

unfoldable pub on_close : ℕ → Client → Client
on_close h c = record c { close_handlers = c.close_handlers ++ h ∷ [] }

unfoldable pub on_open : ℕ → Client → Client
on_open h c = record c { open_handlers = c.open_handlers ++ h ∷ [] }

unfoldable pub on_max_retries : ℕ → Client → Client
on_max_retries h c = record c { max_retries_handlers = c.max_retries_handlers ++ h ∷ [] }

unfoldable pub on_reconnecting : ℕ → Client → Client
on_reconnecting h c = record c { reconnecting_handlers = c.reconnecting_handlers ++ h ∷ [] }
