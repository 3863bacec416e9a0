-- ===== src/WebSocket.antt =====
-- frontend/client/src/services/websocket.ts: the client of a Phoenix channel. The Phoenix library
-- is not part of the program: what its calls do (throw or not, the state that a channel is in) is
-- the argument `Answer`, and what it reports later is an event. Timers, intervals, promises and the
-- calls of handlers are kept in the last fields of the client. Handlers are numbers: each call is
-- recorded, and what a handler does itself is the affair of the hook that registered it.
pub mod Sending
pub mod Events
mod Invariant
mod Connect
mod Backoff
mod Recovery
mod Disconnect
mod Delivery
mod Tests
use pairline.Base.{
  ℕ, ◌+◌, ◌*◌, ◌^◌, min, Text, lit, List, [], ◌∷◌, ◌++◌, map, Option, none, some, or_else, Bool,
  true, false, not, ◌||◌, ◌&&◌, ltb, leb, ◌==◌, keep, any, is_some, if◌then◌else◌,
}
use pairline.Message.{Message, Outgoing}

-- `channel.state` of Phoenix.
pub data ChannelState : Type 0 where
  closed errored joined joining leaving : ChannelState

-- A handler that was called, and with what.
pub data Call : Type 0 where
  on_message : ℕ → Message → Call
  on_close on_open on_max_retries on_reconnecting : ℕ → Call

-- What was handed to Phoenix.
pub data Push : Type 0 where
  ping : Push
  leave : Push
  hang_up : Push
  event : Outgoing → Push

-- A timer that was set and has not fired, with its delay in milliseconds.
pub record Timer : Type 0 where
  pub id : ℕ
  pub delay : ℕ

pub record Promise : Type 0 where
  pub id : ℕ
  pub fulfilled : Bool

pub record Client : Type 0 where
  pub socket : Option ℕ
  pub channel : Option ChannelState
  pub connect_promise : Option ℕ
  pub url : Text
  pub topic : Text
  pub message_handlers : List ℕ
  pub close_handlers : List ℕ
  pub open_handlers : List ℕ
  pub max_retries_handlers : List ℕ
  pub reconnecting_handlers : List ℕ
  pub reconnect_attempts : ℕ
  pub reconnect_timeout : Option ℕ
  pub room_ping_interval : Option ℕ
  pub should_reconnect : Bool
  pub is_connecting : Bool
  pub next : ℕ
  pub timers : List Timer
  pub intervals : List ℕ
  pub settled : List Promise
  pub calls : List Call
  pub pushes : List Push

abbrev max_reconnect_attempts : ℕ
max_reconnect_attempts = 10

abbrev reconnect_delay : ℕ
reconnect_delay = 1000

-- The constructor.
unfoldable pub new : Text → Text → Client
new url topic = record {
  socket = none;
  channel = none;
  connect_promise = none;
  url = url;
  topic = topic;
  message_handlers = [];
  close_handlers = [];
  open_handlers = [];
  max_retries_handlers = [];
  reconnecting_handlers = [];
  reconnect_attempts = 0;
  reconnect_timeout = none;
  room_ping_interval = none;
  should_reconnect = true;
  is_connecting = false;
  next = 0;
  timers = [];
  intervals = [];
  settled = [];
  calls = [];
  pushes = [];
}

abbrev pub is_in : ChannelState → Option ChannelState → Bool
is_in s none = false
is_in joined (some joined) = true
is_in joining (some joining) = true
is_in closed (some closed) = true
is_in errored (some errored) = true
is_in leaving (some leaving) = true
is_in _ (some _) = false

unfoldable pub is_connected : Client → Bool
is_connected c = is_in joined c.channel

-- A promise is settled once; later calls of its `resolve` or `reject` do nothing.
unfoldable pub settle : ℕ → Bool → Client → Client
settle p fulfilled c =
    if any (λ (q : Promise). q.id == p) c.settled
    then c
    else record c { settled = (record { id = p; fulfilled = fulfilled }) ∷ c.settled }

unfoldable pub stop_room_heartbeat : Client → Client
stop_room_heartbeat c = elim c.room_ping_interval [
  | none ↦ c
  | some i ↦ record c {
    intervals = keep (λ j. not (j == i)) c.intervals;
    room_ping_interval = none;
  }
]

unfoldable pub start_room_heartbeat : Client → Client
unfolding stop_room_heartbeat
start_room_heartbeat c =
    let s = stop_room_heartbeat c in
    record s {
      intervals = s.next ∷ s.intervals;
      room_ping_interval = some s.next;
      next = s.next + 1;
    }

-- The callback of the interval.
unfoldable pub heartbeat : Client → Client
unfolding is_connected
heartbeat c =
    if not (is_connected c) || not (is_some c.channel)
    then c
    else record c { pushes = c.pushes ++ ping ∷ [] }

-- What Phoenix does when `connect` calls it: which of the calls throw, the state of a channel that
-- it makes, and the state of the channel when `join` has returned.
pub record Answer : Type 0 where
  pub socket_throws : Bool
  pub connect_throws : Bool
  pub join_throws : Bool
  pub fresh : ChannelState
  pub after_join : ChannelState

-- `ensureChannel`, behind its test of the socket: an open channel stays, any other is made anew.
unfoldable pub ensure_channel : Answer → Client → Client
ensure_channel a c =
    if is_some c.channel && not (is_in closed c.channel)
    then c
    else record c { channel = some a.fresh }

-- The body of `try` in `connect`: the client after it, and whether it threw.
unfoldable pub attempt : Answer → Client → Client × Bool
unfolding ensure_channel
attempt a c =
    if not (is_some c.socket) && a.socket_throws
    then (c, true)
    else let s =
        if is_some c.socket then c else record c { socket = some c.next; next = c.next + 1 } in
      let t = ensure_channel a s in
      if a.connect_throws || a.join_throws
      then (t, true)
      else (record t { channel = some a.after_join }, false)

-- What `connect` returns: `Promise.resolve()`, the promise of a call before, or a new one.
pub data Connection : Type 0 where
  resolved : Connection
  shared : ℕ → Connection
  started : ℕ → Connection

-- The assignment of the new promise comes after the executor has run, and with it the `catch`.
unfoldable pub begin_connect : Answer → Client → Client × Connection
unfolding attempt settle
begin_connect a c =
    let p = c.next in
    let (t, threw) = attempt a (record c { is_connecting = true; next = c.next + 1 }) in
    let u =
      if threw
      then settle p false (record t { is_connecting = false; connect_promise = none })
      else t in
    (record u { connect_promise = some p }, started p)

unfoldable pub connect : Answer → Client → Client × Connection
unfolding is_connected begin_connect
connect a c = if is_connected c then (c, resolved) else elim c.connect_promise [
  | some p ↦ (c, shared p)
  | none ↦ if is_in joining c.channel then (c, resolved) else begin_connect a c
]

-- The callbacks of `join()`, for the call of `connect` that made the promise `p`.
unfoldable pub join_ok : ℕ → Client → Client
unfolding start_room_heartbeat settle
join_ok p c =
    let s = start_room_heartbeat (record c {
      is_connecting = false;
      connect_promise = none;
      reconnect_attempts = 0;
      should_reconnect = true;
    }) in
    settle p true (record s { calls = s.calls ++ map on_open s.open_handlers })

unfoldable pub join_error : ℕ → Client → Client
unfolding settle
join_error p c = settle p false (record c { is_connecting = false; connect_promise = none })

unfoldable pub backoff : ℕ → ℕ
backoff attempts = min (reconnect_delay * 2 ^ attempts) 30000

unfoldable pub handle_reconnect : Client → Client
handle_reconnect c =
    if ltb c.reconnect_attempts max_reconnect_attempts && c.should_reconnect && not c.is_connecting
    then record c {
      calls = c.calls ++ map on_reconnecting c.reconnecting_handlers;
      timers = (record { id = c.next; delay = backoff c.reconnect_attempts }) ∷ c.timers;
      reconnect_timeout = some c.next;
      next = c.next + 1;
    }
    else if leb max_reconnect_attempts c.reconnect_attempts
    then record c {
      should_reconnect = false;
      calls = c.calls ++ map on_max_retries c.max_retries_handlers;
    }
    else c

-- The callback of `setTimeout` in `handleReconnect`; the rejection of `connect` is only logged.
unfoldable pub timer_fired : ℕ → Answer → Client → Client
unfolding connect
timer_fired t a c =
    (connect a (record c {
      timers = keep (λ (x : Timer). not (x.id == t)) c.timers;
      reconnect_attempts = c.reconnect_attempts + 1;
    })).0

-- The callback of `socket.onClose`.
unfoldable pub socket_closed : Client → Client
unfolding stop_room_heartbeat handle_reconnect
socket_closed c =
    let s = stop_room_heartbeat (record c { is_connecting = false; connect_promise = none }) in
    let t = record s {
      channel = none;
      socket = none;
      calls = s.calls ++ map on_close s.close_handlers;
    } in
    if t.should_reconnect then handle_reconnect t else t

unfoldable pub dispatch_message : Message → Client → Client
dispatch_message m c = record c { calls = c.calls ++ map (λ h. on_message h m) c.message_handlers }

abbrev leave_channel : Client → List Push
leave_channel c = if is_some c.channel && not (is_in closed c.channel) then leave ∷ [] else []

abbrev hang_up_socket : Client → List Push
hang_up_socket c = if is_some c.socket then hang_up ∷ [] else []

-- The timer that `clearTimeout` takes out, if one is known.
abbrev pub clear_timer : Option ℕ → List Timer → List Timer
clear_timer none ts = ts
clear_timer (some t) ts = keep (λ (x : Timer). not (x.id == t)) ts

unfoldable pub disconnect : Client → Client
unfolding stop_room_heartbeat
disconnect c =
    let s =
      stop_room_heartbeat
        (record c { should_reconnect = false; is_connecting = false; connect_promise = none }) in
    record s {
      timers = clear_timer s.reconnect_timeout s.timers;
      reconnect_timeout = none;
      pushes = s.pushes ++ (leave_channel s ++ hang_up_socket s);
      channel = none;
      socket = none;
      message_handlers = [];
      close_handlers = [];
      open_handlers = [];
      max_retries_handlers = [];
      reconnecting_handlers = [];
    }
