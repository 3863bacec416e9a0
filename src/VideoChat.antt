-- ===== src/VideoChat.antt =====
-- frontend/client/src/hooks/useVideoChat.tsx: the state of a video chat, its timers, the health of
-- the API and the messages. The refs of the source are fields named `…_ref` where a state of the
-- same name stands beside them. Browser objects are numbers: a peer connection, a timer, a socket
-- to the Go server; what they report is an event or an argument.
pub mod Transport
pub mod Turn
pub mod Media
pub mod Signals
pub mod GoSocket
pub mod Handlers
pub mod Actions
pub mod Offers
pub mod Events
pub mod Keeping
pub mod Kept
pub mod Wiring
mod Strikes
mod TurnFetch
mod Capacity
mod Addressing
mod Caller
pub mod Refusals
mod Tests
use pairline.Base.{
  ℕ, ◌+◌, ◌*◌, Text, lit, text_eq, List, [], ◌∷◌, ◌++◌, Option, none, some, Bool, true, false, not,
  ◌==◌, ◌&&◌, ◌||◌, leb, ltb, keep, any, is_some, if◌then◌else◌, length, last_n,
}
use pairline.Message.{ChatMessage, Sender}
use pairline.WebSocket.{Client}
use pairline.WebSocket
use pairline.NetworkHealth.{Health, ServiceStatus, ok, degraded, offline, initial, set_api_status}
use pairline.IceServers.{RtcIceServer, Urls, single}
use pairline.Chat.{Status, idle, system_message}
use pairline.TextChat.{Flight}

-- The constructor call of a `WebSocket` to the Go server: what its handlers capture.
pub record Socket : Type 0 where
  pub id : ℕ
  pub session_id : Text
  pub session_token : Text

-- `isStillHealthy`, as its two callers write it.
pub data Watch : Type 0 where
  watches_socket : Socket → Watch
  watches_turn : Watch

-- The callbacks of the timers.
pub data Job : Type 0 where
  ends_typing : Job
  confirms_api : Watch → Job
  gives_up_connecting : Socket → Job
  retries : Text → Option Text → Job

pub record Timer : Type 0 where
  pub id : ℕ
  pub delay : ℕ
  pub job : Job

-- What `sendWebRTC` puts on the socket; the payload is the browser's.
pub data SignalKind : Type 0 where
  offer answer ice : SignalKind

pub record Signal : Type 0 where
  pub kind : SignalKind
  pub from_session_id : Text
  pub to_session_id : Text
  pub payload : Text

-- A request to `/api/v1/webrtc/turn` that has no answer yet: what its continuation has captured.
pub record Fetch : Type 0 where
  pub id : ℕ
  pub generation : ℕ
  pub session_id : Text
  pub session_token : Text

-- The fields from `client` on are the world's: the client, the health context, the numbers that are
-- given out, the timers that are set, `Date.now()`, the promises of sent messages, the sockets that
-- were opened, what was sent on them, the candidates that were added, with their connection, and the
-- requests that wait.
pub record Video : Type 0 where
  pub is_connected : Bool
  pub peer_id : Option Text
  pub session_id : Option Text
  pub session_token : Option Text
  pub report_peer_id : Option Text
  pub status : Status
  pub messages : List ChatMessage
  pub peer_typing : Bool
  pub peer_typing_timeout : Option ℕ
  pub chat_epoch : ℕ
  pub show_reconnect_message : Bool
  pub is_video_connecting : Bool
  pub has_local_stream : Bool
  pub peer_connection : Option ℕ
  pub peer_id_ref : Option Text
  pub session_id_ref : Option Text
  pub session_token_ref : Option Text
  pub webrtc_ws : Option Socket
  pub pending_ice_candidates : List Text
  pub webrtc_ws_queue : List Signal
  pub ice_restart_pending : Bool
  pub webrtc_socket_open : Bool
  pub signaling_ready_sent : Bool
  pub negotiation_started : Bool
  pub pending_webrtc_start : Option Text
  pub go_ws_connect_timeout : Option ℕ
  pub go_ws_reconnect_timeout : Option ℕ
  pub mounted : Bool
  pub turn_servers : List RtcIceServer
  pub turn_fetched : Bool
  pub turn_fetch_promise : Option ℕ
  pub turn_fetch_generation : ℕ
  pub api_retry_count : ℕ
  pub api_success_timeout : Option ℕ
  pub server_rejection_count : ℕ
  pub go_ws_reconnect_exhausted : Bool
  pub client : Client
  pub health : Health
  pub next : ℕ
  pub timers : List Timer
  pub now : ℕ
  pub flights : List Flight
  pub sockets : List Socket
  pub sent : List Signal
  pub candidates : List (ℕ × Text)
  pub fetches : List Fetch

-- The servers without `VITE_STUN_SERVERS`.
abbrev pub default_stun_servers : List RtcIceServer
default_stun_servers =
    record {
      urls = single (lit "stun:stun.cloudflare.com:3478");
      username = none;
      credential = none;
    }
    ∷ record {
      urls = single (lit "stun:stun.l.google.com:19302");
      username = none;
      credential = none;
    }
    ∷ []

unfoldable pub new : Text → Video
new ws_url = record {
  is_connected = false;
  peer_id = none;
  session_id = none;
  session_token = none;
  report_peer_id = none;
  status = idle;
  messages = [];
  peer_typing = false;
  peer_typing_timeout = none;
  chat_epoch = 0;
  show_reconnect_message = false;
  is_video_connecting = false;
  has_local_stream = false;
  peer_connection = none;
  peer_id_ref = none;
  session_id_ref = none;
  session_token_ref = none;
  webrtc_ws = none;
  pending_ice_candidates = [];
  webrtc_ws_queue = [];
  ice_restart_pending = false;
  webrtc_socket_open = false;
  signaling_ready_sent = false;
  negotiation_started = false;
  pending_webrtc_start = none;
  go_ws_connect_timeout = none;
  go_ws_reconnect_timeout = none;
  mounted = true;
  turn_servers = default_stun_servers;
  turn_fetched = false;
  turn_fetch_promise = none;
  turn_fetch_generation = 0;
  api_retry_count = 0;
  api_success_timeout = none;
  server_rejection_count = 0;
  go_ws_reconnect_exhausted = false;
  client = WebSocket.new ws_url (lit "room:video");
  health = initial;
  next = 0;
  timers = [];
  now = 0;
  flights = [];
  sockets = [];
  sent = [];
  candidates = [];
  fetches = [];
}

-- `clearTimeout` of a timer that a ref may hold.
abbrev pub without_timer : Option ℕ → List Timer → List Timer
without_timer none ts = ts
without_timer (some t) ts = keep (λ (x : Timer). not (x.id == t)) ts

-- `setTimeout(job, delay)`: the number of the timer is `c.next`, which the caller stores.
unfoldable pub set_timer : Job → ℕ → Video → Video
set_timer job delay c = record c {
  timers = record { id = c.next; delay = delay; job = job } ∷ c.timers;
  next = c.next + 1;
}

unfoldable pub set_api : ServiceStatus → Video → Video
set_api status c = record c { health = set_api_status status c.health }

unfoldable pub report_api_error : Video → Video
report_api_error c =
    let s = record c {
      timers = without_timer c.api_success_timeout c.timers;
      api_success_timeout = none;
      api_retry_count = c.api_retry_count + 1;
    } in
    if s.api_retry_count == 1
    then set_api degraded s
    else if leb 5 s.api_retry_count
    then set_api offline s
    else s

unfoldable pub report_api_success : Watch → Video → Video
report_api_success watch c =
    let s = record c { timers = without_timer c.api_success_timeout c.timers } in
    record (set_timer (confirms_api watch) 3000 s) { api_success_timeout = some s.next }

abbrev pub is_socket : Option Socket → Socket → Bool
is_socket none w = false
is_socket (some v) w = v.id == w.id

-- `is_open` is the socket's own `readyState`.
abbrev pub is_healthy : Bool → Watch → Video → Bool
is_healthy is_open (watches_socket w) c = is_socket c.webrtc_ws w && is_open
is_healthy is_open watches_turn c = not c.go_ws_reconnect_exhausted || c.webrtc_socket_open

-- The callback of the timer in `reportApiSuccess`.
unfoldable pub confirm_api : Bool → Watch → Video → Video
confirm_api is_open watch c =
    if not (is_healthy is_open watch c)
    then c
    else if ltb 0 c.api_retry_count || ltb 0 c.server_rejection_count
    then set_api ok (record c { api_retry_count = 0; server_rejection_count = 0 })
    else c

abbrev max_messages : ℕ
max_messages = 200

-- `next.length > MAX_MESSAGES ? next.slice(-MAX_MESSAGES) : next`.
abbrev pub capped : List ChatMessage → List ChatMessage
capped msgs = if ltb max_messages (length msgs) then last_n max_messages msgs else msgs

unfoldable pub begin_new_chat_epoch : Video → Video
begin_new_chat_epoch c = record c { chat_epoch = c.chat_epoch + 1 }

unfoldable pub push_message : (ℕ → ChatMessage) → Video → Video
push_message message c = record c {
  messages = capped (c.messages ++ message c.next ∷ []);
  next = c.next + 1;
}

unfoldable pub push_system_message : Text → Option Text → Video → Video
push_system_message text reason c = push_message (λ id. system_message id c.now text reason) c

unfoldable pub show_connection_status_message : Text → Video → Video
show_connection_status_message text c =
    if c.show_reconnect_message
    then c
    else record (push_system_message text none c) { show_reconnect_message = true }

abbrev is_system : Sender → Bool
is_system Sender.system = true
is_system _ = false

-- `msg.sender === 'system' && msg.text === text`.
abbrev pub says : Text → ChatMessage → Bool
says text m = is_system m.sender && text_eq m.text text

unfoldable pub show_video_signaling_unavailable : Text → Video → Video
show_video_signaling_unavailable text c =
    let s = record c { pending_webrtc_start = none; is_video_connecting = false } in
    if any (says text) s.messages then s else record s {
      messages = s.messages ++ system_message s.next s.now text none ∷ [];
      next = s.next + 1;
    }
