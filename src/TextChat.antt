-- ===== src/TextChat.antt =====
-- frontend/client/src/hooks/useTextChat.tsx: the state of a text chat, its handler of messages and
-- its operations. A state setter of React is an assignment: the setters run in order, and the
-- `status` that an operation reads is the current one. The hook owns a `WebSocketClient`; its
-- handlers are numbered in the order of registration.
pub mod Actions
pub mod Events
mod Invariant
mod Epochs
mod Changes
mod Steps
mod Replies
mod Closing
mod Tests
use pairline.Base.{
  ℕ, ◌+◌, Text, lit, truthy, includes, List, [], ◌∷◌, ◌++◌, Option, none, some, or_else, Bool, true,
  false, not, ◌==◌, keep, any, is_empty, is_some, if◌then◌else◌,
}
use pairline.Message.{Message, MessageType, ChatMessage}
use pairline.WebSocket.{Client}
use pairline.WebSocket
use pairline.NetworkHealth.{Health, initial}
use pairline.Chat.{
  Status, idle, connected, disconnected, present, data_field, system_message, peer_message,
  join_comma, ban_reason, error_text,
}

-- A message that was sent and whose promise has not settled: what its callbacks have captured.
pub record Flight : Type 0 where
  pub message_id : ℕ
  pub chat_epoch : ℕ

-- The last fields are the world's: the client, the health context, the numbers that stand for UUIDs
-- and timers, the timers that are set, `Date.now()`, and the promises that have not settled.
pub record Chat : Type 0 where
  pub is_connected : Bool
  pub peer_id : Option Text
  pub session_id : Option Text
  pub session_token : Option Text
  pub report_peer_id : Option Text
  pub status : Status
  pub messages : List ChatMessage
  pub peer_typing : Bool
  pub peer_typing_timeout : Option ℕ
  pub show_reconnect_message : Bool
  pub chat_epoch : ℕ
  pub mounted : Bool
  pub client : Client
  pub health : Health
  pub next : ℕ
  pub timers : List ℕ
  pub now : ℕ
  pub flights : List Flight

unfoldable pub new : Text → Chat
unfolding initial WebSocket.new
new ws_url = record {
  is_connected = false;
  peer_id = none;
  session_id = none;
  session_token = none;
  report_peer_id = none;
  status = idle;
  messages = [];
  peer_typing = false;
  peer_typing_timeout = none;
  show_reconnect_message = false;
  chat_epoch = 0;
  mounted = true;
  client = WebSocket.new ws_url (lit "room:text");
  health = initial;
  next = 0;
  timers = [];
  now = 0;
  flights = [];
}

unfoldable pub begin_new_chat_epoch : Chat → Chat
begin_new_chat_epoch c = record c { chat_epoch = c.chat_epoch + 1 }

unfoldable pub push_system_message : Text → Option Text → Chat → Chat
push_system_message text reason c = record c {
  messages = c.messages ++ system_message c.next c.now text reason ∷ [];
  next = c.next + 1;
}

unfoldable pub show_connection_status_message : Text → Chat → Chat
unfolding push_system_message
show_connection_status_message text c =
    if c.show_reconnect_message
    then c
    else record (push_system_message text none c) { show_reconnect_message = true }

-- The `clearTimeout` of the typing timer, if one is known.
unfoldable pub clear_peer_typing_timeout : Chat → Chat
clear_peer_typing_timeout c = elim c.peer_typing_timeout [
  | none ↦ c
  | some t ↦ record c { timers = keep (λ u. not (u == t)) c.timers; peer_typing_timeout = none }
]

unfoldable pub cleanup : Chat → Chat
unfolding begin_new_chat_epoch clear_peer_typing_timeout
cleanup c = clear_peer_typing_timeout (record (begin_new_chat_epoch c) {
  peer_id = none;
  session_id = none;
  session_token = none;
  report_peer_id = none;
  messages = [];
  show_reconnect_message = false;
  peer_typing = false;
})

-- The session that every message may carry.
unfoldable pub take_session : Message → Chat → Chat
take_session m c = record c {
  session_id = elim (present m.body.session_id) [ none ↦ c.session_id | some s ↦ some s ];
  session_token = elim (present m.body.session_token) [ none ↦ c.session_token | some s ↦ some s ];
}

abbrev stranger_notice : Text
stranger_notice = lit "You are talking to a random stranger."

abbrev pub is_false : Option Bool → Bool
is_false none = false
is_false (some b) = not b

-- The messages that a match starts with.
unfoldable pub greeting : ℕ → ℕ → List Text → List ChatMessage
unfolding join_comma
greeting next now [] = system_message next now stranger_notice none ∷ []
greeting next now (interest ∷ common) =
    system_message next now (lit "You both like: " ++ join_comma (interest ∷ common)) none
    ∷ system_message (next + 1) now stranger_notice none
    ∷ []

unfoldable pub on_match : Message → Chat → Chat
unfolding begin_new_chat_epoch clear_peer_typing_timeout greeting
on_match m c =
    let common = or_else m.body.common_interests [] in
    let s = clear_peer_typing_timeout (record (begin_new_chat_epoch c) {
      peer_id = some (or_else m.body.peer_id []);
      report_peer_id = if is_false m.body.reportable then none else present m.body.peer_id;
      status = connected;
      show_reconnect_message = false;
      peer_typing = false;
    }) in
    record s { messages = greeting s.next s.now common; next = s.next + 2 }

unfoldable pub on_peer_message : Message → Chat → Chat
on_peer_message m c = elim (present (data_field (λ d. d.content) m)) [
  | none ↦ c
  | some content ↦ record c {
    messages = c.messages ++ peer_message c.next c.now content ∷ [];
    next = c.next + 1;
  }
]

unfoldable pub on_system : Message → Chat → Chat
unfolding push_system_message
on_system m c = elim (present (data_field (λ d. d.message) m)) [
  | none ↦ c
  | some text ↦ push_system_message text (data_field (λ d. d.reason_code) m) c
]

unfoldable pub on_disconnected : Chat → Chat
unfolding begin_new_chat_epoch push_system_message
on_disconnected c =
    push_system_message (lit "Stranger has disconnected.") none (
      begin_new_chat_epoch
        (record c { status = disconnected; peer_id = none; peer_typing = false }))

unfoldable pub on_banned : Message → Chat → Chat
unfolding begin_new_chat_epoch push_system_message
on_banned m c =
    push_system_message (lit "You have been banned: " ++ ban_reason m) none
      (begin_new_chat_epoch (record c { status = disconnected; peer_typing = false }))

-- `json` is `JSON.stringify(message.data)`.
unfoldable pub on_error : Option Text → Message → Chat → Chat
unfolding push_system_message
on_error json m c =
    let text = error_text json m in
    push_system_message (lit "Error: " ++ text) none
      (if includes (lit "CAPTCHA") text then record c { status = idle } else c)

unfoldable pub on_timeout : Chat → Chat
unfolding begin_new_chat_epoch push_system_message
on_timeout c =
    push_system_message (lit "Matchmaking timeout: No strangers are available right now.") none (
      begin_new_chat_epoch
        (record c { status = disconnected; peer_id = none; peer_typing = false }))

unfoldable pub on_stopped : Chat → Chat
unfolding begin_new_chat_epoch
on_stopped c = record (begin_new_chat_epoch c) {
  status = idle;
  peer_id = none;
  session_id = none;
  session_token = none;
  report_peer_id = none;
  messages = [];
  peer_typing = false;
}

unfoldable pub on_typing : Message → Chat → Chat
unfolding clear_peer_typing_timeout
on_typing m c = elim (data_field (λ d. d.typing) m) [
  | none ↦ c
  | some typing ↦
      let s = clear_peer_typing_timeout (record c { peer_typing = typing }) in
      if typing
      then record s {
        peer_typing_timeout = some s.next;
        timers = s.next ∷ s.timers;
        next = s.next + 1;
      }
      else s
]

-- The callback of the typing timer.
unfoldable pub typing_timer_fired : ℕ → Chat → Chat
typing_timer_fired t c = record c {
  timers = keep (λ u. not (u == t)) c.timers;
  peer_typing = false;
  peer_typing_timeout = none;
}

-- The `switch` of `handleMessage`.
unfoldable pub on_type : MessageType → Option Text → Message → Chat → Chat
unfolding on_match on_peer_message on_system on_disconnected on_banned on_error on_timeout
    on_stopped on_typing
on_type MessageType.match json m c = on_match m c
on_type MessageType.message json m c = on_peer_message m c
on_type MessageType.system json m c = on_system m c
on_type MessageType.disconnected json m c = on_disconnected c
on_type MessageType.banned json m c = on_banned m c
on_type MessageType.error json m c = on_error json m c
on_type MessageType.timeout json m c = on_timeout c
on_type MessageType.stopped json m c = on_stopped c
on_type MessageType.typing json m c = on_typing m c
on_type _ json m c = c

unfoldable pub handle_message : Option Text → Message → Chat → Chat
unfolding take_session on_type
handle_message json m c = on_type m.kind json m (take_session m c)
