-- ===== src/TextChat/Actions.antt =====
-- frontend/client/src/hooks/useTextChat.tsx: the effect that connects, the handlers that it
-- registers, and the operations that the hook returns.
use pairline.Base.{
  ℕ, ◌+◌, Text, lit, truthy, trim, [], ◌∷◌, ◌++◌, Option, none, some, or_else, Bool, true, false,
  ◌&&◌, not, ◌==◌, keep, if◌then◌else◌,
}
use pairline.Message.{start, stop, disconnect, skip, message, typing}
use pairline.WebSocket.{Client}
use pairline.WebSocket
use pairline.WebSocket.Sending
use pairline.WebSocket.Sending.{Outcome, Request, send, send_with_response}
use pairline.NetworkHealth.{ok, degraded, offline, set_channel_status, remove_channel}
use pairline.Chat.{
  Status, idle, searching, connected, disconnected, is_connected_status, own_message,
  update_delivery_status, Verdict,
}
use pairline.TextChat.{
  Chat, Flight, begin_new_chat_epoch, push_system_message, show_connection_status_message, cleanup,
}

abbrev pub channel_name : Text
channel_name = lit "phoenix:text"

-- The part of `setup` behind `await wsClient.connect()`. The handlers are registered in any case.
unfoldable pub set_up : Chat → Chat
unfolding Sending.on_message Sending.on_reconnecting Sending.on_max_retries Sending.on_open
    Sending.on_close
set_up c =
    let s =
      if c.mounted then record c { is_connected = true; show_reconnect_message = false } else c in
    record s {
      client = Sending.on_close 4 (
          Sending.on_open 3
            (Sending.on_max_retries 2 (Sending.on_reconnecting 1 (Sending.on_message 0 s.client))));
    }

-- The `catch` of `setup`.
unfoldable pub set_up_failed : Chat → Chat
unfolding show_connection_status_message
set_up_failed c =
    if c.mounted
    then show_connection_status_message
        (lit "Failed to connect to server. Please refresh the page.")
        (record c { is_connected = false; status = disconnected })
    else c

unfoldable pub on_reconnecting : Chat → Chat
unfolding set_channel_status
on_reconnecting c =
    if c.mounted then record c { health = set_channel_status channel_name degraded c.health } else c

unfoldable pub on_max_retries : Chat → Chat
unfolding set_channel_status
on_max_retries c =
    if c.mounted then record c { health = set_channel_status channel_name offline c.health } else c

abbrev pub revive : Status → Status
revive disconnected = idle
revive s = s

unfoldable pub on_open : Chat → Chat
unfolding set_channel_status
on_open c =
    if c.mounted
    then record c {
      health = set_channel_status channel_name ok c.health;
      is_connected = true;
      show_reconnect_message = false;
      status = revive c.status;
    }
    else c

abbrev pub is_live : Status → Bool
is_live connected = true
is_live searching = true
is_live _ = false

unfoldable pub on_close : Chat → Chat
unfolding show_connection_status_message
on_close c =
    let s = record c { is_connected = false } in
    let t =
      if is_live s.status
      then record (show_connection_status_message (lit "Connection to server lost. Reconnecting...")
          s) { status = disconnected }
      else s in
    if c.mounted
    then record t {
      peer_id = none;
      session_id = none;
      session_token = none;
      report_peer_id = none;
      peer_typing = false;
    }
    else c

-- The clean-up function of the effect.
unfoldable pub unmount : Chat → Chat
unfolding remove_channel cleanup WebSocket.disconnect
unmount c =
    let s = cleanup (record c { mounted = false; health = remove_channel channel_name c.health }) in
    record s { client = WebSocket.disconnect s.client }

-- `startSearch` behind the wait for the connection, its `catch` included.
unfoldable pub search : Text → Option Text → Chat → Chat
unfolding begin_new_chat_epoch send
search interests turnstile_token c =
    let s = record (begin_new_chat_epoch (record c { messages = [] })) {
      show_reconnect_message = false;
      report_peer_id = none;
      status = searching;
    } in
    elim (send (start turnstile_token (lit "text") (trim interests)) s.client) [
      | none ↦ record s { status = idle }
      | some client ↦ record s { client = client }
    ]

-- `startSearch` when the client is connected; otherwise it calls `connect` and goes on with
-- `search_connected` or `search_failed`.
unfoldable pub start_search : Text → Option Text → Chat → Chat
unfolding search WebSocket.is_connected
start_search interests turnstile_token c =
    if WebSocket.is_connected c.client then search interests turnstile_token c else c

unfoldable pub search_connected : Text → Option Text → Chat → Chat
unfolding search
search_connected interests turnstile_token c =
    search interests turnstile_token (record c { is_connected = true })

unfoldable pub search_failed : Chat → Chat
search_failed c = record c { status = idle }

unfoldable pub stop_search : Chat → Chat
unfolding send
stop_search c = record c {
  status = idle;
  session_id = none;
  session_token = none;
  report_peer_id = none;
  client = or_else (send stop c.client) c.client;
}

unfoldable pub leave : Chat → Chat
unfolding begin_new_chat_epoch push_system_message send
leave c = elim (send disconnect c.client) [
  | none ↦ c
  | some client ↦
      push_system_message (lit "You have disconnected.") none
        (record (begin_new_chat_epoch (record c { client = client })) {
          status = disconnected;
          peer_id = none;
          peer_typing = false;
        })
]

unfoldable pub skip_peer : Chat → Chat
unfolding begin_new_chat_epoch send
skip_peer c =
    if is_connected_status c.status
    then elim (send skip c.client) [
      | none ↦ c
      | some client ↦ record (begin_new_chat_epoch (record c { client = client })) {
        peer_id = none;
        report_peer_id = none;
        messages = [];
        peer_typing = false;
        status = searching;
      }
    ]
    else c

-- `sendMessage`: the message is shown, and its promise waits (a rejected one too, until its
-- callback runs).
unfoldable pub send_message : Text → Chat → Chat
unfolding send_with_response
send_message text c =
    if truthy (trim text) && is_connected_status c.status
    then record c {
      messages = c.messages ++ own_message c.next c.now text ∷ [];
      next = c.next + 1;
      client = (send_with_response (message text) c.client).0;
      flights = (record { message_id = c.next; chat_epoch = c.chat_epoch }) ∷ c.flights;
    }
    else c

-- A verdict on a sent message, behind the test of the epoch.
unfoldable pub apply_verdict : ℕ → Verdict → Chat → Chat
unfolding update_delivery_status push_system_message
apply_verdict id v c =
    let s : Chat = elim v.status [
      | none ↦ c
      | some status ↦ record c { messages = update_delivery_status id status none c.messages }
    ] in
    elim v.notice [ none ↦ s | some text ↦ push_system_message text v.notice_reason s ]

-- The callbacks of `then` and `catch`: nothing is done for a message of an earlier chat.
unfoldable pub settle_flight : Flight → Verdict → Chat → Chat
unfolding apply_verdict
settle_flight f v c = if c.chat_epoch == f.chat_epoch then apply_verdict f.message_id v c else c

-- The promise of the flight for a message settles, and is gone.
unfoldable pub land : Flight → Verdict → Chat → Chat
unfolding settle_flight
land f v c =
    settle_flight f v
      (record c { flights = keep (λ g. not (g.message_id == f.message_id)) c.flights })

unfoldable pub send_typing : Bool → Chat → Chat
unfolding send
send_typing is_typing c =
    if is_connected_status c.status
    then record c { client = or_else (send (typing is_typing) c.client) c.client }
    else c
