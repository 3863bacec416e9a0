-- ===== src/TextChat/Steps.antt =====
-- The change that each event of frontend/client/src/hooks/useTextChat.tsx makes to the messages.
use pairline.Base.{
  ◌≤◌, Text, lit, Option-cases, truthy, trim, [], Option, none, false, ◌&&◌, is_some, Bool-cases,
  inl, inr, ◌≡◌, refl, arith,
}
use pairline.Message.{Outgoing}
use pairline.WebSocket
use pairline.WebSocket.Sending.{send}
use pairline.Chat.{system_message, own_message, disconnected, verdict, failure, is_connected_status}
use pairline.TextChat.{Chat, on_type, take_session, show_connection_status_message}
use pairline.TextChat.Actions.{
  send_message, on_close, is_live, set_up_failed, start_search, leave, skip_peer,
}
use pairline.TextChat.Events.{Event, step}
use pairline.TextChat.Changes.{
  MessageChange, keeps, pushes, writes, restarts, fresh_none, same_flights, MessageChange-same,
  landing-messages, lost_notice-messages, on_type-messages,
}

abbrev lost_text : Text
lost_text = lit "Connection to server lost. Reconnecting..."

on_close-messages : (c : Chat) → MessageChange c (on_close c)
unfolding on_close
on_close-messages c =
    let s = record c { is_connected = false } in
    elim (Bool-cases (c.mounted && is_live c.status)) [
      | inl h ↦
          MessageChange-same s c (show_connection_status_message lost_text s) (on_close c) refl refl
            refl refl (ground arith) (ground arith) (ground arith)
            (lost_notice-messages lost_text s)
      | inr h ↦ keeps (ground arith) (ground arith) (same_flights (ground arith))
    ]

abbrev refused_text : Text
refused_text = lit "Failed to connect to server. Please refresh the page."

set_up_failed-messages : (c : Chat) → MessageChange c (set_up_failed c)
unfolding set_up_failed
set_up_failed-messages c =
    let s = record c { is_connected = false; status = disconnected } in
    elim (Bool-cases c.mounted) [
      | inl h ↦
          MessageChange-same s c (show_connection_status_message refused_text s) (set_up_failed c)
            refl refl refl refl (ground arith) (ground arith) (ground arith)
            (lost_notice-messages refused_text s)
      | inr h ↦ keeps (ground arith) (ground arith) (same_flights (ground arith))
    ]

cleared :
    (c d : Chat) → d.messages ≡ [] → c.next ≤ d.next → d.flights ≡ c.flights → MessageChange c d
cleared c d e n g = restarts (rw e (fresh_none c.next d.next)) n (same_flights g)

start_search-messages :
    (t : Text) (o : Option Text) (c : Chat) → MessageChange c (start_search t o c)
unfolding start_search
start_search-messages t o c = elim (Bool-cases (WebSocket.is_connected c.client)) [
  | inl h ↦ cleared c _ (ground arith) (ground arith) (ground arith)
  | inr h ↦ keeps (ground arith) (ground arith) (same_flights (ground arith))
]

leave-messages : (c : Chat) → MessageChange c (leave c)
unfolding leave
leave-messages c = elim (Option-cases (send Outgoing.disconnect c.client)) [
  | inl h ↦ keeps (ground arith) (ground arith) (same_flights (ground arith))
  | inr (d, h) ↦
      pushes (system_message c.next c.now (lit "You have disconnected.") none) (ground arith) refl
        (ground arith) (same_flights (ground arith))
]

skip_peer-messages : (c : Chat) → MessageChange c (skip_peer c)
unfolding skip_peer
skip_peer-messages c =
    elim (Bool-cases (is_connected_status c.status && is_some (send Outgoing.skip c.client))) [
      | inl h ↦ cleared c _ (ground arith) (ground arith) (ground arith)
      | inr h ↦ keeps (ground arith) (ground arith) (same_flights (ground arith))
    ]

send_message-messages : (text : Text) (c : Chat) → MessageChange c (send_message text c)
unfolding send_message
send_message-messages text c =
    elim (Bool-cases (truthy (trim text) && is_connected_status c.status)) [
      | inl h ↦
          writes (own_message c.next c.now text) (ground arith) refl (ground arith) refl
            (ground arith)
      | inr h ↦ keeps (ground arith) (ground arith) (same_flights (ground arith))
    ]

pub step-messages : (e : Event) (c : Chat) → MessageChange c (step e c)
unfolding step
step-messages (Event.receives json m) c = elim (Bool-cases c.mounted) [
  | inl h ↦
      MessageChange-same (take_session m c) c (on_type m.kind json m (take_session m c)) _
        (ground arith) (ground arith) (ground arith) (ground arith) (ground arith) (ground arith)
        (ground arith) (on_type-messages m.kind json m (take_session m c))
  | inr h ↦ keeps (ground arith) (ground arith) (same_flights (ground arith))
]
step-messages Event.fails_to_set_up c = set_up_failed-messages c
step-messages Event.closes c = on_close-messages c
step-messages Event.unmounts c = cleared c _ (ground arith) (ground arith) (ground arith)
step-messages (Event.starts interests token) c = start_search-messages interests token c
step-messages (Event.starts_connected interests token) c =
    cleared c _ (ground arith) (ground arith) (ground arith)
step-messages Event.leaves c = leave-messages c
step-messages Event.skips c = skip_peer-messages c
step-messages (Event.writes text) c = send_message-messages text c
step-messages (Event.is_answered f reply) c = landing-messages f (verdict reply) c
step-messages (Event.is_rejected f) c = landing-messages f failure c
step-messages _ c = keeps (ground arith) (ground arith) (same_flights (ground arith))
