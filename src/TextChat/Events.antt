-- ===== src/TextChat/Events.antt =====
-- Everything that can happen to the hook frontend/client/src/hooks/useTextChat.tsx, in any order.
use pairline.Base.{ℕ, Text, List, [], ◌∷◌, Option, Bool, any, ◌==◌, ◌&&◌, if◌then◌else◌, ◌+◌}
use pairline.Message.{Message, Reply}
use pairline.WebSocket.Events
use pairline.Chat.{verdict, failure}
use pairline.TextChat.{Chat, Flight, handle_message, typing_timer_fired}
use pairline.TextChat.Actions.{
  set_up, set_up_failed, on_reconnecting, on_max_retries, on_open, on_close, unmount, start_search,
  search_connected, search_failed, stop_search, leave, skip_peer, send_message, land, send_typing,
}

pub data Event : Type 0 where
  sets_up fails_to_set_up : Event
  receives : Option Text → Message → Event
  reconnects gives_up opens closes unmounts : Event
  starts starts_connected : Text → Option Text → Event
  fails_to_start stops leaves skips : Event
  writes : Text → Event
  is_answered : Flight → Reply → Event
  is_rejected : Flight → Event
  types : Bool → Event
  typing_ends : ℕ → Event
  -- The client changes by events of its own, and the clock goes on.
  client_moves : Events.Event → Event
  clock_moves : ℕ → Event

abbrev pub is_flight : Flight → List Flight → Bool
is_flight f = any (λ (g : Flight). g.message_id == f.message_id && g.chat_epoch == f.chat_epoch)

-- The handler of messages runs only while the hook is mounted; a promise settles and a timer fires
-- only if it is there.
unfoldable pub step : Event → Chat → Chat
unfolding set_up set_up_failed on_reconnecting on_max_retries on_open on_close unmount start_search
    search_connected search_failed stop_search leave skip_peer send_message land send_typing
    handle_message typing_timer_fired
step sets_up c = set_up c
step fails_to_set_up c = set_up_failed c
step (receives json m) c = if c.mounted then handle_message json m c else c
step reconnects c = on_reconnecting c
step gives_up c = on_max_retries c
step opens c = on_open c
step closes c = on_close c
step unmounts c = unmount c
step (starts interests token) c = start_search interests token c
step (starts_connected interests token) c = search_connected interests token c
step fails_to_start c = search_failed c
step stops c = stop_search c
step leaves c = leave c
step skips c = skip_peer c
step (writes text) c = send_message text c
step (is_answered f reply) c = if is_flight f c.flights then land f (verdict reply) c else c
step (is_rejected f) c = if is_flight f c.flights then land f failure c else c
step (types b) c = send_typing b c
step (typing_ends t) c = if any (λ u. u == t) c.timers then typing_timer_fired t c else c
step (client_moves e) c = record c { client = Events.step e c.client }
step (clock_moves n) c = record c { now = c.now + n }

unfoldable pub run : List Event → Chat → Chat
run [] c = c
run (e ∷ es) c = run es (step e c)
