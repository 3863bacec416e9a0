-- ===== src/TextChat/Invariant.antt =====
-- What holds of a text chat (frontend/client/src/hooks/useTextChat.tsx) after any events.
use pairline.Base.{Text, List, [], ◌∷◌, Option, none, some, true, is_some, ◌≡◌, arith}
use pairline.Message.{Message, MessageType}
use pairline.TextChat.{Chat, new, on_type, take_session}
use pairline.TextChat.Events.{Event, step, run}

abbrev pub to_list {ℓ} : {A : Type ℓ} → Option A → List A
to_list none = []
to_list (some a) = a ∷ []

-- The typing indicator: the timers that are set are the one that is known, and an indicator that
-- shows has a timer that will take it away.
pub record IsTimed (c : Chat) : Type 0 where
  pub one_timer : c.timers ≡ to_list c.peer_typing_timeout
  pub ends : c.peer_typing ≡ true → is_some c.peer_typing_timeout ≡ true

on_type-IsTimed :
    (k : MessageType) (json : Option Text) (m : Message) (c : Chat)
    → IsTimed c
    → IsTimed (on_type k json m c)
unfolding on_type
on_type-IsTimed MessageType.match json m c v = ground arith
on_type-IsTimed _ json m c v = ground arith

step-IsTimed : (e : Event) (c : Chat) → IsTimed c → IsTimed (step e c)
unfolding step
step-IsTimed (Event.receives json m) c v =
    ground (arith, on_type-IsTimed m.kind json m (take_session m c))
step-IsTimed _ c v = ground arith

new-IsTimed : (ws_url : Text) → IsTimed (new ws_url)
unfolding new
new-IsTimed ws_url = ground arith

run-IsTimed_from : (es : List Event) (c : Chat) → IsTimed c → IsTimed (run es c)
unfolding run
run-IsTimed_from [] c v = v
run-IsTimed_from (e ∷ es) c v = run-IsTimed_from es (step e c) (step-IsTimed e c v)

-- After any events: exactly the typing timer that the hook knows is set (none if it knows none), and
-- while the stranger is shown as typing there is one, so that the indicator goes away by itself.
pub run-IsTimed : (es : List Event) (ws_url : Text) → IsTimed (run es (new ws_url))
run-IsTimed es ws_url = run-IsTimed_from es (new ws_url) (new-IsTimed ws_url)
