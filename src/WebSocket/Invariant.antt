-- ===== src/WebSocket/Invariant.antt =====
-- What holds of the client of frontend/client/src/services/websocket.ts after any events.
use pairline.Base.{Text, List, [], ◌∷◌, Option, none, some, true, is_some, ◌≡◌, arith}
use pairline.WebSocket.{Client, new}
use pairline.WebSocket.Events.{Event, step, run}

abbrev pub to_list {ℓ} : {A : Type ℓ} → Option A → List A
to_list none = []
to_list (some a) = a ∷ []

pub record IsValid (c : Client) : Type 0 where
  pub one_heartbeat : c.intervals ≡ to_list c.room_ping_interval
  pub promised : c.is_connecting ≡ true → is_some c.connect_promise ≡ true
  pub carried : is_some c.channel ≡ true → is_some c.socket ≡ true

step-IsValid : (e : Event) (c : Client) → IsValid c → IsValid (step e c)
unfolding step
step-IsValid (Event.connects a) c v = ground arith
step-IsValid _ c v = ground arith

new-IsValid : (url topic : Text) → IsValid (new url topic)
unfolding new
new-IsValid url topic = ground arith

run-IsValid_from : (es : List Event) (c : Client) → IsValid c → IsValid (run es c)
unfolding run
run-IsValid_from [] c v = v
run-IsValid_from (e ∷ es) c v = run-IsValid_from es (step e c) (step-IsValid e c v)

-- After any events in any order: the running heartbeats are exactly the one whose number is kept
-- (none when none is kept), a client that is connecting has a promise for it, and a channel is
-- never kept without a socket.
pub run-IsValid : (es : List Event) (url topic : Text) → IsValid (run es (new url topic))
run-IsValid es url topic = run-IsValid_from es (new url topic) (new-IsValid url topic)
