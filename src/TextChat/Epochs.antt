-- ===== src/TextChat/Epochs.antt =====
-- The chat epoch of frontend/client/src/hooks/useTextChat.tsx: replies to the messages of an earlier
-- chat do nothing.
use pairline.Base.{
  ℕ, ◌+◌, ◌<◌, ◌≤◌, Text, truthy, trim, not, List, [], ◌∷◌, Option, Bool, true, false, ◌==◌, ◌&&◌,
  keep, is_some, All, if◌then◌else◌, Bool-cases, inl, inr, ◌≡◌, refl, arith,
}
use pairline.Message.{Message, MessageType, Outgoing}
use pairline.WebSocket
use pairline.WebSocket.Sending.{send}
use pairline.Chat.{is_connected_status, Verdict, verdict, failure}
use pairline.TextChat.{Chat, Flight, new, on_type, take_session}
use pairline.TextChat.Actions.{settle_flight, land, send_message}
use pairline.TextChat.Events.{Event, step, run, is_flight}

on_type-epoch :
    (k : MessageType) (json : Option Text) (m : Message) (c : Chat)
    → c.chat_epoch ≤ (on_type k json m c).chat_epoch
unfolding on_type
on_type-epoch MessageType.match json m c = ground arith
on_type-epoch _ json m c = ground arith

step-epoch : (e : Event) (c : Chat) → c.chat_epoch ≤ (step e c).chat_epoch
unfolding step
step-epoch (Event.receives json m) c =
    ground (arith, on_type-epoch m.kind json m (take_session m c))
step-epoch _ c = ground arith

run-epoch : (es : List Event) (c : Chat) → c.chat_epoch ≤ (run es c).chat_epoch
unfolding run
run-epoch [] c = omega arith
run-epoch (e ∷ es) c = omega (arith, step-epoch e c, run-epoch es (step e c))

-- The messages of the server that end a chat or begin one.
abbrev is_boundary : MessageType → Bool
is_boundary MessageType.match = true
is_boundary MessageType.disconnected = true
is_boundary MessageType.banned = true
is_boundary MessageType.timeout = true
is_boundary MessageType.stopped = true
is_boundary _ = false

-- The events that begin a new epoch in a chat: those messages, a search that is started, and a
-- disconnect or a skip that the client could send.
abbrev begins : Event → Chat → Bool
begins (Event.receives json m) c = c.mounted && is_boundary m.kind
begins Event.unmounts c = true
begins (Event.starts interests token) c = WebSocket.is_connected c.client
begins (Event.starts_connected interests token) c = true
begins Event.leaves c = is_some (send Outgoing.disconnect c.client)
begins Event.skips c = is_connected_status c.status && is_some (send Outgoing.skip c.client)
begins _ c = false

on_type-begins :
    (k : MessageType) (json : Option Text) (m : Message) (c : Chat)
    → is_boundary k ≡ true
    → (on_type k json m c).chat_epoch ≡ c.chat_epoch + 1
unfolding on_type
on_type-begins MessageType.match json m c b = ground arith
on_type-begins _ json m c b = ground arith

step-begins : (e : Event) (c : Chat) → begins e c ≡ true → (step e c).chat_epoch ≡ c.chat_epoch + 1
unfolding step
step-begins (Event.receives json m) c b =
    ground (arith, on_type-begins m.kind json m (take_session m c))
step-begins _ c b = ground arith

-- The epochs of the messages that are under way lie in the past or the present.
abbrev AreReached : ℕ → List Flight → Type 0
AreReached epoch = All (λ (f : Flight). f.chat_epoch ≤ epoch)

reached_mono : (e e' : ℕ) (fs : List Flight) → e ≤ e' → AreReached e fs → AreReached e' fs
reached_mono e e' [] h a = tt
reached_mono e e' (f ∷ fs) h a = (omega arith, reached_mono e e' fs h a.1)

reached_keep :
    (e : ℕ) (p : Flight → Bool) (fs : List Flight) → AreReached e fs → AreReached e (keep p fs)
reached_keep e p [] a = tt
reached_keep e p (f ∷ fs) a = elim (Bool-cases (p f)) [
  | inl h ↦ rw h (a.0, reached_keep e p fs a.1)
  | inr h ↦ rw h (reached_keep e p fs a.1)
]

reached_flight :
    (e : ℕ) (f : Flight) (fs : List Flight)
    → AreReached e fs
    → is_flight f fs ≡ true
    → f.chat_epoch ≤ e
reached_flight e f [] a h = absurd (ground arith)
reached_flight e f (g ∷ fs) a h = ground (arith, reached_flight e f fs)

on_type-flights :
    (k : MessageType) (json : Option Text) (m : Message) (c : Chat)
    → (on_type k json m c).flights ≡ c.flights
unfolding on_type
on_type-flights MessageType.match json m c = ground arith
on_type-flights _ json m c = ground arith

-- The flight that a message starts, and those that are left when one has landed.
abbrev pub launched : Chat → Flight
launched c = record { message_id = c.next; chat_epoch = c.chat_epoch }

abbrev pub without : Flight → List Flight → List Flight
without f = keep (λ (g : Flight). not (g.message_id == f.message_id))

-- What an event does to the messages that are under way.
pub data FlightChange (c d : Chat) : Type 0 where
  unchanged : d.flights ≡ c.flights → FlightChange c d
  launches : d.flights ≡ launched c ∷ c.flights → FlightChange c d
  lands :
      (f : Flight)
      → is_flight f c.flights ≡ true
      → d.flights ≡ without f c.flights
      → FlightChange c d

landing :
    (f : Flight) (v : Verdict) (c : Chat)
    → FlightChange c (if is_flight f c.flights then land f v c else c)
unfolding land
landing f v c = elim (Bool-cases (is_flight f c.flights)) [
  | inl h ↦ rw h (lands f h (ground arith))
  | inr h ↦ rw h (unchanged refl)
]

writing : (text : Text) (c : Chat) → FlightChange c (send_message text c)
unfolding send_message
writing text c = elim (Bool-cases (truthy (trim text) && is_connected_status c.status)) [
  | inl h ↦ rw h (launches refl)
  | inr h ↦ rw h (unchanged refl)
]

step-flights : (e : Event) (c : Chat) → FlightChange c (step e c)
unfolding step
step-flights (Event.receives json m) c =
    unchanged (ground (arith, on_type-flights m.kind json m (take_session m c)))
step-flights (Event.writes text) c = writing text c
step-flights (Event.is_answered f reply) c = landing f (verdict reply) c
step-flights (Event.is_rejected f) c = landing f failure c
step-flights _ c = unchanged (ground arith)

step-AreReached :
    (e : Event) (c : Chat)
    → AreReached c.chat_epoch c.flights
    → AreReached (step e c).chat_epoch (step e c).flights
step-AreReached e c a =
    reached_mono c.chat_epoch (step e c).chat_epoch (step e c).flights (step-epoch e c)
      (elim (step-flights e c) [
        | unchanged h ↦ rw h a
        | launches h ↦ rw h (omega arith, a)
        | lands f i h ↦ rw h (reached_keep c.chat_epoch _ c.flights a)
      ])

run-AreReached :
    (es : List Event) (c : Chat)
    → AreReached c.chat_epoch c.flights
    → AreReached (run es c).chat_epoch (run es c).flights
unfolding run
run-AreReached [] c a = a
run-AreReached (e ∷ es) c a = run-AreReached es (step e c) (step-AreReached e c a)

-- Once an event has begun a new chat, a reply to a message that was under way before it (a failure
-- too) changes nothing, however many events come between: neither the messages nor anything else.
pub old_reply_ignored :
    (ds : List Event) (ws_url : Text) (e : Event) (es : List Event) (f : Flight) (v : Verdict)
    → is_flight f (run ds (new ws_url)).flights ≡ true
    → begins e (run ds (new ws_url)) ≡ true
    → settle_flight f v (run es (step e (run ds (new ws_url))))
      ≡ run es (step e (run ds (new ws_url)))
unfolding settle_flight new
old_reply_ignored ds ws_url e es f v i b =
    let c = run ds (new ws_url) in
    let old : f.chat_epoch ≤ c.chat_epoch =
      reached_flight c.chat_epoch f c.flights (run-AreReached ds (new ws_url) tt) i in
    let later : c.chat_epoch < (run es (step e c)).chat_epoch =
      omega (arith, step-begins e c b, run-epoch es (step e c)) in
    ground arith
