-- ===== src/WebSocket/Recovery.antt =====
-- The client of frontend/client/src/services/websocket.ts comes back after failures.
use pairline.Base.{
  ℕ, ◌+◌, ◌<◌, List, [], All, length, Option, none, some, true, false, ◌≡◌, refl, arith, is_some,
}
use pairline.WebSocket.{Client, Answer, joined, is_connected, join_ok, timer_fired}
use pairline.WebSocket.Backoff.{
  IsTrying, IsWaiting, Failure, MakesSocket, closes, fires, rounds, rounds-IsTrying,
  closes-IsWaiting, fires-lem,
}

-- The socket closes, the timer that is then set fires, and Phoenix joins the channel and reports it
-- for the promise that was made.
abbrev report_join : Option ℕ → Client → Client
report_join none c = c
report_join (some p) c = join_ok p (record c { channel = some joined })

abbrev pub recover : Answer → Client → Client
recover a c = let d = fires a (closes c) in report_join d.connect_promise d

-- Nothing that Phoenix is called for throws.
abbrev pub IsFine : Answer → Type 0
IsFine a = (a.socket_throws ≡ false) × (a.connect_throws ≡ false) × (a.join_throws ≡ false)

-- A client that has come back: connected, with all its attempts, and no timer set.
abbrev pub IsBack : Client → Type 0
IsBack c =
    (is_connected c ≡ true)
    × (c.reconnect_attempts ≡ 0)
    × (c.timers ≡ [])
    × (c.should_reconnect ≡ true)
    × (c.is_connecting ≡ false)

join_ok-IsBack :
    (p : ℕ) (c : Client) → c.channel ≡ some joined → c.timers ≡ [] → IsBack (join_ok p c)
unfolding join_ok is_connected
join_ok-IsBack p c j e = ground arith

report_join-IsBack :
    (o : Option ℕ) (c : Client) → is_some o ≡ true → c.timers ≡ [] → IsBack (report_join o c)
report_join-IsBack none c s e = absurd (ground arith)
report_join-IsBack (some p) c s e = join_ok-IsBack p (record c { channel = some joined }) refl e

fired-starts :
    (b c : Client) (a : Answer)
    → IsFine a
    → IsWaiting b c
    → (is_some (timer_fired b.next a c).connect_promise ≡ true)
      × ((timer_fired b.next a c).timers ≡ [])
unfolding timer_fired
fired-starts b c a f w = ground (arith, w.timer_set, w.no_channel, w.no_promise, w.no_socket)

recover-IsBack :
    (a : Answer) (c : Client)
    → IsFine a
    → IsTrying c
    → is_some c.socket ≡ true
    → c.reconnect_attempts < 10
    → IsBack (recover a c)
recover-IsBack a c f t s h =
    let w = closes-IsWaiting c t s h in
    let d = timer_fired c.next a (closes c) in
    let (made, none_set) = fired-starts c (closes c) a f w in
    rw (fires-lem c (closes c) a w) (report_join-IsBack d.connect_promise d made none_set)

-- A client that has a socket, may reconnect and has no timer set comes back after failures that leave
-- an attempt: each of them is a close
-- of the socket and an attempt that makes a new one and then fails in its own way, by a throw of
-- `connect` or `join`, by a refused join, or without an answer. When the socket, which there is,
-- closes once more and Phoenix accepts the next attempt, the client is connected, no timer is set, and
-- its attempts are counted from zero again.
pub rounds-recover :
    (fs : List Failure) (a : Answer) (c : Client)
    → All MakesSocket fs
    → IsFine a
    → IsTrying c
    → is_some c.socket ≡ true
    → length fs + c.reconnect_attempts < 10
    → (is_some (rounds fs c).socket ≡ true) × IsBack (recover a (rounds fs c))
rounds-recover fs a c ms f t s h =
    let (t', s', e, m, k) = rounds-IsTrying fs c ms t s (omega arith) in
    (s', recover-IsBack a (rounds fs c) f t' s' (omega arith))
