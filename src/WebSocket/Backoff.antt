-- ===== src/WebSocket/Backoff.antt =====
-- The reconnection of frontend/client/src/services/websocket.ts: the delays, and how many rounds
-- of failure it takes until the client gives up.
use pairline.Base.{
  ℕ, zero, suc, ◌+◌, ◌*◌, ◌^◌, ◌≤◌, ◌<◌, ◌==◌, min, List, [], ◌∷◌, ◌++◌, map, any, length, All,
  none, some, is_some, Bool, true, false, not, ◌&&◌, ◌||◌, if◌then◌else◌, if-holds, elim-holds, ◌≡◌,
  ◌∙◌, refl, arith,
}
use native.Mathlib.Nat.{pow-suc}
use pairline.WebSocket.{
  Client, Answer, Timer, Promise, settle, on_max_retries, on_close, backoff, timer_fired,
  socket_closed, join_error,
}

backoff_bounds : (n : ℕ) → (1000 ≤ backoff n) × (backoff n ≤ 30000)
unfolding backoff
backoff_bounds zero = omega arith
backoff_bounds (suc n) = omega (arith, backoff_bounds n, pow-suc 2 n)

-- The socket closes, which only a socket that is there can report.
pub closes : Client → Client
closes c = if is_some c.socket then socket_closed c else c

-- The timer that was set last fires, if it is still set.
pub fires : Answer → Client → Client
fires a c = elim c.reconnect_timeout [
  | none ↦ c
  | some t ↦ if any (λ (x : Timer). x.id == t) c.timers then timer_fired t a c else c
]

-- A failure of an attempt: how Phoenix answers its calls, and whether, if none of them throws, it
-- refuses the join afterwards, with the socket still open.
pub record Failure : Type 0 where
  pub answer : Answer
  pub is_refused : Bool

refuse : Failure → Client → Client
refuse f c =
    if f.is_refused && not (f.answer.connect_throws || f.answer.join_throws)
    then elim c.connect_promise [ none ↦ c | some p ↦ join_error p c ]
    else c

-- One round of failure: the socket closes, the timer that is then set fires, and the attempt fails.
pub round : Failure → Client → Client
round f c = refuse f (fires f.answer (closes c))

pub rounds : List Failure → Client → Client
rounds [] c = c
rounds (f ∷ fs) c = rounds fs (round f c)

-- An attempt that makes a socket, whatever happens then; after a throw of `new Socket` there is none
-- whose close could be reported.
abbrev pub MakesSocket : Failure → Type 0
MakesSocket f = f.answer.socket_throws ≡ false

-- A client that may reconnect, and has no timer set.
pub record IsTrying (c : Client) : Type 0 where
  pub may : c.should_reconnect ≡ true
  pub idle : c.timers ≡ []

-- A client whose socket has closed, with the timer of the next attempt.
pub record IsWaiting (b c : Client) : Type 0 where
  pub may : c.should_reconnect ≡ true
  pub no_channel : c.channel ≡ none
  pub no_promise : c.connect_promise ≡ none
  pub no_socket : c.socket ≡ none
  pub timer_set : c.timers ≡ (record { id = b.next; delay = backoff b.reconnect_attempts }) ∷ []
  pub timer_known : c.reconnect_timeout ≡ some b.next
  pub attempts_kept : c.reconnect_attempts ≡ b.reconnect_attempts
  pub max_retries_kept : c.max_retries_handlers ≡ b.max_retries_handlers
  pub close_kept : c.close_handlers ≡ b.close_handlers

pub closes-IsWaiting :
    (c : Client)
    → IsTrying c
    → is_some c.socket ≡ true
    → c.reconnect_attempts < 10
    → IsWaiting c (closes c)
unfolding closes socket_closed
closes-IsWaiting c t s h = record {
  may = ground arith;
  no_channel = ground arith;
  no_promise = ground arith;
  no_socket = ground arith;
  timer_set = ground arith;
  timer_known = ground arith;
  attempts_kept = ground arith;
  max_retries_kept = ground arith;
  close_kept = ground arith;
}

-- What a round leads to from `b`: a client that goes on trying, one attempt later, with a socket.
pub record IsTriedOnce (b c : Client) : Type 0 where
  pub trying : IsTrying c
  pub has_socket : is_some c.socket ≡ true
  pub attempts : c.reconnect_attempts ≡ b.reconnect_attempts + 1
  pub max_retries_kept : c.max_retries_handlers ≡ b.max_retries_handlers
  pub close_kept : c.close_handlers ≡ b.close_handlers

pub fires-lem : (b c : Client) (a : Answer) → IsWaiting b c → fires a c ≡ timer_fired b.next a c
unfolding fires
fires-lem b c a w = rw (w.timer_known, w.timer_set) (ground arith)

fired-IsTriedOnce :
    (b c : Client) (a : Answer)
    → IsWaiting b c
    → a.socket_throws ≡ false
    → IsTriedOnce b (timer_fired b.next a c)
unfolding timer_fired
fired-IsTriedOnce b c a w m = record {
  trying = record { may = ground arith; idle = ground arith };
  has_socket = ground arith;
  attempts = ground arith;
  max_retries_kept = ground arith;
  close_kept = ground arith;
}

ended-IsTriedOnce :
    (b c : Client) (ps : List Promise)
    → IsTriedOnce b c
    → IsTriedOnce b (record c { connect_promise = none; is_connecting = false; settled = ps })
ended-IsTriedOnce b c ps t = record {
  trying = record { may = t.trying.may; idle = t.trying.idle };
  has_socket = t.has_socket;
  attempts = t.attempts;
  max_retries_kept = t.max_retries_kept;
  close_kept = t.close_kept;
}

refuse-IsTriedOnce : (b c : Client) (f : Failure) → IsTriedOnce b c → IsTriedOnce b (refuse f c)
unfolding refuse join_error settle
refuse-IsTriedOnce b c f t =
    if-holds (IsTriedOnce b) (f.is_refused && not (f.answer.connect_throws || f.answer.join_throws))
      (elim-holds (IsTriedOnce b) c.connect_promise t (λ p.
        if-holds (IsTriedOnce b) (any (λ (q : Promise). q.id == p) c.settled)
          (ended-IsTriedOnce b c c.settled t) (ended-IsTriedOnce b c _ t)))
      t

round-IsTriedOnce :
    (f : Failure) (c : Client)
    → MakesSocket f
    → IsTrying c
    → is_some c.socket ≡ true
    → c.reconnect_attempts < 10
    → IsTriedOnce c (round f c)
unfolding round
round-IsTriedOnce f c m t s h =
    let w = closes-IsWaiting c t s h in
    refuse-IsTriedOnce c _ f
      (rw (fires-lem c (closes c) f.answer w) (fired-IsTriedOnce c (closes c) f.answer w m))

pub rounds-IsTrying :
    (fs : List Failure) (c : Client)
    → All MakesSocket fs
    → IsTrying c
    → is_some c.socket ≡ true
    → length fs + c.reconnect_attempts ≤ 10
    → IsTrying (rounds fs c)
      × (is_some (rounds fs c).socket ≡ true)
      × ((rounds fs c).reconnect_attempts ≡ c.reconnect_attempts + length fs)
      × ((rounds fs c).max_retries_handlers ≡ c.max_retries_handlers)
      × ((rounds fs c).close_handlers ≡ c.close_handlers)
unfolding rounds
rounds-IsTrying [] c ms t s h = (t, s, omega arith, refl, refl)
rounds-IsTrying (f ∷ fs) c (m, ms) t s h =
    let r = round-IsTriedOnce f c m t s (omega arith) in
    let e = r.attempts in
    let (t', s', e', k, l) =
      rounds-IsTrying fs (round f c) ms r.trying r.has_socket (omega arith) in
    (t', s', omega arith, k ∙ r.max_retries_kept, l ∙ r.close_kept)

-- A client without a set timer that may reconnect sets exactly one timer when its socket closes,
-- while it has made fewer than ten attempts; the delay is 1000 ms times 2 to the number of attempts,
-- at most 30000 ms.
pub socket_closed_sets_timer :
    (c : Client)
    → IsTrying c
    → c.reconnect_attempts < 10
    → ((socket_closed c).timers
        ≡ (record { id = c.next; delay = min (1000 * 2 ^ c.reconnect_attempts) 30000 }) ∷ [])
      × ((socket_closed c).reconnect_timeout ≡ some c.next)
unfolding socket_closed backoff
socket_closed_sets_timer c t h = ground arith

close_at_limit :
    (c : Client)
    → IsTrying c
    → is_some c.socket ≡ true
    → c.reconnect_attempts ≡ 10
    → ((closes c).should_reconnect ≡ false)
      × ((closes c).timers ≡ [])
      × ((closes c).socket ≡ none)
      × ((closes c).calls
          ≡ (c.calls ++ map on_close c.close_handlers) ++ map on_max_retries c.max_retries_handlers)
unfolding closes socket_closed
close_at_limit c t s h = ground arith

-- With nothing but failures a client that has a socket, may reconnect and has no timer set gives up:
-- once the rounds of failure, each a
-- close of the socket and an attempt that makes a new one, have brought the attempts to ten, the next
-- close of the socket, which there is, sets no timer, ends the reconnection and calls the handlers of
-- `onClose` and then those of `onMaxRetries`, each once and in order. An attempt may fail in any way
-- but by a throw of `new Socket`, each in its own.
pub rounds_give_up :
    (fs : List Failure) (c : Client)
    → All MakesSocket fs
    → IsTrying c
    → is_some c.socket ≡ true
    → length fs + c.reconnect_attempts ≡ 10
    → (is_some (rounds fs c).socket ≡ true)
      × ((closes (rounds fs c)).should_reconnect ≡ false)
      × ((closes (rounds fs c)).timers ≡ [])
      × ((closes (rounds fs c)).socket ≡ none)
      × ((closes (rounds fs c)).calls
          ≡ ((rounds fs c).calls ++ map on_close c.close_handlers)
            ++ map on_max_retries c.max_retries_handlers)
rounds_give_up fs c ms t s h =
    let (t', s', e, m, k) = rounds-IsTrying fs c ms t s (omega arith) in
    let (o, i, n, l) = close_at_limit (rounds fs c) t' s' (omega arith) in
    (s', o, i, n, l ∙ cc (m, k))
