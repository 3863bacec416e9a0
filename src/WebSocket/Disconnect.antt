-- ===== src/WebSocket/Disconnect.antt =====
-- `disconnect` of frontend/client/src/services/websocket.ts: what it silences, and what it leaves.
use pairline.Base.{
  ℕ, List, [], ◌∷◌, Option, none, some, Bool, true, false, not, any, keep, ◌==◌, is_some, ◌≡◌, ◌≢◌,
  ◌∙◌, ap, refl, arith,
}
use mathlib.Core.List.{append-nil}
use pairline.WebSocket.{Client, Timer, Answer, disconnect, connect, timer_fired, clear_timer}
use pairline.WebSocket.Events.{Event, step, run}

-- Nobody listens.
pub record IsSilent (c : Client) : Type 0 where
  pub no_message : c.message_handlers ≡ []
  pub no_close : c.close_handlers ≡ []
  pub no_open : c.open_handlers ≡ []
  pub no_max_retries : c.max_retries_handlers ≡ []
  pub no_reconnecting : c.reconnecting_handlers ≡ []

-- The events that register no handler.
abbrev registers : Event → Bool
registers (Event.adds_message_handler h) = true
registers (Event.adds_close_handler h) = true
registers (Event.adds_open_handler h) = true
registers (Event.adds_max_retries_handler h) = true
registers (Event.adds_reconnecting_handler h) = true
registers _ = false

disconnect-IsSilent : (c : Client) → IsSilent (disconnect c) × ((disconnect c).calls ≡ c.calls)
unfolding disconnect
disconnect-IsSilent c = ground arith

step-IsSilent : (e : Event) (c : Client) → registers e ≡ false → IsSilent c → IsSilent (step e c)
unfolding step
step-IsSilent (Event.connects a) c r s = ground arith
step-IsSilent _ c r s = ground arith

step_calls :
    (e : Event) (c : Client) → registers e ≡ false → IsSilent c → (step e c).calls ≡ c.calls
unfolding step
step_calls (Event.connects a) c r s = ground (arith, append-nil c.calls)
step_calls _ c r s = ground (arith, append-nil c.calls)

run_silent :
    (es : List Event) (c : Client)
    → any registers es ≡ false
    → IsSilent c
    → (run es c).calls ≡ c.calls
unfolding run
run_silent [] c r s = refl
run_silent (e ∷ es) c r s =
    run_silent es (step e c) (ground arith) (step-IsSilent e c (ground arith) s)
    ∙ step_calls e c (ground arith) s

-- After `disconnect` no handler is called any more, whatever events follow, until one is
-- registered anew; `disconnect` itself calls none.
pub disconnect_silences :
    (es : List Event) (c : Client)
    → any registers es ≡ false
    → (run es (disconnect c)).calls ≡ c.calls
disconnect_silences es c r =
    run_silent es (disconnect c) r (disconnect-IsSilent c).0 ∙ (disconnect-IsSilent c).1

any-keep_ne :
    (ts : List Timer) (r t : ℕ)
    → any (λ (x : Timer). x.id == t) ts ≡ true
    → r ≢ t
    → any (λ (x : Timer). x.id == t) (keep (λ (x : Timer). not (x.id == r)) ts) ≡ true
any-keep_ne [] r t i n = i
any-keep_ne (x ∷ ts) r t i n = ground (arith, any-keep_ne ts r t)

any-clear_timer :
    (r : Option ℕ) (t : ℕ) (ts : List Timer)
    → any (λ (x : Timer). x.id == t) ts ≡ true
    → r ≢ some t
    → any (λ (x : Timer). x.id == t) (clear_timer r ts) ≡ true
any-clear_timer none t ts i n = i
any-clear_timer (some r) t ts i n = any-keep_ne ts r t i (λ e. n (ap some e))

-- `disconnect` takes out only the timer that was set last. An earlier timer that is still set
-- fires after it, and if no call of Phoenix throws, it opens a socket and a channel again.
pub disconnect_leaves_timer :
    (a : Answer) (c : Client) (t : ℕ)
    → any (λ (x : Timer). x.id == t) c.timers ≡ true
    → c.reconnect_timeout ≢ some t
    → a.socket_throws ≡ false
    → a.connect_throws ≡ false
    → a.join_throws ≡ false
    → (is_some (step (Event.timer_fires t a) (disconnect c)).socket ≡ true)
      × ((step (Event.timer_fires t a) (disconnect c)).channel ≡ some a.after_join)
unfolding step disconnect timer_fired connect
disconnect_leaves_timer a c t i n p q r =
    ground (arith, any-clear_timer c.reconnect_timeout t c.timers i n)
