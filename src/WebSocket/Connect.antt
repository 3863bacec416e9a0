-- ===== src/WebSocket/Connect.antt =====
-- `connect` of frontend/client/src/services/websocket.ts: what a second call finds while the first
-- is under way, and what is left when its body throws.
use pairline.Base.{ℕ, none, true, false, any, ◌==◌, In, ◌≡◌, arith}
use pairline.WebSocket.{
  Client, Answer, Promise, closed, shared, started, is_in, joining, is_connected, connect,
}

-- Two calls in a row open one connection: when the first call made a promise and its channel is
-- not joined at once, the second call returns the same promise and leaves the client alone.
pub connect_twice :
    (a b : Answer) (c d : Client) (p : ℕ)
    → connect a c ≡ (d, started p)
    → is_connected d ≡ false
    → connect b d ≡ (d, shared p)
unfolding connect
connect_twice a b c d p e h = ground arith

-- When a call of Phoenix throws in the body of `connect`, the promise that is rejected stays in
-- `connectPromise`: the client is not connecting, and the next call of `connect` returns the
-- rejected promise and changes nothing, whatever Phoenix would answer by then.
pub connect_throw_sticks :
    (a b : Answer) (c : Client)
    → is_connected c ≡ false
    → c.connect_promise ≡ none
    → is_in joining c.channel ≡ false
    → a.join_throws ≡ true
    → a.fresh ≡ closed
    → any (λ (q : Promise). q.id == c.next) c.settled ≡ false
    → (connect b (connect a c).0 ≡ ((connect a c).0, shared c.next))
      × In (record { id = c.next; fulfilled = false }) (connect a c).0.settled
      × ((connect a c).0.is_connecting ≡ false)
unfolding connect
connect_throw_sticks a b c h p j t f n = ground arith
