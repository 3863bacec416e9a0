-- ===== src/WebSocket/Tests.antt =====
-- Runs and instances for frontend/client/src/services/websocket.ts.
use pairline.Base.{
  lit, List, [], ◌∷◌, ◌++◌, map, min, ◌*◌, ◌^◌, none, some, true, false, is_some, if◌then◌else◌, In,
  All, ◌≡◌, refl, arith,
}
use pairline.Message.{Body, MessageType, Outgoing, untyped, error_message}
use pairline.WebSocket.{
  closed, joined, joining, Client, new, Answer, shared, connect, socket_closed, disconnect,
  is_connected, on_max_retries, on_close, event,
}
use pairline.WebSocket.Events.{Event, step, run}
use pairline.WebSocket.Sending.{
  send_with_response, respond_all, waiting, not_connected, timed_out, reply_ok, timer,
}
use pairline.WebSocket.Invariant.{IsValid, run-IsValid}
use pairline.WebSocket.Connect.{connect_twice, connect_throw_sticks}
use pairline.WebSocket.Backoff.{
  IsTrying, Failure, MakesSocket, closes, rounds, rounds_give_up, socket_closed_sets_timer,
}
use pairline.WebSocket.Recovery.{IsBack, recover, rounds-recover}
use pairline.WebSocket.Disconnect.{disconnect_silences, disconnect_leaves_timer}
use pairline.WebSocket.Delivery.{
  receive_all, deliveries, receive_all_delivers, send_with_response_outcome,
}

-- Phoenix as it mostly answers, and when `join` throws.
abbrev fine : Answer
fine = record {
  socket_throws = false;
  connect_throws = false;
  join_throws = false;
  fresh = closed;
  after_join = joining;
}

abbrev refusing : Answer
refusing = record fine { join_throws = true }

abbrev client : Client
client = new (lit "ws") (lit "room")

-- Connected, with a handler of each kind.
abbrev story : List Event
story =
    Event.adds_message_handler 1
    ∷ Event.adds_close_handler 2
    ∷ Event.adds_max_retries_handler 3
    ∷ Event.connects fine
    ∷ Event.channel_moves joined
    ∷ Event.joins 0
    ∷ []

abbrev body : Body
body = (error_message none).body

abbrev online : Client
online = run story client

run-IsValid_example : IsValid (run story (new (lit "ws") (lit "room")))
run-IsValid_example = run-IsValid story (lit "ws") (lit "room")

connect_twice_test : connect refusing (connect fine client).0 ≡ ((connect fine client).0, shared 0)
unfolding connect new
connect_twice_test = connect_twice fine refusing client (connect fine client).0 0 refl refl

connect_throw_sticks_example :
    (connect fine (connect refusing client).0 ≡ ((connect refusing client).0, shared 0))
    × In (record { id = 0; fulfilled = false }) (connect refusing client).0.settled
    × ((connect refusing client).0.is_connecting ≡ false)
unfolding new is_connected
connect_throw_sticks_example =
    connect_throw_sticks refusing fine client refl refl refl refl refl refl

trying : IsTrying client
unfolding new
trying = record { may = refl; idle = refl }

-- A client whose first attempt is under way.
abbrev begun : Client
begun = (connect fine client).0

-- One attempt throws, one gets no answer, and one is refused.
abbrev three_ways : List Failure
three_ways =
    record { answer = refusing; is_refused = false }
    ∷ record { answer = fine; is_refused = false }
    ∷ record { answer = fine; is_refused = true }
    ∷ []

begun-IsTrying : IsTrying begun
unfolding new connect
begun-IsTrying = record { may = refl; idle = refl }

three_ways-MakesSocket : All MakesSocket three_ways
three_ways-MakesSocket = (refl, (refl, (refl, tt)))

-- The same after seven attempts.
abbrev tired : Client
tired = record begun { reconnect_attempts = 7 }

tired-IsTrying : IsTrying tired
unfolding new connect
tired-IsTrying = record { may = refl; idle = refl }

rounds_give_up_example :
    (is_some (rounds three_ways tired).socket ≡ true)
    × ((closes (rounds three_ways tired)).should_reconnect ≡ false)
    × ((closes (rounds three_ways tired)).timers ≡ [])
    × ((closes (rounds three_ways tired)).socket ≡ none)
    × ((closes (rounds three_ways tired)).calls
        ≡ ((rounds three_ways tired).calls ++ map on_close tired.close_handlers)
          ++ map on_max_retries tired.max_retries_handlers)
unfolding new connect
rounds_give_up_example =
    rounds_give_up three_ways tired three_ways-MakesSocket tired-IsTrying refl refl

sets_timer_example :
    ((socket_closed client).timers
      ≡ (record { id = client.next; delay = min (1000 * 2 ^ client.reconnect_attempts) 30000 })
        ∷ [])
    × ((socket_closed client).reconnect_timeout ≡ some client.next)
unfolding new
sets_timer_example = socket_closed_sets_timer client trying (omega arith)

disconnect_silences_example :
    (run (Event.joins 0 ∷ Event.socket_closes ∷ []) (disconnect online)).calls ≡ online.calls
disconnect_silences_example =
    disconnect_silences (Event.joins 0 ∷ Event.socket_closes ∷ []) online refl

-- The socket closes, a call of `connect` fails within the delay, and the socket closes again: two
-- timers are set, the first one is no longer known.
abbrev twice_closed : Client
twice_closed = run (Event.socket_closes ∷ Event.connects fine ∷ Event.socket_closes ∷ []) online

disconnect_leaves_timer_example :
    (is_some (step (Event.timer_fires 3 fine) (disconnect twice_closed)).socket ≡ true)
    × ((step (Event.timer_fires 3 fine) (disconnect twice_closed)).channel ≡ some joining)
unfolding run step new
disconnect_leaves_timer_example =
    disconnect_leaves_timer fine twice_closed 3 refl (λ e. cc) refl refl refl

receive_all_delivers_example :
    (receive_all
      ((record { name = MessageType.match; payload_type = none; body = body }) ∷ [])
      online).calls
    ≡ online.calls
      ++ deliveries online.message_handlers
          ((record { name = MessageType.match; payload_type = none; body = body }) ∷ [])
receive_all_delivers_example =
    receive_all_delivers
      ((record { name = MessageType.match; payload_type = none; body = body }) ∷ []) online

outcome_example :
    ((send_with_response Outgoing.skip online).0.pushes
      ≡ (if is_connected online then online.pushes ++ event Outgoing.skip ∷ [] else online.pushes))
    × ((send_with_response Outgoing.skip online).1.outcome
        ≡ (if is_connected online then waiting else not_connected))
    × ((respond_all
          (timer ∷ reply_ok (untyped none) ∷ [])
          (send_with_response Outgoing.skip online).1).outcome
        ≡ (if is_connected online then timed_out else not_connected))
outcome_example =
    send_with_response_outcome Outgoing.skip online timer (reply_ok (untyped none) ∷ [])

online_is_connected : is_connected online ≡ true
unfolding is_connected run step new
online_is_connected = refl

rounds-recover_example :
    (is_some (rounds three_ways begun).socket ≡ true)
    × IsBack (recover fine (rounds three_ways begun))
unfolding new connect
rounds-recover_example =
    rounds-recover three_ways fine begun three_ways-MakesSocket (refl, refl, refl) begun-IsTrying
      refl (ground arith)
