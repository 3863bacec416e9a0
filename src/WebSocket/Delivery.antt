-- ===== src/WebSocket/Delivery.antt =====
-- What reaches the handlers and the callers of frontend/client/src/services/websocket.ts: the
-- messages of the channel, and the outcome of `sendWithResponse`.
use pairline.Base.{
  ℕ, List, [], ◌∷◌, ◌++◌, map, Option, or_else, Bool, true, false, if◌then◌else◌, ◌≡◌, ◌≢◌, ◌∙◌,
  refl, sym, ap, arith,
}
use mathlib.Core.List.{append-nil, append_assoc}
use pairline.Message.{MessageType, Body, Message, Outgoing, typed, as_message}
use pairline.WebSocket.{Client, Call, on_message, event, is_connected}
use pairline.WebSocket.Sending.{
  is_forwarded, channel_event, Outcome, waiting, answered, timed_out, not_connected, Request,
  Response, reply_ok, reply_error, timer, respond, respond_all, send_with_response,
}

-- An event of the channel: its name, the `type` in its payload if there is one, and the rest.
pub record Incoming : Type 0 where
  pub name : MessageType
  pub payload_type : Option MessageType
  pub body : Body

pub receive_all : List Incoming → Client → Client
receive_all [] c = c
receive_all (i ∷ is) c = receive_all is (channel_event i.name i.payload_type i.body c)

abbrev message_of : Incoming → Message
message_of i = record { kind = or_else i.payload_type i.name; body = i.body }

-- The calls that a list of events must lead to: for each forwarded event in turn, one call of each
-- handler in turn.
abbrev pub deliveries : List ℕ → List Incoming → List Call
deliveries handlers [] = []
deliveries handlers (i ∷ is) =
    (if is_forwarded i.name then map (λ h. on_message h (message_of i)) handlers else [])
    ++ deliveries handlers is

receive_one :
    (i : Incoming) (c : Client)
    → ((channel_event i.name i.payload_type i.body c).calls
        ≡ c.calls
          ++ (if is_forwarded i.name
              then map (λ h. on_message h (message_of i)) c.message_handlers
              else []))
      × ((channel_event i.name i.payload_type i.body c).message_handlers ≡ c.message_handlers)
unfolding channel_event
receive_one i c = ground (arith, append-nil c.calls)

-- Every event that the channel forwards is delivered to every handler exactly once, in the order
-- of the events and for each in the order of registration; other events are delivered to none.
pub receive_all_delivers :
    (is : List Incoming) (c : Client)
    → (receive_all is c).calls ≡ c.calls ++ deliveries c.message_handlers is
unfolding receive_all
receive_all_delivers [] c = sym (append-nil c.calls)
receive_all_delivers (i ∷ is) c =
    let d = channel_event i.name i.payload_type i.body c in
    let (e, m) = receive_one i c in
    receive_all_delivers is d
    ∙ cc (
      e,
      m,
      append_assoc c.calls
          (if is_forwarded i.name
            then map (λ h. on_message h (message_of i)) c.message_handlers
            else [])
          (deliveries c.message_handlers is),
    )

-- The outcome that an event gives to a request which still waits.
abbrev first_outcome : Response → Outcome
first_outcome (reply_ok reply) = answered reply
first_outcome (reply_error reply) = answered (typed (as_message reply))
first_outcome timer = timed_out

settled_stays :
    (es : List Response) (r : Request)
    → r.outcome ≢ waiting
    → (respond_all es r).outcome ≡ r.outcome
unfolding respond_all respond
settled_stays [] r h = refl
settled_stays (e ∷ es) r h = settled_stays es (respond e r) (ground arith) ∙ ground arith

request_sent :
    (o : Outgoing) (c : Client)
    → ((send_with_response o c).1 ≡ (
        if is_connected c
        then record { outcome = waiting; timer_set = true }
        else record { outcome = not_connected; timer_set = false }))
      × ((send_with_response o c).0.pushes
          ≡ (if is_connected c then c.pushes ++ event o ∷ [] else c.pushes))
unfolding send_with_response
request_sent o c = ground arith

respond-ne-waiting :
    (e : Response) (b : Bool)
    → (respond e (
        if b
        then record { outcome = waiting; timer_set = true }
        else record { outcome = not_connected; timer_set = false })).outcome
      ≡ (if b then first_outcome e else not_connected)
unfolding respond
respond-ne-waiting e b = ground arith

decided : (e : Response) (b : Bool) → (if b then first_outcome e else not_connected) ≢ waiting
decided e b h = ground arith

-- A request of a connected client is pushed and waits until something happens; the first reply or
-- the timer decides its outcome (an error reply counts as an answer of type `error` unless it has a
-- type of its own), and nothing that follows changes it. A client that is not connected pushes
-- nothing, and its request has failed at once and for good.
pub send_with_response_outcome :
    (o : Outgoing) (c : Client) (e : Response) (es : List Response)
    → ((send_with_response o c).0.pushes
        ≡ (if is_connected c then c.pushes ++ event o ∷ [] else c.pushes))
      × ((send_with_response o c).1.outcome ≡ (if is_connected c then waiting else not_connected))
      × ((respond_all (e ∷ es) (send_with_response o c).1).outcome
          ≡ (if is_connected c then first_outcome e else not_connected))
unfolding respond_all
send_with_response_outcome o c e es =
    let (sent, pushed) = request_sent o c in
    let first = respond-ne-waiting e (is_connected c) in
    (
      pushed,
      ap (λ (r : Request). r.outcome) sent ∙ ground arith,
      rw sent (settled_stays es _ (λ h. decided e (is_connected c) (sym first ∙ h)) ∙ first),
    )
