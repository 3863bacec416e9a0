-- ===== src/Chat.antt =====
-- What the two hooks frontend/client/src/hooks/useTextChat.tsx and useVideoChat.tsx share: the
-- status, the list of messages and the texts that are put together from a message of the server.
pub mod Delivery
use pairline.Base.{
  ℕ, Text, lit, text_eq, truthy, List, [], ◌∷◌, ◌++◌, map, Option, none, some, or_else, Bool, true,
  false, ◌==◌, ◌||◌, not, if◌then◌else◌,
}
use pairline.Message.{
  Message, MessageType, Body, Data, Reply, typed, untyped, ChatMessage, Sender, DeliveryStatus,
  blocked, failed, sent, blocked_phrase_notice, banned_phrase_reason,
}

pub data Status : Type 0 where
  idle searching connected disconnected : Status

abbrev pub is_connected_status : Status → Bool
is_connected_status connected = true
is_connected_status _ = false

-- `a || null`: an empty or missing text is no text.
abbrev pub present : Option Text → Option Text
present none = none
present (some []) = none
present (some (c ∷ s)) = some (c ∷ s)

-- `a || b`.
abbrev or_text : Option Text → Option Text → Option Text
or_text none b = b
or_text (some []) b = b
or_text (some (c ∷ s)) b = some (c ∷ s)

-- `message.data?.field`.
abbrev pub data_field {ℓ} : {A : Type ℓ} → (Data → Option A) → Message → Option A
data_field f m = elim m.body.details [ none ↦ none | some d ↦ f d ]

abbrev pub system_message : ℕ → ℕ → Text → Option Text → ChatMessage
system_message id now text reason = record {
  id = id;
  text = text;
  sender = Sender.system;
  timestamp = now;
  delivery_status = none;
  system_reason = reason;
}

abbrev pub peer_message : ℕ → ℕ → Text → ChatMessage
peer_message id now text = record {
  id = id;
  text = text;
  sender = Sender.peer;
  timestamp = now;
  delivery_status = none;
  system_reason = none;
}

abbrev pub own_message : ℕ → ℕ → Text → ChatMessage
own_message id now text = record {
  id = id;
  text = text;
  sender = Sender.me;
  timestamp = now;
  delivery_status = some DeliveryStatus.pending;
  system_reason = none;
}

-- `updateDeliveryStatus`, on the list.
unfoldable pub update_delivery_status :
    ℕ → DeliveryStatus → Option Text → List ChatMessage → List ChatMessage
update_delivery_status message_id status replacement_text = map (λ m.
    if m.id == message_id
    then record m { text = or_else replacement_text m.text; delivery_status = some status }
    else m)

-- `texts.join(', ')`.
unfoldable pub join_comma : List Text → Text
join_comma [] = []
join_comma (t ∷ []) = t
join_comma (t ∷ u ∷ ts) = t ++ (lit ", " ++ join_comma (u ∷ ts))

-- The reason of a ban, and the text of an error; `json` is `JSON.stringify(message.data)`.
unfoldable pub ban_reason : Message → Text
ban_reason m =
    or_else (or_text (data_field (λ d. d.reason) m) (present m.body.reason))
      (lit "Banned by an administrator")

unfoldable pub error_text : Option Text → Message → Text
error_text json m =
    or_else
      (or_text (data_field (λ d. d.message) m) (
        or_text (data_field (λ d. d.error) m)
          (or_text (data_field (λ d. d.reason) m) (present json))))
      (lit "An error occurred")

-- What the answer to a sent message does to the chat: the new status of the message, if it gets
-- one, and the system message that is pushed, with its reason.
pub record Verdict : Type 0 where
  pub status : Option DeliveryStatus
  pub notice : Option Text
  pub notice_reason : Option Text

abbrev pub text_is : Option Text → Text → Bool
text_is none t = false
text_is (some s) t = text_eq s t

unfoldable pub is_blocked : Message → Bool
is_blocked m =
    text_is (data_field (λ d. d.reason_code) m) banned_phrase_reason
    || text_is (data_field (λ d. d.message) m) blocked_phrase_notice

unfoldable pub send_error_text : Message → Text
send_error_text m =
    or_else
      (or_text (data_field (λ d. d.message) m)
        (or_text (data_field (λ d. d.error) m) (present (data_field (λ d. d.reason) m))))
      (lit "Message could not be sent. Please try again.")

verdict_on_type : MessageType → Message → Verdict
unfolding is_blocked send_error_text
verdict_on_type MessageType.system m =
    if is_blocked m
    then record {
      status = some blocked;
      notice = some (or_else (present (data_field (λ d. d.message) m)) blocked_phrase_notice);
      notice_reason =
          some (or_else (present (data_field (λ d. d.reason_code) m)) banned_phrase_reason);
    }
    else record { status = none; notice = none; notice_reason = none }
verdict_on_type MessageType.error m = record {
  status = some failed;
  notice = some (lit "Message could not be sent: " ++ send_error_text m);
  notice_reason = none;
}
verdict_on_type _ m = record { status = some sent; notice = none; notice_reason = none }

-- The callback of `then`.
unfoldable pub verdict : Reply → Verdict
unfolding verdict_on_type
verdict (typed m) = verdict_on_type m.kind m
verdict (untyped payload) = record { status = some sent; notice = none; notice_reason = none }

-- The callback of `catch`.
abbrev pub failure : Verdict
failure = record {
  status = some failed;
  notice = some (lit "Message could not be sent right now. Please try again.");
  notice_reason = none;
}
