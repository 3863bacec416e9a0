-- ===== src/Message.antt =====
-- frontend/client/src/types/index.ts and chatModeration.ts: the messages of the wire and of the
-- chat window. `data?: any` is the record of the fields that the hooks read.
use pairline.Base.{ℕ, Text, lit, List, Option, none, Bool}

-- `unlisted` is any other string that the wire may carry as a type.
pub data MessageType : Type 0 where
  offer answer ice message match disconnect disconnected error banned timeout : MessageType
  stopped typing pong connected searching skipped webrtc_ready webrtc_start system : MessageType
  unlisted : MessageType

pub record Data : Type 0 where
  pub content : Option Text
  pub message : Option Text
  pub error : Option Text
  pub reason : Option Text
  pub reason_code : Option Text
  pub typing : Option Bool
  pub sdp : Option Text
  pub candidate : Option Text

pub data SessionKind : Type 0 where
  human bot : SessionKind

-- The fields beside `type`; `common_interests` and `reason` are read through `any`.
pub record Body : Type 0 where
  pub details : Option Data
  pub peer_id : Option Text
  pub partner_session_kind : Option SessionKind
  pub partner_bot_type : Option Text
  pub video_enabled : Option Bool
  pub reportable : Option Bool
  pub session_id : Option Text
  pub session_token : Option Text
  pub common_interests : Option (List Text)
  pub reason : Option Text

pub record Message : Type 0 where
  pub kind : MessageType
  pub body : Body

pub data Sender : Type 0 where
  me peer system : Sender

pub data DeliveryStatus : Type 0 where
  pending sent blocked failed : DeliveryStatus

-- `id` is a random UUID in the source: a number that no other message has.
pub record ChatMessage : Type 0 where
  pub id : ℕ
  pub text : Text
  pub sender : Sender
  pub timestamp : ℕ
  pub delivery_status : Option DeliveryStatus
  pub system_reason : Option Text

abbrev pub blocked_phrase_notice : Text
blocked_phrase_notice = lit "This message was not sent due to containing a banned phrase."

abbrev pub banned_phrase_reason : Text
banned_phrase_reason = lit "banned_phrase"

-- What the hooks push on the channel: the event's name and its `data`.
pub data Outgoing : Type 0 where
  start : (token : Option Text) (mode interests : Text) → Outgoing
  stop disconnect skip webrtc_ready : Outgoing
  message : (content : Text) → Outgoing
  typing : Bool → Outgoing

-- The payload of a reply: a message if its `type` is there, otherwise seen through the fields that
-- its readers use.
pub data Reply : Type 0 where
  typed : Message → Reply
  untyped : Option Data → Reply

-- `{ type: 'error', data: payload }`.
unfoldable pub error_message : Option Data → Message
error_message payload = record {
  kind = MessageType.error;
  body = record {
    details = payload;
    peer_id = none;
    partner_session_kind = none;
    partner_bot_type = none;
    video_enabled = none;
    reportable = none;
    session_id = none;
    session_token = none;
    common_interests = none;
    reason = none;
  };
}

-- The payload of an error reply as a message.
unfoldable pub as_message : Reply → Message
unfolding error_message
as_message (typed m) = m
as_message (untyped payload) = error_message payload
