-- ===== src/TextChat/Changes.antt =====
-- What the messages of frontend/client/src/hooks/useTextChat.tsx can go through in one event: the
-- kinds of change, those that a message of the server makes, and the reply to a sent message.
use pairline.Base.{
  ℕ, ◌+◌, ◌<◌, ◌≤◌, Text, lit, or_else, Option-cases, List, [], ◌∷◌, ◌++◌, Option, none, some, true,
  not, ◌==◌, In, Distinct, in-keep, if◌then◌else◌, Bool-cases, inl, inr, ◌≡◌, ◌∙◌, refl, arith,
}
use mathlib.Core.List.{append-nil}
use pairline.Message.{Message, MessageType, ChatMessage, DeliveryStatus, pending}
use pairline.Chat.{
  present, data_field, error_text, peer_message, system_message, Verdict, update_delivery_status,
}
use pairline.Chat.Delivery.{ids}
use pairline.TextChat.{
  Chat, Flight, on_type, greeting, on_match, on_peer_message, on_system, on_error,
  show_connection_status_message,
}
use pairline.TextChat.Actions.{land}
use pairline.TextChat.Events.{is_flight}
use pairline.TextChat.Epochs.{launched, without}

-- Messages whose ids lie between two numbers, each id used once.
pub record AreFresh (lo hi : ℕ) (ms : List ChatMessage) : Type 0 where
  pub above : (m : ChatMessage) → In m ms → lo ≤ m.id
  pub below : (m : ChatMessage) → In m ms → m.id < hi
  pub distinct : Distinct (ids ms)

-- No message is under way that was not before.
pub record FewerFlights (c d : Chat) : Type 0 where
  pub only : (g : Flight) → In g d.flights → In g c.flights

pub same_flights : {c d : Chat} → d.flights ≡ c.flights → FewerFlights c d
same_flights e = record { only = λ g i. rw e at i }

fewer_flights : {c d : Chat} (f : Flight) → d.flights ≡ without f c.flights → FewerFlights c d
fewer_flights {c} f e = record {
  only = λ g i.
      ((in-keep (λ (h : Flight). not (h.message_id == f.message_id)) c.flights g).0 (rw e at i)).0;
}

-- What an event does to the messages, and to those that are under way: nothing; one more message,
-- of the server or of the peer; one more of the user, which is then under way; a new list; a
-- verdict on a message that was under way.
pub data MessageChange (c d : Chat) : Type 0 where
  keeps : d.messages ≡ c.messages → c.next ≤ d.next → FewerFlights c d → MessageChange c d
  pushes :
      (m : ChatMessage)
      → d.messages ≡ c.messages ++ m ∷ []
      → m.id ≡ c.next
      → c.next < d.next
      → FewerFlights c d
      → MessageChange c d
  writes :
      (m : ChatMessage)
      → d.messages ≡ c.messages ++ m ∷ []
      → m.id ≡ c.next
      → c.next < d.next
      → m.delivery_status ≡ some pending
      → d.flights ≡ launched c ∷ c.flights
      → MessageChange c d
  restarts :
      AreFresh c.next d.next d.messages → c.next ≤ d.next → FewerFlights c d → MessageChange c d
  delivers :
      (f : Flight) (s : DeliveryStatus) (rest : List ChatMessage)
      → is_flight f c.flights ≡ true
      → d.flights ≡ without f c.flights
      → d.messages ≡ update_delivery_status f.message_id s none c.messages ++ rest
      → AreFresh c.next d.next rest
      → c.next ≤ d.next
      → MessageChange c d

pub fresh_none : (lo hi : ℕ) → AreFresh lo hi []
fresh_none lo hi = record { above = λ m i. elim i [ ]; below = λ m i. elim i [ ]; distinct = tt }

fresh_one : (lo hi : ℕ) (x : ChatMessage) → x.id ≡ lo → lo < hi → AreFresh lo hi (x ∷ [])
fresh_one lo hi x e h = record {
  above = λ m i. ground arith;
  below = λ m i. ground arith;
  distinct = (λ i. i, tt);
}

fresh_two :
    (lo hi : ℕ) (x y : ChatMessage)
    → x.id ≡ lo
    → y.id ≡ lo + 1
    → lo + 1 < hi
    → AreFresh lo hi (x ∷ y ∷ [])
fresh_two lo hi x y e f h = record {
  above = λ m i. ground arith;
  below = λ m i. ground arith;
  distinct = (λ i. elim i [ inl p ↦ omega arith | inr p ↦ p ], (λ i. i, tt));
}

greeting-AreFresh :
    (next now : ℕ) (common : List Text) → AreFresh next (next + 2) (greeting next now common)
unfolding greeting
greeting-AreFresh next now [] = fresh_one next (next + 2) _ refl (omega arith)
greeting-AreFresh next now (t ∷ ts) = fresh_two next (next + 2) _ _ refl refl (omega arith)

on_match_lem :
    (m : Message) (c : Chat)
    → ((on_match m c).messages ≡ greeting c.next c.now (or_else m.body.common_interests []))
      × ((on_match m c).next ≡ c.next + 2)
      × ((on_match m c).flights ≡ c.flights)
unfolding on_match
on_match_lem m c = ground arith

on_match-messages : (m : Message) (c : Chat) → MessageChange c (on_match m c)
on_match-messages m c =
    let (e, n, g) = on_match_lem m c in
    restarts (rw (e, n) (greeting-AreFresh c.next c.now (or_else m.body.common_interests [])))
      (omega arith) (same_flights g)

on_peer_message-messages : (m : Message) (c : Chat) → MessageChange c (on_peer_message m c)
unfolding on_peer_message
on_peer_message-messages m c = elim (Option-cases (present (data_field (λ d. d.content) m))) [
  | inl e ↦ keeps (ground arith) (ground arith) (same_flights (ground arith))
  | inr (text, e) ↦
      pushes (peer_message c.next c.now text) (ground arith) refl (ground arith)
        (same_flights (ground arith))
]

on_system-messages : (m : Message) (c : Chat) → MessageChange c (on_system m c)
unfolding on_system
on_system-messages m c = elim (Option-cases (present (data_field (λ d. d.message) m))) [
  | inl e ↦ keeps (ground arith) (ground arith) (same_flights (ground arith))
  | inr (text, e) ↦
      pushes (system_message c.next c.now text (data_field (λ d. d.reason_code) m)) (ground arith)
        refl (ground arith) (same_flights (ground arith))
]

on_error-messages :
    (json : Option Text) (m : Message) (c : Chat) → MessageChange c (on_error json m c)
unfolding on_error
on_error-messages json m c =
    pushes (system_message c.next c.now (lit "Error: " ++ error_text json m) none) (ground arith)
      refl (ground arith) (same_flights (ground arith))

pub on_type-messages :
    (k : MessageType) (json : Option Text) (m : Message) (c : Chat)
    → MessageChange c (on_type k json m c)
unfolding on_type
on_type-messages MessageType.match json m c = on_match-messages m c
on_type-messages MessageType.message json m c = on_peer_message-messages m c
on_type-messages MessageType.system json m c = on_system-messages m c
on_type-messages MessageType.disconnected json m c =
    pushes _ refl refl (omega arith) (same_flights refl)
on_type-messages MessageType.banned json m c = pushes _ refl refl (omega arith) (same_flights refl)
on_type-messages MessageType.error json m c = on_error-messages json m c
on_type-messages MessageType.timeout json m c = pushes _ refl refl (omega arith) (same_flights refl)
on_type-messages MessageType.stopped json m c =
    restarts (fresh_none _ _) (omega arith) (same_flights refl)
on_type-messages MessageType.typing json m c =
    keeps (ground arith) (ground arith) (same_flights (ground arith))
on_type-messages _ json m c = keeps refl (omega arith) (same_flights refl)

module _ (f : Flight) (v : Verdict) (c : Chat) (i : is_flight f c.flights ≡ true) where
  land_now : (c.chat_epoch == f.chat_epoch) ≡ true → MessageChange c (land f v c)
  unfolding land
  land_now h = elim (Option-cases v.status) [
    | inl s ↦ elim (Option-cases v.notice) [
      | inl n ↦ keeps (ground arith) (ground arith) (fewer_flights f (ground arith))
      | inr (text, n) ↦
          pushes (system_message c.next c.now text v.notice_reason) (ground arith) refl
            (ground arith) (fewer_flights f (ground arith))
    ]
    | inr (status, s) ↦ elim (Option-cases v.notice) [
      | inl n ↦
          delivers f status [] i (ground arith)
            (ground
              (arith, append-nil (update_delivery_status f.message_id status none c.messages)))
            (fresh_none _ _) (ground arith)
      | inr (text, n) ↦
          let lower : c.next < (land f v c).next = ground arith in
          delivers f status (system_message c.next c.now text v.notice_reason ∷ []) i (ground arith)
            (ground arith) (fresh_one c.next (land f v c).next _ refl lower) (omega arith)
    ]
  ]

  land-messages : MessageChange c (land f v c)
  unfolding land
  land-messages = elim (Bool-cases (c.chat_epoch == f.chat_epoch)) [
    | inl h ↦ land_now h
    | inr h ↦ keeps (ground arith) (ground arith) (fewer_flights f (ground arith))
  ]

pub landing-messages :
    (f : Flight) (v : Verdict) (c : Chat)
    → MessageChange c (if is_flight f c.flights then land f v c else c)
landing-messages f v c = elim (Bool-cases (is_flight f c.flights)) [
  | inl h ↦ rw h (land-messages f v c h)
  | inr h ↦ rw h (keeps refl (omega arith) (same_flights refl))
]

pub lost_notice-messages :
    (text : Text) (c : Chat) → MessageChange c (show_connection_status_message text c)
unfolding show_connection_status_message
lost_notice-messages text c = elim (Bool-cases c.show_reconnect_message) [
  | inl h ↦ keeps (ground arith) (ground arith) (same_flights (ground arith))
  | inr h ↦
      pushes (system_message c.next c.now text none) (ground arith) refl (ground arith)
        (same_flights (ground arith))
]

fewer_same :
    (c c' d d' : Chat)
    → c'.flights ≡ c.flights
    → d'.flights ≡ d.flights
    → FewerFlights c d
    → FewerFlights c' d'
fewer_same c c' d d' r r' w = record { only = λ g i. rw r (w.only g (rw r' at i)) }

-- A change of other fields on either side.
pub MessageChange-same :
    (c c' d d' : Chat)
    → (c'.messages ≡ c.messages)
    → (c'.next ≡ c.next)
    → (c'.flights ≡ c.flights)
    → (c'.chat_epoch ≡ c.chat_epoch)
    → (d'.messages ≡ d.messages)
    → (d'.next ≡ d.next)
    → (d'.flights ≡ d.flights)
    → MessageChange c d
    → MessageChange c' d'
MessageChange-same c c' d d' p q r o p' q' r' (keeps e n w) =
    keeps (ground arith) (omega arith) (fewer_same c c' d d' r r' w)
MessageChange-same c c' d d' p q r o p' q' r' (pushes m e i n w) =
    pushes m (ground arith) (ground arith) (omega arith) (fewer_same c c' d d' r r' w)
MessageChange-same c c' d d' p q r o p' q' r' (writes m e i n s w) =
    writes m (ground arith) (ground arith) (omega arith) s (r' ∙ w ∙ cc (q, r, o))
MessageChange-same c c' d d' p q r o p' q' r' (restarts fr n w) =
    restarts (rw (q, q', p') fr) (omega arith) (fewer_same c c' d d' r r' w)
MessageChange-same c c' d d' p q r o p' q' r' (delivers f s rest i fl e fr n) =
    delivers f s rest (rw r i) (cc) (cc) (rw (q, q') fr) (omega arith)
