-- ===== src/TextChat/Replies.antt =====
-- The delivery status of the messages of frontend/client/src/hooks/useTextChat.tsx: what was sent,
-- blocked or failed stays so, and no other message is ever changed.
use pairline.Base.{
  ◌<◌, ◌≤◌, Text, List, [], ◌∷◌, ◌++◌, none, some, true, not, ◌==◌, ◌&&◌, In, Distinct,
  Distinct-append, any_sound, in-append, in-keep, Bool-cases, inl, inr, ◌≡◌, ◌≢◌, ◌⊎◌, ◌∙◌, sym, ap,
  arith,
}
use pairline.Message.{ChatMessage, DeliveryStatus, pending}
use pairline.Chat.{update_delivery_status}
use pairline.Chat.Delivery.{
  marked, in-update_delivery_status, ids, ids-append, ids-update_delivery_status, in_ids_from,
  ids-single,
}
use pairline.TextChat.{Chat, Flight, new}
use pairline.TextChat.Events.{Event, step, run, is_flight}
use pairline.TextChat.Epochs.{launched, without}
use pairline.TextChat.Changes.{AreFresh, FewerFlights, keeps, pushes, writes, restarts, delivers}
use pairline.TextChat.Steps.{step-messages}

-- The messages that are shown and those that are under way: their ids are distinct, and a message that
-- is under way is shown as pending, if it is still shown.
pub record IsNumbered (c : Chat) : Type 0 where
  pub below : (m : ChatMessage) → In m c.messages → m.id < c.next
  pub distinct : Distinct (ids c.messages)
  pub flights_below : (f : Flight) → In f c.flights → f.message_id < c.next
  pub waiting :
      (f : Flight) (m : ChatMessage)
      → In f c.flights
      → In m c.messages
      → m.id ≡ f.message_id
      → m.delivery_status ≡ some pending

-- A message of the list with another one behind it.
in_push : (ms : List ChatMessage) (x m : ChatMessage) → In m (ms ++ x ∷ []) → In m ms ⊎ (m ≡ x)
in_push ms x m i = elim ((in-append ms (x ∷ []) m).0 i) [
  | inl j ↦ inl j
  | inr j ↦ elim j [ inl e ↦ inr e | inr k ↦ elim k [ ] ]
]

in_flights :
    (f : Flight) (fs : List Flight)
    → is_flight f fs ≡ true
    → (g : Flight) × In g fs × (g.message_id ≡ f.message_id)
in_flights f fs h =
    let (g, i, e) =
      any_sound (λ (g : Flight). g.message_id == f.message_id && g.chat_epoch == f.chat_epoch) fs
        h in
    (g, i, ground arith)

module _ (c d : Chat) (v : IsNumbered c) where
  pushed-IsNumbered :
      (x : ChatMessage)
      → d.messages ≡ c.messages ++ x ∷ []
      → x.id ≡ c.next
      → c.next < d.next
      → ((g : Flight)
          → In g d.flights
          → In g c.flights ⊎ (x.delivery_status ≡ some pending) × (g.message_id ≡ c.next))
      → IsNumbered d
  pushed-IsNumbered x e i n w = record {
    below = λ m j. elim (in_push c.messages x m (rw e at j)) [
      | inl k ↦ omega (arith, v.below m k)
      | inr h ↦ let same : m.id ≡ x.id = ap (λ (y : ChatMessage). y.id) h in omega arith
    ];
    distinct =
        rw (e, ids-append c.messages (x ∷ []))
          (Distinct-append (ids c.messages) (x.id ∷ []) v.distinct (λ k. k, tt)
            (λ a j k.
              let (m, l, h) = in_ids_from c.messages a j in
              let at_end : a ≡ x.id = elim k [ inl p ↦ p | inr q ↦ elim q [ ] ] in
              omega (arith, v.below m l)));
    flights_below = λ f j. elim (w f j) [
      | inl k ↦ omega (arith, v.flights_below f k)
      | inr h ↦ omega (arith, h.1)
    ];
    waiting = λ f m j k h. elim (in_push c.messages x m (rw e at k)) [
      | inl l ↦ elim (w f j) [
        | inl j' ↦ v.waiting f m j' l h
        | inr p ↦ absurd (omega (arith, v.below m l, p.1))
      ]
      | inr p ↦
          let same : m.id ≡ x.id = ap (λ (y : ChatMessage). y.id) p in
          elim (w f j) [
            | inl j' ↦ absurd (omega (arith, v.flights_below f j'))
            | inr q ↦ ap (λ (y : ChatMessage). y.delivery_status) p ∙ q.0
          ]
    ];
  }

  kept-IsNumbered : d.messages ≡ c.messages → c.next ≤ d.next → FewerFlights c d → IsNumbered d
  kept-IsNumbered e n w = record {
    below = λ m i. omega (arith, v.below m (rw e at i));
    distinct = rw e v.distinct;
    flights_below = λ f i. omega (arith, v.flights_below f (w.only f i));
    waiting = λ f m i j h. v.waiting f m (w.only f i) (rw e at j) h;
  }

  restarted-IsNumbered :
      AreFresh c.next d.next d.messages → c.next ≤ d.next → FewerFlights c d → IsNumbered d
  restarted-IsNumbered fr n w = record {
    below = fr.below;
    distinct = fr.distinct;
    flights_below = λ f i. omega (arith, v.flights_below f (w.only f i));
    waiting = λ f m i j h. absurd (omega (arith, v.flights_below f (w.only f i), fr.above m j));
  }

  module _ (f : Flight) (s : DeliveryStatus) (rest : List ChatMessage)
      (fl : d.flights ≡ without f c.flights)
      (e : d.messages ≡ update_delivery_status f.message_id s none c.messages ++ rest)
      (fr : AreFresh c.next d.next rest) (n : c.next ≤ d.next) where
    -- A message behind the verdict is one of before, perhaps marked, or a new one.
    delivered_from :
        (m : ChatMessage)
        → In m d.messages
        → ((k : ChatMessage) × In k c.messages × (m ≡ marked f.message_id s none k) × (m.id ≡ k.id))
          ⊎ In m rest
    delivered_from m i =
        elim ((in-append (update_delivery_status f.message_id s none c.messages) rest m).0
          (rw e at i)) [
            | inl j ↦ inl (in-update_delivery_status f.message_id s none c.messages m j)
            | inr j ↦ inr j
          ]

    left_flight : (g : Flight) → In g d.flights → In g c.flights × (g.message_id ≢ f.message_id)
    left_flight g i =
        let (j, h) =
          (in-keep (λ (g : Flight). not (g.message_id == f.message_id)) c.flights g).0
            (rw fl at i) in
        (j, λ p. ground arith)

    delivered-IsNumbered : IsNumbered d
    delivered-IsNumbered = record {
      below = λ m i. elim (delivered_from m i) [
        | inl (k, j, p, q) ↦ omega (arith, v.below k j)
        | inr j ↦ fr.below m j
      ];
      distinct =
          rw
            (
              e,
              ids-append (update_delivery_status f.message_id s none c.messages) rest,
              ids-update_delivery_status f.message_id s none c.messages,
            )
            (Distinct-append (ids c.messages) (ids rest) v.distinct fr.distinct (λ a j k.
              let (m, l, h) = in_ids_from c.messages a j in
              let (m', l', h') = in_ids_from rest a k in
              omega (arith, v.below m l, fr.above m' l')));
      flights_below = λ g i. omega (arith, v.flights_below g (left_flight g i).0);
      waiting = λ g m i j h. elim (delivered_from m j) [
        | inl (k, l, p, q) ↦
            let pend = v.waiting g k (left_flight g i).0 l (sym q ∙ h) in
            let other = (left_flight g i).1 in ground arith
        | inr l ↦ absurd (omega (arith, v.flights_below g (left_flight g i).0, fr.above m l))
      ];
    }

step-IsNumbered : (e : Event) (c : Chat) → IsNumbered c → IsNumbered (step e c)
step-IsNumbered e c v = elim (step-messages e c) [
  | keeps p n w ↦ kept-IsNumbered c (step e c) v p n w
  | pushes m p i n w ↦ pushed-IsNumbered c (step e c) v m p i n (λ g j. inl (w.only g j))
  | writes m p i n s w ↦ pushed-IsNumbered c (step e c) v m p i n (λ g j.
      let j' : (g ≡ launched c) ⊎ In g c.flights = rw w at j in
      elim j' [ inl q ↦ inr (s, ap (λ (h : Flight). h.message_id) q) | inr k ↦ inl k ])
  | restarts fr n w ↦ restarted-IsNumbered c (step e c) v fr n w
  | delivers f s rest i fl p fr n ↦ delivered-IsNumbered c (step e c) v f s rest fl p fr n
]

new-IsNumbered : (ws_url : Text) → IsNumbered (new ws_url)
unfolding new
new-IsNumbered ws_url = record {
  below = λ m i. elim i [ ];
  distinct = tt;
  flights_below = λ f i. elim i [ ];
  waiting = λ f m i j h. elim i [ ];
}

run-IsNumbered_from : (es : List Event) (c : Chat) → IsNumbered c → IsNumbered (run es c)
unfolding run
run-IsNumbered_from [] c v = v
run-IsNumbered_from (e ∷ es) c v = run-IsNumbered_from es (step e c) (step-IsNumbered e c v)

-- After any events: the list of the ids of the window has no id twice, all of them and those of the
-- messages under way have been given out, and every message that is under way and still in the window
-- is shown as pending.
pub run-IsNumbered : (es : List Event) (ws_url : Text) → IsNumbered (run es (new ws_url))
run-IsNumbered es ws_url = run-IsNumbered_from es (new ws_url) (new-IsNumbered ws_url)

-- Wherever the id of a message stands in the window, it is that message.
abbrev IsFixed : ChatMessage → Chat → Type 0
IsFixed m c = (n : ChatMessage) → In n c.messages → n.id ≡ m.id → n ≡ m

module _ (m : ChatMessage) (final : m.delivery_status ≢ some pending) where
  step_next : (e : Event) (c : Chat) → c.next ≤ (step e c).next
  step_next e c = elim (step-messages e c) [
    | keeps p n w ↦ n
    | pushes x p i n w ↦ omega arith
    | writes x p i n s w ↦ omega arith
    | restarts fr n w ↦ n
    | delivers f s rest i fl p fr n ↦ n
  ]

  push-IsFixed :
      (c d : Chat) (x : ChatMessage)
      → m.id < c.next
      → d.messages ≡ c.messages ++ x ∷ []
      → x.id ≡ c.next
      → IsFixed m c
      → IsFixed m d
  push-IsFixed c d x l p i fx k j h = elim (in_push c.messages x k (rw p at j)) [
    | inl j' ↦ fx k j' h
    | inr q ↦ let same : k.id ≡ x.id = ap (λ (y : ChatMessage). y.id) q in absurd (omega arith)
  ]

  unmarked :
      (c : Chat) (v : IsNumbered c) (f : Flight) (s : DeliveryStatus) (k : ChatMessage)
      → is_flight f c.flights ≡ true
      → In k c.messages
      → k ≡ m
      → marked f.message_id s none k ≡ m
  unmarked c v f s k i j q = elim (Bool-cases (k.id == f.message_id)) [
    | inl same ↦
        let (g, gi, ge) = in_flights f c.flights i in
        absurd (
          final (
            ap (λ (y : ChatMessage). y.delivery_status) (sym q)
            ∙ v.waiting g k gi j (ground arith)))
    | inr other ↦ rw other q
  ]

  step-IsFixed :
      (e : Event) (c : Chat) → IsNumbered c → m.id < c.next → IsFixed m c → IsFixed m (step e c)
  step-IsFixed e c v l fx = elim (step-messages e c) [
    | keeps p n w ↦ λ k j h. fx k (rw p at j) h
    | pushes x p i n w ↦ push-IsFixed c (step e c) x l p i fx
    | writes x p i n s w ↦ push-IsFixed c (step e c) x l p i fx
    | restarts fr n w ↦ λ k j h. absurd (omega (arith, fr.above k j))
    | delivers f s rest i fl p fr n ↦ λ k j h.
        elim (delivered_from c (step e c) v f s rest fl p fr n k j) [
          | inl (k', j', q, r) ↦ q ∙ unmarked c v f s k' i j' (fx k' j' (sym r ∙ h))
          | inr j' ↦ absurd (omega (arith, fr.above k j'))
        ]
  ]

  run-IsFixed :
      (es : List Event) (c : Chat)
      → IsNumbered c
      → m.id < c.next
      → IsFixed m c
      → IsFixed m (run es c)
  unfolding run
  run-IsFixed [] c v l fx = fx
  run-IsFixed (e ∷ es) c v l fx =
      run-IsFixed es (step e c) (step-IsNumbered e c v) (omega (arith, step_next e c))
        (step-IsFixed e c v l fx)

-- A message of the window that is not pending is final: its delivery status has been decided, or it
-- never had one. Whatever events follow, a message with its id that is in the window is the same
-- message, with the same status and text.
pub delivery_final :
    (ds es : List Event) (ws_url : Text) (m n : ChatMessage)
    → In m (run ds (new ws_url)).messages
    → m.delivery_status ≢ some pending
    → In n (run es (run ds (new ws_url))).messages
    → n.id ≡ m.id
    → n ≡ m
delivery_final ds es ws_url m n i f j h =
    let c = run ds (new ws_url) in
    let v = run-IsNumbered ds ws_url in
    run-IsFixed m f es c v (v.below m i) (λ k l q. ids-single c.messages v.distinct k m l i q) n j h
