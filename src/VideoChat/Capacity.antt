-- ===== src/VideoChat/Capacity.antt =====
-- How long the list of messages of frontend/client/src/hooks/useVideoChat.tsx can get: what is said or
-- received is capped, the notice that signaling is unavailable is not.
use pairline.Base.{
  ℕ, suc, ◌+◌, ◌-◌, ◌≤◌, ◌==◌, ltb, Text, text_eq, text_eq_iff, List, [], ◌∷◌, ◌++◌, any, length,
  length-append, length-drop, none, Bool, true, false, ◌||◌, if◌then◌else◌, if-holds_cases,
  Bool-cases, inl, inr, ◌≡◌, refl, sym, ap, arith,
}
use mathlib.Core.Path.{subst}
use pairline.Message.{ChatMessage, DeliveryStatus}
use pairline.Chat.{update_delivery_status, system_message}
use pairline.VideoChat.{Video, new, capped, says, push_message, show_video_signaling_unavailable}
use pairline.VideoChat.GoSocket.{unavailable_text, timed_out_text}
use pairline.VideoChat.Handlers.{greeting}
use pairline.VideoChat.Turn.{Config}
use pairline.VideoChat.Events.{run, Event}
use pairline.VideoChat.Keeping.{Part, IsNotice, Keeps}
use pairline.VideoChat.Kept.{run-kept}

abbrev one : Bool → ℕ
one b = if b then 1 else 0

abbrev Fits : List ChatMessage → Type 0
Fits ms =
    length ms ≤ 200 + one (any (says unavailable_text) ms) + one (any (says timed_out_text) ms)

capped-length : (ms : List ChatMessage) → length (capped ms) ≤ 200
capped-length ms =
    if-holds_cases (λ xs. length xs ≤ 200) (ltb 200 (length ms))
      (λ h. ground (arith, length-drop (length ms - 200) ms)) (λ h. ground arith)

capped-full : (ms : List ChatMessage) → length ms ≡ 201 → length (capped ms) ≡ 200
capped-full ms e =
    if-holds_cases (λ xs. length xs ≡ 200) (ltb 200 (length ms))
      (λ h. omega (arith, length-drop (length ms - 200) ms, e)) (λ h. absurd (ground arith))

any-append :
    (p : ChatMessage → Bool) (xs ys : List ChatMessage) → any p (xs ++ ys) ≡ (any p xs || any p ys)
any-append p [] ys = refl
any-append p (x ∷ xs) ys = ground (arith, any-append p xs ys)

text_eq-same : (t : Text) → text_eq t t ≡ true
text_eq-same t = (text_eq_iff t t).1 refl

module _ (t : Text) (ms : List ChatMessage) (id now : ℕ) where
  -- A notice is said from the time it is shown, and what was said before stays.
  any-notice : any (says t) (ms ++ system_message id now t none ∷ []) ≡ true
  any-notice =
      rw (any-append (says t) ms (system_message id now t none ∷ []), text_eq-same t) (ground arith)

  any-kept :
      (u : Text)
      → one (any (says u) ms) ≤ one (any (says u) (ms ++ system_message id now t none ∷ []))
  any-kept u = rw (any-append (says u) ms (system_message id now t none ∷ [])) (ground arith)

  length-notice : length (ms ++ system_message id now t none ∷ []) ≡ length ms + 1
  length-notice = omega (arith, length-append ms (system_message id now t none ∷ []))

-- A notice that was not said before can be added to a list that fits.
abbrev TakesNotice : ℕ → ℕ → List ChatMessage → Text → Type 0
TakesNotice id now ms text =
    any (says text) ms ≡ false → Fits ms → Fits (ms ++ system_message id now text none ∷ [])

module _ (id now : ℕ) (ms : List ChatMessage) where
  takes-unavailable : TakesNotice id now ms unavailable_text
  takes-unavailable e f =
      let said = any-notice unavailable_text ms id now in
      let kept = any-kept unavailable_text ms id now timed_out_text in
      let more = length-notice unavailable_text ms id now in ground (arith, said, kept, more, e, f)

  takes-timed_out : TakesNotice id now ms timed_out_text
  takes-timed_out e f =
      let said = any-notice timed_out_text ms id now in
      let kept = any-kept timed_out_text ms id now unavailable_text in
      let more = length-notice timed_out_text ms id now in ground (arith, said, kept, more, e, f)

  takes_notice : (text : Text) → IsNotice text → TakesNotice id now ms text
  takes_notice text (inl n) = subst (TakesNotice id now ms) (sym n) takes-unavailable
  takes_notice text (inr n) = subst (TakesNotice id now ms) (sym n) takes-timed_out

module _ (id : ℕ) (status : DeliveryStatus) where
  length-update_delivery_status :
      (ms : List ChatMessage) → length (update_delivery_status id status none ms) ≡ length ms
  unfolding update_delivery_status
  length-update_delivery_status [] = refl
  length-update_delivery_status (m ∷ ms) = ap suc (length-update_delivery_status ms)

  any-says-update_delivery_status :
      (t : Text) (ms : List ChatMessage)
      → any (says t) (update_delivery_status id status none ms) ≡ any (says t) ms
  unfolding update_delivery_status
  any-says-update_delivery_status t [] = refl
  any-says-update_delivery_status t (m ∷ ms) =
      let rest = any-says-update_delivery_status t ms in
      elim (Bool-cases (m.id == id)) [ inl e ↦ rw (e, rest) refl | inr e ↦ rw (e, rest) refl ]

greeting-Fits : (b : Bool) (next now : ℕ) (common : List Text) → Fits (greeting b next now common)
unfolding greeting
greeting-Fits b next now [] = omega arith
greeting-Fits b next now (x ∷ xs) = omega arith

abbrev Fitting : Part
Fitting ms ws is_open is_ready t = Fits ms

Keeps-Fitting : Keeps Fitting
Keeps-Fitting = record {
  pushed = λ m ms ws o r t v. omega (arith, capped-length (ms ++ m ∷ []));
  noticed = λ text id now ms ws o r t n e v. takes_notice id now ms text n e v;
  cleared = λ ms ws o r t v. omega arith;
  greeted = λ b next now common ms ws o r t v. greeting-Fits b next now common;
  marked = λ id status ms ws o r t v.
      rw
        (
          length-update_delivery_status id status ms,
          any-says-update_delivery_status id status unavailable_text ms,
          any-says-update_delivery_status id status timed_out_text ms,
        )
        v;
  closed = λ ms ws o r t v. v;
  unready = λ ms ws o r t v. v;
  untimed = λ ms ws o r t v. v;
  begun = λ s n ms ws o r t e v. v;
  opened = λ ms ws o r t e v. v;
  readied = λ ms ws o r t e v. v;
}

-- After any events in any order the window holds at most 202 messages: the 200 of the cap, and one for
-- each of the two notices that are added without it.
pub run-length :
    (config : Config) (es : List Event) (ws_url : Text)
    → length (run config es (new ws_url)).messages ≤ 202
unfolding new
run-length config es ws_url =
    let f = run-kept Fitting Keeps-Fitting config es (new ws_url) (omega arith) in ground (arith, f)

-- A chat that holds 200 messages, none of them the notice, holds 201 once the notice is shown, above
-- the cap; a message that is pushed onto the same chat leaves it at 200.
pub notice_exceeds_cap :
    (t : Text) (message : ℕ → ChatMessage) (c : Video)
    → length c.messages ≡ 200
    → any (says t) c.messages ≡ false
    → (length (show_video_signaling_unavailable t c).messages ≡ 201)
      × (length (push_message message c).messages ≡ 200)
unfolding show_video_signaling_unavailable push_message
notice_exceeds_cap t message c full unsaid = (
  if-holds_cases (λ (d : Video). length d.messages ≡ 201) (any (says t) c.messages)
      (λ h. absurd (ground arith))
      (λ h. omega (arith, length-notice t c.messages c.next c.now, full)),
  capped-full (c.messages ++ message c.next ∷ [])
      (omega (arith, length-append c.messages (message c.next ∷ []), full)),
)
