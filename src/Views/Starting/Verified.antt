-- ===== src/Views/Starting/Verified.antt =====
-- No search of frontend/client/src/components/TextChat.tsx or VideoChat.tsx starts without a token unless
-- one has started with a token before.
use pairline.Base.{
  Text, truthy, List, [], ◌∷◌, Option, none, some, is_some, Bool, true, false, not, ◌&&◌, any,
  if-holds, if-holds_cases, elim-holds, ◌≡◌, refl, arith, length, ltb, has, text_keys,
}
use pairline.Chat.{present}
use pairline.Views.Starting.{
  View, Event, Key, new, handle, handle_start_search_click, handle_modal_confirm, handle_disconnect,
  stop_timer_fired, add_tag, remove_tag, handle_tag_input_key_down, text_effects, video_effects,
  video_connection_effect, video_message_effect, tells_captcha, cleaned_tag, run_text, run_video,
  joined,
}

abbrev has_token : Text × Option Text → Bool
has_token s = is_some s.1

-- Each start without a token has one with a token before it.
abbrev pub AreCovered : List (Text × Option Text) → Type 0
AreCovered [] = Unit
AreCovered ((interests, some token) ∷ rest) = AreCovered rest
AreCovered ((interests, none) ∷ rest) = (any has_token rest ≡ true) × AreCovered rest

-- The flag of the CAPTCHA is set only after a start with a token.
abbrev pub IsVerified : View → Type 0
IsVerified c = (c.captcha_verified ≡ true → any has_token c.starts ≡ true) × AreCovered c.starts

click-IsVerified :
    (interests : Text) (c : View)
    → IsVerified c
    → IsVerified (handle_start_search_click interests c)
unfolding handle_start_search_click
click-IsVerified interests c h =
    if-holds_cases IsVerified c.captcha_verified (λ e. (λ v. ground (arith, h.0 e), (h.0 e, h.1)))
      (λ e. elim-holds IsVerified (present c.turnstile_token) h (λ token. (λ v. refl, h.1)))

add_tag-IsVerified : (c : View) → IsVerified c → IsVerified (add_tag c)
unfolding add_tag
add_tag-IsVerified c h =
    let tag = cleaned_tag c.tag_input in
    if-holds IsVerified
      (truthy tag && not (has c.interest_tags tag) && ltb (length c.interest_tags) 10) h h

key-IsVerified : (k : Key) (c : View) → IsVerified c → IsVerified (handle_tag_input_key_down k c)
unfolding handle_tag_input_key_down remove_tag
key-IsVerified Key.enter c h = add_tag-IsVerified c h
key-IsVerified Key.comma c h = add_tag-IsVerified c h
key-IsVerified Key.semicolon c h = add_tag-IsVerified c h
key-IsVerified Key.backspace c h =
    if-holds IsVerified (not (truthy c.tag_input) && ltb 0 (length c.interest_tags)) h h
key-IsVerified Key.other_key c h = h

handle-IsVerified : (e : Event) (c : View) → IsVerified c → IsVerified (handle e c)
unfolding handle handle_modal_confirm handle_disconnect stop_timer_fired remove_tag
handle-IsVerified (Event.types s) c h = h
handle-IsVerified (Event.presses k) c h = key-IsVerified k c h
handle-IsVerified Event.blurs c h = add_tag-IsVerified c h
handle-IsVerified Event.starts_search c h = click-IsVerified (joined c.interest_tags) c h
handle-IsVerified Event.closes_modal c h = h
handle-IsVerified Event.stops c h = if-holds IsVerified (not c.confirm_stop) h h
handle-IsVerified Event.stop_timer c h = if-holds IsVerified (ltb 0 c.stop_timers) h h
handle-IsVerified (Event.removes i) c h = h
handle-IsVerified (Event.confirms token) c h =
    if-holds IsVerified (c.show_entry_modal && truthy token) (λ v. refl, h.1) h
handle-IsVerified (Event.connection_changed b) c h = h
handle-IsVerified (Event.messages_changed m) c h = h

-- A view whose flag is taken away.
abbrev unverified : View → View
unverified c = record c { captcha_verified = false }

unverified-IsVerified : (c : View) → IsVerified c → IsVerified (unverified c)
unverified-IsVerified c h = (λ v. absurd (ground arith), h.1)

text_effects-IsVerified : (c : View) → IsVerified c → IsVerified (text_effects c)
unfolding text_effects
text_effects-IsVerified c h =
    let off = unverified-IsVerified c h in
    if-holds IsVerified (not c.connected && c.captcha_verified) off
      (if-holds IsVerified (c.captcha_verified && tells_captcha c.last_message) off h)

video_effects-IsVerified : (e : Event) (c : View) → IsVerified c → IsVerified (video_effects e c)
unfolding video_effects video_connection_effect video_message_effect
video_effects-IsVerified (Event.connection_changed b) c h =
    if-holds IsVerified (not c.connected && c.captcha_verified) (unverified-IsVerified c h) h
video_effects-IsVerified (Event.messages_changed m) c h =
    if-holds IsVerified (not c.captcha_verified) h
      (if-holds IsVerified (tells_captcha c.last_message) (unverified-IsVerified c h) h)
video_effects-IsVerified (Event.types s) c h = h
video_effects-IsVerified (Event.presses k) c h = h
video_effects-IsVerified Event.blurs c h = h
video_effects-IsVerified Event.starts_search c h = h
video_effects-IsVerified Event.closes_modal c h = h
video_effects-IsVerified Event.stops c h = h
video_effects-IsVerified Event.stop_timer c h = h
video_effects-IsVerified (Event.removes i) c h = h
video_effects-IsVerified (Event.confirms token) c h = h

run_text-IsVerified : (es : List Event) (c : View) → IsVerified c → IsVerified (run_text es c)
unfolding run_text
run_text-IsVerified [] c h = h
run_text-IsVerified (e ∷ es) c h =
    run_text-IsVerified es (text_effects (handle e c))
      (text_effects-IsVerified (handle e c) (handle-IsVerified e c h))

run_video-IsVerified : (es : List Event) (c : View) → IsVerified c → IsVerified (run_video es c)
unfolding run_video
run_video-IsVerified [] c h = h
run_video-IsVerified (e ∷ es) c h =
    run_video-IsVerified es (video_effects e (handle e c))
      (video_effects-IsVerified e (handle e c) (handle-IsVerified e c h))

-- In both views, and with any token that the page was opened with, a search starts without a token
-- only if one has started with a token before.
pub starts_covered :
    (token : Option Text) (es : List Event)
    → AreCovered (run_text es (new token)).starts × AreCovered (run_video es (new token)).starts
starts_covered token es = (
  (run_text-IsVerified es (new token) (λ v. absurd (ground arith), tt)).1,
  (run_video-IsVerified es (new token) (λ v. absurd (ground arith), tt)).1,
)
