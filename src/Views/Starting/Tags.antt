-- ===== src/Views/Starting/Tags.antt =====
-- The tags of frontend/client/src/components/TextChat.tsx and VideoChat.tsx stay few, short and
-- different.
use pairline.Base.{
  ℕ, zero, suc, ◌-◌, ◌≤◌, ◌==◌, ltb, Text, text_eq_iff, truthy, trim, List, [], ◌∷◌, ◌++◌, Option,
  true, false, not, ◌&&◌, ◌||◌, keep, length, length-append, has, text_keys, All, In, Distinct,
  Distinct-append, if-holds, if-holds_cases, elim-holds, ◌≡◌, ap, inl, inr, arith,
}
use pairline.Chat.{present}
use pairline.Views.Starting.{
  View, Event, Key, remove_at, first_units, cleaned_tag, add_tag, remove_tag,
  handle_tag_input_key_down, handle, handle_start_search_click, handle_modal_confirm,
  handle_disconnect, stop_timer_fired, new, text_effects, video_effects, video_connection_effect,
  video_message_effect, tells_captcha, run_text, run_video,
}

-- A tag that the page may show: not empty, and at most thirty code units.
abbrev IsTag : Text → Type 0
IsTag t = (1 ≤ length t) × (length t ≤ 30)

-- The tags of a view: at most ten, of that length, and different.
abbrev pub AreTags : List Text → Type 0
AreTags ts = (length ts ≤ 10) × All IsTag ts × Distinct ts

length-first_units : (n : ℕ) (s : Text) → length (first_units n s) ≤ n
unfolding first_units
length-first_units zero s = omega arith
length-first_units (suc n) [] = omega arith
length-first_units (suc n) (c ∷ s) = omega (arith, length-first_units n s)

length-cleaned_tag : (s : Text) → length (cleaned_tag s) ≤ 30
unfolding cleaned_tag
length-cleaned_tag s =
    let trimmed = keep (λ c. not (c == b',' || c == b';')) (trim s) in
    if-holds_cases (λ (t : Text). length t ≤ 30) (ltb 30 (length trimmed))
      (λ e. length-first_units 30 trimmed) (λ e. ground arith)

length-truthy : (t : Text) → truthy t ≡ true → 1 ≤ length t
length-truthy [] h = cc
length-truthy (c ∷ t) h = omega arith

length-remove_at : (i : ℕ) (ts : List Text) → length (remove_at i ts) ≤ length ts
unfolding remove_at
length-remove_at i [] = omega arith
length-remove_at zero (t ∷ ts) = omega arith
length-remove_at (suc i) (t ∷ ts) = omega (arith, length-remove_at i ts)

in-remove_at : (i : ℕ) (ts : List Text) (x : Text) → In x (remove_at i ts) → In x ts
unfolding remove_at
in-remove_at i [] x h = elim h [ ]
in-remove_at zero (t ∷ ts) x h = inr h
in-remove_at (suc i) (t ∷ ts) x (inl e) = inl e
in-remove_at (suc i) (t ∷ ts) x (inr h) = inr (in-remove_at i ts x h)

All-remove_at : (i : ℕ) (ts : List Text) → All IsTag ts → All IsTag (remove_at i ts)
unfolding remove_at
All-remove_at i [] h = tt
All-remove_at zero (t ∷ ts) h = h.1
All-remove_at (suc i) (t ∷ ts) h = (h.0, All-remove_at i ts h.1)

Distinct-remove_at : (i : ℕ) (ts : List Text) → Distinct ts → Distinct (remove_at i ts)
unfolding remove_at
Distinct-remove_at i [] h = tt
Distinct-remove_at zero (t ∷ ts) h = h.1
Distinct-remove_at (suc i) (t ∷ ts) h =
    (λ j. h.0 (in-remove_at i ts t j), Distinct-remove_at i ts h.1)

All-append_one : (ts : List Text) (t : Text) → All IsTag ts → IsTag t → All IsTag (ts ++ (t ∷ []))
All-append_one [] t h k = (k, tt)
All-append_one (u ∷ ts) t h k = (h.0, All-append_one ts t h.1 k)

in-has : (ts : List Text) (t : Text) → In t ts → has ts t ≡ true
unfolding has
in-has [] t i = elim i [ ]
in-has (u ∷ ts) t (inl e) = ground (arith, text_eq_iff u t)
in-has (u ∷ ts) t (inr i) = ground (arith, in-has ts t i)

add_tag-AreTags : (c : View) → AreTags c.interest_tags → AreTags (add_tag c).interest_tags
unfolding add_tag
add_tag-AreTags c h =
    let tag = cleaned_tag c.tag_input in
    let ts = c.interest_tags in
    if-holds_cases (λ (d : View). AreTags d.interest_tags)
      (truthy tag && not (has ts tag) && ltb (length ts) 10)
      (λ e.
        let filled : truthy tag ≡ true = ground arith in
        let new : has ts tag ≡ false = ground arith in
        let room : length ts ≤ 9 = ground arith in
        (
          omega (arith, length-append ts (tag ∷ [])),
          All-append_one ts tag h.1 (length-truthy tag filled, length-cleaned_tag c.tag_input),
          Distinct-append ts (tag ∷ []) h.2 (λ i. i, tt)
              (λ x i j. elim j [
                | inl same ↦ ground (arith, in-has ts x i, ap (has ts) same)
                | inr j ↦ j
              ]),
        ))
      (λ e. h)

remove_tag-AreTags :
    (i : ℕ) (c : View) → AreTags c.interest_tags → AreTags (remove_tag i c).interest_tags
unfolding remove_tag
remove_tag-AreTags i c h = (
  omega (arith, length-remove_at i c.interest_tags, h.0),
  All-remove_at i c.interest_tags h.1,
  Distinct-remove_at i c.interest_tags h.2,
)

abbrev I : View → Type 0
I c = AreTags c.interest_tags

key-AreTags : (k : Key) (c : View) → I c → I (handle_tag_input_key_down k c)
unfolding handle_tag_input_key_down
key-AreTags Key.enter c h = add_tag-AreTags c h
key-AreTags Key.comma c h = add_tag-AreTags c h
key-AreTags Key.semicolon c h = add_tag-AreTags c h
key-AreTags Key.backspace c h =
    if-holds I (not (truthy c.tag_input) && ltb 0 (length c.interest_tags))
      (remove_tag-AreTags (length c.interest_tags - 1) c h) h
key-AreTags Key.other_key c h = h

handle-AreTags :
    (e : Event) (c : View) → AreTags c.interest_tags → AreTags (handle e c).interest_tags
unfolding handle handle_modal_confirm handle_disconnect stop_timer_fired handle_start_search_click
handle-AreTags (Event.types s) c h = h
handle-AreTags (Event.presses k) c h = key-AreTags k c h
handle-AreTags Event.blurs c h = add_tag-AreTags c h
handle-AreTags Event.starts_search c h =
    if-holds I c.captcha_verified h (elim-holds I (present c.turnstile_token) h (λ token. h))
handle-AreTags Event.closes_modal c h = h
handle-AreTags Event.stops c h = if-holds I (not c.confirm_stop) h h
handle-AreTags Event.stop_timer c h = if-holds I (ltb 0 c.stop_timers) h h
handle-AreTags (Event.removes i) c h = remove_tag-AreTags i c h
handle-AreTags (Event.confirms token) c h = if-holds I (c.show_entry_modal && truthy token) h h
handle-AreTags (Event.connection_changed b) c h = h
handle-AreTags (Event.messages_changed m) c h = h

text_effects-AreTags : (c : View) → I c → I (text_effects c)
unfolding text_effects
text_effects-AreTags c h =
    if-holds I (not c.connected && c.captcha_verified) h
      (if-holds I (c.captcha_verified && tells_captcha c.last_message) h h)

video_effects-AreTags : (e : Event) (c : View) → I c → I (video_effects e c)
unfolding video_effects video_connection_effect video_message_effect
video_effects-AreTags (Event.connection_changed b) c h =
    if-holds I (not c.connected && c.captcha_verified) h h
video_effects-AreTags (Event.messages_changed m) c h =
    if-holds I (not c.captcha_verified) h (if-holds I (tells_captcha c.last_message) h h)
video_effects-AreTags (Event.types s) c h = h
video_effects-AreTags (Event.presses k) c h = h
video_effects-AreTags Event.blurs c h = h
video_effects-AreTags Event.starts_search c h = h
video_effects-AreTags Event.closes_modal c h = h
video_effects-AreTags Event.stops c h = h
video_effects-AreTags Event.stop_timer c h = h
video_effects-AreTags (Event.removes i) c h = h
video_effects-AreTags (Event.confirms token) c h = h

run_text-AreTags : (es : List Event) (c : View) → I c → I (run_text es c)
unfolding run_text
run_text-AreTags [] c h = h
run_text-AreTags (e ∷ es) c h =
    run_text-AreTags es (text_effects (handle e c))
      (text_effects-AreTags (handle e c) (handle-AreTags e c h))

run_video-AreTags : (es : List Event) (c : View) → I c → I (run_video es c)
unfolding run_video
run_video-AreTags [] c h = h
run_video-AreTags (e ∷ es) c h =
    run_video-AreTags es (video_effects e (handle e c))
      (video_effects-AreTags e (handle e c) (handle-AreTags e c h))

-- Whatever happens in either view, its tags are at most ten, different, and each of one to thirty code
-- units.
pub tags_bounded :
    (token : Option Text) (es : List Event)
    → AreTags (run_text es (new token)).interest_tags
      × AreTags (run_video es (new token)).interest_tags
tags_bounded token es = (
  run_text-AreTags es (new token) (omega arith, tt, tt),
  run_video-AreTags es (new token) (omega arith, tt, tt),
)
