-- ===== src/Views/Starting.antt =====
-- How a search starts in frontend/client/src/components/TextChat.tsx and VideoChat.tsx: the tags, the
-- CAPTCHA, and the confirmation of a stop. The handlers are the same in both; the flag of the CAPTCHA
-- is a state with two effects in TextChat and a ref in VideoChat.
pub mod Verified
pub mod Tags
use pairline.Base.{
  ℕ, zero, suc, ◌+◌, ◌-◌, ◌==◌, ltb, Text, lit, text_eq, truthy, trim, includes, List, [], ◌∷◌,
  ◌++◌, Option, none, some, is_some, or_else, Bool, true, false, not, ◌&&◌, ◌||◌, if◌then◌else◌,
  keep, length, has, text_keys,
}
use pairline.Message.{ChatMessage, Sender}
use pairline.Chat.{present}

-- `location.state?.turnstileToken` is taken by the first start. The starts are newest first.
pub record View : Type 0 where
  pub interest_tags : List Text
  pub tag_input : Text
  pub show_entry_modal : Bool
  pub pending_interests : Text
  pub captcha_verified : Bool
  pub turnstile_token : Option Text
  pub connected : Bool
  pub last_message : Option ChatMessage
  pub starts : List (Text × Option Text)
  pub confirm_stop : Bool
  pub stop_timers : ℕ
  pub disconnects : ℕ

abbrev pub new : Option Text → View
new token = record {
  interest_tags = [];
  tag_input = [];
  show_entry_modal = false;
  pending_interests = [];
  captcha_verified = false;
  turnstile_token = token;
  connected = false;
  last_message = none;
  starts = [];
  confirm_stop = false;
  stop_timers = 0;
  disconnects = 0;
}

-- `xs.filter((_, i) => i !== index)`.
unfoldable pub remove_at : ℕ → List Text → List Text
remove_at i [] = []
remove_at zero (x ∷ xs) = xs
remove_at (suc i) (x ∷ xs) = x ∷ remove_at i xs

-- `s.substring(0, n)`.
unfoldable pub first_units : ℕ → Text → Text
first_units zero s = []
first_units (suc n) [] = []
first_units (suc n) (c ∷ s) = c ∷ first_units n s

-- `tagInput.trim().replace(/[,,;]/g, '')`, cut after thirty code units.
unfoldable pub cleaned_tag : Text → Text
cleaned_tag input =
    let trimmed = keep (λ c. not (c == b',' || c == b';')) (trim input) in
    if ltb 30 (length trimmed) then first_units 30 trimmed else trimmed

unfoldable pub add_tag : View → View
add_tag c =
    let tag = cleaned_tag c.tag_input in
    if truthy tag && not (has c.interest_tags tag) && ltb (length c.interest_tags) 10
    then record c { interest_tags = c.interest_tags ++ (tag ∷ []); tag_input = [] }
    else record c { tag_input = [] }

unfoldable pub remove_tag : ℕ → View → View
remove_tag index c = record c { interest_tags = remove_at index c.interest_tags }

pub data Key : Type 0 where
  enter comma semicolon backspace other_key : Key

unfoldable pub handle_tag_input_key_down : Key → View → View
handle_tag_input_key_down Key.enter c = add_tag c
handle_tag_input_key_down Key.comma c = add_tag c
handle_tag_input_key_down Key.semicolon c = add_tag c
handle_tag_input_key_down Key.backspace c =
    if not (truthy c.tag_input) && ltb 0 (length c.interest_tags)
    then remove_tag (length c.interest_tags - 1) c
    else c
handle_tag_input_key_down Key.other_key c = c

-- `interestTags.join(',')`.
unfoldable pub joined : List Text → Text
joined [] = []
joined (t ∷ []) = t
joined (t ∷ u ∷ ts) = t ++ (b',' ∷ joined (u ∷ ts))

abbrev start_search : Text → Option Text → View → View
start_search interests token c = record c { starts = (interests, token) ∷ c.starts }

unfoldable pub handle_start_search_click : Text → View → View
handle_start_search_click interests c =
    if c.captcha_verified then start_search interests none c else elim (present c.turnstile_token) [
      | some token ↦ record (start_search interests (some token) c) {
        captcha_verified = true;
        turnstile_token = none;
      }
      | none ↦ record c { pending_interests = interests; show_entry_modal = true }
    ]

unfoldable pub handle_modal_confirm : Text → View → View
handle_modal_confirm token c = record (start_search c.pending_interests (some token) c) {
  show_entry_modal = false;
  captcha_verified = true;
}

-- A second press within the time of the first one's timer stops the chat.
unfoldable pub handle_disconnect : View → View
handle_disconnect c =
    if not c.confirm_stop
    then record c { confirm_stop = true; stop_timers = suc c.stop_timers }
    else record c { disconnects = suc c.disconnects; confirm_stop = false }

unfoldable pub stop_timer_fired : View → View
stop_timer_fired c =
    if ltb 0 c.stop_timers
    then record c { confirm_stop = false; stop_timers = c.stop_timers - 1 }
    else c

abbrev is_system : Sender → Bool
is_system Sender.system = true
is_system _ = false

-- The last message tells that the server has refused the token.
abbrev tells_captcha : Option ChatMessage → Bool
tells_captcha none = false
tells_captcha (some m) = is_system m.sender && includes (lit "CAPTCHA") m.text

pub data Event : Type 0 where
  types : Text → Event
  presses : Key → Event
  blurs starts_search closes_modal stops stop_timer : Event
  removes : ℕ → Event
  confirms : Text → Event
  connection_changed : Bool → Event
  messages_changed : Option ChatMessage → Event

unfoldable pub handle : Event → View → View
handle (Event.types s) c = record c { tag_input = s }
handle (Event.presses k) c = handle_tag_input_key_down k c
handle Event.blurs c = add_tag c
handle Event.starts_search c = handle_start_search_click (joined c.interest_tags) c
handle Event.closes_modal c = record c { show_entry_modal = false }
handle Event.stops c = handle_disconnect c
handle Event.stop_timer c = stop_timer_fired c
handle (Event.removes i) c = remove_tag i c
handle (Event.confirms token) c =
    if c.show_entry_modal && truthy token then handle_modal_confirm token c else c
handle (Event.connection_changed b) c = record c { connected = b }
handle (Event.messages_changed m) c = record c { last_message = m }

-- The effects of TextChat, which also follow the flag.
unfoldable pub text_effects : View → View
text_effects c =
    if not c.connected && c.captcha_verified
    then record c { captcha_verified = false }
    else if c.captcha_verified && tells_captcha c.last_message
    then record c { captcha_verified = false }
    else c

-- The effects of VideoChat, each of which follows what it reads but the ref.
unfoldable pub video_connection_effect : View → View
video_connection_effect c =
    if not c.connected && c.captcha_verified then record c { captcha_verified = false } else c

unfoldable pub video_message_effect : View → View
video_message_effect c =
    if not c.captcha_verified
    then c
    else if tells_captcha c.last_message
    then record c { captcha_verified = false }
    else c

unfoldable pub video_effects : Event → View → View
video_effects (Event.connection_changed b) c = video_connection_effect c
video_effects (Event.messages_changed m) c = video_message_effect c
video_effects _ c = c

unfoldable pub run_text : List Event → View → View
run_text [] c = c
run_text (e ∷ es) c = run_text es (text_effects (handle e c))

unfoldable pub run_video : List Event → View → View
run_video [] c = c
run_video (e ∷ es) c = run_video es (video_effects e (handle e c))
