-- ===== src/Views/Entry.antt =====
-- The way into a chat: frontend/client/src/components/LandingPage.tsx and the modal of EntryModal.tsx with
-- the two agreements and the CAPTCHA, whose widget is not modelled but for what it reports.
use pairline.Base.{
  Text, truthy, List, [], ◌∷◌, Option, none, some, is_some, Bool, true, false, not, ◌&&◌,
  if◌then◌else◌, if-holds, if-holds_cases, elim-holds, elim-holds_cases, elim-holds_none,
  elim-holds_at, ◌≡◌, refl, arith, All, ◌⊎◌, inl, inr, ap, Option-cases, Bool-cases,
}
use mathlib.Core.Path.{subst}
use pairline.Chat.{present}

pub data Route : Type 0 where
  text_route video_route : Route

pub data Navigation : Type 0 where
  video_disabled : Navigation
  enters : Route → Text → Navigation

-- The modal is made anew when it is opened. The navigations are newest first.
pub record Landing : Type 0 where
  pub enable_video_chat : Bool
  pub show_modal : Bool
  pub target_route : Option Route
  pub terms_accepted : Bool
  pub rules_accepted : Bool
  pub turnstile_token : Option Text
  pub widget_ready : Bool
  pub navigations : List Navigation

abbrev is_video : Route → Bool
is_video text_route = false
is_video video_route = true

unfoldable pub open_modal : Route → Landing → Landing
open_modal route c =
    if is_video route && not c.enable_video_chat
    then record c { navigations = Navigation.video_disabled ∷ c.navigations }
    else record c {
      target_route = some route;
      show_modal = true;
      terms_accepted = false;
      rules_accepted = false;
      turnstile_token = none;
      widget_ready = false;
    }

-- `handleConfirm` of the page.
unfoldable pub page_confirm : Text → Landing → Landing
page_confirm token c = elim c.target_route [
  | none ↦ c
  | some route ↦
      if truthy token
      then record c { navigations = enters route token ∷ c.navigations; show_modal = false }
      else c
]

-- `handleConfirm` of the modal.
unfoldable pub handle_confirm : Landing → Landing
handle_confirm c = elim (present c.turnstile_token) [
  | none ↦ c
  | some token ↦ if c.terms_accepted && c.rules_accepted then page_confirm token c else c
]

pub data Event : Type 0 where
  opens : Route → Event
  closes confirms fails expires loads : Event
  accepts_terms accepts_rules : Bool → Event
  succeeds : Text → Event

-- What happens inside the modal, while it is shown.
abbrev in_modal : (Landing → Landing) → Landing → Landing
in_modal f c = if c.show_modal then f c else c

unfoldable pub step : Event → Landing → Landing
step (Event.opens route) c = open_modal route c
step Event.closes c = in_modal (λ d. record d { show_modal = false }) c
step Event.confirms c = in_modal handle_confirm c
step Event.fails c = in_modal (λ d. record d { turnstile_token = none; widget_ready = true }) c
step Event.expires c = in_modal (λ d. record d { turnstile_token = none }) c
step Event.loads c = in_modal (λ d. record d { widget_ready = true }) c
step (Event.accepts_terms b) c = in_modal (λ d. record d { terms_accepted = b }) c
step (Event.accepts_rules b) c = in_modal (λ d. record d { rules_accepted = b }) c
step (Event.succeeds token) c =
    in_modal (λ d. record d { turnstile_token = some token; widget_ready = true }) c

unfoldable pub run : List Event → Landing → Landing
run [] c = c
run (e ∷ es) c = run es (step e c)

-- A navigation into a chat has a token, and that into the video chat happens only where it is enabled.
abbrev pub IsWayIn : Bool → Navigation → Type 0
IsWayIn enabled video_disabled = Unit
IsWayIn enabled (enters text_route token) = truthy token ≡ true
IsWayIn enabled (enters video_route token) = (truthy token ≡ true) × (enabled ≡ true)

abbrev IsOpenTo : Bool → Option Route → Type 0
IsOpenTo enabled (some video_route) = enabled ≡ true
IsOpenTo enabled _ = Unit

abbrev pub IsGuarded : Landing → Type 0
IsGuarded c =
    All (IsWayIn c.enable_video_chat) c.navigations × IsOpenTo c.enable_video_chat c.target_route

open_modal-IsGuarded : (route : Route) (c : Landing) → IsGuarded c → IsGuarded (open_modal route c)
unfolding open_modal
open_modal-IsGuarded text_route c h = (h.0, tt)
open_modal-IsGuarded video_route c h =
    if-holds_cases IsGuarded (not c.enable_video_chat) (λ e. ((tt, h.0), h.1))
      (λ e. (h.0, ground arith))

enters-IsWayIn :
    (enabled : Bool) (route : Route) (token : Text)
    → IsOpenTo enabled (some route)
    → truthy token ≡ true
    → IsWayIn enabled (enters route token)
enters-IsWayIn enabled text_route token h t = t
enters-IsWayIn enabled video_route token h t = (t, h)

page_confirm-IsGuarded :
    (token : Text) (c : Landing) → IsGuarded c → IsGuarded (page_confirm token c)
unfolding page_confirm
page_confirm-IsGuarded token c h =
    elim-holds_cases IsGuarded c.target_route (λ e. h)
      (λ route e.
        let way = subst (IsOpenTo c.enable_video_chat) e h.1 in
        if-holds_cases IsGuarded (truthy token)
          (λ t. ((enters-IsWayIn c.enable_video_chat route token way t, h.0), h.1)) (λ t. h))

handle_confirm-IsGuarded : (c : Landing) → IsGuarded c → IsGuarded (handle_confirm c)
unfolding handle_confirm
handle_confirm-IsGuarded c h = elim-holds IsGuarded (present c.turnstile_token) h (λ token.
    if-holds IsGuarded (c.terms_accepted && c.rules_accepted) (page_confirm-IsGuarded token c h) h)

step-IsGuarded : (e : Event) (c : Landing) → IsGuarded c → IsGuarded (step e c)
unfolding step
step-IsGuarded (Event.opens route) c h = open_modal-IsGuarded route c h
step-IsGuarded Event.closes c h = if-holds IsGuarded c.show_modal h h
step-IsGuarded Event.confirms c h = if-holds IsGuarded c.show_modal (handle_confirm-IsGuarded c h) h
step-IsGuarded Event.fails c h = if-holds IsGuarded c.show_modal h h
step-IsGuarded Event.expires c h = if-holds IsGuarded c.show_modal h h
step-IsGuarded Event.loads c h = if-holds IsGuarded c.show_modal h h
step-IsGuarded (Event.accepts_terms b) c h = if-holds IsGuarded c.show_modal h h
step-IsGuarded (Event.accepts_rules b) c h = if-holds IsGuarded c.show_modal h h
step-IsGuarded (Event.succeeds token) c h = if-holds IsGuarded c.show_modal h h

-- Whatever happens on the page, each navigation into a chat carries a token, and the video chat is
-- entered only where it is enabled, if this holds at the start.
pub run-IsGuarded : (es : List Event) (c : Landing) → IsGuarded c → IsGuarded (run es c)
unfolding run
run-IsGuarded [] c h = h
run-IsGuarded (e ∷ es) c h = run-IsGuarded es (step e c) (step-IsGuarded e c h)

-- A confirmation changes nothing unless both agreements are given and there is a token.
pub handle_confirm-needs :
    (c : Landing)
    → (handle_confirm c ≡ c)
      ⊎ ((c.terms_accepted ≡ true)
          × (c.rules_accepted ≡ true)
          × (is_some (present c.turnstile_token) ≡ true))
unfolding handle_confirm
handle_confirm-needs c = elim (Option-cases (present c.turnstile_token)) [
  | inl e ↦ inl (elim-holds_none (λ d. d ≡ c) _ _ _ e refl)
  | inr (token, e) ↦ elim (Bool-cases (c.terms_accepted && c.rules_accepted)) [
    | inl both ↦ inr (ground arith, ground arith, ap is_some e)
    | inr few ↦ inl (
        elim-holds_at (λ d. d ≡ c) _ _ _ token e
          (if-holds_cases (λ d. d ≡ c) (c.terms_accepted && c.rules_accepted)
            (λ f. absurd (ground arith)) (λ f. refl)))
  ]
]
