-- ===== src/Views/Typing.antt =====
-- The inputs `ChatInput` of frontend/client/src/components/TextChat.tsx and `VideoChatInput` of
-- VideoChat.tsx, which are the same but for their buttons: what the peer is told of the typing.
use pairline.Base.{
  ℕ, suc, ◌==◌, Text, truthy, trim, List, [], ◌∷◌, ◌++◌, Option, none, some, is_some, Bool, true,
  false, not, if◌then◌else◌, keep, if-holds, if-holds_cases, ◌≡◌, refl, arith, ap, ◌∙◌, sym,
}
use mathlib.Core.Path.{subst}

-- The typing timers that are set, the texts of the deferred callbacks of `setTimeout(…, 0)` in their order, what the peer was told
-- and the messages that were sent, each newest first.
pub record ChatInput : Type 0 where
  pub value : Text
  pub typing_timeout : Option ℕ
  pub timers : List ℕ
  pub deferred : List Text
  pub told : List Bool
  pub sent : List Text
  pub mounted : Bool
  pub next : ℕ

abbrev pub new : ChatInput
new = record {
  value = [];
  typing_timeout = none;
  timers = [];
  deferred = [];
  told = [];
  sent = [];
  mounted = true;
  next = 0;
}

abbrev without : Option ℕ → List ℕ → List ℕ
without none ts = ts
without (some t) ts = keep (λ u. not (u == t)) ts

-- `clearTimeout` of the timer that the ref names, and of the ref.
abbrev clear_typing_timeout : ChatInput → ChatInput
clear_typing_timeout c = record c {
  timers = without c.typing_timeout c.timers;
  typing_timeout = none;
}

unfoldable pub handle_change : Text → ChatInput → ChatInput
handle_change v c = record c { value = v; deferred = c.deferred ++ (v ∷ []) }

abbrev tell : Bool → ChatInput → ChatInput
tell b c = record c { told = b ∷ c.told }

abbrev set_typing_timeout : ChatInput → ChatInput
set_typing_timeout c = record c {
  timers = c.next ∷ without c.typing_timeout c.timers;
  typing_timeout = some c.next;
  next = suc c.next;
}

-- The callback that `handleChange` defers; the callbacks run in their order.
unfoldable pub run_next : List Text → ChatInput → ChatInput
run_next [] c = c
run_next (v ∷ rest) c =
    let d : ChatInput = record c { deferred = rest } in
    if truthy (trim v)
    then set_typing_timeout (tell true d)
    else clear_typing_timeout (tell false d)

unfoldable pub run_deferred : ChatInput → ChatInput
run_deferred c = run_next c.deferred c

abbrev is_set : ℕ → List ℕ → Bool
is_set t [] = false
is_set t (u ∷ us) = if u == t then true else is_set t us

unfoldable pub timer_fired : ℕ → ChatInput → ChatInput
timer_fired t c =
    if is_set t c.timers
    then record c {
      timers = without (some t) c.timers;
      told = false ∷ c.told;
      typing_timeout = none;
    }
    else c

unfoldable pub handle_submit : ChatInput → ChatInput
handle_submit c =
    if truthy (trim c.value)
    then clear_typing_timeout (tell false (record c { sent = c.value ∷ c.sent; value = [] }))
    else c

-- The cleanup of the effect: the timer is cleared, the ref is left.
unfoldable pub unmount : ChatInput → ChatInput
unmount c = record c { timers = without c.typing_timeout c.timers; mounted = false }

pub data Event : Type 0 where
  changes : Text → Event
  paints submits leaves : Event
  fires : ℕ → Event

abbrev pub step : Event → ChatInput → ChatInput
step (Event.changes v) c = if c.mounted then handle_change v c else c
step Event.paints c = run_deferred c
step Event.submits c = if c.mounted then handle_submit c else c
step Event.leaves c = unmount c
step (Event.fires t) c = timer_fired t c

unfoldable pub run : List Event → ChatInput → ChatInput
run [] c = c
run (e ∷ es) c = run es (step e c)

abbrev pub says_typing : List Bool → Bool
says_typing [] = false
says_typing (b ∷ bs) = b

abbrev only : Option ℕ → List ℕ
only none = []
only (some t) = t ∷ []

-- While the input is there, its timer is the only one, and it is set exactly when the peer was last
-- told that the user is typing.
abbrev pub IsTold : ChatInput → Type 0
IsTold c =
    c.mounted ≡ true
    → (c.timers ≡ only c.typing_timeout) × (says_typing c.told ≡ is_some c.typing_timeout)

without_only : (o : Option ℕ) → without o (only o) ≡ []
without_only none = refl
without_only (some t) = ground arith

set_typing_timeout-IsTold : (c : ChatInput) → IsTold c → IsTold (set_typing_timeout (tell true c))
set_typing_timeout-IsTold c h m =
    let left = ap (without c.typing_timeout) (h m).0 ∙ without_only c.typing_timeout in
    (ap (λ (ts : List ℕ). c.next ∷ ts) left, refl)

clear_typing_timeout-IsTold :
    (c : ChatInput) → IsTold c → IsTold (clear_typing_timeout (tell false c))
clear_typing_timeout-IsTold c h m =
    (ap (without c.typing_timeout) (h m).0 ∙ without_only c.typing_timeout, refl)

run_next-IsTold : (vs : List Text) (c : ChatInput) → IsTold c → IsTold (run_next vs c)
unfolding run_next
run_next-IsTold [] c h = h
run_next-IsTold (v ∷ rest) c h =
    let d : ChatInput = record c { deferred = rest } in
    if-holds IsTold (truthy (trim v)) (set_typing_timeout-IsTold d h)
      (clear_typing_timeout-IsTold d h)

handle_submit-IsTold : (c : ChatInput) → IsTold c → IsTold (handle_submit c)
unfolding handle_submit
handle_submit-IsTold c h =
    let d : ChatInput = record c { sent = c.value ∷ c.sent; value = [] } in
    if-holds IsTold (truthy (trim c.value)) (clear_typing_timeout-IsTold d h) h

fire_only : (t : ℕ) (o : Option ℕ) → is_set t (only o) ≡ true → without (some t) (only o) ≡ []
fire_only t none h = cc
fire_only t (some u) h = ground arith

timer_fired-IsTold : (t : ℕ) (c : ChatInput) → IsTold c → IsTold (timer_fired t c)
unfolding timer_fired
timer_fired-IsTold t c h =
    if-holds_cases IsTold (is_set t c.timers)
      (λ e m. (
        ap (without (some t)) (h m).0
            ∙ fire_only t c.typing_timeout (sym (ap (is_set t) (h m).0) ∙ e),
        refl,
      ))
      (λ e. h)

step-IsTold : (e : Event) (c : ChatInput) → IsTold c → IsTold (step e c)
unfolding handle_change run_deferred unmount
step-IsTold (Event.changes v) c h = if-holds IsTold c.mounted h h
step-IsTold Event.paints c h = run_next-IsTold c.deferred c h
step-IsTold Event.submits c h = if-holds IsTold c.mounted (handle_submit-IsTold c h) h
step-IsTold Event.leaves c h = λ m. absurd (ground arith)
step-IsTold (Event.fires t) c h = timer_fired-IsTold t c h

run-IsTold : (es : List Event) (c : ChatInput) → IsTold c → IsTold (run es c)
unfolding run
run-IsTold [] c h = h
run-IsTold (e ∷ es) c h = run-IsTold es (step e c) (step-IsTold e c h)

-- The timers that are set fire, one after the other.
unfoldable pub fire_all : List ℕ → ChatInput → ChatInput
fire_all [] c = c
fire_all (t ∷ ts) c = fire_all ts (timer_fired t c)

fire_only-quiet :
    (o : Option ℕ) (c : ChatInput)
    → c.timers ≡ only o
    → says_typing c.told ≡ is_some o
    → says_typing (fire_all (only o) c).told ≡ false
unfolding fire_all timer_fired
fire_only-quiet none c h e = e
fire_only-quiet (some t) c h e =
    if-holds_cases (λ (d : ChatInput). says_typing d.told ≡ false) (is_set t c.timers) (λ i. refl)
      (λ i. absurd (ground (arith, ap (is_set t) h)))

-- Whatever the user has typed, sent and waited for, as long as the input is there: once the timers
-- that are set have fired, the last that the peer was told is that the user is not typing.
pub fire_all-run_quiet :
    (es : List Event)
    → (run es new).mounted ≡ true
    → says_typing (fire_all (run es new).timers (run es new)).told ≡ false
fire_all-run_quiet es m =
    let c = run es new in
    let told = run-IsTold es new (λ m. (refl, refl)) m in
    subst (λ ts. says_typing (fire_all ts c).told ≡ false) (sym told.0)
      (fire_only-quiet c.typing_timeout c told.0 told.1)
