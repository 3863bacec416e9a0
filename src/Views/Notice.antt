-- ===== src/Views/Notice.antt =====
-- The notice of a video that connects in frontend/client/src/components/VideoChat.tsx.
use pairline.Base.{
  ℕ, ◌+◌, ◌-◌, ◌≤◌, ◌==◌, Option, none, some, Bool, true, false, if◌then◌else◌, ◌≡◌, arith,
}

-- The notice of a video that connects: since when it is shown, and the timer that is set with the time
-- at which it fires.
pub data NoticeTimer : Type 0 where
  shows hides : ℕ → NoticeTimer

pub record Notice : Type 0 where
  pub shown : Bool
  pub since : Option ℕ
  pub timer : Option NoticeTimer

-- The effect that follows the status and `isVideoConnecting`; a start at the time 0 counts as none.
unfoldable pub notice_effect : Bool → ℕ → Notice → Notice
notice_effect connecting now c =
    if connecting
    then record c { timer = some (shows (now + 150)) }
    else let visible_for : ℕ = elim c.since [ none ↦ 0 | some s ↦ if s == 0 then 0 else now - s ] in
      record c { timer = some (hides (now + (300 - visible_for))) }

unfoldable pub notice_timer_fired : ℕ → Notice → Notice
notice_timer_fired now c = elim c.timer [
  | none ↦ c
  | some (shows t) ↦ record c { since = some now; shown = true; timer = none }
  | some (hides t) ↦ record c { since = none; shown = false; timer = none }
]

abbrev hides_at : Option NoticeTimer → Option ℕ
hides_at (some (hides t)) = some t
hides_at _ = none

-- A notice that is shown since a moment stays for at least 300 milliseconds.
pub notice_stays :
    (now s t : ℕ) (c : Notice)
    → c.since ≡ some s
    → 1 ≤ s
    → s ≤ now
    → hides_at (notice_effect false now c).timer ≡ some t
    → s + 300 ≤ t
unfolding notice_effect
notice_stays now s t c e positive before h = ground arith
