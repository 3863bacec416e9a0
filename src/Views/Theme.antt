-- ===== src/Views/Theme.antt =====
-- The theme of the client, frontend/client/src/hooks/useTheme.tsx, and of the admin panel,
-- frontend/admin/src/context/ThemeContext.tsx.
use pairline.Base.{Text, lit, text_eq, Option, none, some, Bool, if◌then◌else◌, ◌≡◌, refl}
use pairline.Chat.{present, text_is}

-- The admin panel checks what it reads; the client assumes one of the two that it writes.
pub data Theme : Type 0 where
  light dark : Theme

unfoldable pub initial_client_theme : Option Text → Bool → Theme
initial_client_theme saved prefers_dark = elim (present saved) [
  | none ↦ if prefers_dark then dark else light
  | some s ↦ if text_eq s (lit "dark") then dark else light
]

unfoldable pub initial_admin_theme : Option Text → Bool → Theme
initial_admin_theme saved prefers_light =
    if text_is saved (lit "light")
    then light
    else if text_is saved (lit "dark")
    then dark
    else if prefers_light
    then light
    else dark

abbrev pub toggle_theme : Theme → Theme
toggle_theme light = dark
toggle_theme dark = light

abbrev pub theme_key : Theme → Text
theme_key light = lit "light"
theme_key dark = lit "dark"

-- Both themes are read back as they were stored.
theme_restored :
    (t : Theme) (prefers : Bool)
    → (initial_client_theme (some (theme_key t)) prefers ≡ t)
      × (initial_admin_theme (some (theme_key t)) prefers ≡ t)
unfolding initial_client_theme initial_admin_theme text_eq
theme_restored light prefers = (refl, refl)
theme_restored dark prefers = (refl, refl)
