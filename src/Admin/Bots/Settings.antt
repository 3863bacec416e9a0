-- ===== src/Admin/Bots/Settings.antt =====
-- The runtime settings of the bots in frontend/admin/src/components/AdminPanelRuntime.tsx: the bounds of
-- what is sent, and the modes of selection.
use pairline.Base.{◌≤◌, ◌≡◌, refl, arith, ◌≢◌}
use pairline.Admin.{BotUpdates, BotRuntimeSettingsDraft}
use pairline.Admin.Bots.{
  BotSelectionMode, balanced, prefer_engagement, strong_engagement, prefer_ai, strong_ai, custom,
  get_bot_selection_mode, select_mode, draft_priorities, clamped_settings,
}

-- What the settings allow.
abbrev pub IsInRange : BotUpdates → Type 0
IsInRange (BotUpdates.set_numbers rollout runs engagement ai) =
    (rollout ≤ 100) × (1 ≤ runs) × (runs ≤ 100000) × (1 ≤ engagement) × (1 ≤ ai)
IsInRange _ = Unit

clamped_settings-IsInRange : (d : BotRuntimeSettingsDraft) → IsInRange (clamped_settings d)
unfolding clamped_settings
clamped_settings-IsInRange d = ground arith

get-select_mode :
    (mode : BotSelectionMode) (d : BotRuntimeSettingsDraft)
    → mode ≢ custom
    → get_bot_selection_mode (draft_priorities (select_mode mode d)) ≡ mode
unfolding select_mode get_bot_selection_mode
get-select_mode balanced d h = refl
get-select_mode prefer_engagement d h = refl
get-select_mode strong_engagement d h = refl
get-select_mode prefer_ai d h = refl
get-select_mode strong_ai d h = refl
get-select_mode custom d h = absurd (h refl)
