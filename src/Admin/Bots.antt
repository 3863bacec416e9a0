-- ===== src/Admin/Bots.antt =====
-- The bots of the admin panel in frontend/admin/src/components/AdminPanelRuntime.tsx: the runtime
-- settings with their presets, the form of a bot, and what it sends.
pub mod Settings
use pairline.Base.{
  ℕ, suc, ◌+◌, ◌*◌, ◌^◌, ◌-◌, Text, lit, truthy, trim, text_eq, List, [], ◌∷◌, ◌++◌, map, Option,
  none, some, or_else, is_some, Bool, true, false, not, ◌&&◌, ◌||◌, ◌==◌, ltb, if◌then◌else◌, min,
  keep, is_empty, has, text_keys,
}
use Prim.Native.Nat.{◌/◌}
use pairline.Chat.{present}
use pairline.Admin.{Panel, Call, BotForm, BotPayload, Script, BotUpdates, BotRuntimeSettingsDraft}
use pairline.Admin.Json.{
  Number, whole, at_least_one, or_number, to_number, Json, Fields, get_field, strings_of, Items,
}
use pairline.Admin.Types.{BotSettings, BotType, BotDefinition, AiBotConfig, ScriptTrigger}
use pairline.Admin.Session.{Server, handle, logout, reading, alert, alert_error, can_manage_bots}
use pairline.Admin.Fetching.{fetch_bot_definitions}
use pairline.Admin.Managing.{larger}

pub data BotSelectionMode : Type 0 where
  balanced prefer_engagement strong_engagement prefer_ai strong_ai custom : BotSelectionMode

pub record Preset : Type 0 where
  pub value : BotSelectionMode
  pub engagement_priority : ℕ
  pub ai_priority : ℕ

abbrev preset : BotSelectionMode → ℕ → ℕ → Preset
preset value e a = record { value = value; engagement_priority = e; ai_priority = a }

abbrev pub bot_priority_presets : List Preset
bot_priority_presets =
    preset balanced 100 100
    ∷ (preset prefer_engagement 200 100
        ∷ (preset strong_engagement 400 100
            ∷ (preset prefer_ai 100 200 ∷ (preset strong_ai 100 400 ∷ []))))

-- `find` of the first preset with these priorities, or of this name.
unfoldable find_priorities : ℕ → ℕ → List Preset → Option Preset
find_priorities e a [] = none
find_priorities e a (p ∷ ps) =
    if p.engagement_priority == e && p.ai_priority == a then some p else find_priorities e a ps

abbrev mode_code : BotSelectionMode → ℕ
mode_code balanced = 0
mode_code prefer_engagement = 1
mode_code strong_engagement = 2
mode_code prefer_ai = 3
mode_code strong_ai = 4
mode_code custom = 5

unfoldable find_mode : BotSelectionMode → List Preset → Option Preset
find_mode mode [] = none
find_mode mode (p ∷ ps) = if mode_code p.value == mode_code mode then some p else find_mode mode ps

-- `getBotSelectionMode`, of the two priorities that it reads.
unfoldable pub get_bot_selection_mode : Option (ℕ × ℕ) → BotSelectionMode
unfolding find_priorities
get_bot_selection_mode settings =
    let priorities = or_else settings (100, 100) in
    elim (find_priorities priorities.0 priorities.1 bot_priority_presets) [
      | none ↦ custom
      | some p ↦ p.value
    ]

abbrev pub draft_priorities : BotRuntimeSettingsDraft → Option (ℕ × ℕ)
draft_priorities d = some (d.engagement_priority, d.ai_priority)

-- The selection of a mode in the settings' modal.
unfoldable pub select_mode : BotSelectionMode → BotRuntimeSettingsDraft → BotRuntimeSettingsDraft
unfolding find_mode
select_mode custom d = d
select_mode mode d = elim (find_mode mode bot_priority_presets) [
  | none ↦ d
  | some p ↦ record d { engagement_priority = p.engagement_priority; ai_priority = p.ai_priority }
]

unfoldable pub build_bot_runtime_settings_draft : Option BotSettings → BotRuntimeSettingsDraft
build_bot_runtime_settings_draft none = record {
  rollout_percent = 0;
  max_concurrent_runs = whole 100;
  engagement_priority = 100;
  ai_priority = 100;
}
build_bot_runtime_settings_draft (some s) = record {
  rollout_percent = s.rollout_percent;
  max_concurrent_runs = whole s.max_concurrent_runs;
  engagement_priority = s.engagement_priority;
  ai_priority = s.ai_priority;
}

-- `Math.max(0, Math.round(n))`: halves are rounded up.
unfoldable pub round : Number → ℕ
round n = if n.negative then 0 else (2 * n.digits + 10 ^ n.scale) / (2 * 10 ^ n.scale)

-- The four numbers that `saveBotSettingsModal` sends.
unfoldable pub clamped_settings : BotRuntimeSettingsDraft → BotUpdates
clamped_settings d =
    BotUpdates.set_numbers (min 100 d.rollout_percent)
      (min 100000 (larger 1 (round d.max_concurrent_runs))) (larger 1 d.engagement_priority)
      (larger 1 d.ai_priority)

unfoldable pub open_bot_settings_modal : Panel → Panel → Panel
open_bot_settings_modal view p = record p {
  bot_settings_draft = build_bot_runtime_settings_draft view.bot_settings;
  is_bot_settings_modal_open = true;
}

unfoldable pub close_bot_settings_modal : Panel → Panel
close_bot_settings_modal p = record p { is_bot_settings_modal_open = false }

-- The fields of the settings' modal and of the bot's.
unfoldable pub change_draft : (BotRuntimeSettingsDraft → BotRuntimeSettingsDraft) → Panel → Panel
change_draft f p = record p { bot_settings_draft = f p.bot_settings_draft }

unfoldable pub change_form : BotForm → Panel → Panel
change_form f p = record p { form = f }

module _ (server : Server) (view : Panel) where
  unfoldable pub update_bot_settings : BotUpdates → Panel → Bool × Panel
  update_bot_settings updates p =
      let text = lit "Failed to update bot settings" in
      if not (can_manage_bots view.role)
      then (false, p)
      else handle server (Call.put_bot_settings updates) (λ q. (false, q))
          (reading (λ q. (false, alert text q))
            (λ d q. (true, record q { bot_settings = some d.bot_settings })))
          (λ r q. (false, alert_error text r q)) (λ q. (false, alert text q)) p

  unfoldable pub save_bot_settings_modal : Panel → Panel
  save_bot_settings_modal p =
      if not (can_manage_bots view.role)
      then p
      else let made = update_bot_settings (clamped_settings view.bot_settings_draft) p in
        if made.0 then close_bot_settings_modal made.1 else made.1

  unfoldable pub set_bot_active_state : Text → Bool → Panel → Panel
  set_bot_active_state id next_active p =
      if not (can_manage_bots view.role)
      then p
      else handle server (Call.switch_bot id next_active) (λ q. q)
          (λ r. fetch_bot_definitions server view) (alert_error (lit "Failed to update bot status"))
          (alert (lit "Failed to update bot status")) p

  -- `confirmed` is the answer to the question of the browser.
  unfoldable pub delete_bot_definition : Text → Bool → Panel → Panel
  delete_bot_definition id confirmed p =
      if not (can_manage_bots view.role)
      then p
      else if not confirmed
      then p
      else handle server (Call.delete_bot id) (λ q. q) (λ r. fetch_bot_definitions server view)
          (alert_error (lit "Failed to delete bot definition"))
          (alert (lit "Failed to delete bot definition")) p
