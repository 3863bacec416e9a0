-- ===== src/Admin.antt =====
-- The state of the admin panel, frontend/admin/src/components/AdminPanelRuntime.tsx, and the calls that
-- it makes to the API. Fields that only open or close a part of the page are left out.
pub mod Json
pub mod Types
pub mod Health
pub mod Session
pub mod Fetching
pub mod Reviewing
pub mod Banning
pub mod Managing
pub mod Bots
pub mod BotForms
pub mod Events
pub mod Keeping
pub mod Kept
pub mod Invariant
pub mod Retrying
pub mod BanRequests
pub mod Selection
pub mod Format
mod Tests
use pairline.Base.{ℕ, Text, lit, List, Option, Bool, or_else, if◌then◌else◌, true, false}
use pairline.Admin.Json.{Number, whole}
use pairline.Admin.Types.{
  AdminRole, Report, RawReport, AutoModerationSettings, CreateBanRequest, Ban, BannedWord,
  AdminAccount, BotSettings, ScriptTrigger, AiBotConfig, BotType, BotDefinition, BanModalState,
  ReportStatus,
}
use pairline.Admin.Health.{InfraHealthResponse}

pub data StatusFilter : Type 0 where
  only_pending only_decided every_status : StatusFilter

pub data SourceFilter : Type 0 where
  every_source awaiting_human auto_reviewed human_reviewed : SourceFilter

pub data BanFilter : Type 0 where
  every_ban active_bans inactive_bans : BanFilter

-- `number`, or 'all'.
pub data Limit : Type 0 where
  unlimited : Limit
  limited : ℕ → Limit

pub record ReportMetrics : Type 0 where
  pub pending_count : ℕ
  pub approved_count : ℕ
  pub rejected_count : ℕ

pub record BanMetrics : Type 0 where
  pub active_count : ℕ
  pub inactive_count : ℕ
  pub total_count : ℕ

-- The slider and the presets give whole numbers, the field of the runs any number.
pub record BotRuntimeSettingsDraft : Type 0 where
  pub rollout_percent : ℕ
  pub max_concurrent_runs : Number
  pub engagement_priority : ℕ
  pub ai_priority : ℕ

pub record BotForm : Type 0 where
  pub editing_bot_id : Option Text
  pub bot_name : Text
  pub bot_slug : Text
  pub bot_description : Text
  pub bot_type : BotType
  pub bot_count : Text
  pub bot_traffic_weight : Text
  pub bot_opening_messages : Text
  pub bot_reply_messages : Text
  pub bot_fallback_message : Text
  pub bot_closing_message : Text
  pub bot_supports_text : Bool
  pub bot_supports_video : Bool
  pub bot_message_limit : Number
  pub bot_session_ttl : Number
  pub bot_idle_timeout : Number
  pub bot_triggers : List ScriptTrigger
  pub bot_ai_provider : Text
  pub bot_ai_api_url : Text
  pub bot_ai_api_token : Text
  pub bot_ai_model : Text
  pub bot_ai_system_prompt : Text
  pub bot_ai_temperature : Text
  pub bot_ai_max_tokens : Text

pub record Script : Type 0 where
  pub opening_messages : List Text
  pub reply_messages : List Text
  pub fallback_message : Text
  pub closing_message : Text
  pub triggers : List ScriptTrigger

-- The body of a request that creates or changes a bot; `none` is the empty object.
pub record BotPayload : Type 0 where
  pub name : Text
  pub slug : Text
  pub bot_type : BotType
  pub description : Text
  pub match_modes : List Text
  pub bot_count : Number
  pub traffic_weight : Number
  pub message_limit : Number
  pub session_ttl_seconds : Number
  pub idle_timeout_seconds : Number
  pub script_json : Option Script
  pub ai_config_json : Option AiBotConfig

-- The parts of the settings that the panel sends: one switch, or the four numbers.
pub data BotUpdates : Type 0 where
  set_enabled set_emergency_stop set_engagement_enabled set_ai_enabled : Bool → BotUpdates
  set_numbers : ℕ → ℕ → ℕ → ℕ → BotUpdates

-- The requests, one for each route and method of the API that the panel uses.
pub data Call : Type 0 where
  refresh sign_out : Call
  sign_in : Text → Text → Call
  list_reports : StatusFilter → Limit → Call
  list_bans : BanFilter → Limit → Option Text → Call
  list_words : Limit → Option Text → Call
  list_accounts : ℕ → Limit → Option Text → Call
  words_settings moderation_settings bot_settings list_bots infra_health : Call
  put_report : Text → ReportStatus → Call
  post_ban : CreateBanRequest → Call
  delete_ban : Text → Call
  post_word : Text → Call
  delete_word : Text → Call
  put_words_settings : Bool → Call
  put_moderation_settings : Bool → Call
  seed_reports : Call
  post_account : Text → Text → AdminRole → Call
  delete_account : Text → Call
  put_bot_settings : BotUpdates → Call
  post_bot : BotPayload → Call
  put_bot : Text → BotPayload → Call
  switch_bot : Text → Bool → Call
  delete_bot : Text → Call

-- A request as it goes out: its headers are the content type of JSON and the token.
pub record Request : Type 0 where
  pub call : Call
  pub content_json : Bool
  pub csrf_token : Option Text

-- What the JSON of an answer reads as; a field that is missing is `none`. The role is there, as the
-- declared `LoginResponse` says; the source does not test it.
pub record Body : Type 0 where
  pub error : Option Text
  pub username : Option Text
  pub role : AdminRole
  pub csrf_token : Option Text
  pub reports : Option (List RawReport)
  pub report_metrics : Option ReportMetrics
  pub bans : Option (List Ban)
  pub ban_metrics : Option BanMetrics
  pub words : Option (List BannedWord)
  pub accounts : Option (List AdminAccount)
  pub total : Option ℕ
  pub enabled : Option Bool
  pub auto_moderation : AutoModerationSettings
  pub bot_settings : BotSettings
  pub bots : Option (List BotDefinition)
  pub infra_health : InfraHealthResponse
  pub count : Text

-- An answer; the body is `none` where `json()` throws.
pub record Response : Type 0 where
  pub status : ℕ
  pub csrf_header : Option Text
  pub body : Option Body

pub record Panel : Type 0 where
  pub is_authenticated : Bool
  pub auth_ready : Bool
  pub role : Option AdminRole
  pub current_admin_username : Text
  pub username : Text
  pub password : Text
  pub reports : List Report
  pub accounts : List AdminAccount
  pub infra_health : Option InfraHealthResponse
  pub selected_reports : List Text
  pub is_redis_modal_open : Bool
  pub bans : List Ban
  pub banned_words : List BannedWord
  pub banned_words_enabled : Bool
  pub updating_banned_words_enabled : Bool
  pub auto_moderation_settings : Option AutoModerationSettings
  pub updating_auto_moderation_enabled : Bool
  pub bot_settings : Option BotSettings
  pub bot_definitions : List BotDefinition
  pub is_bot_settings_modal_open : Bool
  pub bot_settings_draft : BotRuntimeSettingsDraft
  pub form : BotForm
  pub is_bot_modal_open : Bool
  pub report_status_filter : StatusFilter
  pub report_review_source_filter : SourceFilter
  pub report_limit : Limit
  pub server_report_metrics : ReportMetrics
  pub ban_filter : BanFilter
  pub ban_limit : Limit
  pub ban_search : Text
  pub server_ban_metrics : BanMetrics
  pub manual_ban_session_id : Text
  pub manual_ban_ip : Text
  pub manual_ban_reason : Text
  pub banned_word_input : Text
  pub banned_word_search : Text
  pub banned_word_limit : Limit
  pub banned_word_total : ℕ
  pub account_username : Text
  pub account_password : Text
  pub account_role : AdminRole
  pub account_search : Text
  pub account_limit : Limit
  pub account_page : ℕ
  pub account_total : ℕ
  pub submitting_account : Bool
  pub submitting_ban : Bool
  pub ban_modal : BanModalState
  pub is_seeding_reports : Bool
  -- `localStorage` and `sessionStorage`.
  pub admin_auth : Option Text
  pub admin_role : Option AdminRole
  pub admin_username : Option Text
  pub admin_csrf : Option Text
  -- What has gone out: the requests, the alerts, each newest first, and the ways to the login page.
  pub requests : List Request
  pub alerts : List Text
  pub navigations : ℕ
