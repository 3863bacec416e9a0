-- ===== src/Admin/Types.antt =====
-- The data of the admin panel: frontend/admin/src/types/index.ts and
-- frontend/admin/src/components/admin-panel/types.ts. The health of the services is in
-- Admin/Health.antt.
use pairline.Base.{ℕ, Text, List, Option, Bool}
use pairline.Admin.Json.{Number, Json, Fields}

pub data AdminRole : Type 0 where
  moderator admin root : AdminRole

pub data ReportStatus : Type 0 where
  pending approved rejected : ReportStatus

pub data LogSender : Type 0 where
  me peer system : LogSender

pub record LogMessage : Type 0 where
  pub id : Text
  pub text : Text
  pub sender : LogSender
  pub timestamp : ℕ

pub record Report : Type 0 where
  pub id : Text
  pub reporter_session_id : Text
  pub reported_session_id : Text
  pub reporter_ip : Text
  pub reported_ip : Text
  pub reason : Text
  pub description : Text
  pub chat_log : List LogMessage
  pub status : ReportStatus
  pub auto_moderation_state : Option Text
  pub auto_moderation_decision : Option Text
  pub auto_moderation_categories : List Text
  pub auto_moderation_summary : Option Text
  pub auto_moderation_error : Option Text
  pub auto_moderation_model : Option Text
  pub auto_moderation_attempts : Option ℕ
  pub auto_moderation_claimed_at : Option Text
  pub auto_moderation_completed_at : Option Text
  pub created_at : Text
  pub reviewed_by_username : Option Text
  pub reviewed_at : Option Text

-- A field that the server sends as a value or as its JSON. The text is given by what `JSON.parse` makes
-- of it, `none` where that throws.
pub data Encoded (A B : Type 0) : Type 0 where
  missing : Encoded A B
  plain : A → Encoded A B
  encoded : Option B → Encoded A B

-- A report as it arrives: the two fields are put in place of the report's own.
pub record RawReport : Type 0 where
  pub base : Report
  pub raw_chat_log : Encoded (List LogMessage) (List LogMessage)
  pub raw_categories : Encoded (List Text) Json

pub record AutoModerationSettings : Type 0 where
  pub enabled : Bool
  pub enabled_default : Bool
  pub configured : Bool
  pub model : Text
  pub batch_size : ℕ
  pub interval_seconds : ℕ
  pub timeout_seconds : ℕ
  pub max_attempts : ℕ

pub record CreateBanRequest : Type 0 where
  pub session_id : Option Text
  pub ip : Option Text
  pub report_id : Option Text
  pub reason : Text
  pub expiry_date : Option Text

pub record Ban : Type 0 where
  pub id : Text
  pub session_id : Text
  pub ip_address : Text
  pub reason : Text
  pub banned_by_username : Text
  pub created_at : Text
  pub expires_at : Option Text
  pub is_active : Bool
  pub unbanned_at : Option Text
  pub unbanned_by_username : Option Text

pub record BannedWord : Type 0 where
  pub id : Text
  pub word : Text
  pub normalized_word : Text
  pub created_by_username : Text
  pub created_at : Text

pub record AdminAccount : Type 0 where
  pub id : Text
  pub username : Text
  pub role : AdminRole
  pub created_at : Text
  pub created_by_username : Text
  pub is_active : Bool

pub record BotSettings : Type 0 where
  pub enabled : Bool
  pub engagement_enabled : Bool
  pub ai_enabled : Bool
  pub rollout_percent : ℕ
  pub max_concurrent_runs : ℕ
  pub engagement_priority : ℕ
  pub ai_priority : ℕ
  pub emergency_stop : Bool

pub record ScriptTrigger : Type 0 where
  pub regex : Text
  pub reply : Text

pub record AiBotConfig : Type 0 where
  pub enabled : Bool
  pub provider : Text
  pub api_url : Text
  pub api_token : Text
  pub model : Text
  pub system_prompt : Text
  pub temperature : Number
  pub max_tokens : Number

pub data BotType : Type 0 where
  engagement ai : BotType

pub record BotDefinition : Type 0 where
  pub id : Text
  pub name : Text
  pub slug : Text
  pub bot_type : BotType
  pub is_active : Bool
  pub description : Text
  pub match_modes_json : List Text
  pub bot_count : Number
  pub traffic_weight : Number
  pub targeting_json : Fields
  pub script_json : Fields
  pub ai_config_json : Fields
  pub message_limit : Number
  pub session_ttl_seconds : Number
  pub idle_timeout_seconds : Number
  pub disconnect_reason : Text
  pub created_by_username : Text
  pub updated_by_username : Text
  pub created_at : Text
  pub updated_at : Text

pub data BanTarget : Type 0 where
  session ip_address : BanTarget

pub data BanMode : Type 0 where
  permanent temporary : BanMode

pub data DurationUnit : Type 0 where
  hours days : DurationUnit

pub record BanModalState : Type 0 where
  pub is_open : Bool
  pub session_id : Text
  pub ip : Text
  pub source_report_id : Text
  pub target : BanTarget
  pub reason : Text
  pub mode : BanMode
  pub duration_value : Text
  pub duration_unit : DurationUnit
  pub clear_manual_inputs_on_submit : Bool
