-- ===== src/Admin/BotForms.antt =====
-- The form of a bot in frontend/admin/src/components/AdminPanelRuntime.tsx: what is read from a
-- definition's JSON, the payload that is built, and the two operations that send it.
pub mod Lines
pub mod Editing
use pairline.Base.{
  ℕ, suc, ◌+◌, ◌*◌, Text, lit, truthy, trim, text_eq, List, [], ◌∷◌, ◌++◌, map, Option, none, some,
  or_else, Bool, true, false, not, ◌&&◌, ◌||◌, ◌==◌, if◌then◌else◌, keep, is_empty, has, text_keys,
}
use pairline.Chat.{present}
use pairline.Admin.{Panel, Call, BotForm, BotPayload, Script}
use pairline.Admin.Json.{
  Number, whole, at_least_one, or_number, to_number, print, Json, Fields, get_field, strings_of,
  Items,
}
use pairline.Admin.Types.{BotType, BotDefinition, AiBotConfig, ScriptTrigger}
use pairline.Admin.Session.{Server, handle, alert, alert_error, can_manage_bots}
use pairline.Admin.Fetching.{fetch_bot_definitions}
use pairline.Admin.BotForms.Lines.{parse_conversation_lines, join_lines}

unfoldable pub read_script_lines : Fields → Text → List Text
read_script_lines script key = elim (get_field key script) [
  | some (Json.array items) ↦ strings_of items
  | _ ↦ []
]

abbrev pub string_of : Option Json → Option Text
string_of (some (Json.string s)) = some s
string_of _ = none

unfoldable pub read_script_string : Fields → Text → Text
read_script_string script key = or_else (string_of (get_field key script)) []

abbrev pub trigger_of : Option Text → Option Text → List ScriptTrigger
trigger_of (some regex) (some reply) = record { regex = regex; reply = reply } ∷ []
trigger_of _ _ = []

unfoldable pub triggers_of : Items → List ScriptTrigger
triggers_of Items.end = []
triggers_of (Items.item (Json.object o) rest) =
    trigger_of (string_of (get_field (lit "regex") o)) (string_of (get_field (lit "reply") o))
    ++ triggers_of rest
triggers_of (Items.item v rest) = triggers_of rest

unfoldable pub read_script_triggers : Fields → List ScriptTrigger
unfolding triggers_of
read_script_triggers script = elim (get_field (lit "triggers") script) [
  | some (Json.array items) ↦ triggers_of items
  | _ ↦ []
]

abbrev boolean_of : Option Json → Option Bool
boolean_of (some (Json.boolean b)) = some b
boolean_of _ = none

abbrev number_of : Option Json → Option Number
number_of (some (Json.number n)) = some n
number_of _ = none

abbrev seven_tenths : Number
seven_tenths = record { negative = false; digits = 7; scale = 1 }

unfoldable pub read_ai_bot_config : Fields → AiBotConfig
read_ai_bot_config config = record {
  enabled = or_else (boolean_of (get_field (lit "enabled") config)) true;
  provider = or_else (string_of (get_field (lit "provider") config)) (lit "openai-compatible");
  api_url = read_script_string config (lit "api_url");
  api_token = read_script_string config (lit "api_token");
  model = read_script_string config (lit "model");
  system_prompt = read_script_string config (lit "system_prompt");
  temperature = or_else (number_of (get_field (lit "temperature") config)) seven_tenths;
  max_tokens = or_else (number_of (get_field (lit "max_tokens") config)) (whole 300);
}

abbrev pub default_bot_ai_system_prompt : Text
default_bot_ai_system_prompt =
    lit
      "You are a friendly anonymous chat partner. Keep replies short, natural, and safe for a general audience."

-- `resetBotForm`.
abbrev pub initial_form : BotForm
initial_form = record {
  editing_bot_id = none;
  bot_name = [];
  bot_slug = [];
  bot_description = [];
  bot_type = BotType.engagement;
  bot_count = lit "1";
  bot_traffic_weight = lit "100";
  bot_opening_messages = lit "hey";
  bot_reply_messages = lit "nice\n tell me more";
  bot_fallback_message = lit "tell me more";
  bot_closing_message = lit "gotta go";
  bot_supports_text = true;
  bot_supports_video = false;
  bot_message_limit = whole 4;
  bot_session_ttl = whole 300;
  bot_idle_timeout = whole 45;
  bot_triggers = [];
  bot_ai_provider = lit "openai-compatible";
  bot_ai_api_url = [];
  bot_ai_api_token = [];
  bot_ai_model = [];
  bot_ai_system_prompt = default_bot_ai_system_prompt;
  bot_ai_temperature = lit "0.7";
  bot_ai_max_tokens = lit "300";
}

unfoldable pub reset_bot_form : Panel → Panel
reset_bot_form p = record p { form = initial_form }

unfoldable pub open_create_bot_modal : Panel → Panel
open_create_bot_modal p = record (reset_bot_form p) { is_bot_modal_open = true }

unfoldable pub close_bot_modal : Panel → Panel
close_bot_modal p = record p {
  is_bot_modal_open = false;
  form = record p.form { editing_bot_id = none };
}

-- What `openEditBotModal` puts into the form.
unfoldable pub form_of : BotDefinition → BotForm
form_of bot =
    let config = read_ai_bot_config bot.ai_config_json in
    record {
      editing_bot_id = some bot.id;
      bot_name = bot.name;
      bot_slug = bot.slug;
      bot_description = bot.description;
      bot_type = bot.bot_type;
      bot_count = print bot.bot_count;
      bot_traffic_weight = print bot.traffic_weight;
      bot_opening_messages =
          join_lines (read_script_lines bot.script_json (lit "opening_messages"));
      bot_reply_messages = join_lines (read_script_lines bot.script_json (lit "reply_messages"));
      bot_fallback_message = read_script_string bot.script_json (lit "fallback_message");
      bot_closing_message = read_script_string bot.script_json (lit "closing_message");
      bot_supports_text = has bot.match_modes_json (lit "text");
      bot_supports_video = has bot.match_modes_json (lit "video");
      bot_message_limit = bot.message_limit;
      bot_session_ttl = bot.session_ttl_seconds;
      bot_idle_timeout = bot.idle_timeout_seconds;
      bot_triggers = read_script_triggers bot.script_json;
      bot_ai_provider = or_else (present (some config.provider)) (lit "openai-compatible");
      bot_ai_api_url = config.api_url;
      bot_ai_api_token = config.api_token;
      bot_ai_model = config.model;
      bot_ai_system_prompt =
          or_else (present (some config.system_prompt)) default_bot_ai_system_prompt;
      bot_ai_temperature = print config.temperature;
      bot_ai_max_tokens = print config.max_tokens;
    }

unfoldable pub open_edit_bot_modal : BotDefinition → Panel → Panel
open_edit_bot_modal bot p = record p { form = form_of bot; is_bot_modal_open = true }

abbrev is_engagement : BotType → Bool
is_engagement BotType.engagement = true
is_engagement BotType.ai = false

abbrev match_modes_of : BotForm → List Text
match_modes_of f =
    (if f.bot_supports_text then lit "text" ∷ [] else [])
    ++ (if f.bot_supports_video then lit "video" ∷ [] else [])

abbrev pub script_of : BotForm → Script
script_of f = record {
  opening_messages = parse_conversation_lines f.bot_opening_messages;
  reply_messages = parse_conversation_lines f.bot_reply_messages;
  fallback_message = trim f.bot_fallback_message;
  closing_message = trim f.bot_closing_message;
  triggers = keep (λ t. truthy (trim t.regex) && truthy (trim t.reply)) f.bot_triggers;
}

abbrev config_of : BotForm → AiBotConfig
config_of f = record {
  enabled = true;
  provider = or_else (present (some (trim f.bot_ai_provider))) (lit "openai-compatible");
  api_url = trim f.bot_ai_api_url;
  api_token = trim f.bot_ai_api_token;
  model = trim f.bot_ai_model;
  system_prompt = trim f.bot_ai_system_prompt;
  temperature = or_number (to_number f.bot_ai_temperature) (whole 0);
  max_tokens = or_number (to_number f.bot_ai_max_tokens) (whole 0);
}

-- Whether nothing is left to say.
abbrev is_silent : Script → Bool
is_silent s =
    is_empty s.opening_messages
    && is_empty s.reply_messages
    && not (truthy s.fallback_message)
    && not (truthy s.closing_message)

abbrev lacks_access : AiBotConfig → Bool
lacks_access c = not (truthy c.api_url) || not (truthy c.api_token) || not (truthy c.model)

-- The payload, or the text of the alert.
pub data Built : Type 0 where
  rejected : Text → Built
  payload : BotPayload → Built

unfoldable pub build_bot_definition_payload : BotForm → Built
build_bot_definition_payload f =
    let engages = is_engagement f.bot_type in
    if is_empty (match_modes_of f)
    then rejected (lit "Select at least one conversation mode.")
    else if engages && is_silent (script_of f)
    then rejected (lit "Add at least one conversation line for the engagement bot.")
    else if not engages && lacks_access (config_of f)
    then rejected (lit "AI bots require an API URL, API token, and model name.")
    else payload (record {
      name = trim f.bot_name;
      slug = trim f.bot_slug;
      bot_type = f.bot_type;
      description = trim f.bot_description;
      match_modes = match_modes_of f;
      bot_count = at_least_one (or_number (to_number f.bot_count) (whole 1));
      traffic_weight = at_least_one (or_number (to_number f.bot_traffic_weight) (whole 100));
      message_limit = f.bot_message_limit;
      session_ttl_seconds = f.bot_session_ttl;
      idle_timeout_seconds = f.bot_idle_timeout;
      script_json = if engages then some (script_of f) else none;
      ai_config_json = if engages then none else some (config_of f);
    })

module _ (server : Server) (view : Panel) where
  -- The part that `createBotDefinition` and `updateBotDefinition` share.
  unfoldable pub send_payload : (BotPayload → Call) → Text → Built → Panel → Bool × Panel
  send_payload call text (rejected reason) p = (false, alert reason p)
  send_payload call text (payload b) p =
      handle server (call b) (λ q. (false, q))
        (λ r q. (true, fetch_bot_definitions server view (reset_bot_form q)))
        (λ r q. (false, alert_error text r q)) (λ q. (false, alert text q)) p

  unfoldable pub send_definition : (BotPayload → Call) → Text → Panel → Bool × Panel
  send_definition call text p =
      if not (can_manage_bots view.role)
      then (false, p)
      else send_payload call text (build_bot_definition_payload view.form) p

  unfoldable pub create_bot_definition : Panel → Bool × Panel
  create_bot_definition = send_definition Call.post_bot (lit "Failed to create bot definition")

  unfoldable pub update_bot_definition : Text → Panel → Bool × Panel
  update_bot_definition id =
      send_definition (Call.put_bot id) (lit "Failed to update bot definition")

  -- The button that saves: the modal closes when the server has accepted.
  abbrev pub save_definition : Panel → Bool × Panel
  save_definition p = elim (present view.form.editing_bot_id) [
    | none ↦ create_bot_definition p
    | some id ↦ update_bot_definition id p
  ]

  unfoldable pub save_bot : Panel → Panel
  save_bot p =
      let made = save_definition p in
      if made.0 then record made.1 { is_bot_modal_open = false } else made.1
