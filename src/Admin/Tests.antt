-- ===== src/Admin/Tests.antt =====
-- Runs of the admin panel's model, frontend/admin/src/components/AdminPanelRuntime.tsx, and instances of
-- the theorems about it.
use pairline.Base.{
  Text, lit, List, [], ◌∷◌, none, some, true, false, not, has, text_keys, text_eq, trim, ◌≡◌, refl,
  if◌then◌else◌, length, arith,
}
use pairline.Admin.{Panel, Limit, StatusFilter, SourceFilter, BanFilter}
use pairline.Admin.Json.{Fields, whole}
use pairline.Admin.Types.{
  AdminRole, Report, ReportStatus, BotType, BotDefinition, BanModalState, BanTarget, BanMode,
  DurationUnit,
}
use pairline.Admin.Session.{Server, send, refresh_session, bootstrap_auth}
use pairline.Admin.Fetching.{
  login, visible_reports, selectable_visible_reports, every_selected, ids,
}
use pairline.Admin.Reviewing.{
  toggle_select_all_visible_reports, humanize_auto_moderation_state, spaced,
}
use pairline.Admin.Banning.{Clock, build_ban_request}
use pairline.Admin.Bots.{build_bot_runtime_settings_draft}
use pairline.Admin.BotForms.{initial_form, form_of, script_of}
use pairline.Admin.BotForms.Lines.{parse_conversation_lines, split_lines}
use pairline.Admin.BotForms.Editing.{script_fields, script_of-form_of}
use pairline.Admin.Events.{Event, run, step}
use pairline.Admin.Keeping.{core}
use pairline.Admin.Invariant.{
  IsRemembered, IsSelectable, AreAllowed, run-IsRemembered, run-IsSelectable, step-AreAllowed,
}
use pairline.Admin.BanRequests.{IsRequestOf, build_ban_request-IsRequestOf}
use pairline.Admin.Selection.{has-toggle_select_all}

abbrev closed_modal : BanModalState
closed_modal = record {
  is_open = false;
  session_id = [];
  ip = [];
  source_report_id = [];
  target = BanTarget.session;
  reason = [];
  mode = BanMode.permanent;
  duration_value = lit "24";
  duration_unit = DurationUnit.hours;
  clear_manual_inputs_on_submit = false;
}

-- The panel when it is mounted.
abbrev fresh : Panel
fresh = record {
  is_authenticated = false;
  auth_ready = false;
  role = none;
  current_admin_username = [];
  username = lit " ann ";
  password = lit "secret";
  reports = [];
  accounts = [];
  infra_health = none;
  selected_reports = [];
  is_redis_modal_open = false;
  bans = [];
  banned_words = [];
  banned_words_enabled = true;
  updating_banned_words_enabled = false;
  auto_moderation_settings = none;
  updating_auto_moderation_enabled = false;
  bot_settings = none;
  bot_definitions = [];
  is_bot_settings_modal_open = false;
  bot_settings_draft = build_bot_runtime_settings_draft none;
  form = initial_form;
  is_bot_modal_open = false;
  report_status_filter = StatusFilter.only_pending;
  report_review_source_filter = SourceFilter.every_source;
  report_limit = Limit.limited 10;
  server_report_metrics = record { pending_count = 0; approved_count = 0; rejected_count = 0 };
  ban_filter = BanFilter.active_bans;
  ban_limit = Limit.limited 10;
  ban_search = [];
  server_ban_metrics = record { active_count = 0; inactive_count = 0; total_count = 0 };
  manual_ban_session_id = [];
  manual_ban_ip = [];
  manual_ban_reason = [];
  banned_word_input = [];
  banned_word_search = [];
  banned_word_limit = Limit.limited 25;
  banned_word_total = 0;
  account_username = [];
  account_password = [];
  account_role = AdminRole.moderator;
  account_search = [];
  account_limit = Limit.limited 25;
  account_page = 1;
  account_total = 0;
  submitting_account = false;
  submitting_ban = false;
  ban_modal = closed_modal;
  is_seeding_reports = false;
  admin_auth = none;
  admin_role = none;
  admin_username = none;
  admin_csrf = none;
  requests = [];
  alerts = [];
  navigations = 0;
}

abbrev report : Text → ReportStatus → Report
report id status = record {
  id = id;
  reporter_session_id = lit "s1";
  reported_session_id = lit "s2";
  reporter_ip = lit "10.0.0.1";
  reported_ip = lit "10.0.0.2";
  reason = lit "spam";
  description = [];
  chat_log = [];
  status = status;
  auto_moderation_state = none;
  auto_moderation_decision = none;
  auto_moderation_categories = [];
  auto_moderation_summary = none;
  auto_moderation_error = none;
  auto_moderation_model = none;
  auto_moderation_attempts = none;
  auto_moderation_claimed_at = none;
  auto_moderation_completed_at = none;
  created_at = lit "2026-01-01";
  reviewed_by_username = none;
  reviewed_at = none;
}

abbrev two_reports : List Report
two_reports =
    report (lit "r1") ReportStatus.pending ∷ (report (lit "r2") ReportStatus.approved ∷ [])

-- A server that is down, and one that refuses every session.
abbrev down : Server
down before r = none

abbrev refusing : Server
refusing before r = some (record { status = 401; csrf_header = none; body = none })

abbrev clock : Clock
clock n unit = lit "2026-01-02T00:00:00.000Z"

-- An administrator with two reports.
abbrev working : Panel
working = record fresh {
  is_authenticated = true;
  auth_ready = true;
  role = some AdminRole.admin;
  reports = two_reports;
  admin_auth = some (lit "true");
  admin_role = some AdminRole.admin;
  admin_csrf = some (lit "token");
}

abbrev evening : List Event
evening =
    Event.toggles_all
    ∷ (Event.decides (lit "r1") ReportStatus.approved ∷ (Event.lifts_ban (lit "b1") ∷ []))

run-IsRemembered_example : IsRemembered (core (run refusing clock evening working))
run-IsRemembered_example =
    run-IsRemembered refusing clock evening working (refl, λ r e. (refl, ground arith))

run-IsSelectable_example : IsSelectable (core (run down clock evening working))
unfolding has
run-IsSelectable_example =
    run-IsSelectable down clock evening working (λ id h. absurd (ground arith))

-- A moderator's render stays on the page after the session is lost.
step-AreAllowed_example : AreAllowed (some AdminRole.moderator) [] (
    core (
      step refusing clock
        (record working { role = some AdminRole.moderator })
        (Event.lifts_ban (lit "b1"))
        working))
step-AreAllowed_example =
    step-AreAllowed refusing clock (record working { role = some AdminRole.moderator })
      (Event.lifts_ban (lit "b1")) working refl

abbrev filled_modal : BanModalState
filled_modal = record closed_modal {
  session_id = lit " s2 ";
  reason = lit "spam";
  mode = BanMode.temporary;
}

build_ban_request-IsRequestOf_example :
    IsRequestOf clock filled_modal (build_ban_request clock filled_modal)
build_ban_request-IsRequestOf_example = build_ban_request-IsRequestOf clock filled_modal

has-toggle_select_all_example :
    has (toggle_select_all_visible_reports working working).selected_reports (lit "r1") ≡ (
      if has (ids (selectable_visible_reports working)) (lit "r1")
      then not (every_selected [] (selectable_visible_reports working))
      else has [] (lit "r1"))
unfolding selectable_visible_reports visible_reports
has-toggle_select_all_example = has-toggle_select_all working working (lit "r1") refl

abbrev chatty : BotDefinition
chatty = record {
  id = lit "7";
  name = lit "Ann";
  slug = lit "ann";
  bot_type = BotType.engagement;
  is_active = true;
  description = [];
  match_modes_json = lit "text" ∷ [];
  bot_count = whole 1;
  traffic_weight = whole 100;
  targeting_json = Fields.no_fields;
  script_json = script_fields (script_of initial_form);
  ai_config_json = Fields.no_fields;
  message_limit = whole 4;
  session_ttl_seconds = whole 300;
  idle_timeout_seconds = whole 45;
  disconnect_reason = [];
  created_by_username = lit "root";
  updated_by_username = lit "root";
  created_at = lit "2026-01-01";
  updated_at = lit "2026-01-01";
}

script_of-form_of_example : script_of (form_of chatty) ≡ script_of initial_form
script_of-form_of_example = script_of-form_of initial_form chatty refl

-- The replies of a new bot are two lines.
lines_test :
    parse_conversation_lines (lit "nice\n tell me more\n  ")
    ≡ lit "nice" ∷ (lit "tell me more" ∷ [])
unfolding parse_conversation_lines split_lines trim
lines_test = refl

state_test : humanize_auto_moderation_state (some (lit "on__hold-now")) ≡ lit "on hold now"
unfolding humanize_auto_moderation_state spaced text_eq
state_test = refl

-- A login that the server cannot be asked for leaves one request and one alert.
login_test :
    (length (login down fresh fresh).requests ≡ 1)
    × ((login down fresh fresh).alerts ≡ lit "Login failed" ∷ [])
unfolding login send
login_test = (refl, refl)

-- The client is not signed in after a start with an old session that the server refuses.
bootstrap_test :
    (bootstrap_auth refusing (record working { is_authenticated = false; role = none })).admin_auth
    ≡ none
unfolding bootstrap_auth refresh_session send text_eq
bootstrap_test = refl
