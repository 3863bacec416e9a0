-- ===== src/Admin/Events.antt =====
-- All that can happen to the admin panel, frontend/admin/src/components/AdminPanelRuntime.tsx. An event
-- is handled with the values of a render, `view`; an operation runs to its end, with the reads that it
-- starts, before the next event.
use pairline.Base.{Text, text_eq, List, [], ◌∷◌, Bool, ◌&&◌, if◌then◌else◌, any}
use pairline.Admin.{
  Panel, StatusFilter, SourceFilter, BanFilter, Limit, BotForm, BotUpdates, BotRuntimeSettingsDraft,
}
use pairline.Admin.Types.{AdminRole, Report, ReportStatus, BanModalState, BotDefinition}
use pairline.Admin.Session.{Server, bootstrap_auth, logout}
use pairline.Admin.Fetching.{
  is_pending, visible_reports, login, fetch_reports, sync_reports, sync_auto_moderation, sync_bans,
  sync_banned_words, sync_accounts, sync_infra_health, sync_bots, reset_account_page,
}
use pairline.Admin.Reviewing.{
  toggle_report, toggle_select_all_visible_reports, handle_single_report_action, decide_selected,
}
use pairline.Admin.Banning.{
  Clock, ban_reported_user, apply_ban, close_ban_modal, set_ban_modal, submit_ban_modal, unban,
}
use pairline.Admin.Managing.{
  previous_page, next_page, create_banned_word, delete_banned_word, update_banned_words_enabled,
  update_auto_moderation_enabled, seed_test_reports, create_account, delete_account,
}
use pairline.Admin.Bots.{
  open_bot_settings_modal, close_bot_settings_modal, change_draft, change_form, update_bot_settings,
  save_bot_settings_modal, set_bot_active_state, delete_bot_definition,
}
use pairline.Admin.BotForms.{open_create_bot_modal, open_edit_bot_modal, close_bot_modal, save_bot}

-- The fields and the filters of the page.
pub data Input : Type 0 where
  credentials : Text → Text → Input
  report_status : StatusFilter → Input
  report_source : SourceFilter → Input
  report_count : Limit → Input
  ban_status : BanFilter → Input
  ban_count : Limit → Input
  ban_query : Text → Input
  manual_ban : Text → Text → Text → Input
  word : Text → Input
  word_query : Text → Input
  word_count : Limit → Input
  new_account : Text → Text → AdminRole → Input
  account_query : Text → Input
  account_count : Limit → Input

abbrev pub enter : Input → Panel → Panel
enter (Input.credentials u w) p = record p { username = u; password = w }
enter (Input.report_status f) p = record p { report_status_filter = f }
enter (Input.report_source f) p = record p { report_review_source_filter = f }
enter (Input.report_count n) p = record p { report_limit = n }
enter (Input.ban_status f) p = record p { ban_filter = f }
enter (Input.ban_count n) p = record p { ban_limit = n }
enter (Input.ban_query s) p = record p { ban_search = s }
enter (Input.manual_ban s i r) p = record p {
  manual_ban_session_id = s;
  manual_ban_ip = i;
  manual_ban_reason = r;
}
enter (Input.word w) p = record p { banned_word_input = w }
enter (Input.word_query s) p = record p { banned_word_search = s }
enter (Input.word_count n) p = record p { banned_word_limit = n }
enter (Input.new_account u w r) p = record p {
  account_username = u;
  account_password = w;
  account_role = r;
}
enter (Input.account_query s) p = record p { account_search = s }
enter (Input.account_count n) p = record p { account_limit = n }

pub data Event : Type 0 where
  booted signs_in signs_out : Event
  enters : Input → Event
  reports_synced moderation_synced bans_synced words_synced : Event
  accounts_synced health_synced bots_synced account_filter_changed : Event
  refreshes toggles_all : Event
  toggles_report : Text → Bool → Event
  decides : Text → ReportStatus → Event
  decides_selection : ReportStatus → Event
  bans_reported : Report → Event
  applies_ban closes_ban submits_ban : Event
  edits_ban : BanModalState → Event
  lifts_ban : Text → Event
  adds_word : Event
  deletes_word : Text → Event
  switches_words switches_moderation : Bool → Event
  seeds adds_account goes_back goes_on : Event
  deletes_account : Text → Bool → Event
  opens_settings closes_settings saves_settings : Event
  switches_bots : BotUpdates → Event
  edits_settings : (BotRuntimeSettingsDraft → BotRuntimeSettingsDraft) → Event
  opens_bot closes_bot saves_bot : Event
  edits_bot : BotDefinition → Event
  fills_bot : BotForm → Event
  activates_bot : Text → Bool → Event
  deletes_bot : Text → Bool → Event

-- The checkbox stands only beside a report on the page that is pending.
unfoldable pub has_checkbox : Text → Panel → Bool
has_checkbox id view = any (λ r. text_eq r.id id && is_pending r) (visible_reports view)

module _ (server : Server) (from_now : Clock) (view : Panel) where
  abbrev pub step : Event → Panel → Panel
  step Event.booted = bootstrap_auth server
  step Event.signs_in = login server view
  step Event.signs_out = logout server
  step (Event.enters i) = enter i
  step Event.reports_synced = sync_reports server view
  step Event.moderation_synced = sync_auto_moderation server view
  step Event.bans_synced = sync_bans server view
  step Event.words_synced = sync_banned_words server view
  step Event.accounts_synced = sync_accounts server view
  step Event.health_synced = sync_infra_health server view
  step Event.bots_synced = sync_bots server view
  step Event.account_filter_changed = reset_account_page
  step Event.refreshes = fetch_reports server view
  step Event.toggles_all = toggle_select_all_visible_reports view
  step (Event.toggles_report id checked) =
      λ p. if has_checkbox id view then toggle_report id checked p else p
  step (Event.decides id s) = handle_single_report_action server view id s
  step (Event.decides_selection s) = decide_selected server view s
  step (Event.bans_reported r) = ban_reported_user r
  step Event.applies_ban = apply_ban view
  step Event.closes_ban = close_ban_modal view
  step Event.submits_ban = submit_ban_modal server view from_now
  step (Event.edits_ban m) = set_ban_modal m
  step (Event.lifts_ban id) = unban server view id
  step Event.adds_word = create_banned_word server view
  step (Event.deletes_word id) = delete_banned_word server view id
  step (Event.switches_words b) = update_banned_words_enabled server view b
  step (Event.switches_moderation b) = update_auto_moderation_enabled server view b
  step Event.seeds = seed_test_reports server view
  step Event.adds_account = create_account server view
  step Event.goes_back = previous_page
  step Event.goes_on = next_page view
  step (Event.deletes_account name ok) = delete_account server view name ok
  step Event.opens_settings = open_bot_settings_modal view
  step Event.closes_settings = close_bot_settings_modal
  step Event.saves_settings = save_bot_settings_modal server view
  step (Event.switches_bots u) = λ p. (update_bot_settings server view u p).1
  step (Event.edits_settings f) = change_draft f
  step Event.opens_bot = open_create_bot_modal
  step Event.closes_bot = close_bot_modal
  step Event.saves_bot = save_bot server view
  step (Event.edits_bot b) = open_edit_bot_modal b
  step (Event.fills_bot f) = change_form f
  step (Event.activates_bot id b) = set_bot_active_state server view id b
  step (Event.deletes_bot id ok) = delete_bot_definition server view id ok

-- The events in turn, each with the values of the render before it.
unfoldable pub run : Server → Clock → List Event → Panel → Panel
run server from_now [] p = p
run server from_now (e ∷ es) p = run server from_now es (step server from_now p e p)
