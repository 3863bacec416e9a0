-- ===== src/Admin/Kept/Steps.antt =====
-- Every event of the admin panel, frontend/admin/src/components/AdminPanelRuntime.tsx, keeps what `Keeps`
-- asks for.
use pairline.Base.{
  Text, text_eq, eq_of_text_eq, List, [], ◌∷◌, Option, Bool, true, not, ◌&&◌, if◌then◌else◌,
  if-holds, if-holds_cases, ◌≡◌, refl, ap, arith, keep, any_sound, In, in-keep, has, text_keys,
  is_empty, inl, inr, truthy, trim,
}
use mathlib.Core.Path.{subst}
use pairline.Admin.{Panel}
use pairline.Admin.Types.{AdminRole, Report}
use pairline.Admin.Session.{
  Server, can_manage_auto_moderation, can_manage_banned_words, can_manage_accounts,
  can_view_infra_health, can_view_bots,
}
use pairline.Admin.Fetching.{
  is_pending, visible_reports, selectable_visible_reports, every_selected, ids, reset_account_page,
  sync_reports, sync_auto_moderation, sync_bans, sync_banned_words, sync_accounts,
  sync_infra_health, sync_bots, is_visible, fetch_banned_words_settings, fetch_bot_settings,
}
use pairline.Admin.Reviewing.{
  add_id, delete_id, add_all, delete_all, toggle_report, toggle_select_all_visible_reports,
}
use pairline.Admin.Banning.{
  Clock, open_ban_modal, ban_reported_user, apply_ban, close_ban_modal, set_ban_modal,
}
use pairline.Admin.Managing.{previous_page, next_page}
use pairline.Admin.Bots.{
  open_bot_settings_modal, close_bot_settings_modal, change_draft, change_form,
}
use pairline.Admin.BotForms.{
  open_create_bot_modal, reset_bot_form, open_edit_bot_modal, close_bot_modal,
}
use pairline.Admin.Events.{Event, Input, step, enter, has_checkbox}
use pairline.Admin.Keeping.{Core, core, Keeps, pending_ids}
use pairline.Admin.Kept.{
  H, bootstrap_auth-kept, login-kept, logout-kept, fetch_reports-kept, fetch_bans-kept,
  fetch_banned_words-kept, fetch_banned_words_settings-kept, fetch_auto_moderation_settings-kept,
  fetch_accounts-kept, fetch_bot_settings-kept, fetch_bot_definitions-kept, fetch_infra_health-kept,
}
use pairline.Admin.Kept.Operations.{
  handle_single_report_action-kept, decide_selected-kept, submit_ban_modal-kept, unban-kept,
  create_banned_word-kept, delete_banned_word-kept, update_banned_words_enabled-kept,
  update_auto_moderation_enabled-kept, seed_test_reports-kept, create_account-kept,
  delete_account-kept,
}
use pairline.Admin.Kept.Bots.{
  update_bot_settings-kept, save_bot_settings_modal-kept, set_bot_active_state-kept,
  delete_bot_definition-kept, save_bot-kept,
}

-- A pending report of the page is one of the pending reports.
has_id : (rs : List Report) (r : Report) → In r rs → has (ids rs) r.id ≡ true
unfolding has
has_id [] r i = elim i [ ]
has_id (x ∷ xs) r (inl e) = ground (arith, text_keys.beq_iff x.id r.id, ap (λ (y : Report). y.id) e)
has_id (x ∷ xs) r (inr i) = ground (arith, has_id xs r i)

is_pending_id :
    (view : Panel) (r : Report)
    → In r (visible_reports view)
    → is_pending r ≡ true
    → has (pending_ids view.reports) r.id ≡ true
unfolding visible_reports
is_pending_id view r i h =
    let seen = (in-keep (is_visible view.report_review_source_filter) view.reports r).0 i in
    has_id (keep is_pending view.reports) r ((in-keep is_pending view.reports r).1 (seen.0, h))

checkbox_id :
    (id : Text) (view : Panel)
    → has_checkbox id view ≡ true
    → has (pending_ids view.reports) id ≡ true
unfolding has_checkbox
checkbox_id id view h =
    let (r, i, both) = any_sound (λ r. text_eq r.id id && is_pending r) (visible_reports view) h in
    let (same_id, waits) : (text_eq r.id id ≡ true) × (is_pending r ≡ true) = ground arith in
    subst (λ x. has (pending_ids view.reports) x ≡ true) (eq_of_text_eq r.id id same_id)
      (is_pending_id view r i waits)

module _ (server : Server) (from_now : Clock) (role : Option AdminRole) (J : Core → Type 0)
    (k : Keeps role J) where
  abbrev I : Panel → Type 0
  I = H server role J k

  add_all-kept :
      (rs : List Report) (c : Core)
      → ((r : Report) → In r rs → has (pending_ids c.reports) r.id ≡ true)
      → J c
      → J (record c { selected = add_all rs c.selected })
  unfolding add_all
  add_all-kept [] c all_pending h = h
  add_all-kept (r ∷ rs) c all_pending h =
      add_all-kept rs (record c { selected = add_id r.id c.selected })
        (λ x i. all_pending x (inr i)) (k.added c r.id (all_pending r (inl refl)) h)

  delete_all-kept :
      (rs : List Report) (c : Core) → J c → J (record c { selected = delete_all rs c.selected })
  unfolding delete_all
  delete_all-kept [] c h = h
  delete_all-kept (r ∷ rs) c h =
      delete_all-kept rs (record c { selected = delete_id r.id c.selected }) (k.deleted c r.id h)

  module _ (view : Panel) (same : view.role ≡ role) where
    toggle_all-kept :
        (p : Panel) → view.reports ≡ p.reports → I p → I (toggle_select_all_visible_reports view p)
    unfolding toggle_select_all_visible_reports selectable_visible_reports
    toggle_all-kept p shown h =
        let rs = keep is_pending (visible_reports view) in
        if-holds I (is_empty rs) h (
          if-holds (λ s. J (record (core p) { selected = s }))
            (every_selected p.selected_reports rs) (delete_all-kept rs (core p) h)
            (add_all-kept rs (core p)
              (λ r i.
                let both = (in-keep is_pending (visible_reports view) r).0 i in
                subst (λ reports. has (pending_ids reports) r.id ≡ true) shown
                  (is_pending_id view r both.0 both.1))
              h))

    toggle_report-kept :
        (id : Text) (checked : Bool) (p : Panel)
        → view.reports ≡ p.reports
        → I p
        → I (if has_checkbox id view then toggle_report id checked p else p)
    unfolding toggle_report
    toggle_report-kept id checked p shown h =
        if-holds_cases I (has_checkbox id view)
          (λ e.
            if-holds (λ s. J (record (core p) { selected = s })) checked
              (k.added (core p) id
                (subst (λ reports. has (pending_ids reports) id ≡ true) shown
                  (checkbox_id id view e))
                h)
              (k.deleted (core p) id h))
          (λ e. h)

    enter-kept : (i : Input) (p : Panel) → I p → I (enter i p)
    enter-kept (Input.credentials u w) p h = h
    enter-kept (Input.report_status f) p h = h
    enter-kept (Input.report_source f) p h = h
    enter-kept (Input.report_count n) p h = h
    enter-kept (Input.ban_status f) p h = h
    enter-kept (Input.ban_count n) p h = h
    enter-kept (Input.ban_query s) p h = h
    enter-kept (Input.manual_ban s i r) p h = h
    enter-kept (Input.word w) p h = h
    enter-kept (Input.word_query s) p h = h
    enter-kept (Input.word_count n) p h = h
    enter-kept (Input.new_account u w r) p h = h
    enter-kept (Input.account_query s) p h = h
    enter-kept (Input.account_count n) p h = h

    apply_ban-kept : (p : Panel) → I p → I (apply_ban view p)
    unfolding apply_ban open_ban_modal
    apply_ban-kept p h =
        if-holds I (not (truthy view.manual_ban_session_id) && not (truthy view.manual_ban_ip)) h
          (if-holds I (not (truthy (trim view.manual_ban_reason))) h h)

    close_ban_modal-kept : (p : Panel) → I p → I (close_ban_modal view p)
    unfolding close_ban_modal
    close_ban_modal-kept p h = if-holds I view.submitting_ban h h

    -- The events that only change what the page shows.
    pub step-kept :
        (e : Event) (p : Panel) → view.reports ≡ p.reports → I p → I (step server from_now view e p)
    unfolding reset_account_page sync_reports sync_auto_moderation sync_bans sync_banned_words
        sync_accounts sync_infra_health sync_bots ban_reported_user open_ban_modal set_ban_modal
        previous_page next_page open_bot_settings_modal close_bot_settings_modal change_draft
        change_form open_create_bot_modal reset_bot_form open_edit_bot_modal close_bot_modal
    step-kept Event.booted p shown h = bootstrap_auth-kept server role J k p h
    step-kept Event.signs_in p shown h = login-kept server role J k view same p h
    step-kept Event.signs_out p shown h = logout-kept server role J k p h
    step-kept Event.moderation_synced p shown h =
        if-holds I
          ((view.auth_ready && view.is_authenticated) && can_manage_auto_moderation view.role)
          (fetch_auto_moderation_settings-kept server role J k view same p h) h
    step-kept Event.reports_synced p shown h =
        if-holds I (view.auth_ready && view.is_authenticated)
          (fetch_reports-kept server role J k view same p h) h
    step-kept Event.bans_synced p shown h =
        if-holds I (view.auth_ready && view.is_authenticated)
          (fetch_bans-kept server role J k view same p h) h
    step-kept Event.words_synced p shown h =
        if-holds I ((view.auth_ready && view.is_authenticated) && can_manage_banned_words view.role)
          (fetch_banned_words-kept server role J k view same
            (fetch_banned_words_settings server view p)
            (fetch_banned_words_settings-kept server role J k view same p h))
          h
    step-kept Event.accounts_synced p shown h =
        if-holds I ((view.auth_ready && view.is_authenticated) && can_manage_accounts view.role)
          (fetch_accounts-kept server role J k view same p h) h
    step-kept Event.health_synced p shown h =
        if-holds I ((view.auth_ready && view.is_authenticated) && can_view_infra_health view.role)
          (fetch_infra_health-kept server role J k view same p h) h
    step-kept Event.bots_synced p shown h =
        if-holds I ((view.auth_ready && view.is_authenticated) && can_view_bots view.role)
          (fetch_bot_definitions-kept server role J k view same (fetch_bot_settings server view p)
            (fetch_bot_settings-kept server role J k view same p h))
          h
    step-kept Event.refreshes p shown h = fetch_reports-kept server role J k view same p h
    step-kept Event.account_filter_changed p shown h = h
    step-kept (Event.enters i) p shown h = enter-kept i p h
    step-kept Event.toggles_all p shown h = toggle_all-kept p shown h
    step-kept (Event.toggles_report id checked) p shown h = toggle_report-kept id checked p shown h
    step-kept (Event.decides id s) p shown h =
        handle_single_report_action-kept server role J k view same id s p h
    step-kept (Event.decides_selection s) p shown h =
        decide_selected-kept server role J k view same s p h
    step-kept (Event.bans_reported r) p shown h = h
    step-kept Event.applies_ban p shown h = apply_ban-kept p h
    step-kept Event.closes_ban p shown h = close_ban_modal-kept p h
    step-kept Event.submits_ban p shown h =
        submit_ban_modal-kept server role J k view same from_now p h
    step-kept (Event.edits_ban m) p shown h = h
    step-kept (Event.lifts_ban id) p shown h = unban-kept server role J k view same id p h
    step-kept Event.adds_word p shown h = create_banned_word-kept server role J k view same p h
    step-kept (Event.deletes_word id) p shown h =
        delete_banned_word-kept server role J k view same id p h
    step-kept (Event.switches_words b) p shown h =
        update_banned_words_enabled-kept server role J k view same b p h
    step-kept (Event.switches_moderation b) p shown h =
        update_auto_moderation_enabled-kept server role J k view same b p h
    step-kept Event.seeds p shown h = seed_test_reports-kept server role J k view same p h
    step-kept Event.adds_account p shown h = create_account-kept server role J k view same p h
    step-kept Event.goes_back p shown h = h
    step-kept Event.goes_on p shown h = h
    step-kept (Event.deletes_account name ok) p shown h =
        delete_account-kept server role J k view same name ok p h
    step-kept Event.opens_settings p shown h = h
    step-kept Event.closes_settings p shown h = h
    step-kept Event.saves_settings p shown h =
        save_bot_settings_modal-kept server role J k view same p h
    step-kept (Event.switches_bots u) p shown h =
        update_bot_settings-kept server role J k view same u p h
    step-kept (Event.edits_settings f) p shown h = h
    step-kept Event.opens_bot p shown h = h
    step-kept Event.closes_bot p shown h = h
    step-kept Event.saves_bot p shown h = save_bot-kept server role J k view same p h
    step-kept (Event.edits_bot b) p shown h = h
    step-kept (Event.fills_bot f) p shown h = h
    step-kept (Event.activates_bot id b) p shown h =
        set_bot_active_state-kept server role J k view same id b p h
    step-kept (Event.deletes_bot id ok) p shown h =
        delete_bot_definition-kept server role J k view same id ok p h
