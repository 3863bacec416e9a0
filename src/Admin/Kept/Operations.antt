-- ===== src/Admin/Kept/Operations.antt =====
-- The operations of frontend/admin/src/components/AdminPanelRuntime.tsx keep what `Keeps` asks for, by
-- a render whose role is `role`.
use pairline.Base.{
  Text, List, [], ◌∷◌, Option, some, is_some, Bool, true, false, not, ◌||◌, truthy, trim, if-holds,
  if-holds_cases, elim-holds, ◌≡◌, refl, arith, or_else,
}
use pairline.Admin.{Panel}
use pairline.Admin.Types.{AdminRole, ReportStatus, CreateBanRequest}
use pairline.Admin.Session.{
  Server, can_create_bans, can_manage_bans, can_manage_banned_words, can_manage_auto_moderation,
  can_manage_accounts, alert, alert_error, reading,
}
use pairline.Admin.Fetching.{
  fetch_reports, fetch_bans, fetch_banned_words, fetch_accounts, selected_pending_report_ids,
}
use pairline.Admin.Reviewing.{
  update_report_status, handle_single_report_action, update_each, decide_selected, delete_id,
}
use pairline.Admin.Banning.{
  Clock, create_ban, submit_ban_modal, unban, build_ban_request, close_ban_modal, after_ban, submit,
  Draft, refused, accepted,
}
use pairline.Admin.Managing.{
  create_banned_word, delete_banned_word, update_banned_words_enabled,
  update_auto_moderation_enabled, seed_test_reports, seeded, create_account, delete_account,
}
use pairline.Admin.Keeping.{Core, core, Keeps}
use pairline.Admin.Kept.{
  H, right, any_right, handle-kept, fetch_reports-kept, fetch_bans-kept, fetch_banned_words-kept,
  fetch_accounts-kept,
}

or_false : (a b : Bool) → a || b ≡ false → a ≡ false
or_false a b h = ground arith

module _ (server : Server) (role : Option AdminRole) (J : Core → Type 0) (k : Keeps role J)
    (view : Panel) (same : view.role ≡ role) where
  -- What a panel stands for, and what a result with a panel does.
  abbrev I : Panel → Type 0
  I = H server role J k

  abbrev I2 : Bool × Panel → Type 0
  I2 m = I m.1

  abbrev manages : not (can_manage_bans view.role) ≡ false → can_manage_bans role ≡ true
  manages = right can_manage_bans role view same

  abbrev has_role : not (can_create_bans view.role) ≡ false → is_some role ≡ true
  has_role = any_right role view same

  pub update_report_status-kept :
      (id : Text) (s : ReportStatus) (p : Panel) → I p → I (update_report_status server view id s p)
  unfolding update_report_status
  update_report_status-kept id s p h =
      handle-kept server role J k I _ (λ q. q) (λ r. fetch_reports server view) (alert_error _)
        (λ q. q) p refl (λ q i. i) (λ r. fetch_reports-kept server role J k view same) (λ r q i. i)
        (λ q i. i) h

  pub handle_single_report_action-kept :
      (id : Text) (s : ReportStatus) (p : Panel)
      → I p
      → I (handle_single_report_action server view id s p)
  unfolding handle_single_report_action
  handle_single_report_action-kept id s p h =
      update_report_status-kept id s
        (record p { selected_reports = delete_id id p.selected_reports }) (k.deleted (core p) id h)

  pub update_each-kept :
      (ids : List Text) (s : ReportStatus) (p : Panel) → I p → I (update_each server view ids s p)
  unfolding update_each
  update_each-kept [] s p h = h
  update_each-kept (id ∷ rest) s p h =
      update_each-kept rest s (update_report_status server view id s p)
        (update_report_status-kept id s p h)

  pub decide_selected-kept :
      (s : ReportStatus) (p : Panel) → I p → I (decide_selected server view s p)
  unfolding decide_selected
  decide_selected-kept s p h =
      update_each-kept (selected_pending_report_ids view) s (record p { selected_reports = [] })
        (k.deselected (core p) h)

  create_ban-kept : (b : CreateBanRequest) (p : Panel) → I p → I2 (create_ban server view b p)
  unfolding create_ban
  create_ban-kept b p h =
      if-holds_cases I2 (not (can_create_bans view.role)) (λ e. h)
        (λ e.
          handle-kept server role J k I2 _ (λ q. (false, q))
            (λ r q. (true, fetch_reports server view (fetch_bans server view q)))
            (λ r q. (false, alert_error _ r q)) (λ q. (false, alert _ q)) p (has_role e) (λ q i. i)
            (λ r q i.
              fetch_reports-kept server role J k view same (fetch_bans server view q)
                (fetch_bans-kept server role J k view same q i))
            (λ r q i. i) (λ q i. i) h)

  after_ban-kept : (made : Bool × Panel) → I2 made → I (after_ban server view made)
  unfolding after_ban close_ban_modal
  after_ban-kept made h = if-holds I (not made.0) h (
      if-holds I view.submitting_ban (if-holds I view.ban_modal.clear_manual_inputs_on_submit h h)
        (if-holds I view.ban_modal.clear_manual_inputs_on_submit h h))

  submit-kept : (d : Draft) (p : Panel) → I p → I (submit server view d p)
  submit-kept (refused text) p h = h
  submit-kept (accepted request) p h =
      let q : Panel = record p { submitting_ban = true } in
      after_ban-kept (create_ban server view request q) (create_ban-kept request q h)

  pub submit_ban_modal-kept :
      (from_now : Clock) (p : Panel) → I p → I (submit_ban_modal server view from_now p)
  unfolding submit_ban_modal
  submit_ban_modal-kept from_now = submit-kept (build_ban_request from_now view.ban_modal)

  pub unban-kept : (id : Text) (p : Panel) → I p → I (unban server view id p)
  unfolding unban
  unban-kept id p h =
      if-holds_cases I (not (can_manage_bans view.role)) (λ e. h)
        (λ e.
          handle-kept server role J k I _ (λ q. q)
            (λ r q. fetch_reports server view (fetch_bans server view q)) (alert_error _) (alert _)
            p (manages e) (λ q i. i)
            (λ r q i.
              fetch_reports-kept server role J k view same (fetch_bans server view q)
                (fetch_bans-kept server role J k view same q i))
            (λ r q i. i) (λ q i. i) h)

  pub create_banned_word-kept : (p : Panel) → I p → I (create_banned_word server view p)
  unfolding create_banned_word
  create_banned_word-kept p h =
      if-holds_cases I (not (can_manage_banned_words view.role)) (λ e. h)
        (λ e. if-holds I (not (truthy (trim view.banned_word_input))) h (
          handle-kept server role J k I _ (λ q. q)
            (λ r q. fetch_banned_words server view (record q { banned_word_input = [] }))
            (alert_error _) (alert _) p (has_role e) (λ q i. i)
            (λ r q.
              fetch_banned_words-kept server role J k view same
                (record q { banned_word_input = [] }))
            (λ r q i. i) (λ q i. i) h))

  pub delete_banned_word-kept :
      (id : Text) (p : Panel) → I p → I (delete_banned_word server view id p)
  unfolding delete_banned_word
  delete_banned_word-kept id p h =
      if-holds_cases I (not (can_manage_banned_words view.role)) (λ e. h)
        (λ e.
          handle-kept server role J k I _ (λ q. q) (λ r. fetch_banned_words server view)
            (alert_error _) (alert _) p (has_role e) (λ q i. i)
            (λ r. fetch_banned_words-kept server role J k view same) (λ r q i. i) (λ q i. i) h)

  pub update_banned_words_enabled-kept :
      (b : Bool) (p : Panel) → I p → I (update_banned_words_enabled server view b p)
  unfolding update_banned_words_enabled
  update_banned_words_enabled-kept b p h =
      if-holds_cases I
        (not (can_manage_banned_words view.role) || view.updating_banned_words_enabled) (λ e. h)
        (λ e.
          handle-kept server role J k I _ (λ q. q)
            (reading (alert _) (λ d q. record q { banned_words_enabled = or_else d.enabled true }))
            (alert_error _) (alert _) (record p { updating_banned_words_enabled = true })
            (has_role (
              or_false (not (can_manage_banned_words view.role)) view.updating_banned_words_enabled
                e))
            (λ q i. i) (λ r q i. elim-holds I r.body i (λ d. i)) (λ r q i. i) (λ q i. i) h)

  pub update_auto_moderation_enabled-kept :
      (b : Bool) (p : Panel) → I p → I (update_auto_moderation_enabled server view b p)
  unfolding update_auto_moderation_enabled
  update_auto_moderation_enabled-kept b p h =
      if-holds_cases I
        (not (can_manage_auto_moderation view.role) || view.updating_auto_moderation_enabled)
        (λ e. h)
        (λ e.
          handle-kept server role J k I _ (λ q. q)
            (reading (alert _)
              (λ d q. record q { auto_moderation_settings = some d.auto_moderation }))
            (alert_error _) (alert _) (record p { updating_auto_moderation_enabled = true })
            (has_role (
              or_false (not (can_manage_auto_moderation view.role))
                view.updating_auto_moderation_enabled e))
            (λ q i. i) (λ r q i. elim-holds I r.body i (λ d. i)) (λ r q i. i) (λ q i. i) h)

  pub seed_test_reports-kept : (p : Panel) → I p → I (seed_test_reports server view p)
  unfolding seed_test_reports
  seed_test_reports-kept p h = if-holds I view.is_seeding_reports h (
      handle-kept server role J k I _ (λ q. q)
        (reading (alert _) (λ d q. fetch_reports server view (alert (seeded d) q))) (alert_error _)
        (alert _) (record p { is_seeding_reports = true }) refl (λ q i. i)
        (λ r q i.
          elim-holds I r.body i
            (λ d. fetch_reports-kept server role J k view same (alert (seeded d) q) i))
        (λ r q i. i) (λ q i. i) h)

  pub create_account-kept : (p : Panel) → I p → I (create_account server view p)
  unfolding create_account
  create_account-kept p h =
      if-holds_cases I (not (can_manage_accounts view.role)) (λ e. h)
        (λ e.
          handle-kept server role J k I _ (λ q. q)
            (λ r q.
              fetch_accounts server view
                (record q { account_username = []; account_password = []; account_page = 1 }))
            (alert_error _) (alert _) (record p { submitting_account = true }) (manages e)
            (λ q i. i)
            (λ r q.
              fetch_accounts-kept server role J k view same
                (record q { account_username = []; account_password = []; account_page = 1 }))
            (λ r q i. i) (λ q i. i) h)

  pub delete_account-kept :
      (name : Text) (ok : Bool) (p : Panel) → I p → I (delete_account server view name ok p)
  unfolding delete_account
  delete_account-kept name ok p h =
      if-holds_cases I (not (can_manage_accounts view.role) || not ok) (λ e. h)
        (λ e.
          handle-kept server role J k I _ (λ q. q) (λ r. fetch_accounts server view) (alert_error _)
            (alert _) p (manages (or_false (not (can_manage_accounts view.role)) (not ok) e))
            (λ q i. i) (λ r. fetch_accounts-kept server role J k view same) (λ r q i. i) (λ q i. i)
            h)
