-- ===== src/Admin/Kept/Bots.antt =====
-- The operations on the bots in frontend/admin/src/components/AdminPanelRuntime.tsx keep what `Keeps`
-- asks for, by a render whose role is `role`.
use pairline.Base.{
  Text, Option, some, is_some, Bool, true, false, not, if-holds, if-holds_cases, elim-holds, ◌≡◌,
  refl, ◌∙◌,
}
use pairline.Chat.{present}
use pairline.Admin.{Panel, Call, BotPayload, BotUpdates}
use pairline.Admin.Types.{AdminRole}
use pairline.Admin.Session.{
  Server, can_create_bans, can_manage_bans, can_manage_bots, alert, alert_error, reading,
}
use pairline.Admin.Fetching.{fetch_bot_definitions}
use pairline.Admin.Bots.{
  update_bot_settings, clamped_settings, save_bot_settings_modal, close_bot_settings_modal,
  set_bot_active_state, delete_bot_definition,
}
use pairline.Admin.BotForms.{
  create_bot_definition, update_bot_definition, save_bot, build_bot_definition_payload, rejected,
  payload, Built, send_definition, send_payload, reset_bot_form, save_definition,
}
use pairline.Admin.Keeping.{Core, is_allowed, Keeps}
use pairline.Admin.Kept.{H, right, any_right, handle-kept, fetch_bot_definitions-kept}

module _ (server : Server) (role : Option AdminRole) (J : Core → Type 0) (k : Keeps role J)
    (view : Panel) (same : view.role ≡ role) where
  -- What a panel stands for, and what a result with a panel does.
  abbrev I : Panel → Type 0
  I = H server role J k

  abbrev I2 : Bool × Panel → Type 0
  I2 m = I m.1

  abbrev manages : not (can_manage_bans view.role) ≡ false → can_manage_bans role ≡ true
  manages = right can_manage_bans role view same

  abbrev has_role : not (can_create_bans view.role) ≡ false → is_some role ≡ true
  has_role = any_right role view same

  pub update_bot_settings-kept :
      (u : BotUpdates) (p : Panel) → I p → I2 (update_bot_settings server view u p)
  unfolding update_bot_settings
  update_bot_settings-kept u p h =
      if-holds_cases I2 (not (can_manage_bots view.role)) (λ e. h)
        (λ e.
          handle-kept server role J k I2 _ (λ q. (false, q))
            (reading (λ q. (false, alert _ q))
              (λ d q. (true, record q { bot_settings = some d.bot_settings })))
            (λ r q. (false, alert_error _ r q)) (λ q. (false, alert _ q)) p (manages e) (λ q i. i)
            (λ r q i. elim-holds I2 r.body i (λ d. i)) (λ r q i. i) (λ q i. i) h)

  pub save_bot_settings_modal-kept : (p : Panel) → I p → I (save_bot_settings_modal server view p)
  unfolding save_bot_settings_modal close_bot_settings_modal
  save_bot_settings_modal-kept p h =
      let u = clamped_settings view.bot_settings_draft in
      if-holds I (not (can_manage_bots view.role)) h (
        if-holds I (update_bot_settings server view u p).0 (update_bot_settings-kept u p h)
          (update_bot_settings-kept u p h))

  pub set_bot_active_state-kept :
      (id : Text) (b : Bool) (p : Panel) → I p → I (set_bot_active_state server view id b p)
  unfolding set_bot_active_state
  set_bot_active_state-kept id b p h =
      if-holds_cases I (not (can_manage_bots view.role)) (λ e. h)
        (λ e.
          handle-kept server role J k I _ (λ q. q) (λ r. fetch_bot_definitions server view)
            (alert_error _) (alert _) p (manages e) (λ q i. i)
            (λ r. fetch_bot_definitions-kept server role J k view same) (λ r q i. i) (λ q i. i) h)

  pub delete_bot_definition-kept :
      (id : Text) (ok : Bool) (p : Panel) → I p → I (delete_bot_definition server view id ok p)
  unfolding delete_bot_definition
  delete_bot_definition-kept id ok p h =
      if-holds_cases I (not (can_manage_bots view.role)) (λ e. h)
        (λ e. if-holds I (not ok) h (
          handle-kept server role J k I _ (λ q. q) (λ r. fetch_bot_definitions server view)
            (alert_error _) (alert _) p (manages e) (λ q i. i)
            (λ r. fetch_bot_definitions-kept server role J k view same) (λ r q i. i) (λ q i. i) h))

  send_payload-kept :
      (call : BotPayload → Call) (text : Text) (d : Built) (p : Panel)
      → ((b : BotPayload) → is_allowed role (call b) ≡ true)
      → I p
      → I2 (send_payload server view call text d p)
  unfolding send_payload reset_bot_form
  send_payload-kept call text (rejected reason) p ok h = h
  send_payload-kept call text (payload b) p ok h =
      handle-kept server role J k I2 _ (λ q. (false, q))
        (λ r q. (true, fetch_bot_definitions server view (reset_bot_form q)))
        (λ r q. (false, alert_error text r q)) (λ q. (false, alert text q)) p (ok b) (λ q i. i)
        (λ r q. fetch_bot_definitions-kept server role J k view same (reset_bot_form q))
        (λ r q i. i) (λ q i. i) h

  send_definition-kept :
      (call : BotPayload → Call) (text : Text) (p : Panel)
      → ((b : BotPayload) → is_allowed role (call b) ≡ can_manage_bans role)
      → I p
      → I2 (send_definition server view call text p)
  unfolding send_definition
  send_definition-kept call text p ok h =
      if-holds_cases I2 (not (can_manage_bots view.role)) (λ e. h)
        (λ e.
          send_payload-kept call text (build_bot_definition_payload view.form) p
            (λ b. ok b ∙ manages e) h)

  pub save_bot-kept : (p : Panel) → I p → I (save_bot server view p)
  unfolding save_bot create_bot_definition update_bot_definition
  save_bot-kept p h =
      let made : I2 (save_definition server view p) =
        elim-holds I2 (present view.form.editing_bot_id)
          (send_definition-kept Call.post_bot _ p (λ b. refl) h)
          (λ id. send_definition-kept (Call.put_bot id) _ p (λ b. refl) h) in
      if-holds I (save_definition server view p).0 made made
