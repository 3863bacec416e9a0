-- ===== src/Admin/Managing.antt =====
-- The banned words, the automatic moderation and the accounts of the admin panel, in
-- frontend/admin/src/components/AdminPanelRuntime.tsx.
use pairline.Base.{
  ℕ, ◌+◌, ◌-◌, Text, lit, truthy, trim, [], ◌++◌, some, or_else, Bool, true, false, not, ◌||◌, leb,
  if◌then◌else◌, min, length,
}
use Prim.Native.Nat.{◌/◌}
use pairline.Admin.{Panel, Call, Body, unlimited, limited}
use pairline.Admin.Session.{
  Server, handle, reading, alert, alert_error, can_manage_banned_words, can_manage_auto_moderation,
  can_manage_accounts,
}
use pairline.Admin.Fetching.{fetch_banned_words, fetch_accounts, fetch_reports}

abbrev pub larger : ℕ → ℕ → ℕ
larger a b = if leb a b then b else a

-- `accountPageSize` and `accountTotalPages`; a quotient that is rounded up.
unfoldable pub account_page_size : Panel → ℕ
account_page_size p = elim p.account_limit [
  | unlimited ↦ larger (larger p.account_total (length p.accounts)) 1
  | limited n ↦ n
]

unfoldable pub account_total_pages : Panel → ℕ
account_total_pages p =
    larger 1 ((p.account_total + (account_page_size p - 1)) / account_page_size p)

-- The two buttons; the last page is that of the render.
unfoldable pub previous_page : Panel → Panel
previous_page p = record p { account_page = larger 1 (p.account_page - 1) }

unfoldable pub next_page : Panel → Panel → Panel
next_page view p = record p { account_page = min (account_total_pages view) (p.account_page + 1) }

abbrev pub seeded : Body → Text
seeded d = lit "Successfully seeded " ++ (d.count ++ lit " test reports.")

module _ (server : Server) (view : Panel) where
  unfoldable pub create_banned_word : Panel → Panel
  create_banned_word p =
      let word = trim view.banned_word_input in
      if not (can_manage_banned_words view.role)
      then p
      else if not (truthy word)
      then alert (lit "Please enter a banned word or phrase") p
      else handle server (Call.post_word word) (λ q. q)
          (λ r q. fetch_banned_words server view (record q { banned_word_input = [] }))
          (alert_error (lit "Failed to create banned word"))
          (alert (lit "Failed to create banned word")) p

  unfoldable pub delete_banned_word : Text → Panel → Panel
  delete_banned_word id p =
      if not (can_manage_banned_words view.role)
      then p
      else handle server (Call.delete_word id) (λ q. q) (λ r. fetch_banned_words server view)
          (alert_error (lit "Failed to delete banned word"))
          (alert (lit "Failed to delete banned word")) p

  unfoldable pub update_banned_words_enabled : Bool → Panel → Panel
  update_banned_words_enabled enabled p =
      if not (can_manage_banned_words view.role) || view.updating_banned_words_enabled
      then p
      else let text = lit "Failed to update banned words enforcement" in
        let q =
          handle server (Call.put_words_settings enabled) (λ q. q)
            (reading (alert text)
              (λ d q. record q { banned_words_enabled = or_else d.enabled true }))
            (alert_error text) (alert text) (record p { updating_banned_words_enabled = true }) in
        record q { updating_banned_words_enabled = false }

  unfoldable pub update_auto_moderation_enabled : Bool → Panel → Panel
  update_auto_moderation_enabled enabled p =
      if not (can_manage_auto_moderation view.role) || view.updating_auto_moderation_enabled
      then p
      else let text = lit "Failed to update auto moderation" in
        let q =
          handle server (Call.put_moderation_settings enabled) (λ q. q)
            (reading (alert text)
              (λ d q. record q { auto_moderation_settings = some d.auto_moderation }))
            (alert_error text) (alert text)
            (record p { updating_auto_moderation_enabled = true }) in
        record q { updating_auto_moderation_enabled = false }

  unfoldable pub seed_test_reports : Panel → Panel
  seed_test_reports p =
      if view.is_seeding_reports
      then p
      else let text = lit "Failed to seed test reports" in
        let q =
          handle server Call.seed_reports (λ q. q)
            (reading (alert text) (λ d q. fetch_reports server view (alert (seeded d) q)))
            (alert_error text) (alert text) (record p { is_seeding_reports = true }) in
        record q { is_seeding_reports = false }

  unfoldable pub create_account : Panel → Panel
  create_account p =
      if not (can_manage_accounts view.role)
      then p
      else let call =
          Call.post_account (trim view.account_username) (trim view.account_password)
            view.account_role in
        let q =
          handle server call (λ q. q)
            (λ r q.
              fetch_accounts server view
                (record q { account_username = []; account_password = []; account_page = 1 }))
            (alert_error (lit "Failed to create account")) (alert (lit "Failed to create account"))
            (record p { submitting_account = true }) in
        record q { submitting_account = false }

  -- `confirmed` is the answer to the question of the browser.
  unfoldable pub delete_account : Text → Bool → Panel → Panel
  delete_account target_username confirmed p =
      if not (can_manage_accounts view.role) || not confirmed
      then p
      else handle server (Call.delete_account target_username) (λ q. q)
          (λ r. fetch_accounts server view) (alert_error (lit "Failed to delete account"))
          (alert (lit "Failed to delete account")) p
