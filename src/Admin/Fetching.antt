-- ===== src/Admin/Fetching.antt =====
-- What the admin panel reads from the server: the functions `fetch…` of
-- frontend/admin/src/components/AdminPanelRuntime.tsx, `login`, and the filters of the reports. A
-- function of the component takes the values of the render that made it, `view`, and changes the
-- current state.
use pairline.Base.{
  ℕ, Text, lit, truthy, trim, List, [], map, Option, none, some, or_else, is_some, Bool, true,
  false, not, ◌&&◌, ◌==◌, if◌then◌else◌, keep, any, has, text_keys, is_empty, length,
}
use pairline.Chat.{text_is}
use pairline.Admin.{
  Panel, Call, Request, Body, SourceFilter, every_source, awaiting_human, auto_reviewed,
  human_reviewed,
}
use pairline.Admin.Json.{Json, strings_of}
use pairline.Admin.Types.{Report, RawReport, LogMessage, pending, Encoded, missing, plain, encoded}
use pairline.Admin.Session.{
  Server, send, handle, is_ok, reading, accept_login, alert, can_manage_banned_words,
  can_manage_auto_moderation, can_manage_accounts, can_view_bots, can_view_infra_health,
}

abbrev pub is_pending : Report → Bool
is_pending r = elim r.status [ pending ↦ true | _ ↦ false ]

abbrev pub is_auto_reviewed : Report → Bool
is_auto_reviewed r = text_is r.reviewed_by_username (lit "auto-moderation")

abbrev pub is_human_reviewed : Report → Bool
is_human_reviewed r =
    not (is_pending r) && truthy (or_else r.reviewed_by_username []) && not (is_auto_reviewed r)

abbrev pub is_visible : SourceFilter → Report → Bool
is_visible every_source r = true
is_visible awaiting_human r = is_pending r
is_visible auto_reviewed r = is_auto_reviewed r
is_visible human_reviewed r = is_human_reviewed r

-- `visibleReports`, `selectableVisibleReports`, `selectedPendingReportIds`, and the counts.
unfoldable pub visible_reports : Panel → List Report
visible_reports p = keep (is_visible p.report_review_source_filter) p.reports

unfoldable pub selectable_visible_reports : Panel → List Report
selectable_visible_reports p = keep is_pending (visible_reports p)

abbrev pub ids : List Report → List Text
ids = map (λ r. r.id)

unfoldable pub selected_pending_report_ids : Panel → List Text
selected_pending_report_ids p =
    ids (keep (λ r. has p.selected_reports r.id) (selectable_visible_reports p))

-- `xs.every(x => s.has(x.id))`.
unfoldable pub every_selected : List Text → List Report → Bool
every_selected s rs = not (any (λ r. not (has s r.id)) rs)

unfoldable pub all_visible_reports_selected : Panel → Bool
all_visible_reports_selected p =
    not (is_empty (selectable_visible_reports p))
    && every_selected p.selected_reports (selectable_visible_reports p)

unfoldable pub auto_reviewed_reports_count : Panel → ℕ
auto_reviewed_reports_count p = length (keep is_auto_reviewed p.reports)

unfoldable pub human_reviewed_reports_count : Panel → ℕ
human_reviewed_reports_count p = length (keep is_human_reviewed p.reports)

unfoldable pub awaiting_human_reports_count : Panel → ℕ
awaiting_human_reports_count p = length (keep is_pending p.reports)

-- The two fields that may come as JSON.
abbrev chat_log_of : Encoded (List LogMessage) (List LogMessage) → List LogMessage
chat_log_of missing = []
chat_log_of (plain log) = log
chat_log_of (encoded none) = []
chat_log_of (encoded (some log)) = log

abbrev categories_of : Encoded (List Text) Json → List Text
categories_of missing = []
categories_of (plain names) = names
categories_of (encoded (some (Json.array items))) = strings_of items
categories_of (encoded _) = []

abbrev pub normalized : RawReport → Report
normalized r = record r.base {
  chat_log = chat_log_of r.raw_chat_log;
  auto_moderation_categories = categories_of r.raw_categories;
}

-- The selection after new reports: what is still pending.
abbrev pub still_pending : List Report → List Text → List Text
still_pending rs = keep (has (ids (keep is_pending rs)))

unfoldable pub accept_reports : Body → Panel → Panel
accept_reports d p =
    let rs = map normalized (or_else d.reports []) in
    record p {
      server_report_metrics = or_else d.report_metrics p.server_report_metrics;
      reports = rs;
      selected_reports = still_pending rs p.selected_reports;
    }

-- `deferredSearch.trim()`, if something is left.
abbrev query : Text → Option Text
query s = if truthy (trim s) then some (trim s) else none

abbrev unchanged : Panel → Panel
unchanged p = p

-- The frame of the reads: an answer that is not ok, or a throw, changes nothing.
unfoldable pub read : Server → Call → (Body → Panel → Panel) → Panel → Panel
read server call use_body =
    handle server call (λ q. q) (reading unchanged use_body) (λ r q. q) unchanged

module _ (server : Server) (view : Panel) where
  unfoldable pub fetch_reports : Panel → Panel
  fetch_reports =
      read server (Call.list_reports view.report_status_filter view.report_limit) accept_reports

  unfoldable pub fetch_bans : Panel → Panel
  fetch_bans =
      read server (Call.list_bans view.ban_filter view.ban_limit (query view.ban_search)) (λ d q.
        record q {
          server_ban_metrics = or_else d.ban_metrics q.server_ban_metrics;
          bans = or_else d.bans [];
        })

  unfoldable pub fetch_banned_words : Panel → Panel
  fetch_banned_words p =
      if not (can_manage_banned_words view.role)
      then p
      else read server (Call.list_words view.banned_word_limit (query view.banned_word_search))
          (λ d q. record q {
            banned_words = or_else d.words [];
            banned_word_total = or_else d.total 0;
          })
          p

  unfoldable pub fetch_banned_words_settings : Panel → Panel
  fetch_banned_words_settings p =
      if not (can_manage_banned_words view.role)
      then p
      else read server Call.words_settings
          (λ d q. record q { banned_words_enabled = or_else d.enabled true }) p

  unfoldable pub fetch_auto_moderation_settings : Panel → Panel
  fetch_auto_moderation_settings p =
      if not (can_manage_auto_moderation view.role)
      then p
      else read server Call.moderation_settings
          (λ d q. record q { auto_moderation_settings = some d.auto_moderation }) p

  unfoldable pub fetch_accounts : Panel → Panel
  fetch_accounts p =
      if not (can_manage_accounts view.role)
      then p
      else read server
          (Call.list_accounts view.account_page view.account_limit (query view.account_search))
          (λ d q. record q { accounts = or_else d.accounts []; account_total = or_else d.total 0 })
          p

  unfoldable pub fetch_bot_settings : Panel → Panel
  fetch_bot_settings p =
      if not (can_view_bots view.role)
      then p
      else read server Call.bot_settings (λ d q. record q { bot_settings = some d.bot_settings }) p

  unfoldable pub fetch_bot_definitions : Panel → Panel
  fetch_bot_definitions p =
      if not (can_view_bots view.role)
      then p
      else read server Call.list_bots (λ d q. record q { bot_definitions = or_else d.bots [] }) p

  -- A role that the server does not let see it loses the health that it had.
  unfoldable pub fetch_infra_health : Panel → Panel
  fetch_infra_health p =
      if not (can_view_infra_health view.role)
      then p
      else handle server Call.infra_health (λ q. q)
          (reading unchanged (λ d q. record q { infra_health = some d.infra_health }))
          (λ r q. if r.status == 403 then record q { infra_health = none } else q) unchanged p

  -- The request of `login` has no token.
  unfoldable pub login : Panel → Panel
  login p =
      let r : Request = record {
        call = Call.sign_in (trim view.username) (trim view.password);
        content_json = true;
        csrf_token = none;
      } in
      let q = (send server r p).1 in
      elim (send server r p).0 [
        | none ↦ alert (lit "Login failed") q
        | some a ↦
            if not (is_ok a)
            then alert (lit "Invalid credentials") q
            else let s = accept_login view.username a q in
              if is_some a.body then fetch_reports s else s
      ]

  -- The effects that follow the session, the rights and the filters.
  abbrev is_signed_in : Bool
  is_signed_in = view.auth_ready && view.is_authenticated

  unfoldable pub sync_reports : Panel → Panel
  sync_reports p = if is_signed_in then fetch_reports p else p

  unfoldable pub sync_auto_moderation : Panel → Panel
  sync_auto_moderation p =
      if is_signed_in && can_manage_auto_moderation view.role
      then fetch_auto_moderation_settings p
      else p

  unfoldable pub sync_bans : Panel → Panel
  sync_bans p = if is_signed_in then fetch_bans p else p

  unfoldable pub sync_banned_words : Panel → Panel
  sync_banned_words p =
      if is_signed_in && can_manage_banned_words view.role
      then fetch_banned_words (fetch_banned_words_settings p)
      else p

  unfoldable pub sync_accounts : Panel → Panel
  sync_accounts p = if is_signed_in && can_manage_accounts view.role then fetch_accounts p else p

  unfoldable pub sync_infra_health : Panel → Panel
  sync_infra_health p =
      if is_signed_in && can_view_infra_health view.role then fetch_infra_health p else p

  unfoldable pub sync_bots : Panel → Panel
  sync_bots p =
      if is_signed_in && can_view_bots view.role
      then fetch_bot_definitions (fetch_bot_settings p)
      else p

-- The other effects: a new search or limit goes back to the first page.
unfoldable pub reset_account_page : Panel → Panel
reset_account_page p = record p { account_page = 1 }
