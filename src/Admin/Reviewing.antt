-- ===== src/Admin/Reviewing.antt =====
-- The reports of the admin panel: decisions, the selection, and the labels, in
-- frontend/admin/src/components/AdminPanelRuntime.tsx and admin-panel/utils.ts.
use pairline.Base.{
  ℕ, Text, lit, text_eq, List, [], ◌∷◌, ◌++◌, Option, none, some, or_else, Bool, true, false, not,
  ◌&&◌, ◌==◌, ltb, if◌then◌else◌, keep, has, text_keys, is_empty,
}
use pairline.Chat.{present, text_is}
use pairline.Admin.{Panel, Call}
use pairline.Admin.Types.{Report, ReportStatus}
use pairline.Admin.Session.{Server, handle, alert_error}
use pairline.Admin.Fetching.{
  fetch_reports, selectable_visible_reports, selected_pending_report_ids, every_selected,
}

-- `next.add(id)` and `next.delete(id)`.
unfoldable pub add_id : Text → List Text → List Text
add_id id s = if has s id then s else s ++ (id ∷ [])

unfoldable pub delete_id : Text → List Text → List Text
delete_id id = keep (λ x. not (text_eq x id))

unfoldable pub add_all : List Report → List Text → List Text
unfolding add_id
add_all [] s = s
add_all (r ∷ rs) s = add_all rs (add_id r.id s)

unfoldable pub delete_all : List Report → List Text → List Text
unfolding delete_id
delete_all [] s = s
delete_all (r ∷ rs) s = delete_all rs (delete_id r.id s)

-- The checkbox of a report.
unfoldable pub toggle_report : Text → Bool → Panel → Panel
toggle_report id checked p = record p {
  selected_reports =
      if checked then add_id id p.selected_reports else delete_id id p.selected_reports;
}

-- The reports that can be selected are those of the render, the selection is the current one.
unfoldable pub toggle_select_all_visible_reports : Panel → Panel → Panel
toggle_select_all_visible_reports view p =
    let rs = selectable_visible_reports view in
    if is_empty rs then p else record p {
      selected_reports =
          if every_selected p.selected_reports rs
          then delete_all rs p.selected_reports
          else add_all rs p.selected_reports;
    }

module _ (server : Server) (view : Panel) where
  unfoldable pub update_report_status : Text → ReportStatus → Panel → Panel
  update_report_status report_id new_status =
      handle server (Call.put_report report_id new_status) (λ q. q) (λ r. fetch_reports server view)
        (alert_error (lit "Failed to update report")) (λ q. q)

  unfoldable pub handle_single_report_action : Text → ReportStatus → Panel → Panel
  handle_single_report_action report_id new_status p =
      update_report_status report_id new_status
        (record p { selected_reports = delete_id report_id p.selected_reports })

  unfoldable pub update_each : List Text → ReportStatus → Panel → Panel
  update_each [] new_status p = p
  update_each (id ∷ rest) new_status p =
      update_each rest new_status (update_report_status id new_status p)

  -- The buttons "Approve" and "Reject": the selection is emptied at once. The updates, which wait for the
  -- server side by side in the source, run one after the other here.
  unfoldable pub decide_selected : ReportStatus → Panel → Panel
  decide_selected new_status p =
      update_each (selected_pending_report_ids view) new_status (record p { selected_reports = [] })

-- `describeAutoModerationStatus`.
unfoldable pub describe_auto_moderation_status : Panel → Report → Text
describe_auto_moderation_status view r =
    let max_attempts : ℕ = elim view.auto_moderation_settings [
      | none ↦ 0
      | some s ↦ s.max_attempts
    ] in
    let attempts = or_else r.auto_moderation_attempts 0 in
    or_else (present r.auto_moderation_error) (
      or_else (present r.auto_moderation_summary) (
        if text_is r.auto_moderation_state (lit "processing")
        then lit "Auto moderation is currently analyzing this report."
        else if text_is r.auto_moderation_state (lit "failed")
        then if ltb 0 max_attempts && ltb attempts max_attempts
          then lit "Auto moderation hit a transient error and will retry automatically."
          else lit "Auto moderation could not complete and this report needs a human decision."
        else if text_is r.auto_moderation_state (lit "completed")
        then lit "Auto moderation completed without a summary."
        else lit "Waiting for auto moderation to pick up this report."))

unfoldable pub review_source_label : Report → Text
review_source_label r =
    if text_is r.reviewed_by_username (lit "auto-moderation")
    then lit "Auto reviewed"
    else elim (present r.reviewed_by_username) [
      | none ↦ lit "Awaiting human review"
      | some name ↦ lit "Reviewed by " ++ name
    ]

-- `replace(/[_-]+/g, ' ')`; `after` tells that the character before was one of the two.
unfoldable pub spaced : Bool → Text → Text
spaced after [] = []
spaced after (c ∷ s) =
    let joined = spaced true s in
    let rest = c ∷ spaced false s in
    if c == b'_'
    then (if after then joined else 32 ∷ joined)
    else if c == b'-'
    then (if after then joined else 32 ∷ joined)
    else rest

unfoldable pub humanize_auto_moderation_state : Option Text → Text
unfolding spaced
humanize_auto_moderation_state state = elim (present state) [
  | none ↦ lit "Pending"
  | some s ↦
      if text_eq s (lit "processing")
      then lit "Processing"
      else if text_eq s (lit "completed")
      then lit "Completed"
      else if text_eq s (lit "failed")
      then lit "Failed"
      else spaced false s
]

unfoldable pub humanize_auto_moderation_decision : Option Text → Text
unfolding spaced
humanize_auto_moderation_decision decision = elim (present decision) [
  | none ↦ lit "No Decision"
  | some d ↦
      if text_eq d (lit "approved")
      then lit "Auto Approved"
      else if text_eq d (lit "rejected")
      then lit "Auto Rejected"
      else if text_eq d (lit "escalate")
      then lit "Escalated"
      else spaced false d
]
