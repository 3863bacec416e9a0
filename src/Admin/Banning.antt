-- ===== src/Admin/Banning.antt =====
-- The bans of the admin panel in frontend/admin/src/components/AdminPanelRuntime.tsx: the modal, the
-- request that it builds, `createBan` and `unban`. `Date` is a parameter.
use pairline.Base.{
  Text, lit, truthy, trim, [], Option, none, some, Bool, true, false, not, ◌&&◌, ◌||◌, ◌==◌,
  if◌then◌else◌,
}
use pairline.Chat.{present}
use pairline.Admin.{Panel, Call}
use pairline.Admin.Json.{Number, to_number}
use pairline.Admin.Types.{Report, BanModalState, BanTarget, BanMode, DurationUnit, CreateBanRequest}
use pairline.Admin.Session.{Server, handle, alert, alert_error, can_create_bans, can_manage_bans}
use pairline.Admin.Fetching.{fetch_bans, fetch_reports}

-- The moment that lies so many hours or days from now, as `toISOString` writes it. That it throws for a
-- moment beyond the range of `Date` is left out.
abbrev pub Clock : Type 0
Clock = Number → DurationUnit → Text

-- `target || (sessionId ? 'session' : 'ip')`.
abbrev default_target : Option BanTarget → Text → BanTarget
default_target (some t) session_id = t
default_target none session_id =
    if truthy session_id then BanTarget.session else BanTarget.ip_address

unfoldable pub open_ban_modal : Text → Text → Text → Option BanTarget → Text → Bool → Panel → Panel
open_ban_modal session_id ip source_report_id target reason clear_manual p = record p {
  ban_modal = record {
    is_open = true;
    session_id = session_id;
    ip = ip;
    source_report_id = source_report_id;
    target = default_target target session_id;
    reason = reason;
    mode = BanMode.permanent;
    duration_value = lit "24";
    duration_unit = DurationUnit.hours;
    clear_manual_inputs_on_submit = clear_manual;
  };
}

-- The button "Ban User" of a report, and "Apply Ban" of the form.
unfoldable pub ban_reported_user : Report → Panel → Panel
ban_reported_user r = open_ban_modal r.reported_session_id r.reported_ip r.id none r.reason false

unfoldable pub apply_ban : Panel → Panel → Panel
apply_ban view p =
    if not (truthy view.manual_ban_session_id) && not (truthy view.manual_ban_ip)
    then alert (lit "Please enter either Session ID or IP Address") p
    else if not (truthy (trim view.manual_ban_reason))
    then alert (lit "Please enter a reason") p
    else let target =
        if truthy view.manual_ban_session_id then BanTarget.session else BanTarget.ip_address in
      open_ban_modal view.manual_ban_session_id view.manual_ban_ip [] (some target)
        view.manual_ban_reason true p

unfoldable pub close_ban_modal : Panel → Panel → Panel
close_ban_modal view p =
    if view.submitting_ban
    then p
    else record p { ban_modal = record p.ban_modal { is_open = false } }

-- The changes that the modal's fields make.
unfoldable pub set_ban_modal : BanModalState → Panel → Panel
set_ban_modal m p = record p { ban_modal = m }

-- `buildExpiryDate`.
unfoldable pub build_expiry_date : Clock → Text → DurationUnit → Option Text
build_expiry_date from_now duration_value duration_unit = elim (to_number duration_value) [
  | none ↦ none
  | some n ↦ if n.negative || n.digits == 0 then none else some (from_now n duration_unit)
]

abbrev pub is_session : BanTarget → Bool
is_session BanTarget.session = true
is_session BanTarget.ip_address = false

abbrev pub is_temporary : BanMode → Bool
is_temporary BanMode.permanent = false
is_temporary BanMode.temporary = true

abbrev pub target_value : BanModalState → Text
target_value m = if is_session m.target then m.session_id else m.ip

-- The request of the modal without its expiry date.
abbrev pub base_request : BanModalState → CreateBanRequest
base_request m = record {
  session_id = if is_session m.target then some (trim m.session_id) else none;
  ip =
      if is_session m.target
      then (if truthy m.ip then some (trim m.ip) else none)
      else some (trim m.ip);
  report_id = present (some m.source_report_id);
  reason = trim m.reason;
  expiry_date = none;
}

-- What the modal asks for: the text of an alert, or the request.
pub data Draft : Type 0 where
  refused : Text → Draft
  accepted : CreateBanRequest → Draft

unfoldable pub build_ban_request : Clock → BanModalState → Draft
build_ban_request from_now m =
    if not (truthy (target_value m))
    then refused (
        if is_session m.target
        then lit "Missing session ID for ban"
        else lit "Missing IP address for ban")
    else if not (truthy (trim m.reason))
    then refused (lit "Please enter a reason")
    else if is_temporary m.mode
    then elim (present (build_expiry_date from_now m.duration_value m.duration_unit)) [
      | none ↦ refused (lit "Please enter a valid duration")
      | some date ↦ accepted (record (base_request m) { expiry_date = some date })
    ]
    else accepted (base_request m)

module _ (server : Server) (view : Panel) where
  unfoldable pub create_ban : CreateBanRequest → Panel → Bool × Panel
  create_ban request p =
      if not (can_create_bans view.role)
      then (false, p)
      else handle server (Call.post_ban request) (λ q. (false, q))
          (λ r q. (true, fetch_reports server view (fetch_bans server view q)))
          (λ r q. (false, alert_error (lit "Failed to create ban") r q))
          (λ q. (false, alert (lit "Failed to create ban") q)) p

  -- What follows `createBan` in the modal.
  unfoldable pub after_ban : Bool × Panel → Panel
  after_ban made =
      let q : Panel = record made.1 { submitting_ban = false } in
      if not made.0
      then q
      else close_ban_modal view (
          if view.ban_modal.clear_manual_inputs_on_submit
          then record q { manual_ban_session_id = []; manual_ban_ip = []; manual_ban_reason = [] }
          else q)

  abbrev pub submit : Draft → Panel → Panel
  submit (refused text) p = alert text p
  submit (accepted request) p = after_ban (create_ban request (record p { submitting_ban = true }))

  unfoldable pub submit_ban_modal : Clock → Panel → Panel
  submit_ban_modal from_now = submit (build_ban_request from_now view.ban_modal)

  unfoldable pub unban : Text → Panel → Panel
  unban ban_id p =
      if not (can_manage_bans view.role)
      then p
      else handle server (Call.delete_ban ban_id) (λ q. q)
          (λ r q. fetch_reports server view (fetch_bans server view q))
          (alert_error (lit "Failed to unban")) (alert (lit "Failed to unban")) p
