-- ===== src/Admin/Keeping.antt =====
-- What a predicate on the session, the reports and the requests of the admin panel needs, so that every
-- event of Admin/Events.antt keeps it: `Keeps` has one field for each way in which
-- frontend/admin/src/components/AdminPanelRuntime.tsx changes them.

use pairline.Base.{
  Text, lit, List, [], ◌∷◌, Option, none, some, is_some, Bool, true, false, has, text_keys, keep,
  ◌≡◌,
}
use pairline.Admin.{Panel, Call, Request}
use pairline.Admin.Types.{AdminRole, Report}
use pairline.Admin.Session.{can_manage_bans, can_view_infra_health}
use pairline.Admin.Fetching.{ids, is_pending, still_pending}
use pairline.Admin.Reviewing.{add_id, delete_id}

-- Which role may make a call: what everybody may, what needs a role, a higher one, or the highest.
abbrev pub is_allowed : Option AdminRole → Call → Bool
is_allowed role Call.refresh = true
is_allowed role Call.sign_out = true
is_allowed role (Call.sign_in u w) = true
is_allowed role (Call.list_reports s n) = true
is_allowed role (Call.list_bans s n q) = true
is_allowed role (Call.put_report id s) = true
is_allowed role Call.seed_reports = true
is_allowed role (Call.list_words n q) = is_some role
is_allowed role Call.words_settings = is_some role
is_allowed role Call.moderation_settings = is_some role
is_allowed role Call.bot_settings = is_some role
is_allowed role Call.list_bots = is_some role
is_allowed role (Call.post_ban b) = is_some role
is_allowed role (Call.post_word w) = is_some role
is_allowed role (Call.delete_word id) = is_some role
is_allowed role (Call.put_words_settings b) = is_some role
is_allowed role (Call.put_moderation_settings b) = is_some role
is_allowed role (Call.list_accounts i n q) = can_manage_bans role
is_allowed role (Call.delete_ban id) = can_manage_bans role
is_allowed role (Call.post_account u w r) = can_manage_bans role
is_allowed role (Call.delete_account u) = can_manage_bans role
is_allowed role (Call.put_bot_settings u) = can_manage_bans role
is_allowed role (Call.post_bot b) = can_manage_bans role
is_allowed role (Call.put_bot id b) = can_manage_bans role
is_allowed role (Call.switch_bot id b) = can_manage_bans role
is_allowed role (Call.delete_bot id) = can_manage_bans role
is_allowed role Call.infra_health = can_view_infra_health role

pub record Core : Type 0 where
  pub is_authenticated : Bool
  pub role : Option AdminRole
  pub admin_auth : Option Text
  pub admin_role : Option AdminRole
  pub reports : List Report
  pub selected : List Text
  pub requests : List Request

abbrev pub core : Panel → Core
core p = record {
  is_authenticated = p.is_authenticated;
  role = p.role;
  admin_auth = p.admin_auth;
  admin_role = p.admin_role;
  reports = p.reports;
  selected = p.selected_reports;
  requests = p.requests;
}

abbrev pub pending_ids : List Report → List Text
pending_ids rs = ids (keep is_pending rs)

pub record Keeps (role : Option AdminRole) (J : Core → Type 0) : Type 0 where
  pub sent :
      (c : Core) (r : Request)
      → is_allowed role r.call ≡ true
      → J c
      → J (record c { requests = r ∷ c.requests })
  pub signed_in :
      (c : Core) (r : AdminRole)
      → J c
      → J (record c {
        is_authenticated = true;
        role = some r;
        admin_auth = some (lit "true");
        admin_role = some r;
      })
  pub signed_out :
      (c : Core)
      → J c
      → J (record c { is_authenticated = false; role = none; admin_auth = none; admin_role = none })
  pub loaded :
      (c : Core) (rs : List Report)
      → J c
      → J (record c { reports = rs; selected = still_pending rs c.selected })
  pub emptied : (c : Core) → J c → J (record c { reports = []; selected = [] })
  pub deselected : (c : Core) → J c → J (record c { selected = [] })
  pub deleted : (c : Core) (id : Text) → J c → J (record c { selected = delete_id id c.selected })
  pub added :
      (c : Core) (id : Text)
      → has (pending_ids c.reports) id ≡ true
      → J c
      → J (record c { selected = add_id id c.selected })
