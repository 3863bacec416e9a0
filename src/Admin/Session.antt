-- ===== src/Admin/Session.antt =====
-- The session of the admin panel: the storage helpers of
-- frontend/admin/src/components/admin-panel/utils.ts, and `refreshSession`, `adminFetch` and `logout` of
-- AdminPanelRuntime.tsx. The server is a parameter: it answers a request, given those before it, and
-- `none` is a call of `fetch` that throws.

use pairline.Base.{
  ◌+◌, Text, lit, truthy, List, [], ◌∷◌, Option, none, some, or_else, Bool, true, false, not, ◌&&◌,
  ◌||◌, ◌==◌, leb, ltb, if◌then◌else◌,
}
use pairline.Chat.{present, text_is}
use pairline.Admin.{Panel, Call, Request, Response, Body}
use pairline.Admin.Types.{AdminRole}

abbrev pub Server : Type 0
Server = List Request → Request → Option Response

-- `response.ok`.
abbrev pub is_ok : Response → Bool
is_ok r = leb 200 r.status && ltb r.status 300

-- Whether a request carries a body.
abbrev pub has_body : Call → Bool
has_body (Call.put_report id status) = true
has_body (Call.post_ban request) = true
has_body (Call.post_word word) = true
has_body (Call.put_words_settings enabled) = true
has_body (Call.put_moderation_settings enabled) = true
has_body (Call.post_account username password role) = true
has_body (Call.put_bot_settings updates) = true
has_body (Call.post_bot payload) = true
has_body (Call.put_bot id payload) = true
has_body _ = false

-- `buildAdminHeaders`, as the headers of a request.
abbrev pub build_admin_headers : Call → Bool → Panel → Request
build_admin_headers call include_json p = record {
  call = call;
  content_json = include_json;
  csrf_token = present p.admin_csrf;
}

-- `persistAdminSession`.
abbrev pub persist_admin_session : Option Text → AdminRole → Option Text → Panel → Panel
persist_admin_session username role csrf_token p = record p {
  admin_auth = some (lit "true");
  admin_role = some role;
  admin_username = elim (present username) [ none ↦ p.admin_username | some u ↦ some u ];
  admin_csrf = elim (present csrf_token) [ none ↦ p.admin_csrf | some t ↦ some t ];
}

-- `clearAdminSession`.
abbrev pub clear_admin_session : Panel → Panel
clear_admin_session p = record p {
  admin_auth = none;
  admin_role = none;
  admin_username = none;
  admin_csrf = none;
}

-- The token that an answer's header brings.
abbrev pub store_csrf : Option Text → Panel → Panel
store_csrf header p = record p {
  admin_csrf = elim (present header) [ none ↦ p.admin_csrf | some t ↦ some t ];
}

abbrev pub sign_in_as : AdminRole → Text → Panel → Panel
sign_in_as role name p = record p {
  is_authenticated = true;
  role = some role;
  current_admin_username = name;
}

abbrev pub alert : Text → Panel → Panel
alert text p = record p { alerts = text ∷ p.alerts }

-- What the browser and `logout` forget.
abbrev pub forget : Panel → Panel
forget p =
    clear_admin_session
      (record p { is_authenticated = false; role = none; current_admin_username = [] })

-- The reading of the JSON, then the assignments; both take the session of the answer.
unfoldable pub accept_refresh : Response → Panel → Bool × Panel
accept_refresh r p =
    let q = store_csrf r.csrf_header p in
    elim r.body [
      | none ↦ (false, q)
      | some d ↦
          let s = persist_admin_session d.username d.role d.csrf_token q in
          (true, sign_in_as d.role (or_else (present d.username) (or_else s.admin_username [])) s)
    ]

unfoldable pub accept_login : Text → Response → Panel → Panel
accept_login username r p =
    let q = store_csrf r.csrf_header p in
    elim r.body [
      | none ↦ alert (lit "Login failed") q
      | some d ↦
          let name = or_else (present d.username) username in
          sign_in_as d.role name (persist_admin_session (some name) d.role d.csrf_token q)
    ]

module _ (server : Server) where
  -- A call of `fetch`.
  unfoldable pub send : Request → Panel → Option Response × Panel
  send r p = (server p.requests r, record p { requests = r ∷ p.requests })

  -- A call with the headers that are built from the storage.
  abbrev pub call_with_headers : Call → Bool → Panel → Option Response × Panel
  call_with_headers call include_json p = send (build_admin_headers call include_json p) p

  -- `refreshSession`.
  unfoldable pub refresh_session : Panel → Bool × Panel
  refresh_session p =
      let q = (call_with_headers Call.refresh false p).1 in
      elim (call_with_headers Call.refresh false p).0 [
        | none ↦ (false, q)
        | some r ↦ if is_ok r then accept_refresh r q else (false, q)
      ]

  -- The second half of `adminFetch`, after an answer 401.
  unfoldable pub retry_fetch : Call → Response → Panel → Option Response × Panel
  retry_fetch call r p =
      let q = (refresh_session p).1 in
      if (refresh_session p).0
      then call_with_headers call (has_body call) q
      else (some r, clear_admin_session (record q { is_authenticated = false; role = none }))

  -- `adminFetch`.
  unfoldable pub admin_fetch : Call → Panel → Option Response × Panel
  admin_fetch call p =
      let q = (call_with_headers call (has_body call) p).1 in
      elim (call_with_headers call (has_body call) p).0 [
        | none ↦ (none, q)
        | some r ↦ if not (r.status == 401) then (some r, q) else retry_fetch call r q
      ]

  -- `logout`: whatever the server says, the panel is emptied.
  unfoldable pub logout : Panel → Panel
  logout p = forget (record (call_with_headers Call.sign_out false p).1 {
    reports = [];
    bans = [];
    banned_words = [];
    banned_words_enabled = true;
    updating_banned_words_enabled = false;
    auto_moderation_settings = none;
    updating_auto_moderation_enabled = false;
    accounts = [];
    infra_health = none;
    is_redis_modal_open = false;
    selected_reports = [];
    navigations = p.navigations + 1;
  })

  -- The frame of the operations: a call of `adminFetch`, a session that is over, an answer that is ok,
  -- another one, and a throw.
  module _ {ℓ} {R : Type ℓ} where
    unfoldable pub handle :
        Call
        → (Panel → R)
        → (Response → Panel → R)
        → (Response → Panel → R)
        → (Panel → R)
        → Panel
        → R
    handle call unauthorized succeed fail throws p =
        let q = (admin_fetch call p).1 in
        elim (admin_fetch call p).0 [
          | none ↦ throws q
          | some r ↦
              if r.status == 401
              then unauthorized (logout q)
              else if is_ok r
              then succeed r q
              else fail r q
        ]

  -- The effect `bootstrapAuth`.
  unfoldable pub bootstrap_auth : Panel → Panel
  bootstrap_auth p =
      if not (text_is p.admin_auth (lit "true")) || not (truthy (or_else p.admin_csrf []))
      then record (forget p) { auth_ready = true }
      else let q = (refresh_session p).1 in
        if (refresh_session p).0
        then record q { auth_ready = true }
        else record (forget q) { auth_ready = true }

-- `data.error || text`, of a JSON that may not be readable.
abbrev pub alert_error : Text → Response → Panel → Panel
alert_error text r p =
    alert (or_else (elim r.body [ none ↦ none | some d ↦ present d.error ]) text) p

-- The JSON of an answer that is ok: a throw of `json()` is caught like that of the call.
abbrev pub reading {ℓ} : {R : Type ℓ} → (Panel → R) → (Body → Panel → R) → Response → Panel → R
reading throws use_body r p = elim r.body [ none ↦ throws p | some d ↦ use_body d p ]

-- The rights of a role.
abbrev pub can_create_bans : Option AdminRole → Bool
can_create_bans none = false
can_create_bans (some role) = true

abbrev pub can_manage_bans : Option AdminRole → Bool
can_manage_bans none = false
can_manage_bans (some AdminRole.moderator) = false
can_manage_bans (some AdminRole.admin) = true
can_manage_bans (some AdminRole.root) = true

abbrev pub can_manage_banned_words : Option AdminRole → Bool
can_manage_banned_words = can_create_bans

abbrev pub can_manage_auto_moderation : Option AdminRole → Bool
can_manage_auto_moderation = can_create_bans

abbrev pub can_view_bots : Option AdminRole → Bool
can_view_bots = can_create_bans

abbrev pub can_manage_bots : Option AdminRole → Bool
can_manage_bots = can_manage_bans

abbrev pub can_manage_accounts : Option AdminRole → Bool
can_manage_accounts = can_manage_bans

abbrev pub can_view_infra_health : Option AdminRole → Bool
can_view_infra_health (some AdminRole.root) = true
can_view_infra_health _ = false
