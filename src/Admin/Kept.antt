-- ===== src/Admin/Kept.antt =====
-- Requests, refreshes, sign-outs and reads of frontend/admin/src/components/AdminPanelRuntime.tsx keep
-- what `Keeps` asks for.
pub mod Operations
pub mod Bots
pub mod Steps
use pairline.Base.{
  Text, List, [], ◌∷◌, map, Option, none, some, is_some, Bool, true, false, not, ◌&&◌, ◌==◌,
  if◌then◌else◌, if-holds, if-holds_cases, elim-holds, elim-holds_cases, ◌≡◌, refl, arith, lit,
  or_else, truthy, has, text_keys, keep, trim, sym, ap, ◌∙◌, Bool-cases, inl, inr,
}
use pairline.Chat.{text_is}
use pairline.Admin.{Panel, Call, Request, Response, Body}
use pairline.Admin.Types.{AdminRole}
use pairline.Admin.Session.{
  Server, send, refresh_session, retry_fetch, admin_fetch, logout, handle, bootstrap_auth,
  accept_refresh, accept_login, is_ok, alert_error, reading, build_admin_headers, has_body, forget,
  call_with_headers, can_manage_banned_words, can_manage_auto_moderation, can_manage_accounts,
  can_view_bots, can_view_infra_health, can_create_bans,
}
use pairline.Admin.Fetching.{
  fetch_reports, fetch_bans, fetch_banned_words, fetch_banned_words_settings,
  fetch_auto_moderation_settings, fetch_accounts, fetch_bot_settings, fetch_bot_definitions,
  fetch_infra_health, accept_reports, login, read, normalized,
}
use pairline.Admin.Keeping.{Core, core, is_allowed, Keeps}

-- A guard that lets the operation go on.
pub right :
    (f : Option AdminRole → Bool) (role : Option AdminRole) (view : Panel)
    → view.role ≡ role
    → not (f view.role) ≡ false
    → f role ≡ true
right f role view same e = elim (Bool-cases (f view.role)) [
  | inl h ↦ sym (ap f same) ∙ h
  | inr h ↦ absurd (ground arith)
]

some-can_create_bans : (role : Option AdminRole) → can_create_bans role ≡ is_some role
some-can_create_bans none = refl
some-can_create_bans (some r) = refl

pub any_right :
    (role : Option AdminRole) (view : Panel)
    → view.role ≡ role
    → not (can_create_bans view.role) ≡ false
    → is_some role ≡ true
any_right role view same e =
    sym (some-can_create_bans role) ∙ right can_create_bans role view same e

module _ (server : Server) (role : Option AdminRole) (J : Core → Type 0) (k : Keeps role J) where
  -- What a panel stands for.
  abbrev pub H : Panel → Type 0
  H p = J (core p)

  send-kept :
      (r : Request) (p : Panel) → is_allowed role r.call ≡ true → H p → H (send server r p).1
  unfolding send
  send-kept r p ok h = k.sent (core p) r ok h

  accept_refresh-kept : (r : Response) (p : Panel) → H p → H (accept_refresh r p).1
  unfolding accept_refresh
  accept_refresh-kept r p h =
      elim-holds (λ (m : Bool × Panel). H m.1) r.body h (λ d. k.signed_in (core p) d.role h)

  pub refresh_session-kept : (p : Panel) → H p → H (refresh_session server p).1
  unfolding refresh_session
  refresh_session-kept p h =
      let r = build_admin_headers Call.refresh false p in
      let q = (send server r p).1 in
      let sent = send-kept r p refl h in
      elim-holds (λ (m : Bool × Panel). H m.1) (send server r p).0 sent
        (λ a. if-holds (λ (m : Bool × Panel). H m.1) (is_ok a) (accept_refresh-kept a q sent) sent)

  retry_fetch-kept :
      (call : Call) (r : Response) (p : Panel)
      → is_allowed role call ≡ true
      → H p
      → H (retry_fetch server call r p).1
  unfolding retry_fetch
  retry_fetch-kept call r p ok h =
      let q = (refresh_session server p).1 in
      let fresh = refresh_session-kept p h in
      if-holds (λ (m : Option Response × Panel). H m.1) (refresh_session server p).0
        (send-kept (build_admin_headers call (has_body call) q) q ok fresh)
        (k.signed_out (core q) fresh)

  admin_fetch-kept :
      (call : Call) (p : Panel)
      → is_allowed role call ≡ true
      → H p
      → H (admin_fetch server call p).1
  unfolding admin_fetch
  admin_fetch-kept call p ok h =
      let r = build_admin_headers call (has_body call) p in
      let q = (send server r p).1 in
      let sent = send-kept r p ok h in
      elim-holds (λ (m : Option Response × Panel). H m.1) (send server r p).0 sent
        (λ a.
          if-holds (λ (m : Option Response × Panel). H m.1) (not (a.status == 401)) sent
            (retry_fetch-kept call a q ok sent))

  pub logout-kept : (p : Panel) → H p → H (logout server p)
  unfolding logout
  logout-kept p h =
      let r = build_admin_headers Call.sign_out false p in
      let q = (send server r p).1 in k.emptied _ (k.signed_out (core q) (send-kept r p refl h))

  pub handle-kept :
      {R : Type 0} (P : R → Type 0) (call : Call) (unauthorized : Panel → R)
      (succeed fail : Response → Panel → R) (throws : Panel → R) (p : Panel)
      → is_allowed role call ≡ true
      → ((q : Panel) → H q → P (unauthorized q))
      → ((r : Response) (q : Panel) → H q → P (succeed r q))
      → ((r : Response) (q : Panel) → H q → P (fail r q))
      → ((q : Panel) → H q → P (throws q))
      → H p
      → P (handle server call unauthorized succeed fail throws p)
  unfolding handle
  handle-kept P call unauthorized succeed fail throws p ok u s f t h =
      let q = (admin_fetch server call p).1 in
      let answered = admin_fetch-kept call p ok h in
      elim-holds P (admin_fetch server call p).0 (t q answered) (λ r.
        if-holds P (r.status == 401) (u (logout server q) (logout-kept q answered))
          (if-holds P (is_ok r) (s r q answered) (f r q answered)))

  pub read-kept :
      (call : Call) (use_body : Body → Panel → Panel) (p : Panel)
      → is_allowed role call ≡ true
      → ((d : Body) (q : Panel) → H q → H (use_body d q))
      → H p
      → H (read server call use_body p)
  unfolding read
  read-kept call use_body p ok f =
      handle-kept H call (λ q. q) (reading (λ q. q) use_body) (λ r q. q) (λ q. q) p ok (λ q i. i)
        (λ r q i. elim-holds H r.body i (λ d. f d q i)) (λ r q i. i) (λ q i. i)

  pub bootstrap_auth-kept : (p : Panel) → H p → H (bootstrap_auth server p)
  unfolding bootstrap_auth
  bootstrap_auth-kept p h =
      let q = (refresh_session server p).1 in
      let fresh = refresh_session-kept p h in
      if-holds H _ (k.signed_out (core p) h)
        (if-holds H (refresh_session server p).0 fresh (k.signed_out (core q) fresh))

  -- The reads and `login`, by a render whose role is `role`.
  module _ (view : Panel) (same : view.role ≡ role) where
    pub fetch_reports-kept : (p : Panel) → H p → H (fetch_reports server view p)
    unfolding fetch_reports accept_reports
    fetch_reports-kept p =
        read-kept _ accept_reports p refl
          (λ d q. k.loaded (core q) (map normalized (or_else d.reports [])))

    pub fetch_bans-kept : (p : Panel) → H p → H (fetch_bans server view p)
    unfolding fetch_bans
    fetch_bans-kept p = read-kept _ _ p refl (λ d q i. i)

    pub fetch_banned_words-kept : (p : Panel) → H p → H (fetch_banned_words server view p)
    unfolding fetch_banned_words
    fetch_banned_words-kept p h =
        if-holds_cases H (not (can_manage_banned_words view.role)) (λ e. h)
          (λ e. read-kept _ _ p (any_right role view same e) (λ d q i. i) h)

    pub fetch_banned_words_settings-kept :
        (p : Panel) → H p → H (fetch_banned_words_settings server view p)
    unfolding fetch_banned_words_settings
    fetch_banned_words_settings-kept p h =
        if-holds_cases H (not (can_manage_banned_words view.role)) (λ e. h)
          (λ e. read-kept _ _ p (any_right role view same e) (λ d q i. i) h)

    pub fetch_auto_moderation_settings-kept :
        (p : Panel) → H p → H (fetch_auto_moderation_settings server view p)
    unfolding fetch_auto_moderation_settings
    fetch_auto_moderation_settings-kept p h =
        if-holds_cases H (not (can_manage_auto_moderation view.role)) (λ e. h)
          (λ e. read-kept _ _ p (any_right role view same e) (λ d q i. i) h)

    pub fetch_accounts-kept : (p : Panel) → H p → H (fetch_accounts server view p)
    unfolding fetch_accounts
    fetch_accounts-kept p h =
        if-holds_cases H (not (can_manage_accounts view.role)) (λ e. h)
          (λ e. read-kept _ _ p (right can_manage_accounts role view same e) (λ d q i. i) h)

    pub fetch_bot_settings-kept : (p : Panel) → H p → H (fetch_bot_settings server view p)
    unfolding fetch_bot_settings
    fetch_bot_settings-kept p h =
        if-holds_cases H (not (can_view_bots view.role)) (λ e. h)
          (λ e. read-kept _ _ p (any_right role view same e) (λ d q i. i) h)

    pub fetch_bot_definitions-kept : (p : Panel) → H p → H (fetch_bot_definitions server view p)
    unfolding fetch_bot_definitions
    fetch_bot_definitions-kept p h =
        if-holds_cases H (not (can_view_bots view.role)) (λ e. h)
          (λ e. read-kept _ _ p (any_right role view same e) (λ d q i. i) h)

    pub fetch_infra_health-kept : (p : Panel) → H p → H (fetch_infra_health server view p)
    unfolding fetch_infra_health
    fetch_infra_health-kept p h =
        if-holds_cases H (not (can_view_infra_health view.role)) (λ e. h)
          (λ e.
            handle-kept H Call.infra_health _ _ _ _ p (right can_view_infra_health role view same e)
              (λ q i. i) (λ r q i. elim-holds H r.body i (λ d. i))
              (λ r q i. if-holds H (r.status == 403) i i) (λ q i. i) h)

    accept_login-kept :
        (username : Text) (r : Response) (p : Panel) → H p → H (accept_login username r p)
    unfolding accept_login
    accept_login-kept username r p h = elim-holds H r.body h (λ d. k.signed_in (core p) d.role h)

    pub login-kept : (p : Panel) → H p → H (login server view p)
    unfolding login
    login-kept p h =
        let r : Request = record {
          call = Call.sign_in (trim view.username) (trim view.password);
          content_json = true;
          csrf_token = none;
        } in
        let q = (send server r p).1 in
        let sent = send-kept r p refl h in
        elim-holds H (send server r p).0 sent (λ a.
          let s = accept_login view.username a q in
          let accepted = accept_login-kept view.username a q sent in
          if-holds H (not (is_ok a)) sent
            (if-holds H (is_some a.body) (fetch_reports-kept s accepted) accepted))
