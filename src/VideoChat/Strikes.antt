-- ===== src/VideoChat/Strikes.antt =====
-- `reportApiError` and `reportApiSuccess` of frontend/client/src/hooks/useVideoChat.tsx over a run of
-- errors.
use pairline.Base.{
  ℕ, zero, suc, ◌+◌, ◌<◌, ltb, leb, ◌==◌, Bool, true, if◌then◌else◌, ◌≡◌, refl, arith,
}
use pairline.NetworkHealth.{ServiceStatus, ok, degraded, offline, set_api_status}
use pairline.VideoChat.{Video, Watch, is_healthy, set_api, report_api_error, confirm_api}

-- `n` errors with no success in between.
unfoldable pub errors : ℕ → Video → Video
errors zero c = c
errors (suc n) c = report_api_error (errors n c)

-- The status of the API after `n` errors.
abbrev pub status_after : ℕ → ServiceStatus → ServiceStatus
status_after n before = if n == 0 then before else if ltb n 5 then degraded else offline

errors-count : (n : ℕ) (c : Video) → c.api_retry_count ≡ 0 → (errors n c).api_retry_count ≡ n
unfolding errors report_api_error set_api
errors-count zero c e = e
errors-count (suc n) c e = ground (arith, errors-count n c e)

report_api_error-status :
    (c : Video)
    → (report_api_error c).health.api_status ≡ (
        if c.api_retry_count + 1 == 1
        then degraded
        else if leb 5 (c.api_retry_count + 1)
        then offline
        else c.health.api_status)
unfolding report_api_error set_api set_api_status
report_api_error-status c = ground arith

errors-status :
    (n : ℕ) (c : Video)
    → c.api_retry_count ≡ 0
    → (errors n c).health.api_status ≡ status_after n c.health.api_status
unfolding errors
errors-status zero c e = refl
errors-status (suc n) c e =
    let count = errors-count n c e in
    let before = errors-status n c e in
    let after = report_api_error-status (errors n c) in ground (arith, count, before, after)

-- From no strikes, `n` errors in a row leave `n` strikes and the status: unchanged for none, degraded
-- for one to four, offline from five on.
pub errors_lem :
    (n : ℕ) (c : Video)
    → c.api_retry_count ≡ 0
    → ((errors n c).api_retry_count ≡ n)
      × ((errors n c).health.api_status ≡ status_after n c.health.api_status)
errors_lem n c e = (errors-count n c e, errors-status n c e)

confirm_api-ok :
    (c : Video) (is_open : Bool) (watch : Watch)
    → is_healthy is_open watch c ≡ true
    → 0 < c.api_retry_count
    → ((confirm_api is_open watch c).health.api_status ≡ ok)
      × ((confirm_api is_open watch c).api_retry_count ≡ 0)
unfolding confirm_api set_api set_api_status
confirm_api-ok c is_open watch h p = rw h (ground arith)

-- After one error or more from no strikes, a success that is confirmed while the connection that it
-- watches is still healthy takes all strikes back and sets the status to ok.
pub errors-confirm_api :
    (n : ℕ) (c : Video) (is_open : Bool) (watch : Watch)
    → c.api_retry_count ≡ 0
    → is_healthy is_open watch (errors (suc n) c) ≡ true
    → ((confirm_api is_open watch (errors (suc n) c)).health.api_status ≡ ok)
      × ((confirm_api is_open watch (errors (suc n) c)).api_retry_count ≡ 0)
errors-confirm_api n c is_open watch e h =
    confirm_api-ok (errors (suc n) c) is_open watch h (omega (arith, errors-count (suc n) c e))
