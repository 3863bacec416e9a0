-- ===== src/Admin/BanRequests.antt =====
-- What the modal of a ban asks the server for, in `submitBanModal` of
-- frontend/admin/src/components/AdminPanelRuntime.tsx.
use pairline.Base.{
  truthy, trim, none, some, is_some, true, false, not, if◌then◌else◌, if-holds_cases, Option-cases,
  elim-holds_at, elim-holds_none, ◌≡◌, refl, sym, ◌⊎◌, inl, inr, Bool-cases, arith,
}
use pairline.Chat.{present}
use pairline.Admin.Types.{BanModalState}
use pairline.Admin.Banning.{
  Clock, Draft, refused, accepted, build_ban_request, build_expiry_date, base_request, target_value,
  is_temporary, is_session,
}

-- The request that a modal stands for, or what it lacks.
abbrev pub IsRequestOf : Clock → BanModalState → Draft → Type 0
IsRequestOf from_now m (refused text) =
    (truthy (target_value m) ≡ false)
    ⊎ ((truthy (trim m.reason) ≡ false)
        ⊎ ((is_temporary m.mode ≡ true)
            × (present (build_expiry_date from_now m.duration_value m.duration_unit) ≡ none)))
IsRequestOf from_now m (accepted r) =
    (truthy r.reason ≡ true)
    × (r.reason ≡ trim m.reason)
    × (truthy (target_value m) ≡ true)
    × ((if is_session m.target then r.session_id else r.ip) ≡ some (trim (target_value m)))
    × (is_some r.session_id ≡ is_session m.target)
    × (is_some r.expiry_date ≡ is_temporary m.mode)

base_target :
    (m : BanModalState)
    → (if is_session m.target then (base_request m).session_id else (base_request m).ip)
      ≡ some (trim (target_value m))
base_target m = elim (Bool-cases (is_session m.target)) [ inl e ↦ rw e refl | inr e ↦ rw e refl ]

base_session : (m : BanModalState) → is_some (base_request m).session_id ≡ is_session m.target
base_session m = elim (Bool-cases (is_session m.target)) [ inl e ↦ rw e refl | inr e ↦ rw e refl ]

-- A request that the modal sends has a reason that is not blank, the trimmed text of the target that
-- is chosen, which was not empty before it was trimmed, a session exactly when the target is one, and
-- an expiry date exactly when the ban is temporary. A modal is refused only for an empty target, a
-- blank reason, or a temporary ban whose duration gives no date.
pub build_ban_request-IsRequestOf :
    (from_now : Clock) (m : BanModalState) → IsRequestOf from_now m (build_ban_request from_now m)
unfolding build_ban_request
build_ban_request-IsRequestOf from_now m =
    let P = IsRequestOf from_now m in
    if-holds_cases P (not (truthy (target_value m))) (λ e. inl (ground arith))
      (λ e.
        if-holds_cases P (not (truthy (trim m.reason))) (λ f. inr (inl (ground arith)))
          (λ f.
            if-holds_cases P (is_temporary m.mode)
              (λ t.
                elim (Option-cases
                  (present (build_expiry_date from_now m.duration_value m.duration_unit))) [
                    | inl no_date ↦ elim-holds_none P _ _ _ no_date (inr (inr (t, no_date)))
                    | inr (date, found) ↦
                        elim-holds_at P _ _ _ date found
                          (ground arith, refl, ground arith, base_target m, base_session m, sym t)
                  ])
              (λ t. (ground arith, refl, ground arith, base_target m, base_session m, sym t))))
