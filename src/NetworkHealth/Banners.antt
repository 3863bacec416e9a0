-- ===== src/NetworkHealth/Banners.antt =====
-- The banners of frontend/client/src/hooks/useNetworkHealth.tsx.
use pairline.Base.{◌≤◌, [], ◌∷◌, length, ◌≡◌, ◌↔◌, ◌⊎◌, ◌≢◌, arith}
use pairline.NetworkHealth.{ServiceStatus, ok, offline, video_offline, banners}

-- At most one banner is shown; none is shown exactly when both services are well or the chat
-- server is offline (which leads away from the page), and the banner that says that text chat still
-- works is shown exactly when the API alone is offline.
pub banners_exclusive :
    (phoenix api : ServiceStatus)
    → (length (banners phoenix api) ≤ 1)
      × ((banners phoenix api ≡ []) ↔ ((phoenix ≡ offline) ⊎ (phoenix ≡ ok) × (api ≡ ok)))
      × ((banners phoenix api ≡ video_offline ∷ []) ↔ ((phoenix ≢ offline) × (api ≡ offline)))
unfolding banners
banners_exclusive phoenix api = (ground arith, ground arith, ground arith)
