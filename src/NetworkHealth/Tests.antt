-- ===== src/NetworkHealth/Tests.antt =====
-- Runs and instances for frontend/client/src/hooks/useNetworkHealth.tsx.
use pairline.Base.{
  ◌≤◌, Text, lit, text_keys, lookup, List, [], ◌∷◌, length, some, true, ◌≡◌, ◌≢◌, ◌↔◌, ◌⊎◌, inl,
  inr, refl, arith, text_eq, insert, remove,
}
use pairline.NetworkHealth.{
  ok, degraded, offline, Health, video_offline, banners, phoenix_status, set_channel_status,
  remove_channel, redirect, initial,
}
use pairline.NetworkHealth.Worst.{worse, phoenix_status-set_channel_status}
use pairline.NetworkHealth.History.{
  Change, apply, sets, removes, apply_all, latest, redirect-apply_all,
}
use pairline.NetworkHealth.Banners.{banners_exclusive}

abbrev health : Health
health = record {
  channel_statuses = (lit "phoenix:text", ok) ∷ (lit "phoenix:video", offline) ∷ [];
  api_status = ok;
}

abbrev history : List Change
history =
    removes (lit "phoenix:video")
    ∷ sets (lit "phoenix:text") degraded
    ∷ sets (lit "phoenix:video") offline
    ∷ []

history_degraded : phoenix_status (apply_all history) ≡ degraded
unfolding phoenix_status apply_all apply set_channel_status remove_channel initial lookup insert
    remove text_eq
history_degraded = refl

set_channel_status_example :
    phoenix_status (set_channel_status (lit "phoenix:video") degraded health)
    ≡ worse degraded (phoenix_status (remove_channel (lit "phoenix:video") health))
set_channel_status_example =
    phoenix_status-set_channel_status (lit "phoenix:video") degraded health
      (λ i. elim i [ inl e ↦ absurd (ground arith) | inr k ↦ k ], (λ i. i, tt))

redirect_example :
    ((k : Text) → lookup k (apply_all history).channel_statuses ≡ latest k history)
    × ((redirect (apply_all history) ≡ true) ↔ ((k : Text) × (latest k history ≡ some offline)))
redirect_example = redirect-apply_all history

banners_example :
    (length (banners degraded offline) ≤ 1)
    × ((banners degraded offline ≡ []) ↔ ((degraded ≡ offline) ⊎ (degraded ≡ ok) × (offline ≡ ok)))
    × ((banners degraded offline ≡ video_offline ∷ [])
        ↔ ((degraded ≢ offline) × (offline ≡ offline)))
banners_example = banners_exclusive degraded offline
