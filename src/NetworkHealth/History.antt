-- ===== src/NetworkHealth/History.antt =====
-- frontend/client/src/hooks/useNetworkHealth.tsx over a whole history of changes: what is stored
-- for a channel, and when the application is sent to `/unavailable`.
use pairline.Base.{
  Text, text_keys, lookup, insert, remove, lookup-insert, lookup-remove, List, [], ◌∷◌, Option,
  none, some, true, if◌then◌else◌, In, Distinct, any, any_sound, any_complete, Bool-cases,
  Option-cases, ◌≡◌, ◌↔◌, ◌⊎◌, inl, inr, refl, sym, ap, ◌∙◌, arith,
}
use pairline.NetworkHealth.{
  ServiceStatus, offline, Health, initial, values, set_channel_status, remove_channel,
  set_api_status, reset_health_status, redirect, found_is, is_offline,
}
use pairline.NetworkHealth.Worst.{keys, found_is_sound}

-- The calls of the context's functions.
pub data Change : Type 0 where
  sets : Text → ServiceStatus → Change
  removes : Text → Change
  sets_api : ServiceStatus → Change
  resets : Change

unfoldable pub apply : Change → Health → Health
apply (sets k s) h = set_channel_status k s h
apply (removes k) h = remove_channel k h
apply (sets_api s) h = set_api_status s h
apply resets h = reset_health_status h

-- A history has the latest change at its head.
unfoldable pub apply_all : List Change → Health
apply_all [] = initial
apply_all (c ∷ cs) = apply c (apply_all cs)

-- What the history says of a channel: the latest change that is about it decides.
abbrev pub latest : Text → List Change → Option ServiceStatus
latest k [] = none
latest k (sets j s ∷ cs) = if text_keys.beq j k then some s else latest k cs
latest k (removes j ∷ cs) = if text_keys.beq j k then none else latest k cs
latest k (sets_api s ∷ cs) = latest k cs
latest k (resets ∷ cs) = none

lookup-set :
    (j k : Text) (s : ServiceStatus) (h : Health)
    → lookup k (set_channel_status j s h).channel_statuses
      ≡ (if text_keys.beq j k then some s else lookup k h.channel_statuses)
unfolding set_channel_status
lookup-set j k s h = elim (Bool-cases (found_is (lookup j h.channel_statuses) s)) [
  | inl e ↦
      rw e (ground (arith, found_is_sound (lookup j h.channel_statuses) s e, text_keys.beq_iff j k))
  | inr f ↦ rw f (lookup-insert j k s h.channel_statuses)
]

lookup-removed :
    (j k : Text) (h : Health)
    → lookup k (remove_channel j h).channel_statuses
      ≡ (if text_keys.beq j k then none else lookup k h.channel_statuses)
unfolding remove_channel
lookup-removed j k h = elim (Option-cases (lookup j h.channel_statuses)) [
  | inl e ↦ rw e (ground (arith, text_keys.beq_iff j k))
  | inr (s, e) ↦ rw e (lookup-remove j k h.channel_statuses)
]

lookup-apply_all :
    (cs : List Change) (k : Text) → lookup k (apply_all cs).channel_statuses ≡ latest k cs
unfolding apply_all apply lookup initial set_api_status reset_health_status
lookup-apply_all [] k = refl
lookup-apply_all (sets j s ∷ cs) k = lookup-set j k s (apply_all cs) ∙ rw (lookup-apply_all cs k)
lookup-apply_all (removes j ∷ cs) k = lookup-removed j k (apply_all cs) ∙ rw (lookup-apply_all cs k)
lookup-apply_all (sets_api s ∷ cs) k = lookup-apply_all cs k
lookup-apply_all (resets ∷ cs) k = refl

in-keys-insert :
    (k x : Text) (s : ServiceStatus) (m : List (Text × ServiceStatus))
    → In x (keys (insert k s m))
    → (x ≡ k) ⊎ In x (keys m)
unfolding insert
in-keys-insert k x s [] i = i
in-keys-insert k x s ((j, t) ∷ m) i = ground (arith, in-keys-insert k x s m)

in-keys-remove :
    (k x : Text) (m : List (Text × ServiceStatus)) → In x (keys (remove k m)) → In x (keys m)
unfolding remove
in-keys-remove k x [] i = i
in-keys-remove k x ((j, t) ∷ m) i = ground (arith, in-keys-remove k x m)

insert-Distinct :
    (k : Text) (s : ServiceStatus) (m : List (Text × ServiceStatus))
    → Distinct (keys m)
    → Distinct (keys (insert k s m))
unfolding insert
insert-Distinct k s [] d = (λ i. i, tt)
insert-Distinct k s ((j, t) ∷ m) d = elim (Bool-cases (text_keys.beq j k)) [
  | inl e ↦ rw e d
  | inr f ↦ rw f (
    λ i. elim (in-keys-insert k j s m i) [
      | inl e ↦ absurd (ground (arith, text_keys.beq_iff j k))
      | inr i' ↦ d.0 i'
    ],
    insert-Distinct k s m d.1,
  )
]

remove-Distinct :
    (k : Text) (m : List (Text × ServiceStatus)) → Distinct (keys m) → Distinct (keys (remove k m))
unfolding remove
remove-Distinct k [] d = d
remove-Distinct k ((j, t) ∷ m) d = elim (Bool-cases (text_keys.beq j k)) [
  | inl e ↦ rw e (remove-Distinct k m d.1)
  | inr f ↦ rw f (λ i. d.0 (in-keys-remove k j m i), remove-Distinct k m d.1)
]

apply-Distinct :
    (c : Change) (h : Health)
    → Distinct (keys h.channel_statuses)
    → Distinct (keys (apply c h).channel_statuses)
unfolding apply set_channel_status remove_channel set_api_status reset_health_status
apply-Distinct (sets k s) h d = ground (arith, insert-Distinct k s h.channel_statuses d)
apply-Distinct (removes k) h d = ground (arith, remove-Distinct k h.channel_statuses d)
apply-Distinct (sets_api s) h d = d
apply-Distinct resets h d = tt

apply_all-Distinct : (cs : List Change) → Distinct (keys (apply_all cs).channel_statuses)
unfolding apply_all initial
apply_all-Distinct [] = tt
apply_all-Distinct (c ∷ cs) = apply-Distinct c (apply_all cs) (apply_all-Distinct cs)

in-values :
    (k : Text) (s : ServiceStatus) (m : List (Text × ServiceStatus))
    → lookup k m ≡ some s
    → In s (values m) × In k (keys m)
unfolding lookup
in-values k s [] e = absurd (ground arith)
in-values k s ((j, t) ∷ m) e = ground (arith, in-values k s m, text_keys.beq_iff j k)

named :
    (s : ServiceStatus) (m : List (Text × ServiceStatus))
    → Distinct (keys m)
    → In s (values m)
    → (k : Text) × (lookup k m ≡ some s)
unfolding lookup
named s [] d i = elim i [ ]
named s ((j, t) ∷ m) d (inl e) = (j, ground (arith, text_keys.beq_iff j j))
named s ((j, t) ∷ m) d (inr i) =
    let (k, e) = named s m d.1 i in
    elim (Bool-cases (text_keys.beq j k)) [
      | inl b ↦ absurd (d.0 (rw ((text_keys.beq_iff j k).0 b) (in-values k s m e).1))
      | inr b ↦ (k, rw b e)
    ]

redirect-offline : (h : Health) → redirect h ≡ any is_offline (values h.channel_statuses)
unfolding redirect
redirect-offline h = go h.channel_statuses
  where
    go :
        (m : List (Text × ServiceStatus))
        → redirect (record h { channel_statuses = m }) ≡ any is_offline (values m)
    go [] = refl
    go ((k, s) ∷ m) = ground arith

-- After any history of calls, the status that is stored for a channel is the one of the latest call
-- about it (none after a removal or a reset), and the application is sent to `/unavailable` exactly
-- when some channel's latest status is `offline`.
pub redirect-apply_all :
    (cs : List Change)
    → ((k : Text) → lookup k (apply_all cs).channel_statuses ≡ latest k cs)
      × ((redirect (apply_all cs) ≡ true) ↔ ((k : Text) × (latest k cs ≡ some offline)))
redirect-apply_all cs =
    let m = (apply_all cs).channel_statuses in
    let r = redirect-offline (apply_all cs) in
    (
      lookup-apply_all cs,
      (
        λ h.
            let (s, i, e) = any_sound is_offline (values m) (sym r ∙ h) in
            let off : s ≡ offline = ground arith in
            let (k, f) = named s m (apply_all-Distinct cs) i in
            (k, sym (lookup-apply_all cs k) ∙ f ∙ ap some off),
        λ h.
            r
            ∙ any_complete is_offline (values m) offline
                (in-values h.0 offline m (lookup-apply_all cs h.0 ∙ h.1)).0 refl,
      ),
    )
