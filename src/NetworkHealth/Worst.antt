-- ===== src/NetworkHealth/Worst.antt =====
-- The derived status of frontend/client/src/hooks/useNetworkHealth.tsx: the worst of the channels'.
use pairline.Base.{
  Text, text_keys, lookup, insert, remove, List, [], ◌∷◌, Option, none, some, true, any,
  Option-cases, ◌∙◌, if◌then◌else◌, In, Distinct, Bool-cases, ◌≡◌, inl, inr, refl, sym, arith,
}
use pairline.NetworkHealth.{
  ServiceStatus, ok, degraded, offline, Health, values, phoenix_status, set_channel_status,
  remove_channel, found_is, is_offline, is_degraded,
}

abbrev pub worse : ServiceStatus → ServiceStatus → ServiceStatus
worse offline t = offline
worse degraded offline = offline
worse degraded _ = degraded
worse ok t = t

-- The worst status of a list.
worst : List ServiceStatus → ServiceStatus
worst [] = ok
worst (s ∷ ss) = worse s (worst ss)

any-worst :
    (ss : List ServiceStatus)
    → worst ss
      ≡ (if any is_offline ss then offline else if any is_degraded ss then degraded else ok)
unfolding worst
any-worst [] = refl
any-worst (s ∷ ss) = ground (arith, any-worst ss)

phoenix_status-worst : (h : Health) → phoenix_status h ≡ worst (values h.channel_statuses)
unfolding phoenix_status worst
phoenix_status-worst h = go h.channel_statuses
  where
    go :
        (m : List (Text × ServiceStatus))
        → phoenix_status (record h { channel_statuses = m }) ≡ worst (values m)
    go [] = refl
    go ((k, s) ∷ m) = ground (arith, any-worst (values m))

-- The keys of the object.
abbrev pub keys : List (Text × ServiceStatus) → List Text
keys [] = []
keys ((k, s) ∷ m) = k ∷ keys m

remove_absent : (k : Text) (m : List (Text × ServiceStatus)) → ¬ In k (keys m) → remove k m ≡ m
unfolding remove
remove_absent k [] n = refl
remove_absent k ((j, s) ∷ m) n = elim (Bool-cases (text_keys.beq j k)) [
  | inl e ↦ absurd (n (inl (sym ((text_keys.beq_iff j k).0 e))))
  | inr f ↦ rw (f, remove_absent k m (λ i. n (inr i)))
]

worse_swap : (a b c : ServiceStatus) → worse a (worse b c) ≡ worse b (worse a c)
worse_swap a b c = ground arith

worst-insert :
    (k : Text) (s : ServiceStatus) (m : List (Text × ServiceStatus))
    → Distinct (keys m)
    → worst (values (insert k s m)) ≡ worse s (worst (values (remove k m)))
unfolding insert remove worst
worst-insert k s [] d = refl
worst-insert k s ((j, t) ∷ m) d = elim (Bool-cases (text_keys.beq j k)) [
  | inl e ↦ rw (e, remove_absent k m (λ i. d.0 (rw ((text_keys.beq_iff j k).0 e) i)))
  | inr f ↦ rw (f, worst-insert k s m d.1) (worse_swap t s _)
]

remove_missing : (k : Text) (m : List (Text × ServiceStatus)) → lookup k m ≡ none → remove k m ≡ m
unfolding remove lookup
remove_missing k [] h = refl
remove_missing k ((j, s) ∷ m) h = elim (Bool-cases (text_keys.beq j k)) [
  | inl e ↦ absurd (ground arith)
  | inr f ↦ rw (f, remove_missing k m (ground arith))
]

worst-found :
    (k : Text) (s : ServiceStatus) (m : List (Text × ServiceStatus))
    → Distinct (keys m)
    → lookup k m ≡ some s
    → worst (values m) ≡ worse s (worst (values (remove k m)))
unfolding lookup remove worst
worst-found k s [] d h = absurd (ground arith)
worst-found k s ((j, t) ∷ m) d h = elim (Bool-cases (text_keys.beq j k)) [
  | inl e ↦
      let same : t ≡ s = ground arith in
      rw (e, remove_absent k m (λ i. d.0 (rw ((text_keys.beq_iff j k).0 e) i)), same)
  | inr f ↦ rw (f, worst-found k s m d.1 (ground arith)) (worse_swap t s _)
]

removed-worst :
    (k : Text) (h : Health)
    → phoenix_status (remove_channel k h) ≡ worst (values (remove k h.channel_statuses))
unfolding remove_channel
removed-worst k h = elim (Option-cases (lookup k h.channel_statuses)) [
  | inl e ↦ rw (e, remove_missing k h.channel_statuses e) (phoenix_status-worst h)
  | inr (s, e) ↦
      rw e (phoenix_status-worst (record h { channel_statuses = remove k h.channel_statuses }))
]

pub found_is_sound :
    (o : Option ServiceStatus) (s : ServiceStatus) → found_is o s ≡ true → o ≡ some s
found_is_sound o s h = ground arith

-- Setting the status of a channel makes the derived status the worse of the new status and of what
-- the other channels give, whether or not the channel was known and had that status before.
pub phoenix_status-set_channel_status :
    (k : Text) (s : ServiceStatus) (h : Health)
    → Distinct (keys h.channel_statuses)
    → phoenix_status (set_channel_status k s h) ≡ worse s (phoenix_status (remove_channel k h))
unfolding set_channel_status
phoenix_status-set_channel_status k s h d =
    rw (removed-worst k h) (elim (Bool-cases (found_is (lookup k h.channel_statuses) s)) [
      | inl e ↦ rw e (
          phoenix_status-worst h
          ∙ worst-found k s h.channel_statuses d (found_is_sound (lookup k h.channel_statuses) s e))
      | inr f ↦ rw f (
          phoenix_status-worst (record h { channel_statuses = insert k s h.channel_statuses })
          ∙ worst-insert k s h.channel_statuses d)
    ])
