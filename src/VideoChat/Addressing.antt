-- ===== src/VideoChat/Addressing.antt =====
-- The signals that the negotiation of frontend/client/src/hooks/useVideoChat.tsx puts on the socket to
-- the Go server.
use pairline.Base.{
  ℕ, Text, [], ◌∷◌, ◌++◌, Option, none, some, Bool, true, false, not, ◌||◌, is_some, if◌then◌else◌,
  if-holds_cases, elim-holds_cases, ◌≡◌, ◌⊎◌, inl, inr, refl, arith,
}
use pairline.Chat.{present, text_is}
use pairline.VideoChat.{Video, Signal, SignalKind}
use pairline.VideoChat.Turn.{is_current}
use pairline.VideoChat.Signals.{
  ReadyState, connecting, ready, closing, put_signal, send_webrtc, offer_created, answer_created,
  on_ice_candidate, restart_offer_created,
}

abbrev IsQuiet : Video → Video → Type 0
IsQuiet c d = (d.sent ≡ c.sent) × (d.webrtc_ws_queue ≡ c.webrtc_ws_queue)

-- The signal goes from the session of the chat to the peer, who is the one of the chat, and there is
-- a socket for it.
abbrev IsAddressed : Text → Video → Signal → Type 0
IsAddressed target c s =
    (s.to_session_id ≡ target)
    × (c.session_id_ref ≡ some s.from_session_id)
    × (text_is c.peer_id_ref target ≡ true)
    × (is_some c.webrtc_ws ≡ true)

-- One signal is sent, or waits in the queue until the socket is open.
abbrev Adds : Signal → Video → Video → Type 0
Adds s c d =
    ((d.sent ≡ c.sent ++ s ∷ []) × (d.webrtc_ws_queue ≡ c.webrtc_ws_queue))
    ⊎ ((d.sent ≡ c.sent) × (d.webrtc_ws_queue ≡ c.webrtc_ws_queue ++ s ∷ []))

abbrev SignalChange : Text → Video → Video → Type 0
SignalChange target c d = IsQuiet c d ⊎ ((s : Signal) × IsAddressed target c s × Adds s c d)

put_signal-SignalChange :
    (state : ReadyState) (target : Text) (s : Signal) (c : Video)
    → IsAddressed target c s
    → SignalChange target c (put_signal state s c)
put_signal-SignalChange connecting target s c a = inr (s, a, inr (refl, refl))
put_signal-SignalChange ready target s c a = inr (s, a, inl (refl, refl))
put_signal-SignalChange closing target s c a = inl (refl, refl)

present-some : (o : Option Text) (s : Text) → present o ≡ some s → o ≡ some s
present-some none s e = e
present-some (some []) s e = absurd (ground arith)
present-some (some (x ∷ xs)) s e = e

send_webrtc-SignalChange :
    (state : ReadyState) (kind : SignalKind) (payload target : Text) (c : Video)
    → SignalChange target c (send_webrtc state kind payload target c)
unfolding send_webrtc
send_webrtc-SignalChange state kind payload target c =
    elim-holds_cases (SignalChange target c) (present c.session_id_ref) (λ e. inl (refl, refl))
      (λ session e.
        if-holds_cases (SignalChange target c)
          (not (is_some (present (some target))) || not (is_some c.webrtc_ws))
          (λ h. inl (refl, refl))
          (λ h.
            if-holds_cases (SignalChange target c) (not (text_is c.peer_id_ref target))
              (λ h1. inl (refl, refl))
              (λ h1.
                put_signal-SignalChange state target _ c
                  (refl, present-some c.session_id_ref session e, ground arith, ground arith))))

-- What a stretch behind an `await` does, given whether its connection is still the current one.
abbrev pub IsChecked : Bool → Text → Video → Video → Type 0
IsChecked current target c d =
    ((current ≡ false) × IsQuiet c d) ⊎ ((current ≡ true) × SignalChange target c d)

checked :
    (current : Bool) (target : Text) (c x y : Video)
    → IsQuiet c x
    → SignalChange target c y
    → IsChecked current target c (if not current then x else y)
checked true target c x y p q = inr (refl, q)
checked false target c x y p q = inl (refl, p)

-- An offer, an answer, a candidate and the offer of a restart, each behind the waits of its function:
-- when the connection, the peer or the chat is not the one that was captured, nothing is sent and
-- nothing queued; otherwise at most one signal is sent or queued, from the session of the chat to the
-- peer that was captured, who is still the peer of the chat.
pub signals_current :
    (state : ReadyState) (payload target : Text) (pc epoch : ℕ) (c : Video)
    → IsChecked
        (is_current pc target epoch c)
        target
        c
        (offer_created state payload target epoch pc c)
      × IsChecked
          (is_current pc target epoch c)
          target
          c
          (answer_created state payload target epoch pc c)
      × IsChecked
          (is_current pc target epoch c)
          target
          c
          (on_ice_candidate state payload pc target epoch c)
      × IsChecked
          (is_current pc target epoch c)
          target
          c
          (restart_offer_created state payload pc target epoch c)
unfolding offer_created answer_created on_ice_candidate restart_offer_created
signals_current state payload target pc epoch c =
    let current = is_current pc target epoch c in
    (
      checked current target c _ _ (refl, refl)
          (send_webrtc-SignalChange state SignalKind.offer payload target c),
      checked current target c _ _ (refl, refl)
          (send_webrtc-SignalChange state SignalKind.answer payload target c),
      checked current target c _ _ (refl, refl)
          (send_webrtc-SignalChange state SignalKind.ice payload target c),
      checked current target c _ _ (refl, refl)
          (send_webrtc-SignalChange state SignalKind.offer payload target
            (record c { ice_restart_pending = false })),
    )
