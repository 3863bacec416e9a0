-- ===== src/VideoChat/Refusals.antt =====
-- The refusals of the Go server in frontend/client/src/hooks/useVideoChat.tsx: a socket that is closed
-- with 1008 is opened again three times, and then no more.
pub mod Reopening
use pairline.Base.{
  ℕ, zero, suc, ◌+◌, ◌*◌, ◌<◌, ◌==◌, leb, Text, text_eq, text_eq_iff, List, [], ◌∷◌, length, keep,
  Option, none, some, Bool, true, false, not, if◌then◌else◌, if-holds, if-holds_cases, elim-holds,
  elim-holds_at, elim-holds_none, ◌≡◌, refl, any, sym, ap, ◌∙◌, arith,
}
use mathlib.Core.Path.{subst}
use pairline.NetworkHealth.{offline, set_api_status}
use pairline.Chat.{present, text_is}
use pairline.VideoChat.{
  Video, Socket, Timer, Job, retries, is_socket, without_timer, set_timer, set_api,
  show_video_signaling_unavailable, says,
}
use pairline.VideoChat.Transport.{
  close_go_web_socket, clear_go_ws_connect_timeout, take_token, start_session, open_go_web_socket,
  can_open_go_web_socket,
}
use pairline.VideoChat.GoSocket.{
  unavailable_text, on_session, on_socket_close, socket_rejected, schedule_reconnect,
  give_up_socket, reopen_session, reconnect_socket,
}
use pairline.VideoChat.Events.{find_job, fire, run_job}
use pairline.VideoChat.Refusals.Reopening.{IsTrying, find_first, fire_first-IsTrying}

-- The server refuses the socket, and the timer of the retry fires if there is one.
unfoldable pub retry : Video → Video
retry c = elim c.go_ws_reconnect_timeout [ none ↦ c | some t ↦ fire t false c ]

unfoldable pub refuse : Video → Video
refuse c = elim c.webrtc_ws [ none ↦ c | some ws ↦ retry (on_socket_close ws 1008 c) ]

unfoldable pub refuse_all : ℕ → Video → Video
refuse_all zero c = c
refuse_all (suc n) c = refuse (refuse_all n c)

retry-schedule_reconnect-IsTrying :
    (n x : ℕ) (xs : Text) (opened delay : ℕ) (ws : Socket) (c : Video)
    → ws.session_id ≡ x ∷ xs
    → c.mounted ≡ true
    → c.session_id_ref ≡ some (x ∷ xs)
    → c.go_ws_reconnect_exhausted ≡ false
    → c.server_rejection_count ≡ n
    → suc (length c.sockets) ≡ opened
    → IsTrying n (x ∷ xs) opened (retry (schedule_reconnect ws delay c))
unfolding retry schedule_reconnect set_timer
retry-schedule_reconnect-IsTrying n x xs opened delay ws c same m e f r o =
    let token = present c.session_token_ref in
    let found =
      find_first c.next (record { id = c.next; delay = delay; job = retries ws.session_id token })
        (without_timer c.go_ws_reconnect_timeout c.timers) refl in
    fire_first-IsTrying n x xs opened c.next token (schedule_reconnect ws delay c)
      (found ∙ ap (λ s. some (retries s token)) same) m e f r o

retry-socket_rejected-IsTrying :
    (n x : ℕ) (xs : Text) (opened : ℕ) (ws : Socket) (c : Video)
    → n < 3
    → ws.session_id ≡ x ∷ xs
    → c.mounted ≡ true
    → c.session_id_ref ≡ some (x ∷ xs)
    → c.go_ws_reconnect_exhausted ≡ false
    → c.server_rejection_count ≡ n
    → suc (length c.sockets) ≡ opened
    → IsTrying (suc n) (x ∷ xs) opened (retry (socket_rejected ws c))
unfolding socket_rejected
retry-socket_rejected-IsTrying n x xs opened ws c small same m e f r o =
    if-holds_cases (λ d. IsTrying (suc n) (x ∷ xs) opened (retry d))
      (leb (c.server_rejection_count + 1) 3)
      (λ h.
        retry-schedule_reconnect-IsTrying (suc n) x xs opened _ ws
          (record c { server_rejection_count = c.server_rejection_count + 1 }) same m e f
          (omega (arith, r)) o)
      (λ h. absurd (ground arith))

-- The state in which the handler of a close goes on.
abbrev unwired : Video → Video
unwired c = record c {
  webrtc_ws = none;
  webrtc_socket_open = false;
  signaling_ready_sent = false;
  timers = without_timer c.go_ws_connect_timeout c.timers;
  go_ws_connect_timeout = none;
}

is_socket-same : (o : Option Socket) (ws : Socket) → o ≡ some ws → not (is_socket o ws) ≡ true → ⊥
is_socket-same none ws e h = ground arith
is_socket-same (some w) ws e h = ground arith

on_socket_close-refused :
    (ws : Socket) (c : Video)
    → c.webrtc_ws ≡ some ws
    → on_socket_close ws 1008 c ≡ socket_rejected ws (unwired c)
unfolding on_socket_close clear_go_ws_connect_timeout
on_socket_close-refused ws c w =
    if-holds_cases (λ d. d ≡ socket_rejected ws (unwired c)) (not (is_socket c.webrtc_ws ws))
      (λ h. absurd (is_socket-same c.webrtc_ws ws w h)) (λ h. refl)

refuse-socket_rejected :
    (ws : Socket) (c : Video)
    → c.webrtc_ws ≡ some ws
    → refuse c ≡ retry (socket_rejected ws (unwired c))
unfolding refuse
refuse-socket_rejected ws c w =
    elim-holds_at (λ d. d ≡ retry (socket_rejected ws (unwired c))) _ _ c.webrtc_ws ws w
      (ap retry (on_socket_close-refused ws c w))

-- Three refusals: each is followed by a retry, which opens the next socket.
refuse-IsTrying :
    (n x : ℕ) (xs : Text) (opened : ℕ) (c : Video)
    → n < 3
    → IsTrying n (x ∷ xs) opened c
    → IsTrying (suc n) (x ∷ xs) (suc opened) (refuse c)
refuse-IsTrying n x xs opened c small (m, e, f, r, o, (ws, w, same)) =
    subst (IsTrying (suc n) (x ∷ xs) (suc opened)) (sym (refuse-socket_rejected ws c w)) (
      retry-socket_rejected-IsTrying n x xs (suc opened) ws (unwired c) small same m e f r
        (ap suc o))

-- What the client is left with when it has given up.
abbrev pub HasGivenUp : ℕ → Video → Type 0
HasGivenUp opened c =
    (c.webrtc_ws ≡ none)
    × (c.go_ws_reconnect_timeout ≡ none)
    × (c.go_ws_reconnect_exhausted ≡ true)
    × (c.health.api_status ≡ offline)
    × (length c.sockets ≡ opened)

give_up_socket-HasGivenUp :
    (opened : ℕ) (c : Video)
    → c.webrtc_ws ≡ none
    → length c.sockets ≡ opened
    → HasGivenUp opened (give_up_socket c)
unfolding give_up_socket set_api set_api_status show_video_signaling_unavailable
give_up_socket-HasGivenUp opened c w o =
    if-holds (HasGivenUp opened) (any (says unavailable_text) c.messages) (w, refl, refl, refl, o)
      (w, refl, refl, refl, o)

retry-HasGivenUp : (opened : ℕ) (c : Video) → HasGivenUp opened c → HasGivenUp opened (retry c)
unfolding retry
retry-HasGivenUp opened c h =
    elim-holds_none (HasGivenUp opened) c _ c.go_ws_reconnect_timeout h.1 h

socket_rejected-HasGivenUp :
    (opened : ℕ) (ws : Socket) (c : Video)
    → c.webrtc_ws ≡ none
    → c.server_rejection_count ≡ 3
    → length c.sockets ≡ opened
    → HasGivenUp opened (socket_rejected ws c)
unfolding socket_rejected
socket_rejected-HasGivenUp opened ws c w r o =
    if-holds_cases (HasGivenUp opened) (leb (c.server_rejection_count + 1) 3)
      (λ h. absurd (ground arith))
      (λ h.
        give_up_socket-HasGivenUp opened
          (record c { server_rejection_count = c.server_rejection_count + 1 }) w o)

refuse-HasGivenUp :
    (s : Text) (opened : ℕ) (c : Video) → IsTrying 3 s opened c → HasGivenUp opened (refuse c)
refuse-HasGivenUp s opened c (m, e, f, r, o, (ws, w, same)) =
    subst (HasGivenUp opened) (sym (refuse-socket_rejected ws c w))
      (retry-HasGivenUp opened _ (socket_rejected-HasGivenUp opened ws (unwired c) refl r o))

-- A mounted chat is in the session `x ∷ xs`, has a socket for it and counts no refusals. If the server
-- refuses every socket and the timers of the retries fire, three more sockets are opened; with the
-- fourth refusal the client has no socket and no retry left, counts its retries as exhausted, and the
-- API is offline.
pub refuse_all-HasGivenUp :
    (x : ℕ) (xs : Text) (opened : ℕ) (c : Video)
    → IsTrying 0 (x ∷ xs) opened c
    → IsTrying 3 (x ∷ xs) (3 + opened) (refuse_all 3 c) × HasGivenUp (3 + opened) (refuse_all 4 c)
unfolding refuse_all
refuse_all-HasGivenUp x xs opened c t =
    let one = refuse-IsTrying 0 x xs opened c (omega arith) t in
    let two = refuse-IsTrying 1 x xs (suc opened) (refuse c) (omega arith) one in
    let three = refuse-IsTrying 2 x xs (suc (suc opened)) (refuse (refuse c)) (omega arith) two in
    let sum : suc (suc (suc opened)) ≡ 3 + opened = omega arith in
    let last = subst (λ k. IsTrying 3 (x ∷ xs) k (refuse_all 3 c)) sum three in
    (last, refuse-HasGivenUp (x ∷ xs) (3 + opened) (refuse_all 3 c) last)
