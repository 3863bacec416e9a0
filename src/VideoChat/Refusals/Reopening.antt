-- ===== src/VideoChat/Refusals/Reopening.antt =====
-- The timer of a retry in frontend/client/src/hooks/useVideoChat.tsx fires: the session is opened
-- again, with a new socket.
use pairline.Base.{
  ℕ, suc, ◌==◌, Text, text_eq_iff, List, ◌∷◌, length, keep, Option, none, some, true, false, not,
  if-holds_cases, elim-holds, elim-holds_at, ◌≡◌, refl, ap, ◌∙◌, arith,
}
use pairline.Chat.{present, text_is}
use pairline.VideoChat.{Video, Socket, Timer, retries, set_timer}
use pairline.VideoChat.Transport.{
  close_go_web_socket, clear_go_ws_connect_timeout, take_token, start_session, open_go_web_socket,
  can_open_go_web_socket,
}
use pairline.VideoChat.GoSocket.{on_session, reopen_session, reconnect_socket}
use pairline.VideoChat.Events.{find_job, fire, run_job}

-- A mounted chat in a session has a socket for it, and `n` refusals were counted.
abbrev pub IsTrying : ℕ → Text → ℕ → Video → Type 0
IsTrying n s opened c =
    (c.mounted ≡ true)
    × (c.session_id_ref ≡ some s)
    × (c.go_ws_reconnect_exhausted ≡ false)
    × (c.server_rejection_count ≡ n)
    × (length c.sockets ≡ opened)
    × ((ws : Socket) × (c.webrtc_ws ≡ some ws) × (ws.session_id ≡ s))

abbrev Keeps : Video → Video → Type 0
Keeps c d =
    (d.mounted ≡ c.mounted)
    × (d.session_id_ref ≡ c.session_id_ref)
    × (d.go_ws_reconnect_exhausted ≡ c.go_ws_reconnect_exhausted)
    × (d.server_rejection_count ≡ c.server_rejection_count)
    × (d.sockets ≡ c.sockets)

close_go_web_socket-Keeps : (c : Video) → Keeps c (close_go_web_socket c)
unfolding close_go_web_socket clear_go_ws_connect_timeout
close_go_web_socket-Keeps c =
    elim-holds (Keeps c) c.webrtc_ws (refl, refl, refl, refl, refl)
      (λ w. (refl, refl, refl, refl, refl))

take_token-Keeps : (token : Option Text) (c : Video) → Keeps c (take_token token c)
unfolding take_token
take_token-Keeps token c =
    elim-holds (Keeps c) (present token) (refl, refl, refl, refl, refl)
      (λ w. (refl, refl, refl, refl, refl))

abbrev begun : Text → Video → Video
begun session c = record c {
  go_ws_reconnect_exhausted = false;
  session_id = some session;
  session_id_ref = some session;
}

abbrev cleared : Text → Option Text → Video → Video
cleared session token c = close_go_web_socket (take_token token (begun session c))

cleared-Keeps : (s : Text) (token : Option Text) (c : Video) → Keeps (begun s c) (cleared s token c)
cleared-Keeps s token c =
    let k = close_go_web_socket-Keeps (take_token token (begun s c)) in
    let l = take_token-Keeps token (begun s c) in
    (k.0 ∙ l.0, k.1 ∙ l.1, k.2 ∙ l.2, k.3 ∙ l.3, k.4 ∙ l.4)

pub text_is_same : (o : Option Text) (s : Text) → o ≡ some s → not (text_is o s) ≡ true → ⊥
text_is_same none s e h = ground arith
text_is_same (some t) s e h = ground (arith, text_eq_iff t s)

open_go_web_socket-IsTrying :
    (n : ℕ) (s : Text) (opened : ℕ) (token : Option Text) (c d : Video)
    → Keeps (begun s c) d
    → c.mounted ≡ true
    → c.server_rejection_count ≡ n
    → suc (length c.sockets) ≡ opened
    → IsTrying n s opened (open_go_web_socket s token d)
unfolding open_go_web_socket set_timer
open_go_web_socket-IsTrying n s opened token c d k m r o =
    (k.0 ∙ m, k.1, k.2, k.3 ∙ r, ap (λ xs. suc (length xs)) k.4 ∙ o, (_, refl, refl))

start_session-IsTrying :
    (n : ℕ) (s : Text) (opened : ℕ) (token : Option Text) (c : Video)
    → c.mounted ≡ true
    → c.server_rejection_count ≡ n
    → suc (length c.sockets) ≡ opened
    → IsTrying n s opened (start_session s token c)
unfolding start_session
start_session-IsTrying n s opened token c m r o =
    let k = cleared-Keeps s token c in
    if-holds_cases (IsTrying n s opened) (not (can_open_go_web_socket (cleared s token c)))
      (λ e. absurd (ground (arith, k.2)))
      (λ e. open_go_web_socket-IsTrying n s opened token c (cleared s token c) k m r o)

reopen_session-IsTrying :
    (n x : ℕ) (xs : Text) (opened : ℕ) (token : Option Text) (c : Video)
    → c.mounted ≡ true
    → c.server_rejection_count ≡ n
    → suc (length c.sockets) ≡ opened
    → IsTrying n (x ∷ xs) opened (reopen_session (x ∷ xs) token c)
unfolding reopen_session on_session
reopen_session-IsTrying n x xs opened token c m r o =
    let k = close_go_web_socket-Keeps c in
    start_session-IsTrying n (x ∷ xs) opened token
      (record (close_go_web_socket c) { session_id_ref = none }) (k.0 ∙ m) (k.3 ∙ r)
      (ap (λ ws. suc (length ws)) k.4 ∙ o)

reconnect_socket-IsTrying :
    (n x : ℕ) (xs : Text) (opened : ℕ) (token : Option Text) (c : Video)
    → c.mounted ≡ true
    → c.session_id_ref ≡ some (x ∷ xs)
    → c.go_ws_reconnect_exhausted ≡ false
    → c.server_rejection_count ≡ n
    → suc (length c.sockets) ≡ opened
    → IsTrying n (x ∷ xs) opened (reconnect_socket (x ∷ xs) token c)
unfolding reconnect_socket
reconnect_socket-IsTrying n x xs opened token c m e f r o =
    if-holds_cases (IsTrying n (x ∷ xs) opened) (not c.mounted) (λ h. absurd (ground arith))
      (λ h.
        if-holds_cases (IsTrying n (x ∷ xs) opened) (not (text_is c.session_id_ref (x ∷ xs)))
          (λ h1. absurd (text_is_same c.session_id_ref (x ∷ xs) e h1))
          (λ h1.
            if-holds_cases (IsTrying n (x ∷ xs) opened) (not (can_open_go_web_socket c))
              (λ h2. absurd (ground arith))
              (λ h2.
                reopen_session-IsTrying n x xs opened token
                  (record c { go_ws_reconnect_timeout = none }) m r o)))

pub find_first : (t : ℕ) (x : Timer) (ts : List Timer) → x.id ≡ t → find_job t (x ∷ ts) ≡ some x.job
find_first t x ts e = ground (arith)

pub fire_first-IsTrying :
    (n x : ℕ) (xs : Text) (opened t : ℕ) (token : Option Text) (c : Video)
    → find_job t c.timers ≡ some (retries (x ∷ xs) token)
    → c.mounted ≡ true
    → c.session_id_ref ≡ some (x ∷ xs)
    → c.go_ws_reconnect_exhausted ≡ false
    → c.server_rejection_count ≡ n
    → suc (length c.sockets) ≡ opened
    → IsTrying n (x ∷ xs) opened (fire t false c)
unfolding fire run_job
fire_first-IsTrying n x xs opened t token c found m e f r o =
    elim-holds_at (IsTrying n (x ∷ xs) opened) _ _ (find_job t c.timers) (retries (x ∷ xs) token)
      found
      (reconnect_socket-IsTrying n x xs opened token
        (record c { timers = keep (λ (y : Timer). not (y.id == t)) c.timers }) m e f r o)
