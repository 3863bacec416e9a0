-- ===== src/VideoChat/Wiring.antt =====
-- The socket to the Go server in frontend/client/src/hooks/useVideoChat.tsx: what is known of it
-- after any events.
use pairline.Base.{Text, List, is_some, true, ◌≡◌, refl, arith}
use pairline.VideoChat.{Video, new}
use pairline.VideoChat.Turn.{Config}
use pairline.VideoChat.Events.{Event, run}
use pairline.VideoChat.Keeping.{Part, Keeps}
use pairline.VideoChat.Kept.{run-kept}

-- "Ready" is sent only on an open socket, and a socket is open only if it is there; a timer for the
-- connection is known only beside its socket.
abbrev Wired : Part
Wired ms ws is_open is_ready t =
    (is_ready ≡ true → is_open ≡ true)
    × (is_open ≡ true → is_some ws ≡ true)
    × (is_some t ≡ true → is_some ws ≡ true)

abbrev pub IsWired : Video → Type 0
IsWired c =
    Wired c.messages c.webrtc_ws c.webrtc_socket_open c.signaling_ready_sent c.go_ws_connect_timeout

Keeps-Wired : Keeps Wired
Keeps-Wired = record {
  pushed = λ m ms ws o r t v. v;
  noticed = λ text id now ms ws o r t n e v. v;
  cleared = λ ms ws o r t v. v;
  greeted = λ b n w common ms ws o r t v. v;
  marked = λ id s ms ws o r t v. v;
  closed = λ ms ws o r t v.
      (λ h. absurd (ground arith), λ h. absurd (ground arith), λ h. absurd (ground arith));
  unready = λ ms ws o r t v. (λ h. absurd (ground arith), v.1, v.2);
  untimed = λ ms ws o r t v. (v.0, v.1, λ h. absurd (ground arith));
  begun = λ s n ms ws o r t e v. (λ h. absurd (ground (arith, v.0, v.1)), λ h. refl, λ h. refl);
  opened = λ ms ws o r t e v. (λ h. refl, λ h. e, λ h. absurd (ground arith));
  readied = λ ms ws o r t e v. (λ h. e, v.1, v.2);
}

-- After any events in any order: the client has told the server that it is ready for signals only
-- while its socket to the Go server is open, a socket that counts as open is there, and a timer for
-- the connection is known only beside a socket.
pub run-IsWired :
    (config : Config) (es : List Event) (ws_url : Text) → IsWired (run config es (new ws_url))
unfolding new
run-IsWired config es ws_url =
    run-kept Wired Keeps-Wired config es (new ws_url) (λ h. h, λ h. h, λ h. h)
