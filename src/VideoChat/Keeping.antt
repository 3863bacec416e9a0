-- ===== src/VideoChat/Keeping.antt =====
-- What a property of the messages and of the socket of frontend/client/src/hooks/useVideoChat.tsx needs, so
-- that every event of VideoChat/Events.antt keeps it: `Keeps` has one field for each way in which the hook
-- changes them.
use pairline.Base.{
  ℕ, Text, List, [], ◌∷◌, ◌++◌, Option, none, some, is_some, any, Bool, true, false, ◌≡◌, ◌⊎◌,
}
use pairline.Message.{ChatMessage, DeliveryStatus}
use pairline.Chat.{system_message, update_delivery_status}
use pairline.VideoChat.{Video, Socket, capped, says}
use pairline.VideoChat.GoSocket.{unavailable_text, timed_out_text}
use pairline.VideoChat.Handlers.{greeting}

-- The messages, the socket, whether it is open, whether "ready" was sent, and the timer of its
-- connection.
abbrev pub Part : Type 1
Part = List ChatMessage → Option Socket → Bool → Bool → Option ℕ → Type 0

abbrev pub Holds : Part → Video → Type 0
Holds Q c =
    Q c.messages c.webrtc_ws c.webrtc_socket_open c.signaling_ready_sent c.go_ws_connect_timeout

-- The two notices that are added without the cap.
abbrev pub IsNotice : Text → Type 0
IsNotice text = (text ≡ unavailable_text) ⊎ (text ≡ timed_out_text)

pub record Keeps (Q : Part) : Type 0 where
  pub pushed :
      (m : ChatMessage) (ms : List ChatMessage) (ws : Option Socket) (is_open is_ready : Bool)
      (t : Option ℕ)
      → Q ms ws is_open is_ready t
      → Q (capped (ms ++ m ∷ [])) ws is_open is_ready t
  pub noticed :
      (text : Text) (id now : ℕ) (ms : List ChatMessage) (ws : Option Socket)
      (is_open is_ready : Bool) (t : Option ℕ)
      → IsNotice text
      → any (says text) ms ≡ false
      → Q ms ws is_open is_ready t
      → Q (ms ++ system_message id now text none ∷ []) ws is_open is_ready t
  pub cleared :
      (ms : List ChatMessage) (ws : Option Socket) (is_open is_ready : Bool) (t : Option ℕ)
      → Q ms ws is_open is_ready t
      → Q [] ws is_open is_ready t
  pub greeted :
      (video_enabled : Bool) (next now : ℕ) (common : List Text) (ms : List ChatMessage)
      (ws : Option Socket) (is_open is_ready : Bool) (t : Option ℕ)
      → Q ms ws is_open is_ready t
      → Q (greeting video_enabled next now common) ws is_open is_ready t
  pub marked :
      (id : ℕ) (status : DeliveryStatus) (ms : List ChatMessage) (ws : Option Socket)
      (is_open is_ready : Bool) (t : Option ℕ)
      → Q ms ws is_open is_ready t
      → Q (update_delivery_status id status none ms) ws is_open is_ready t
  pub closed :
      (ms : List ChatMessage) (ws : Option Socket) (is_open is_ready : Bool) (t : Option ℕ)
      → Q ms ws is_open is_ready t
      → Q ms none false false none
  pub unready :
      (ms : List ChatMessage) (ws : Option Socket) (is_open is_ready : Bool) (t : Option ℕ)
      → Q ms ws is_open is_ready t
      → Q ms ws is_open false t
  pub untimed :
      (ms : List ChatMessage) (ws : Option Socket) (is_open is_ready : Bool) (t : Option ℕ)
      → Q ms ws is_open is_ready t
      → Q ms ws is_open is_ready none
  pub begun :
      (s : Socket) (n : ℕ) (ms : List ChatMessage) (ws : Option Socket) (is_open is_ready : Bool)
      (t : Option ℕ)
      → ws ≡ none
      → Q ms ws is_open is_ready t
      → Q ms (some s) false is_ready (some n)
  pub opened :
      (ms : List ChatMessage) (ws : Option Socket) (is_open is_ready : Bool) (t : Option ℕ)
      → is_some ws ≡ true
      → Q ms ws is_open is_ready t
      → Q ms ws true is_ready none
  pub readied :
      (ms : List ChatMessage) (ws : Option Socket) (is_open is_ready : Bool) (t : Option ℕ)
      → is_open ≡ true
      → Q ms ws is_open is_ready t
      → Q ms ws is_open true t
