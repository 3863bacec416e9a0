-- ===== src/TextChat/Closing.antt =====
-- A connection that is lost and comes back, in frontend/client/src/hooks/useTextChat.tsx.
use pairline.Base.{lit, [], ◌∷◌, ◌++◌, none, true, false, not, ◌&&◌, if◌then◌else◌, ◌≡◌, arith}
use pairline.Chat.{idle, system_message}
use pairline.TextChat.{Chat}
use pairline.TextChat.Actions.{on_close, on_open, is_live}

-- Closing a second time changes nothing: the loss is reported once, and only to a chat or a search
-- that was under way while no report was shown. When the connection comes back, a mounted hook is
-- idle, connected, has no peer and no session, and may report the next loss.
pub close_open :
    (c : Chat)
    → c.mounted ≡ true
    → (on_close (on_close c) ≡ on_close c)
      × ((on_close c).messages ≡ (
          if is_live c.status && not c.show_reconnect_message
          then c.messages
            ++ system_message c.next c.now (lit "Connection to server lost. Reconnecting...") none
              ∷ []
          else c.messages))
      × ((on_open (on_close c)).status ≡ idle)
      × ((on_open (on_close c)).is_connected ≡ true)
      × ((on_open (on_close c)).peer_id ≡ none)
      × ((on_open (on_close c)).session_id ≡ none)
      × ((on_open (on_close c)).session_token ≡ none)
      × ((on_open (on_close c)).report_peer_id ≡ none)
      × ((on_open (on_close c)).show_reconnect_message ≡ false)
unfolding on_close on_open
close_open c h = (
  ground arith,
  ground arith,
  ground arith,
  ground arith,
  ground arith,
  ground arith,
  ground arith,
  ground arith,
  ground arith,
)
