-- ===== src/VideoChat/TurnFetch.antt =====
-- The promise of `fetchTurnServers` in frontend/client/src/hooks/useVideoChat.tsx when the session is
-- not there yet.
use pairline.Base.{Text, none, some, true, ◌≡◌, arith}
use pairline.Chat.{present}
use pairline.VideoChat.{Video}
use pairline.VideoChat.Turn.{Config, fetch_turn_servers}

-- A call of `fetchTurnServers` without a token of the session asks nothing of the server, and its
-- promise stays: whatever session and token come later, the next call asks nothing either.
pub turn_fetch_sticks :
    (config : Config) (c : Video) (session token : Text)
    → config.turn_enabled ≡ true
    → c.turn_fetch_promise ≡ none
    → present c.session_token_ref ≡ none
    → ((fetch_turn_servers config c).fetches ≡ c.fetches)
      × (fetch_turn_servers config (record (fetch_turn_servers config c) {
        session_id_ref = some session;
        session_token_ref = some token;
      })
          ≡ record (fetch_turn_servers config c) {
            session_id_ref = some session;
            session_token_ref = some token;
          })
unfolding fetch_turn_servers
turn_fetch_sticks config c session token on free missing = ground (arith)
