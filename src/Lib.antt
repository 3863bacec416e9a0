-- ===== src/Lib.antt =====
-- Pairline is a service for text and video chats between strangers. Its clients are the React
-- application frontend/client and the admin panel frontend/admin; a Phoenix server matches the users
-- and a Go server carries the WebRTC signalling. This library models the logic of
-- frontend/client/src and of frontend/admin/src.
--
-- The parts and how they interact:
-- - Message (types/index.ts, chatModeration.ts): the messages of the wire and of the chat window.
-- - IceServers (services/iceServers.ts): the servers of the TURN bootstrap are made unique, one URL
--   for each kind is chosen in the integrated mode, and the transport filter is applied.
-- - WebSocket (services/websocket.ts): the client of a Phoenix channel. `Client` has the fields of
--   the class, and the timers, intervals, promises, calls of handlers and pushes that the class
--   leaves in the world. WebSocket.Sending has `send`, `sendWithResponse` and the registration,
--   WebSocket.Events all that can happen, in any order.
-- - NetworkHealth (hooks/useNetworkHealth.tsx): the statuses that the hooks report, the redirect to
--   `/unavailable` and the banners.
-- - Chat: what useTextChat and useVideoChat share.
-- - TextChat (hooks/useTextChat.tsx): `Chat` is the state of the hook, its client and its health
--   context included. TextChat has the handler of messages, TextChat.Actions the effect that
--   connects and the operations, TextChat.Events all that can happen.
-- - VideoChat (hooks/useVideoChat.tsx): `Video` is the state of the hook with its refs and the timers
--   that are set. VideoChat.Transport closes and opens the socket to the Go server, VideoChat.GoSocket
--   has its events and retries, VideoChat.Turn the bootstrap of the TURN servers, VideoChat.Signals
--   and VideoChat.Offers the negotiation, VideoChat.Handlers the handler of messages,
--   VideoChat.Actions the effect and the operations, VideoChat.Events all that can happen. A function
--   that waits is one definition for each stretch between two `await`s, and what the browser tells of
--   its sockets and peer connections is an argument. VideoChat.Media has the local stream with its
--   drawn fallback, the transceivers and the video elements, apart from `Video`. VideoChat.Keeping is the
--   interface between a property of the messages and the socket and VideoChat.Kept, which shows that
--   every event keeps it.
-- - Views (components/TextChat.tsx, VideoChat.tsx, ReportDialog.tsx, EntryModal.tsx, LandingPage.tsx,
--   hooks/useTheme.tsx): what the views keep themselves. Views.Typing is the input of a chat with its
--   timer, Views.Starting the tags and the CAPTCHA before a search, Views.Layout and Views.Notice the
--   video, Views.Reporting the report, Views.Entry the way into a chat, Views.Theme both themes.
-- - Admin (frontend/admin/src/components/AdminPanelRuntime.tsx, admin-panel/utils.ts, types/index.ts):
--   `Panel` is the state of the admin panel with the browser's storage and what has gone out.
--   Admin.Session has the session, `adminFetch` and `logout`, Admin.Fetching the reads and the filters,
--   Admin.Reviewing the decisions and the selection, Admin.Banning the modal of a ban, Admin.Managing
--   the words, the moderation and the accounts, Admin.Bots and Admin.BotForms the bots, Admin.Events
--   all that can happen. Admin.Keeping is the interface between a property of the panel and
--   Admin.Kept, which shows that every event keeps it. A function takes the values of the render that
--   made it, `view`, and changes the current state; the server is a parameter, a function of the
--   requests, and an operation runs to its end, with the reads that it starts, before the next event.
-- Base holds lists, texts and maps over the native numbers. The Tests modules hold runs and
-- instances of the theorems.
--
-- How the code is read: a method or handler is a function on the state, named as in the source with
-- snake_case; `leave` and `skip_peer` are the hook's `disconnect` and `skip`, `search` the part of
-- `startSearch` behind its wait. A setter of React is an assignment, and an operation reads the
-- current status. A text is a list of UTF-16 code units; `trim` takes off white space and
-- `to_lower` maps the ASCII letters, which is all that the keywords sought need. A UUID, a timer, a
-- socket and a promise are numbers that are given out in turn.
--
-- Bounds: every loop of the source goes over a list, so that each function is structural recursion.
-- Fuel is used only to print a number in decimal, n + 1 for the number n, which has no more digits.
-- `Number(s)` reads decimal numbers with a sign and a point, and no exponents; the end of a ban lies
-- within the range of dates.
--
-- Not modelled: the Phoenix library (a parameter: `Answer` for what its calls do, events for what it
-- reports), the browser's sockets, peer connections and media devices, the drawing of the mock camera, rendering
-- and markup, CSS classes, the formats of dates, the drag of the preview and sizes in pixels,
-- logging, the Go and Elixir services, and the deployment files.
pub mod Base
pub mod Message
pub mod IceServers
pub mod WebSocket
pub mod NetworkHealth
pub mod Chat
pub mod TextChat
pub mod VideoChat
pub mod Admin
pub mod Views
