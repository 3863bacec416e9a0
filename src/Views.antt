-- ===== src/Views.antt =====
-- The views of frontend/client/src/components, as far as they keep a state of their own: the input of a
-- chat, the start of a search, the layout of the video, the report and the way in.
pub mod Typing
pub mod Starting
pub mod Layout
pub mod Notice
pub mod Theme
pub mod Reporting
pub mod Entry
mod Tests
