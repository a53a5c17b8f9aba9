-- ===== src/Home.antt =====
-- apps/web/app/routes/home.tsx: the map screen of the web app, and the mobile one beside it.
pub mod Defs
pub mod Tabs
pub mod Actions
pub mod Same
pub mod Single
pub mod Unfollowed
pub mod Agreement
pub mod Polls
pub mod Answers
mod Examples
