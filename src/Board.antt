-- ===== src/Board.antt =====
-- apps/mobile/hooks/useMapApp.ts: the departure board of the open stop, and its polling.
pub mod Defs
pub mod Polling
mod Examples
