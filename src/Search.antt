-- ===== src/Search.antt =====
-- apps/mobile/hooks/useMapApp.ts: the vehicle search.
pub mod Defs
pub mod Runs
mod Examples
