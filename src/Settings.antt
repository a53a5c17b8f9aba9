-- ===== src/Settings.antt =====
-- apps/mobile/lib/config.ts and apps/web/app/lib/config.ts: what the clients remember.
pub mod Json
pub mod Defs
pub mod Valid
pub mod Roundtrip
mod Examples
