-- ===== src/Fleet.antt =====
-- apps/mobile/lib/vehicleStore.ts: the live fleet.
pub mod Defs
pub mod Contents
pub mod Events
pub mod Flush
mod Examples
