-- ===== src/VehicleLive.antt =====
-- apps/web/app/lib/live.ts and apps/mobile/lib/live.ts: the stream of one vehicle.
pub mod Defs
pub mod Ended
mod Examples
