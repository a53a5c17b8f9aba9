-- ===== src/Trip.antt =====
-- packages/shared/src/trip.ts: where a vehicle is in its trip.
pub mod Defs
pub mod Nearest
pub mod Upcoming
mod Examples
