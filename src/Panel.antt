-- ===== src/Panel.antt =====
-- packages/shared/src/vehicle-view.ts: what the panels show of a vehicle.
pub mod Defs
pub mod Sources
