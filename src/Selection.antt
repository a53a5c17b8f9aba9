-- ===== src/Selection.antt =====
-- apps/mobile/hooks/useMapApp.ts: the selection of vehicles and the trip plan of the active one.
pub mod Defs
pub mod Tabs
pub mod Close
pub mod Actions
pub mod Trips
mod Examples
