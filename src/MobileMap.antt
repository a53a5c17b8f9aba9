-- ===== src/MobileMap.antt =====
-- apps/mobile/components/map/LiveMap.tsx: the map of the mobile app, which joins the live client,
-- the vehicle store, the marker images and the layers of stops; hooks/useMarkerImages.ts.
pub mod Images
pub mod Baked
pub mod Defs
pub mod Events
pub mod Renders
pub mod Same
pub mod Told
pub mod Effects
pub mod Run
pub mod Flush
pub mod Gesture
pub mod Server
mod Examples
