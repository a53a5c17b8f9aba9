-- ===== src/WebMap.antt =====
-- apps/web/app/components/MapView.tsx: the fleet on the web map, and its stop layer.
pub mod Defs
pub mod Agreement
pub mod Tint
pub mod Stops
pub mod Layers
pub mod Scene
pub mod Fits
pub mod Shown
pub mod Restyled
pub mod Camera
pub mod Follow
mod Examples
